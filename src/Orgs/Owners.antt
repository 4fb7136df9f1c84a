-- ===== src/Orgs/Owners.antt =====
-- The owners of an organisation under the operations of backend/app/services/org_service.py.
use cgraph.Prelude.{
  ℕ, ◌≤◌, ◌<◌, ◌≡◌, refl, String, true, some, List, [], ◌∷◌, arith, length, inl, inr, Option-cases,
}
use cgraph.Prelude.Rows.{
  select, first, first-true, select_only, length-select-append, length-select-delete,
  length-select-update,
}
use cgraph.Text.{Text}
use cgraph.Errors.{ok, Result-cases}
use cgraph.Orgs.{
  OrgMembership, OrgDb, is_member, is_active_owner, ensure_not_last_active_owner, create_org,
  add_or_update_member, update_member, insert_member, assign_member, check_assignable,
  remove_member, delete_member,
}

abbrev pub active_owners : ℕ → OrgDb → List OrgMembership
active_owners org_id db = select (is_active_owner org_id) db.memberships

-- The check passes for an active owner only where there is a second one.
ensure_two :
    (db : OrgDb) (org_id user_id : ℕ) (m : OrgMembership)
    → first (is_member org_id user_id) db.memberships ≡ some m
    → is_active_owner org_id m ≡ true
    → ensure_not_last_active_owner db org_id user_id ≡ ok tt
    → 2 ≤ length (active_owners org_id db)
unfolding ensure_not_last_active_owner
ensure_two db o u m found owner passed = go (active_owners o db) refl
  where
    go : (l : List OrgMembership) → active_owners o db ≡ l → 2 ≤ length (active_owners o db)
    go [] e =
        ground
          (arith, length-select-delete (is_active_owner o) (is_member o u) db.memberships m found)
    go (x ∷ []) e = ground (
      arith,
      select_only (is_active_owner o) (is_member o u) db.memberships m found owner,
      first-true (is_member o u) db.memberships m found,
    )
    go (x ∷ y ∷ l) e = ground arith

-- What the two lemmas below share: the row that an operation on `org_id` and `user_id` finds.
module _ (db : OrgDb) (org_id user_id : ℕ) (m : OrgMembership) (o : ℕ)
    (found : first (is_member org_id user_id) db.memberships ≡ some m) where
  update_member-owned :
      (role actor : String) (r : OrgMembership) (db' : OrgDb)
      → 0 < length (active_owners o db)
      → update_member org_id user_id role actor m db ≡ ok (r, db')
      → 0 < length (active_owners o db')
  unfolding update_member
  update_member-owned role actor r db' h e = ground (
    arith,
    first-true (is_member org_id user_id) db.memberships m found,
    ensure_two db org_id user_id m found,
    length-select-update (is_active_owner o) (is_member org_id user_id)
        (λ (m : OrgMembership). record m { role = role; is_active = true }) db.memberships m found,
  )

insert_member-owned :
    (now org_id user_id : ℕ) (role : String) (db : OrgDb) (o : ℕ) (r : OrgMembership) (db' : OrgDb)
    → 0 < length (active_owners o db)
    → insert_member now org_id user_id role db ≡ ok (r, db')
    → 0 < length (active_owners o db')
unfolding insert_member
insert_member-owned now org_id user_id role db o r db' h e = ground (
  arith,
  length-select-append (is_active_owner o) db.memberships (
      record { org_id = org_id; user_id = user_id; role = role; is_active = true; created_at = now }
      ∷ []),
)

-- The three operations that write memberships, whether they end or raise, leave every organisation
-- that has an active owner with one.
pub add_or_update_member-owned :
    (now org_id user_id : ℕ) (role actor : String) (db : OrgDb) (o : ℕ)
    → 0 < length (active_owners o db)
    → 0 < length (active_owners o (add_or_update_member now org_id user_id role actor db).1)
unfolding add_or_update_member check_assignable assign_member
add_or_update_member-owned now org_id user_id role actor db o h =
    elim (Option-cases (first (is_member org_id user_id) db.memberships)) [
      | inl absent ↦ elim (Result-cases (insert_member now org_id user_id role db)) [
        | inl ((r, db'), e) ↦
            ground (arith, insert_member-owned now org_id user_id role db o r db' h e)
        | inr (x, e) ↦ ground arith
      ]
      | inr (m, found) ↦ elim (Result-cases (update_member org_id user_id role actor m db)) [
        | inl ((r, db'), e) ↦
            ground (arith, update_member-owned db org_id user_id m o found role actor r db' h e)
        | inr (x, e) ↦ ground arith
      ]
    ]

pub remove_member-owned :
    (org_id user_id : ℕ) (actor : String) (db : OrgDb) (o : ℕ)
    → 0 < length (active_owners o db)
    → 0 < length (active_owners o (remove_member org_id user_id actor db).1)
unfolding remove_member delete_member
remove_member-owned org_id user_id actor db o h =
    elim (Option-cases (first (is_member org_id user_id) db.memberships)) [
      | inl absent ↦ ground arith
      | inr (m, found) ↦ ground (
        arith,
        first-true (is_member org_id user_id) db.memberships m found,
        ensure_two db org_id user_id m found,
        length-select-delete (is_active_owner o) (is_member org_id user_id) db.memberships m found,
      )
    ]

pub create_org-owned :
    (now : ℕ) (name : Text) (user_id : ℕ) (db : OrgDb) (o : ℕ)
    → 0 < length (active_owners o db)
    → 0 < length (active_owners o (create_org now name user_id db).1)
unfolding create_org
create_org-owned now name user_id db o h = ground (
  arith,
  length-select-append (is_active_owner o) db.memberships (
      record {
        org_id = db.next_org_id;
        user_id = user_id;
        role = "owner";
        is_active = true;
        created_at = now;
      }
      ∷ []),
)
