-- ===== src/Orgs/Effects.antt =====
-- What the membership operations change, and that they change nothing else
-- (backend/app/services/org_service.py).
use cgraph.Prelude.{
  ℕ, ◌≤◌, ◌≡◌, refl, String, true, ◌&&◌, none, some, [], ◌∷◌, arith, ◌==◌, if◌then◌else◌, length,
  inl, inr, Option-cases, sym, subst,
}
use cgraph.Prelude.Rows.{
  select, first, first-true, length-select-append, length-select-delete, length-select-update,
  select-of-first-none, first-of-select-nil, first-append, first-update_self, first-update_hidden,
  first-delete_hidden, delete_first,
}
use cgraph.Errors.{Result, ok, err, Result-cases}
use cgraph.Orgs.{
  OrgMembership, OrgDb, is_member, add_or_update_member, update_member, insert_member,
  assign_member, check_assignable, remove_member, delete_member,
}

-- `UniqueConstraint("org_id", "user_id")`
abbrev pub IsUnique : OrgDb → Type 0
IsUnique db = (o u : ℕ) → length (select (is_member o u) db.memberships) ≤ 1

abbrev promoted : String → OrgMembership → OrgMembership
promoted role m = record m { role = role; is_active = true }

abbrev new_row : ℕ → ℕ → ℕ → String → OrgMembership
new_row now org_id user_id role = record {
  org_id = org_id;
  user_id = user_id;
  role = role;
  is_active = true;
  created_at = now;
}

-- What a call has done that gives `user_id` a role: the returned row is the one that the table now
-- holds under its key, it is active in that role, every other membership and the organisations are
-- as before, and the keys are still unique. A call that raises leaves the database alone.
abbrev pub Assigned : OrgDb → ℕ → ℕ → String → Result OrgMembership × OrgDb → Type 0
Assigned db org_id user_id role (ok m, db') =
    (m.role ≡ role)
    × (m.is_active ≡ true)
    × (db'.organizations ≡ db.organizations)
    × ((o u : ℕ)
        → first (is_member o u) db'.memberships ≡ (
            if (o == org_id) && (u == user_id)
            then some m
            else first (is_member o u) db.memberships))
    × IsUnique db'
Assigned db org_id user_id role (err e, db') = db' ≡ db

update_member-Assigned :
    (db : OrgDb) (org_id user_id : ℕ) (m : OrgMembership) (role actor : String) (r : OrgMembership)
    (db' : OrgDb)
    → IsUnique db
    → first (is_member org_id user_id) db.memberships ≡ some m
    → update_member org_id user_id role actor m db ≡ ok (r, db')
    → Assigned db org_id user_id role (ok r, db')
unfolding update_member
update_member-Assigned db org_id user_id m role actor r db' unique found e = (
  ground arith,
  ground arith,
  ground arith,
  λ o u. ground (
    arith,
    first-true (is_member org_id user_id) db.memberships m found,
    first-update_self (is_member org_id user_id) (promoted role) db.memberships m found,
    first-update_hidden (is_member o u) (is_member org_id user_id) (promoted role) db.memberships m
        found,
  ),
  λ o u. ground (
    arith,
    unique o u,
    length-select-update (is_member o u) (is_member org_id user_id) (promoted role) db.memberships m
        found,
  ),
)

insert_member-Assigned :
    (now org_id user_id : ℕ) (role : String) (db : OrgDb) (r : OrgMembership) (db' : OrgDb)
    → IsUnique db
    → first (is_member org_id user_id) db.memberships ≡ none
    → insert_member now org_id user_id role db ≡ ok (r, db')
    → Assigned db org_id user_id role (ok r, db')
unfolding insert_member
insert_member-Assigned now org_id user_id role db r db' unique absent e = (
  ground arith,
  ground arith,
  ground arith,
  λ o u. ground (
    arith,
    first-append (is_member o u) db.memberships (new_row now org_id user_id role),
    Option-cases (first (is_member o u) db.memberships),
  ),
  λ o u. ground (
    arith,
    unique o u,
    select-of-first-none (is_member org_id user_id) db.memberships absent,
    length-select-append (is_member o u) db.memberships (new_row now org_id user_id role ∷ []),
  ),
)

assign_member-Assigned :
    (now org_id user_id : ℕ) (role actor : String) (db : OrgDb) (r : OrgMembership) (db' : OrgDb)
    → IsUnique db
    → assign_member now org_id user_id role actor db ≡ ok (r, db')
    → Assigned db org_id user_id role (ok r, db')
unfolding assign_member
assign_member-Assigned now org_id user_id role actor db r db' unique e =
    elim (Option-cases (first (is_member org_id user_id) db.memberships)) [
      | inl absent ↦
          insert_member-Assigned now org_id user_id role db r db' unique absent (ground arith)
      | inr (m, found) ↦
          update_member-Assigned db org_id user_id m role actor r db' unique found (ground arith)
    ]

-- Given that the keys of the memberships are unique, adding or changing a member either raises and
-- leaves the database alone, or returns the row that the table now holds for that user, active and
-- in the role that was asked for, and changes no other membership and no organisation; the keys
-- stay unique.
pub add_or_update_member-Assigned :
    (now org_id user_id : ℕ) (role actor : String) (db : OrgDb)
    → IsUnique db
    → Assigned db org_id user_id role (add_or_update_member now org_id user_id role actor db)
unfolding add_or_update_member
add_or_update_member-Assigned now org_id user_id role actor db unique =
    elim (Result-cases (check_assignable role actor)) [
      | inr (e, refused) ↦
          let done : add_or_update_member now org_id user_id role actor db ≡ (err e, db) =
            ground arith in
          subst (Assigned db org_id user_id role) (sym done) refl
      | inl (u, passed) ↦ elim (Result-cases (assign_member now org_id user_id role actor db)) [
        | inr (e, raised) ↦
            let done : add_or_update_member now org_id user_id role actor db ≡ (err e, db) =
              ground arith in
            subst (Assigned db org_id user_id role) (sym done) refl
        | inl ((r, db'), done) ↦
            let returned : add_or_update_member now org_id user_id role actor db ≡ (ok r, db') =
              ground arith in
            subst (Assigned db org_id user_id role) (sym returned)
              (assign_member-Assigned now org_id user_id role actor db r db' unique done)
      ]
    ]

abbrev pub Removed : OrgDb → ℕ → ℕ → Result (Unit {0}) × OrgDb → Type 0
Removed db org_id user_id (ok _, db') =
    (db'.organizations ≡ db.organizations)
    × ((o u : ℕ)
        → first (is_member o u) db'.memberships ≡ (
            if (o == org_id) && (u == user_id) then none else first (is_member o u) db.memberships))
    × IsUnique db'
Removed db org_id user_id (err e, db') = db' ≡ db

remove_row :
    (db : OrgDb) (org_id user_id : ℕ) (m : OrgMembership)
    → IsUnique db
    → first (is_member org_id user_id) db.memberships ≡ some m
    → Removed db org_id user_id
        (ok tt, record db { memberships = delete_first (is_member org_id user_id) db.memberships })
remove_row db org_id user_id m unique found = (
  refl,
  λ o u. ground (
    arith,
    unique org_id user_id,
    first-true (is_member org_id user_id) db.memberships m found,
    length-select-delete (is_member org_id user_id) (is_member org_id user_id) db.memberships m
        found,
    first-of-select-nil (is_member org_id user_id)
        (delete_first (is_member org_id user_id) db.memberships),
    first-delete_hidden (is_member o u) (is_member org_id user_id) db.memberships m found,
  ),
  λ o u. ground (
    arith,
    unique o u,
    length-select-delete (is_member o u) (is_member org_id user_id) db.memberships m found,
  ),
)

delete_member-Removed :
    (org_id user_id : ℕ) (actor : String) (db db' : OrgDb)
    → IsUnique db
    → delete_member org_id user_id actor db ≡ ok (tt, db')
    → Removed db org_id user_id (ok tt, db')
unfolding delete_member
delete_member-Removed org_id user_id actor db db' unique done =
    elim (Option-cases (first (is_member org_id user_id) db.memberships)) [
      | inl absent ↦ absurd (ground arith)
      | inr (m, found) ↦
          let same : db'
              ≡ record db { memberships = delete_first (is_member org_id user_id) db.memberships } =
            ground arith in
          rw same (remove_row db org_id user_id m unique found)
    ]

-- Given that the keys of the memberships are unique, removing a member either raises and leaves the
-- database alone, or leaves no membership of that user in the organisation and every other
-- membership and the organisations as before; the keys stay unique.
pub remove_member-Removed :
    (org_id user_id : ℕ) (actor : String) (db : OrgDb)
    → IsUnique db
    → Removed db org_id user_id (remove_member org_id user_id actor db)
unfolding remove_member
remove_member-Removed org_id user_id actor db unique =
    elim (Result-cases (delete_member org_id user_id actor db)) [
      | inr (e, raised) ↦
          let done : remove_member org_id user_id actor db ≡ (err e, db) = ground arith in
          subst (Removed db org_id user_id) (sym done) refl
      | inl ((u, db'), done) ↦
          let returned : remove_member org_id user_id actor db ≡ (ok u, db') = ground arith in
          subst (Removed db org_id user_id) (sym returned)
            (delete_member-Removed org_id user_id actor db db' unique done)
    ]
