-- ===== src/Orgs.antt =====
-- backend/app/services/org_service.py over the tables `organization` and `orgmembership`.
pub mod Owners
pub mod Authority
pub mod Effects
pub mod Requests
use cgraph.Prelude.{
  ℕ, ◌+◌, String, Bool, true, false, not, ◌&&◌, Option, none, some, List, [], ◌∷◌, ◌++◌, map, ◌==◌,
  str_eq, if◌then◌else◌, take,
}
use cgraph.Prelude.Rows.{select, first, update_first, delete_first}
use cgraph.Text.{Text, codes, strip}
use cgraph.Errors.{
  Exception, bad_request, not_found, forbidden, bad_role, no_rights_to_assign, no_rights_to_change,
  no_rights_to_remove, last_owner, no_org, no_member, Result, ok, err, ◌>>=◌, ◌>>◌, raise_if,
}
use cgraph.Rbac.{in_org_roles, can_manage_member_role}

-- Timestamps are numbers.
pub record Organization : Type 0 where
  pub id : ℕ
  pub name : Text
  pub slug : Option Text
  pub created_at : ℕ

pub record OrgMembership : Type 0 where
  pub org_id : ℕ
  pub user_id : ℕ
  pub role : String
  pub is_active : Bool
  pub created_at : ℕ

-- `next_org_id` is the sequence behind `organization.id`.
pub record OrgDb : Type 0 where
  pub organizations : List Organization
  pub memberships : List OrgMembership
  pub next_org_id : ℕ

-- `async with session.begin()`: the block's writes are kept if it ends, and undone if it raises.
abbrev pub begin {ℓ} : {A : Type ℓ} → (OrgDb → Result (A × OrgDb)) → OrgDb → Result A × OrgDb
begin block db = elim (block db) [ ok (a, db') ↦ (ok a, db') | err e ↦ (err e, db) ]

-- `value[:200]` of the stripped name, or the fallback
unfoldable pub normalize_org_name : Text → Text → Text
unfolding strip
normalize_org_name name fallback = elim (strip name) [ [] ↦ fallback | c ∷ s ↦ take 200 (c ∷ s) ]

unfoldable pub validate_role : String → Result String
validate_role role = if in_org_roles role then ok role else err (bad_request bad_role)

abbrev pub is_org : ℕ → Organization → Bool
is_org org_id o = o.id == org_id

-- `WHERE org_id = … AND user_id = …`
abbrev pub is_member : ℕ → ℕ → OrgMembership → Bool
is_member org_id user_id m = m.org_id == org_id && m.user_id == user_id

-- `WHERE org_id = … AND role = 'owner' AND is_active`
abbrev pub is_active_owner : ℕ → OrgMembership → Bool
is_active_owner org_id m = m.org_id == org_id && (str_eq m.role "owner" && m.is_active)

-- `len(ids) == 1 and int(ids[0]) == user_id`
abbrev is_only : ℕ → List ℕ → Bool
is_only user_id (u ∷ []) = u == user_id
is_only user_id _ = false

unfoldable pub ensure_not_last_active_owner : OrgDb → ℕ → ℕ → Result (Unit {0})
ensure_not_last_active_owner db org_id user_id =
    let active_owner_user_ids =
      map (λ m. m.user_id) (select (is_active_owner org_id) db.memberships) in
    raise_if (is_only user_id active_owner_user_ids) (bad_request last_owner)

unfoldable pub create_org : ℕ → Text → ℕ → OrgDb → Result Organization × OrgDb
create_org now name owner_user_id = begin λ db.
    let org : Organization = record {
      id = db.next_org_id;
      name = normalize_org_name name (codes "Personal");
      slug = none;
      created_at = now;
    } in
    let membership : OrgMembership = record {
      org_id = org.id;
      user_id = owner_user_id;
      role = "owner";
      is_active = true;
      created_at = now;
    } in
    ok (
      org,
      record {
        organizations = db.organizations ++ (org ∷ []);
        memberships = db.memberships ++ (membership ∷ []);
        next_org_id = db.next_org_id + 1;
      },
    )

unfoldable pub get_org : ℕ → OrgDb → Result Organization
get_org org_id db = elim (first (is_org org_id) db.organizations) [
  | some o ↦ ok o
  | none ↦ err (not_found no_org)
]

-- the branch of `add_or_update_member_async` for a row that is there
unfoldable pub update_member :
    ℕ → ℕ → String → String → OrgMembership → OrgDb → Result (OrgMembership × OrgDb)
unfolding ensure_not_last_active_owner
update_member org_id user_id role actor_role existing db =
    let promoted = λ (m : OrgMembership). record m { role = role; is_active = true } in
    do
      raise_if (existing.is_active && not (can_manage_member_role actor_role existing.role))
          (forbidden no_rights_to_change)
      (if str_eq existing.role "owner" && (existing.is_active && not (str_eq role "owner"))
          then ensure_not_last_active_owner db org_id user_id
          else ok tt)
      ok (
        promoted existing,
        record db { memberships = update_first (is_member org_id user_id) promoted db.memberships },
      )

-- the branch of `add_or_update_member_async` for a new row
unfoldable pub insert_member : ℕ → ℕ → ℕ → String → OrgDb → Result (OrgMembership × OrgDb)
insert_member now org_id user_id role db =
    let m : OrgMembership = record {
      org_id = org_id;
      user_id = user_id;
      role = role;
      is_active = true;
      created_at = now;
    } in
    ok (m, record db { memberships = db.memberships ++ (m ∷ []) })

-- the transaction of `add_or_update_member_async`
unfoldable pub assign_member : ℕ → ℕ → ℕ → String → String → OrgDb → Result (OrgMembership × OrgDb)
unfolding get_org
assign_member now org_id user_id role actor_role db = do
  org ← get_org org_id db
  elim (first (is_member org_id user_id) db.memberships) [
    | some existing ↦ update_member org_id user_id role actor_role existing db
    | none ↦ insert_member now org_id user_id role db
  ]

-- what `add_or_update_member_async` checks before the transaction
unfoldable pub check_assignable : String → String → Result (Unit {0})
unfolding validate_role
check_assignable role actor_role = do
  valid ← validate_role role
  raise_if (not (can_manage_member_role actor_role valid)) (forbidden no_rights_to_assign)

unfoldable pub add_or_update_member :
    ℕ → ℕ → ℕ → String → String → OrgDb → Result OrgMembership × OrgDb
add_or_update_member now org_id user_id role actor_role db =
    elim (check_assignable role actor_role) [
      | err e ↦ (err e, db)
      | ok _ ↦ begin (assign_member now org_id user_id role actor_role) db
    ]

-- the transaction of `remove_member_async`
unfoldable pub delete_member : ℕ → ℕ → String → OrgDb → Result (Unit {0} × OrgDb)
unfolding get_org
delete_member org_id user_id actor_role db = do
  org ← get_org org_id db
  membership ← elim (first (is_member org_id user_id) db.memberships) [
    | some m ↦ ok m
    | none ↦ err (not_found no_member)
  ]
  raise_if (membership.is_active && not (can_manage_member_role actor_role membership.role))
      (forbidden no_rights_to_remove)
  (if str_eq membership.role "owner" && membership.is_active
      then ensure_not_last_active_owner db org_id user_id
      else ok tt)
  ok (tt, record db { memberships = delete_first (is_member org_id user_id) db.memberships })

unfoldable pub remove_member : ℕ → ℕ → String → OrgDb → Result (Unit {0}) × OrgDb
remove_member org_id user_id actor_role = begin (delete_member org_id user_id actor_role)
