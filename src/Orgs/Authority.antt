-- ===== src/Orgs/Authority.antt =====
-- Who may change the owners of an organisation (backend/app/services/org_service.py).
use cgraph.Prelude.{ℕ, ◌≡◌, ◌≢◌, String, true, some, arith, eq_iff, inl, inr, Option-cases}
use cgraph.Prelude.Rows.{first, select-update_hidden, select-delete_hidden, select-append_hidden}
use cgraph.Errors.{ok, Result-cases}
use cgraph.Orgs.{
  OrgMembership, OrgDb, is_member, is_active_owner, add_or_update_member, update_member,
  insert_member, assign_member, check_assignable, remove_member, delete_member,
}
use cgraph.Rbac.{can_manage_member_role}
use cgraph.Rbac.Order.{only_manager_of_owner}
use cgraph.Orgs.Owners.{active_owners}

abbrev promoted : String → OrgMembership → OrgMembership
promoted role m = record m { role = role; is_active = true }

update_member-same_owners :
    (db : OrgDb) (org_id user_id : ℕ) (m : OrgMembership) (o : ℕ) (role actor : String)
    (r : OrgMembership) (db' : OrgDb)
    → first (is_member org_id user_id) db.memberships ≡ some m
    → actor ≢ "owner"
    → can_manage_member_role actor role ≡ true
    → update_member org_id user_id role actor m db ≡ ok (r, db')
    → active_owners o db' ≡ active_owners o db
unfolding update_member
update_member-same_owners db org_id user_id m o role actor r db' found ne may e = ground (
  arith,
  eq_iff role "owner",
  eq_iff m.role "owner",
  only_manager_of_owner actor,
  select-update_hidden (is_active_owner o) (is_member org_id user_id) (promoted role) db.memberships
      m found,
)

insert_member-same_owners :
    (now org_id user_id : ℕ) (role actor : String) (db : OrgDb) (o : ℕ) (r : OrgMembership)
    (db' : OrgDb)
    → actor ≢ "owner"
    → can_manage_member_role actor role ≡ true
    → insert_member now org_id user_id role db ≡ ok (r, db')
    → active_owners o db' ≡ active_owners o db
unfolding insert_member
insert_member-same_owners now org_id user_id role actor db o r db' ne may e = ground (
  arith,
  eq_iff role "owner",
  only_manager_of_owner actor,
  select-append_hidden (is_active_owner o) db.memberships (record {
    org_id = org_id;
    user_id = user_id;
    role = role;
    is_active = true;
    created_at = now;
  }),
)

-- An actor that is no owner changes the active owners of no organisation by adding or changing a
-- member, whether the call ends or raises.
pub add_or_update_member-same_owners :
    (now org_id user_id : ℕ) (role actor : String) (db : OrgDb) (o : ℕ)
    → actor ≢ "owner"
    → active_owners o (add_or_update_member now org_id user_id role actor db).1 ≡ active_owners o db
unfolding add_or_update_member check_assignable assign_member
add_or_update_member-same_owners now org_id user_id role actor db o ne =
    elim (Option-cases (first (is_member org_id user_id) db.memberships)) [
      | inl absent ↦ elim (Result-cases (insert_member now org_id user_id role db)) [
        | inl ((r, db'), e) ↦
            ground (arith, insert_member-same_owners now org_id user_id role actor db o r db')
        | inr (x, e) ↦ ground arith
      ]
      | inr (m, found) ↦ elim (Result-cases (update_member org_id user_id role actor m db)) [
        | inl ((r, db'), e) ↦
            ground (arith, update_member-same_owners db org_id user_id m o role actor r db' found)
        | inr (x, e) ↦ ground arith
      ]
    ]

-- Nor by removing one.
pub remove_member-same_owners :
    (org_id user_id : ℕ) (actor : String) (db : OrgDb) (o : ℕ)
    → actor ≢ "owner"
    → active_owners o (remove_member org_id user_id actor db).1 ≡ active_owners o db
unfolding remove_member delete_member
remove_member-same_owners org_id user_id actor db o ne =
    elim (Option-cases (first (is_member org_id user_id) db.memberships)) [
      | inl absent ↦ ground arith
      | inr (m, found) ↦ ground (
        arith,
        eq_iff m.role "owner",
        only_manager_of_owner actor,
        select-delete_hidden (is_active_owner o) (is_member org_id user_id) db.memberships m found,
      )
    ]
