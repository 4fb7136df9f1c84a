-- ===== src/Tests/Orgs.antt =====
-- The theorems on roles and memberships at a small database.
use cgraph.Prelude.{
  ℕ, ◌<◌, ◌≡◌, ◌≢◌, refl, String, true, none, List, [], ◌∷◌, arith, length, eq_iff,
}
use cgraph.Text.{codes}
use cgraph.Rbac.{role_order, can_manage_member_role}
use cgraph.Orgs.{
  OrgMembership, OrgDb, add_or_update_member, remove_member, ensure_not_last_active_owner,
  delete_member,
}
use cgraph.Orgs.Owners.{active_owners}
use cgraph.Orgs.Authority.{add_or_update_member-same_owners, remove_member-same_owners}
use cgraph.Orgs.Effects.{
  IsUnique, Assigned, Removed, add_or_update_member-Assigned, remove_member-Removed,
}
use cgraph.Orgs.Requests.{Request, create, upsert, remove, serve, serve-owned}

abbrev pub member : ℕ → String → OrgMembership
member user role = record {
  org_id = 1;
  user_id = user;
  role = role;
  is_active = true;
  created_at = 0;
}

abbrev pub office : OrgDb
office = record {
  organizations = record { id = 1; name = codes "Office"; slug = none; created_at = 0 } ∷ [];
  memberships = member 10 "owner" ∷ member 11 "admin" ∷ [];
  next_org_id = 2;
}

pub office-IsUnique : IsUnique office
office-IsUnique o u = ground arith

last_owner_stays : (remove_member 1 10 "owner" office).1 ≡ office
unfolding remove_member delete_member ensure_not_last_active_owner can_manage_member_role role_order
last_owner_stays = refl

admin_not_owner : ◌≢◌ {A = String} "admin" "owner"
admin_not_owner h = cc ((eq_iff "admin" "owner").1 h)

abbrev requests : List Request
requests =
    remove 1 10 "owner"
    ∷ upsert 5 1 12 "owner" "owner"
    ∷ remove 1 10 "owner"
    ∷ create 6 (codes " Lab ") 11
    ∷ []

serve-owned_example : 0 < length (active_owners 1 (serve office requests))
serve-owned_example = serve-owned office requests 1 (omega arith)

add_or_update_member-same_owners_example :
    active_owners 1 (add_or_update_member 5 1 10 "viewer" "admin" office).1 ≡ active_owners 1 office
add_or_update_member-same_owners_example =
    add_or_update_member-same_owners 5 1 10 "viewer" "admin" office 1 admin_not_owner

remove_member-same_owners_example :
    active_owners 1 (remove_member 1 10 "admin" office).1 ≡ active_owners 1 office
remove_member-same_owners_example = remove_member-same_owners 1 10 "admin" office 1 admin_not_owner

add_or_update_member-Assigned_example :
    Assigned office 1 12 "member" (add_or_update_member 5 1 12 "member" "admin" office)
add_or_update_member-Assigned_example =
    add_or_update_member-Assigned 5 1 12 "member" "admin" office office-IsUnique

remove_member-Removed_example : Removed office 1 11 (remove_member 1 11 "owner" office)
remove_member-Removed_example = remove_member-Removed 1 11 "owner" office office-IsUnique
