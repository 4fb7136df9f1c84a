-- ===== src/Tests/Policy.antt =====
-- Requests to a site with one organisation and two projects.
use cgraph.Prelude.{◌≡◌, refl, true, false, none, some, [], ◌∷◌, arith}
use cgraph.Text.{codes}
use cgraph.Text.Number.{pos, int_of_stripped}
use cgraph.Errors.{ok, err, forbidden, no_org_access}
use cgraph.Rbac.{in_org_roles, role_at_least, role_order, can_manage_member_role}
use cgraph.Orgs.{
  OrgMembership, OrgDb, add_or_update_member, check_assignable, assign_member, insert_member,
  get_org, validate_role, remove_member, delete_member,
}
use cgraph.Auth.{User, Request}
use cgraph.Policy.{
  Env, Site, require_user, require_org_role, require_org_context, membership_for_user,
  resolve_org_id_unauth, org_context_of_user, org_of_request,
}
use cgraph.Policy.Access.{remove_member_refuses, add_or_update_member_admits}
use cgraph.Policy.Personal.{Resolved, resolve_org_id_unauth-Resolved}
use cgraph.Tests.Orgs.{member, office, office-IsUnique}
use cgraph.Tests.Auth.{ann, accounts}

abbrev settings : Env
settings = record {
  auth_enabled = true;
  now = 50;
  hash_token = λ t. 77;
  before_lock = λ db. db;
  before_flush = λ db. db;
  before_lookup = λ db. db;
}

abbrev eve : User
eve = record {
  id = 11;
  email = codes "eve@example.org";
  password_hash = codes "x";
  is_active = true;
}

abbrev request_of : User → Request
request_of u = record {
  x_org_id = some (codes "1");
  authorization = none;
  x_api_key = none;
  state_user = some u;
}

abbrev site : Site
site = record {
  orgs = office;
  auth = accounts;
  projects =
      record { id = 1; org_id = 1; name = codes "a"; root_path = codes "a" }
      ∷ record { id = 2; org_id = 9; name = codes "b"; root_path = codes "b" }
      ∷ [];
}

abbrev office_without_eve : OrgDb
office_without_eve = record office { memberships = member 10 "owner" ∷ [] }

remove_member_refuses_example :
    require_org_role settings
      (request_of eve)
      (pos 1)
      "viewer"
      (record site { orgs = office_without_eve })
    ≡ err (forbidden no_org_access)
unfolding remove_member delete_member get_org can_manage_member_role role_at_least role_order
    require_user in_org_roles
remove_member_refuses_example =
    remove_member_refuses settings (request_of eve) site 1 eve "owner" "viewer" office_without_eve
      office-IsUnique refl refl refl refl

abbrev bob : User
bob = record {
  id = 12;
  email = codes "bob@example.org";
  password_hash = codes "x";
  is_active = true;
}

abbrev bobs : OrgMembership
bobs = record { org_id = 1; user_id = 12; role = "member"; is_active = true; created_at = 5 }

abbrev office_with_bob : OrgDb
office_with_bob = record office { memberships = member 10 "owner" ∷ member 11 "admin" ∷ bobs ∷ [] }

add_or_update_member_admits_example :
    require_org_role settings
      (request_of bob)
      (pos 1)
      "viewer"
      (record site { orgs = office_with_bob })
    ≡ ok (bob, bobs)
unfolding add_or_update_member check_assignable assign_member insert_member get_org validate_role
    can_manage_member_role role_at_least role_order require_user in_org_roles
add_or_update_member_admits_example =
    add_or_update_member_admits settings (request_of bob) site 5 1 bob "member" "admin" "viewer"
      bobs office_with_bob office-IsUnique refl refl refl refl refl

context_of_ann :
    require_org_context settings (request_of ann) "admin" site
    ≡ (ok (ann, pos 1, member 10 "owner"), site)
unfolding require_org_context org_context_of_user org_of_request membership_for_user require_user
    in_org_roles role_at_least role_order int_of_stripped
context_of_ann = refl

abbrev empty : OrgDb
empty = record { organizations = []; memberships = []; next_org_id = 1 }

abbrev anonymous : Request
anonymous = record { x_org_id = none; authorization = none; x_api_key = none; state_user = none }

resolve_org_id_unauth-Resolved_example :
    Resolved
      (record settings { auth_enabled = false })
      empty
      (resolve_org_id_unauth (record settings { auth_enabled = false }) anonymous empty)
resolve_org_id_unauth-Resolved_example =
    resolve_org_id_unauth-Resolved (record settings { auth_enabled = false }) anonymous empty
      (λ db unique. unique) (λ db unique. unique) (λ db unique. unique) (omega arith)
