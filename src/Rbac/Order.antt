-- ===== src/Rbac/Order.antt =====
-- The order of the roles (backend/app/rbac.py).
use cgraph.Prelude.{◌≡◌, String, true, none, ◌↔◌, ◌≢◌, arith, eq_iff}
use cgraph.Rbac.{role_order, in_org_roles, role_at_least, can_manage_member_role}

-- A role has a rank exactly when it is one of the organisation roles.
pub role_order-in_org_roles : (r : String) → (in_org_roles r ≡ true) ↔ (role_order r ≢ none)
unfolding in_org_roles role_order
role_order-in_org_roles r = ground arith

-- Whoever may manage a manager may manage what that one manages, so that no chain of appointments
-- reaches a role above the first actor's.
can_manage_member_role_trans :
    (a b c : String)
    → in_org_roles b ≡ true
    → can_manage_member_role a b ≡ true
    → can_manage_member_role b c ≡ true
    → can_manage_member_role a c ≡ true
unfolding can_manage_member_role in_org_roles role_order
can_manage_member_role_trans a b c valid p q = ground arith

pub owner_at_least : (r : String) → role_at_least "owner" r ≡ true
unfolding role_at_least role_order
owner_at_least r = ground arith

pub only_manager_of_owner : (r : String) → can_manage_member_role r "owner" ≡ true → r ≡ "owner"
unfolding can_manage_member_role role_order
only_manager_of_owner r h = ground (arith, eq_iff r "owner")
