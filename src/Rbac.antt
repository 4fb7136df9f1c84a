-- ===== src/Rbac.antt =====
-- backend/app/rbac.py
pub mod Order
use cgraph.Prelude.{
  ℕ, ◌≡◌, refl, String, Bool, true, false, Option, none, some, List, [], ◌∷◌, ◌||◌, leb, str_eq,
  if◌then◌else◌,
}

-- `ROLE_ORDER`, as a function from the keys; `none` is a missing key.
unfoldable pub role_order : String → Option ℕ
role_order role =
    if str_eq role "viewer"
    then some 0
    else if str_eq role "member"
    then some 1
    else if str_eq role "admin"
    then some 2
    else if str_eq role "owner"
    then some 3
    else none

-- `role in ORG_ROLES`
unfoldable pub in_org_roles : String → Bool
in_org_roles role =
    str_eq role "viewer" || (str_eq role "member" || (str_eq role "admin" || str_eq role "owner"))

-- `ROLE_ORDER.get(required, 0)`
abbrev pub or_zero : Option ℕ → ℕ
or_zero none = 0
or_zero (some n) = n

-- The default of the left side is -1, which is below every value of the right side.
unfoldable pub role_at_least : String → String → Bool
role_at_least role required = elim (role_order role) [
  | none ↦ false
  | some n ↦ leb (or_zero (role_order required)) n
]

unfoldable pub can_manage_member_role : String → String → Bool
unfolding role_at_least
can_manage_member_role actor_role subject_role = role_at_least actor_role subject_role
