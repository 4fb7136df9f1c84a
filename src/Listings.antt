-- ===== src/Listings.antt =====
-- The listings of backend/app/services/org_service.py, which join tables, against the policy.
use cgraph.Prelude.{
  ℕ, ◌≤◌, ◌≡◌, inl, inr, refl, String, Bool, false, ◌&&◌, ◌||◌, Option, none, some, List, [], ◌∷◌,
  ◌++◌, map, ◌==◌, str_eq, length, arith, Bool-cases,
}
use cgraph.Prelude.Rows.{select, first, any}
use cgraph.Text.{Text}
use cgraph.Text.Number.{pos}
use cgraph.Orgs.{Organization, OrgMembership, OrgDb, is_org, is_member}
use cgraph.Orgs.Effects.{IsUnique}
use cgraph.Auth.{User}
use cgraph.Policy.{membership_for_user, is_active_member}

-- the rows of a membership, joined to the organisations
abbrev pub joined : Organization → List OrgMembership → List (Organization × String)
joined org rows = map (λ m. (org, m.role)) rows

-- `WHERE user_id = … AND is_active AND org_id = organization.id`
abbrev pub in_org : ℕ → Organization → OrgMembership → Bool
in_org user_id org m = m.user_id == user_id && (m.org_id == org.id && m.is_active)

abbrev pub join_orgs : ℕ → List OrgMembership → List Organization → List (Organization × String)
join_orgs user_id rows [] = []
join_orgs user_id rows (org ∷ orgs) =
    joined org (select (in_org user_id org) rows) ++ join_orgs user_id rows orgs

-- `list_org_memberships_for_user_async`
unfoldable pub list_org_memberships_for_user : ℕ → OrgDb → List (Organization × String)
list_org_memberships_for_user user_id db = join_orgs user_id db.memberships db.organizations

pub record Member : Type 0 where
  pub id : ℕ
  pub email : Text
  pub role : String
  pub is_active : Bool
  pub created_at : ℕ

abbrev pub member_of : User → OrgMembership → Member
member_of user m = record {
  id = user.id;
  email = user.email;
  role = m.role;
  is_active = m.is_active;
  created_at = m.created_at;
}

abbrev pub join_users : ℕ → List OrgMembership → List User → List Member
join_users org_id rows [] = []
join_users org_id rows (user ∷ users) =
    map (member_of user) (select (is_member org_id user.id) rows) ++ join_users org_id rows users

-- `list_members_async`
unfoldable pub list_members : ℕ → List User → OrgDb → List Member
list_members org_id users db = join_users org_id db.memberships users

abbrev pub is_listed : ℕ → String → Organization × String → Bool
is_listed org_id role row = row.0.id == org_id && str_eq row.1 role

abbrev pub has_role : String → Option OrgMembership → Bool
has_role role none = false
has_role role (some m) = str_eq m.role role

any-append :
    {A : Type 0} (p : A → Bool) (xs ys : List A) → any p (xs ++ ys) ≡ (any p xs || any p ys)
any-append p [] ys = refl
any-append p (x ∷ xs) ys = ground (arith, any-append p xs ys)

joined_other :
    (org_id : ℕ) (role : String) (org : Organization) (rows : List OrgMembership)
    → (org.id == org_id) ≡ false
    → any (is_listed org_id role) (joined org rows) ≡ false
joined_other org_id role org [] h = refl
joined_other org_id role org (m ∷ rows) h = ground (arith, joined_other org_id role org rows h)

none_left :
    (user org_id : ℕ) (role : String) (org : Organization) (rows : List OrgMembership)
    → org.id ≡ org_id
    → length (select (is_member org_id user) rows) ≡ 0
    → any (is_listed org_id role) (joined org (select (in_org user org) rows)) ≡ false
none_left user org_id role org [] e h = refl
none_left user org_id role org (m ∷ rows) e h =
    ground (arith, none_left user org_id role org rows e)

joined_same :
    (user org_id : ℕ) (role : String) (org : Organization) (rows : List OrgMembership)
    → org.id ≡ org_id
    → length (select (is_member org_id user) rows) ≤ 1
    → any (is_listed org_id role) (joined org (select (in_org user org) rows))
      ≡ has_role role (first (is_active_member user (pos org_id)) rows)
joined_same user org_id role org [] e h = refl
joined_same user org_id role org (m ∷ rows) e h =
    ground (arith, joined_same user org_id role org rows e, none_left user org_id role org rows e)

join_orgs-any :
    (user org_id : ℕ) (role : String) (rows : List OrgMembership) (orgs : List Organization)
    → length (select (is_member org_id user) rows) ≤ 1
    → any (is_listed org_id role) (join_orgs user rows orgs) ≡ (
        any (is_org org_id) orgs && has_role role (first (is_active_member user (pos org_id)) rows))
join_orgs-any user org_id role rows [] unique = refl
join_orgs-any user org_id role rows (org ∷ orgs) unique =
    let apart =
      any-append (is_listed org_id role) (joined org (select (in_org user org) rows))
        (join_orgs user rows orgs) in
    elim (Bool-cases (org.id == org_id)) [
      | inl same ↦ ground (
        arith,
        joined_same user org_id role org rows,
        join_orgs-any user org_id role rows orgs unique,
      )
      | inr other ↦ ground (
        arith,
        joined_other org_id role org (select (in_org user org) rows) other,
        join_orgs-any user org_id role rows orgs unique,
      )
    ]

-- With unique keys, an organisation is listed to a user with a role just if it is there and that role
-- is the one of the membership by which the policy judges the user in it.
list_org_memberships_for_user_agrees :
    (user org_id : ℕ) (role : String) (db : OrgDb)
    → IsUnique db
    → any (is_listed org_id role) (list_org_memberships_for_user user db) ≡ (
        any (is_org org_id) db.organizations
        && has_role role (membership_for_user user (pos org_id) db))
unfolding list_org_memberships_for_user membership_for_user
list_org_memberships_for_user_agrees user org_id role db unique =
    join_orgs-any user org_id role db.memberships db.organizations (unique org_id user)
