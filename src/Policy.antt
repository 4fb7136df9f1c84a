-- ===== src/Policy.antt =====
-- backend/app/policy.py: who makes a request, for which organisation, and what it may reach.
-- Integers of a request lie in the range of the database's ids, or are negative.
pub mod Access
pub mod Personal
use cgraph.Prelude.{
  ℕ, ◌+◌, String, Bool, true, false, not, ◌&&◌, Option, none, some, List, [], ◌∷◌, ◌++◌, map, ◌==◌,
  if◌then◌else◌,
}
use cgraph.Prelude.Rows.{select, first, any}
use cgraph.Text.{Text, codes, text_eq}
use cgraph.Text.Number.{ℤ, pos, int_of_stripped, is_id}
use cgraph.Errors.{
  Result, ok, err, bad_request, not_found, unauthorized, forbidden, internal, bad_access_role,
  org_id_not_a_number, org_id_required, no_org, no_org_access, no_orgs, no_rights, token_required,
  no_project_access, ◌>>=◌, ◌>>◌, raise_if,
}
use cgraph.Rbac.{in_org_roles, role_at_least}
use cgraph.Orgs.{Organization, OrgMembership, OrgDb}
use cgraph.Auth.{User, AuthDb, Request, extract_token, or_empty, if_not_empty, get_user_from_token}

pub record Project : Type 0 where
  pub id : ℕ
  pub org_id : ℕ
  pub name : Text
  pub root_path : Text

pub record Site : Type 0 where
  pub orgs : OrgDb
  pub auth : AuthDb
  pub projects : List Project

-- The settings, the clock, the digest of a token, and what other sessions do to the organisations
-- before the lock is taken, before the insertion is flushed, and before the look-up after a rollback.
pub record Env : Type 0 where
  pub auth_enabled : Bool
  pub now : ℕ
  pub hash_token : Text → ℕ
  pub before_lock : OrgDb → OrgDb
  pub before_flush : OrgDb → OrgDb
  pub before_lookup : OrgDb → OrgDb

-- the user of a request where authentication is off
abbrev pub anyone : User
anyone = record { id = 0; email = codes "unauthenticated"; password_hash = []; is_active = true }

abbrev pub anyone_in : ℕ → ℕ → OrgMembership
anyone_in now org_id = record {
  org_id = org_id;
  user_id = 0;
  role = "owner";
  is_active = true;
  created_at = now;
}

abbrev pub or_raise {ℓ} : {A : Type ℓ} → Option A → Result A → Result A
or_raise none e = e
or_raise (some a) e = ok a

abbrev pub has_slug : Text → Option Text → Bool
has_slug slug none = false
has_slug slug (some s) = text_eq slug s

abbrev pub is_personal : Organization → Bool
is_personal o = has_slug (codes "personal") o.slug

-- the header `X-Org-ID`, where it is there and not empty
abbrev pub org_header : Request → Option Text
org_header request = if_not_empty (or_empty request.x_org_id)

abbrev pub parse_org_id : Text → Result ℤ
parse_org_id header = or_raise (int_of_stripped header) (err (bad_request org_id_not_a_number))

-- `session.get(Organization, org_id)`
abbrev pub org_of_id : ℤ → OrgDb → Result Organization
org_of_id org_id db =
    or_raise (first (λ o. is_id org_id o.id) db.organizations) (err (not_found no_org))

-- the end of `_resolve_org_id_unauth_async`, where no organisation is there
unfoldable pub create_personal : Env → OrgDb → Result ℕ × OrgDb
create_personal env db =
    let org : Organization = record {
      id = db.next_org_id;
      name = codes "Personal";
      slug = some (codes "personal");
      created_at = env.now;
    } in
    let seen = env.before_lookup db in
    if any is_personal db.organizations
    then (
      elim (first is_personal seen.organizations) [ some o ↦ ok o.id | none ↦ err internal ],
      seen,
    )
    else (
      ok org.id,
      record db {
        organizations = db.organizations ++ (org ∷ []);
        next_org_id = db.next_org_id + 1;
      },
    )

-- the second count of the organisations, under the lock
unfoldable pub count_again : Env → OrgDb → Result ℕ × OrgDb
count_again env db = elim db.organizations [
  | [] ↦ create_personal env (env.before_flush db)
  | o ∷ os ↦ elim os [ [] ↦ (ok o.id, db) | p ∷ ps ↦ (err (bad_request org_id_required), db) ]
]

-- `_resolve_org_id_unauth_async`
unfoldable pub resolve_org_id_unauth : Env → Request → OrgDb → Result ℕ × OrgDb
resolve_org_id_unauth env request db = elim (org_header request) [
  | some header ↦ (parse_org_id header >>= λ z. org_of_id z db >>= λ org. ok org.id, db)
  | none ↦ elim db.organizations [
    | [] ↦ count_again env (env.before_lock db)
    | o ∷ os ↦ elim os [ [] ↦ (ok o.id, db) | p ∷ ps ↦ (err (bad_request org_id_required), db) ]
  ]
]

-- `require_user_async`
unfoldable pub require_user : Env → Request → AuthDb → Result User
require_user env request auth =
    if not env.auth_enabled then ok anyone else elim request.state_user [
      | some user ↦ ok user
      | none ↦ elim (extract_token request) [
        | none ↦ err (unauthorized token_required)
        | some token ↦ get_user_from_token env.now (env.hash_token token) auth
      ]
    ]

abbrev pub is_active_member : ℕ → ℤ → OrgMembership → Bool
is_active_member user_id org_id m = m.user_id == user_id && (is_id org_id m.org_id && m.is_active)

unfoldable pub membership_for_user : ℕ → ℤ → OrgDb → Option OrgMembership
membership_for_user user_id org_id db = first (is_active_member user_id org_id) db.memberships

unfoldable pub org_ids_for_user : ℕ → OrgDb → List ℕ
org_ids_for_user user_id db =
    map (λ m. m.org_id) (select (λ m. m.user_id == user_id && m.is_active) db.memberships)

abbrev pub check_rights : String → OrgMembership → Result (Unit {0})
check_rights min_role m = raise_if (not (role_at_least m.role min_role)) (forbidden no_rights)

-- the organisation of a request with a user, and the membership there
unfoldable pub org_of_request : Request → ℕ → OrgDb → Result (ℤ × OrgMembership)
org_of_request request user_id db = elim (org_header request) [
  | some header ↦ do
    org_id ← parse_org_id header
    m ← or_raise (membership_for_user user_id org_id db) (err (forbidden no_org_access))
    ok (org_id, m)
  | none ↦ elim (org_ids_for_user user_id db) [
    | [] ↦ err (forbidden no_orgs)
    | o ∷ os ↦ elim os [
      | [] ↦ do
        m ← or_raise (membership_for_user user_id (pos o) db) (err (forbidden no_rights))
        ok (pos o, m)
      | p ∷ ps ↦ err (bad_request org_id_required)
    ]
  ]
]

-- the part of `require_org_context_async` with authentication
unfoldable pub org_context_of_user :
    Env → Request → String → Site → Result (User × ℤ × OrgMembership)
org_context_of_user env request min_role site = do
  user ← require_user env request site.auth
  (org_id, m) ← org_of_request request user.id site.orgs
  check_rights min_role m
  ok (user, org_id, m)

-- the first component of a result with its tables, carried on
abbrev pub then_ok {ℓ κ} :
    {A : Type ℓ} {B : Type κ} → (A → Result B) → Site → Result A × OrgDb → Result B × Site
then_ok f site (result, orgs') = (result >>= f, record site { orgs = orgs' })

unfoldable pub require_org_context :
    Env → Request → String → Site → Result (User × ℤ × OrgMembership) × Site
require_org_context env request min_role site =
    if not (in_org_roles min_role)
    then (err (bad_request bad_access_role), site)
    else if not env.auth_enabled
    then then_ok (λ org_id. ok (anyone, pos org_id, anyone_in env.now org_id)) site
        (resolve_org_id_unauth env request site.orgs)
    else (org_context_of_user env request min_role site, site)

-- the part of `require_project_access_async` with authentication
unfoldable pub project_of_user : Env → Request → ℤ → String → Site → Result Project
project_of_user env request project_id min_role site = do
  user ← require_user env request site.auth
  project ←
      or_raise (first (λ p. is_id project_id p.id) site.projects)
        (err (forbidden no_project_access))
  m ←
      or_raise (membership_for_user user.id (pos project.org_id) site.orgs)
        (err (forbidden no_project_access))
  check_rights min_role m
  ok project

-- the select of `require_project_access_async` without authentication
abbrev pub project_in : ℤ → ℕ → Site → Result Project
project_in project_id org_id site =
    or_raise (first (λ p. is_id project_id p.id && p.org_id == org_id) site.projects)
      (err (forbidden no_project_access))

unfoldable pub require_project_access : Env → Request → ℤ → String → Site → Result Project × Site
require_project_access env request project_id min_role site =
    if not (in_org_roles min_role)
    then (err (bad_request bad_access_role), site)
    else if not env.auth_enabled
    then then_ok (λ org_id. project_in project_id org_id site) site
        (resolve_org_id_unauth env request site.orgs)
    else (project_of_user env request project_id min_role site, site)

-- the part of `require_org_role_async` with authentication
unfoldable pub member_of_org : Env → Request → ℤ → String → Site → Result (User × OrgMembership)
member_of_org env request org_id min_role site = do
  user ← require_user env request site.auth
  m ← or_raise (membership_for_user user.id org_id site.orgs) (err (forbidden no_org_access))
  check_rights min_role m
  ok (user, m)

unfoldable pub require_org_role : Env → Request → ℤ → String → Site → Result (User × OrgMembership)
require_org_role env request org_id min_role site =
    if not (in_org_roles min_role)
    then err (bad_request bad_access_role)
    else if not env.auth_enabled
    then org_of_id org_id site.orgs >>= (λ org. ok (anyone, anyone_in env.now org.id))
    else member_of_org env request org_id min_role site
