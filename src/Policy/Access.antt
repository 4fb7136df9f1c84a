-- ===== src/Policy/Access.antt =====
-- What the policy grants, and how it follows the changes of the memberships.
use cgraph.Prelude.{
  ℕ, String, ◌≡◌, inl, inr, refl, sym, subst, true, none, some, List, [], ◌∷◌, arith,
}
use cgraph.Prelude.Rows.{first}
use cgraph.Text.Number.{ℤ, pos, is_id}
use cgraph.Errors.{ok, err, forbidden, no_org_access, Result-cases}
use cgraph.Rbac.{in_org_roles, role_at_least}
use cgraph.Orgs.{OrgMembership, OrgDb, is_member, add_or_update_member, remove_member}
use cgraph.Orgs.Effects.{
  IsUnique, Assigned, Removed, add_or_update_member-Assigned, remove_member-Removed,
}
use cgraph.Auth.{User, Request}
use cgraph.Policy.{
  Env, Site, Project, is_active_member, membership_for_user, org_of_request, org_context_of_user,
  require_user, require_org_role, require_project_access, require_org_context, member_of_org,
  project_of_user,
}

-- With unique keys an active membership is found just if the user's row is active.
first_active :
    (org user : ℕ) (rows : List OrgMembership)
    → first (is_member org user) rows ≡ none
    → first (is_active_member user (pos org)) rows ≡ none
first_active org user [] h = refl
first_active org user (m ∷ rows) h = ground (arith, first_active org user rows)

first_active_some :
    (org user : ℕ) (rows : List OrgMembership) (m : OrgMembership)
    → first (is_member org user) rows ≡ some m
    → m.is_active ≡ true
    → first (is_active_member user (pos org)) rows ≡ some m
first_active_some org user [] m h a = ground arith
first_active_some org user (r ∷ rows) m h a = ground (arith, first_active_some org user rows m)

-- The organisation of a request comes with the active membership of its user there.
org_of_request_member :
    (request : Request) (user : ℕ) (db : OrgDb) (org : ℤ) (m : OrgMembership)
    → org_of_request request user db ≡ ok (org, m)
    → membership_for_user user org db ≡ some m
unfolding org_of_request
org_of_request_member request user db org m h = ground arith

-- A user who has been removed from an organisation is refused there, where authentication is on, the keys
-- of the memberships are unique and the request is of that user.
pub remove_member_refuses :
    (env : Env) (request : Request) (site : Site) (org : ℕ) (u : User) (actor min_role : String)
    (orgs' : OrgDb)
    → IsUnique site.orgs
    → env.auth_enabled ≡ true
    → in_org_roles min_role ≡ true
    → require_user env request site.auth ≡ ok u
    → remove_member org u.id actor site.orgs ≡ (ok tt, orgs')
    → require_org_role env request (pos org) min_role (record site { orgs = orgs' })
      ≡ err (forbidden no_org_access)
unfolding require_org_role member_of_org membership_for_user
remove_member_refuses env request site org u actor min_role orgs' unique enabled valid is_user
      removed =
    let (same, rows, keys) =
      subst (Removed site.orgs org u.id) removed
        (remove_member-Removed org u.id actor site.orgs unique) in
    let gone = first_active org u.id orgs'.memberships (ground (arith, rows org u.id)) in
    ground arith

-- A user who has been given a role in an organisation is let through there for every role that it
-- reaches, where authentication is on, the keys of the memberships are unique and the request is of that
-- user.
pub add_or_update_member_admits :
    (env : Env) (request : Request) (site : Site) (now org : ℕ) (u : User)
    (role actor min_role : String) (m : OrgMembership) (orgs' : OrgDb)
    → IsUnique site.orgs
    → env.auth_enabled ≡ true
    → in_org_roles min_role ≡ true
    → role_at_least role min_role ≡ true
    → require_user env request site.auth ≡ ok u
    → add_or_update_member now org u.id role actor site.orgs ≡ (ok m, orgs')
    → require_org_role env request (pos org) min_role (record site { orgs = orgs' }) ≡ ok (u, m)
unfolding require_org_role member_of_org membership_for_user
add_or_update_member_admits env request site now org u role actor min_role m orgs' unique enabled
      valid reaches is_user assigned =
    let (in_role, active, same, rows, keys) =
      subst (Assigned site.orgs org u.id role) assigned
        (add_or_update_member-Assigned now org u.id role actor site.orgs unique) in
    let found =
      first_active_some org u.id orgs'.memberships m (ground (arith, rows org u.id)) active in
    let reaches' = subst (λ r. role_at_least r min_role ≡ true) (sym in_role) reaches in
    ground arith

-- With authentication on, a project of an organisation without an active membership of the user is
-- refused as an id that no project has.
require_project_access_hides :
    (env : Env) (request : Request) (site : Site) (u : User) (id absent : ℤ) (min_role : String)
    (p : Project)
    → env.auth_enabled ≡ true
    → require_user env request site.auth ≡ ok u
    → first (λ q. is_id id q.id) site.projects ≡ some p
    → membership_for_user u.id (pos p.org_id) site.orgs ≡ none
    → first (λ q. is_id absent q.id) site.projects ≡ none
    → require_project_access env request id min_role site
      ≡ require_project_access env request absent min_role site
unfolding require_project_access project_of_user
require_project_access_hides env request site u id absent min_role p enabled is_user found foreign
      missing =
    ground arith

-- With authentication on, the user, the organisation and the membership that a request gets as its
-- context are the ones that the check of a role in that organisation lets through, and no table
-- changes.
require_org_context_granted :
    (env : Env) (request : Request) (site site' : Site) (u : User) (org : ℤ) (min_role : String)
    (m : OrgMembership)
    → env.auth_enabled ≡ true
    → require_org_context env request min_role site ≡ (ok (u, org, m), site')
    → (require_org_role env request org min_role site ≡ ok (u, m)) × (site' ≡ site)
unfolding require_org_context org_context_of_user require_org_role member_of_org
require_org_context_granted env request site site' u org min_role m enabled done =
    elim (Result-cases (require_user env request site.auth)) [
      | inr (e, failed) ↦ absurd (ground arith)
      | inl (v, is_user) ↦ elim (Result-cases (org_of_request request v.id site.orgs)) [
        | inr (e, failed) ↦ absurd (ground arith)
        | inl (r, resolved) ↦
            ground (arith, org_of_request_member request v.id site.orgs r.0 r.1 resolved)
      ]
    ]
