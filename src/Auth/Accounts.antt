-- ===== src/Auth/Accounts.antt =====
-- The accounts of backend/app/services/auth_service.py: the first user, registration and sign-in.
-- Arguments have the types that they are annotated with; letters of addresses are ASCII.
use cgraph.Prelude.{
  ℕ, ◌+◌, Bool, true, false, not, ◌&&◌, ◌||◌, none, some, List, [], ◌∷◌, ◌++◌, ◌==◌, ltb,
  if◌then◌else◌, length, take,
}
use cgraph.Prelude.Rows.{first, any}
use cgraph.Text.{Text, codes, strip, lower_ascii, text_eq, before_first}
use cgraph.Errors.{
  Result, ok, err, bad_request, unauthorized, email_required, password_too_short, bootstrap_done,
  user_exists, signup_disabled, bad_credentials, ◌>>◌, raise_if,
}
use cgraph.Orgs.{Organization, OrgMembership, OrgDb}
use cgraph.Auth.{User, AuthDb}
use cgraph.Auth.Passwords.{Crypto, hash_password, verify_password}

pub record Tables : Type 0 where
  pub auth : AuthDb
  pub orgs : OrgDb

-- what one call meets: the clock, the salt it draws, the setting for registrations, and what other
-- sessions commit before its insertions are flushed
pub record Call : Type 0 where
  pub now : ℕ
  pub salt : List ℕ
  pub allow_public_signup : Bool
  pub others : Tables → Tables

abbrev pub is_empty : Text → Bool
is_empty [] = true
is_empty (c ∷ s) = false

-- `email.strip().lower()`
unfoldable pub normal_email : Text → Text
normal_email email = lower_ascii (strip email)

abbrev pub has_char : ℕ → Text → Bool
has_char c s = any (λ d. d == c) s

-- the name of `_create_default_org_async`
unfoldable pub default_org_name : Text → Text
unfolding strip before_first
default_org_name email =
    let name = strip (before_first b'@' email) in
    if has_char b'@' email && not (is_empty name) then take 200 name else codes "Personal"

-- `_create_default_org_async`
unfoldable pub create_default_org : ℕ → User → OrgDb → OrgDb
create_default_org now user db =
    let org : Organization = record {
      id = db.next_org_id;
      name = default_org_name user.email;
      slug = none;
      created_at = now;
    } in
    let membership : OrgMembership = record {
      org_id = org.id;
      user_id = user.id;
      role = "owner";
      is_active = true;
      created_at = now;
    } in
    record {
      organizations = db.organizations ++ (org ∷ []);
      memberships = db.memberships ++ (membership ∷ []);
      next_org_id = db.next_org_id + 1;
    }

abbrev pub check_email_and_password : Text → Text → Result (Unit {0})
check_email_and_password email password = do
  raise_if (is_empty (strip email)) (bad_request email_required)
  raise_if (ltb (length password) 8) (bad_request password_too_short)

abbrev pub has_email : Text → User → Bool
has_email email u = text_eq email u.email

-- The row is inserted under the unique constraint of the addresses, with its organisation.
unfoldable pub insert_user : Call → Crypto → Text → Text → Tables → Result (User × Tables)
insert_user call crypto email password db =
    let user : User = record {
      id = db.auth.next_user_id;
      email = normal_email email;
      password_hash = hash_password crypto call.salt password;
      is_active = true;
    } in
    if any (has_email (normal_email email)) db.auth.users
    then err (bad_request user_exists)
    else ok (
      user,
      record {
        auth = record db.auth {
          users = db.auth.users ++ (user ∷ []);
          next_user_id = db.auth.next_user_id + 1;
        };
        orgs = create_default_org call.now user db.orgs;
      },
    )

-- A transaction that raises leaves what other sessions have committed.
abbrev pub committed : Tables → Result (User × Tables) → Result User × Tables
committed db (ok (user, db')) = (ok user, db')
committed db (err e) = (err e, db)

abbrev pub with_sentinel : Tables → Tables
with_sentinel db = record db { auth = record db.auth { sentinel = true } }

-- `bootstrap_user_async`
unfoldable pub bootstrap_user : Call → Crypto → Text → Text → Tables → Result User × Tables
bootstrap_user call crypto email password db = elim (check_email_and_password email password) [
  | err e ↦ (err e, db)
  | ok _ ↦
      if db.auth.sentinel || ltb 0 (length db.auth.users)
      then (err (bad_request bootstrap_done), db)
      else (let seen = call.others db in
          if seen.auth.sentinel
          then (err (bad_request bootstrap_done), seen)
          else committed seen (insert_user call crypto email password (with_sentinel seen)))
]

-- `register_user_async`
unfoldable pub register_user : Call → Crypto → Text → Text → Tables → Result User × Tables
register_user call crypto email password db =
    if not call.allow_public_signup
    then (err (bad_request signup_disabled), db)
    else elim (check_email_and_password email password) [
      | err e ↦ (err e, db)
      | ok _ ↦ committed (call.others db) (insert_user call crypto email password (call.others db))
    ]

-- `authenticate_user_async`
unfoldable pub authenticate_user : Crypto → Text → Text → AuthDb → Result User
authenticate_user crypto email password db =
    if is_empty (strip email)
    then err (bad_request email_required)
    else elim (first (has_email (normal_email email)) db.users) [
      | none ↦ err (unauthorized bad_credentials)
      | some user ↦
          if user.is_active && verify_password crypto password user.password_hash
          then ok user
          else err (unauthorized bad_credentials)
    ]
