-- ===== src/Auth.antt =====
-- backend/app/auth.py and the sessions and API keys of backend/app/services/auth_service.py. A token
-- is known by its hash, sha256 over the token and the pepper; what the source draws at random is an
-- argument. Accounts and password hashes are in the child modules.
pub mod Tokens
pub mod Passwords
pub mod Accounts
pub mod Registration
use cgraph.Prelude.{
  ℕ, ◌+◌, ◌*◌, Bool, true, false, not, ◌&&◌, ◌||◌, Option, none, some, List, [], ◌∷◌, ◌++◌, ◌==◌,
  ltb, if◌then◌else◌, length, take,
}
use cgraph.Prelude.Rows.{select, first, any, update_first}
use cgraph.Text.{Text, codes, strip, lower_ascii, starts_with, after_first, before_first, text_eq}
use cgraph.Errors.{
  Result, ok, err, bad_request, not_found, unauthorized, bad_token, no_api_key, email_required,
  password_too_short, password_required, bootstrap_done, user_exists, signup_disabled,
  bad_credentials, ◌>>=◌, ◌>>◌, raise_if,
}
use cgraph.Orgs.{Organization, OrgMembership, OrgDb}

pub record User : Type 0 where
  pub id : ℕ
  pub email : Text
  pub password_hash : Text
  pub is_active : Bool

pub record UserSession : Type 0 where
  pub user_id : ℕ
  pub token_hash : ℕ
  pub created_at : ℕ
  pub expires_at : ℕ
  pub revoked_at : Option ℕ

pub record ApiKey : Type 0 where
  pub id : ℕ
  pub user_id : ℕ
  pub token_hash : ℕ
  pub created_at : ℕ
  pub expires_at : Option ℕ
  pub revoked_at : Option ℕ

pub record AuthDb : Type 0 where
  pub users : List User
  pub sessions : List UserSession
  pub api_keys : List ApiKey
  pub next_user_id : ℕ
  pub next_key_id : ℕ
  -- is there a row of `bootstrapsentinel`
  pub sentinel : Bool

-- The headers of a request that are read, and `request.state.user`.
pub record Request : Type 0 where
  pub x_org_id : Option Text
  pub authorization : Option Text
  pub x_api_key : Option Text
  pub state_user : Option User

-- `header or ""`
abbrev pub or_empty : Option Text → Text
or_empty none = []
or_empty (some s) = s

abbrev pub if_not_empty : Text → Option Text
if_not_empty [] = none
if_not_empty (c ∷ s) = some (c ∷ s)

abbrev pub or_else {ℓ} : {A : Type ℓ} → Option A → Option A → Option A
or_else (some a) b = some a
or_else none b = b

unfoldable pub bearer_token : Text → Option Text
unfolding strip lower_ascii starts_with after_first
bearer_token auth =
    if starts_with (codes "bearer ") (lower_ascii auth)
    then if_not_empty (strip (or_empty (after_first 32 auth)))
    else none

-- `extract_token`
unfoldable pub extract_token : Request → Option Text
unfolding bearer_token
extract_token request =
    or_else (bearer_token (or_empty request.authorization))
      (if_not_empty (strip (or_empty request.x_api_key)))

abbrev pub is_null : Option ℕ → Bool
is_null none = true
is_null (some t) = false

-- `expires_at IS NULL OR expires_at > now`
abbrev pub unexpired : ℕ → Option ℕ → Bool
unexpired now none = true
unexpired now (some t) = ltb now t

abbrev pub is_valid_session : ℕ → ℕ → UserSession → Bool
is_valid_session now token_hash s =
    s.token_hash == token_hash && (is_null s.revoked_at && ltb now s.expires_at)

abbrev pub is_valid_key : ℕ → ℕ → ApiKey → Bool
is_valid_key now token_hash k =
    k.token_hash == token_hash && (is_null k.revoked_at && unexpired now k.expires_at)

-- `session.get(User, user_id)`, where the user is active
unfoldable pub active_user : ℕ → List User → Option User
active_user user_id users = elim (first (λ u. u.id == user_id) users) [
  | some u ↦ if u.is_active then some u else none
  | none ↦ none
]

unfoldable pub user_of_session : ℕ → ℕ → AuthDb → Option User
unfolding active_user
user_of_session now token_hash db = elim (first (is_valid_session now token_hash) db.sessions) [
  | some s ↦ active_user s.user_id db.users
  | none ↦ none
]

unfoldable pub user_of_key : ℕ → ℕ → AuthDb → Option User
unfolding active_user
user_of_key now token_hash db = elim (first (is_valid_key now token_hash) db.api_keys) [
  | some k ↦ active_user k.user_id db.users
  | none ↦ none
]

-- `get_user_from_token_async`, on the token's hash
unfoldable pub get_user_from_token : ℕ → ℕ → AuthDb → Result User
get_user_from_token now token_hash db =
    elim (or_else (user_of_session now token_hash db) (user_of_key now token_hash db)) [
      | some u ↦ ok u
      | none ↦ err (unauthorized bad_token)
    ]

-- `create_session_async`
unfoldable pub create_session : ℕ → ℕ → ℕ → ℕ → AuthDb → AuthDb
create_session now ttl_hours user_id token_hash db =
    let s : UserSession = record {
      user_id = user_id;
      token_hash = token_hash;
      created_at = now;
      expires_at = now + ttl_hours * 3600;
      revoked_at = none;
    } in
    record db { sessions = db.sessions ++ (s ∷ []) }

-- `revoke_session_async`
unfoldable pub revoke_session : ℕ → ℕ → AuthDb → AuthDb
revoke_session now token_hash db = record db {
  sessions =
      update_first (λ s. s.token_hash == token_hash) (λ s. record s { revoked_at = some now })
        db.sessions;
}

-- `create_api_key_async`; name and prefix serve display alone.
unfoldable pub create_api_key : ℕ → Option ℕ → ℕ → ℕ → AuthDb → ApiKey × AuthDb
create_api_key now ttl_days user_id token_hash db =
    let k : ApiKey = record {
      id = db.next_key_id;
      user_id = user_id;
      token_hash = token_hash;
      created_at = now;
      expires_at = elim ttl_days [ none ↦ none | some days ↦ some (now + days * 86400) ];
      revoked_at = none;
    } in
    (k, record db { api_keys = db.api_keys ++ (k ∷ []); next_key_id = db.next_key_id + 1 })

-- `revoke_api_key_async`
unfoldable pub revoke_api_key : ℕ → ℕ → ℕ → AuthDb → Result (Unit {0}) × AuthDb
revoke_api_key now user_id key_id db = elim (first (λ k. k.id == key_id) db.api_keys) [
  | none ↦ (err (not_found no_api_key), db)
  | some k ↦
      if k.user_id == user_id
      then (
        ok tt,
        record db {
          api_keys =
              update_first (λ k. k.id == key_id) (λ k. record k { revoked_at = some now })
                db.api_keys;
        },
      )
      else (err (not_found no_api_key), db)
]
