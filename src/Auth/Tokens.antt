-- ===== src/Auth/Tokens.antt =====
-- When a token is accepted (backend/app/services/auth_service.py).
use cgraph.Prelude.{
  ℕ, ◌≤◌, ◌<◌, ◌≡◌, ◌⊎◌, inl, inr, refl, true, none, some, List, [], ◌∷◌, arith, ◌==◌, length,
  Option-cases,
}
use cgraph.Prelude.Rows.{select, first, first-true, update_first}
use cgraph.Errors.{ok, err, unauthorized, bad_token}
use cgraph.Auth.{
  User, UserSession, ApiKey, AuthDb, unexpired, is_valid_session, is_valid_key, active_user,
  user_of_session, user_of_key, get_user_from_token, revoke_session,
}

active_user-some :
    (user_id : ℕ) (users : List User) (u : User)
    → active_user user_id users ≡ some u
    → (u.is_active ≡ true) × (user_id ≡ u.id)
unfolding active_user
active_user-some user_id users u h = elim (Option-cases (first (λ u. u.id == user_id) users)) [
  | inl absent ↦ absurd (ground arith)
  | inr (v, found) ↦ ground (arith, first-true (λ (u : User). u.id == user_id) users v found)
]

user_of_session-some :
    (now h : ℕ) (db : AuthDb) (u : User)
    → user_of_session now h db ≡ some u
    → (u.is_active ≡ true)
      × (s : UserSession) × (first (is_valid_session now h) db.sessions ≡ some s)
      × (s.user_id ≡ u.id)
      × (s.revoked_at ≡ none)
      × (now < s.expires_at)
unfolding user_of_session
user_of_session-some now h db u e =
    elim (Option-cases (first (is_valid_session now h) db.sessions)) [
      | inl absent ↦ absurd (ground arith)
      | inr (s, found) ↦
          let valid = first-true (is_valid_session now h) db.sessions s found in
          let (active, owner) = active_user-some s.user_id db.users u (ground arith) in
          (active, s, found, owner, ground arith, ground arith)
    ]

user_of_key-some :
    (now h : ℕ) (db : AuthDb) (u : User)
    → user_of_key now h db ≡ some u
    → (u.is_active ≡ true)
      × (k : ApiKey) × (first (is_valid_key now h) db.api_keys ≡ some k)
      × (k.user_id ≡ u.id)
      × (k.revoked_at ≡ none)
      × (unexpired now k.expires_at ≡ true)
unfolding user_of_key
user_of_key-some now h db u e = elim (Option-cases (first (is_valid_key now h) db.api_keys)) [
  | inl absent ↦ absurd (ground arith)
  | inr (k, found) ↦
      let valid = first-true (is_valid_key now h) db.api_keys k found in
      let (active, owner) = active_user-some k.user_id db.users u (ground arith) in
      (active, k, found, owner, ground arith, ground arith)
]

no_session_left :
    (later h : ℕ) (sessions : List UserSession)
    → length (select (λ s. s.token_hash == h) sessions) ≡ 0
    → first (is_valid_session later h) sessions ≡ none
no_session_left later h [] e = refl
no_session_left later h (s ∷ sessions) e = ground (arith, no_session_left later h sessions)

no_session_valid :
    (now later h : ℕ) (sessions : List UserSession)
    → length (select (λ s. s.token_hash == h) sessions) ≤ 1
    → first
        (is_valid_session later h)
        (update_first (λ s. s.token_hash == h) (λ s. record s { revoked_at = some now }) sessions)
      ≡ none
no_session_valid now later h [] e = refl
no_session_valid now later h (s ∷ sessions) e =
    ground (arith, no_session_left later h sessions, no_session_valid now later h sessions)

-- A token that is accepted belongs to an active user, by a session or a key that is neither revoked
-- nor expired.
get_user_from_token_valid :
    (now h : ℕ) (db : AuthDb) (u : User)
    → get_user_from_token now h db ≡ ok u
    → (u.is_active ≡ true)
      × (((s : UserSession) × (first (is_valid_session now h) db.sessions ≡ some s)
            × (s.user_id ≡ u.id)
            × (s.revoked_at ≡ none)
            × (now < s.expires_at))
          ⊎ ((k : ApiKey) × (first (is_valid_key now h) db.api_keys ≡ some k)
              × (k.user_id ≡ u.id)
              × (k.revoked_at ≡ none)
              × (unexpired now k.expires_at ≡ true)))
unfolding get_user_from_token
get_user_from_token_valid now h db u e = elim (Option-cases (user_of_session now h db)) [
  | inr (v, by_session) ↦
      let (active, s, found, owner, open', fresh) =
        user_of_session-some now h db u (ground arith) in
      (active, inl (s, found, owner, open', fresh))
  | inl other ↦
      let (active, k, found, owner, open', fresh) = user_of_key-some now h db u (ground arith) in
      (active, inr (k, found, owner, open', fresh))
]

-- Once a session is revoked its token is accepted no more, at any time, if the session's hash is that
-- of no other session and of no valid key.
revoke_session_refuses :
    (now later h : ℕ) (db : AuthDb)
    → length (select (λ s. s.token_hash == h) db.sessions) ≤ 1
    → first (is_valid_key later h) db.api_keys ≡ none
    → get_user_from_token later h (revoke_session now h db) ≡ err (unauthorized bad_token)
unfolding get_user_from_token revoke_session user_of_session user_of_key
revoke_session_refuses now later h db unique no_key =
    ground (arith, no_session_valid now later h db.sessions unique)
