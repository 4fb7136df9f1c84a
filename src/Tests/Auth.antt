-- ===== src/Tests/Auth.antt =====
-- Two accounts, a session and a key.
use cgraph.Prelude.{◌≡◌, refl, true, false, none, some, [], ◌∷◌}
use cgraph.Text.{codes}
use cgraph.Errors.{ok, err, unauthorized, bad_token}
use cgraph.Auth.{
  User, AuthDb, extract_token, get_user_from_token, user_of_session, user_of_key, active_user,
}

abbrev pub ann : User
ann = record {
  id = 10;
  email = codes "ann@example.org";
  password_hash = codes "x";
  is_active = true;
}

abbrev pub accounts : AuthDb
accounts = record {
  users = ann ∷ [];
  sessions =
      record { user_id = 10; token_hash = 77; created_at = 0; expires_at = 100; revoked_at = none }
      ∷ [];
  api_keys =
      record {
        id = 1;
        user_id = 10;
        token_hash = 78;
        created_at = 0;
        expires_at = none;
        revoked_at = none;
      }
      ∷ [];
  next_user_id = 11;
  next_key_id = 2;
  sentinel = false;
}

bearer_wins :
    extract_token (record {
      x_org_id = none;
      authorization = some (codes "BEARER  abc ");
      x_api_key = some (codes "key");
      state_user = none;
    })
    ≡ some (codes "abc")
unfolding extract_token
bearer_wins = refl

session_accepted : get_user_from_token 50 77 accounts ≡ ok ann
unfolding get_user_from_token user_of_session active_user
session_accepted = refl

expired_refused : get_user_from_token 100 77 accounts ≡ err (unauthorized bad_token)
unfolding get_user_from_token user_of_session user_of_key active_user
expired_refused = refl
