-- ===== src/Auth/Registration.antt =====
-- Who can sign in after a registration, and that the first user is made once
-- (backend/app/services/auth_service.py).
use cgraph.Prelude.{
  ℕ, ◌≡◌, inl, inr, sym, subst, true, false, some, List, if◌then◌else◌, arith, Bool-cases,
}
use cgraph.Prelude.Rows.{first, any, first-append, first-of-not-any}
use cgraph.Text.{Text, strip, text_eq}
use cgraph.Text.Strip.{text_eq_refl}
use cgraph.Errors.{
  ok, err, bad_request, unauthorized, bootstrap_done, bad_credentials, Result-cases,
}
use cgraph.Auth.{User}
use cgraph.Auth.Passwords.{
  Crypto, hash_password, verify_password, derive, contains, verify_password-hash_password,
}
use cgraph.Auth.Accounts.{
  Tables, Call, normal_email, is_empty, has_email, check_email_and_password, insert_user,
  bootstrap_user, register_user, authenticate_user, with_sentinel,
}

insert_user-first :
    (call : Call) (crypto : Crypto) (email password : Text) (db db' : Tables) (u : User)
    → insert_user call crypto email password db ≡ ok (u, db')
    → (first (has_email (normal_email email)) db'.auth.users ≡ some u)
      × (u.is_active ≡ true)
      × (u.password_hash ≡ hash_password crypto call.salt password)
      × (db'.auth.sentinel ≡ db.auth.sentinel)
unfolding insert_user
insert_user-first call crypto email password db db' u done =
    elim (Bool-cases (any (has_email (normal_email email)) db.auth.users)) [
      | inl taken ↦ absurd (ground arith)
      | inr fresh ↦ ground (
        arith,
        first-append (has_email (normal_email email)) db.auth.users u,
        text_eq_refl (normal_email email),
        first-of-not-any (has_email (normal_email email)) db.auth.users fresh,
      )
    ]

register_user_inserted :
    (call : Call) (crypto : Crypto) (email password : Text) (db db' : Tables) (u : User)
    → register_user call crypto email password db ≡ (ok u, db')
    → (is_empty (strip email) ≡ false)
      × (insert_user call crypto email password (call.others db) ≡ ok (u, db'))
unfolding register_user
register_user_inserted call crypto email password db db' u done =
    elim (Result-cases (insert_user call crypto email password (call.others db))) [
      | inr (e, failed) ↦ absurd (ground arith)
      | inl (made, inserted) ↦ ground arith
    ]

-- After a registration a sign-in with the same address and any password gives the new user just if
-- that password derives the same key as the one that was registered, and is refused if not. base64 is
-- taken to decode what it encodes, and to have no dollar sign.
pub register_user-authenticate_user :
    (call : Call) (crypto : Crypto) (email password other : Text) (db db' : Tables) (u : User)
    → ((b : List ℕ) → crypto.b64decode (crypto.b64encode b) ≡ some b)
    → ((b : List ℕ) → contains b'$' (crypto.b64encode b) ≡ false)
    → register_user call crypto email password db ≡ (ok u, db')
    → authenticate_user crypto email other db'.auth ≡ (
        if text_eq (derive crypto other call.salt 200000) (derive crypto password call.salt 200000)
        then ok u
        else err (unauthorized bad_credentials))
unfolding authenticate_user
register_user-authenticate_user call crypto email password other db db' u inverse alphabet done =
    let (given, inserted) = register_user_inserted call crypto email password db db' u done in
    let (found, active, hashed, same) =
      insert_user-first call crypto email password (call.others db) db' u inserted in
    let checked =
      subst
        (λ h.
          verify_password crypto other h
          ≡ text_eq (derive crypto other call.salt 200000)
              (derive crypto password call.salt 200000))
        (sym hashed)
        (verify_password-hash_password crypto call.salt password other inverse alphabet) in
    ground arith

-- After the first user has been made, a further call with a valid address and password is refused as
-- done, and changes nothing.
bootstrap_user_once :
    (call again : Call) (crypto : Crypto) (email password email' password' : Text) (db db' : Tables)
    (u : User)
    → bootstrap_user call crypto email password db ≡ (ok u, db')
    → check_email_and_password email' password' ≡ ok tt
    → bootstrap_user again crypto email' password' db' ≡ (err (bad_request bootstrap_done), db')
unfolding bootstrap_user
bootstrap_user_once call again crypto email password email' password' db db' u done valid =
    elim (Result-cases (insert_user call crypto email password (with_sentinel (call.others db)))) [
      | inr (e, failed) ↦ absurd (ground arith)
      | inl (made, inserted) ↦ ground (
        arith,
        insert_user-first call crypto email password (with_sentinel (call.others db)) made.1 made.0
            inserted,
      )
    ]
