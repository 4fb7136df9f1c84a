-- ===== src/Tests/Accounts.antt =====
-- A registration and a bootstrap with a key derivation that only joins its arguments.
use cgraph.Prelude.{
  ℕ, ◌+◌, ◌-◌, ◌≡◌, refl, true, false, some, List, [], ◌∷◌, ◌++◌, arith, if◌then◌else◌,
}
use cgraph.Text.{Text, codes, text_eq, strip, lower_ascii}
use cgraph.Errors.{ok, err, unauthorized, bad_credentials}
use cgraph.Auth.{User}
use cgraph.Auth.Passwords.{Crypto, hash_password, derive, contains}
use cgraph.Auth.Accounts.{
  Tables, Call, check_email_and_password, normal_email, insert_user, bootstrap_user, register_user,
  authenticate_user, create_default_org,
}
use cgraph.Auth.Registration.{register_user-authenticate_user}

-- a stand-in for base64, whose texts have no dollar sign: each number is 40 higher
abbrev shift : List ℕ → Text
shift [] = []
shift (n ∷ ns) = (n + 40) ∷ shift ns

abbrev unshift : Text → List ℕ
unshift [] = []
unshift (n ∷ ns) = (n - 40) ∷ unshift ns

unshift-shift : (b : List ℕ) → some (unshift (shift b)) ≡ some b
unshift-shift [] = refl
unshift-shift (n ∷ ns) = ground (arith, unshift-shift ns)

shift_alphabet : (b : List ℕ) → contains b'$' (shift b) ≡ false
shift_alphabet [] = refl
shift_alphabet (n ∷ ns) = ground (arith, shift_alphabet ns)

abbrev crypto : Crypto
crypto = record {
  utf8 = λ s. s;
  pepper = b'p' ∷ [];
  pbkdf2 = λ password salt iterations. salt ++ password;
  b64encode = shift;
  b64decode = λ s. some (unshift s);
}

abbrev call : Call
call = record { now = 1; salt = 1 ∷ 2 ∷ []; allow_public_signup = true; others = λ db. db }

abbrev blank : Tables
blank = record {
  auth = record {
    users = [];
    sessions = [];
    api_keys = [];
    next_user_id = 1;
    next_key_id = 1;
    sentinel = false;
  };
  orgs = record { organizations = []; memberships = []; next_org_id = 1 };
}

abbrev email : Text
email = codes " A@b "

abbrev eight : Text
eight = codes "password"

abbrev first_user : User
first_user = record {
  id = 1;
  email = codes "a@b";
  password_hash = hash_password crypto (1 ∷ 2 ∷ []) eight;
  is_active = true;
}

abbrev after : Tables
after = record {
  auth = record blank.auth { users = first_user ∷ []; next_user_id = 2 };
  orgs = create_default_org 1 first_user blank.orgs;
}

abbrev after_bootstrap : Tables
after_bootstrap = record after { auth = record after.auth { sentinel = true } }

registered : register_user call crypto email eight blank ≡ (ok first_user, after)
unfolding register_user insert_user normal_email strip lower_ascii
registered = refl

bootstrapped : bootstrap_user call crypto email eight blank ≡ (ok first_user, after_bootstrap)
unfolding bootstrap_user insert_user normal_email strip lower_ascii
bootstrapped = refl

valid_arguments : check_email_and_password (codes "c@d") eight ≡ ok tt
unfolding strip
valid_arguments = refl

register_user-authenticate_user_example : authenticate_user crypto email eight after.auth ≡ (
    if text_eq (derive crypto eight (1 ∷ 2 ∷ []) 200000) (derive crypto eight (1 ∷ 2 ∷ []) 200000)
    then ok first_user
    else err (unauthorized bad_credentials))
register_user-authenticate_user_example =
    register_user-authenticate_user call crypto email eight eight blank after first_user
      unshift-shift shift_alphabet registered
