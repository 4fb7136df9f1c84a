-- ===== src/Auth/Passwords.antt =====
-- The text format of password hashes (backend/app/services/auth_service.py). In a text of the database
-- the only digits of the count are the ASCII ones.
use cgraph.Prelude.{
  ℕ, suc, ◌≡◌, refl, sym, subst, Bool, true, false, not, Option, none, some, List, [], ◌∷◌, ◌++◌,
  ◌==◌, if◌then◌else◌, arith,
}
use cgraph.Text.{Text, codes, text_eq, split}
use cgraph.Text.Number.{ℤ, pos, int_of_stripped}

-- The codecs and the key derivation, with the pepper of the settings. `b64decode` encodes to ASCII
-- and decodes with `validate=True`; `none` is one of the errors that the source catches.
pub record Crypto : Type 0 where
  pub utf8 : Text → List ℕ
  pub pepper : List ℕ
  pub pbkdf2 : List ℕ → List ℕ → ℕ → List ℕ
  pub b64encode : List ℕ → Text
  pub b64decode : Text → Option (List ℕ)

unfoldable pub derive : Crypto → Text → List ℕ → ℕ → List ℕ
derive crypto password salt iterations =
    crypto.pbkdf2 (crypto.utf8 password ++ crypto.pepper) salt iterations

-- `_hash_password`
unfoldable pub hash_password : Crypto → List ℕ → Text → Text
hash_password crypto salt password =
    codes "pbkdf2_sha256"
    ++ (b'$'
        ∷ (codes "200000"
            ++ (b'$'
                ∷ (crypto.b64encode salt
                    ++ (b'$' ∷ crypto.b64encode (derive crypto password salt 200000))))))

-- the end of `_verify_password`, once the text is split
unfoldable pub verify_fields : Crypto → Text → ℤ → Option (List ℕ) → Option (List ℕ) → Bool
verify_fields crypto password (pos (suc n)) (some salt) (some stored) =
    text_eq (derive crypto password salt (suc n)) stored
verify_fields crypto password _ _ _ = false

unfoldable pub verify_split : Crypto → Text → List Text → Bool
unfolding verify_fields
verify_split crypto password (scheme ∷ iterations ∷ salt ∷ hash ∷ []) =
    if not (text_eq scheme (codes "pbkdf2_sha256"))
    then false
    else elim (int_of_stripped iterations) [
      | none ↦ false
      | some n ↦ verify_fields crypto password n (crypto.b64decode salt) (crypto.b64decode hash)
    ]
verify_split crypto password _ = false

-- `_verify_password`
unfoldable pub verify_password : Crypto → Text → Text → Bool
unfolding verify_split
verify_password crypto password stored = verify_split crypto password (split b'$' 3 stored)

-- does a character stand in a text
abbrev pub contains : ℕ → Text → Bool
contains c [] = false
contains c (d ∷ s) = if d == c then true else contains c s

split_piece :
    (sep n : ℕ) (p s : Text)
    → contains sep p ≡ false
    → split sep (suc n) (p ++ (sep ∷ s)) ≡ p ∷ split sep n s
unfolding split
split_piece sep n [] s h = ground arith
split_piece sep n (c ∷ p) s h = ground (arith, split_piece sep n p s)

split_rest : (sep : ℕ) (s : Text) → split sep 0 s ≡ s ∷ []
unfolding split
split_rest sep [] = refl
split_rest sep (c ∷ s) = ground (arith, split_rest sep s)

split-hash_password :
    (crypto : Crypto) (salt : List ℕ) (password : Text)
    → ((b : List ℕ) → contains b'$' (crypto.b64encode b) ≡ false)
    → split b'$' 3 (hash_password crypto salt password)
      ≡ codes "pbkdf2_sha256"
        ∷ codes "200000"
        ∷ crypto.b64encode salt
        ∷ crypto.b64encode (derive crypto password salt 200000)
        ∷ []
unfolding hash_password
split-hash_password crypto salt password alphabet =
    let salted = crypto.b64encode salt in
    let key = crypto.b64encode (derive crypto password salt 200000) in
    let first_cut =
      split_piece b'$' 2 (codes "pbkdf2_sha256")
        (codes "200000" ++ (b'$' ∷ (salted ++ (b'$' ∷ key)))) refl in
    let second_cut = split_piece b'$' 1 (codes "200000") (salted ++ (b'$' ∷ key)) refl in
    let third_cut = split_piece b'$' 0 salted key (alphabet salt) in
    let last = split_rest b'$' key in cc

count_read : int_of_stripped (codes "200000") ≡ some (pos 200000)
unfolding int_of_stripped
count_read = refl

fields_read :
    (crypto : Crypto) (other : Text) (salt stored : List ℕ)
    → verify_fields crypto other (pos 200000) (some salt) (some stored)
      ≡ text_eq (derive crypto other salt 200000) stored
unfolding verify_fields
fields_read crypto other salt stored = refl

-- If base64 decodes what it encodes and its alphabet has no dollar sign, then a password is accepted
-- against a stored hash just if it derives the same key from the salt as the password that was hashed.
pub verify_password-hash_password :
    (crypto : Crypto) (salt : List ℕ) (password other : Text)
    → ((b : List ℕ) → crypto.b64decode (crypto.b64encode b) ≡ some b)
    → ((b : List ℕ) → contains b'$' (crypto.b64encode b) ≡ false)
    → verify_password crypto other (hash_password crypto salt password)
      ≡ text_eq (derive crypto other salt 200000) (derive crypto password salt 200000)
unfolding verify_password verify_split text_eq
verify_password-hash_password crypto salt password other inverse alphabet =
    let key = derive crypto password salt 200000 in
    let pieces = split-hash_password crypto salt password alphabet in
    let counted = count_read in
    let salt_read = inverse salt in
    let key_read = inverse key in
    subst (λ ps. verify_split crypto other ps ≡ text_eq (derive crypto other salt 200000) key)
      (sym pieces) (let read = fields_read crypto other salt key in cc)
