-- ===== src/Text/Number.antt =====
-- `int(text)` on the text of a header, whose characters are Latin-1: the only digits among them are
-- the ASCII ones.
use cgraph.Prelude.{
  ℕ, zero, suc, ◌+◌, ◌-◌, ◌*◌, Bool, false, ◌&&◌, ◌||◌, Option, none, some, ◌≡◌, refl, [], ◌∷◌,
  ◌==◌, leb, if◌then◌else◌,
}
use cgraph.Text.{Text, strip}

-- `negsuc n` is -(n + 1).
pub data ℤ : Type 0 where
  pos negsuc : ℕ → ℤ

abbrev pub neg : ℕ → ℤ
neg zero = pos 0
neg (suc n) = negsuc n

unfoldable pub is_digit : ℕ → Bool
is_digit c = leb b'0' c && leb c b'9'

-- An underscore may stand between two digits; `seen` says that the last character was a digit.
unfoldable pub digits : Bool → ℕ → Text → Option ℕ
unfolding is_digit
digits seen n [] = if seen then some n else none
digits seen n (c ∷ s) =
    let next = digits (is_digit c) (if is_digit c then n * 10 + (c - 48) else n) s in
    if is_digit c || (c == b'_' && seen) then next else none

abbrev pub signed : (ℕ → ℤ) → Option ℕ → Option ℤ
signed f none = none
signed f (some n) = some (f n)

unfoldable pub int_of : Text → Option ℤ
unfolding digits
int_of [] = none
int_of (c ∷ s) =
    if c == b'-'
    then signed neg (digits false 0 s)
    else if c == b'+'
    then signed pos (digits false 0 s)
    else signed pos (digits false 0 (c ∷ s))

-- `int(text.strip())`
unfoldable pub int_of_stripped : Text → Option ℤ
unfolding int_of strip
int_of_stripped s = int_of (strip s)

-- an id of the database against an integer of a request
abbrev pub is_id : ℤ → ℕ → Bool
is_id (pos n) m = n == m
is_id (negsuc n) m = false

int_of_stripped_test : int_of_stripped (9 ∷ b'-' ∷ b'1' ∷ b'_' ∷ b'2' ∷ 32 ∷ []) ≡ some (negsuc 11)
unfolding int_of_stripped
int_of_stripped_test = refl
