-- ===== src/Text.antt =====
-- Python's `str` as the list of its code points, with the methods that the program calls.
pub mod Strip
pub mod Number
pub mod Chunks
use Prim.Native.String
use Prim.Native.Char.{code}
use mathlib.Core.List.{reverse}
use cgraph.Prelude.{
  ℕ, zero, suc, ◌+◌, ◌-◌, ◌*◌, String, Bool, true, false, not, ◌&&◌, ◌||◌, Option, none, some, List,
  [], ◌∷◌, ◌++◌, ltb, leb, ◌==◌, if◌then◌else◌, length,
}

abbrev pub Text : Type 0
Text = List ℕ

-- the code points of a literal
abbrev pub codes : String → Text
codes String.[] = []
codes (String.◌∷◌ c s) = code c ∷ codes s

-- `s == t`
unfoldable pub text_eq : Text → Text → Bool
text_eq [] [] = true
text_eq [] (y ∷ ys) = false
text_eq (x ∷ xs) [] = false
text_eq (x ∷ xs) (y ∷ ys) = x == y && text_eq xs ys

-- `s.startswith(p)`
unfoldable pub starts_with : Text → Text → Bool
starts_with [] s = true
starts_with (x ∷ xs) [] = false
starts_with (x ∷ xs) (y ∷ ys) = x == y && starts_with xs ys

-- `c.isspace()`
unfoldable pub is_space : ℕ → Bool
is_space c =
    (leb 9 c && leb c 13)
    || ((leb 28 c && leb c 32)
        || (c == 0x85
            || (c == 0xa0
                || (c == 0x1680
                    || ((leb 0x2000 c && leb c 0x200a)
                        || (c == 0x2028
                            || (c == 0x2029 || (c == 0x202f || (c == 0x205f || c == 0x3000)))))))))

unfoldable pub lstrip : Text → Text
unfolding is_space
lstrip [] = []
lstrip (c ∷ s) = let rest = lstrip s in if is_space c then rest else c ∷ s

-- `s.strip()`
unfoldable pub strip : Text → Text
unfolding lstrip
strip s = reverse (lstrip (reverse (lstrip s)))

-- the lower case of the ASCII letters
unfoldable pub lower_ascii : Text → Text
lower_ascii [] = []
lower_ascii (c ∷ s) = (if leb b'A' c && leb c b'Z' then c + 32 else c) ∷ lower_ascii s

-- `s.split(sep, 1)[1]` for one character, and `none` where there is no separator
unfoldable pub after_first : ℕ → Text → Option Text
after_first sep [] = none
after_first sep (c ∷ s) = let rest = after_first sep s in if c == sep then some s else rest

-- `s.split(sep, 1)[0]`
unfoldable pub before_first : ℕ → Text → Text
before_first sep [] = []
before_first sep (c ∷ s) = let rest = before_first sep s in if c == sep then [] else c ∷ rest

-- `c` in front of the first of some pieces
abbrev pub onto_first : ℕ → List Text → List Text
onto_first c [] = []
onto_first c (p ∷ ps) = (c ∷ p) ∷ ps

-- `s.split(sep, n)` for one character
unfoldable pub split : ℕ → ℕ → Text → List Text
split sep n [] = [] ∷ []
split sep n (c ∷ s) = elim (c == sep && ltb 0 n) [
  | true ↦ [] ∷ split sep (n - 1) s
  | false ↦ onto_first c (split sep n s)
]
