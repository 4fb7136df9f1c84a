-- ===== src/Braces.antt =====
-- backend/app/parsing_utils.py: the end of a block in braces, over strings and comments.
pub mod Grammar
use cgraph.Prelude.{
  ℕ, ◌+◌, ◌-◌, Bool, true, false, not, ◌&&◌, ◌||◌, Option, none, some, List, [], ◌∷◌, ◌==◌, ltb,
  if◌then◌else◌, drop,
}
use cgraph.Text.{Text}

-- `in_line_comment`, `in_block_comment`, and `in_str` with `esc`, of which one is set at most
pub data Mode : Type 0 where
  code line_comment block_comment : Mode
  quoted : ℕ → Bool → Mode

-- what one turn of the loop does: return `i + 1`, or go on at `i + 1` or `i + 2`
pub data Turn : Type 0 where
  close : Turn
  one two : Mode → ℕ → Turn

-- is `nxt` this character
abbrev pub is_next : ℕ → Text → Bool
is_next d [] = false
is_next d (c ∷ s) = c == d

-- `ch in ("'", '"', "`")`
abbrev pub is_quote : ℕ → Bool
is_quote c = c == 39 || (c == 34 || c == 96)

unfoldable pub turn : Mode → ℕ → ℕ → Text → Turn
turn line_comment depth c s = one (if c == 10 then code else line_comment) depth
turn block_comment depth c s =
    if c == b'*' && is_next b'/' s then two code depth else one block_comment depth
turn (quoted q true) depth c s = one (quoted q false) depth
turn (quoted q false) depth c s =
    if c == 92
    then one (quoted q true) depth
    else if c == q
    then one code depth
    else one (quoted q false) depth
turn code depth c s =
    if c == b'/' && is_next b'/' s
    then two line_comment depth
    else if c == b'/' && is_next b'*' s
    then two block_comment depth
    else if is_quote c
    then one (quoted c false) depth
    else if c == b'{'
    then one code (depth + 1)
    else if c == b'}'
    then (if depth == 1 then close else one code (depth - 1))
    else one code depth

-- the loop at `i`, on `text[i:]`
unfoldable pub scan : ℕ → Mode → ℕ → Text → Option ℕ
scan i state depth [] = none
scan i state depth (c ∷ []) = elim (turn state depth c []) [
  | close ↦ some (i + 1)
  | one state' depth' ↦ none
  | two state' depth' ↦ none
]
scan i state depth (c ∷ d ∷ s) = elim (turn state depth c (d ∷ s)) [
  | close ↦ some (i + 1)
  | one state' depth' ↦ scan (i + 1) state' depth' (d ∷ s)
  | two state' depth' ↦ scan (i + 2) state' depth' s
]

-- `extract_brace_block`; a negative position gives `None` in the source.
unfoldable pub extract_brace_block : Text → ℕ → Option (ℕ × ℕ)
unfolding scan
extract_brace_block text brace_pos = elim (drop brace_pos text) [
  | [] ↦ none
  | c ∷ s ↦
      if c == b'{'
      then elim (scan brace_pos code 0 (c ∷ s)) [ some end ↦ some (brace_pos, end) | none ↦ none ]
      else none
]
