-- ===== src/Braces/Grammar.antt =====
-- What the scanner finds, against a grammar of code with strings, comments and nested braces.
use cgraph.Prelude.{
  ℕ, suc, ◌+◌, ◌-◌, ◌<◌, ◌≤◌, ◌≡◌, ◌⊎◌, inl, inr, refl, Bool, true, false, not, ◌&&◌, ◌||◌, some,
  [], ◌∷◌, ◌++◌, ◌==◌, if◌then◌else◌, drop, length, length-append, length-drop, arith,
}
use cgraph.Text.{Text}
use cgraph.Braces.{
  Mode, code, line_comment, block_comment, quoted, Turn, is_next, is_quote, turn, close, one, two,
  scan, extract_brace_block,
}

pub data Source : Type 0 where
  end : Source
  plain : ℕ → Source → Source
  string : ℕ → Text → Source → Source
  line block : Text → Source → Source
  braces : Source → Source → Source

unfoldable pub render : Source → Text → Text
render end tail = tail
render (plain c rest) tail = c ∷ render rest tail
render (string q body rest) tail = q ∷ (body ++ (q ∷ render rest tail))
render (line body rest) tail = b'/' ∷ b'/' ∷ (body ++ (10 ∷ render rest tail))
render (block body rest) tail = b'/' ∷ b'*' ∷ (body ++ (b'*' ∷ b'/' ∷ render rest tail))
render (braces inner rest) tail = b'{' ∷ render inner (b'}' ∷ render rest tail)

unfoldable pub size : Source → ℕ
size end = 0
size (plain c rest) = 1 + size rest
size (string q body rest) = 2 + length body + size rest
size (line body rest) = 3 + length body + size rest
size (block body rest) = 4 + length body + size rest
size (braces inner rest) = 2 + size inner + size rest

-- The body of a string neither ends it nor ends in a backslash that escapes its end.
abbrev pub in_string : ℕ → Bool → Text → Bool
in_string q esc [] = not esc
in_string q true (c ∷ s) = in_string q false s
in_string q false (c ∷ s) =
    if c == 92 then in_string q true s else not (c == q) && in_string q false s

abbrev pub in_line : Text → Bool
in_line [] = true
in_line (c ∷ s) = not (c == 10) && in_line s

abbrev pub in_block : Text → Bool
in_block [] = true
in_block (c ∷ s) = not (c == b'*' && is_next b'/' s) && in_block s

abbrev pub is_plain : ℕ → Text → Bool
is_plain c s =
    not (is_quote c || (c == b'{' || c == b'}'))
    && not (c == b'/' && (is_next b'/' s || is_next b'*' s))

unfoldable pub is_valid : Source → Text → Bool
unfolding render
is_valid end tail = true
is_valid (plain c rest) tail = is_plain c (render rest tail) && is_valid rest tail
is_valid (string q body rest) tail =
    is_quote q && not (q == 92) && (in_string q false body && is_valid rest tail)
is_valid (line body rest) tail = in_line body && is_valid rest tail
is_valid (block body rest) tail = in_block body && is_valid rest tail
is_valid (braces inner rest) tail = is_valid inner (b'}' ∷ render rest tail) && is_valid rest tail

-- One turn of the loop, whether a character follows or not.
scan-turn :
    (i : ℕ) (state : Mode) (depth c : ℕ) (s : Text)
    → scan i state depth (c ∷ s) ≡ elim (turn state depth c s) [
      | close ↦ some (i + 1)
      | one state' depth' ↦ scan (i + 1) state' depth' s
      | two state' depth' ↦ scan (i + 2) state' depth' (drop 1 s)
    ]
unfolding scan
scan-turn i state depth c [] = ground arith
scan-turn i state depth c (d ∷ s) = refl

scan-string :
    (i depth q : ℕ) (esc : Bool) (body tail : Text)
    → (q == 92) ≡ false
    → in_string q esc body ≡ true
    → scan i (quoted q esc) depth (body ++ (q ∷ tail)) ≡ scan (i + length body + 1) code depth tail
unfolding turn
scan-string i depth q true [] tail n h = ground arith
scan-string i depth q false [] tail n h = ground (arith, scan-turn i (quoted q false) depth q tail)
scan-string i depth q true (c ∷ body) tail n h = ground (
  arith,
  scan-turn i (quoted q true) depth c (body ++ (q ∷ tail)),
  scan-string (i + 1) depth q false body tail,
)
scan-string i depth q false (c ∷ body) tail n h = ground (
  arith,
  scan-turn i (quoted q false) depth c (body ++ (q ∷ tail)),
  scan-string (i + 1) depth q false body tail,
  scan-string (i + 1) depth q true body tail,
)

scan-line :
    (i depth : ℕ) (body tail : Text)
    → in_line body ≡ true
    → scan i line_comment depth (body ++ (10 ∷ tail)) ≡ scan (i + length body + 1) code depth tail
unfolding turn
scan-line i depth [] tail h = ground (arith, scan-turn i line_comment depth 10 tail)
scan-line i depth (c ∷ body) tail h = ground (
  arith,
  scan-turn i line_comment depth c (body ++ (10 ∷ tail)),
  scan-line (i + 1) depth body tail,
)

scan-block :
    (i depth : ℕ) (body tail : Text)
    → in_block body ≡ true
    → scan i block_comment depth (body ++ (b'*' ∷ b'/' ∷ tail))
      ≡ scan (i + length body + 2) code depth tail
unfolding turn
scan-block i depth [] tail h = ground (arith, scan-turn i block_comment depth b'*' (b'/' ∷ tail))
scan-block i depth (c ∷ []) tail h = ground (
  arith,
  scan-turn i block_comment depth c (b'*' ∷ b'/' ∷ tail),
  scan-block (i + 1) depth [] tail,
)
scan-block i depth (c ∷ d ∷ body) tail h = ground (
  arith,
  scan-turn i block_comment depth c (d ∷ (body ++ (b'*' ∷ b'/' ∷ tail))),
  scan-block (i + 1) depth (d ∷ body) tail,
)

scan-render :
    (i depth : ℕ) (src : Source) (tail : Text)
    → is_valid src tail ≡ true
    → scan i code (suc depth) (render src tail) ≡ scan (i + size src) code (suc depth) tail
unfolding turn render size is_valid
scan-render i depth end tail h = ground arith
scan-render i depth (plain c rest) tail h =
    ground (
      arith,
      scan-turn i code (suc depth) c (render rest tail),
      scan-render (i + 1) depth rest tail,
    )
scan-render i depth (string q body rest) tail h = ground (
  arith,
  scan-turn i code (suc depth) q (body ++ (q ∷ render rest tail)),
  scan-string (i + 1) (suc depth) q false body (render rest tail),
  scan-render (i + 1 + length body + 1) depth rest tail,
)
scan-render i depth (line body rest) tail h = ground (
  arith,
  scan-turn i code (suc depth) b'/' (b'/' ∷ (body ++ (10 ∷ render rest tail))),
  scan-line (i + 2) (suc depth) body (render rest tail),
  scan-render (i + 2 + length body + 1) depth rest tail,
)
scan-render i depth (block body rest) tail h = ground (
  arith,
  scan-turn i code (suc depth) b'/' (b'*' ∷ (body ++ (b'*' ∷ b'/' ∷ render rest tail))),
  scan-block (i + 2) (suc depth) body (render rest tail),
  scan-render (i + 2 + length body + 2) depth rest tail,
)
scan-render i depth (braces inner rest) tail h = ground (
  arith,
  scan-turn i code (suc depth) b'{' (render inner (b'}' ∷ render rest tail)),
  scan-turn (i + 1 + size inner) code (suc (suc depth)) b'}' (render rest tail),
  scan-render (i + 1) (suc depth) inner (b'}' ∷ render rest tail),
  scan-render (i + 1 + size inner + 1) depth rest tail,
)

drop_onto : (pre s : Text) → drop (length pre) (pre ++ s) ≡ s
drop_onto [] s = refl
drop_onto (c ∷ pre) s = drop_onto pre s

length-render : (src : Source) (tail : Text) → length (render src tail) ≡ size src + length tail
unfolding render size
length-render end tail = omega arith
length-render (plain c rest) tail = ground (arith, length-render rest tail)
length-render (string q body rest) tail =
    ground (arith, length-append body (q ∷ render rest tail), length-render rest tail)
length-render (line body rest) tail =
    ground (arith, length-append body (10 ∷ render rest tail), length-render rest tail)
length-render (block body rest) tail =
    ground (arith, length-append body (b'*' ∷ b'/' ∷ render rest tail), length-render rest tail)
length-render (braces inner rest) tail =
    ground (arith, length-render inner (b'}' ∷ render rest tail), length-render rest tail)

-- On a block of valid code, with any text before and after it, the function gives where it begins and
-- ends: strings, comments and inner blocks are passed over. The code is valid in the grammar of this file,
-- which has no regular expression literals.
pub extract_brace_block-render :
    (pre : Text) (inner : Source) (post : Text)
    → is_valid inner (b'}' ∷ post) ≡ true
    → extract_brace_block (pre ++ render (braces inner end) post) (length pre)
      ≡ some (length pre, length (pre ++ render (braces inner end) post) - length post)
unfolding extract_brace_block render size turn
extract_brace_block-render pre inner post valid = ground (
  arith,
  drop_onto pre (render (braces inner end) post),
  length-append pre (render (braces inner end) post),
  length-render inner (b'}' ∷ post),
  scan-turn (length pre) code 0 b'{' (render inner (b'}' ∷ post)),
  scan-render (length pre + 1) 0 inner (b'}' ∷ post) valid,
  scan-turn (length pre + 1 + size inner) code 1 b'}' post,
)

Turn-cases :
    (t : Turn)
    → (t ≡ close)
      ⊎ (((m : Mode) × (n : ℕ) × (t ≡ one m n)) ⊎ ((m : Mode) × (n : ℕ) × (t ≡ two m n)))
Turn-cases close = inl refl
Turn-cases (one m n) = inr (inl (m, n, refl))
Turn-cases (two m n) = inr (inr (m, n, refl))

scan_bounds :
    (i : ℕ) (state : Mode) (depth : ℕ) (s : Text) (e : ℕ)
    → scan i state depth s ≡ some e
    → (i < e) × (e ≤ i + length s)
unfolding scan
scan_bounds i state depth [] e h = ground arith
scan_bounds i state depth (c ∷ []) e h = ground (arith, Turn-cases (turn state depth c []))
scan_bounds i state depth (c ∷ d ∷ s) e h = elim (Turn-cases (turn state depth c (d ∷ s))) [
  | inl closed ↦ ground arith
  | inr (inl (m, n, t)) ↦ ground (arith, scan_bounds (i + 1) m n (d ∷ s) e)
  | inr (inr (m, n, t)) ↦ ground (arith, scan_bounds (i + 2) m n s e)
]

Text-cases : (s : Text) → (s ≡ []) ⊎ ((c : ℕ) × (t : Text) × (s ≡ c ∷ t))
Text-cases [] = inl refl
Text-cases (c ∷ s) = inr (c, s, refl)

-- What the function gives begins where it was asked and ends within the text, after two characters at
-- least.
extract_brace_block_bounds :
    (text : Text) (brace_pos first last : ℕ)
    → extract_brace_block text brace_pos ≡ some (first, last)
    → (first ≡ brace_pos) × (brace_pos + 1 < last) × (last ≤ length text)
unfolding extract_brace_block turn
extract_brace_block_bounds text brace_pos first last h = elim (Text-cases (drop brace_pos text)) [
  | inl outside ↦ absurd (ground arith)
  | inr (c, s, here) ↦ ground (
    arith,
    length-drop brace_pos text,
    scan-turn brace_pos code 0 c s,
    scan_bounds (brace_pos + 1) code 1 s last,
  )
]
