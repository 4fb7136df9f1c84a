-- ===== src/Patches/Hunks.antt =====
-- What one hunk does (backend/app/patches.py).
use mathlib.Core.List.{append_assoc, append-nil}
use cgraph.Prelude.{ℕ, ◌+◌, ◌≡◌, Bool, true, false, List, [], ◌∷◌, ◌++◌, length, arith}
use cgraph.Text.{Text}
use cgraph.Text.Strip.{text_eq_iff, text_eq_refl}
use cgraph.Patches.{ok, Line, context, removed, added, unknown, Cursor, apply_lines}

-- the lines of a hunk that it expects, and those that it leaves
abbrev pub old_side : List Line → List Text
old_side [] = []
old_side (context v ∷ lines) = v ∷ old_side lines
old_side (removed v ∷ lines) = v ∷ old_side lines
old_side (added v ∷ lines) = old_side lines
old_side (unknown v ∷ lines) = old_side lines

abbrev pub new_side : List Line → List Text
new_side [] = []
new_side (context v ∷ lines) = v ∷ new_side lines
new_side (removed v ∷ lines) = new_side lines
new_side (added v ∷ lines) = v ∷ new_side lines
new_side (unknown v ∷ lines) = new_side lines

abbrev pub all_known : List Line → Bool
all_known [] = true
all_known (unknown v ∷ lines) = false
all_known (context v ∷ lines) = all_known lines
all_known (removed v ∷ lines) = all_known lines
all_known (added v ∷ lines) = all_known lines

abbrev pub at : ℕ → List Text → List Text → Cursor
at idx rest out = record { idx = idx; rest = rest; out = out }

-- A hunk whose old side stands at the cursor is replaced by its new side.
pub apply_lines-match :
    (lines : List Line) (idx : ℕ) (rest out : List Text)
    → all_known lines ≡ true
    → apply_lines lines (at idx (old_side lines ++ rest) out)
      ≡ ok (at (idx + length (old_side lines)) rest (out ++ new_side lines))
unfolding apply_lines
apply_lines-match [] idx rest out k = ground (arith, append-nil out)
apply_lines-match (context v ∷ lines) idx rest out k = ground (
  arith,
  text_eq_refl v,
  append_assoc out (v ∷ []) (new_side lines),
  apply_lines-match lines (idx + 1) rest (out ++ (v ∷ [])),
)
apply_lines-match (removed v ∷ lines) idx rest out k =
    ground (arith, text_eq_refl v, apply_lines-match lines (idx + 1) rest out)
apply_lines-match (added v ∷ lines) idx rest out k = ground (
  arith,
  append_assoc out (v ∷ []) (new_side lines),
  apply_lines-match lines idx rest (out ++ (v ∷ [])),
)
apply_lines-match (unknown v ∷ lines) idx rest out k = cc

-- What is known of a hunk that was applied.
pub record Applied (lines : List Line) (c c' : Cursor) : Type 0 where
  pub known : all_known lines ≡ true
  pub old : c.rest ≡ old_side lines ++ c'.rest
  pub new : c'.out ≡ c.out ++ new_side lines
  pub moved : c'.idx ≡ c.idx + length (old_side lines)

-- The other way round: only a hunk whose old side stands at the cursor is applied.
pub apply_lines-Applied :
    (lines : List Line) (idx : ℕ) (rest out : List Text) (c' : Cursor)
    → apply_lines lines (at idx rest out) ≡ ok c'
    → Applied lines (at idx rest out) c'
unfolding apply_lines
apply_lines-Applied [] idx rest out c' h = ground (arith, append-nil out)
apply_lines-Applied (context v ∷ lines) idx [] out c' h = absurd (ground arith)
apply_lines-Applied (context v ∷ lines) idx (x ∷ rest) out c' h = ground (
  arith,
  text_eq_iff x v,
  append_assoc out (x ∷ []) (new_side lines),
  apply_lines-Applied lines (idx + 1) rest (out ++ (x ∷ [])) c',
)
apply_lines-Applied (removed v ∷ lines) idx [] out c' h = absurd (ground arith)
apply_lines-Applied (removed v ∷ lines) idx (x ∷ rest) out c' h =
    ground (arith, text_eq_iff x v, apply_lines-Applied lines (idx + 1) rest out c')
apply_lines-Applied (added v ∷ lines) idx rest out c' h = ground (
  arith,
  append_assoc out (v ∷ []) (new_side lines),
  apply_lines-Applied lines idx rest (out ++ (v ∷ [])) c',
)
apply_lines-Applied (unknown v ∷ lines) idx rest out c' h = absurd (ground arith)
