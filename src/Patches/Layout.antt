-- ===== src/Patches/Layout.antt =====
-- Whole patches against a description of what a unified diff means (backend/app/patches.py).
use mathlib.Core.List.{append_assoc, append-nil}
use cgraph.Prelude.{ℕ, ◌+◌, ◌≡◌, ◌≢◌, refl, true, List, [], ◌∷◌, ◌++◌, length, arith}
use cgraph.Text.{Text}
use cgraph.Patches.{ok, Line, Hunk, copy_until, apply_hunks, apply_file_patch}
use cgraph.Patches.Hunks.{old_side, new_side, all_known, at, apply_lines-match}

-- A stretch of lines that stays, and the hunk behind it.
pub record Piece : Type 0 where
  pub gap : List Text
  pub lines : List Line

-- the file before and after, the pieces being followed by `tail`
abbrev pub old_text : List Piece → List Text → List Text
old_text [] tail = tail
old_text (p ∷ ps) tail = p.gap ++ (old_side p.lines ++ old_text ps tail)

abbrev pub new_text : List Piece → List Text → List Text
new_text [] tail = tail
new_text (p ∷ ps) tail = p.gap ++ (new_side p.lines ++ new_text ps tail)

-- The start of a hunk in the header of a unified diff, behind `before` lines: the number of its
-- first old line, or of the line before it where the old side is empty.
abbrev pub header_start : ℕ → List Text → ℕ
header_start before [] = before
header_start before (line ∷ lines) = before + 1

abbrev pub hunks_of : ℕ → List Piece → List Hunk
hunks_of before [] = []
hunks_of before (p ∷ ps) =
    record {
      source_start = header_start (before + length p.gap) (old_side p.lines);
      lines = p.lines;
    }
    ∷ hunks_of (before + length p.gap + length (old_side p.lines)) ps

-- hunks whose lines `unidiff` knows and that have an old line, which any line of context is
abbrev pub AreAnchored : List Piece → Type 0
AreAnchored [] = Unit
AreAnchored (p ∷ ps) = (all_known p.lines ≡ true) × (old_side p.lines ≢ []) × AreAnchored ps

pub copy_until-gap :
    (gap : List Text) (target idx : ℕ) (rest out : List Text)
    → target ≡ idx + length gap
    → copy_until target idx (gap ++ rest) out ≡ at target rest (out ++ gap)
unfolding copy_until
copy_until-gap [] target idx [] out e = ground (arith, append-nil out)
copy_until-gap [] target idx (x ∷ rest) out e = ground (arith, append-nil out)
copy_until-gap (x ∷ gap) target idx rest out e = ground (
  arith,
  append_assoc out (x ∷ []) gap,
  copy_until-gap gap target (idx + 1) rest (out ++ (x ∷ [])),
)

header_start-anchored :
    (before : ℕ) (lines : List Text) → lines ≢ [] → header_start before lines ≡ before + 1
header_start-anchored before [] h = absurd (h refl)
header_start-anchored before (x ∷ lines) h = refl

pub new_text-append :
    (ps : List Piece) (tail : List Text) → new_text ps [] ++ tail ≡ new_text ps tail
new_text-append [] tail = refl
new_text-append (p ∷ ps) tail = ground (
  arith,
  append_assoc p.gap (new_side p.lines ++ new_text ps []) tail,
  append_assoc (new_side p.lines) (new_text ps []) tail,
  new_text-append ps tail,
)

apply_hunks-pieces :
    (ps : List Piece) (tail : List Text) (idx : ℕ) (out : List Text)
    → AreAnchored ps
    → (end : ℕ) × (apply_hunks (hunks_of idx ps) (at idx (old_text ps tail) out)
        ≡ ok (at end tail (out ++ new_text ps [])))
unfolding apply_hunks
apply_hunks-pieces [] tail idx out h = (idx, ground (arith, append-nil out))
apply_hunks-pieces (p ∷ ps) tail idx out h =
    let here = idx + length p.gap in
    let rest = old_text ps tail in
    let (end, later) =
      apply_hunks-pieces ps tail (here + length (old_side p.lines))
        ((out ++ p.gap) ++ new_side p.lines) h.2 in
    (
      end,
      ground (
        arith,
        header_start-anchored here (old_side p.lines) h.1,
        copy_until-gap p.gap here idx (old_side p.lines ++ rest) out refl,
        apply_lines-match p.lines here rest (out ++ p.gap) h.0,
        append_assoc out p.gap (new_side p.lines ++ new_text ps []),
        append_assoc (out ++ p.gap) (new_side p.lines) (new_text ps []),
      ),
    )

-- Applied to the old side of a unified diff whose hunks have an old line each and no lines but context,
-- removed and added ones, so that no `\ No newline at end of file` is in it, the patch gives its new side: every stretch between the hunks is kept, and every hunk's old side replaced by its new.
pub apply_file_patch-layout :
    (ps : List Piece) (tail : List Text)
    → AreAnchored ps
    → apply_file_patch (old_text ps tail) (hunks_of 0 ps) ≡ ok (new_text ps tail)
unfolding apply_file_patch
apply_file_patch-layout ps tail h =
    let (end, applied) = apply_hunks-pieces ps tail 0 [] h in
    ground (arith, new_text-append ps tail)
