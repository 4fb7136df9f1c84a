-- ===== src/Patches.antt =====
-- backend/app/patches.py: `_apply_file_patch`, which applies the hunks of one file.
pub mod Hunks
pub mod Layout
pub mod Soundness
pub mod Apply
pub mod Atomic
pub mod Written
pub mod Scope
use cgraph.Prelude.{ℕ, suc, ◌+◌, ◌-◌, Bool, true, false, List, [], ◌∷◌, ◌++◌, if◌then◌else◌, ltb}
use cgraph.Text.{Text, text_eq}

pub data PatchApplyError : Type 0 where
  invalid_diff outside_root invalid_path outside_scope not_a_file new_file_refused : PatchApplyError
  context_mismatch removal_mismatch unknown_line : PatchApplyError
  syntax_error write_failed remove_failed : PatchApplyError
  -- an `OSError` where a folder or the temporary file is made, which no handler of the module catches
  make_failed : PatchApplyError
  -- an `OSError` of a reading, which none catches either
  os_error : PatchApplyError

pub data Outcome {ℓ} (A : Type ℓ) : Type ℓ where
  ok : A → Outcome A
  raise : PatchApplyError → Outcome A

module _ {ℓ κ} {A : Type ℓ} {B : Type κ} where
  infixl 10 ◌>>=◌
  abbrev pub ◌>>=◌ : Outcome A → (A → Outcome B) → Outcome B
  ◌>>=◌ (raise error) rest = raise error
  ◌>>=◌ (ok value) rest = rest value

-- A line of a hunk of `unidiff`, by its type, with its value.
pub data Line : Type 0 where
  context removed added unknown : Text → Line

pub record Hunk : Type 0 where
  pub source_start : ℕ
  pub lines : List Line

-- The loop's variables: `idx`, the rest `original[idx:]`, and `out`.
pub record Cursor : Type 0 where
  pub idx : ℕ
  pub rest : List Text
  pub out : List Text

abbrev pub copied : ℕ → Text → List Text → List Text → Cursor
copied idx line rest out = record { idx = idx + 1; rest = rest; out = out ++ (line ∷ []) }

-- `while idx < target_start and idx < len(original)`
unfoldable pub copy_until : ℕ → ℕ → List Text → List Text → Cursor
copy_until target_start idx [] out = record { idx = idx; rest = []; out = out }
copy_until target_start idx (line ∷ rest) out =
    let copying = copy_until target_start (idx + 1) rest (out ++ (line ∷ [])) in
    if ltb idx target_start then copying else record { idx = idx; rest = line ∷ rest; out = out }

-- the test of a context or removed line against `original[idx]`
unfoldable pub same_line : Text → List Text → Bool
same_line value [] = false
same_line value (line ∷ rest) = text_eq line value

abbrev pub advance : Bool → Cursor → Cursor
advance keeps c = elim c.rest [
  | [] ↦ c
  | line ∷ rest ↦ record {
    idx = c.idx + 1;
    rest = rest;
    out = if keeps then c.out ++ (line ∷ []) else c.out;
  }
]

-- one turn of the loop over the lines of a hunk
unfoldable pub apply_line : Line → Cursor → Outcome Cursor
unfolding same_line
apply_line (context value) c =
    if same_line value c.rest then ok (advance true c) else raise context_mismatch
apply_line (removed value) c =
    if same_line value c.rest then ok (advance false c) else raise removal_mismatch
apply_line (added value) c = ok (record c { out = c.out ++ (value ∷ []) })
apply_line (unknown value) c = raise unknown_line

unfoldable pub apply_lines : List Line → Cursor → Outcome Cursor
unfolding apply_line
apply_lines [] c = ok c
apply_lines (line ∷ lines) c = apply_line line c >>= apply_lines lines

-- `max(0, (hunk.source_start or 1) - 1)`, where `-` stops at 0 as `max` does
abbrev pub target_of : Hunk → ℕ
target_of h = h.source_start - 1

unfoldable pub apply_hunks : List Hunk → Cursor → Outcome Cursor
unfolding apply_lines copy_until
apply_hunks [] c = ok c
apply_hunks (h ∷ hunks) c =
    apply_lines h.lines (copy_until (target_of h) c.idx c.rest c.out) >>= apply_hunks hunks

-- `_apply_file_patch`
unfoldable pub apply_file_patch : List Text → List Hunk → Outcome (List Text)
unfolding apply_hunks
apply_file_patch original hunks =
    apply_hunks hunks (record { idx = 0; rest = original; out = [] }) >>= λ c. ok (c.out ++ c.rest)
