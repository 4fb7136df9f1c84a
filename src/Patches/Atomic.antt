-- ===== src/Patches/Atomic.antt =====
-- What `apply_unified_diff` leaves on the disk (backend/app/patches.py).
use cgraph.Prelude.{◌≡◌, ◌⊎◌, inl, inr, refl, Bool, true, false, not, List, [], ◌∷◌, arith}
use cgraph.Prelude.Rows.{select}
use cgraph.Text.{Text}
use cgraph.Text.Chunks.{concat}
use cgraph.Patches.{PatchApplyError, make_failed, write_failed, remove_failed, Outcome, ok, raise}
use cgraph.Patches.Apply.{
  PatchedFile, File, Env, is_file, Change, plan, new_contents, to_remove, check_syntax, put,
  write_all, remove_all, then_remove, apply_unified_diff, commit,
}

-- an error of the loops that write or remove
abbrev pub is_late : PatchApplyError → Bool
is_late make_failed = true
is_late write_failed = true
is_late remove_failed = true
is_late _ = false

write_all_late :
    (env : Env) (news : List (Text × List Text)) (files files' : List File) (e : PatchApplyError)
    → write_all env news files ≡ (raise e, files')
    → is_late e ≡ true
unfolding write_all
write_all_late env [] files files' e h = absurd (ground arith)
write_all_late env ((rel, lines) ∷ news) files files' e h =
    ground (arith, write_all_late env news (put rel (concat lines) files) files' e)

remove_late :
    (env : Env) (rels : List Text) (files files' : List File) (e : PatchApplyError)
    → remove_all env rels files ≡ (raise e, files')
    → is_late e ≡ true
unfolding remove_all
remove_late env [] files files' e h = absurd (ground arith)
remove_late env (rel ∷ rels) files files' e h =
    ground (arith, remove_late env rels (select (λ f. not (is_file rel f)) files) files' e)

pub Outcome-cases {ℓ} :
    {A : Type ℓ} (o : Outcome A) → ((v : A) × (o ≡ ok v)) ⊎ ((e : PatchApplyError) × (o ≡ raise e))
Outcome-cases (ok v) = inl (v, refl)
Outcome-cases (raise e) = inr (e, refl)

then_remove_late :
    (env : Env) (cs : List Change) (news : List (Text × List Text)) (files files' : List File)
    (e : PatchApplyError) (w : Outcome (Unit {0}) × List File)
    → write_all env news files ≡ w
    → then_remove env cs w ≡ (raise e, files')
    → is_late e ≡ true
then_remove_late env cs news files files' e (raise x, mid) w h =
    ground (arith, write_all_late env news files mid x)
then_remove_late env cs news files files' e (ok _, mid) w h =
    ground (arith, remove_late env (to_remove cs) mid files' e)

-- after the first loop
commit-atomic :
    (env : Env) (cs : List Change) (files files' : List File) (e : PatchApplyError)
    → commit env cs files ≡ (raise e, files')
    → is_late e ≡ false
    → files' ≡ files
unfolding commit
commit-atomic env cs files files' e h early =
    elim (Outcome-cases (check_syntax env (new_contents [] cs))) [
      | inl (_, c) ↦ ground (
        arith,
        then_remove_late env cs (new_contents [] cs) files files' e
            (write_all env (new_contents [] cs) files) refl,
      )
      | inr (x, c) ↦ ground arith
    ]

-- A patch refused for any reason but a failure to write a file, to make the folder or the temporary file for
-- that, or to remove a file has changed no file.
pub apply_unified_diff-atomic :
    (env : Env) (patch : List PatchedFile) (files files' : List File) (e : PatchApplyError)
    → apply_unified_diff env patch files ≡ (raise e, files')
    → is_late e ≡ false
    → files' ≡ files
unfolding apply_unified_diff
apply_unified_diff-atomic env patch files files' e h early =
    elim (Outcome-cases (plan env files patch)) [
      | inl (cs, p) ↦ ground (arith, commit-atomic env cs files files' e)
      | inr (x, p) ↦ ground arith
    ]
