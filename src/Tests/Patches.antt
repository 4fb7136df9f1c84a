-- ===== src/Tests/Patches.antt =====
-- The theorems on patches at a small file.
use cgraph.Prelude.{◌≡◌, ◌≢◌, refl, true, false, none, List, [], ◌∷◌, map}
use cgraph.Text.{Text, codes}
use cgraph.Patches.{context, removed, added, Hunk, ok, raise, syntax_error, apply_file_patch}
use cgraph.Patches.Layout.{
  Piece, old_text, new_text, hunks_of, AreAnchored, apply_file_patch-layout,
}
use cgraph.Patches.Soundness.{apply_file_patch_sound}
use cgraph.Text.{text_eq, starts_with}
use cgraph.Patches.Apply.{
  PatchedFile, File, Env, under, plan, plan_file, plan_change, resolve_target, strip_prefix,
  original_lines, new_contents, set, to_remove, write_all, remove_all, Change, path_of, content_of,
  check_syntax, commit, apply_unified_diff,
}
use cgraph.Patches.Written.{left_by, apply_unified_diff-left_by}
use cgraph.Patches.Atomic.{apply_unified_diff-atomic}

abbrev edit : List Piece
edit =
    record {
      gap = codes "one" ∷ [];
      lines = context (codes "two") ∷ removed (codes "three") ∷ added (codes "3") ∷ [];
    }
    ∷ record { gap = codes "four" ∷ []; lines = added (codes "4.5") ∷ context (codes "five") ∷ [] }
    ∷ []

two_not_nil : (x : Text) (xs : List Text) → x ∷ xs ≢ []
two_not_nil x xs h = cc

edit-AreAnchored : AreAnchored edit
edit-AreAnchored = (refl, two_not_nil _ _, (refl, two_not_nil _ _, tt))

apply_file_patch-layout_example :
    apply_file_patch (old_text edit (codes "six" ∷ [])) (hunks_of 0 edit)
    ≡ ok (new_text edit (codes "six" ∷ []))
apply_file_patch-layout_example = apply_file_patch-layout edit (codes "six" ∷ []) edit-AreAnchored

abbrev swap : List Hunk
swap = record { source_start = 2; lines = removed (codes "b") ∷ added (codes "B") ∷ [] } ∷ []

swapped : apply_file_patch (codes "a" ∷ codes "b" ∷ []) swap ≡ ok (codes "a" ∷ codes "B" ∷ [])
unfolding apply_file_patch text_eq
swapped = refl

apply_file_patch_sound_example :
    (ps : List Piece) × (tail : List Text) × ((codes "a" ∷ codes "b" ∷ []) ≡ old_text ps tail)
    × ((codes "a" ∷ codes "B" ∷ []) ≡ new_text ps tail)
    × (map (λ p. p.lines) ps ≡ map (λ h. h.lines) swap)
apply_file_patch_sound_example =
    apply_file_patch_sound (codes "a" ∷ codes "b" ∷ []) swap (codes "a" ∷ codes "B" ∷ []) swapped

abbrev disk : List File
disk = record { path = codes "m.py"; content = codes "a" } ∷ []

-- No text parses.
abbrev workspace : Env
workspace = record {
  allowed_rel_paths = none;
  allow_new_files = true;
  resolve = under;
  is_other = λ p. false;
  splitlines = λ text. text ∷ [];
  is_python = λ p. true;
  parses = λ text. false;
  read_fails = λ p. false;
  make_fails = λ p. false;
  write_fails = λ p. false;
  remove_fails = λ p. false;
}

abbrev rewrite : List PatchedFile
rewrite =
    record {
      path = codes "a/m.py";
      is_removed_file = false;
      hunks =
          record { source_start = 1; lines = removed (codes "a") ∷ added (codes "(") ∷ [] } ∷ [];
    }
    ∷ []

rewrite_refused : apply_unified_diff workspace rewrite disk ≡ (raise syntax_error, disk)
unfolding apply_unified_diff commit plan plan_file plan_change resolve_target strip_prefix
    original_lines apply_file_patch new_contents set check_syntax text_eq starts_with
rewrite_refused = refl

apply_unified_diff-atomic_example : disk ≡ disk
apply_unified_diff-atomic_example =
    apply_unified_diff-atomic workspace rewrite disk disk syntax_error rewrite_refused refl

abbrev lenient : Env
lenient = record workspace { parses = λ text. true }

abbrev rewritten : List File
rewritten = record { path = codes "m.py"; content = codes "(" } ∷ []

rewrite_accepted : apply_unified_diff lenient rewrite disk ≡ (ok (codes "m.py" ∷ []), rewritten)
unfolding apply_unified_diff commit plan plan_file plan_change resolve_target strip_prefix
    original_lines apply_file_patch new_contents set to_remove check_syntax write_all remove_all
    text_eq starts_with
rewrite_accepted = refl

apply_unified_diff-left_by_example :
    (cs : List Change) × (plan lenient disk rewrite ≡ ok cs)
    × ((q : Text)
        → ((codes "m.py" ∷ []) ≡ map path_of cs)
          × (content_of q rewritten ≡ left_by q cs (content_of q disk)))
apply_unified_diff-left_by_example =
    apply_unified_diff-left_by lenient rewrite disk rewritten (codes "m.py" ∷ []) rewrite_accepted
