-- ===== src/Patches/Written.antt =====
-- What an accepted patch leaves in each file (backend/app/patches.py).
use cgraph.Prelude.{
  ◌≡◌, inl, inr, refl, Bool, true, false, not, ◌&&◌, ◌||◌, Option, none, some, List, [], ◌∷◌, map,
  if◌then◌else◌, arith, Bool-cases,
}
use cgraph.Prelude.Rows.{select}
use cgraph.Text.{Text, text_eq}
use cgraph.Text.Strip.{text_eq_iff, text_eq_swap}
use cgraph.Text.Chunks.{concat}
use cgraph.Patches.{Outcome, ok, raise}
use cgraph.Patches.Apply.{
  PatchedFile, File, Env, has, is_file, content_of, Change, write, remove, path_of, plan, set,
  new_contents, to_remove, check_syntax, put, write_all, remove_all, then_remove, commit,
  apply_unified_diff,
}
use cgraph.Patches.Atomic.{Outcome-cases}

pub content-without :
    (q p : Text) (files : List File)
    → content_of q (select (λ f. not (is_file p f)) files)
      ≡ (if text_eq q p then none else content_of q files)
content-without q p [] = ground arith
content-without q p (f ∷ files) = elim (Bool-cases (text_eq p f.path)) [
  | inl same ↦
      let e : p ≡ f.path = (text_eq_iff p f.path).0 same in
      ground (arith, e, content-without q p files)
  | inr differs ↦ elim (Bool-cases (text_eq q p)) [
    | inl here ↦
        let e : q ≡ p = (text_eq_iff q p).0 here in ground (arith, e, content-without q p files)
    | inr away ↦ ground (arith, content-without q p files)
  ]
]

pub content-put :
    (q p text : Text) (files : List File)
    → content_of q (put p text files) ≡ (if text_eq q p then some text else content_of q files)
content-put q p text files = ground (arith, content-without q p files)

-- what writings in this order leave of a file
abbrev written : Text → List (Text × List Text) → Option Text → Option Text
written q [] old = old
written q ((rel, lines) ∷ rest) old =
    written q rest (if text_eq q rel then some (concat lines) else old)

write_all-written :
    (env : Env) (q : Text) (news : List (Text × List Text)) (files files' : List File)
    → write_all env news files ≡ (ok tt, files')
    → content_of q files' ≡ written q news (content_of q files)
unfolding write_all
write_all-written env q [] files files' h = ground arith
write_all-written env q ((rel, lines) ∷ news) files files' h = ground (
  arith,
  content-put q rel (concat lines) files,
  write_all-written env q news (put rel (concat lines) files) files',
)

remove_all-content :
    (env : Env) (q : Text) (rels : List Text) (files files' : List File)
    → remove_all env rels files ≡ (ok tt, files')
    → content_of q files' ≡ (if has q rels then none else content_of q files)
unfolding remove_all
remove_all-content env q [] files files' h = ground arith
remove_all-content env q (rel ∷ rels) files files' h = ground (
  arith,
  content-without q rel files,
  remove_all-content env q rels (select (λ f. not (is_file rel f)) files) files',
)

abbrev pub has_key : Text → List (Text × List Text) → Bool
has_key k [] = false
has_key k ((p, lines) ∷ d) = text_eq k p || has_key k d

abbrev is_dict : List (Text × List Text) → Bool
is_dict [] = true
is_dict ((p, lines) ∷ d) = not (has_key p d) && is_dict d

pub has_key-set :
    (k p : Text) (lines : List Text) (d : List (Text × List Text))
    → has_key k (set p lines d) ≡ (text_eq k p || has_key k d)
unfolding set
has_key-set k p lines [] = ground arith
has_key-set k p lines ((q, old) ∷ d) = elim (Bool-cases (text_eq p q)) [
  | inl same ↦ let e : p ≡ q = (text_eq_iff p q).0 same in ground (arith, e)
  | inr differs ↦ ground (arith, has_key-set k p lines d)
]

is_dict-set :
    (p : Text) (lines : List Text) (d : List (Text × List Text))
    → is_dict d ≡ true
    → is_dict (set p lines d) ≡ true
unfolding set
is_dict-set p lines [] h = refl
is_dict-set p lines ((q, old) ∷ d) h = elim (Bool-cases (text_eq p q)) [
  | inl same ↦ ground arith
  | inr differs ↦
      ground (arith, has_key-set q p lines d, text_eq_swap p q differs, is_dict-set p lines d)
]

written-absent :
    (q : Text) (d : List (Text × List Text)) (old : Option Text)
    → has_key q d ≡ false
    → written q d old ≡ old
written-absent q [] old h = refl
written-absent q ((p, lines) ∷ d) old h = ground (arith, written-absent q d old)

written-set :
    (q p : Text) (lines : List Text) (d : List (Text × List Text)) (old : Option Text)
    → is_dict d ≡ true
    → written q (set p lines d) old ≡ (if text_eq q p then some (concat lines) else written q d old)
unfolding set
written-set q p lines [] old h = refl
written-set q p lines ((k, before) ∷ d) old h = elim (Bool-cases (text_eq p k)) [
  | inl same ↦
      let e : p ≡ k = (text_eq_iff p k).0 same in
      elim (Bool-cases (text_eq q k)) [
        | inl here ↦
            let e' : q ≡ k = (text_eq_iff q k).0 here in
            ground (arith, e, e', written-absent q d (some (concat lines)))
        | inr away ↦ ground (arith, e)
      ]
  | inr differs ↦
      ground (arith, written-set q p lines d (if text_eq q k then some (concat before) else old))
]

-- what the last change that writes a file puts into it
abbrev pub last_written : Text → List Change → Option Text → Option Text
last_written q [] old = old
last_written q (write rel lines ∷ cs) old =
    last_written q cs (if text_eq q rel then some (concat lines) else old)
last_written q (remove rel ∷ cs) old = last_written q cs old

new_contents-last_written :
    (q : Text) (cs : List Change) (d : List (Text × List Text)) (old : Option Text)
    → is_dict d ≡ true
    → written q (new_contents d cs) old ≡ last_written q cs (written q d old)
unfolding new_contents
new_contents-last_written q [] d old h = refl
new_contents-last_written q (write rel lines ∷ cs) d old h = ground (
  arith,
  written-set q rel lines d old h,
  is_dict-set rel lines d h,
  new_contents-last_written q cs (set rel lines d) old (is_dict-set rel lines d h),
)
new_contents-last_written q (remove rel ∷ cs) d old h = new_contents-last_written q cs d old h

-- What an accepted patch leaves of a file: nothing if a section removes it, and otherwise what the last
-- section that changes it gives.
abbrev pub left_by : Text → List Change → Option Text → Option Text
left_by q cs old = if has q (to_remove cs) then none else last_written q cs old

then_remove-left_by :
    (env : Env) (q : Text) (cs : List Change) (files files' : List File)
    (w : Outcome (Unit {0}) × List File)
    → write_all env (new_contents [] cs) files ≡ w
    → then_remove env cs w ≡ (ok tt, files')
    → content_of q files' ≡ left_by q cs (content_of q files)
then_remove-left_by env q cs files files' (raise x, mid) w h = absurd (ground arith)
then_remove-left_by env q cs files files' (ok _, mid) w h = ground (
  arith,
  write_all-written env q (new_contents [] cs) files mid,
  remove_all-content env q (to_remove cs) mid files',
  new_contents-last_written q cs [] (content_of q files) refl,
)

commit-left_by :
    (env : Env) (q : Text) (cs : List Change) (files files' : List File) (modified : List Text)
    → commit env cs files ≡ (ok modified, files')
    → (modified ≡ map path_of cs) × (content_of q files' ≡ left_by q cs (content_of q files))
unfolding commit
commit-left_by env q cs files files' modified h =
    elim (Outcome-cases (check_syntax env (new_contents [] cs))) [
      | inl (_, c) ↦ ground (
        arith,
        then_remove-left_by env q cs files files' (write_all env (new_contents [] cs) files) refl,
      )
      | inr (x, c) ↦ absurd (ground arith)
    ]

-- An accepted patch has a change for each of its sections, planned on the files as they were; it returns
-- their paths, and leaves of every file nothing if a section removes it, and otherwise what the last
-- section that changes it gives, or what was there.
pub apply_unified_diff-left_by :
    (env : Env) (patch : List PatchedFile) (files files' : List File) (modified : List Text)
    → apply_unified_diff env patch files ≡ (ok modified, files')
    → (cs : List Change) × (plan env files patch ≡ ok cs)
      × ((q : Text)
          → (modified ≡ map path_of cs) × (content_of q files' ≡ left_by q cs (content_of q files)))
unfolding apply_unified_diff
apply_unified_diff-left_by env patch files files' modified h =
    elim (Outcome-cases (plan env files patch)) [
      | inl (cs, p) ↦ (cs, p, λ q. commit-left_by env q cs files files' modified (ground arith))
      | inr (x, p) ↦ absurd (ground arith)
    ]
