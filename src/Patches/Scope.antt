-- ===== src/Patches/Scope.antt =====
-- A patch stays in its scope (backend/app/patches.py).
use cgraph.Prelude.{
  ◌≡◌, inl, inr, refl, subst, true, false, not, some, List, [], ◌∷◌, map, arith, Bool-cases,
}
use cgraph.Prelude.Rows.{select}
use cgraph.Text.{Text, text_eq}
use cgraph.Text.Strip.{text_eq_iff}
use cgraph.Text.Chunks.{concat}
use cgraph.Patches.{Outcome, ok, raise}
use cgraph.Patches.Apply.{
  PatchedFile, File, Env, has, is_file, content_of, Change, write, remove, path_of, plan_change,
  plan_file, plan, set, new_contents, to_remove, check_syntax, put, write_all, remove_all,
  then_remove, commit, apply_unified_diff, resolve_target, in_scope,
}
use cgraph.Patches.Atomic.{Outcome-cases}
use cgraph.Patches.Written.{content-without, content-put, has_key, has_key-set}

write_all-others :
    (env : Env) (q : Text) (news : List (Text × List Text)) (files : List File)
    → has_key q news ≡ false
    → content_of q (write_all env news files).1 ≡ content_of q files
unfolding write_all
write_all-others env q [] files h = refl
write_all-others env q ((rel, lines) ∷ news) files h = ground (
  arith,
  content-put q rel (concat lines) files,
  write_all-others env q news (put rel (concat lines) files),
)

remove_all-others :
    (env : Env) (q : Text) (rels : List Text) (files : List File)
    → has q rels ≡ false
    → content_of q (remove_all env rels files).1 ≡ content_of q files
unfolding remove_all
remove_all-others env q [] files h = refl
remove_all-others env q (rel ∷ rels) files h = ground (
  arith,
  content-without q rel files,
  remove_all-others env q rels (select (λ f. not (is_file rel f)) files),
)

new_contents-has_key :
    (q : Text) (cs : List Change) (d : List (Text × List Text))
    → has q (map path_of cs) ≡ false
    → has_key q d ≡ false
    → has_key q (new_contents d cs) ≡ false
unfolding new_contents
new_contents-has_key q [] d h k = k
new_contents-has_key q (write rel lines ∷ cs) d h k =
    new_contents-has_key q cs (set rel lines d) (ground arith)
      (ground (arith, has_key-set q rel lines d))
new_contents-has_key q (remove rel ∷ cs) d h k = new_contents-has_key q cs d (ground arith) k

to_remove-others :
    (q : Text) (cs : List Change) → has q (map path_of cs) ≡ false → has q (to_remove cs) ≡ false
unfolding to_remove
to_remove-others q [] h = refl
to_remove-others q (write rel lines ∷ cs) h = ground (arith, to_remove-others q cs)
to_remove-others q (remove rel ∷ cs) h = ground (arith, to_remove-others q cs)

then_remove-others :
    (env : Env) (q : Text) (cs : List Change) (w : Outcome (Unit {0}) × List File)
    → has q (to_remove cs) ≡ false
    → content_of q (then_remove env cs w).1 ≡ content_of q w.1
then_remove-others env q cs (raise e, files) h = refl
then_remove-others env q cs (ok _, files) h = remove_all-others env q (to_remove cs) files h

commit-others :
    (env : Env) (q : Text) (cs : List Change) (files : List File)
    → has q (map path_of cs) ≡ false
    → content_of q (commit env cs files).1 ≡ content_of q files
unfolding commit
commit-others env q cs files h =
    let news = new_contents [] cs in
    let wrote = write_all-others env q news files (new_contents-has_key q cs [] h refl) in
    let removed =
      then_remove-others env q cs (write_all env news files) (to_remove-others q cs h) in
    elim (Outcome-cases (check_syntax env news)) [
      | inl (_, c) ↦ ground (arith, c, wrote, removed)
      | inr (x, c) ↦ ground (arith, c)
    ]

plan_change-path :
    (env : Env) (files : List File) (f : PatchedFile) (rel : Text) (c : Change)
    → plan_change env files f rel ≡ ok c
    → path_of c ≡ rel
unfolding plan_change
plan_change-path env files f rel c h = ground arith

plan_file-in_scope :
    (env : Env) (files : List File) (f : PatchedFile) (c : Change)
    → plan_file env files f ≡ ok c
    → in_scope env.allowed_rel_paths (path_of c) ≡ true
unfolding plan_file
plan_file-in_scope env files f c h = elim (Outcome-cases (resolve_target env f.path)) [
  | inr (x, e) ↦ absurd (ground (arith, e))
  | inl (rel, e) ↦ let path = plan_change-path env files f rel c in ground (arith, e, path)
]

plan-others :
    (env : Env) (q : Text) (allowed : List Text) (files : List File) (fs : List PatchedFile)
    (cs : List Change)
    → env.allowed_rel_paths ≡ some allowed
    → has q allowed ≡ false
    → plan env files fs ≡ ok cs
    → has q (map path_of cs) ≡ false
unfolding plan
plan-others env q allowed files [] cs scope out h = ground arith
plan-others env q allowed files (f ∷ fs) cs scope out h =
    elim (Outcome-cases (plan_file env files f)) [
      | inr (x, e) ↦ absurd (ground (arith, e))
      | inl (c, e) ↦ elim (Outcome-cases (plan env files fs)) [
        | inr (x, e') ↦ absurd (ground (arith, e, e'))
        | inl (cs', e') ↦
            let inside : has (path_of c) allowed ≡ true =
              subst (λ a. in_scope a (path_of c) ≡ true) scope
                (plan_file-in_scope env files f c e) in
            let rest = plan-others env q allowed files fs cs' scope out e' in
            let whole : cs ≡ c ∷ cs' = ground (arith, e, e') in
            elim (Bool-cases (text_eq q (path_of c))) [
              | inl same ↦
                  let eq : q ≡ path_of c = (text_eq_iff q (path_of c)).0 same in
                  absurd (ground (arith, subst (λ p. has p allowed ≡ false) eq out, inside))
              | inr other ↦ ground (arith, whole, rest, other)
            ]
      ]
    ]

-- A patch leaves every file outside its scope as it is, also where it is refused or a writing fails.
pub apply_unified_diff-others :
    (env : Env) (q : Text) (allowed : List Text) (patch : List PatchedFile) (files : List File)
    → env.allowed_rel_paths ≡ some allowed
    → has q allowed ≡ false
    → content_of q (apply_unified_diff env patch files).1 ≡ content_of q files
unfolding apply_unified_diff
apply_unified_diff-others env q allowed patch files scope out =
    elim (Outcome-cases (plan env files patch)) [
      | inr (x, e) ↦ ground (arith, e)
      | inl (cs, e) ↦
          let same =
            commit-others env q cs files (plan-others env q allowed files patch cs scope out e) in
          ground (arith, e, same)
    ]
