-- ===== src/Patches/Apply.antt =====
-- `apply_unified_diff` of backend/app/patches.py, on the files that `unidiff` reads from a diff.
-- Directories that are made on the way are left out.
use cgraph.Prelude.{
  Bool, true, false, not, ◌&&◌, ◌||◌, Option, none, some, List, [], ◌∷◌, if◌then◌else◌, drop, map,
}
use cgraph.Prelude.Rows.{select, first, any}
use cgraph.Text.{Text, codes, text_eq, starts_with}
use cgraph.Text.Chunks.{concat}
use cgraph.Patches.{
  PatchApplyError, outside_root, invalid_path, outside_scope, not_a_file, new_file_refused,
  syntax_error, make_failed, write_failed, remove_failed, os_error, Outcome, ok, raise, ◌>>=◌, Hunk,
  apply_file_patch,
}

-- a path of the diff, resolved under the project's root
pub data Target : Type 0 where
  outside root : Target
  under : Text → Target

-- a file of the diff
pub record PatchedFile : Type 0 where
  pub path : Text
  pub is_removed_file : Bool
  pub hunks : List Hunk

-- a regular file below the root, by its normalised path
pub record File : Type 0 where
  pub path : Text
  pub content : Text

-- The parameters of the call; what `pathlib`, `splitlines` and `ast.parse` answer; and where the system
-- fails to read, to make a folder or a temporary file, to write or to remove.
pub record Env : Type 0 where
  pub allowed_rel_paths : Option (List Text)
  pub allow_new_files : Bool
  pub resolve : Text → Target
  pub is_other : Text → Bool
  pub splitlines : Text → List Text
  pub is_python : Text → Bool
  pub parses : Text → Bool
  pub read_fails : Text → Bool
  pub make_fails : Text → Bool
  pub write_fails : Text → Bool
  pub remove_fails : Text → Bool

abbrev pub has : Text → List Text → Bool
has p ps = any (text_eq p) ps

abbrev pub is_file : Text → File → Bool
is_file p f = text_eq p f.path

abbrev pub content_of : Text → List File → Option Text
content_of p files = elim (first (is_file p) files) [ none ↦ none | some f ↦ some f.content ]

-- what is to be done to one file: an entry of `new_contents`, or of `to_remove`
pub data Change : Type 0 where
  write : Text → List Text → Change
  remove : Text → Change

-- the path without `a/` or `b/`
unfoldable pub strip_prefix : Text → Text
unfolding starts_with
strip_prefix p = if starts_with (codes "a/") p || starts_with (codes "b/") p then drop 2 p else p

unfoldable pub resolve_target : Env → Text → Outcome Text
unfolding strip_prefix
resolve_target env p = elim (env.resolve (strip_prefix p)) [
  | outside ↦ raise outside_root
  | root ↦ raise invalid_path
  | under rel ↦ ok rel
]

abbrev pub in_scope : Option (List Text) → Text → Bool
in_scope none rel = true
in_scope (some allowed) rel = has rel allowed

abbrev pub check : Bool → PatchApplyError → Outcome (Unit {0})
check true e = raise e
check false e = ok tt

-- the lines of the file as it is
unfoldable pub original_lines : Env → Text → List File → Outcome (List Text)
original_lines env rel files = elim (content_of rel files) [
  | none ↦ if env.allow_new_files then ok [] else raise new_file_refused
  | some text ↦ if env.read_fails rel then raise os_error else ok (env.splitlines text)
]

-- what follows the checks of the path
unfoldable pub plan_change : Env → List File → PatchedFile → Text → Outcome Change
plan_change env files f rel =
    if f.is_removed_file
    then ok (remove rel)
    else original_lines env rel files
      >>= (λ lines. apply_file_patch lines f.hunks >>= (λ new. ok (write rel new)))

-- one turn of the first loop
unfoldable pub plan_file : Env → List File → PatchedFile → Outcome Change
plan_file env files f = do
  rel ← resolve_target env f.path
  scope ← check (not (in_scope env.allowed_rel_paths rel)) outside_scope
  other ← check (env.is_other rel) not_a_file
  plan_change env files f rel

-- the first loop; each file is read as it is on the disk
unfoldable pub plan : Env → List File → List PatchedFile → Outcome (List Change)
plan env files [] = ok []
plan env files (f ∷ fs) = plan_file env files f >>= λ c. plan env files fs >>= λ cs. ok (c ∷ cs)

abbrev pub path_of : Change → Text
path_of (write rel lines) = rel
path_of (remove rel) = rel

-- an assignment to a key of a `dict`: a new key goes last, an old one keeps its place
unfoldable pub set : Text → List Text → List (Text × List Text) → List (Text × List Text)
set p lines [] = (p, lines) ∷ []
set p lines ((q, old) ∷ rest) =
    let later = set p lines rest in if text_eq p q then (q, lines) ∷ rest else (q, old) ∷ later

-- `new_contents`, started with the entries in `dict`
unfoldable pub new_contents : List (Text × List Text) → List Change → List (Text × List Text)
new_contents dict [] = dict
new_contents dict (write rel lines ∷ cs) = new_contents (set rel lines dict) cs
new_contents dict (remove rel ∷ cs) = new_contents dict cs

unfoldable pub to_remove : List Change → List Text
to_remove [] = []
to_remove (write rel lines ∷ cs) = to_remove cs
to_remove (remove rel ∷ cs) = rel ∷ to_remove cs

-- the second loop
unfoldable pub check_syntax : Env → List (Text × List Text) → Outcome (Unit {0})
check_syntax env [] = ok tt
check_syntax env ((rel, lines) ∷ rest) =
    let later = check_syntax env rest in
    if env.is_python rel && not (env.parses (concat lines)) then raise syntax_error else later

abbrev pub put : Text → Text → List File → List File
put p text files = record { path = p; content = text } ∷ select (λ f. not (is_file p f)) files

-- the third loop: a file is replaced at once, and the files before a failure stay written
unfoldable pub write_all :
    Env → List (Text × List Text) → List File → Outcome (Unit {0}) × List File
write_all env [] files = (ok tt, files)
write_all env ((rel, lines) ∷ rest) files =
    let later = write_all env rest (put rel (concat lines) files) in
    if env.make_fails rel
    then (raise make_failed, files)
    else if env.write_fails rel
    then (raise write_failed, files)
    else later

-- the last loop
unfoldable pub remove_all : Env → List Text → List File → Outcome (Unit {0}) × List File
remove_all env [] files = (ok tt, files)
remove_all env (rel ∷ rest) files =
    let later = remove_all env rest (select (λ f. not (is_file rel f)) files) in
    if any (is_file rel) files && env.remove_fails rel then (raise remove_failed, files) else later

abbrev pub then_remove :
    Env → List Change → Outcome (Unit {0}) × List File → Outcome (Unit {0}) × List File
then_remove env cs (raise e, files) = (raise e, files)
then_remove env cs (ok _, files) = remove_all env (to_remove cs) files

-- what follows the first loop
unfoldable pub commit : Env → List Change → List File → Outcome (List Text) × List File
commit env cs files = elim (check_syntax env (new_contents [] cs)) [
  | raise e ↦ (raise e, files)
  | ok _ ↦
      let (done, files') = then_remove env cs (write_all env (new_contents [] cs) files) in
      (done >>= λ _. ok (map path_of cs), files')
]

-- `apply_unified_diff`, which returns the paths that it has changed
unfoldable pub apply_unified_diff :
    Env → List PatchedFile → List File → Outcome (List Text) × List File
apply_unified_diff env patch files = elim (plan env files patch) [
  | raise e ↦ (raise e, files)
  | ok cs ↦ commit env cs files
]
