-- ===== src/Snapshots/Limits.antt =====
-- What an extraction may write (backend/app/snapshots.py).
use cgraph.Prelude.{
  length-append, ℕ, ◌+◌, ◌≤◌, ◌≡◌, inl, inr, refl, Bool, true, ◌&&◌, List, [], ◌∷◌, ◌++◌, min,
  length, leb, arith, Bool-cases, Option-cases,
}
use cgraph.Errors.{ok, Result-cases}
use cgraph.Snapshots.{
  Member, Env, assert_safe_path, validate_limits, check_members, write_member, extract_each,
  extract_all, files_of, extract_zip, extract_tar,
}

abbrev pub total : List Member → ℕ
total [] = 0
total (m ∷ ms) = m.size + total ms

-- Is every file within the limit of a file, and below the folder?
abbrev pub all_allowed : Env → List Member → Bool
all_allowed env [] = true
all_allowed env (m ∷ ms) =
    (leb m.size env.max_file_bytes && env.is_inside m.name) && all_allowed env ms

-- within all limits
abbrev pub Limited : Env → List Member → Type 0
Limited env files =
    (length files ≤ env.max_files)
    × (total files ≤ env.max_unpacked_bytes)
    × (all_allowed env files ≡ true)

check_members-limits :
    (env : Env) (count sum : ℕ) (ms : List Member)
    → check_members env count sum ms ≡ ok tt
    → count ≤ env.max_files
    → sum ≤ env.max_unpacked_bytes
    → (count + length (files_of ms) ≤ env.max_files)
      × (sum + total (files_of ms) ≤ env.max_unpacked_bytes)
      × (all_allowed env (files_of ms) ≡ true)
unfolding check_members validate_limits assert_safe_path
check_members-limits env count sum [] h c s = ground arith
check_members-limits env count sum (m ∷ ms) h c s = elim (Bool-cases m.is_file) [
  | inl regular ↦ ground (arith, check_members-limits env (count + 1) (sum + m.size) ms)
  | inr other ↦ ground (arith, check_members-limits env count sum ms)
]

extract_each-extract_all :
    (env : Env) (ms files : List Member)
    → all_allowed env (files_of ms) ≡ true
    → extract_each env ms files ≡ extract_all env (files_of ms) files
unfolding extract_each extract_all assert_safe_path write_member
extract_each-extract_all env [] files h = refl
extract_each-extract_all env (m ∷ ms) files h = elim (Bool-cases m.is_file) [
  | inl regular ↦ ground (arith, extract_each-extract_all env ms (files ++ (m ∷ [])))
  | inr other ↦ ground (arith, extract_each-extract_all env ms files)
]

total-append : (xs : List Member) (m : Member) → total (xs ++ (m ∷ [])) ≡ total xs + m.size
total-append [] m = ground arith
total-append (x ∷ xs) m = ground (arith, total-append xs m)

all_allowed-append :
    (env : Env) (xs : List Member) (m : Member)
    → all_allowed env (xs ++ (m ∷ []))
      ≡ (all_allowed env xs && (leb m.size env.max_file_bytes && env.is_inside m.name))
all_allowed-append env [] m = ground arith
all_allowed-append env (x ∷ xs) m = ground (arith, all_allowed-append env xs m)

part-le : (n size : ℕ) → min n size ≤ size
part-le n size = ground arith

extract_all-limits :
    (env : Env) (ms files : List Member)
    → all_allowed env ms ≡ true
    → all_allowed env files ≡ true
    → (length (extract_all env ms files).1 ≤ length files + length ms)
      × (total (extract_all env ms files).1 ≤ total files + total ms)
      × (all_allowed env (extract_all env ms files).1 ≡ true)
unfolding extract_all write_member
extract_all-limits env [] files h a = ground arith
extract_all-limits env (m ∷ ms) files h a = elim (Option-cases (env.write_fails m.name)) [
  | inl works ↦ ground (
    arith,
    length-append files (m ∷ []),
    total-append files m,
    all_allowed-append env files m,
    extract_all-limits env ms (files ++ (m ∷ [])),
  )
  | inr (n, fails) ↦
      let half : Member = record m { size = min n m.size } in
      ground (
        arith,
        part-le n m.size,
        length-append files (half ∷ []),
        total-append files half,
        all_allowed-append env files half,
      )
]

-- A zip and a tar with the same members, written at the same paths, leave the same files in an empty
-- folder, with the same result; and these are within the limits on the number of files, on their bytes and on the bytes of one, and
-- below the folder, whether the extraction ends, is refused or fails at some file.
pub extract_zip-Limited :
    (env : Env) (ms : List Member)
    → (extract_zip env ms [] ≡ extract_tar env ms []) × Limited env (extract_zip env ms []).1
unfolding extract_zip extract_tar
extract_zip-Limited env ms = elim (Result-cases (check_members env 0 0 ms)) [
  | inl (_, passed) ↦ ground (
    arith,
    check_members-limits env 0 0 ms,
    extract_each-extract_all env ms [],
    extract_all-limits env (files_of ms) [],
  )
  | inr (e, refused) ↦ ground arith
]
