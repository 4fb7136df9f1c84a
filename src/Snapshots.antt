-- ===== src/Snapshots.antt =====
-- backend/app/snapshots.py: the extraction of an uploaded archive into the folder of its content, which
-- all projects with that content share. `zipfile`, `tarfile`, `pathlib` and the file system are
-- parameters; one session at a time is in a folder, and clearing a folder does not fail.
pub mod Limits
pub mod Marker
use cgraph.Prelude.{
  ℕ, ◌+◌, Bool, true, false, not, ◌&&◌, ◌||◌, Option, none, some, List, [], ◌∷◌, ◌++◌, min, length,
  ltb, if◌then◌else◌,
}
use cgraph.Prelude.Rows.{select, any}
use cgraph.Text.{Text, codes, text_eq, starts_with, lower_ascii}
use cgraph.Errors.{
  Result, ok, err, bad_request, internal, raise_if, bad_archive_format, outside_root_dir,
  too_many_files, too_many_bytes, too_large_file, ◌>>=◌, ◌>>◌,
}

-- A member of an archive, or a file of the folder. `is_file` is false for a folder, and in a tar for all
-- that is no regular file. `path` is where the library that unpacks the archive writes it, below the
-- folder and without `.` and `..`: tarfile and zipfile make different paths of some names.
pub record Member : Type 0 where
  pub name : Text
  pub path : Text
  pub size : ℕ
  pub is_file : Bool

pub data Ext : Type 0 where
  tar_gz tgz tar zip : Ext

-- The settings; what the archive holds (none if it cannot be had or opened); does `resolve` keep a name
-- below the folder; and which files fail to be written, after how many bytes.
pub record Env : Type 0 where
  pub max_files : ℕ
  pub max_unpacked_bytes : ℕ
  pub max_file_bytes : ℕ
  pub archive : Option (List Member)
  pub is_inside : Text → Bool
  pub write_fails : Text → Option ℕ

abbrev pub ends_with : Text → Text → Bool
ends_with suffix [] = text_eq suffix []
ends_with suffix (c ∷ s) = text_eq suffix (c ∷ s) || ends_with suffix s

-- `_archive_ext`
unfoldable pub archive_ext : Text → Result Ext
unfolding lower_ascii
archive_ext filename =
    let lower = lower_ascii filename in
    if ends_with (codes ".tar.gz") lower
    then ok tar_gz
    else if ends_with (codes ".tgz") lower
    then ok tgz
    else if ends_with (codes ".tar") lower
    then ok tar
    else if ends_with (codes ".zip") lower
    then ok zip
    else err (bad_request bad_archive_format)

-- `_assert_safe_path`
unfoldable pub assert_safe_path : Env → Text → Result (Unit {0})
assert_safe_path env name = raise_if (not (env.is_inside name)) (bad_request outside_root_dir)

-- `_validate_limits`
unfoldable pub validate_limits : Env → ℕ → ℕ → ℕ → Result (Unit {0})
validate_limits env file_count total_bytes file_bytes =
    raise_if (ltb env.max_files file_count) (bad_request too_many_files)
    >> raise_if (ltb env.max_unpacked_bytes total_bytes) (bad_request too_many_bytes)
    >> raise_if (ltb env.max_file_bytes file_bytes) (bad_request too_large_file)

-- the first loop, with `count` and `total`
unfoldable pub check_members : Env → ℕ → ℕ → List Member → Result (Unit {0})
unfolding validate_limits assert_safe_path
check_members env count total [] = ok tt
check_members env count total (m ∷ ms) =
    let skipped = check_members env count total ms in
    let later = check_members env (count + 1) (total + m.size) ms in
    if m.is_file
    then validate_limits env (count + 1) (total + m.size) m.size
      >> assert_safe_path env m.name
      >> later
    else skipped

-- the files of the folder, after one more is written; a failure may leave a part of the file
unfoldable pub write_member : Env → Member → List Member → Result (Unit {0}) × List Member
write_member env m files = elim (env.write_fails m.name) [
  | none ↦ (ok tt, files ++ (m ∷ []))
  | some n ↦ (err internal, files ++ (record m { size = min n m.size } ∷ []))
]

-- the second loop of `_extract_zip`
unfoldable pub extract_each : Env → List Member → List Member → Result (Unit {0}) × List Member
unfolding write_member assert_safe_path
extract_each env [] files = (ok tt, files)
extract_each env (m ∷ ms) files =
    let skipped = extract_each env ms files in
    let (done, files') = write_member env m files in
    let later = extract_each env ms files' in
    if m.is_file
    then elim (assert_safe_path env m.name) [
      | err e ↦ (err e, files)
      | ok _ ↦ elim done [ err e ↦ (err e, files') | ok _ ↦ later ]
    ]
    else skipped

-- `extractall`
unfoldable pub extract_all : Env → List Member → List Member → Result (Unit {0}) × List Member
unfolding write_member
extract_all env [] files = (ok tt, files)
extract_all env (m ∷ ms) files =
    let (done, files') = write_member env m files in
    let later = extract_all env ms files' in elim done [ err e ↦ (err e, files') | ok _ ↦ later ]

abbrev pub files_of : List Member → List Member
files_of ms = select (λ m. m.is_file) ms

-- `_extract_zip`
unfoldable pub extract_zip : Env → List Member → List Member → Result (Unit {0}) × List Member
unfolding check_members extract_each
extract_zip env ms files = elim (check_members env 0 0 ms) [
  | err e ↦ (err e, files)
  | ok _ ↦ extract_each env ms files
]

-- `_extract_tar`
unfoldable pub extract_tar : Env → List Member → List Member → Result (Unit {0}) × List Member
unfolding check_members extract_all
extract_tar env ms files = elim (check_members env 0 0 ms) [
  | err e ↦ (err e, files)
  | ok _ ↦ extract_all env (files_of ms) files
]

abbrev pub marker : Member
marker = record {
  name = codes ".extracted_ok";
  path = codes ".extracted_ok";
  size = 2;
  is_file = true;
}

-- Is there a file at the marker's path, or a folder with a file below it?
abbrev pub marks : Member → Bool
marks m = text_eq marker.path m.path || starts_with (codes ".extracted_ok/") m.path

abbrev pub is_marked : List Member → Bool
is_marked files = any marks files

abbrev pub extract : Env → Ext → List Member → List Member → Result (Unit {0}) × List Member
extract env zip ms files = extract_zip env ms files
extract env tar_gz ms files = extract_tar env ms files
extract env tgz ms files = extract_tar env ms files
extract env tar ms files = extract_tar env ms files

abbrev pub then_mark : Env → Result (Unit {0}) × List Member → Result (Unit {0}) × List Member
then_mark env (err e, files) = (err e, files)
then_mark env (ok _, files) = write_member env marker files

-- `_extract_archive_to_root`
unfoldable pub extract_archive_to_root :
    Env → Ext → List Member → List Member → Result (Unit {0}) × List Member
unfolding extract_zip extract_tar write_member
extract_archive_to_root env ext ms files = then_mark env (extract env ext ms files)

-- `_ensure_archive_and_extract`
unfoldable pub ensure_archive_and_extract :
    Env → Ext → List Member → Result (Unit {0}) × List Member
unfolding extract_archive_to_root
ensure_archive_and_extract env ext files = elim env.archive [
  | none ↦ (err internal, files)
  | some ms ↦ extract_archive_to_root env ext ms files
]

-- `prepare_snapshot_root_async`
unfoldable pub prepare_snapshot_root : Env → Ext → List Member → Result (Unit {0}) × List Member
unfolding ensure_archive_and_extract
prepare_snapshot_root env ext [] = ensure_archive_and_extract env ext []
prepare_snapshot_root env ext (m ∷ files) =
    if is_marked (m ∷ files) then (ok tt, m ∷ files) else ensure_archive_and_extract env ext []
