-- ===== src/Tests/Snapshots.antt =====
-- An archive of two files; the first attempt breaks off in the second file.
use cgraph.Prelude.{ℕ, ◌≡◌, refl, true, false, Option, none, some, List, [], ◌∷◌, if◌then◌else◌}
use cgraph.Text.{Text, codes, text_eq, starts_with, lower_ascii}
use cgraph.Errors.{ok, err, internal}
use cgraph.Snapshots.{
  Member, Env, zip, tar_gz, archive_ext, assert_safe_path, validate_limits, check_members,
  write_member, extract_each, extract_zip, extract_tar, extract_archive_to_root,
  ensure_archive_and_extract, prepare_snapshot_root,
}
use cgraph.Snapshots.Limits.{Limited, extract_zip-Limited}

abbrev file : Text → Member
file name = record { name = name; path = name; size = 3; is_file = true }

abbrev folder : Member
folder = record { name = codes "d/"; path = codes "d"; size = 0; is_file = false }

abbrev members : List Member
members = folder ∷ file (codes "d/a") ∷ file (codes "b") ∷ []

abbrev env : (Text → Option ℕ) → Env
env write_fails = record {
  max_files = 2;
  max_unpacked_bytes = 6;
  max_file_bytes = 3;
  archive = some members;
  is_inside = λ name. true;
  write_fails = write_fails;
}

abbrev full_disk : Env
full_disk = env (λ name. if text_eq name (codes "b") then some 1 else none)

abbrev sound_disk : Env
sound_disk = env (λ name. none)

format : archive_ext (codes "x.TAR.gz") ≡ ok tar_gz
unfolding archive_ext lower_ascii text_eq
format = refl

broken_off :
    prepare_snapshot_root full_disk zip []
    ≡ (err internal, file (codes "d/a") ∷ record (file (codes "b")) { size = 1 } ∷ [])
unfolding prepare_snapshot_root ensure_archive_and_extract extract_archive_to_root extract_zip
    check_members validate_limits assert_safe_path extract_each write_member text_eq starts_with
broken_off = refl

extract_zip-Limited_example :
    (extract_zip full_disk members [] ≡ extract_tar full_disk members [])
    × Limited full_disk (extract_zip full_disk members []).1
extract_zip-Limited_example = extract_zip-Limited full_disk members
