-- ===== src/Storage.antt =====
-- backend/app/storage.py: patch blobs, which are found by the digest of their text, in a folder or in
-- S3. Times are seconds, and the S3 client fails where `sdk_fails` says so; the folder does not fail.
pub mod Expiry
use cgraph.Prelude.{
  ℕ, ◌+◌, ◌*◌, Bool, true, false, not, ◌&&◌, Option, none, some, List, [], ◌∷◌, ◌++◌, ◌==◌, ltb,
  leb, if◌then◌else◌,
}
use cgraph.Prelude.Rows.{select, first, update_first}
use cgraph.Text.{Text}

pub data Backend : Type 0 where
  local s3 : Backend

pub record Blob : Type 0 where
  pub sha : ℕ
  pub text : Text

-- the dictionary that a run keeps of its blob
pub record Meta : Type 0 where
  pub storage : Backend
  pub sha256 : ℕ
  pub expires_at : Option ℕ

pub record Blobs : Type 0 where
  pub folder : List Blob
  pub bucket : List Blob

-- the settings, the clock, the digest of a text, and whether the client of S3 fails
pub record Env : Type 0 where
  pub backend : Backend
  pub retention_days : ℕ
  pub now : ℕ
  pub digest : Text → ℕ
  pub sdk_fails : Bool

-- a `StorageError`, or an exception of the client
pub data Failure : Type 0 where
  blob_expired blob_not_found sdk_error : Failure

pub data Outcome {ℓ} (A : Type ℓ) : Type ℓ where
  done : A → Outcome A
  failed : Failure → Outcome A

abbrev pub has_sha : ℕ → Blob → Bool
has_sha sha b = b.sha == sha

-- `_expires_at`
unfoldable pub expires_at_of : Env → Option ℕ
expires_at_of env =
    if env.retention_days == 0 then none else some (env.now + env.retention_days * 86400)

-- `_is_expired`, on a time that can be read
unfoldable pub is_expired : ℕ → Option ℕ → Bool
is_expired now none = false
is_expired now (some t) = leb t now

-- `_write_patch_blob_if_missing`
unfoldable pub write_patch_blob_if_missing : Blob → List Blob → List Blob
write_patch_blob_if_missing b folder = elim (first (has_sha b.sha) folder) [
  | some old ↦ folder
  | none ↦ folder ++ (b ∷ [])
]

-- `put_object`
abbrev pub put_object : Blob → List Blob → List Blob
put_object b bucket = b ∷ select (λ c. not (has_sha b.sha c)) bucket

-- `store_patch_blob_async`; the signed URL is left out.
unfoldable pub store_patch_blob : Env → Text → Blobs → Outcome Meta × Blobs
unfolding write_patch_blob_if_missing expires_at_of
store_patch_blob env text blobs =
    let b : Blob = record { sha = env.digest text; text = text } in
    let kept : Meta = record {
      storage = env.backend;
      sha256 = b.sha;
      expires_at = expires_at_of env;
    } in
    elim env.backend [
      | local ↦ (done kept, record blobs { folder = write_patch_blob_if_missing b blobs.folder })
      | s3 ↦
          if env.sdk_fails
          then (failed sdk_error, blobs)
          else (done kept, record blobs { bucket = put_object b blobs.bucket })
    ]

abbrev pub without : ℕ → List Blob → List Blob
without sha bs = select (λ c. not (has_sha sha c)) bs

-- `delete_patch_blob_by_sha_async`
unfoldable pub delete_patch_blob_by_sha : Env → ℕ → Blobs → Bool × Blobs
delete_patch_blob_by_sha env sha blobs = elim env.backend [
  | local ↦ (true, record blobs { folder = without sha blobs.folder })
  | s3 ↦
      if env.sdk_fails
      then (false, record blobs { folder = without sha blobs.folder })
      else (true, record { folder = without sha blobs.folder; bucket = without sha blobs.bucket })
]

-- `delete_patch_blob_async`
unfoldable pub delete_patch_blob : Env → Meta → Blobs → Bool × Blobs
delete_patch_blob env kept blobs = elim kept.storage [
  | local ↦ delete_patch_blob_by_sha env kept.sha256 blobs
  | s3 ↦
      if env.sdk_fails
      then (false, blobs)
      else (true, record blobs { bucket = without kept.sha256 blobs.bucket })
]

abbrev pub text_of : Option Blob → Failure → Outcome Text
text_of none e = failed e
text_of (some b) e = done b.text

-- Python's universal newlines: a reading of a text file makes CR LF and a lone CR a newline.
abbrev pub newlines : Bool → Text → Text
newlines after_cr [] = []
newlines after_cr (c ∷ text) =
    let plain = newlines false text in
    let cut = newlines true text in
    if c == 13 then 10 ∷ cut else if c == 10 && after_cr then plain else c ∷ plain

unfoldable pub universal_newlines : Text → Text
universal_newlines text = newlines false text

abbrev pub decoded : Option Blob → Outcome Text
decoded none = failed blob_not_found
decoded (some b) = done (universal_newlines b.text)

-- `read_patch_blob_async`; the folder is read with `read_text`, and S3 as it was written.
unfoldable pub read_patch_blob : Env → Meta → Blobs → Outcome Text × Blobs
unfolding is_expired
read_patch_blob env kept blobs =
    if is_expired env.now kept.expires_at
    then (failed blob_expired, (delete_patch_blob env kept blobs).1)
    else elim kept.storage [
      | local ↦ (decoded (first (has_sha kept.sha256) blobs.folder), blobs)
      | s3 ↦
          if env.sdk_fails
          then (failed sdk_error, blobs)
          else (text_of (first (has_sha kept.sha256) blobs.bucket) sdk_error, blobs)
    ]
