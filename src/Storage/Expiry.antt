-- ===== src/Storage/Expiry.antt =====
-- Reading a blob before its time is over, and what an expired reading does to others
-- (backend/app/storage.py).
use cgraph.Prelude.{
  ℕ, ◌≡◌, inl, inr, refl, true, false, none, some, List, [], ◌∷◌, arith, Option-cases,
}
use cgraph.Prelude.Rows.{first, first-append}
use cgraph.Text.{Text}
use cgraph.Storage.{
  Backend, s3, universal_newlines, local, Blob, Meta, Blobs, Env, blob_not_found, done, failed,
  has_sha, expires_at_of, is_expired, write_patch_blob_if_missing, store_patch_blob,
  delete_patch_blob_by_sha, delete_patch_blob, read_patch_blob, without,
}

-- the same service at another time
abbrev pub later : ℕ → Env → Env
later t env = record env { now = t }

first-without : (sha : ℕ) (bs : List Blob) → first (has_sha sha) (without sha bs) ≡ none
first-without sha [] = refl
first-without sha (b ∷ bs) = ground (arith, first-without sha bs)

-- what a reading gives of a stored text
abbrev pub read_back : Backend → Text → Text
read_back local text = universal_newlines text
read_back s3 text = text

-- A text is stored without an error, and read again at any time before the retention is over, if no other
-- text has the same digest and the client of S3 does not fail: from S3 as it was stored, and from the folder
-- with each CR LF and each lone CR made a newline.
pub read_patch_blob-store_patch_blob :
    (env : Env) (text : Text) (blobs : Blobs) (t : ℕ)
    → ((b : Blob) → first (has_sha (env.digest text)) blobs.folder ≡ some b → b.text ≡ text)
    → env.sdk_fails ≡ false
    → is_expired t (expires_at_of env) ≡ false
    → (kept : Meta) × ((store_patch_blob env text blobs).0 ≡ done kept)
      × (read_patch_blob (later t env) kept (store_patch_blob env text blobs).1
          ≡ (done (read_back env.backend text), (store_patch_blob env text blobs).1))
unfolding store_patch_blob read_patch_blob write_patch_blob_if_missing
read_patch_blob-store_patch_blob env text blobs t unique works fresh =
    let kept : Meta = record {
      storage = env.backend;
      sha256 = env.digest text;
      expires_at = expires_at_of env;
    } in
    elim (Option-cases (first (has_sha (env.digest text)) blobs.folder)) [
      | inl absent ↦ (
        kept,
        ground arith,
        ground (
          arith,
          first-append (has_sha (env.digest text)) blobs.folder
              (record { sha = env.digest text; text = text }),
        ),
      )
      | inr (b, found) ↦ (kept, ground arith, ground (arith, unique b found))
    ]

-- In the folder an expired reading deletes the blob of every other run with the same text: the next
-- reading by one that is not expired finds none.
read_patch_blob_expired :
    (env : Env) (mine other : Meta) (blobs : Blobs)
    → mine.storage ≡ local
    → other.storage ≡ local
    → mine.sha256 ≡ other.sha256
    → is_expired env.now mine.expires_at ≡ true
    → is_expired env.now other.expires_at ≡ false
    → (read_patch_blob env other (read_patch_blob env mine blobs).1).0 ≡ failed blob_not_found
unfolding read_patch_blob delete_patch_blob delete_patch_blob_by_sha
read_patch_blob_expired env mine other blobs a b same over fresh =
    ground (arith, first-without other.sha256 blobs.folder)
