-- ===== src/Tests/Storage.antt =====
-- A blob in the folder, a project and its neighbour with a shared blob, and a patch that is refused.
use cgraph.Prelude.{ℕ, ◌≡◌, refl, false, not, ◌&&◌, none, some, [], ◌∷◌, length, ◌==◌, arith}
use cgraph.Text.{codes}
use cgraph.Storage
use cgraph.Storage.{
  Backend, local, Blob, Meta, Blobs, done, failed, blob_not_found, store_patch_blob,
  read_patch_blob, universal_newlines,
}
use cgraph.Storage.Expiry.{later, read_back, read_patch_blob-store_patch_blob}
use cgraph.Policy.{Project}
use cgraph.Projects
use cgraph.Projects.{AnalysisRun, RepoSnapshot, Store, has, delete_project}
use cgraph.Projects.Blobs.{Committed, is_orphan, delete_project-blobs}

abbrev service : Storage.Env
service = record {
  backend = local;
  retention_days = 2;
  now = 10;
  digest = length;
  sdk_fails = false;
}

abbrev empty : Blobs
empty = record { folder = []; bucket = [] }

no_other : (b : Blob) → none ≡ some b → b.text ≡ codes "diff"
no_other b h = absurd (ground arith)

read_patch_blob-store_patch_blob_example :
    (kept : Meta) × ((store_patch_blob service (codes "diff") empty).0 ≡ done kept)
    × (read_patch_blob (later 20 service) kept (store_patch_blob service (codes "diff") empty).1 ≡ (
      done (read_back local (codes "diff")),
      (store_patch_blob service (codes "diff") empty).1,
    ))
unfolding Storage.expires_at_of universal_newlines Storage.is_expired
read_patch_blob-store_patch_blob_example =
    read_patch_blob-store_patch_blob service (codes "diff") empty 20 no_other refl refl

abbrev mine : Meta
mine = record { storage = local; sha256 = 4; expires_at = some 9 }

abbrev other : Meta
other = record { storage = local; sha256 = 4; expires_at = some 90 }

abbrev stored : Blobs
stored = record { folder = record { sha = 4; text = codes "diff" } ∷ []; bucket = [] }

abbrev site : Projects.Env
site = record {
  lock_timeout = false;
  blob_fails = λ sha. sha == 6;
  archive_fails = λ sha. false;
  cache_fails = false;
  others = λ db. db;
}

abbrev project : Project
project = record { id = 1; org_id = 2; name = codes "p"; root_path = codes "/p" }

abbrev run : ℕ → ℕ → ℕ → AnalysisRun
run id project_id sha = record {
  id = id;
  org_id = 2;
  project_id = project_id;
  patch_blob_sha = some sha;
}

abbrev snapshot : ℕ → ℕ → RepoSnapshot
snapshot project_id sha = record {
  project_id = project_id;
  content_sha256 = some sha;
  storage = some sha;
}

abbrev store : Store
store = record {
  projects = project ∷ [];
  runs = run 1 1 5 ∷ run 2 1 7 ∷ run 3 9 7 ∷ [];
  snapshots = snapshot 1 3 ∷ snapshot 9 3 ∷ [];
  rows = [];
  blobs = 5 ∷ 7 ∷ [];
  archives = 3 ∷ [];
}

delete_project-blobs_example :
    (seen : Store) × (Committed 1 store seen
      × ((has 5 (delete_project site 1 2 store).1.blobs ≡ (
            has 5 (site.others seen).blobs
            && not (is_orphan 1 5 store.runs && not (site.blob_fails 5))))
          × ((delete_project site 1 2 store).1.runs ≡ (site.others seen).runs)))
delete_project-blobs_example = delete_project-blobs site 1 2 5 store project refl refl
