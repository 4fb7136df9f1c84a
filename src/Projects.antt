-- ===== src/Projects.antt =====
-- The deletion of projects and runs with what they keep in the storage:
-- backend/app/services/project_service.py and backend/app/services/task_service.py. Patch blobs and
-- snapshot archives are shared: they are found by the digest of their content. A digest is a number, and
-- none where the source has NULL or an empty text. The folder of a project and the entries of failed
-- deletions in the cache are left out.
pub mod Blobs
use cgraph.Prelude.{
  ℕ, ◌+◌, Bool, true, false, not, ◌&&◌, ◌||◌, Option, none, some, List, [], ◌∷◌, ◌++◌, map, length,
  ◌==◌, ltb, if◌then◌else◌,
}
use cgraph.Prelude.Rows.{select, first, any, delete_first}
use cgraph.Text.{Text}
use cgraph.Errors.{
  Result, ok, err, not_found, locked, external_service, cache_failed, no_project, no_run,
  project_busy,
}
use cgraph.Policy.{Project}

pub record AnalysisRun : Type 0 where
  pub id : ℕ
  pub org_id : ℕ
  pub project_id : ℕ
  pub patch_blob_sha : Option ℕ

-- `storage` is the digest in `storage_json`, none where that is no dictionary.
pub record RepoSnapshot : Type 0 where
  pub project_id : ℕ
  pub content_sha256 : Option ℕ
  pub storage : Option ℕ

-- the other tables that have rows of a project
pub data Table : Type 0 where
  file_edge file_node module_contract api_route api_call api_include api_route_contract : Table
  api_call_meta ts_type_def file_chunk_embedding analysis_stage_telemetry project_doc file_text :
      Table

pub record Row : Type 0 where
  pub table : Table
  pub project_id : ℕ

-- the tables, and the digests of the blobs and archives in the storage
pub record Store : Type 0 where
  pub projects : List Project
  pub runs : List AnalysisRun
  pub snapshots : List RepoSnapshot
  pub rows : List Row
  pub blobs : List ℕ
  pub archives : List ℕ

-- Does the lock time out, which deletions in the storage fail, does the cache fail at the end, and what
-- do other sessions do between the commit and the deletions in the storage?
pub record Env : Type 0 where
  pub lock_timeout : Bool
  pub blob_fails : ℕ → Bool
  pub archive_fails : ℕ → Bool
  pub cache_fails : Bool
  pub others : Store → Store

abbrev pub is_sha : ℕ → Option ℕ → Bool
is_sha sha none = false
is_sha sha (some s) = s == sha

abbrev pub has : ℕ → List ℕ → Bool
has sha shas = any (λ s. s == sha) shas

-- the values that are not NULL
abbrev pub present : List (Option ℕ) → List ℕ
present [] = []
present (none ∷ xs) = present xs
present (some s ∷ xs) = s ∷ present xs

abbrev pub run_of : ℕ → AnalysisRun → Bool
run_of project_id r = r.project_id == project_id

abbrev pub snapshot_of : ℕ → RepoSnapshot → Bool
snapshot_of project_id s = s.project_id == project_id

-- `load_patch_blob_ref_counts_async` at one digest, with the runs that are not excluded
unfoldable pub load_patch_blob_ref_counts : (AnalysisRun → Bool) → ℕ → List AnalysisRun → ℕ
load_patch_blob_ref_counts excluded sha runs =
    length (select (λ r. not (excluded r) && is_sha sha r.patch_blob_sha) runs)

-- `_load_snapshot_ref_counts_async` at one digest
unfoldable pub load_snapshot_ref_counts : ℕ → Option ℕ → List RepoSnapshot → ℕ
load_snapshot_ref_counts project_id none snapshots = 0
load_snapshot_ref_counts project_id (some sha) snapshots =
    length (select (λ s. not (snapshot_of project_id s) && is_sha sha s.content_sha256) snapshots)

-- `_delete_patch_blobs_async` and `_delete_snapshots_async`: each digest is deleted, or fails
unfoldable pub delete_all : (ℕ → Bool) → List ℕ → List ℕ → List ℕ
delete_all fails [] kept = kept
delete_all fails (sha ∷ shas) kept =
    delete_all fails shas (if fails sha then kept else select (λ s. not (s == sha)) kept)

-- the blobs of a project's runs that no run of another project has
unfoldable pub orphaned_blobs : ℕ → Store → List ℕ
orphaned_blobs project_id db =
    select (λ sha. load_patch_blob_ref_counts (run_of project_id) sha db.runs == 0)
      (present (map (λ r. r.patch_blob_sha) (select (run_of project_id) db.runs)))

-- the archives of a project's snapshots whose content no snapshot of another project has
unfoldable pub orphaned_archives : ℕ → Store → List ℕ
orphaned_archives project_id db = present (
    map (λ s. s.storage)
      (select (λ s. load_snapshot_ref_counts project_id s.content_sha256 db.snapshots == 0)
        (select (snapshot_of project_id) db.snapshots)))

-- the deletions of rows
unfoldable pub without_project : ℕ → Store → Store
without_project project_id db = record db {
  projects = select (λ p. not (p.id == project_id)) db.projects;
  runs = select (λ r. not (run_of project_id r)) db.runs;
  snapshots = select (λ s. not (snapshot_of project_id s)) db.snapshots;
  rows = select (λ r. not (r.project_id == project_id)) db.rows;
}

-- `delete_project_async`; the failures, which are cached and logged, are what stays in the storage.
unfoldable pub delete_project : Env → ℕ → ℕ → Store → Result (Unit {0}) × Store
delete_project env project_id org_id db =
    if env.lock_timeout
    then (err (locked project_busy), db)
    else elim (first (λ p. p.id == project_id && p.org_id == org_id) db.projects) [
      | none ↦ (err (not_found no_project), db)
      | some p ↦
          let seen = env.others (without_project project_id db) in
          (
            if env.cache_fails then err (external_service cache_failed) else ok tt,
            record seen {
              blobs = delete_all env.blob_fails (orphaned_blobs project_id db) seen.blobs;
              archives =
                  delete_all env.archive_fails (orphaned_archives project_id db) seen.archives;
            },
          )
    ]

abbrev pub run_with : ℕ → AnalysisRun → Bool
run_with run_id r = r.id == run_id

-- the digest whose blob `delete_run_async` deletes after its commit
unfoldable pub orphaned_by_run : AnalysisRun → Store → List ℕ
orphaned_by_run run db = elim run.patch_blob_sha [
  | none ↦ []
  | some sha ↦
      if load_patch_blob_ref_counts (run_with run.id) sha db.runs == 0 then sha ∷ [] else []
]

-- `delete_run_async`
unfoldable pub delete_run : Env → ℕ → ℕ → ℕ → Store → Result (Unit {0}) × Store
delete_run env project_id org_id run_id db = elim (first (run_with run_id) db.runs) [
  | none ↦ (err (not_found no_run), db)
  | some run ↦
      if run.project_id == project_id && run.org_id == org_id
      then (let seen = env.others (record db { runs = delete_first (run_with run_id) db.runs }) in
          (
            ok tt,
            record seen { blobs = delete_all env.blob_fails (orphaned_by_run run db) seen.blobs },
          ))
      else (err (not_found no_run), db)
]
