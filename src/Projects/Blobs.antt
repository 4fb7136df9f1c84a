-- ===== src/Projects/Blobs.antt =====
-- Which blobs the deletions take from the storage (backend/app/services/project_service.py).
use cgraph.Prelude.{
  ℕ, ◌≡◌, inl, inr, refl, Bool, true, false, not, ◌&&◌, none, some, List, [], ◌∷◌, map, length,
  ◌==◌, if◌then◌else◌, arith, Bool-cases, Option-cases,
}
use cgraph.Prelude.Rows.{select, first, first-true, any, delete_first}
use cgraph.Policy.{Project}
use cgraph.Projects.{
  AnalysisRun, RepoSnapshot, Store, Env, is_sha, has, present, run_of, snapshot_of,
  load_patch_blob_ref_counts, load_snapshot_ref_counts, delete_all, orphaned_blobs,
  orphaned_archives, without_project, delete_project, run_with, orphaned_by_run, delete_run,
}

-- does a run that passes `p` keep this blob
abbrev pub keeps : (AnalysisRun → Bool) → ℕ → List AnalysisRun → Bool
keeps p sha runs = any (λ r. p r && is_sha sha r.patch_blob_sha) runs

has-select : (p : ℕ → Bool) (sha : ℕ) (xs : List ℕ) → has sha (select p xs) ≡ (p sha && has sha xs)
has-select p sha [] = ground arith
has-select p sha (x ∷ xs) = elim (Bool-cases (x == sha)) [
  | inl e ↦ let same : x ≡ sha = ground arith in ground (arith, same, has-select p sha xs)
  | inr n ↦ ground (arith, has-select p sha xs)
]

-- A digest is left just if it was there, and was not to be deleted or failed.
has-delete_all :
    (fails : ℕ → Bool) (sha : ℕ) (shas kept : List ℕ)
    → has sha (delete_all fails shas kept) ≡ (has sha kept && not (has sha shas && not (fails sha)))
unfolding delete_all
has-delete_all fails sha [] kept = ground arith
has-delete_all fails sha (x ∷ shas) kept = elim (Bool-cases (x == sha)) [
  | inl e ↦
      let same : x ≡ sha = ground arith in
      ground (
        arith,
        same,
        has-select (λ s. not (s == x)) sha kept,
        has-delete_all fails sha shas (if fails x then kept else select (λ s. not (s == x)) kept),
      )
  | inr n ↦ ground (
    arith,
    has-select (λ s. not (s == x)) sha kept,
    has-delete_all fails sha shas (if fails x then kept else select (λ s. not (s == x)) kept),
  )
]

has-present :
    (p : AnalysisRun → Bool) (sha : ℕ) (runs : List AnalysisRun)
    → has sha (present (map (λ r. r.patch_blob_sha) (select p runs))) ≡ keeps p sha runs
has-present p sha [] = refl
has-present p sha (r ∷ runs) = ground (arith, has-present p sha runs)

count_keeps :
    (p : AnalysisRun → Bool) (sha : ℕ) (runs : List AnalysisRun)
    → (length (select (λ r. not (p r) && is_sha sha r.patch_blob_sha) runs) == 0)
      ≡ not (keeps (λ r. not (p r)) sha runs)
count_keeps p sha [] = refl
count_keeps p sha (r ∷ runs) = ground (arith, count_keeps p sha runs)

-- the blobs that no run of another project keeps
abbrev pub is_orphan : ℕ → ℕ → List AnalysisRun → Bool
is_orphan project_id sha runs =
    keeps (run_of project_id) sha runs && not (keeps (λ r. not (run_of project_id r)) sha runs)

has-orphaned_blobs :
    (project_id sha : ℕ) (db : Store)
    → has sha (orphaned_blobs project_id db) ≡ is_orphan project_id sha db.runs
unfolding orphaned_blobs load_patch_blob_ref_counts
has-orphaned_blobs project_id sha db = ground (
  arith,
  has-present (run_of project_id) sha db.runs,
  count_keeps (run_of project_id) sha db.runs,
  has-select
      (λ s.
        length (select (λ r. not (run_of project_id r) && is_sha s r.patch_blob_sha) db.runs) == 0)
      sha (present (map (λ r. r.patch_blob_sha) (select (run_of project_id) db.runs))),
)

none-without :
    (project_id : ℕ) (runs : List AnalysisRun)
    → any (run_of project_id) (select (λ r. not (run_of project_id r)) runs) ≡ false
none-without project_id [] = refl
none-without project_id (r ∷ runs) = ground (arith, none-without project_id runs)

others-without :
    (project_id : ℕ) (runs : List AnalysisRun)
    → select (λ r. not (run_of project_id r)) (select (λ r. not (run_of project_id r)) runs)
      ≡ select (λ r. not (run_of project_id r)) runs
others-without project_id [] = refl
others-without project_id (r ∷ runs) = ground (arith, others-without project_id runs)

-- What a deletion commits: no run of the project, each run of another project, and all blobs.
abbrev pub Committed : ℕ → Store → Store → Type 0
Committed project_id db seen =
    (any (run_of project_id) seen.runs ≡ false)
    × ((select (λ r. not (run_of project_id r)) seen.runs
          ≡ select (λ r. not (run_of project_id r)) db.runs)
        × (seen.blobs ≡ db.blobs))

-- The deletion of a project that is there, whose lock is free, commits tables without the project's runs,
-- but with all runs of other projects and all blobs. Of the blobs that other sessions then leave in the
-- storage, it takes those that only runs of the project kept, where their deletion does not fail, and no
-- others; the runs stay as those sessions leave them.
pub delete_project-blobs :
    (env : Env) (project_id org_id sha : ℕ) (db : Store) (p : Project)
    → env.lock_timeout ≡ false
    → first (λ q. q.id == project_id && q.org_id == org_id) db.projects ≡ some p
    → (seen : Store) × (Committed project_id db seen
        × ((has sha (delete_project env project_id org_id db).1.blobs ≡ (
              has sha (env.others seen).blobs
              && not (is_orphan project_id sha db.runs && not (env.blob_fails sha))))
            × ((delete_project env project_id org_id db).1.runs ≡ (env.others seen).runs)))
unfolding delete_project without_project
delete_project-blobs env project_id org_id sha db p free found = (
  without_project project_id db,
  (
    (none-without project_id db.runs, (others-without project_id db.runs, refl)),
    ground (
      arith,
      has-orphaned_blobs project_id sha db,
      has-delete_all env.blob_fails sha (orphaned_blobs project_id db)
          (env.others (without_project project_id db)).blobs,
    ),
  ),
)

-- The deletion of a run takes its blob, where no other run keeps it and the deletion does not fail.
pub delete_run-blobs :
    (env : Env) (project_id org_id run_id sha : ℕ) (db : Store) (run : AnalysisRun)
    → first (run_with run_id) db.runs ≡ some run
    → (run.project_id == project_id && run.org_id == org_id) ≡ true
    → has sha (delete_run env project_id org_id run_id db).1.blobs ≡ (
        has sha (env.others (record db { runs = delete_first (run_with run_id) db.runs })).blobs
        && not (
            (is_sha sha run.patch_blob_sha
              && not (keeps (λ r. not (run_with run_id r)) sha db.runs))
            && not (env.blob_fails sha)))
unfolding delete_run orphaned_by_run load_patch_blob_ref_counts
delete_run-blobs env project_id org_id run_id sha db run found own =
    let seen = env.others (record db { runs = delete_first (run_with run_id) db.runs }) in
    let id_of : run.id ≡ run_id = ground (arith, first-true (run_with run_id) db.runs run found) in
    elim (Option-cases run.patch_blob_sha) [
      | inl nothing ↦ ground (arith, has-delete_all env.blob_fails sha [] seen.blobs)
      | inr (s, blob) ↦ ground (
        arith,
        id_of,
        count_keeps (run_with run.id) s db.runs,
        has-delete_all env.blob_fails sha (s ∷ []) seen.blobs,
        has-delete_all env.blob_fails sha [] seen.blobs,
      )
    ]

-- Does every row's archive carry the digest of its content?
abbrev pub all_stored : List RepoSnapshot → Bool
all_stored [] = true
all_stored (s ∷ ss) =
    elim s.storage [ none ↦ true | some a ↦ is_sha a s.content_sha256 ] && all_stored ss

abbrev pub shared : ℕ → ℕ → List RepoSnapshot → Bool
shared project_id sha ss =
    any (λ s. not (snapshot_of project_id s) && is_sha sha s.content_sha256) ss

shared_count :
    (project_id sha : ℕ) (ss : List RepoSnapshot)
    → (length (select (λ s. not (snapshot_of project_id s) && is_sha sha s.content_sha256) ss) == 0)
      ≡ not (shared project_id sha ss)
shared_count project_id sha [] = refl
shared_count project_id sha (s ∷ ss) = ground (arith, shared_count project_id sha ss)

not_orphaned :
    (project_id sha : ℕ) (ss all : List RepoSnapshot)
    → all_stored ss ≡ true
    → shared project_id sha all ≡ true
    → has sha (
        present (
          map
            (λ s. s.storage)
            (select
              (λ s. load_snapshot_ref_counts project_id s.content_sha256 all == 0)
              (select (snapshot_of project_id) ss))))
      ≡ false
unfolding load_snapshot_ref_counts
not_orphaned project_id sha [] all h k = refl
not_orphaned project_id sha (s ∷ ss) all h k =
    ground (arith, shared_count project_id sha all, not_orphaned project_id sha ss all)

-- The deletion of a project takes no archive whose content is that of a snapshot of another project, if
-- archives carry the digest of their content.
delete_project-archives :
    (env : Env) (project_id org_id sha : ℕ) (db : Store) (p : Project)
    → env.lock_timeout ≡ false
    → first (λ q. q.id == project_id && q.org_id == org_id) db.projects ≡ some p
    → all_stored db.snapshots ≡ true
    → shared project_id sha db.snapshots ≡ true
    → has sha (delete_project env project_id org_id db).1.archives
      ≡ has sha (env.others (without_project project_id db)).archives
unfolding delete_project orphaned_archives
delete_project-archives env project_id org_id sha db p free found stored others = ground (
  arith,
  not_orphaned project_id sha db.snapshots db.snapshots stored others,
  has-delete_all env.archive_fails sha (orphaned_archives project_id db)
      (env.others (without_project project_id db)).archives,
)
