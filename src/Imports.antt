-- ===== src/Imports.antt =====
-- The import of an uploaded archive: backend/app/snapshots.py, `create_project_from_snapshot_async` of
-- backend/app/services/project_service.py, and its task in backend/app/task_handlers.py. Digests are
-- numbers, and the archive with a digest is the one that `Env.unpack` reads.
pub mod Rows
pub mod Reports
pub mod Task
pub mod Outcome
pub mod Ending
pub mod Sharing
pub mod Replay
use cgraph.Prelude.{
  ℕ, Bool, true, false, not, ◌&&◌, Option, none, some, List, [], ◌∷◌, ◌++◌, ◌==◌, ltb,
  if◌then◌else◌,
}
use cgraph.Prelude.Rows.{select, first, any}
use cgraph.Text.{Text}
use cgraph.Errors.{
  Exception, Result, ok, err, bad_request, internal, cancelled, empty_archive, too_large_archive,
}
use cgraph.Snapshots
use cgraph.Snapshots.{Member, Ext, archive_ext, prepare_snapshot_root}
use cgraph.Lifecycle.{Store}

-- a staged upload, by the number of its path
pub record Upload : Type 0 where
  pub sha : ℕ
  pub size : ℕ

-- the folder of one content: the shared files, and a copy for each project
pub record Clone : Type 0 where
  pub id : ℕ
  pub files : List Member

pub record Folder : Type 0 where
  pub repo : List Member
  pub projects : List Clone

pub record Disk : Type 0 where
  pub staged : ℕ → Option Upload
  pub folders : ℕ → Option Folder

-- `SnapshotMeta`, as far as the import needs it
pub record Meta : Type 0 where
  pub sha : ℕ
  pub ext : Ext
  pub archive_name : Text

-- `root_path`: the copy in the folder of a content
pub record Root : Type 0 where
  pub sha : ℕ
  pub id : ℕ

pub record ProjectRow : Type 0 where
  pub id : ℕ
  pub org_id : ℕ
  pub name : Text
  pub root_path : Root
  pub task_job_id : Option ℕ

pub record SnapshotRow : Type 0 where
  pub org_id : ℕ
  pub project_id : ℕ
  pub content_sha256 : ℕ
  pub archive_name : Text

-- the rows of jobs, projects and snapshots, and the disk
pub record Site : Type 0 where
  pub store : Store
  pub projects : List ProjectRow
  pub snapshots : List SnapshotRow
  pub disk : Disk

-- One delivery: the limit; how the archive is read; what raises, a cancellation included; whether
-- SQLAlchemy refuses `session.begin()` where a SELECT of the same session has begun a transaction; which
-- deletions fail, and whether a cancellation comes in those of the snapshot and of the staged file; the new
-- ids; and what other sessions commit before the insertion.
pub record Env : Type 0 where
  pub snapshot_max_bytes : ℕ
  pub unpack : Snapshots.Env
  pub move_error : Option Exception
  pub upload_error : Option Exception
  pub clone_error : Option Exception
  pub insert_error : Option Exception
  pub begin_refused : Bool
  pub root_stays : Bool
  pub snapshot_stays : Bool
  pub staged_stays : Bool
  pub cleanup_cancelled : Bool
  pub staged_cancelled : Bool
  pub new_root : ℕ
  pub new_project : ℕ
  pub others : List ProjectRow → List ProjectRow

abbrev pub put {ℓ} : {A : Type ℓ} → ℕ → A → (ℕ → A) → ℕ → A
put k a f i = if i == k then a else f i

abbrev pub opened : Option Folder → Folder
opened none = record { repo = []; projects = [] }
opened (some f) = f

abbrev pub set_folder : ℕ → Option Folder → Disk → Disk
set_folder sha f disk = record disk { folders = put sha f disk.folders }

-- `_finalize_snapshot_temp_async`
unfoldable pub finalize_snapshot : Env → Text → Ext → Upload → Disk → Result Meta × Disk
finalize_snapshot env archive_name ext up disk =
    let disk' = set_folder up.sha (some (opened (disk.folders up.sha))) disk in
    elim env.upload_error [
      | some e ↦ (err e, disk')
      | none ↦ (ok (record { sha = up.sha; ext = ext; archive_name = archive_name }), disk')
    ]

abbrev pub unstage : ℕ → Disk → Disk
unstage path disk = record disk { staged = put path none disk.staged }

-- the tests of the size, and the move of the file
unfoldable pub store_upload : Env → ℕ → Text → Ext → Upload → Disk → Result Meta × Disk
unfolding finalize_snapshot
store_upload env path archive_name ext up disk =
    if up.size == 0
    then (err (bad_request empty_archive), disk)
    else if ltb env.snapshot_max_bytes up.size
    then (err (bad_request too_large_archive), disk)
    else elim env.move_error [
      | some e ↦ (err e, disk)
      | none ↦ finalize_snapshot env archive_name ext up (unstage path disk)
    ]

-- `store_snapshot_upload_from_path_async`
unfoldable pub store_snapshot_upload : Env → ℕ → Text → Disk → Result Meta × Disk
unfolding store_upload
store_snapshot_upload env path archive_name disk = elim (archive_ext archive_name) [
  | err e ↦ (err e, disk)
  | ok ext ↦ elim (disk.staged path) [
    | none ↦ (err internal, disk)
    | some up ↦ store_upload env path archive_name ext up disk
  ]
]

-- the copy of the shared files, once they are prepared
unfoldable pub clone_shared :
    Env → Meta → Folder → Result (Unit {0}) × List Member → Disk → Result Root × Disk
clone_shared env meta folder (err e, repo) disk =
    (err e, set_folder meta.sha (some (record folder { repo = repo })) disk)
clone_shared env meta folder (ok _, repo) disk = elim env.clone_error [
  | some e ↦ (err e, set_folder meta.sha (some (record folder { repo = repo })) disk)
  | none ↦
      let clone : Clone = record { id = env.new_root; files = repo } in
      (
        ok (record { sha = meta.sha; id = env.new_root }),
        set_folder meta.sha
            (some (record { repo = repo; projects = folder.projects ++ (clone ∷ []) })) disk,
      )
]

-- `prepare_project_snapshot_root_async`
unfoldable pub prepare_project_snapshot_root : Env → Meta → Disk → Result Root × Disk
unfolding clone_shared prepare_snapshot_root
prepare_project_snapshot_root env meta disk =
    let folder = opened (disk.folders meta.sha) in
    clone_shared env meta folder (prepare_snapshot_root env.unpack meta.ext folder.repo) disk

-- `delete_project_snapshot_root_async`, with its failure passed over
unfoldable pub delete_project_snapshot_root : Env → Root → Disk → Disk
delete_project_snapshot_root env root disk =
    if env.root_stays then disk else elim (disk.folders root.sha) [
      | none ↦ disk
      | some f ↦
          set_folder root.sha
            (some (record f { projects = select (λ c. not (c.id == root.id)) f.projects })) disk
    ]

-- `delete_snapshot_async`: the folder of the content goes, with all that is in it.
unfoldable pub delete_snapshot : Env → Meta → Disk → Disk
delete_snapshot env meta disk = if env.snapshot_stays then disk else set_folder meta.sha none disk

abbrev pub is_of_job : ℕ → ProjectRow → Bool
is_of_job job_id p = elim p.task_job_id [ none ↦ false | some id ↦ id == job_id ]

-- `_find_project_by_task_job_async`
unfoldable pub find_project_by_task_job : ℕ → ℕ → List ProjectRow → Option ProjectRow
find_project_by_task_job org_id job_id projects =
    first (λ p. p.org_id == org_id && is_of_job job_id p) projects

-- the insertion, which a refused `session.begin()` ends, and else under the unique index of the job's id;
-- only a cancellation leaves the copy alone
unfoldable pub insert_project : Env → Text → Meta → ℕ → ℕ → Root → Site → Result ProjectRow × Site
unfolding find_project_by_task_job delete_project_snapshot_root
insert_project env name meta org_id job_id root site =
    let cleaned = record site { disk = delete_project_snapshot_root env root site.disk } in
    if env.begin_refused then (err internal, cleaned) else elim env.insert_error [
      | some cancelled ↦ (err cancelled, site)
      | some e ↦ (err e, cleaned)
      | none ↦
          if any (is_of_job job_id) site.projects
          then elim (find_project_by_task_job org_id job_id site.projects) [
            | some existing ↦ (ok existing, cleaned)
            | none ↦ (err internal, cleaned)
          ]
          else (let project : ProjectRow = record {
            id = env.new_project;
            org_id = org_id;
            name = name;
            root_path = root;
            task_job_id = some job_id;
          } in
              let snapshot : SnapshotRow = record {
                org_id = org_id;
                project_id = env.new_project;
                content_sha256 = meta.sha;
                archive_name = meta.archive_name;
              } in
              (
                ok project,
                record site {
                  projects = site.projects ++ (project ∷ []);
                  snapshots = site.snapshots ++ (snapshot ∷ []);
                },
              ))
    ]

-- the insertion, with the commits of other sessions before it
abbrev pub then_insert :
    Env → Text → Meta → ℕ → ℕ → Result Root × Disk → Site → Result ProjectRow × Site
then_insert env name meta org_id job_id (err e, disk) site = (err e, record site { disk = disk })
then_insert env name meta org_id job_id (ok root, disk) site =
    insert_project env name meta org_id job_id root
      (record site { disk = disk; projects = env.others site.projects })

-- `create_project_from_snapshot_async`, as the task calls it
unfoldable pub create_project_from_snapshot :
    Env → Text → Meta → ℕ → ℕ → Site → Result ProjectRow × Site
unfolding find_project_by_task_job prepare_project_snapshot_root insert_project
create_project_from_snapshot env name meta org_id job_id site =
    elim (find_project_by_task_job org_id job_id site.projects) [
      | some existing ↦ (ok existing, site)
      | none ↦
          then_insert env name meta org_id job_id (prepare_project_snapshot_root env meta site.disk)
            site
    ]
