-- ===== src/Imports/Sharing.antt =====
-- What a failed import does to other projects with the same content (backend/app/task_handlers.py, backend/app/snapshots.py).
use cgraph.Prelude.{
  Bool, Bool-cases, inl, inr, ℕ, ◌≤◌, ◌≡◌, refl, sym, subst, false, Option, none, some, List, ◌==◌,
  ltb, arith, ==_iff,
}
use cgraph.Prelude.Rows.{first}
use cgraph.Text.{Text}
use cgraph.Errors.{Exception, Result, ok, err, cancelled, internal}
use cgraph.Snapshots.{Ext, archive_ext, Member}
use cgraph.Lifecycle.{Update}
use cgraph.Imports.{
  Upload, Disk, Meta, Root, ProjectRow, Site, Env, store_snapshot_upload, store_upload,
  finalize_snapshot, create_project_from_snapshot, delete_snapshot, find_project_by_task_job,
  insert_project, then_insert, prepare_project_snapshot_root,
}
use cgraph.Imports.Rows.{rows_with}
use cgraph.Imports.Task.{
  Reporting, report, report_end, is_cut_off, running_update, create_or_clean, import_archive,
  after_start, snapshot_import_task,
}
use cgraph.Imports.Ending.{report_done}

-- the files of a project
abbrev pub files_at : Root → Disk → Option (List Member)
files_at root disk = elim (disk.folders root.sha) [
  | none ↦ none
  | some f ↦ elim (first (λ c. c.id == root.id) f.projects) [ none ↦ none | some c ↦ some c.files ]
]

report-disk :
    (r : Reporting) (job_id : ℕ) (u : Update) (site : Site)
    → ((report r job_id u site).1.disk ≡ site.disk)
      × ((report r job_id u site).1.projects ≡ site.projects)
report-disk r job_id u site = (refl, refl)

pub report_end-disk :
    (r : Reporting) (env : Env) (escapes : Bool) (org_id job_id : ℕ)
    (ended : Result ProjectRow × Site)
    → ((report_end r env escapes org_id job_id ended).1.disk ≡ ended.1.disk)
      × ((report_end r env escapes org_id job_id ended).1.projects ≡ ended.1.projects)
report_end-disk r env escapes org_id job_id (err e, site) = (ground arith, ground arith)
report_end-disk r env escapes org_id job_id (ok p, site) = (ground arith, ground arith)

insert_project_raises :
    (env : Env) (name : Text) (meta : Meta) (org_id job_id : ℕ) (root : Root) (site : Site)
    (e : Exception)
    → env.insert_error ≡ some e
    → (raised : Exception) × ((insert_project env name meta org_id job_id root site).0 ≡ err raised)
unfolding insert_project
insert_project_raises env name meta org_id job_id root site cancelled fails =
    elim (Bool-cases env.begin_refused) [
      | inl refused ↦ (internal, ground (arith, refused))
      | inr begins ↦ (cancelled, ground (arith, begins, fails))
    ]
insert_project_raises env name meta org_id job_id root site e fails =
    elim (Bool-cases env.begin_refused) [
      | inl refused ↦ (internal, ground (arith, refused))
      | inr begins ↦ (e, ground (arith, begins, fails))
    ]

then_insert_raises :
    (env : Env) (name : Text) (meta : Meta) (org_id job_id : ℕ) (prepared : Result Root × Disk)
    (site : Site) (e : Exception)
    → env.insert_error ≡ some e
    → (raised : Exception) × ((then_insert env name meta org_id job_id prepared site).0
        ≡ err raised)
then_insert_raises env name meta org_id job_id (err raised, disk) site e fails = (raised, refl)
then_insert_raises env name meta org_id job_id (ok root, disk) site e fails =
    insert_project_raises env name meta org_id job_id root
      (record site { disk = disk; projects = env.others site.projects }) e fails

create_or_clean_clears :
    (env : Env) (name : Text) (org_id job_id : ℕ) (meta : Meta) (disk : Disk) (site : Site)
    (e : Exception)
    → find_project_by_task_job org_id job_id site.projects ≡ none
    → env.insert_error ≡ some e
    → env.snapshot_stays ≡ false
    → (create_or_clean env name org_id job_id (ok meta, disk) site).1.disk.folders meta.sha ≡ none
unfolding create_or_clean create_project_from_snapshot delete_snapshot
create_or_clean_clears env name org_id job_id meta disk site e missing fails cleans =
    let site' = record site { disk = disk } in
    let prepared = prepare_project_snapshot_root env meta disk in
    let (raised, stops) = then_insert_raises env name meta org_id job_id prepared site' e fails in
    let same = (==_iff meta.sha meta.sha).1 refl in ground (arith, missing, stops, cleans, same)

store_snapshot_upload_ok :
    (env : Env) (path : ℕ) (archive_name : Text) (ext : Ext) (up : Upload) (disk : Disk)
    → archive_ext archive_name ≡ ok ext
    → disk.staged path ≡ some up
    → (up.size == 0) ≡ false
    → ltb env.snapshot_max_bytes up.size ≡ false
    → env.move_error ≡ none
    → env.upload_error ≡ none
    → (store_snapshot_upload env path archive_name disk).0
      ≡ ok (record { sha = up.sha; ext = ext; archive_name = archive_name })
unfolding store_snapshot_upload store_upload finalize_snapshot
store_snapshot_upload_ok env path archive_name ext up disk e staged full small moves uploads =
    ground (arith, e, staged, full, small, moves, uploads)

-- An import whose archive is stored, but whose project cannot be put into the table, takes the files of
-- every project with the same content, whichever projects there are, where Redis is there, no two rows
-- are for its job and the folder can be deleted.
pub snapshot_import_task_clears :
    (r : Reporting) (env : Env) (name archive_name : Text) (staged_path org_id job_id : ℕ)
    (site : Site) (ext : Ext) (up : Upload) (e : Exception) (root : Root)
    → r.redis_fails ≡ false
    → rows_with job_id site.store.jobs ≤ 1
    → archive_ext archive_name ≡ ok ext
    → site.disk.staged staged_path ≡ some up
    → (up.size == 0) ≡ false
    → ltb env.snapshot_max_bytes up.size ≡ false
    → env.move_error ≡ none
    → env.upload_error ≡ none
    → find_project_by_task_job org_id job_id site.projects ≡ none
    → env.insert_error ≡ some e
    → env.snapshot_stays ≡ false
    → root.sha ≡ up.sha
    → files_at root
        (snapshot_import_task r env name archive_name staged_path org_id job_id site).1.disk
      ≡ none
unfolding snapshot_import_task import_archive
snapshot_import_task_clears r env name archive_name path org_id job_id site ext up e root works
      keyed is_ext staged full small moves uploads missing fails cleans same =
    let (store', (done, reported)) =
      report_done r job_id org_id (running_update org_id) site works refl keyed in
    let site' = record site { store = store' } in
    let stored = store_snapshot_upload env path archive_name site.disk in
    let is_stored =
      store_snapshot_upload_ok env path archive_name ext up site.disk is_ext staged full small moves
        uploads in
    let cleared =
      create_or_clean_clears env name org_id job_id
        (record { sha = up.sha; ext = ext; archive_name = archive_name }) stored.1 site' e missing
        fails cleans in
    let whole : (create_or_clean env name org_id job_id stored site').1.disk.folders up.sha ≡ none =
      ground (arith, is_stored, cleared) in
    let ended = import_archive env name archive_name path org_id job_id site' in
    let folder : ended.1.disk.folders root.sha ≡ none = ground (arith, whole, same) in
    let disk = (report_end-disk r env (is_cut_off env stored.0) org_id job_id ended).0 in
    subst
      (λ started.
        files_at root (after_start r env name archive_name path org_id job_id started).1.disk
        ≡ none)
      (sym done) (ground (arith, disk, folder))
