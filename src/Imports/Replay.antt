-- ===== src/Imports/Replay.antt =====
-- What a second delivery of an import does (backend/app/task_handlers.py).
use cgraph.Prelude.{ℕ, ◌≤◌, ◌≡◌, inl, inr, refl, sym, subst, ap, false, none, List, arith, ==_iff}
use cgraph.Text.{Text}
use cgraph.Errors.{Exception, Result, err, Result-cases, internal}
use cgraph.Snapshots.{archive_ext}
use cgraph.Jobs.{failed}
use cgraph.Imports.{Disk, ProjectRow, Site, Env, store_snapshot_upload}
use cgraph.Imports.Rows.{rows_with}
use cgraph.Imports.Reports.{Reported}
use cgraph.Imports.Task.{
  Reporting, report, report_end, return_failed, is_cut_off, running_update, failed_update,
  create_or_clean, delete_staged, import_archive, after_start, snapshot_import_task,
}
use cgraph.Imports.Ending.{snapshot_import_task-Ended, report_done}
use cgraph.Imports.Sharing.{report_end-disk}

import_archive-unstaged :
    (env : Env) (name archive_name : Text) (path org_id job_id : ℕ) (site : Site)
    → env.staged_stays ≡ false
    → (import_archive env name archive_name path org_id job_id site).1.disk.staged path ≡ none
unfolding import_archive
import_archive-unstaged env name archive_name path org_id job_id site deletes =
    ground (arith, deletes, (==_iff path path).1 refl)

store_snapshot_upload_missing :
    (env : Env) (path : ℕ) (archive_name : Text) (disk : Disk)
    → disk.staged path ≡ none
    → (e : Exception) × (store_snapshot_upload env path archive_name disk ≡ (err e, disk))
unfolding store_snapshot_upload
store_snapshot_upload_missing env path archive_name disk missing =
    elim (Result-cases (archive_ext archive_name)) [
      | inl (ext, is_ext) ↦ (internal, ground (arith, is_ext, missing))
      | inr (e, no_ext) ↦ (e, ground (arith, no_ext))
    ]

import_archive_missing :
    (env : Env) (name archive_name : Text) (path org_id job_id : ℕ) (site : Site)
    → site.disk.staged path ≡ none
    → (e : Exception) × (import_archive env name archive_name path org_id job_id site
        ≡ (err e, delete_staged env path site))
unfolding import_archive create_or_clean
import_archive_missing env name archive_name path org_id job_id site missing =
    let (e, stops) = store_snapshot_upload_missing env path archive_name site.disk missing in
    (e, ground (arith, stops))

-- The job is reported as failed, and the projects are these.
abbrev pub FailedWith : Reporting → ℕ → List ProjectRow → Result (Unit {0}) × Site → Type 0
FailedWith r job_id projects (done, site) =
    Reported r.now r.settings job_id failed site.store × (site.projects ≡ projects)

missing-FailedWith :
    (r : Reporting) (env : Env) (name archive_name : Text) (path org_id job_id : ℕ) (site : Site)
    → r.redis_fails ≡ false
    → rows_with job_id site.store.jobs ≤ 1
    → site.disk.staged path ≡ none
    → FailedWith r job_id site.projects
        (snapshot_import_task r env name archive_name path org_id job_id site)
unfolding snapshot_import_task
missing-FailedWith r env name archive_name path org_id job_id site works keyed missing =
    let (store', (done, reported)) =
      report_done r job_id org_id (running_update org_id) site works refl keyed in
    let site' = record site { store = store' } in
    let (e, stops) =
      import_archive_missing env name archive_name path org_id job_id site' missing in
    let left = delete_staged env path site' in
    let (store'', (told, failed_there)) =
      report_done r job_id org_id (failed_update r org_id e) left works refl
        (ground (arith, reported.1)) in
    let ended : FailedWith r job_id site.projects
        (return_failed env (report r job_id (failed_update r org_id e) left)) =
      subst (λ t. FailedWith r job_id site.projects (return_failed env t)) (sym told)
        (failed_there, ground arith) in
    subst
      (λ started.
        FailedWith r job_id site.projects
          (after_start r env name archive_name path org_id job_id started))
      (sym done)
      (subst
        (λ result. FailedWith r job_id site.projects (
          report_end r env
            (is_cut_off env (store_snapshot_upload env path archive_name site.disk).0) org_id job_id
            result))
        (sym stops)
        (subst
          (λ stored.
            FailedWith r job_id site.projects
              (report_end r env (is_cut_off env stored) org_id job_id (err e, left)))
          (sym (
            ap (λ s. s.0)
              (store_snapshot_upload_missing env path archive_name site.disk missing).1))
          ended))

snapshot_import_task-unstaged :
    (r : Reporting) (env : Env) (name archive_name : Text) (path org_id job_id : ℕ) (site : Site)
    → r.redis_fails ≡ false
    → rows_with job_id site.store.jobs ≤ 1
    → env.staged_stays ≡ false
    → (snapshot_import_task r env name archive_name path org_id job_id site).1.disk.staged path
      ≡ none
unfolding snapshot_import_task
snapshot_import_task-unstaged r env name archive_name path org_id job_id site works keyed deletes =
    let (store', (done, reported)) =
      report_done r job_id org_id (running_update org_id) site works refl keyed in
    let site' = record site { store = store' } in
    let ended = import_archive env name archive_name path org_id job_id site' in
    let gone = import_archive-unstaged env name archive_name path org_id job_id site' deletes in
    let stored = (store_snapshot_upload env path archive_name site.disk).0 in
    let disk = (report_end-disk r env (is_cut_off env stored) org_id job_id ended).0 in
    subst
      (λ started.
        (after_start r env name archive_name path org_id job_id started).1.disk.staged path ≡ none)
      (sym done) (ground (arith, disk, gone))

-- A second delivery of an import reports the job as failed, whatever the first one has reported, so that
-- the one row of the job, unless the clean-up of the jobs has deleted it, has that status, and adds no
-- project, where the first could delete the staged file and was not cancelled in its clean-ups, Redis is
-- there, and no two rows are for the job.
pub snapshot_import_task-replayed :
    (r s : Reporting) (env again : Env) (name archive_name : Text) (staged_path org_id job_id : ℕ)
    (site : Site)
    → r.redis_fails ≡ false
    → s.redis_fails ≡ false
    → rows_with job_id site.store.jobs ≤ 1
    → env.staged_stays ≡ false
    → env.cleanup_cancelled ≡ false
    → env.staged_cancelled ≡ false
    → FailedWith s job_id
        (snapshot_import_task r env name archive_name staged_path org_id job_id site).1.projects
        (snapshot_import_task s again name archive_name staged_path org_id job_id
          (snapshot_import_task r env name archive_name staged_path org_id job_id site).1)
snapshot_import_task-replayed r s env again name archive_name path org_id job_id site works works'
      keyed deletes runs_on deletes_on =
    let ending =
      (snapshot_import_task-Ended r env name archive_name path org_id job_id site works keyed
        runs_on deletes_on).1 in
    let after = (snapshot_import_task r env name archive_name path org_id job_id site).1 in
    let keyed' : rows_with job_id after.store.jobs ≤ 1 = elim ending [
      | inl failed_there ↦ failed_there.1
      | inr (succeeded_there, there) ↦ succeeded_there.1
    ] in
    missing-FailedWith s again name archive_name path org_id job_id
      (snapshot_import_task r env name archive_name path org_id job_id site).1 works' keyed'
      (snapshot_import_task-unstaged r env name archive_name path org_id job_id site works keyed
        deletes)
