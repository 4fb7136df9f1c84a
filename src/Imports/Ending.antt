-- ===== src/Imports/Ending.antt =====
-- How the task of an import ends, and what its replay does (backend/app/task_handlers.py,
-- backend/app/snapshots.py).
use cgraph.Prelude.{
  Bool, ℕ, ◌≤◌, ◌≡◌, ◌⊎◌, inl, inr, refl, sym, ◌∙◌, subst, ap, true, false, some, arith,
  Option-cases,
}
use cgraph.Text.{Text}
use cgraph.Errors.{Result, ok, err, Result-cases}
use cgraph.Jobs.{succeeded, failed}
use cgraph.Lifecycle.{Store, Update, set_job_status}
use cgraph.Imports.{
  Disk, Meta, Root, ProjectRow, Site, Env, store_snapshot_upload, create_project_from_snapshot,
  find_project_by_task_job, insert_project, then_insert, prepare_project_snapshot_root,
}
use cgraph.Imports.Rows.{rows_with}
use cgraph.Imports.Reports.{Reported, set_job_status-Reported}
use cgraph.Imports.Task.{
  Reporting, report, report_end, is_cut_off, running_update, failed_update, succeeded_update,
  create_or_clean, import_archive, after_start, snapshot_import_task,
}
use cgraph.Imports.Outcome.{has_project, is_backed, import_archive_backed}

insert_project-store :
    (env : Env) (name : Text) (meta : Meta) (org_id job_id : ℕ) (root : Root) (site : Site)
    → (insert_project env name meta org_id job_id root site).1.store ≡ site.store
unfolding insert_project
insert_project-store env name meta org_id job_id root site =
    elim (Option-cases (find_project_by_task_job org_id job_id site.projects)) [
      | inl e ↦ ground (arith, e)
      | inr (p, e) ↦ ground (arith, e)
    ]

then_insert-store :
    (env : Env) (name : Text) (meta : Meta) (org_id job_id : ℕ) (prepared : Result Root × Disk)
    (site : Site)
    → (then_insert env name meta org_id job_id prepared site).1.store ≡ site.store
then_insert-store env name meta org_id job_id (err e, disk) site = refl
then_insert-store env name meta org_id job_id (ok root, disk) site =
    insert_project-store env name meta org_id job_id root
      (record site { disk = disk; projects = env.others site.projects })

create_project-store :
    (env : Env) (name : Text) (meta : Meta) (org_id job_id : ℕ) (site : Site)
    → (create_project_from_snapshot env name meta org_id job_id site).1.store ≡ site.store
unfolding create_project_from_snapshot
create_project-store env name meta org_id job_id site =
    let prepared = prepare_project_snapshot_root env meta site.disk in
    elim (Option-cases (find_project_by_task_job org_id job_id site.projects)) [
      | inl e ↦ ground (arith, e, then_insert-store env name meta org_id job_id prepared site)
      | inr (p, e) ↦ ground (arith, e)
    ]

create_or_clean-store :
    (env : Env) (name : Text) (org_id job_id : ℕ) (stored : Result Meta × Disk) (site : Site)
    → (create_or_clean env name org_id job_id stored site).1.store ≡ site.store
unfolding create_or_clean
create_or_clean-store env name org_id job_id (err e, disk) site = refl
create_or_clean-store env name org_id job_id (ok meta, disk) site =
    let site' = record site { disk = disk } in
    ground (
      arith,
      create_project-store env name meta org_id job_id site',
      Result-cases (create_project_from_snapshot env name meta org_id job_id site').0,
    )

pub import_archive-store :
    (env : Env) (name archive_name : Text) (path org_id job_id : ℕ) (site : Site)
    → (import_archive env name archive_name path org_id job_id site).1.store ≡ site.store
unfolding import_archive
import_archive-store env name archive_name path org_id job_id site = ground (
  arith,
  create_or_clean-store env name org_id job_id
      (store_snapshot_upload env path archive_name site.disk) site,
)

-- With Redis there, a report goes through.
pub report_done :
    (r : Reporting) (job_id org_id : ℕ) (u : Update) (site : Site)
    → r.redis_fails ≡ false
    → u.org_id ≡ some org_id
    → rows_with job_id site.store.jobs ≤ 1
    → (store' : Store) × ((report r job_id u site ≡ (ok tt, record site { store = store' }))
        × Reported r.now r.settings job_id u.status store')
report_done r job_id org_id u site works org keyed =
    let (store', (done, reported)) =
      set_job_status-Reported r.now job_id org_id r.settings u site.store org keyed in
    let at_work : set_job_status r.now r.settings r.redis_fails job_id u site.store
        ≡ (ok tt, store') =
      ap (λ b. set_job_status r.now r.settings b job_id u site.store) works ∙ done in
    (store', (ground (arith, at_work), reported))

-- The task has returned, and its job is reported as failed, or as a success with its project there.
abbrev pub Ended : Reporting → ℕ → ℕ → Result (Unit {0}) × Site → Type 0
Ended r org_id job_id (done, site) =
    (done ≡ ok tt)
    × (Reported r.now r.settings job_id failed site.store
        ⊎ (Reported r.now r.settings job_id succeeded site.store
            × (has_project org_id job_id site.projects ≡ true)))

report_end-Ended :
    (r : Reporting) (env : Env) (escapes : Bool) (org_id job_id : ℕ)
    (ended : Result ProjectRow × Site)
    → r.redis_fails ≡ false
    → rows_with job_id ended.1.store.jobs ≤ 1
    → is_backed org_id job_id ended ≡ true
    → escapes ≡ false
    → env.staged_cancelled ≡ false
    → Ended r org_id job_id (report_end r env escapes org_id job_id ended)
report_end-Ended r env escapes org_id job_id (err e, site) works keyed backed runs_on deletes_on =
    let (store', (done, reported)) =
      report_done r job_id org_id (failed_update r org_id e) site works refl keyed in
    let returned : report_end r env escapes org_id job_id (err e, site)
        ≡ (ok tt, record site { store = store' }) =
      ground (arith, runs_on, deletes_on, done) in
    subst (Ended r org_id job_id) (sym returned) (refl, inl reported)
report_end-Ended r env escapes org_id job_id (ok p, site) works keyed backed runs_on deletes_on =
    let (store', (done, reported)) =
      report_done r job_id org_id (succeeded_update r org_id p) site works refl keyed in
    let returned : report_end r env escapes org_id job_id (ok p, site)
        ≡ (ok tt, record site { store = store' }) =
      ground (arith, deletes_on, done) in
    subst (Ended r org_id job_id) (sym returned) (refl, inr (reported, backed))

is_cut_off_never :
    (env : Env) (stored : Result Meta)
    → env.cleanup_cancelled ≡ false
    → is_cut_off env stored ≡ false
is_cut_off_never env (err e) runs_on = refl
is_cut_off_never env (ok meta) runs_on = runs_on

-- Whatever raises in between, a cancellation included, an import returns, with Redis there, no two rows
-- for its job and no cancellation in the clean-up of the snapshot or in the deletion of the staged file,
-- and then the one row of the job, unless the clean-up of the jobs has deleted it, has the status reported
-- in the end: failed, or succeeded with a project of the job and the organisation in the table.
pub snapshot_import_task-Ended :
    (r : Reporting) (env : Env) (name archive_name : Text) (staged_path org_id job_id : ℕ)
    (site : Site)
    → r.redis_fails ≡ false
    → rows_with job_id site.store.jobs ≤ 1
    → env.cleanup_cancelled ≡ false
    → env.staged_cancelled ≡ false
    → Ended r org_id job_id
        (snapshot_import_task r env name archive_name staged_path org_id job_id site)
unfolding snapshot_import_task
snapshot_import_task-Ended r env name archive_name path org_id job_id site works keyed runs_on
      deletes_on =
    let (store', (done, reported)) =
      report_done r job_id org_id (running_update org_id) site works refl keyed in
    let site' = record site { store = store' } in
    let stored = (store_snapshot_upload env path archive_name site.disk).0 in
    let ended = import_archive env name archive_name path org_id job_id site' in
    let kept : rows_with job_id ended.1.store.jobs ≤ 1 =
      subst (λ s. rows_with job_id s.jobs ≤ 1)
        (sym (import_archive-store env name archive_name path org_id job_id site')) reported.1 in
    subst
      (λ started.
        Ended r org_id job_id (after_start r env name archive_name path org_id job_id started))
      (sym done)
      (report_end-Ended r env (is_cut_off env stored) org_id job_id ended works kept
        (import_archive_backed env name archive_name path org_id job_id site')
        (is_cut_off_never env stored runs_on) deletes_on)
