-- ===== src/Imports/Task.antt =====
-- `_snapshot_import_task_async` of backend/app/task_handlers.py.
use cgraph.Prelude.{ℕ, Bool, false, Option, none, some, if◌then◌else◌}
use cgraph.Text.{Text}
use cgraph.Errors.{Exception, Result, ok, err, cancelled}
use cgraph.Jobs.{running, succeeded, failed}
use cgraph.Lifecycle.{Settings, Update, set_job_status}
use cgraph.Imports.{
  Disk, Meta, ProjectRow, Site, Env, unstage, store_snapshot_upload, create_project_from_snapshot,
  delete_snapshot,
}

-- the time, the settings, whether Redis fails, and the texts of a report
pub record Reporting : Type 0 where
  pub now : ℕ
  pub settings : Settings
  pub redis_fails : Bool
  pub describe : Exception → Text
  pub payload : Exception → Text × Option Text
  pub result : ProjectRow → Text

abbrev pub running_update : ℕ → Update
running_update org_id = record {
  status = running;
  org_id = some org_id;
  result_json = none;
  error = none;
  error_payload = none;
}

abbrev pub failed_update : Reporting → ℕ → Exception → Update
failed_update r org_id e = record {
  status = failed;
  org_id = some org_id;
  result_json = none;
  error = some (r.describe e);
  error_payload = some (r.payload e);
}

abbrev pub succeeded_update : Reporting → ℕ → ProjectRow → Update
succeeded_update r org_id p = record {
  status = succeeded;
  org_id = some org_id;
  result_json = some (r.result p);
  error = none;
  error_payload = none;
}

abbrev pub report : Reporting → ℕ → Update → Site → Result (Unit {0}) × Site
report r job_id u site =
    let (done, store) = set_job_status r.now r.settings r.redis_fails job_id u site.store in
    (done, record site { store = store })

-- the file is deleted in the end, unless that fails
abbrev pub delete_staged : Env → ℕ → Site → Site
delete_staged env path site =
    if env.staged_stays then site else record site { disk = unstage path site.disk }

-- the creation of the project, with the clean-up of the snapshot where it raises
unfoldable pub create_or_clean :
    Env → Text → ℕ → ℕ → Result Meta × Disk → Site → Result ProjectRow × Site
unfolding create_project_from_snapshot delete_snapshot
create_or_clean env name org_id job_id (err e, disk) site = (err e, record site { disk = disk })
create_or_clean env name org_id job_id (ok meta, disk) site =
    let (created, site') =
      create_project_from_snapshot env name meta org_id job_id (record site { disk = disk }) in
    elim created [
      | ok p ↦ (ok p, site')
      | err e ↦ (err e, record site' { disk = delete_snapshot env meta site'.disk })
    ]

-- A cancellation in the `finally` takes the place of the `return`.
abbrev pub return_failed : Env → Result (Unit {0}) × Site → Result (Unit {0}) × Site
return_failed env (told, site) = (if env.staged_cancelled then err cancelled else told, site)

-- what is reported in the end: nothing where a cancellation leaves the clean-up or, after a success, the
-- deletion of the staged file, as both catch only `Exception`
abbrev pub report_end :
    Reporting → Env → Bool → ℕ → ℕ → Result ProjectRow × Site → Result (Unit {0}) × Site
report_end r env escapes org_id job_id (err e, site) =
    if escapes
    then (err cancelled, site)
    else return_failed env (report r job_id (failed_update r org_id e) site)
report_end r env escapes org_id job_id (ok p, site) =
    if env.staged_cancelled
    then (err cancelled, site)
    else report r job_id (succeeded_update r org_id p) site

-- Without a stored archive there is nothing to clean up.
abbrev pub is_cut_off : Env → Result Meta → Bool
is_cut_off env (err e) = false
is_cut_off env (ok meta) = env.cleanup_cancelled

-- the body of the task: the report of a failure comes before the deletion of the file, but neither sees
-- the other
unfoldable pub import_archive : Env → Text → Text → ℕ → ℕ → ℕ → Site → Result ProjectRow × Site
unfolding store_snapshot_upload create_or_clean
import_archive env name archive_name staged_path org_id job_id site =
    let (ended, site') =
      create_or_clean env name org_id job_id
        (store_snapshot_upload env staged_path archive_name site.disk) site in
    (ended, delete_staged env staged_path site')

-- after the first report, which is outside the `try`
abbrev pub after_start :
    Reporting → Env → Text → Text → ℕ → ℕ → ℕ → Result (Unit {0}) × Site → Result (Unit {0}) × Site
after_start r env name archive_name staged_path org_id job_id (err e, site) = (err e, site)
after_start r env name archive_name staged_path org_id job_id (ok _, site) =
    report_end r env
      (is_cut_off env (store_snapshot_upload env staged_path archive_name site.disk).0) org_id
      job_id (import_archive env name archive_name staged_path org_id job_id site)

-- `_snapshot_import_task_async`
unfoldable pub snapshot_import_task :
    Reporting → Env → Text → Text → ℕ → ℕ → ℕ → Site → Result (Unit {0}) × Site
unfolding set_job_status import_archive store_snapshot_upload
snapshot_import_task r env name archive_name staged_path org_id job_id site =
    after_start r env name archive_name staged_path org_id job_id
      (report r job_id (running_update org_id) site)
