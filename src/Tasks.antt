-- ===== src/Tasks.antt =====
-- The tasks of backend/app/task_handlers.py that scan a project, write its docs, run a request and index a
-- mutation. What the first three do between their reports is a parameter.
pub mod Handlers
pub mod Mutation
use cgraph.Prelude.{
  ℕ, Bool, true, false, ◌&&◌, Option, none, some, List, [], ◌∷◌, ◌==◌, if◌then◌else◌,
}
use cgraph.Prelude.Rows.{any}
use cgraph.Text.{Text}
use cgraph.Errors.{Exception, Result, ok, err, internal, cancelled}
use cgraph.Graph
use cgraph.Jobs.{running, succeeded, failed}
use cgraph.Lifecycle.{Store, Settings, Update, set_job_status}
use cgraph.Scan.{Db, Env}
use cgraph.Scan.Attempts.{Moment, run_mutation_indexing}

-- the time, the settings, whether Redis fails, and the texts of an exception and of a result
pub record Reporter : Type 0 where
  pub now : ℕ
  pub settings : Settings
  pub redis_fails : Bool
  pub describe : Exception → Text
  pub payload : Exception → Text × Option Text

-- what a body hands to the last report: a result, or a failure with the result that is kept
pub data Ending : Type 0 where
  done : Text → Ending
  stopped : Text → (Text × Option Text) → Text → Ending

abbrev pub start_update : ℕ → Update
start_update org_id = record {
  status = running;
  org_id = some org_id;
  result_json = none;
  error = none;
  error_payload = none;
}

abbrev pub raised_update : Reporter → ℕ → Exception → Update
raised_update r org_id e = record {
  status = failed;
  org_id = some org_id;
  result_json = none;
  error = some (r.describe e);
  error_payload = some (r.payload e);
}

abbrev pub end_update : ℕ → Ending → Update
end_update org_id (done result) = record {
  status = succeeded;
  org_id = some org_id;
  result_json = some result;
  error = none;
  error_payload = none;
}
end_update org_id (stopped message payload result) = record {
  status = failed;
  org_id = some org_id;
  result_json = some result;
  error = some message;
  error_payload = some payload;
}

module _ {W : Type 0} where
  abbrev pub report : Reporter → ℕ → Update → Store × W → Result (Unit {0}) × (Store × W)
  report r job_id u (store, w) =
      let (told, store') = set_job_status r.now r.settings r.redis_fails job_id u store in
      (told, (store', w))

  -- `except Exception` lets a cancellation pass.
  abbrev pub report_end :
      Reporter → ℕ → ℕ → Store → Result Ending × W → Result (Unit {0}) × (Store × W)
  report_end r org_id job_id store (ok ending, w) =
      report r job_id (end_update org_id ending) (store, w)
  report_end r org_id job_id store (err cancelled, w) = (err cancelled, (store, w))
  report_end r org_id job_id store (err e, w) =
      report r job_id (raised_update r org_id e) (store, w)

  abbrev pub after_start :
      Reporter
      → (W → Result Ending × W)
      → ℕ
      → ℕ
      → Result (Unit {0}) × (Store × W)
      → Result (Unit {0}) × (Store × W)
  after_start r body org_id job_id (err e, state) = (err e, state)
  after_start r body org_id job_id (ok _, (store, w)) = report_end r org_id job_id store (body w)

  -- what the tasks share: the reports around a body
  unfoldable pub run_handler :
      Reporter → (W → Result Ending × W) → ℕ → ℕ → Store × W → Result (Unit {0}) × (Store × W)
  unfolding set_job_status
  run_handler r body org_id job_id state =
      after_start r body org_id job_id (report r job_id (start_update org_id) state)

  -- `_scan_task_async`, with `_scan_and_update_graph_async` as its body
  unfoldable pub scan_task :
      Reporter → (W → Result Ending × W) → ℕ → ℕ → Store × W → Result (Unit {0}) × (Store × W)
  unfolding run_handler
  scan_task r scan_and_update_graph org_id job_id state =
      run_handler r scan_and_update_graph org_id job_id state

  -- `_docs_task_async`, with `build_project_docs_async` as its body
  unfoldable pub docs_task :
      Reporter → (W → Result Ending × W) → ℕ → ℕ → Store × W → Result (Unit {0}) × (Store × W)
  unfolding run_handler
  docs_task r build_project_docs org_id job_id state =
      run_handler r build_project_docs org_id job_id state

  -- `_run_task_job_async`, with `run_task_async` in its body; a payload that is no `TaskRequest` raises
  -- there as well.
  unfoldable pub run_task_job :
      Reporter
      → Bool
      → (W → Result Ending × W)
      → ℕ
      → ℕ
      → Store × W
      → Result (Unit {0}) × (Store × W)
  unfolding run_handler
  run_task_job r is_request run_task org_id job_id state =
      run_handler r (λ w. if is_request then run_task w else (err internal, w)) org_id job_id state

-- the row of a project that `_resolve_project_root_async` reads
pub record Owner : Type 0 where
  pub id : ℕ
  pub org_id : ℕ

-- What the body of `_mutation_indexing_task_async` meets, with the texts of its results.
pub record Indexing : Type 0 where
  pub projects : List Owner
  pub normalizes : Bool
  pub env : Env
  pub graph_env : Graph.Env
  pub metrics_error : Option Exception
  pub first_moment : Moment
  pub second_moment : Moment
  pub result : Option Bool → Text
  pub aborted_message : Text
  pub aborted_payload : Text

-- `_resolve_project_root_async`
unfoldable pub resolve_project_root : Indexing → ℕ → ℕ → Result (Unit {0})
resolve_project_root ix project_id org_id =
    if any (λ p. p.id == project_id && p.org_id == org_id) ix.projects
    then (if ix.normalizes then ok tt else err internal)
    else err internal

abbrev pub ending_of : Indexing → Result (Option Bool) × Db → Result Ending × Db
ending_of ix (err e, db) = (err e, db)
ending_of ix (ok none, db) = (
  ok (stopped ix.aborted_message (ix.aborted_payload, some ix.aborted_message) (ix.result none)),
  db,
)
ending_of ix (ok (some pending), db) = (ok (done (ix.result (some pending))), db)

-- the body of the task
unfoldable pub index_mutation : Indexing → ℕ → ℕ → List Text → Db → Result Ending × Db
unfolding resolve_project_root run_mutation_indexing
index_mutation ix project_id org_id rel_paths db =
    elim (resolve_project_root ix project_id org_id) [
      | err e ↦ (err e, db)
      | ok _ ↦ ending_of ix (
          run_mutation_indexing ix.env ix.graph_env ix.metrics_error ix.first_moment
            ix.second_moment rel_paths db)
    ]

-- `_mutation_indexing_task_async`
unfoldable pub mutation_indexing_task :
    Reporter → Indexing → ℕ → ℕ → ℕ → List Text → Store × Db → Result (Unit {0}) × (Store × Db)
unfolding run_handler index_mutation
mutation_indexing_task r ix project_id org_id job_id rel_paths state =
    run_handler r (index_mutation ix project_id org_id rel_paths) org_id job_id state
