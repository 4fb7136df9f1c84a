-- ===== src/Queue.antt =====
-- The submission of tasks (backend/app/services/task_queue.py).
pub mod Success
pub mod Failure
pub mod Submit
use cgraph.Prelude.{
  ℕ, Bool, true, false, Option, none, some, List, [], ◌∷◌, ◌++◌, ◌==◌, if◌then◌else◌,
}
use cgraph.Prelude.Rows.{update_first}
use cgraph.Text.{Text}
use cgraph.Errors.{
  Exception, Result, ok, err, internal, cancelled, external_service, EnqueueReason, timeout,
  broker_error, internal_enqueue_failure, enqueue_failed,
}
use cgraph.Jobs
use cgraph.Jobs.{
  TaskJob, Kind, run_task, scan, docs, snapshot_import, mutation_indexing, Status, pending, Others,
  task_queue_by_kind, find_existing_job_id, find_existing_job, create_job,
}
use cgraph.Inflight.{Progress, Redis, guard_inflight, release_inflight}

-- A message of the ARQ queues. `args` stands for the arguments behind the task id.
pub record Message : Type 0 where
  pub task_name : Kind
  pub task_id : ℕ
  pub args : Text
  pub queue : Jobs.Queue

-- `jobs` is the table, `inflight` the Redis set, `broker` what has reached the ARQ queues.
pub record System : Type 0 where
  pub jobs : List TaskJob
  pub inflight : List ℕ
  pub broker : List Message

-- How `_async_task_producer.enqueue_task_async` under `wait_for` ends; `reached` says whether the
-- broker has taken the message all the same. `cancelling` is `current_task().cancelling()`.
pub data Delivery : Type 0 where
  delivered : Delivery
  broken : (reached : Bool) (reason : Text) → Delivery
  timed_out : (reached : Bool) → Delivery
  stopped : (reached cancelling : Bool) → Delivery

-- What the database, Redis and the other sessions do during one submission. `others_inflight` is what other
-- sessions make of the set after the guard has passed, a reconciliation of theirs included, which drops
-- the places of jobs that are not committed yet. `mark_fails` is an exception inside `_mark_enqueue_failure_async`.
pub record Env : Type 0 where
  pub now : ℕ
  pub others : Others
  pub others_inflight : List ℕ → List ℕ
  pub redis : Redis
  pub release_unavailable : Bool
  pub progress : Progress
  pub heavy_limit : Option ℕ
  pub delivery : Delivery
  pub mark_fails : Bool

-- the exceptions that `_enqueue_with_error_mapping_async` catches
pub data EnqueueError : Type 0 where
  timeout_error cancelled_error : EnqueueError
  producer_error : Text → EnqueueError

-- `_classify_enqueue_failure`
unfoldable pub classify_enqueue_failure : EnqueueError → EnqueueReason
classify_enqueue_failure timeout_error = timeout
classify_enqueue_failure (producer_error reason) = broker_error
classify_enqueue_failure cancelled_error = internal_enqueue_failure

-- `str(exc)`, which is empty for the first two
abbrev pub str : EnqueueError → Text
str timeout_error = []
str cancelled_error = []
str (producer_error reason) = reason

abbrev pub marked_failed : ℕ → Text → TaskJob → TaskJob
marked_failed now reason j = record j {
  status = Status.failed;
  error = some reason;
  completed_at = some now;
  updated_at = now;
}

-- `_mark_enqueue_failure_async`
unfoldable pub mark_enqueue_failure : Env → ℕ → EnqueueError → List TaskJob → List TaskJob
mark_enqueue_failure env task_id exc jobs =
    if env.mark_fails
    then jobs
    else update_first (λ j. j.id == task_id) (marked_failed env.now (str exc)) jobs

abbrev pub send : Bool → Message → System → System
send reached message sys =
    if reached then record sys { broker = sys.broker ++ (message ∷ []) } else sys

abbrev pub fail_enqueue : Env → ℕ → EnqueueError → System → Result (Unit {0}) × System
fail_enqueue env task_id exc sys = (
  err (external_service (enqueue_failed (classify_enqueue_failure exc))),
  record sys { jobs = mark_enqueue_failure env task_id exc sys.jobs },
)

-- `_enqueue_with_error_mapping_async`, with a session
unfoldable pub enqueue_with_error_mapping : Env → Message → System → Result (Unit {0}) × System
unfolding classify_enqueue_failure
enqueue_with_error_mapping env message sys = elim env.delivery [
  | delivered ↦ (ok tt, send true message sys)
  | broken reached reason ↦
      fail_enqueue env message.task_id (producer_error reason) (send reached message sys)
  | timed_out reached ↦ fail_enqueue env message.task_id timeout_error (send reached message sys)
  | stopped reached cancelling ↦
      if cancelling
      then (err cancelled, send reached message sys)
      else fail_enqueue env message.task_id cancelled_error (send reached message sys)
]

abbrev pub released : Env → ℕ → System → System
released env task_id sys = record sys {
  inflight =
      release_inflight env.release_unavailable (task_queue_by_kind run_task) task_id sys.inflight;
}

-- `except ExternalServiceError`
abbrev pub is_external : Exception → Bool
is_external (external_service m) = true
is_external _ = false

-- what `except Exception` lets pass
abbrev pub is_cancelled : Exception → Bool
is_cancelled cancelled = true
is_cancelled _ = false

-- the end of `submit_run_async`, once the job is created
unfoldable pub publish_run : Env → Text → ℕ → System → Result ℕ × System
publish_run env args job_id sys =
    let message : Message = record {
      task_name = run_task;
      task_id = job_id;
      args = args;
      queue = task_queue_by_kind run_task;
    } in
    let (sent, sys') = enqueue_with_error_mapping env message sys in
    elim sent [
      | ok _ ↦ (ok job_id, sys')
      | err e ↦ (err e, if is_external e then released env job_id sys' else sys')
    ]

-- the middle of `submit_run_async`, once the guard has passed
unfoldable pub create_run : Env → ℕ → ℕ → Text → ℕ → System → Result ℕ × System
unfolding publish_run
create_run env org_id key args provisional sys =
    let (made, jobs') =
      create_job env.others env.now org_id (task_queue_by_kind run_task) (some key) provisional
        sys.jobs in
    let sys' = record sys { jobs = jobs' } in
    elim made [
      | err e ↦ (err e, if is_cancelled e then sys' else released env provisional sys')
      | ok (job_id, created) ↦
          if created
          then publish_run env args job_id sys'
          else (ok job_id, released env provisional sys')
    ]

-- `submit_run_async`; `provisional` is the `uuid4().hex` that it draws.
unfoldable pub submit_run : Env → ℕ → ℕ → Text → ℕ → System → Result ℕ × System
submit_run env org_id key args provisional sys = elim (find_existing_job_id org_id key sys.jobs) [
  | some existing ↦ (ok existing, sys)
  | none ↦
      let (passed, inflight') =
        guard_inflight env.redis env.progress env.heavy_limit (task_queue_by_kind run_task)
          (some provisional) sys.jobs sys.inflight in
      elim passed [
        | err e ↦ (err e, record sys { inflight = inflight' })
        | ok _ ↦
            create_run env org_id key args provisional
              (record sys { inflight = env.others_inflight inflight' })
      ]
]
