-- ===== src/Queue/Failure.antt =====
-- What a failed submission of a run leaves behind (backend/app/services/task_queue.py).
use cgraph.Prelude.{ℕ, ◌≡◌, ◌≢◌, refl, false, none, some, List, [], ◌∷◌, ◌++◌, arith, ◌==◌}
use cgraph.Prelude.Rows.{first-append, first-of-not-any, update_first-append}
use cgraph.Text.{Text}
use cgraph.Errors.{Exception, err, cancelled, external_service, enqueue_failed}
use cgraph.Jobs.{
  TaskJob, run_task, is_active_job, task_queue_by_kind, find_existing_job_id, create_job, violates,
  commits, existing_after_rollback,
}
use cgraph.Inflight.{guard_inflight, release_inflight, sismember, active_heavy_ids}
use cgraph.Inflight.Bounds.{has_run_unseen, guard_inflight-Guarded, sismember-srem}
use cgraph.Queue.{
  Message, System, Delivery, delivered, broken, timed_out, stopped, Env, EnqueueError,
  timeout_error, cancelled_error, producer_error, classify_enqueue_failure, mark_enqueue_failure,
  marked_failed, str, enqueue_with_error_mapping, publish_run, create_run, submit_run,
}
use cgraph.Queue.Success.{run_job, run_message}

-- The row of the job, once marked, is no active job, and there was none with its key before.
mark_enqueue_failure-frees_key :
    (env : Env) (org_id key id : ℕ) (exc : EnqueueError) (seen : List TaskJob)
    → env.mark_fails ≡ false
    → violates (run_job env org_id key id) seen ≡ false
    → find_existing_job_id org_id key
        (mark_enqueue_failure env id exc (seen ++ (run_job env org_id key id ∷ [])))
      ≡ none
unfolding mark_enqueue_failure find_existing_job_id
mark_enqueue_failure-frees_key env org_id key id exc seen marks free =
    let job = run_job env org_id key id in
    ground (
      arith,
      update_first-append (λ (j : TaskJob). j.id == id) (marked_failed env.now (str exc)) seen job,
      first-of-not-any (is_active_job org_id key) seen,
      first-append (is_active_job org_id key) seen (marked_failed env.now (str exc) job),
    )

-- Which exception a failed delivery is handled as.
enqueue_with_error_mapping-err :
    (env : Env) (message : Message) (sys : System) (e : Exception)
    → e ≢ cancelled
    → (enqueue_with_error_mapping env message sys).0 ≡ err e
    → (exc : EnqueueError) × (e ≡ external_service (enqueue_failed (classify_enqueue_failure exc)))
      × ((enqueue_with_error_mapping env message sys).1.inflight ≡ sys.inflight)
      × ((enqueue_with_error_mapping env message sys).1.jobs
          ≡ mark_enqueue_failure env message.task_id exc sys.jobs)
unfolding enqueue_with_error_mapping
enqueue_with_error_mapping-err env message sys e ne h = go env.delivery refl
  where
    go :
        (d : Delivery)
        → env.delivery ≡ d
        → (exc : EnqueueError) × (e
            ≡ external_service (enqueue_failed (classify_enqueue_failure exc)))
          × ((enqueue_with_error_mapping env message sys).1.inflight ≡ sys.inflight)
          × ((enqueue_with_error_mapping env message sys).1.jobs
              ≡ mark_enqueue_failure env message.task_id exc sys.jobs)
    go delivered eq = absurd (ground arith)
    go (broken reached reason) eq =
        (producer_error reason, ground arith, ground arith, ground arith)
    go (timed_out reached) eq = (timeout_error, ground arith, ground arith, ground arith)
    go (stopped reached cancelling) eq = (cancelled_error, ground arith, ground arith, ground arith)

publish_run-err :
    (env : Env) (org_id key : ℕ) (args : Text) (id : ℕ) (sys : System) (seen : List TaskJob)
    (e : Exception)
    → env.mark_fails ≡ false
    → env.release_unavailable ≡ false
    → e ≢ cancelled
    → violates (run_job env org_id key id) seen ≡ false
    → sys.jobs ≡ seen ++ (run_job env org_id key id ∷ [])
    → (publish_run env args id sys).0 ≡ err e
    → (sismember id (publish_run env args id sys).1.inflight ≡ false)
      × (find_existing_job_id org_id key (publish_run env args id sys).1.jobs ≡ none)
unfolding publish_run release_inflight
publish_run-err env org_id key args id sys seen e marks releases ne free added h =
    let message = run_message args id in
    let (exc, kind, inflight, jobs) =
      enqueue_with_error_mapping-err env message sys e ne (ground arith) in
    ground (
      arith,
      sismember-srem id id sys.inflight,
      mark_enqueue_failure-frees_key env org_id key id exc seen marks free,
    )

create_run-err :
    (env : Env) (org_id key : ℕ) (args : Text) (provisional : ℕ) (sys : System) (e : Exception)
    → env.mark_fails ≡ false
    → env.release_unavailable ≡ false
    → env.others.commit ≡ commits
    → e ≢ cancelled
    → (create_run env org_id key args provisional sys).0 ≡ err e
    → (sismember provisional (create_run env org_id key args provisional sys).1.inflight ≡ false)
      × (find_existing_job_id org_id key (create_run env org_id key args provisional sys).1.jobs
          ≡ none)
unfolding create_run create_job existing_after_rollback release_inflight
create_run-err env org_id key args provisional sys e marks releases commits_there ne h =
    let seen = env.others.before_commit sys.jobs in
    ground (
      arith,
      sismember-srem provisional provisional sys.inflight,
      publish_run-err env org_id key args provisional
          (record sys { jobs = seen ++ (run_job env org_id key provisional ∷ []) }) seen e marks
          releases ne,
    )

-- A run whose submission fails, other than by a cancellation, under a limit and with Redis and the
-- database there to take the clean-up, has no place in the set of heavy tasks, if it had none and the
-- active jobs give it none, and no active job has its key, so that the same submission can be made again;
-- where its commit fails only by an index, and no script of the guard has run whose call has raised.
pub submit_run-err :
    (env : Env) (limit org_id key : ℕ) (args : Text) (provisional : ℕ) (sys : System)
    (e : Exception)
    → env.heavy_limit ≡ some limit
    → env.mark_fails ≡ false
    → env.release_unavailable ≡ false
    → env.others.commit ≡ commits
    → has_run_unseen env.redis ≡ false
    → sismember provisional sys.inflight ≡ false
    → sismember provisional (active_heavy_ids sys.jobs) ≡ false
    → e ≢ cancelled
    → (submit_run env org_id key args provisional sys).0 ≡ err e
    → (sismember provisional (submit_run env org_id key args provisional sys).1.inflight ≡ false)
      × (find_existing_job_id org_id key (submit_run env org_id key args provisional sys).1.jobs
          ≡ none)
unfolding submit_run
submit_run-err env limit org_id key args provisional sys e lim marks releases commits_there unseen
      out idle ne h =
    let (passed, inflight') =
      guard_inflight env.redis env.progress (some limit) (task_queue_by_kind run_task)
        (some provisional) sys.jobs sys.inflight in
    ground (
      arith,
      guard_inflight-Guarded env.redis env.progress limit provisional sys.jobs sys.inflight,
      create_run-err env org_id key args provisional
          (record sys { inflight = env.others_inflight inflight' }) e marks releases commits_there
          ne,
    )

-- A submission that is cancelled while it publishes a new run leaves the job pending, so that a later
-- submission with the key returns its id, and keeps its place in the set, whether the broker has got
-- the message or not.
create_run-cancelled :
    (env : Env) (org_id key : ℕ) (args : Text) (provisional : ℕ) (sys : System)
    → env.others.commit ≡ commits
    → (create_run env org_id key args provisional sys).0 ≡ err cancelled
    → (find_existing_job_id org_id key (create_run env org_id key args provisional sys).1.jobs
        ≡ some provisional)
      × ((create_run env org_id key args provisional sys).1.inflight ≡ sys.inflight)
unfolding create_run create_job existing_after_rollback publish_run enqueue_with_error_mapping
    find_existing_job_id
create_run-cancelled env org_id key args provisional sys commits_there h =
    let seen = env.others.before_commit sys.jobs in
    ground (
      arith,
      first-of-not-any (is_active_job org_id key) seen,
      first-append (is_active_job org_id key) seen (run_job env org_id key provisional),
    )
