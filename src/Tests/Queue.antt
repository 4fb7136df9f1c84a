-- ===== src/Tests/Queue.antt =====
-- The theorems on the task queue at a system with one run under way.
use cgraph.Prelude.{ℕ, ◌≤◌, ◌≡◌, refl, true, false, ◌⊎◌, none, some, List, [], ◌∷◌, arith, length}
use cgraph.Prelude.Rows.{select}
use cgraph.Errors.{ok, err, cancelled, external_service, enqueue_failed, timeout}
use cgraph.Jobs.{
  TaskJob, new_job, Queue.heavy, find_existing_job_id, create_job, Others, running, succeeded,
  is_active, commits,
}
use cgraph.Inflight.{Redis, answers, eval_script, completes, sismember, guard_inflight, admit}
use cgraph.Inflight.Bounds.{Guarded, guard_inflight-Guarded}
use cgraph.Queue.{
  System, Env, Delivery, delivered, timed_out, stopped, submit_run, create_run, publish_run,
  enqueue_with_error_mapping,
}
use cgraph.Queue.Success.{Fresh, Raced, submit_run-ok}
use cgraph.Queue.Failure.{submit_run-err}
use cgraph.Lifecycle.{cleanup_completed_jobs, is_final, Update, Store, Settings}
use cgraph.Lifecycle.Cleanup.{IsKeyed, cleanup_completed_jobs-keeps}

abbrev old_run : TaskJob
old_run = record (new_job 0 1 heavy (some 70) 100) { status = running }

abbrev done : TaskJob
done = record (new_job 0 1 heavy (some 71) 90) { status = succeeded; completed_at = some 3 }

abbrev alone : Others
alone = record {
  before_commit = λ jobs. jobs;
  after_rollback = λ jobs. jobs;
  between_sessions = λ jobs. jobs;
  commit = commits;
}

abbrev works : Redis
works = record { first_attempt = answers; second_attempt = answers }

abbrev env : Delivery → Env
env delivery = record {
  now = 9;
  others = alone;
  others_inflight = λ s. s;
  redis = works;
  release_unavailable = false;
  progress = completes;
  heavy_limit = some 2;
  delivery = delivery;
  mark_fails = false;
}

abbrev busy : System
busy = record { jobs = old_run ∷ done ∷ []; inflight = 100 ∷ []; broker = [] }

submitted : (submit_run (env delivered) 1 72 [] 101 busy).0 ≡ ok 101
unfolding submit_run find_existing_job_id guard_inflight admit eval_script create_run create_job
    publish_run enqueue_with_error_mapping
submitted = refl

timed :
    (submit_run (env (timed_out false)) 1 72 [] 101 busy).0
    ≡ err (external_service (enqueue_failed timeout))
unfolding submit_run find_existing_job_id guard_inflight admit eval_script create_run create_job
    publish_run enqueue_with_error_mapping
timed = refl

stopped_run : (create_run (env (stopped false true)) 1 72 [] 101 busy).0 ≡ err cancelled
unfolding create_run create_job publish_run enqueue_with_error_mapping
stopped_run = refl

busy-IsKeyed : IsKeyed busy.jobs
busy-IsKeyed i = ground arith

submit_run-ok_example :
    let sys' = (submit_run (env delivered) 1 72 [] 101 busy).1 in
    ((find_existing_job_id 1 72 busy.jobs ≡ some 101) × (sys' ≡ busy))
    ⊎ (((◌≡◌ {A = ℕ} 101 101)
          × Fresh (env delivered) 1 72 [] 101 busy sys'
          × ((s : List ℕ) × (sismember 101 s ≡ true) × (length s ≤ 2) × (sys'.inflight ≡ s)))
        ⊎ Raced (env delivered) 1 72 101 busy 101 sys')
submit_run-ok_example = submit_run-ok (env delivered) 2 1 72 [] 101 busy 101 refl submitted

submit_run-err_example :
    (sismember 101 (submit_run (env (timed_out false)) 1 72 [] 101 busy).1.inflight ≡ false)
    × (find_existing_job_id 1 72 (submit_run (env (timed_out false)) 1 72 [] 101 busy).1.jobs
        ≡ none)
submit_run-err_example =
    submit_run-err (env (timed_out false)) 2 1 72 [] 101 busy
      (external_service (enqueue_failed timeout)) refl refl refl refl refl refl refl (cc) timed

guard_inflight-Guarded_example :
    Guarded works 1 101 busy.jobs
      (100 ∷ 5 ∷ [])
      (guard_inflight works completes (some 1) heavy (some 101) busy.jobs (100 ∷ 5 ∷ []))
guard_inflight-Guarded_example =
    guard_inflight-Guarded works completes 1 101 busy.jobs (100 ∷ 5 ∷ [])

cleanup_completed_jobs-keeps_example :
    (select (λ j. is_active j.status) (cleanup_completed_jobs 9 (some 5) (some 0) busy.jobs)
      ≡ select (λ j. is_active j.status) busy.jobs)
    × (length
          (select (λ j. is_final j.status) (cleanup_completed_jobs 9 (some 5) (some 0) busy.jobs))
        ≤ 0)
cleanup_completed_jobs-keeps_example =
    cleanup_completed_jobs-keeps 9 (some 5) 0 busy.jobs busy-IsKeyed

abbrev finished : Update
finished = record {
  status = succeeded;
  org_id = some 1;
  result_json = none;
  error = none;
  error_payload = none;
}

abbrev settings : Settings
settings = record { completed_ttl = none; max_completed = some 1 }

abbrev store : Store
store = record { jobs = busy.jobs; inflight = 100 ∷ 7 ∷ [] }
