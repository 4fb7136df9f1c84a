-- ===== src/Queue/Success.antt =====
-- What a successful submission of a run leaves behind (backend/app/services/task_queue.py).
use cgraph.Prelude.{
  ℕ, ◌≤◌, ◌≡◌, true, not, ◌||◌, ◌⊎◌, none, some, List, [], ◌∷◌, ◌++◌, arith, length, Option-cases,
  inl, inr, ap, sym, ◌∙◌,
}
use cgraph.Text.{Text}
use cgraph.Errors.{Result, ok}
use cgraph.Jobs.{
  TaskJob, run_task, task_queue_by_kind, find_existing_job_id, create_job, pending, Queue.heavy,
  existing_after_rollback,
}
use cgraph.Inflight.{guard_inflight, release_inflight, sismember}
use cgraph.Inflight.Bounds.{guard_inflight-Guarded, sismember-srem}
use cgraph.Queue.{
  Message, System, Env, enqueue_with_error_mapping, publish_run, create_run, submit_run,
}

abbrev pub run_message : Text → ℕ → Message
run_message args task_id = record {
  task_name = run_task;
  task_id = task_id;
  args = args;
  queue = task_queue_by_kind run_task;
}

abbrev pub run_job : Env → ℕ → ℕ → ℕ → TaskJob
run_job env org_id key task_id = record {
  id = task_id;
  org_id = org_id;
  status = pending;
  queue = heavy;
  idempotency_key = some key;
  result_json = none;
  error = none;
  error_json = none;
  created_at = env.now;
  updated_at = env.now;
  completed_at = none;
}

-- A new run: its job is the last row, pending, and the broker has got its message and nothing else.
abbrev pub Fresh : Env → ℕ → ℕ → Text → ℕ → System → System → Type 0
Fresh env org_id key args id sys sys' =
    (sys'.jobs ≡ env.others.before_commit sys.jobs ++ (run_job env org_id key id ∷ []))
    × (sys'.broker ≡ sys.broker ++ (run_message args id ∷ []))

publish_run-ok :
    (env : Env) (args : Text) (job_id : ℕ) (sys : System) (id : ℕ)
    → (publish_run env args job_id sys).0 ≡ ok id
    → (id ≡ job_id)
      × ((publish_run env args job_id sys).1.jobs ≡ sys.jobs)
      × ((publish_run env args job_id sys).1.inflight ≡ sys.inflight)
      × ((publish_run env args job_id sys).1.broker ≡ sys.broker ++ (run_message args job_id ∷ []))
unfolding publish_run enqueue_with_error_mapping
publish_run-ok env args job_id sys id h = ground arith

-- The row of another session has won the race: its id is returned, nothing is sent, and the place
-- in the set is given back unless Redis is out of reach.
abbrev pub Raced : Env → ℕ → ℕ → ℕ → System → ℕ → System → Type 0
Raced env org_id key provisional sys id sys' =
    (find_existing_job_id org_id key sys'.jobs ≡ some id)
    × (sys'.broker ≡ sys.broker)
    × ((env.release_unavailable || not (sismember provisional sys'.inflight)) ≡ true)

create_run-ok :
    (env : Env) (org_id key : ℕ) (args : Text) (provisional : ℕ) (sys : System) (id : ℕ)
    → (create_run env org_id key args provisional sys).0 ≡ ok id
    → ((id ≡ provisional)
        × ((create_run env org_id key args provisional sys).1.inflight ≡ sys.inflight)
        × Fresh env org_id key args provisional sys
            (create_run env org_id key args provisional sys).1)
      ⊎ Raced env org_id key provisional sys id (create_run env org_id key args provisional sys).1
unfolding create_run create_job existing_after_rollback release_inflight
create_run-ok env org_id key args provisional sys id h = ground (
  arith,
  sismember-srem provisional provisional sys.inflight,
  publish_run-ok env args provisional
      (record sys {
        jobs = env.others.before_commit sys.jobs ++ (run_job env org_id key provisional ∷ []);
      })
      id,
)

abbrev guarded : Env → ℕ → ℕ → System → Result (Unit {0}) × List ℕ
guarded env limit provisional sys =
    guard_inflight env.redis env.progress (some limit) (task_queue_by_kind run_task)
      (some provisional) sys.jobs sys.inflight

-- past the look-up and the guard
submit_run-create_run :
    (env : Env) (limit org_id key : ℕ) (args : Text) (provisional : ℕ) (sys : System) (id : ℕ)
    → env.heavy_limit ≡ some limit
    → find_existing_job_id org_id key sys.jobs ≡ none
    → (submit_run env org_id key args provisional sys).0 ≡ ok id
    → (submit_run env org_id key args provisional sys
        ≡ create_run env org_id key args provisional
            (record sys { inflight = env.others_inflight (guarded env limit provisional sys).1 }))
      × (sismember provisional (guarded env limit provisional sys).1 ≡ true)
      × (length (guarded env limit provisional sys).1 ≤ limit)
unfolding submit_run
submit_run-create_run env limit org_id key args provisional sys id lim absent h =
    ground
      (arith, guard_inflight-Guarded env.redis env.progress limit provisional sys.jobs sys.inflight)

-- A run that is submitted with success under a limit is one of three. An active job with its key
-- was there: its id is returned and nothing changes. Or the run is new: its job is added, pending,
-- the broker gets its message and nothing else, and it is given a place in the set of heavy tasks,
-- which then holds at most `limit`, and of which other sessions make what they do meanwhile. Or another session has committed a job with the key first: that
-- job's id is returned, nothing is sent, and the place in the set is given back, unless Redis is
-- out of reach.
pub submit_run-ok :
    (env : Env) (limit org_id key : ℕ) (args : Text) (provisional : ℕ) (sys : System) (id : ℕ)
    → env.heavy_limit ≡ some limit
    → (submit_run env org_id key args provisional sys).0 ≡ ok id
    → let sys' = (submit_run env org_id key args provisional sys).1 in
      ((find_existing_job_id org_id key sys.jobs ≡ some id) × (sys' ≡ sys))
      ⊎ (((id ≡ provisional)
            × Fresh env org_id key args provisional sys sys'
            × ((s : List ℕ) × (sismember id s ≡ true)
                × (length s ≤ limit)
                × (sys'.inflight ≡ env.others_inflight s)))
          ⊎ Raced env org_id key provisional sys id sys')
submit_run-ok env limit org_id key args provisional sys id lim h =
    elim (Option-cases (find_existing_job_id org_id key sys.jobs)) [
      | inr (existing, found) ↦ inl (unfold submit_run in ground arith)
      | inl absent ↦
          let (same, placed, bound) =
            submit_run-create_run env limit org_id key args provisional sys id lim absent h in
          let s = (guarded env limit provisional sys).1 in
          let before = record sys { inflight = env.others_inflight s } in
          inr (
            rw same
              (elim (create_run-ok env org_id key args provisional before id
                (ap (λ r. r.0) (sym same) ∙ h)) [
                  | inl (mine, kept, fresh) ↦
                      inl (mine, fresh, (s, ap (λ i. sismember i s) mine ∙ placed, bound, kept))
                  | inr raced ↦ inr raced
                ]))
    ]
