-- ===== src/Lifecycle.antt =====
-- The later life of a job: `_set_job_status_async` of backend/app/task_handlers.py, and
-- `cleanup_completed_jobs_async` of backend/app/services/task_queue.py.
pub mod Cleanup
pub mod Updates
use cgraph.Prelude.{
  ℕ, ◌+◌, Bool, true, false, not, ◌&&◌, ◌||◌, Option, none, some, List, [], ◌∷◌, ◌++◌, map, ◌==◌,
  ltb, leb, if◌then◌else◌, drop,
}
use cgraph.Prelude.Rows.{select, first, any, update_first}
use cgraph.Text.{Text}
use cgraph.Errors.{Result, ok, err, internal}
use cgraph.Jobs.{
  TaskJob, Status, succeeded, failed, pending, running, is_heavy, Queue, Queue.medium,
}
use cgraph.Inflight.{sadd, srem}

-- `status IN ('succeeded', 'failed')`
abbrev pub is_final : Status → Bool
is_final succeeded = true
is_final failed = true
is_final _ = false

-- `completed_at < now - ttl`, which is not true of NULL
abbrev pub is_older : ℕ → ℕ → Option ℕ → Bool
is_older now ttl none = false
is_older now ttl (some t) = ltb (t + ttl) now

-- `DELETE … WHERE`
abbrev pub delete_where : (TaskJob → Bool) → List TaskJob → List TaskJob
delete_where p jobs = select (λ j. not (p j)) jobs

-- `ORDER BY completed_at DESC`, in which NULL stands first
abbrev pub comes_first : Option ℕ → Option ℕ → Bool
comes_first none b = true
comes_first (some x) none = false
comes_first (some x) (some y) = leb y x

unfoldable pub insert_newest : TaskJob → List TaskJob → List TaskJob
insert_newest j [] = j ∷ []
insert_newest j (i ∷ jobs) =
    let rest = insert_newest j jobs in
    if comes_first j.completed_at i.completed_at then j ∷ i ∷ jobs else i ∷ rest

unfoldable pub newest_first : List TaskJob → List TaskJob
unfolding insert_newest
newest_first [] = []
newest_first (j ∷ jobs) = insert_newest j (newest_first jobs)

abbrev pub has_id : List ℕ → TaskJob → Bool
has_id ids j = any (λ i. i == j.id) ids

unfoldable pub delete_expired : ℕ → Option ℕ → List TaskJob → List TaskJob
delete_expired now none jobs = jobs
delete_expired now (some ttl) jobs =
    delete_where (λ j. is_final j.status && is_older now ttl j.completed_at) jobs

unfoldable pub delete_surplus : Option ℕ → List TaskJob → List TaskJob
delete_surplus none jobs = jobs
delete_surplus (some max_completed) jobs =
    let ids_to_delete =
      map (λ j. j.id) (drop max_completed (newest_first (select (λ j. is_final j.status) jobs))) in
    delete_where (has_id ids_to_delete) jobs

-- `cleanup_completed_jobs_async`; with neither setting both steps are void.
unfoldable pub cleanup_completed_jobs : ℕ → Option ℕ → Option ℕ → List TaskJob → List TaskJob
cleanup_completed_jobs now ttl max_completed jobs =
    delete_surplus max_completed (delete_expired now ttl jobs)

-- The arguments of `_set_job_status_async`, the JSON texts already written out. `error_payload` has
-- the text of the payload and its message, if that is a string.
pub record Update : Type 0 where
  pub status : Status
  pub org_id : Option ℕ
  pub result_json : Option Text
  pub error : Option Text
  pub error_payload : Option (Text × Option Text)

-- `if new is not None: old = new`
abbrev pub over {ℓ} : {A : Type ℓ} → Option A → Option A → Option A
over none old = old
over (some a) old = some a

-- `not job.error`
abbrev pub is_blank : Option Text → Bool
is_blank none = true
is_blank (some []) = true
is_blank (some (c ∷ s)) = false

abbrev pub with_payload : Option (Text × Option Text) → TaskJob → TaskJob
with_payload none j = j
with_payload (some (json, none)) j = record j { error_json = some json }
with_payload (some (json, some message)) j = record j {
  error_json = some json;
  error = if is_blank j.error then some message else j.error;
}

abbrev pub apply_update : ℕ → Update → TaskJob → TaskJob
apply_update now u j =
    let stamped = record j {
      status = u.status;
      updated_at = now;
      completed_at = if is_final u.status then some now else j.completed_at;
      error = over u.error j.error;
    } in
    let explained = with_payload u.error_payload stamped in
    record explained { result_json = over u.result_json explained.result_json }

abbrev pub is_pending : Status → Bool
is_pending pending = true
is_pending _ = false

-- the Redis calls, for a job of the heavy queue
abbrev pub touch : Status → ℕ → List ℕ → List ℕ
touch running job_id s = sadd job_id s
touch pending job_id s = s
touch _ job_id s = srem job_id s

-- `TaskJob(id=job_id, org_id=org_id, status=status)` with the defaults of the model
abbrev pub blank_job : ℕ → ℕ → ℕ → Status → TaskJob
blank_job now job_id org_id status = record {
  id = job_id;
  org_id = org_id;
  status = status;
  queue = Queue.medium;
  idempotency_key = none;
  result_json = none;
  error = none;
  error_json = none;
  created_at = now;
  updated_at = now;
  completed_at = none;
}

pub record Store : Type 0 where
  pub jobs : List TaskJob
  pub inflight : List ℕ

pub record Settings : Type 0 where
  pub completed_ttl : Option ℕ
  pub max_completed : Option ℕ

-- the row that is written to, which may be new
unfoldable pub load_job : ℕ → ℕ → Update → List TaskJob → Result (List TaskJob × TaskJob)
load_job now job_id u jobs = elim (first (λ j. j.id == job_id) jobs) [
  | some j ↦ ok (jobs, j)
  | none ↦ elim u.org_id [
    | none ↦ err internal
    | some org_id ↦ let j = blank_job now job_id org_id u.status in ok (jobs ++ (j ∷ []), j)
  ]
]

abbrev pub committed : ℕ → Settings → Update → ℕ → List TaskJob → List ℕ → Store
committed now settings u job_id jobs inflight =
    let written = update_first (λ j. j.id == job_id) (apply_update now u) jobs in
    record {
      jobs =
          if is_final u.status
          then cleanup_completed_jobs now settings.completed_ttl settings.max_completed written
          else written;
      inflight = inflight;
    }

-- `_set_job_status_async`; `unavailable` is a Redis command that raises, before the commit.
unfoldable pub set_job_status : ℕ → Settings → Bool → ℕ → Update → Store → Result (Unit {0}) × Store
unfolding load_job
set_job_status now settings unavailable job_id u store = elim (load_job now job_id u store.jobs) [
  | err e ↦ (err e, store)
  | ok (jobs, j) ↦
      if is_heavy j.queue && not (is_pending u.status)
      then (if unavailable
          then (err internal, store)
          else (ok tt, committed now settings u job_id jobs (touch u.status job_id store.inflight)))
      else (ok tt, committed now settings u job_id jobs store.inflight)
]
