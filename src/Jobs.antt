-- ===== src/Jobs.antt =====
-- The table `taskjob`: its rows, the two look-ups by idempotency key, the insertion of
-- `_create_job_async`, and the queue names (backend/app/services/task_queue.py,
-- backend/app/task_queues.py, backend/app/models.py).
use cgraph.Prelude.{
  ℕ, Bool, true, false, ◌&&◌, ◌||◌, Option, none, some, List, [], ◌∷◌, ◌++◌, ◌==◌, if◌then◌else◌,
}
use cgraph.Prelude.Rows.{first, any}
use cgraph.Text.{Text}
use cgraph.Errors.{Exception, Result, ok, err, internal}

pub data Queue : Type 0 where
  light medium heavy : Queue

-- `queue == QUEUE_HEAVY`
abbrev pub is_heavy : Queue → Bool
is_heavy heavy = true
is_heavy _ = false

pub data Kind : Type 0 where
  run_task scan docs snapshot_import mutation_indexing : Kind

-- `TASK_QUEUE_BY_KIND`
abbrev pub task_queue_by_kind : Kind → Queue
task_queue_by_kind run_task = heavy
task_queue_by_kind docs = light
task_queue_by_kind _ = medium

pub data Status : Type 0 where
  pending running succeeded failed : Status

-- `status IN ('pending', 'running')`
abbrev pub is_active : Status → Bool
is_active pending = true
is_active running = true
is_active _ = false

-- A task id is a number for its `uuid4().hex`, an idempotency key one for its sha256 digest.
pub record TaskJob : Type 0 where
  pub id : ℕ
  pub org_id : ℕ
  pub status : Status
  pub queue : Queue
  pub idempotency_key : Option ℕ
  pub result_json : Option Text
  pub error : Option Text
  pub error_json : Option Text
  pub created_at : ℕ
  pub updated_at : ℕ
  pub completed_at : Option ℕ

-- `idempotency_key = :key`, which is not true of NULL
abbrev pub has_key : ℕ → Option ℕ → Bool
has_key key none = false
has_key key (some k) = k == key

abbrev pub is_active_job : ℕ → ℕ → TaskJob → Bool
is_active_job org_id key j =
    j.org_id == org_id && (has_key key j.idempotency_key && is_active j.status)

unfoldable pub find_existing_job_id : ℕ → ℕ → List TaskJob → Option ℕ
find_existing_job_id org_id key jobs = elim (first (is_active_job org_id key) jobs) [
  | some j ↦ some j.id
  | none ↦ none
]

unfoldable pub find_existing_job : ℕ → ℕ → List TaskJob → Option (ℕ × Status)
find_existing_job org_id key jobs = elim (first (is_active_job org_id key) jobs) [
  | some j ↦ some (j.id, j.status)
  | none ↦ none
]

-- How a commit ends that violates no index; `lands` says whether one that raises is in the table.
pub data Commit : Type 0 where
  commits : Commit
  raises : (lands : Bool) (e : Exception) → Commit

-- What other sessions commit while this one waits: before its commit, between its rollback and its
-- next query, and before a second session of the same request opens; and how its own commit ends.
pub record Others : Type 0 where
  pub before_commit : List TaskJob → List TaskJob
  pub after_rollback : List TaskJob → List TaskJob
  pub between_sessions : List TaskJob → List TaskJob
  pub commit : Commit

-- the primary key and the unique index over the active jobs
abbrev pub violates : TaskJob → List TaskJob → Bool
violates job jobs = any (λ j. j.id == job.id) jobs || elim job.idempotency_key [
  | none ↦ false
  | some key ↦ any (is_active_job job.org_id key) jobs
]

abbrev pub new_job : ℕ → ℕ → Queue → Option ℕ → ℕ → TaskJob
new_job now org_id queue idempotency_key task_id = record {
  id = task_id;
  org_id = org_id;
  status = pending;
  queue = queue;
  idempotency_key = idempotency_key;
  result_json = none;
  error = none;
  error_json = none;
  created_at = now;
  updated_at = now;
  completed_at = none;
}

-- the handler of the `IntegrityError` in `_create_job_async`
unfoldable pub existing_after_rollback : ℕ → Option ℕ → List TaskJob → Result (ℕ × Bool)
unfolding find_existing_job_id
existing_after_rollback org_id none jobs = err internal
existing_after_rollback org_id (some key) jobs = elim (find_existing_job_id org_id key jobs) [
  | some existing ↦ ok (existing, false)
  | none ↦ err internal
]

unfoldable pub create_job :
    Others → ℕ → ℕ → Queue → Option ℕ → ℕ → List TaskJob → Result (ℕ × Bool) × List TaskJob
create_job others now org_id queue idempotency_key task_id jobs =
    let job = new_job now org_id queue idempotency_key task_id in
    let seen = others.before_commit jobs in
    let rolled_back = others.after_rollback seen in
    if violates job seen
    then (existing_after_rollback org_id idempotency_key rolled_back, rolled_back)
    else elim others.commit [
      | commits ↦ (ok (task_id, true), seen ++ (job ∷ []))
      | raises lands e ↦ (err e, if lands then seen ++ (job ∷ []) else seen)
    ]
