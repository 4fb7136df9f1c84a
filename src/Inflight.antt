-- ===== src/Inflight.antt =====
-- The Redis set of heavy tasks in flight, with its guard, release and reconciliation
-- (backend/app/services/task_queue.py).
pub mod Bounds
use cgraph.Prelude.{
  ℕ, Bool, true, false, ◌&&◌, Option, none, some, List, [], ◌∷◌, map, ◌==◌, leb, if◌then◌else◌,
  length,
}
use cgraph.Prelude.Rows.{select, any}
use cgraph.Errors.{
  Result, ok, err, bad_request, external_service, no_job_id, heavy_limit, queue_check_failed,
}
use cgraph.Jobs.{TaskJob, Queue, Queue.light, Queue.medium, Queue.heavy, is_heavy, is_active}

-- the Redis set commands SISMEMBER, SADD and SREM
abbrev pub sismember : ℕ → List ℕ → Bool
sismember x s = any (λ y. y == x) s

abbrev pub sadd : ℕ → List ℕ → List ℕ
sadd x s = if sismember x s then s else x ∷ s

abbrev pub srem : ℕ → List ℕ → List ℕ
srem x [] = []
srem x (y ∷ s) = let rest = srem x s in if y == x then rest else y ∷ rest

abbrev pub sadd_all : List ℕ → List ℕ
sadd_all [] = []
sadd_all (x ∷ xs) = sadd x (sadd_all xs)

-- the Lua script of `_try_add_inflight`
unfoldable pub try_add_inflight : ℕ → ℕ → List ℕ → Bool × List ℕ
try_add_inflight limit job_id s = if leb limit (length s) then (false, s) else (true, sadd job_id s)

abbrev pub active_heavy_ids : List TaskJob → List ℕ
active_heavy_ids jobs = map (λ j. j.id) (select (λ j. is_heavy j.queue && is_active j.status) jobs)

-- How far a reconciliation comes before a database or Redis call raises.
pub data Progress : Type 0 where
  completes stops_first stops_after_delete : Progress

-- `_reconcile_heavy_inflight_async`; the caller catches what it raises.
unfoldable pub reconcile_heavy_inflight : Progress → List TaskJob → List ℕ → List ℕ
reconcile_heavy_inflight stops_first jobs s = s
reconcile_heavy_inflight completes jobs s =
    let active_ids = active_heavy_ids jobs in
    if length s == length active_ids then s else sadd_all active_ids
reconcile_heavy_inflight stops_after_delete jobs s =
    let active_ids = active_heavy_ids jobs in if length s == length active_ids then s else []

-- How an `eval` ends: with an answer, or with a `RedisError`, where the script may have run all the same.
pub data Attempt : Type 0 where
  answers : Attempt
  raises : (has_run : Bool) → Attempt

-- the first and the second `eval`
pub record Redis : Type 0 where
  pub first_attempt : Attempt
  pub second_attempt : Attempt

unfoldable pub eval_script : Attempt → ℕ → ℕ → List ℕ → Result Bool × List ℕ
unfolding try_add_inflight
eval_script answers limit job_id s =
    let (added, s') = try_add_inflight limit job_id s in (ok added, s')
eval_script (raises has_run) limit job_id s = (
  err (external_service queue_check_failed),
  if has_run then (try_add_inflight limit job_id s).1 else s,
)

-- the two attempts of `_guard_inflight_async`
unfoldable pub admit : Redis → Progress → ℕ → ℕ → List TaskJob → List ℕ → Result Bool × List ℕ
unfolding eval_script
admit redis progress limit job_id jobs s =
    let (added, s') = eval_script redis.first_attempt limit job_id s in
    elim added [
      | err e ↦ (err e, s')
      | ok is_in ↦
          if is_in
          then (ok true, s')
          else eval_script redis.second_attempt limit job_id
              (reconcile_heavy_inflight progress jobs s')
    ]

-- `_guard_inflight_async`
unfoldable pub guard_inflight :
    Redis
    → Progress
    → Option ℕ
    → Queue
    → Option ℕ
    → List TaskJob
    → List ℕ
    → Result (Unit {0}) × List ℕ
guard_inflight redis progress limit light job_id jobs s = (ok tt, s)
guard_inflight redis progress limit medium job_id jobs s = (ok tt, s)
guard_inflight redis progress none heavy job_id jobs s = (ok tt, s)
guard_inflight redis progress (some limit) heavy none jobs s = (err (bad_request no_job_id), s)
guard_inflight redis progress (some limit) heavy (some job_id) jobs s =
    let (added, s') = admit redis progress limit job_id jobs s in
    elim added [
      | err e ↦ (err e, s')
      | ok is_in ↦ if is_in then (ok tt, s') else (err (bad_request heavy_limit), s')
    ]

-- `_release_inflight_async`; a `RedisError` is logged and dropped.
unfoldable pub release_inflight : Bool → Queue → ℕ → List ℕ → List ℕ
release_inflight unavailable queue job_id s =
    if is_heavy queue then (if unavailable then s else srem job_id s) else s
