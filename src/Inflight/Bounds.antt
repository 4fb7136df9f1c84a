-- ===== src/Inflight/Bounds.antt =====
-- The limit on heavy tasks in flight (backend/app/services/task_queue.py).
use cgraph.Prelude.{
  ℕ, ◌≤◌, ◌≡◌, refl, Bool, true, false, not, ◌&&◌, ◌||◌, ◌⊎◌, some, List, [], ◌∷◌, arith, length,
  ◌==◌, if◌then◌else◌,
}
use cgraph.Errors.{Result, ok, err, bad_request, external_service, heavy_limit, queue_check_failed}
use cgraph.Jobs.{TaskJob, Queue.heavy}
use cgraph.Inflight.{
  sismember, sadd, srem, sadd_all, active_heavy_ids, Progress, completes, stops_first,
  stops_after_delete, reconcile_heavy_inflight, admit, guard_inflight, Redis, answers, raises,
  eval_script,
}

sismember-sadd :
    (x y : ℕ) (s : List ℕ) → sismember y (sadd x s) ≡ (if x == y then true else sismember y s)
sismember-sadd x y s = ground arith

pub sismember-srem :
    (x y : ℕ) (s : List ℕ) → sismember y (srem x s) ≡ (if x == y then false else sismember y s)
sismember-srem x y [] = ground arith
sismember-srem x y (z ∷ s) = ground (arith, sismember-srem x y s)

sismember-sadd_all : (y : ℕ) (xs : List ℕ) → sismember y (sadd_all xs) ≡ sismember y xs
sismember-sadd_all y [] = refl
sismember-sadd_all y (x ∷ xs) =
    ground (arith, sismember-sadd x y (sadd_all xs), sismember-sadd_all y xs)

-- Has a script run whose `eval` raises?
abbrev pub has_run_unseen : Redis → Bool
has_run_unseen redis =
    elim redis.first_attempt [ answers ↦ false | raises has_run ↦ has_run ]
    || elim redis.second_attempt [ answers ↦ false | raises has_run ↦ has_run ]

-- A task that is let through has a place in the set, which holds at most `limit` tasks. One that is refused
-- has been given none, but by the active jobs or by a script whose `eval` has raised.
abbrev pub Guarded : Redis → ℕ → ℕ → List TaskJob → List ℕ → Result (Unit {0}) × List ℕ → Type 0
Guarded redis limit job_id jobs s (ok _, s') = (sismember job_id s' ≡ true) × (length s' ≤ limit)
Guarded redis limit job_id jobs s (err e, s') =
    ((e ≡ bad_request heavy_limit) × (limit ≤ length s')
      ⊎ (e ≡ external_service queue_check_failed))
    × ((sismember job_id s'
          && not (
              has_run_unseen redis
              || (sismember job_id s || sismember job_id (active_heavy_ids jobs))))
        ≡ false)

-- The guard lets a heavy task through only with a place in the set, which then holds at most
-- `limit` tasks; and it refuses with one of two errors, and then gives the task no place that it
-- did not have and the active jobs do not give it, unless a script has run whose call has raised.
pub guard_inflight-Guarded :
    (redis : Redis) (progress : Progress) (limit job_id : ℕ) (jobs : List TaskJob) (s : List ℕ)
    → Guarded redis limit job_id jobs s
        (guard_inflight redis progress (some limit) heavy (some job_id) jobs s)
unfolding guard_inflight admit reconcile_heavy_inflight eval_script
guard_inflight-Guarded redis completes limit job_id jobs s =
    ground (arith, sismember-sadd_all job_id (active_heavy_ids jobs))
guard_inflight-Guarded redis stops_first limit job_id jobs s = ground (arith)
guard_inflight-Guarded redis stops_after_delete limit job_id jobs s = ground (arith)
