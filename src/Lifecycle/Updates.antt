-- ===== src/Lifecycle/Updates.antt =====
-- What a status update does to the place of a heavy task (backend/app/task_handlers.py).
use cgraph.Prelude.{ℕ, ◌≡◌, Bool, true, false, some, arith, ◌==◌, if◌then◌else◌}
use cgraph.Prelude.Rows.{first}
use cgraph.Jobs.{TaskJob, Status, pending, running, is_heavy}
use cgraph.Inflight.{sismember}
use cgraph.Inflight.Bounds.{sismember-srem}
use cgraph.Lifecycle.{Update, Store, Settings, set_job_status}

-- whether a task has a place after a report, given whether it had one
abbrev pub place_after : Status → Bool → Bool
place_after pending before = before
place_after running before = true
place_after _ before = false

-- With Redis there, a heavy task that is reported as running has its place in the set, one that is
-- reported as finished has none, and no report touches the place of another task.
set_job_status-place :
    (now : ℕ) (settings : Settings) (job_id other : ℕ) (u : Update) (store : Store) (j : TaskJob)
    → first (λ i. i.id == job_id) store.jobs ≡ some j
    → is_heavy j.queue ≡ true
    → sismember other (set_job_status now settings false job_id u store).1.inflight ≡ (
        if other == job_id
        then place_after u.status (sismember job_id store.inflight)
        else sismember other store.inflight)
unfolding set_job_status
set_job_status-place now settings job_id other u store j found heavy =
    ground (arith, sismember-srem job_id other store.inflight)
