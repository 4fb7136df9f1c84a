-- ===== src/Queue/Submit.antt =====
-- The submissions that need no guard: scans, documentation, snapshot imports and the indexing of
-- mutations (backend/app/services/task_queue.py). Each returns a task id and a status.
use cgraph.Prelude.{ℕ, Bool, true, false, Option, none, some}
use cgraph.Text.{Text}
use cgraph.Errors.{Result, ok, err}
use cgraph.Jobs.{
  Kind, scan, docs, snapshot_import, mutation_indexing, Status, pending, task_queue_by_kind,
  find_existing_job, create_job,
}
use cgraph.Queue.{Message, System, Env, enqueue_with_error_mapping}

abbrev pub Ticket : Type 0
Ticket = ℕ × Status

-- `_create_job_async` for a kind without a guard
abbrev pub create : Env → Kind → ℕ → ℕ → ℕ → System → Result (ℕ × Bool) × System
create env kind org_id key task_id sys =
    let (made, jobs') =
      create_job env.others env.now org_id (task_queue_by_kind kind) (some key) task_id sys.jobs in
    (made, record sys { jobs = jobs' })

-- `_enqueue_with_error_mapping_async`, then `return task_id, "pending"`
unfoldable pub publish : Env → Kind → Text → ℕ → System → Result Ticket × System
publish env kind args task_id sys =
    let message : Message = record {
      task_name = kind;
      task_id = task_id;
      args = args;
      queue = task_queue_by_kind kind;
    } in
    let (sent, sys') = enqueue_with_error_mapping env message sys in
    elim sent [ ok _ ↦ (ok (task_id, pending), sys') | err e ↦ (err e, sys') ]

-- the look-up after a lost race, with `(task_id, "pending")` where there is no active job any more
abbrev pub or_pending : ℕ → Option Ticket → Ticket
or_pending task_id (some existing) = existing
or_pending task_id none = (task_id, pending)

unfoldable pub scan_made : Env → ℕ → ℕ → Text → Result (ℕ × Bool) → System → Result Ticket × System
unfolding publish
scan_made env org_id key args (err e) sys = (err e, sys)
scan_made env org_id key args (ok (task_id, true)) sys = publish env scan args task_id sys
scan_made env org_id key args (ok (task_id, false)) sys =
    (ok (or_pending task_id (find_existing_job org_id key sys.jobs)), sys)

-- `submit_scan_with_status_async`
unfoldable pub submit_scan_with_status : Env → ℕ → ℕ → Text → ℕ → System → Result Ticket × System
submit_scan_with_status env org_id key args task_id sys =
    elim (find_existing_job org_id key sys.jobs) [
      | some existing ↦ (ok existing, sys)
      | none ↦
          let (made, sys') = create env scan org_id key task_id sys in
          scan_made env org_id key args made sys'
    ]

-- Docs and snapshot imports look again in a second session.
unfoldable pub second_session :
    Env → Kind → ℕ → ℕ → Text → Result (ℕ × Bool) → System → Result Ticket × System
unfolding publish
second_session env kind org_id key args (err e) sys = (err e, sys)
second_session env kind org_id key args (ok (task_id, true)) sys = publish env kind args task_id sys
second_session env kind org_id key args (ok (task_id, false)) sys =
    let later = env.others.between_sessions sys.jobs in
    (ok (or_pending task_id (find_existing_job org_id key later)), record sys { jobs = later })

unfoldable pub submit_with_second_session :
    Env → Kind → ℕ → ℕ → Text → ℕ → System → Result Ticket × System
submit_with_second_session env kind org_id key args task_id sys =
    elim (find_existing_job org_id key sys.jobs) [
      | some existing ↦ (ok existing, sys)
      | none ↦
          let (made, sys') = create env kind org_id key task_id sys in
          second_session env kind org_id key args made sys'
    ]

-- `submit_docs_async`
unfoldable pub submit_docs : Env → ℕ → ℕ → Text → ℕ → System → Result Ticket × System
unfolding submit_with_second_session
submit_docs env = submit_with_second_session env docs

-- `submit_snapshot_import_async`
unfoldable pub submit_snapshot_import : Env → ℕ → ℕ → Text → ℕ → System → Result Ticket × System
unfolding submit_with_second_session
submit_snapshot_import env = submit_with_second_session env snapshot_import

unfoldable pub mutation_made : Env → Text → Result (ℕ × Bool) → System → Result Ticket × System
unfolding publish
mutation_made env args (err e) sys = (err e, sys)
mutation_made env args (ok (task_id, true)) sys = publish env mutation_indexing args task_id sys
mutation_made env args (ok (task_id, false)) sys = (ok (task_id, pending), sys)

-- `submit_mutation_indexing_async`
unfoldable pub submit_mutation_indexing : Env → ℕ → ℕ → Text → ℕ → System → Result Ticket × System
submit_mutation_indexing env org_id key args task_id sys =
    elim (find_existing_job org_id key sys.jobs) [
      | some existing ↦ (ok existing, sys)
      | none ↦
          let (made, sys') = create env mutation_indexing org_id key task_id sys in
          mutation_made env args made sys'
    ]
