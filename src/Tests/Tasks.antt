-- ===== src/Tests/Tasks.antt =====
-- The task that indexes a mutation, on the project of Tests.Scan, and a task that is cancelled.
use cgraph.Prelude.{ℕ, ◌≡◌, refl, true, false, none, some, [], ◌∷◌, arith}
use cgraph.Text.{codes, text_eq}
use cgraph.Errors.{Result, err, cancelled}
use cgraph.Jobs.{pending, Queue}
use cgraph.Lifecycle.{Store}
use cgraph.Tasks.{
  Reporter, Ending, Indexing, index_mutation, mutation_indexing_task, scan_task, docs_task,
  run_task_job,
}
use cgraph.Tasks.Handlers.{EndedWith, run_task_job-EndedWith}
use cgraph.Tasks.Mutation.{is_right_db, mutation_indexing_task_settles}
use cgraph.Tests.Scan.{env, graph_env, db, moment}

abbrev reporter : Reporter
reporter = record {
  now = 5;
  settings = record { completed_ttl = none; max_completed = some 9 };
  redis_fails = false;
  describe = λ e. codes "error";
  payload = λ e. (codes "{}", none);
}

abbrev store : Store
store = record {
  jobs =
      record {
        id = 3;
        org_id = 1;
        status = pending;
        queue = Queue.heavy;
        idempotency_key = some 9;
        result_json = none;
        error = none;
        error_json = none;
        created_at = 1;
        updated_at = 1;
        completed_at = none;
      }
      ∷ [];
  inflight = 3 ∷ [];
}

abbrev ix : Indexing
ix = record {
  projects = record { id = 2; org_id = 1 } ∷ [];
  normalizes = true;
  env = env;
  graph_env = graph_env;
  metrics_error = none;
  first_moment = moment;
  second_moment = moment;
  result = λ pending. codes "{}";
  aborted_message = codes "aborted";
  aborted_payload = codes "{}";
}

mutation_indexing_task_settles_example :
    EndedWith reporter 3
      (index_mutation ix 2 1 (codes "a" ∷ codes "c" ∷ []) db)
      (mutation_indexing_task reporter ix 2 1 3 (codes "a" ∷ codes "c" ∷ []) (store, db))
    × (is_right_db
          (mutation_indexing_task reporter ix 2 1 3 (codes "a" ∷ codes "c" ∷ []) (store, db)).1.1
        ≡ true)
unfolding text_eq
mutation_indexing_task_settles_example =
    mutation_indexing_task_settles reporter ix 2 1 3 (codes "a" ∷ codes "c" ∷ []) store db refl
      (omega arith) refl refl (λ d. refl) (λ d. refl) refl refl

abbrev cut_off : ℕ → Result Ending × ℕ
cut_off n = (err cancelled, n)

run_task_job-EndedWith_example :
    EndedWith reporter 3 (cut_off 7) (scan_task reporter cut_off 1 3 (store, 7))
    × (EndedWith reporter 3 (cut_off 7) (docs_task reporter cut_off 1 3 (store, 7))
        × EndedWith reporter 3 (cut_off 7) (run_task_job reporter true cut_off 1 3 (store, 7)))
run_task_job-EndedWith_example =
    run_task_job-EndedWith reporter true cut_off 1 3 store 7 refl (omega arith)
