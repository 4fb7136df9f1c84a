-- ===== src/Tasks/Mutation.antt =====
-- The degrees of the files after the task that indexes a mutation (backend/app/task_handlers.py,
-- backend/app/services/file_mutation_service.py, backend/app/graph.py).
use cgraph.Prelude.{
  ℕ, ◌≤◌, ◌≡◌, inl, inr, refl, sym, subst, Bool, true, false, Option, none, some, List, [], arith,
  Option-cases,
}
use cgraph.Text.{Text}
use cgraph.Errors.{Result, ok, err, Result-cases}
use cgraph.Graph
use cgraph.Graph.{
  Tables, normalize, find_component, maybe_compute_graph_metrics, compute_graph_metrics,
  update_project_graph_counts,
}
use cgraph.Graph.Incremental.{update_found, update_graph_metrics_incremental}
use cgraph.Graph.Metrics.{all_right}
use cgraph.Lifecycle.{Store}
use cgraph.Imports.Rows.{rows_with}
use cgraph.Scan.{Db}
use cgraph.Scan.Attempts.{
  Outcome, nothing, updated, aborted, scan_files, index_scanned, update_metrics,
  run_mutation_indexing,
}
use cgraph.Scan.Files.{are_resolved}
use cgraph.Scan.Indexing.{Indexed, is_pending, run_mutation_indexing_settles}
use cgraph.Tasks.{
  Reporter, Indexing, ending_of, resolve_project_root, index_mutation, mutation_indexing_task,
}
use cgraph.Tasks.Handlers.{EndedWith, run_handler-EndedWith}

-- Without background tasks nothing is left to them.
incremental_now :
    (env : Graph.Env) (modified lost : List Text) (t : Tables)
    → env.background ≡ false
    → (update_graph_metrics_incremental env modified lost t).0 ≡ false
unfolding update_graph_metrics_incremental update_found maybe_compute_graph_metrics
    compute_graph_metrics
incremental_now env modified lost t now =
    elim (Option-cases (find_component env t.edges (normalize [] modified))) [
      | inl e ↦ ground (arith, e, now)
      | inr (f, e) ↦ ground (arith, e, now)
    ]

index_scanned_now :
    (env : Graph.Env) (rel_paths : List Text) (scanned : Result Outcome × Db)
    → env.background ≡ false
    → is_pending (index_scanned env none rel_paths scanned).0 ≡ false
unfolding index_scanned update_metrics
index_scanned_now env rel_paths (err e, db) now = refl
index_scanned_now env rel_paths (ok aborted, db) now = refl
index_scanned_now env rel_paths (ok nothing, db) now = incremental_now env rel_paths [] db.graph now
index_scanned_now env rel_paths (ok (updated p), db) now =
    incremental_now env rel_paths p.removed_edge_neighbors db.graph now

-- Does every row hold the degrees of its file?
abbrev pub is_right_db : Db → Bool
is_right_db db = all_right db.graph.edges db.graph.nodes

Indexed-right :
    (result : Result (Option Bool) × Db)
    → is_pending result.0 ≡ false
    → Indexed result
    → is_right_db result.1 ≡ true
Indexed-right (result, db) now indexed = ground arith

ending_of-db :
    (ix : Indexing) (result : Result (Option Bool) × Db) → (ending_of ix result).1 ≡ result.1
ending_of-db ix (err e, db) = refl
ending_of-db ix (ok none, db) = refl
ending_of-db ix (ok (some pending), db) = refl

index_mutation_right :
    (ix : Indexing) (project_id org_id : ℕ) (rel_paths : List Text) (db : Db)
    → ix.graph_env.background ≡ false
    → ix.metrics_error ≡ none
    → ((d : Db) → ix.first_moment.others d ≡ d)
    → ((d : Db) → ix.second_moment.others d ≡ d)
    → are_resolved ix.env rel_paths ≡ true
    → is_right_db db ≡ true
    → is_right_db (index_mutation ix project_id org_id rel_paths db).1 ≡ true
unfolding index_mutation run_mutation_indexing
index_mutation_right ix project_id org_id rel_paths db now works_through first_alone second_alone
      resolved right =
    let result =
      run_mutation_indexing ix.env ix.graph_env none ix.first_moment ix.second_moment rel_paths
        db in
    let indexed =
      run_mutation_indexing_settles ix.env ix.graph_env ix.first_moment ix.second_moment rel_paths
        db first_alone second_alone resolved right in
    let scanned = scan_files ix.env ix.first_moment ix.second_moment rel_paths db in
    let after : is_right_db result.1 ≡ true =
      Indexed-right result (index_scanned_now ix.graph_env rel_paths scanned now) indexed in
    let same = ending_of-db ix result in
    elim (Result-cases (resolve_project_root ix project_id org_id)) [
      | inl (found, e) ↦ ground (arith, e, works_through, same, after)
      | inr (raised, e) ↦ ground (arith, e, right)
    ]

-- With Redis there, no two rows for the job, no background tasks, an update of the metrics that does not
-- raise, paths in normal form and no other session that commits during the attempts, the task that indexes
-- a mutation reports its job as its body has ended, leaves the tables as the body left them, and every row
-- holds the degrees of its file, if it did before. The one row of the job then has that status, unless
-- the clean-up after a final status has deleted it.
pub mutation_indexing_task_settles :
    (r : Reporter) (ix : Indexing) (project_id org_id job_id : ℕ) (rel_paths : List Text)
    (store : Store) (db : Db)
    → r.redis_fails ≡ false
    → rows_with job_id store.jobs ≤ 1
    → ix.graph_env.background ≡ false
    → ix.metrics_error ≡ none
    → ((d : Db) → ix.first_moment.others d ≡ d)
    → ((d : Db) → ix.second_moment.others d ≡ d)
    → are_resolved ix.env rel_paths ≡ true
    → is_right_db db ≡ true
    → EndedWith r job_id
        (index_mutation ix project_id org_id rel_paths db)
        (mutation_indexing_task r ix project_id org_id job_id rel_paths (store, db))
      × (is_right_db
            (mutation_indexing_task r ix project_id org_id job_id rel_paths (store, db)).1.1
          ≡ true)
unfolding mutation_indexing_task
mutation_indexing_task_settles r ix project_id org_id job_id rel_paths store db works keyed now
      works_through first_alone second_alone resolved right =
    let body = index_mutation ix project_id org_id rel_paths in
    let ended = run_handler-EndedWith r body org_id job_id store db works keyed in
    let after =
      index_mutation_right ix project_id org_id rel_paths db now works_through first_alone
        second_alone resolved right in
    (ended, subst (λ d. is_right_db d ≡ true) (sym ended.1.0) after)
