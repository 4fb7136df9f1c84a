-- ===== src/Scan/Indexing.antt =====
-- The degrees of the files after the indexing of a mutation (backend/app/graph.py,
-- backend/app/services/file_mutation_service.py).
use cgraph.Prelude.{
  ◌≡◌, inl, inr, refl, sym, subst, Bool, true, false, ◌||◌, Option, none, some, List, [], ◌∷◌,
  length, ◌==◌, arith, Option-cases,
}
use cgraph.Text.{Text}
use cgraph.Errors.{Result, ok, err}
use cgraph.Graph
use cgraph.Graph.{
  Tables, FileNode, FileEdge, is_empty, has, in_degree, out_degree, normalize,
  maybe_compute_graph_metrics, compute_graph_metrics, update_project_graph_counts, find_component,
  Walk, ends_of, fetch_edges_for_paths,
}
use cgraph.Graph.Incremental.{affected_paths, update_found, update_graph_metrics_incremental}
use cgraph.Graph.Metrics.{all_right, all_right_or, update_graph_metrics_incremental-Settled}
use cgraph.Scan.{Db, Env}
use cgraph.Scan.Attempts.{
  update_metrics, Moment, Outcome, nothing, updated, aborted, distinct, normalized_paths,
  scan_files, index_scanned, run_mutation_indexing,
}
use cgraph.Scan.Files.{Ready, Fine, scan_files-Fine, are_resolved}

all_right_weaken :
    (affected : List Text) (edges : List FileEdge) (nodes : List FileNode)
    → all_right edges nodes ≡ true
    → all_right_or affected edges nodes ≡ true
all_right_weaken affected edges [] h = refl
all_right_weaken affected edges (n ∷ nodes) h =
    ground (arith, all_right_weaken affected edges nodes)

incremental_edges :
    (env : Graph.Env) (modified lost : List Text) (t : Tables)
    → (update_graph_metrics_incremental env modified lost t).1.edges ≡ t.edges
unfolding update_graph_metrics_incremental update_found maybe_compute_graph_metrics
    compute_graph_metrics update_project_graph_counts
incremental_edges env modified lost t =
    elim (Option-cases (find_component env t.edges (normalize [] modified))) [
      | inl e ↦ ground (arith, e)
      | inr (f, e) ↦ ground (arith, e)
    ]

-- Are the degrees left to a background task?
abbrev pub is_pending : Result (Option Bool) → Bool
is_pending (err e) = false
is_pending (ok none) = false
is_pending (ok (some pending)) = pending

-- Either the metrics are pending, or every row is right.
abbrev pub Indexed : Result (Option Bool) × Db → Type 0
Indexed (result, db) = (is_pending result || all_right db.graph.edges db.graph.nodes) ≡ true

update-Indexed :
    (env : Graph.Env) (modified lost : List Text) (db : Db)
    → (length (normalize [] modified) == 0) ≡ false
    → Ready (normalize [] modified) lost db.graph
    → (let (pending, graph) = update_graph_metrics_incremental env modified lost db.graph in
        Indexed (ok (some pending), record db { graph = graph }))
update-Indexed env modified lost db some_modified ready =
    subst
      (λ es.
        ((update_graph_metrics_incremental env modified lost db.graph).0
          || all_right es (update_graph_metrics_incremental env modified lost db.graph).1.nodes)
        ≡ true)
      (sym (incremental_edges env modified lost db.graph))
      (update_graph_metrics_incremental-Settled env modified lost db.graph some_modified ready)

index-Indexed :
    (env : Graph.Env) (rel_paths : List Text) (scanned : Result Outcome × Db)
    → (length (normalize [] rel_paths) == 0) ≡ false
    → Fine (normalize [] rel_paths) scanned
    → Indexed (index_scanned env none rel_paths scanned)
unfolding index_scanned update_metrics
index-Indexed env rel_paths (err e, db) some_paths fine = fine
index-Indexed env rel_paths (ok aborted, db) some_paths fine = fine
index-Indexed env rel_paths (ok nothing, db) some_paths fine =
    update-Indexed env rel_paths [] db some_paths (
      all_right_weaken (affected_paths (normalize [] rel_paths) [] db.graph.edges) db.graph.edges
        db.graph.nodes fine)
index-Indexed env rel_paths (ok (updated p), db) some_paths fine =
    update-Indexed env rel_paths p.removed_edge_neighbors db some_paths fine

-- Where the paths are in normal form, no other session commits during the attempts, the update of the
-- metrics does not raise, and the row of every file holds its degrees, then after the indexing of a
-- mutation, however its scan ends, the degrees are either left to a background task or right in every row
-- again.
pub run_mutation_indexing_settles :
    (env : Env) (graph_env : Graph.Env) (first_moment second_moment : Moment)
    (rel_paths : List Text) (db : Db)
    → ((d : Db) → first_moment.others d ≡ d)
    → ((d : Db) → second_moment.others d ≡ d)
    → are_resolved env rel_paths ≡ true
    → all_right db.graph.edges db.graph.nodes ≡ true
    → Indexed (run_mutation_indexing env graph_env none first_moment second_moment rel_paths db)
unfolding run_mutation_indexing scan_files normalized_paths distinct index_scanned normalize
    update_graph_metrics_incremental
run_mutation_indexing_settles env graph_env m n [] db alone_m alone_n resolved right = right
run_mutation_indexing_settles env graph_env m n (p ∷ ps) db alone_m alone_n resolved right =
    index-Indexed graph_env (p ∷ ps) (scan_files env m n (p ∷ ps) db) (ground arith)
      (scan_files-Fine env m n (p ∷ ps) db alone_m alone_n resolved right)
