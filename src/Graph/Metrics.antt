-- ===== src/Graph/Metrics.antt =====
-- The degrees that are written (backend/app/graph.py).
use cgraph.Prelude.{
  ℕ, ◌<◌, ◌≤◌, ◌≡◌, refl, Bool, true, false, ◌&&◌, ◌||◌, List, [], ◌∷◌, map, length, ◌==◌, arith,
}
use cgraph.Text.{Text}
use cgraph.Graph.{
  FileNode, FileEdge, Tables, Env, is_empty, has, in_degree, out_degree, scc_of, scc_map,
  read_edge_rows, write_graph_metrics, maybe_compute_graph_metrics, normalize, Walk, paths_of,
}
use cgraph.Graph.Component.{find_component-some}
use cgraph.Graph.Incremental.{
  affected_paths, update_fans, update_scc, update_found, update_graph_metrics_incremental,
}

-- Does the row hold the degrees of its file?
abbrev pub is_right : List FileEdge → FileNode → Bool
is_right edges n =
    is_empty n.path || (n.fan_in == in_degree n.path edges && n.fan_out == out_degree n.path edges)

abbrev pub all_right : List FileEdge → List FileNode → Bool
all_right edges [] = true
all_right edges (n ∷ nodes) = is_right edges n && all_right edges nodes

-- Does the row hold them, or will it be written?
abbrev pub all_right_or : List Text → List FileEdge → List FileNode → Bool
all_right_or affected edges [] = true
all_right_or affected edges (n ∷ nodes) =
    (has n.path affected || is_right edges n) && all_right_or affected edges nodes

refl_eq : (n : ℕ) → (n == n) ≡ true
refl_eq n = ground arith

write-all_right :
    (env : Env) (t : Tables) (nodes : List FileNode)
    → all_right t.edges (map (write_graph_metrics env t) nodes) ≡ true
unfolding write_graph_metrics
write-all_right env t [] = refl
write-all_right env t (n ∷ nodes) = ground (
  arith,
  refl_eq (in_degree n.path t.edges),
  refl_eq (out_degree n.path t.edges),
  write-all_right env t nodes,
)

update_fans-all_right :
    (env : Env) (w : Walk) (affected : List Text) (edges : List FileEdge) (nodes : List FileNode)
    → all_right_or affected edges nodes ≡ true
    → all_right edges (map (update_scc env w) (map (update_fans affected edges) nodes)) ≡ true
unfolding update_fans update_scc
update_fans-all_right env w affected edges [] h = refl
update_fans-all_right env w affected edges (n ∷ nodes) h = ground (
  arith,
  refl_eq (in_degree n.path edges),
  refl_eq (out_degree n.path edges),
  update_fans-all_right env w affected edges nodes,
)

-- Either the metrics are left to a background task, or every row is right.
abbrev pub Settled : List FileEdge → Bool × Tables → Type 0
Settled edges (pending, t) = (pending || all_right edges t.nodes) ≡ true

maybe_compute-Settled :
    (env : Env) (t : Tables) → Settled t.edges (maybe_compute_graph_metrics env t)
unfolding maybe_compute_graph_metrics
maybe_compute-Settled env t = ground (arith, write-all_right env t t.nodes)

update_found-Settled :
    (env : Env) (normalized removed : List Text) (w : Walk) (t : Tables)
    → all_right_or (affected_paths normalized removed t.edges) t.edges t.nodes ≡ true
    → Settled t.edges (update_found env normalized removed w t)
unfolding update_found
update_found-Settled env normalized removed w t h = ground (
  arith,
  maybe_compute-Settled env t,
  update_fans-all_right env w (affected_paths normalized removed t.edges) t.edges t.nodes h,
)

-- Where some path has changed, if the rows of all files are right but for the changed ones, those that an edge joins to them, and the
-- neighbours that are said to have lost an edge, then after the incremental update either a background
-- task is left to do it, or the degrees of every file are right.
pub update_graph_metrics_incremental-Settled :
    (env : Env) (modified removed : List Text) (t : Tables)
    → (length (normalize [] modified) == 0) ≡ false
    → all_right_or (affected_paths (normalize [] modified) removed t.edges) t.edges t.nodes ≡ true
    → Settled t.edges (update_graph_metrics_incremental env modified removed t)
unfolding update_graph_metrics_incremental
update_graph_metrics_incremental-Settled env modified removed t some_modified h =
    let normalized = normalize [] modified in
    let (f, found) = find_component-some env t.edges normalized in
    ground
      (arith, maybe_compute-Settled env t, update_found-Settled env normalized removed f.walk t h)

-- With few files and more edges than the limit, the full computation numbers the components of the graph
-- without its edges.
compute_graph_metrics_edgeless :
    (env : Env) (t : Tables) (p : Text)
    → env.compute_scc ≡ true
    → length t.nodes ≤ env.scc_max_nodes
    → env.scc_max_edges < length t.edges
    → scc_map env t.nodes (read_edge_rows env t) p ≡ scc_of (env.component (paths_of t.nodes) [] p)
unfolding scc_map read_edge_rows
compute_graph_metrics_edgeless env t p on few many = ground arith
