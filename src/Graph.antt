-- ===== src/Graph.antt =====
-- backend/app/graph.py: the metrics of a project's files, computed anew or after some files changed.
-- The tables hold the rows of one project, which every statement selects. `networkx` gives the numbers
-- of the strongly connected components.
pub mod Component
pub mod Closure
pub mod Incremental
pub mod Metrics
use cgraph.Prelude.{
  ℕ, zero, suc, ◌+◌, ◌-◌, Bool, true, false, not, ◌&&◌, ◌||◌, Option, none, some, List, [], ◌∷◌,
  ◌++◌, map, length, take, drop, ◌==◌, ltb, leb, if◌then◌else◌,
}
use cgraph.Prelude.Rows.{select, first, any}
use cgraph.Text.{Text, text_eq}
use cgraph.Text.Number.{ℤ, pos, negsuc}

-- `file_mtime` is left out: it is `file_mtime_ns` in seconds.
pub record FileNode : Type 0 where
  pub id : ℕ
  pub path : Text
  pub language : Text
  pub loc : ℕ
  pub complexity : ℕ
  pub fan_in : ℕ
  pub fan_out : ℕ
  pub scc_id : ℤ
  pub status : Text
  pub file_hash : ℕ
  pub file_mtime_ns : ℕ
  pub file_size : ℕ

pub record FileEdge : Type 0 where
  pub src_path : Text
  pub dst_path : Text
  pub kind : Text
  pub raw : Text

-- the tables, and the counts that the project's row carries
pub record Tables : Type 0 where
  pub nodes : List FileNode
  pub edges : List FileEdge
  pub graph_node_count : ℕ
  pub graph_edge_count : ℕ

-- the settings, whether the caller gives background tasks, and `strongly_connected_components`
pub record Env : Type 0 where
  pub node_threshold : ℕ
  pub edge_threshold : ℕ
  pub compute_scc : Bool
  pub scc_max_nodes : ℕ
  pub scc_max_edges : ℕ
  pub max_paths : ℕ
  pub max_component_nodes : ℕ
  pub max_component_edges : ℕ
  pub background : Bool
  pub component : List Text → List FileEdge → Text → Option ℕ

abbrev pub is_empty : Text → Bool
is_empty [] = true
is_empty (c ∷ s) = false

abbrev pub has : Text → List Text → Bool
has p ps = any (text_eq p) ps

-- `_should_defer_graph_metrics`
unfoldable pub should_defer_graph_metrics : Env → ℕ → ℕ → Bool
should_defer_graph_metrics env node_count edge_count =
    if env.node_threshold == 0 || env.edge_threshold == 0
    then false
    else leb env.node_threshold node_count || leb env.edge_threshold edge_count

-- `_graph_counts_async` and `_update_project_graph_counts_async`
unfoldable pub update_project_graph_counts : Tables → Tables
update_project_graph_counts t = record t {
  graph_node_count = length t.nodes;
  graph_edge_count = length t.edges;
}

-- `select count(*) … group by dst_path`, at one path, and the same by `src_path`
abbrev pub in_degree : Text → List FileEdge → ℕ
in_degree p edges = length (select (λ e. text_eq p e.dst_path) edges)

abbrev pub out_degree : Text → List FileEdge → ℕ
out_degree p edges = length (select (λ e. text_eq p e.src_path) edges)

-- `_as_int(scc_map.get(path, -1), -1)`
abbrev pub scc_of : Option ℕ → ℤ
scc_of none = negsuc 0
scc_of (some i) = pos i

-- the edges that `_read_graph_metrics_input_async` reads
unfoldable pub read_edge_rows : Env → Tables → List FileEdge
read_edge_rows env t =
    if env.compute_scc
      && (leb (length t.nodes) env.scc_max_nodes && leb (length t.edges) env.scc_max_edges)
    then t.edges
    else []

abbrev pub paths_of : List FileNode → List Text
paths_of nodes = select (λ p. not (is_empty p)) (map (λ n. n.path) nodes)

-- the map of components in `_compute_graph_metrics_cpu`
unfoldable pub scc_map : Env → List FileNode → List FileEdge → Text → ℤ
scc_map env nodes edge_rows p =
    if env.compute_scc
      && (leb (length nodes) env.scc_max_nodes && leb (length edge_rows) env.scc_max_edges)
    then scc_of (env.component (paths_of nodes) edge_rows p)
    else negsuc 0

-- `_compute_graph_metrics_cpu` and `_write_graph_metrics_async`, for one row
unfoldable pub write_graph_metrics : Env → Tables → FileNode → FileNode
unfolding scc_map read_edge_rows
write_graph_metrics env t n = if is_empty n.path then n else record n {
  fan_in = in_degree n.path t.edges;
  fan_out = out_degree n.path t.edges;
  scc_id = scc_map env t.nodes (read_edge_rows env t) n.path;
}

-- `compute_graph_metrics_async` without background tasks
unfoldable pub compute_graph_metrics : Env → Tables → Bool × Tables
unfolding update_project_graph_counts
compute_graph_metrics env t = (
  false,
  record (update_project_graph_counts t) { nodes = map (write_graph_metrics env t) t.nodes },
)

-- `_maybe_compute_graph_metrics_async`; `true` says that a background task will compute them.
unfoldable pub maybe_compute_graph_metrics : Env → Tables → Bool × Tables
unfolding compute_graph_metrics
maybe_compute_graph_metrics env t =
    if env.background && should_defer_graph_metrics env (length t.nodes) (length t.edges)
    then (true, update_project_graph_counts t)
    else compute_graph_metrics env t

-- the paths that are not empty, each once, in their first order
unfoldable pub normalize : List Text → List Text → List Text
normalize seen [] = []
normalize seen (p ∷ ps) =
    let later = normalize seen ps in
    let later_seen = normalize (p ∷ seen) ps in
    if is_empty p then later else if has p seen then later else p ∷ later_seen

-- `_iter_chunks`, with the length of the list as fuel; `size` is positive.
unfoldable pub iter_chunks : ℕ → ℕ → List Text → List (List Text)
iter_chunks zero size seq = []
iter_chunks (suc fuel) size [] = []
iter_chunks (suc fuel) size (p ∷ seq) = (p ∷ take size seq) ∷ iter_chunks fuel size (drop size seq)

abbrev pub touches : List Text → FileEdge → Bool
touches chunk e = has e.src_path chunk || has e.dst_path chunk

unfoldable pub fetch_chunks : List FileEdge → List (List Text) → List FileEdge
fetch_chunks edges [] = []
fetch_chunks edges (chunk ∷ chunks) = select (touches chunk) edges ++ fetch_chunks edges chunks

-- `_fetch_edges_for_paths`, in chunks of 400
unfoldable pub fetch_edges_for_paths : List FileEdge → List Text → List FileEdge
unfolding fetch_chunks iter_chunks
fetch_edges_for_paths edges paths = fetch_chunks edges (iter_chunks (length paths) 399 paths)

-- What the walk over the component has: `component_paths`, `component_edges` and `next_frontier`.
pub record Walk : Type 0 where
  pub paths : List Text
  pub edges : List FileEdge
  pub frontier : List Text

abbrev pub same_edge : FileEdge → FileEdge → Bool
same_edge e f = text_eq e.src_path f.src_path && text_eq e.dst_path f.dst_path

abbrev pub add_edge : FileEdge → List FileEdge → List FileEdge
add_edge e es = if any (same_edge e) es then es else e ∷ es

abbrev pub add_path : Text → Walk → Walk
add_path p w =
    if has p w.paths then w else record w { paths = p ∷ w.paths; frontier = p ∷ w.frontier }

abbrev pub is_named : FileEdge → Bool
is_named e = not (is_empty e.src_path) && not (is_empty e.dst_path)

-- one turn of the loop over the rows
unfoldable pub visit : FileEdge → Walk → Walk
visit e w =
    if is_named e
    then add_path e.dst_path (add_path e.src_path (record w { edges = add_edge e w.edges }))
    else w

unfoldable pub visit_all : List FileEdge → Walk → Walk
visit_all [] w = w
visit_all (e ∷ es) w = visit_all es (visit e w)

pub record Found : Type 0 where
  pub too_large : Bool
  pub walk : Walk

abbrev pub is_too_large : Env → Walk → Bool
is_too_large env w =
    ltb env.max_component_nodes (length w.paths) || ltb env.max_component_edges (length w.edges)

-- `while frontier`, with fuel; `none` says that it ran out.
unfoldable pub walk_component : ℕ → Env → List FileEdge → Walk → Option Found
walk_component zero env edges w = none
walk_component (suc fuel) env edges w =
    let w' = visit_all (fetch_edges_for_paths edges w.frontier) (record w { frontier = [] }) in
    let rest = walk_component fuel env edges w' in
    elim w.frontier [
      | [] ↦ some (record { too_large = false; walk = w })
      | p ∷ ps ↦ if is_too_large env w' then some (record { too_large = true; walk = w' }) else rest
    ]

abbrev pub ends_of : List FileEdge → List Text
ends_of [] = []
ends_of (e ∷ es) = e.src_path ∷ e.dst_path ∷ ends_of es

-- the walk from some paths, with a turn for each end of an edge and two more
unfoldable pub find_component : Env → List FileEdge → List Text → Option Found
find_component env edges start =
    walk_component (length (ends_of edges) + 2) env edges
      (record { paths = start; edges = []; frontier = start })
