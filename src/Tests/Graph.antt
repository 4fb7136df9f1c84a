-- ===== src/Tests/Graph.antt =====
-- A project with two files and one edge.
use cgraph.Prelude.{ℕ, ◌≡◌, refl, true, false, some, [], ◌∷◌, length}
use cgraph.Text.{Text, codes, text_eq}
use cgraph.Text.Number.{negsuc}
use cgraph.Graph.{
  FileNode, FileEdge, Tables, Env, Found, Walk, find_component, visit, visit_all, walk_component,
  normalize, fetch_edges_for_paths, fetch_chunks, iter_chunks,
}
use cgraph.Graph.Incremental.{affected_paths, update_graph_metrics_incremental}
use cgraph.Graph.Component.{find_component-some}
use cgraph.Graph.Metrics.{Settled, update_graph_metrics_incremental-Settled}

abbrev env : Env
env = record {
  node_threshold = 0;
  edge_threshold = 0;
  compute_scc = true;
  scc_max_nodes = 9;
  scc_max_edges = 0;
  max_paths = 9;
  max_component_nodes = 9;
  max_component_edges = 9;
  background = false;
  component = λ ps es p. some (length es);
}

abbrev edge : FileEdge
edge = record { src_path = codes "a"; dst_path = codes "b"; kind = codes "import"; raw = [] }

abbrev node : Text → ℕ → ℕ → FileNode
node p i o = record {
  id = 1;
  path = p;
  language = codes "python";
  loc = 1;
  complexity = 1;
  fan_in = i;
  fan_out = o;
  scc_id = negsuc 0;
  status = codes "new";
  file_hash = 1;
  file_mtime_ns = 1;
  file_size = 1;
}

abbrev tables : Tables
tables = record {
  nodes = node (codes "a") 0 0 ∷ node (codes "b") 0 0 ∷ node (codes "c") 0 0 ∷ [];
  edges = edge ∷ [];
  graph_node_count = 3;
  graph_edge_count = 0;
}

abbrev found : Walk
found = record { paths = codes "b" ∷ codes "a" ∷ []; edges = edge ∷ []; frontier = [] }

component_found :
    find_component env tables.edges (codes "a" ∷ [])
    ≡ some (record { too_large = false; walk = found })
unfolding find_component walk_component fetch_edges_for_paths fetch_chunks iter_chunks visit_all
    visit text_eq
component_found = refl

find_component-some_example :
    (f : Found) × (find_component env tables.edges (codes "a" ∷ []) ≡ some f)
find_component-some_example = find_component-some env tables.edges (codes "a" ∷ [])

update_graph_metrics_incremental-Settled_example :
    Settled tables.edges (update_graph_metrics_incremental env (codes "a" ∷ []) [] tables)
unfolding normalize affected_paths fetch_edges_for_paths fetch_chunks iter_chunks text_eq
update_graph_metrics_incremental-Settled_example =
    update_graph_metrics_incremental-Settled env (codes "a" ∷ []) [] tables refl refl
