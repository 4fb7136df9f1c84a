-- ===== src/Tests/Scan.antt =====
-- A scan of a changed and of a removed file.
use cgraph.Prelude.{ℕ, refl, true, false, none, some, [], ◌∷◌, length, if◌then◌else◌}
use cgraph.Text.{Text, codes, text_eq}
use cgraph.Text.Number.{negsuc}
use cgraph.Graph
use cgraph.Graph.{FileNode, FileEdge}
use cgraph.Scan.{Disk, Env, Db}
use cgraph.Scan.Attempts.{Moment, scan_files, run_mutation_indexing}
use cgraph.Scan.Committed.{Safe, scan_files-Safe}
use cgraph.Scan.Indexing.{Indexed, run_mutation_indexing_settles}

abbrev pub env : Env
env = record {
  max_file_bytes = 100;
  digest = length;
  oversized_digest = λ size mtime. size;
  splitlines = λ text. text ∷ [];
  is_supported = λ rel. true;
  language = λ rel. codes "python";
  complexity = λ rel text. 1;
  parse_imports = λ rel text. record { spec = text; kind = []; raw = text } ∷ [];
  resolve_spec = λ rel spec. some spec;
  resolve_under_root = some;
  api_rows = λ rel text. [];
  db_fails = false;
}

abbrev pub graph_env : Graph.Env
graph_env = record {
  node_threshold = 0;
  edge_threshold = 0;
  compute_scc = true;
  scc_max_nodes = 9;
  scc_max_edges = 9;
  max_paths = 9;
  max_component_nodes = 9;
  max_component_edges = 9;
  background = false;
  component = λ ps es p. some (length es);
}

abbrev node : Text → ℕ → ℕ → FileNode
node p i o = record {
  id = 1;
  path = p;
  language = codes "python";
  loc = 1;
  complexity = 1;
  fan_in = i;
  fan_out = o;
  scc_id = negsuc 0;
  status = codes "new";
  file_hash = 7;
  file_mtime_ns = 1;
  file_size = 1;
}

abbrev pub db : Db
db = record {
  graph = record {
    nodes = node (codes "a") 1 0 ∷ node (codes "b") 0 0 ∷ node (codes "c") 0 1 ∷ [];
    edges =
        record { src_path = codes "c"; dst_path = codes "a"; kind = codes "import"; raw = [] } ∷ [];
    graph_node_count = 3;
    graph_edge_count = 1;
  };
  texts = [];
  api = [];
  next_id = 4;
}

-- The file `a` imports `b`, and `c` is gone.
abbrev disk : Disk
disk p =
    if text_eq p (codes "c")
    then none
    else some (record { is_file = true; mtime_ns = 2; size = 1; text = some (codes "b") })

abbrev pub moment : Moment
moment = record { stat_disk = disk; read_disk = disk; lock_disk = disk; others = λ d. d }

run_mutation_indexing_settles_example :
    Indexed (run_mutation_indexing env graph_env none moment moment (codes "a" ∷ codes "c" ∷ []) db)
unfolding text_eq
run_mutation_indexing_settles_example =
    run_mutation_indexing_settles env graph_env moment moment (codes "a" ∷ codes "c" ∷ []) db
      (λ d. refl) (λ d. refl) refl refl

scan_files-Safe_example :
    Safe env moment moment db (scan_files env moment moment (codes "a" ∷ codes "c" ∷ []) db)
scan_files-Safe_example = scan_files-Safe env moment moment (codes "a" ∷ codes "c" ∷ []) db
