-- ===== src/Scan/Parsing.antt =====
-- From the files on the disk to the rows of a scan (backend/app/scan.py).
use cgraph.Prelude.{
  ℕ, Bool, true, false, not, ◌&&◌, ◌||◌, Option, none, some, List, [], ◌∷◌, ◌++◌, map, length, take,
  ltb, if◌then◌else◌,
}
use cgraph.Prelude.Rows.{select, any}
use cgraph.Text.{Text, codes, text_eq, strip}
use cgraph.Graph.{FileEdge, is_empty, has}
use cgraph.Graph.{ends_of}
use cgraph.Scan.{
  DiskFile, Disk, Import, NodeRow, FileText, ApiRow, Db, Env, HashKind, content, oversized,
  stat_only, FileSnapshot, PreparedScanData,
}

-- `_collect_file_stats_async` and the loop over its results
abbrev pub is_present : Env → Disk → Text → Bool
is_present env disk rel = elim (disk rel) [
  | none ↦ false
  | some f ↦ f.is_file && env.is_supported rel
]

abbrev pub is_missing : Disk → Text → Bool
is_missing disk rel = elim (disk rel) [ none ↦ true | some f ↦ false ]

pub record FileRead : Type 0 where
  pub rel : Text
  pub text : Option Text
  pub mtime_ns : ℕ
  pub size : ℕ
  pub oversized : Bool

abbrev pub size_of : Option DiskFile → ℕ
size_of none = 0
size_of (some f) = f.size

abbrev pub mtime_of : Option DiskFile → ℕ
mtime_of none = 0
mtime_of (some f) = f.mtime_ns

abbrev pub text_of : Option DiskFile → Option Text
text_of none = none
text_of (some f) = f.text

-- `_read_file_batch_async`, of one file, with the numbers that `stat` gave earlier
unfoldable pub read_file : Env → Disk → Disk → Text → FileRead
read_file env stat_disk disk rel =
    let size = size_of (stat_disk rel) in
    let too_large = ltb 0 env.max_file_bytes && ltb env.max_file_bytes size in
    record {
      rel = rel;
      text = if too_large then none else text_of (disk rel);
      mtime_ns = mtime_of (stat_disk rel);
      size = size;
      oversized = too_large;
    }

pub record Parsed : Type 0 where
  pub snap : FileSnapshot
  pub node_row : Option NodeRow
  pub search_row : Option FileText
  pub cached_imports : List Import
  pub api_rows : List ApiRow

abbrev pub loc_of : Env → Text → ℕ
loc_of env text = length (select (λ line. not (is_empty (strip line))) (env.splitlines text))

abbrev pub node_row_of : Env → FileRead → ℕ → ℕ → ℕ → NodeRow
node_row_of env f loc complexity hash = record {
  path = f.rel;
  language = env.language f.rel;
  loc = loc;
  complexity = complexity;
  file_hash = hash;
  file_mtime_ns = f.mtime_ns;
  file_size = f.size;
}

abbrev pub snap_of : FileRead → ℕ → HashKind → FileSnapshot
snap_of f hash kind = record {
  rel = f.rel;
  mtime_ns = f.mtime_ns;
  size = f.size;
  file_hash = hash;
  hash_kind = kind;
}

abbrev pub search_index_max_chars : ℕ
search_index_max_chars = 200000

-- `_parse_index_batch_sync`, of one file; the extraction of the API rows is `env.api_rows`.
unfoldable pub parse_index : Env → FileRead → Parsed
unfolding strip
parse_index env f =
    let large = env.oversized_digest f.size f.mtime_ns in
    if f.oversized
    then record {
      snap = snap_of f large oversized;
      node_row = some (node_row_of env f 0 0 large);
      search_row = none;
      cached_imports = [];
      api_rows = [];
    }
    else elim f.text [
      | none ↦ record {
        snap = snap_of f 0 stat_only;
        node_row = none;
        search_row = none;
        cached_imports = [];
        api_rows = [];
      }
      | some text ↦ record {
        snap = snap_of f (env.digest text) content;
        node_row =
            some
              (node_row_of env f (loc_of env text) (env.complexity f.rel text) (env.digest text));
        search_row = some (record { path = f.rel; content = take search_index_max_chars text });
        cached_imports = env.parse_imports f.rel text;
        api_rows = env.api_rows f.rel text;
      }
    ]

abbrev pub kind_of : Text → Text
kind_of [] = codes "import"
kind_of (c ∷ s) = c ∷ s

-- one turn of `_resolve_cached_imports_fs_sync`
unfoldable pub resolve_import : Env → Text → Import → Option FileEdge
unfolding strip text_eq
resolve_import env rel imp =
    let spec = strip imp.spec in
    if is_empty rel || (is_empty spec || text_eq (kind_of imp.kind) (codes "runtime_dynamic"))
    then none
    else elim (env.resolve_spec rel spec) [
      | none ↦ none
      | some dst_raw ↦ elim (env.resolve_under_root dst_raw) [
        | none ↦ none
        | some dst ↦
            if is_empty dst_raw || (is_empty dst || text_eq dst rel)
            then none
            else some
                (record { src_path = rel; dst_path = dst; kind = kind_of imp.kind; raw = imp.raw })
      ]
    ]

abbrev pub some_of {ℓ} : {A : Type ℓ} → List (Option A) → List A
some_of [] = []
some_of (none ∷ xs) = some_of xs
some_of (some x ∷ xs) = x ∷ some_of xs

unfoldable pub edges_of : Env → Parsed → List FileEdge
unfolding resolve_import
edges_of env parsed = some_of (map (resolve_import env parsed.snap.rel) parsed.cached_imports)

abbrev pub same_key : FileEdge → FileEdge → Bool
same_key e f =
    text_eq e.src_path f.src_path && (text_eq e.dst_path f.dst_path && text_eq e.kind f.kind)

-- `_aggregate_cached_import_edges_sync` and `edge_map`: the first edge of each key stays
unfoldable pub add_edges : List FileEdge → List FileEdge → List FileEdge
add_edges edge_map [] = edge_map
add_edges edge_map (e ∷ es) =
    add_edges (if any (same_key e) edge_map then edge_map else edge_map ++ (e ∷ [])) es

abbrev pub concat_map {ℓ κ} : {A : Type ℓ} {B : Type κ} → (A → List B) → List A → List B
concat_map f [] = []
concat_map f (x ∷ xs) = f x ++ concat_map f xs

-- the rows of edges that leave a present or a removed path, or reach a removed one
abbrev pub is_touched : List Text → List Text → FileEdge → Bool
is_touched present removed e =
    has e.src_path present || (has e.src_path removed || has e.dst_path removed)

-- `_prepare_scan_files_async`, with the disk as it is for `stat` and as it is for the reading
unfoldable pub prepare_scan_files : Env → Disk → Disk → Db → List Text → PreparedScanData
unfolding read_file parse_index edges_of add_edges
prepare_scan_files env stat_disk disk db norm_paths =
    let present = select (is_present env stat_disk) norm_paths in
    let removed = select (is_missing stat_disk) norm_paths in
    let parsed = map (λ rel. parse_index env (read_file env stat_disk disk rel)) present in
    record {
      present = present;
      removed = removed;
      node_rows = some_of (map (λ p. p.node_row) parsed);
      edge_map = add_edges [] (concat_map (edges_of env) parsed);
      search_rows = some_of (map (λ p. p.search_row) parsed);
      api_rows = concat_map (λ p. p.api_rows) parsed;
      removed_edge_neighbors =
          select (λ p. not (is_empty p))
            (ends_of (select (is_touched present removed) db.graph.edges));
      snapshot = map (λ p. p.snap) parsed;
    }
