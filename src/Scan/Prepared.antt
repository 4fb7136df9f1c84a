-- ===== src/Scan/Prepared.antt =====
-- Where the rows of a scan come from (`_prepare_scan_files_async` of backend/app/scan.py), and the rows of
-- the nodes after they are written.
use cgraph.Prelude.{
  ℕ, ◌+◌, ◌≡◌, inl, inr, refl, Bool, true, false, not, ◌&&◌, some, List, [], ◌∷◌, ◌++◌, map,
  if◌then◌else◌, arith, Bool-cases, Option-cases,
}
use cgraph.Prelude.Rows.{select, any}
use cgraph.Text.{Text, text_eq}
use cgraph.Text.Strip.{text_eq_iff, text_eq_refl}
use cgraph.Graph.{FileNode, FileEdge, is_empty, has, in_degree, out_degree, normalize}
use cgraph.Graph.Metrics.{all_right, all_right_or}
use cgraph.Scan.{Import, NodeRow, Env, Disk}
use cgraph.Scan.Degrees.{all_from, all_in}
use cgraph.Scan.Parsing.{
  some_of, concat_map, FileRead, read_file, Parsed, parse_index, resolve_import, edges_of, same_key,
  add_edges,
}
use cgraph.Scan.Writing.{upsert_node, upsert_nodes}

all_in-cons : (ps qs : List Text) (q : Text) → all_in ps qs ≡ true → all_in ps (q ∷ qs) ≡ true
all_in-cons [] qs q h = refl
all_in-cons (p ∷ ps) qs q h = ground (arith, all_in-cons ps qs q)

pub all_in_refl : (ps : List Text) → all_in ps ps ≡ true
all_in_refl [] = refl
all_in_refl (p ∷ ps) = ground (arith, text_eq_refl p, all_in-cons ps ps p, all_in_refl ps)

pub all_in-select :
    (f : Text → Bool) (ps qs : List Text) → all_in ps qs ≡ true → all_in (select f ps) qs ≡ true
all_in-select f [] qs h = refl
all_in-select f (p ∷ ps) qs h = ground (arith, all_in-select f ps qs)

normalize-has :
    (p : Text) (seen ps : List Text)
    → is_empty p ≡ false
    → has p seen ≡ false
    → has p ps ≡ true
    → has p (normalize seen ps) ≡ true
unfolding normalize
normalize-has p seen [] named new h = absurd (ground arith)
normalize-has p seen (q ∷ ps) named new h = elim (Bool-cases (text_eq p q)) [
  | inl same ↦ let e : p ≡ q = (text_eq_iff p q).0 same in ground (arith, e)
  | inr differs ↦
      ground (arith, normalize-has p seen ps named new, normalize-has p (q ∷ seen) ps named)
]

-- Has none of the paths the empty name?
abbrev pub all_named : List Text → Bool
all_named [] = true
all_named (p ∷ ps) = not (is_empty p) && all_named ps

pub all_in-normalize :
    (ps qs : List Text)
    → all_named ps ≡ true
    → all_in ps qs ≡ true
    → all_in ps (normalize [] qs) ≡ true
all_in-normalize [] qs named h = refl
all_in-normalize (p ∷ ps) qs named h = ground (arith, normalize-has p [] qs, all_in-normalize ps qs)

all_from-append :
    (paths : List Text) (es fs : List FileEdge)
    → all_from paths es ≡ true
    → all_from paths fs ≡ true
    → all_from paths (es ++ fs) ≡ true
all_from-append paths [] fs h k = k
all_from-append paths (e ∷ es) fs h k = ground (arith, all_from-append paths es fs)

all_from-add_edges :
    (paths : List Text) (es fs : List FileEdge)
    → all_from paths es ≡ true
    → all_from paths fs ≡ true
    → all_from paths (add_edges es fs) ≡ true
unfolding add_edges
all_from-add_edges paths es [] h k = h
all_from-add_edges paths es (f ∷ fs) h k =
    let es' = if any (same_key f) es then es else es ++ (f ∷ []) in
    ground (arith, all_from-append paths es (f ∷ []), all_from-add_edges paths es' fs)

all_from-resolve :
    (env : Env) (paths : List Text) (rel : Text) (imports : List Import)
    → has rel paths ≡ true
    → all_from paths (some_of (map (resolve_import env rel) imports)) ≡ true
unfolding resolve_import
all_from-resolve env paths rel [] h = refl
all_from-resolve env paths rel (imp ∷ imports) h =
    ground (arith, all_from-resolve env paths rel imports)

pub parse_index-rel : (env : Env) (f : FileRead) → (parse_index env f).snap.rel ≡ f.rel
unfolding parse_index
parse_index-rel env f = ground arith

-- What is read of some paths, and its edges.
abbrev pub parsed_of : Env → Disk → Disk → List Text → List Parsed
parsed_of env stat_disk disk present =
    map (λ rel. parse_index env (read_file env stat_disk disk rel)) present

parsed_of-edges :
    (env : Env) (stat_disk disk : Disk) (ps paths : List Text)
    → all_in ps paths ≡ true
    → all_from paths (concat_map (edges_of env) (parsed_of env stat_disk disk ps)) ≡ true
unfolding edges_of read_file
parsed_of-edges env stat_disk disk [] paths h = refl
parsed_of-edges env stat_disk disk (p ∷ ps) paths h =
    let parsed = parse_index env (read_file env stat_disk disk p) in
    let e = parse_index-rel env (read_file env stat_disk disk p) in
    let here : has parsed.snap.rel paths ≡ true = ground (arith, e) in
    all_from-append paths (edges_of env parsed)
      (concat_map (edges_of env) (parsed_of env stat_disk disk ps))
      (all_from-resolve env paths parsed.snap.rel parsed.cached_imports here)
      (parsed_of-edges env stat_disk disk ps paths (ground arith))

pub edge_map-all_from :
    (env : Env) (stat_disk disk : Disk) (ps paths : List Text)
    → all_in ps paths ≡ true
    → all_from paths (add_edges [] (concat_map (edges_of env) (parsed_of env stat_disk disk ps)))
      ≡ true
edge_map-all_from env stat_disk disk ps paths h =
    all_from-add_edges paths [] (concat_map (edges_of env) (parsed_of env stat_disk disk ps)) refl
      (parsed_of-edges env stat_disk disk ps paths h)

abbrev pub rows_in : List Text → List NodeRow → Bool
rows_in paths [] = true
rows_in paths (r ∷ rows) = has r.path paths && rows_in paths rows

parse_index_row :
    (env : Env) (f : FileRead) (row : NodeRow)
    → (parse_index env f).node_row ≡ some row
    → row.path ≡ f.rel
unfolding parse_index
parse_index_row env f row h = ground arith

pub node_rows-rows_in :
    (env : Env) (stat_disk disk : Disk) (ps paths : List Text)
    → all_in ps paths ≡ true
    → rows_in paths (some_of (map (λ p. p.node_row) (parsed_of env stat_disk disk ps))) ≡ true
unfolding read_file
node_rows-rows_in env stat_disk disk [] paths h = refl
node_rows-rows_in env stat_disk disk (p ∷ ps) paths h =
    let f = read_file env stat_disk disk p in
    elim (Option-cases (parse_index env f).node_row) [
      | inl e ↦ ground (arith, e, node_rows-rows_in env stat_disk disk ps paths)
      | inr (row, e) ↦
          let path : row.path ≡ p = parse_index_row env f row e in
          ground (arith, e, path, node_rows-rows_in env stat_disk disk ps paths)
    ]

upsert_node-all_right_or :
    (affected : List Text) (edges : List FileEdge) (id : ℕ) (row : NodeRow) (nodes : List FileNode)
    → has row.path affected ≡ true
    → all_right_or affected edges nodes ≡ true
    → all_right_or affected edges (upsert_node id row nodes) ≡ true
unfolding upsert_node
upsert_node-all_right_or affected edges id row [] a h = ground arith
upsert_node-all_right_or affected edges id row (n ∷ nodes) a h =
    ground (arith, upsert_node-all_right_or affected edges id row nodes)

pub upsert_nodes-all_right_or :
    (affected : List Text) (edges : List FileEdge) (id : ℕ) (rows : List NodeRow)
    (nodes : List FileNode)
    → rows_in affected rows ≡ true
    → all_right_or affected edges nodes ≡ true
    → all_right_or affected edges (upsert_nodes id rows nodes) ≡ true
unfolding upsert_nodes
upsert_nodes-all_right_or affected edges id [] nodes a h = h
upsert_nodes-all_right_or affected edges id (row ∷ rows) nodes a h = ground (
  arith,
  upsert_node-all_right_or affected edges id row nodes,
  upsert_nodes-all_right_or affected edges (id + 1) rows (upsert_node id row nodes),
)

-- Rows that hold their degrees hold those of other edges too, where a path that is not affected has the same.
pub select-all_right_or :
    (affected : List Text) (before after : List FileEdge) (f : FileNode → Bool)
    (nodes : List FileNode)
    → ((p : Text)
        → is_empty p ≡ false
        → has p affected ≡ false
        → (in_degree p after ≡ in_degree p before) × (out_degree p after ≡ out_degree p before))
    → all_right before nodes ≡ true
    → all_right_or affected after (select f nodes) ≡ true
select-all_right_or affected before after f [] same h = refl
select-all_right_or affected before after f (n ∷ nodes) same h =
    ground (arith, same n.path, select-all_right_or affected before after f nodes same)
