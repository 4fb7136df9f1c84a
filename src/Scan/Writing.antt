-- ===== src/Scan/Writing.antt =====
-- `_write_scan_files_async` of backend/app/scan.py, with the deletions that it calls. Two rows of one key
-- in one upsert, which the database refuses, are among its failures.
use cgraph.Prelude.{
  ℕ, ◌+◌, Bool, true, false, not, ◌&&◌, ◌||◌, List, [], ◌∷◌, ◌++◌, ◌==◌, if◌then◌else◌,
}
use cgraph.Prelude.Rows.{select, any, update_first}
use cgraph.Text.{Text, codes, text_eq}
use cgraph.Text.Number.{negsuc}
use cgraph.Errors.{Result, ok, err, internal}
use cgraph.Graph.{FileNode, FileEdge, Tables, has}
use cgraph.Scan.{
  NodeRow, FileText, ApiTable, api_route, api_call, api_include, api_route_contract, api_call_meta,
  ts_type_def, ApiRow, Db, Env, PreparedScanData,
}
use cgraph.Scan.Parsing.{same_key}

abbrev pub is_node : Text → FileNode → Bool
is_node p n = text_eq p n.path

-- the deletion of the rows of removed files
unfoldable pub delete_removed : List Text → Tables → Tables
delete_removed removed t = record t {
  edges = select (λ e. not (has e.src_path removed || has e.dst_path removed)) t.edges;
  nodes = select (λ n. not (has n.path removed)) t.nodes;
}

-- `_search_index_delete_async`
unfoldable pub search_index_delete : List Text → List FileText → List FileText
search_index_delete paths texts = select (λ t. not (has t.path paths)) texts

abbrev pub is_include : ApiTable → Bool
is_include api_include = true
is_include api_route = false
is_include api_call = false
is_include api_route_contract = false
is_include api_call_meta = false
is_include ts_type_def = false

-- `_delete_api_indexes_async`
unfoldable pub delete_api_indexes : List Text → List ApiRow → List ApiRow
delete_api_indexes paths rows =
    select
      (λ r. not (has r.source_path paths || (is_include r.table && has r.child_source_path paths)))
      rows

-- the insertion of a search row, `on_conflict_do_update`
unfoldable pub upsert_text : FileText → List FileText → List FileText
upsert_text row texts =
    if any (λ t. text_eq row.path t.path) texts
    then update_first (λ t. text_eq row.path t.path) (λ t. record t { content = row.content }) texts
    else texts ++ (row ∷ [])

abbrev pub table_number : ApiTable → ℕ
table_number api_route = 0
table_number api_call = 1
table_number api_include = 2
table_number api_route_contract = 3
table_number api_call_meta = 4
table_number ts_type_def = 5

abbrev pub same_api_key : ApiRow → ApiRow → Bool
same_api_key r s =
    table_number r.table == table_number s.table
    && (text_eq r.source_path s.source_path
        && (text_eq r.child_source_path s.child_source_path && r.key == s.key))

-- Is the statement of this table `on_conflict_do_update`?
abbrev pub updates : ApiTable → Bool
updates api_route = false
updates api_call = false
updates api_include = false
updates api_route_contract = true
updates api_call_meta = true
updates ts_type_def = true

unfoldable pub insert_api : ApiRow → List ApiRow → List ApiRow
insert_api row rows =
    if any (same_api_key row) rows
    then (if updates row.table
        then update_first (same_api_key row) (λ r. record r { body = row.body }) rows
        else rows)
    else rows ++ (row ∷ [])

-- the insertion of a node, whose conflict updates what the scan knows and leaves the metrics
unfoldable pub upsert_node : ℕ → NodeRow → List FileNode → List FileNode
upsert_node id row nodes =
    if any (is_node row.path) nodes
    then update_first (is_node row.path)
        (λ n. record n {
          language = row.language;
          loc = row.loc;
          complexity = row.complexity;
          file_hash = row.file_hash;
          file_mtime_ns = row.file_mtime_ns;
          file_size = row.file_size;
        })
        nodes
    else nodes
      ++ (record {
        id = id;
        path = row.path;
        language = row.language;
        loc = row.loc;
        complexity = row.complexity;
        fan_in = 0;
        fan_out = 0;
        scc_id = negsuc 0;
        status = codes "new";
        file_hash = row.file_hash;
        file_mtime_ns = row.file_mtime_ns;
        file_size = row.file_size;
      }
          ∷ [])

unfoldable pub upsert_nodes : ℕ → List NodeRow → List FileNode → List FileNode
unfolding upsert_node
upsert_nodes id [] nodes = nodes
upsert_nodes id (row ∷ rows) nodes = upsert_nodes (id + 1) rows (upsert_node id row nodes)

-- the insertion of the edges, `on_conflict_do_nothing`
unfoldable pub insert_edges : List FileEdge → List FileEdge → List FileEdge
insert_edges [] edges = edges
insert_edges (e ∷ es) edges =
    insert_edges es (if any (same_key e) edges then edges else edges ++ (e ∷ []))

abbrev pub apply_all {ℓ κ} : {A : Type ℓ} {B : Type κ} → (A → B → B) → List A → B → B
apply_all f [] b = b
apply_all f (x ∷ xs) b = apply_all f xs (f x b)

abbrev pub count {ℓ} : {A : Type ℓ} → List A → ℕ
count [] = 0
count (x ∷ xs) = 1 + count xs

-- the tables after all statements
unfoldable pub written : PreparedScanData → Db → Db
unfolding delete_removed search_index_delete delete_api_indexes upsert_text insert_api upsert_nodes
    insert_edges
written p db =
    let to_del = p.present ++ p.removed in
    let graph = delete_removed p.removed db.graph in
    record {
      graph = record graph {
        nodes = upsert_nodes db.next_id p.node_rows graph.nodes;
        edges = insert_edges p.edge_map (select (λ e. not (has e.src_path p.present)) graph.edges);
      };
      texts = apply_all upsert_text p.search_rows (search_index_delete to_del db.texts);
      api = apply_all insert_api p.api_rows (delete_api_indexes to_del db.api);
      next_id = db.next_id + count p.node_rows;
    }

-- `_write_scan_files_async`: it commits at the end, so that a failure leaves the tables alone.
unfoldable pub write_scan_files : Env → PreparedScanData → Db → Result (Unit {0}) × Db
unfolding written
write_scan_files env p db = if env.db_fails then (err internal, db) else (ok tt, written p db)
