-- ===== src/Scan/Snapshot.antt =====
-- The hashes in the rows of files after a scan has put its rows (backend/app/scan.py).
use cgraph.Prelude.{
  ℕ, ◌+◌, ◌≡◌, inl, inr, Bool, true, not, ◌&&◌, ◌||◌, List, [], ◌∷◌, ◌==◌, arith, Bool-cases,
  ==_iff,
}
use cgraph.Prelude.Rows.{any}
use cgraph.Text.{Text, text_eq}
use cgraph.Text.Strip.{text_eq_iff, text_eq_refl}
use cgraph.Graph.{FileNode}
use cgraph.Scan.{NodeRow}
use cgraph.Scan.Writing.{upsert_node, upsert_nodes}

-- Is there a row of this path with this hash?
abbrev pub has_hash : Text → ℕ → List FileNode → Bool
has_hash p hash nodes = any (λ n. text_eq p n.path && n.file_hash == hash) nodes

upsert_node-has_hash :
    (id : ℕ) (row : NodeRow) (nodes : List FileNode)
    → has_hash row.path row.file_hash (upsert_node id row nodes) ≡ true
unfolding upsert_node
upsert_node-has_hash id row [] = ground (arith, text_eq_refl row.path)
upsert_node-has_hash id row (n ∷ nodes) =
    ground (arith, text_eq_refl row.path, upsert_node-has_hash id row nodes)

upsert_node-keeps :
    (p : Text) (hash id : ℕ) (row : NodeRow) (nodes : List FileNode)
    → (not (text_eq p row.path) || row.file_hash == hash) ≡ true
    → has_hash p hash nodes ≡ true
    → has_hash p hash (upsert_node id row nodes) ≡ true
unfolding upsert_node
upsert_node-keeps p hash id row [] c h = absurd (ground arith)
upsert_node-keeps p hash id row (n ∷ nodes) c h = elim (Bool-cases (text_eq row.path n.path)) [
  | inl same ↦ let e : row.path ≡ n.path = (text_eq_iff row.path n.path).0 same in ground (arith, e)
  | inr differs ↦ ground (arith, upsert_node-keeps p hash id row nodes)
]

-- Does every row of this path have this hash?
abbrev pub agrees : Text → ℕ → List NodeRow → Bool
agrees p hash [] = true
agrees p hash (r ∷ rows) = (not (text_eq p r.path) || r.file_hash == hash) && agrees p hash rows

upsert_nodes-keeps :
    (p : Text) (hash id : ℕ) (rows : List NodeRow) (nodes : List FileNode)
    → agrees p hash rows ≡ true
    → has_hash p hash nodes ≡ true
    → has_hash p hash (upsert_nodes id rows nodes) ≡ true
unfolding upsert_nodes
upsert_nodes-keeps p hash id [] nodes c h = h
upsert_nodes-keeps p hash id (row ∷ rows) nodes c h =
    upsert_nodes-keeps p hash (id + 1) rows (upsert_node id row nodes) (ground arith)
      (upsert_node-keeps p hash id row nodes (ground arith) h)

-- Is there a row of this path with this hash among the rows of the scan?
abbrev pub row_hash : Text → ℕ → List NodeRow → Bool
row_hash p hash rows = any (λ r. text_eq p r.path && r.file_hash == hash) rows

pub upsert_nodes-has_hash :
    (p : Text) (hash id : ℕ) (rows : List NodeRow) (nodes : List FileNode)
    → agrees p hash rows ≡ true
    → row_hash p hash rows ≡ true
    → has_hash p hash (upsert_nodes id rows nodes) ≡ true
unfolding upsert_nodes
upsert_nodes-has_hash p hash id [] nodes c h = absurd (ground arith)
upsert_nodes-has_hash p hash id (row ∷ rows) nodes c h =
    elim (Bool-cases (text_eq p row.path && row.file_hash == hash)) [
      | inr other ↦
          upsert_nodes-has_hash p hash (id + 1) rows (upsert_node id row nodes) (ground arith)
            (ground arith)
      | inl here ↦
          let path : p ≡ row.path = (text_eq_iff p row.path).0 (ground arith) in
          let written_row = upsert_node-has_hash id row nodes in
          upsert_nodes-keeps p hash (id + 1) rows (upsert_node id row nodes) (ground arith)
            (ground (arith, path, written_row, (==_iff row.file_hash hash).0))
    ]
