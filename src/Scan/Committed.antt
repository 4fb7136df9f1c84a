-- ===== src/Scan/Committed.antt =====
-- What a scan commits is what the disk holds while it has the lock (backend/app/scan.py).
use cgraph.Prelude.{
  ℕ, ◌+◌, ◌≡◌, ◌⊎◌, inl, inr, refl, sym, subst, Bool, true, false, not, ◌&&◌, List, [], ◌∷◌,
  if◌then◌else◌, arith, Bool-cases, Option-cases,
}
use cgraph.Prelude.Rows.{select, any}
use cgraph.Text.{Text, text_eq}
use cgraph.Text.Strip.{text_eq_iff}
use cgraph.Errors.{Result, ok, err, internal}
use cgraph.Graph.{FileNode, has}
use cgraph.Scan.{NodeRow, Db, Env, Disk, PreparedScanData}
use cgraph.Scan.Parsing.{is_present, is_missing, read_file, parse_index, prepare_scan_files}
use cgraph.Scan.Writing.{
  is_node, delete_removed, upsert_node, upsert_nodes, written, write_scan_files,
}
use cgraph.Scan.Attempts.{
  all_of, verify_scan_snapshot, Moment, Outcome, nothing, updated, aborted, is_idle, after_write,
  attempt, normalized_paths, scan_files,
}
use cgraph.Scan.Prepared.{all_in_refl}
use cgraph.Scan.Degrees.{all_in}
use cgraph.Scan.Fresh.{rows_of, parse_index-row_hash, is_fresh, snapshot_is_fresh}

upsert_node-absent :
    (q : Text) (id : ℕ) (row : NodeRow) (nodes : List FileNode)
    → text_eq q row.path ≡ false
    → any (is_node q) nodes ≡ false
    → any (is_node q) (upsert_node id row nodes) ≡ false
unfolding upsert_node
upsert_node-absent q id row [] c h = ground arith
upsert_node-absent q id row (n ∷ nodes) c h = ground (arith, upsert_node-absent q id row nodes)

upsert_nodes-absent :
    (q : Text) (id : ℕ) (rows : List NodeRow) (nodes : List FileNode)
    → any (λ r. text_eq q r.path) rows ≡ false
    → any (is_node q) nodes ≡ false
    → any (is_node q) (upsert_nodes id rows nodes) ≡ false
unfolding upsert_nodes
upsert_nodes-absent q id [] nodes c h = h
upsert_nodes-absent q id (row ∷ rows) nodes c h =
    upsert_nodes-absent q (id + 1) rows (upsert_node id row nodes) (ground arith)
      (upsert_node-absent q id row nodes (ground arith) h)

removed-absent :
    (q : Text) (removed : List Text) (nodes : List FileNode)
    → has q removed ≡ true
    → any (is_node q) (select (λ n. not (has n.path removed)) nodes) ≡ false
removed-absent q removed [] h = refl
removed-absent q removed (n ∷ nodes) h = elim (Bool-cases (text_eq q n.path)) [
  | inr other ↦ ground (arith, removed-absent q removed nodes)
  | inl same ↦
      let e : q ≡ n.path = (text_eq_iff q n.path).0 same in
      ground (arith, subst (λ p. has p removed ≡ true) e h, removed-absent q removed nodes)
]

-- A missing file gives no row of a node.
missing-absent :
    (env : Env) (stat_disk disk : Disk) (q : Text) (ps : List Text)
    → is_missing stat_disk q ≡ true
    → any
        (λ r. text_eq q r.path)
        (rows_of env stat_disk disk (select (is_present env stat_disk) ps))
      ≡ false
unfolding read_file
missing-absent env stat_disk disk q [] h = refl
missing-absent env stat_disk disk q (p ∷ ps) h = elim (Bool-cases (is_present env stat_disk p)) [
  | inr skipped ↦ ground (arith, skipped, missing-absent env stat_disk disk q ps)
  | inl here ↦ elim (Bool-cases (text_eq q p)) [
    | inl same ↦
        let e : q ≡ p = (text_eq_iff q p).0 same in
        let gone = subst (λ r. is_missing stat_disk r ≡ true) e h in absurd (ground arith)
    | inr differs ↦
        elim (Option-cases (parse_index env (read_file env stat_disk disk p)).node_row) [
          | inl e ↦ ground (arith, here, e, missing-absent env stat_disk disk q ps)
          | inr (row, e) ↦
              let path = (parse_index-row_hash env (read_file env stat_disk disk p) row e).0 in
              let other = subst (λ r. text_eq q r ≡ false) (sym path) differs in
              ground (arith, here, e, other, missing-absent env stat_disk disk q ps)
        ]
  ]
]

-- Is the path missing on the disk and without a row?
abbrev pub is_gone : Disk → List FileNode → Text → Bool
is_gone disk nodes q = is_missing disk q && not (any (is_node q) nodes)

all_gone :
    (env : Env) (stat_disk read_disk disk : Disk) (id : ℕ) (nodes : List FileNode)
    (norm_paths removed qs : List Text)
    → all_in qs removed ≡ true
    → all_of (is_missing stat_disk) qs ≡ true
    → all_of (is_missing disk) qs ≡ true
    → all_of
        (is_gone disk (
          upsert_nodes id
            (rows_of env stat_disk read_disk (select (is_present env stat_disk) norm_paths))
            (select (λ n. not (has n.path removed)) nodes)))
        qs
      ≡ true
all_gone env stat_disk read_disk disk id nodes norm_paths removed [] sub was now = refl
all_gone env stat_disk read_disk disk id nodes norm_paths removed (q ∷ qs) sub was now =
    let rows = rows_of env stat_disk read_disk (select (is_present env stat_disk) norm_paths) in
    let absent =
      upsert_nodes-absent q id rows (select (λ n. not (has n.path removed)) nodes)
        (missing-absent env stat_disk read_disk q norm_paths (ground arith))
        (removed-absent q removed nodes (ground arith)) in
    ground (arith, absent, all_gone env stat_disk read_disk disk id nodes norm_paths removed qs)

all_of-select : (f : Text → Bool) (ps : List Text) → all_of f (select f ps) ≡ true
all_of-select f [] = refl
all_of-select f (p ∷ ps) = ground (arith, all_of-select f ps)

-- Is every removed path gone, and the row of every other file fresh?
abbrev pub is_committed : Env → Disk → PreparedScanData → Db → Bool
is_committed env disk p db =
    all_of (is_gone disk db.graph.nodes) p.removed
    && all_of (is_fresh env disk db.graph.nodes) p.snapshot

written-is_committed :
    (env : Env) (stat_disk read_disk disk : Disk) (db db' : Db) (norm_paths : List Text)
    → (let p = prepare_scan_files env stat_disk read_disk db norm_paths in
        verify_scan_snapshot env disk p ≡ true → is_committed env disk p (written p db') ≡ true)
unfolding prepare_scan_files verify_scan_snapshot written delete_removed
written-is_committed env stat_disk read_disk disk db db' norm_paths verified =
    let present = select (is_present env stat_disk) norm_paths in
    let removed = select (is_missing stat_disk) norm_paths in
    let nodes = select (λ n. not (has n.path removed)) db'.graph.nodes in
    let gone =
      all_gone env stat_disk read_disk disk db'.next_id db'.graph.nodes norm_paths removed removed
        (all_in_refl removed) (all_of-select (is_missing stat_disk) norm_paths) (ground arith) in
    let fresh =
      snapshot_is_fresh env stat_disk read_disk disk db'.next_id nodes present present
        (all_in_refl present) (ground arith) in
    ground (arith, gone, fresh)

if_ends :
    (P : Result Outcome × Db → Type 0) (b : Bool) (x y : Result Outcome × Db)
    → (b ≡ true → P x)
    → P y
    → P (if b then x else y)
if_ends P true x y h k = h refl
if_ends P false x y h k = k

after_write_ends :
    (P : Result Outcome × Db → Type 0) (p : PreparedScanData) (b : Bool) (before after : Db)
    → P (err internal, before)
    → P (ok (updated p), after)
    → P (after_write p (if b then (err internal, before) else (ok tt, after)))
after_write_ends P p true before after h k = h
after_write_ends P p false before after h k = k

-- What an attempt gives has every property that each of its ends has.
attempt_ends :
    (P : Result Outcome × Db → Type 0) (env : Env) (m : Moment) (norm_paths : List Text) (db : Db)
    (retry : Db → Result Outcome × Db)
    → P (ok nothing, db)
    → P (err internal, m.others db)
    → ((p : PreparedScanData) (db' : Db)
        → is_committed env m.lock_disk p db' ≡ true
        → P (ok (updated p), db'))
    → P (retry (m.others db))
    → P (attempt env m norm_paths db retry)
unfolding attempt write_scan_files
attempt_ends P env m norm_paths db retry idle fails commits again =
    let p = prepare_scan_files env m.stat_disk m.read_disk db norm_paths in
    let write = after_write p (write_scan_files env p (m.others db)) in
    if_ends P (is_idle p) (ok nothing, db)
      (if verify_scan_snapshot env m.lock_disk p then write else retry (m.others db)) (λ _. idle)
      (if_ends P (verify_scan_snapshot env m.lock_disk p) write (retry (m.others db))
        (λ verified.
          after_write_ends P p env.db_fails (m.others db) (written p (m.others db)) fails (
            commits p (written p (m.others db)) (
              written-is_committed env m.stat_disk m.read_disk m.lock_disk db (m.others db)
                norm_paths verified)))
        again)

-- What a scan with these two attempts may leave: nothing of its own, or what one of them found under the lock.
abbrev pub Safe : Env → Moment → Moment → Db → Result Outcome × Db → Type 0
Safe env m n db (err e, db') = (db' ≡ m.others db) ⊎ (db' ≡ n.others (m.others db))
Safe env m n db (ok nothing, db') = (db' ≡ db) ⊎ (db' ≡ m.others db)
Safe env m n db (ok aborted, db') = db' ≡ n.others (m.others db)
Safe env m n db (ok (updated p), db') =
    (is_committed env m.lock_disk p db' ≡ true) ⊎ (is_committed env n.lock_disk p db' ≡ true)

attempts-Safe :
    (env : Env) (m n : Moment) (norm_paths : List Text) (db : Db)
    → Safe env m n db (elim norm_paths [
      | [] ↦ (ok nothing, db)
      | p ∷ ps ↦
          attempt env m (p ∷ ps) db (λ db'. attempt env n (p ∷ ps) db' (λ db''. (ok aborted, db'')))
    ])
attempts-Safe env m n [] db = inl refl
attempts-Safe env m n (p ∷ ps) db =
    attempt_ends (Safe env m n db) env m (p ∷ ps) db
      (λ db'. attempt env n (p ∷ ps) db' (λ db''. (ok aborted, db''))) (inl refl) (inl refl)
      (λ prepared db' committed. inl committed)
      (attempt_ends (Safe env m n db) env n (p ∷ ps) (m.others db) (λ db''. (ok aborted, db''))
        (inr refl) (inr refl) (λ prepared db' committed. inr committed) refl)

-- However a scan of some files ends: where it has written, then in one of its attempts, under the lock,
-- every removed path was missing on the disk and has no row, and every file that was read had a text
-- whose digest its row holds; otherwise the tables are as the other sessions have left them.
pub scan_files-Safe :
    (env : Env) (first_moment second_moment : Moment) (rel_paths : List Text) (db : Db)
    → Safe env first_moment second_moment db
        (scan_files env first_moment second_moment rel_paths db)
unfolding scan_files
scan_files-Safe env m n rel_paths db = attempts-Safe env m n (normalized_paths env rel_paths) db
