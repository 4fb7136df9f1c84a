-- ===== src/Scan/Fresh.antt =====
-- The rows of the files that a scan has read and found unchanged (backend/app/scan.py).
use cgraph.Prelude.{
  ◌≢◌, ap, ℕ, ◌≡◌, ◌⊎◌, inl, inr, refl, sym, ◌∙◌, subst, Bool, true, false, none, some, List, [],
  ◌∷◌, map, ◌==◌, arith, Bool-cases, Option-cases, ==_iff,
}
use cgraph.Text.{Text, text_eq}
use cgraph.Text.Strip.{text_eq_iff}
use cgraph.Graph.{FileNode, has}
use cgraph.Scan.{NodeRow, Env, Disk, HashKind, content, oversized, stat_only, FileSnapshot}
use cgraph.Scan.Parsing.{some_of, FileRead, read_file, parse_index}
use cgraph.Scan.Writing.{upsert_nodes}
use cgraph.Scan.Attempts.{verify_hash, verify_file, all_of}
use cgraph.Scan.Prepared.{parsed_of, parse_index-rel}
use cgraph.Scan.Snapshot.{has_hash, agrees, row_hash, upsert_nodes-has_hash}
use cgraph.Scan.Degrees.{all_in}

pub parse_index-row_hash :
    (env : Env) (f : FileRead) (row : NodeRow)
    → (parse_index env f).node_row ≡ some row
    → (row.path ≡ f.rel) × (row.file_hash ≡ (parse_index env f).snap.file_hash)
unfolding parse_index
parse_index-row_hash env f row h = ground arith

parse_index-content :
    (env : Env) (f : FileRead)
    → (parse_index env f).snap.hash_kind ≡ content
    → (parse_index env f).node_row ≢ none
unfolding parse_index
parse_index-content env f h = ground arith

-- the rows of the nodes that a scan of these paths has
abbrev pub rows_of : Env → Disk → Disk → List Text → List NodeRow
rows_of env stat_disk disk ps = some_of (map (λ p. p.node_row) (parsed_of env stat_disk disk ps))

rows_of-agrees :
    (env : Env) (stat_disk disk : Disk) (p : Text) (ps : List Text)
    → agrees p
        (parse_index env (read_file env stat_disk disk p)).snap.file_hash
        (rows_of env stat_disk disk ps)
      ≡ true
unfolding read_file
rows_of-agrees env stat_disk disk p [] = refl
rows_of-agrees env stat_disk disk p (q ∷ ps) =
    elim (Option-cases (parse_index env (read_file env stat_disk disk q)).node_row) [
      | inl e ↦ ground (arith, e, rows_of-agrees env stat_disk disk p ps)
      | inr (row, e) ↦
          let (path, hash) = parse_index-row_hash env (read_file env stat_disk disk q) row e in
          elim (Bool-cases (text_eq p row.path)) [
            | inr other ↦ ground (arith, e, rows_of-agrees env stat_disk disk p ps)
            | inl same ↦
                let pq : p ≡ q = (text_eq_iff p row.path).0 same ∙ path in
                let eq : (row.file_hash
                      == (parse_index env (read_file env stat_disk disk p)).snap.file_hash)
                    ≡ true =
                  (==_iff row.file_hash _).1 (
                    hash
                    ∙ ap (λ r. (parse_index env (read_file env stat_disk disk r)).snap.file_hash)
                        (sym pq)) in
                ground (arith, e, eq, rows_of-agrees env stat_disk disk p ps)
          ]
    ]

rows_of-row_hash_head :
    (env : Env) (stat_disk disk : Disk) (p : Text) (ps : List Text)
    → (parse_index env (read_file env stat_disk disk p)).snap.hash_kind ≡ content
    → row_hash p
        (parse_index env (read_file env stat_disk disk p)).snap.file_hash
        (rows_of env stat_disk disk (p ∷ ps))
      ≡ true
unfolding read_file
rows_of-row_hash_head env stat_disk disk p ps kind =
    let f = read_file env stat_disk disk p in
    elim (Option-cases (parse_index env f).node_row) [
      | inl e ↦ absurd (parse_index-content env f kind e)
      | inr (row, e) ↦
          let (path, hash) = parse_index-row_hash env f row e in
          let same : text_eq p row.path ≡ true = (text_eq_iff p row.path).1 (sym path) in
          let eq = (==_iff row.file_hash (parse_index env f).snap.file_hash).1 hash in
          ground (arith, e, same, eq)
    ]

rows_of-row_hash :
    (env : Env) (stat_disk disk : Disk) (p : Text) (ps : List Text)
    → (parse_index env (read_file env stat_disk disk p)).snap.hash_kind ≡ content
    → has p ps ≡ true
    → row_hash p
        (parse_index env (read_file env stat_disk disk p)).snap.file_hash
        (rows_of env stat_disk disk ps)
      ≡ true
rows_of-row_hash env stat_disk disk p [] kind h = absurd (ground arith)
rows_of-row_hash env stat_disk disk p (q ∷ ps) kind h =
    let hash = (parse_index env (read_file env stat_disk disk p)).snap.file_hash in
    elim (Bool-cases (text_eq p q)) [
      | inl same ↦
          subst (λ r. row_hash p hash (rows_of env stat_disk disk (r ∷ ps)) ≡ true)
            ((text_eq_iff p q).0 same) (rows_of-row_hash_head env stat_disk disk p ps kind)
      | inr other ↦
          let rest = rows_of-row_hash env stat_disk disk p ps kind (ground arith) in
          elim (Option-cases (parse_index env (read_file env stat_disk disk q)).node_row) [
            | inl e ↦ ground (arith, e, rest)
            | inr (row, e) ↦ ground (arith, e, rest)
          ]
    ]

-- Does the row of a file that was read have the digest of what the disk holds?
abbrev pub is_fresh : Env → Disk → List FileNode → FileSnapshot → Bool
is_fresh env disk nodes snap = elim snap.hash_kind [
  | content ↦ elim (disk snap.rel) [
    | none ↦ false
    | some f ↦ elim f.text [ none ↦ false | some text ↦ has_hash snap.rel (env.digest text) nodes ]
  ]
  | oversized ↦ true
  | stat_only ↦ true
]

kind_cases : (k : HashKind) → (k ≡ content) ⊎ ((k ≡ oversized) ⊎ (k ≡ stat_only))
kind_cases content = inl refl
kind_cases oversized = inr (inl refl)
kind_cases stat_only = inr (inr refl)

verify_file-is_fresh :
    (env : Env) (disk : Disk) (nodes : List FileNode) (snap : FileSnapshot)
    → (snap.hash_kind ≡ content → has_hash snap.rel snap.file_hash nodes ≡ true)
    → verify_file env disk snap ≡ true
    → is_fresh env disk nodes snap ≡ true
unfolding verify_file verify_hash
verify_file-is_fresh env disk nodes snap put h = elim (kind_cases snap.hash_kind) [
  | inr (inl e) ↦ ground (arith, e)
  | inr (inr e) ↦ ground (arith, e)
  | inl e ↦ elim (Option-cases (disk snap.rel)) [
    | inl gone ↦ absurd (ground (arith, gone))
    | inr (f, there) ↦ elim (Option-cases f.text) [
      | inl unread ↦ absurd (ground (arith, e, there, unread))
      | inr (text, read) ↦
          let eq : (env.digest text == snap.file_hash) ≡ true = ground (arith, e, there, read) in
          let same : env.digest text ≡ snap.file_hash =
            (==_iff (env.digest text) snap.file_hash).0 eq in
          let here = put e in ground (arith, e, there, read, same, here)
    ]
  ]
]

pub snapshot_is_fresh :
    (env : Env) (stat_disk read_disk disk : Disk) (id : ℕ) (nodes : List FileNode)
    (present ps : List Text)
    → all_in ps present ≡ true
    → all_of (verify_file env disk) (map (λ p. p.snap) (parsed_of env stat_disk read_disk ps))
      ≡ true
    → all_of
        (is_fresh env disk (upsert_nodes id (rows_of env stat_disk read_disk present) nodes))
        (map (λ p. p.snap) (parsed_of env stat_disk read_disk ps))
      ≡ true
unfolding read_file
snapshot_is_fresh env stat_disk read_disk disk id nodes present [] sub h = refl
snapshot_is_fresh env stat_disk read_disk disk id nodes present (p ∷ ps) sub h =
    let f = read_file env stat_disk read_disk p in
    let snap = (parse_index env f).snap in
    let nodes' = upsert_nodes id (rows_of env stat_disk read_disk present) nodes in
    let rel : snap.rel ≡ p = parse_index-rel env f in
    let put : snap.hash_kind ≡ content → has_hash snap.rel snap.file_hash nodes' ≡ true = λ kind.
      subst (λ r. has_hash r snap.file_hash nodes' ≡ true) (sym rel)
        (upsert_nodes-has_hash p snap.file_hash id (rows_of env stat_disk read_disk present) nodes
          (rows_of-agrees env stat_disk read_disk p present)
          (rows_of-row_hash env stat_disk read_disk p present kind (ground arith))) in
    let fresh = verify_file-is_fresh env disk nodes' snap put (ground arith) in
    ground (arith, fresh, snapshot_is_fresh env stat_disk read_disk disk id nodes present ps)
