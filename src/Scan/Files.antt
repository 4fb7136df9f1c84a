-- ===== src/Scan/Files.antt =====
-- What a scan leaves of the degrees of the files (backend/app/scan.py).
use cgraph.Prelude.{
  ◌≡◌, inl, inr, refl, sym, subst, Bool, true, false, not, ◌&&◌, none, some, List, [], ◌∷◌, ◌++◌,
  map, if◌then◌else◌, arith, Bool-cases, Option-cases,
}
use cgraph.Prelude.Rows.{select}
use cgraph.Text.{Text, text_eq}
use cgraph.Text.Strip.{text_eq_iff}
use cgraph.Errors.{Result, ok, err, internal}
use cgraph.Graph.{Tables, FileEdge, is_empty, has, normalize, ends_of, fetch_edges_for_paths}
use cgraph.Graph.Closure.{has-append}
use cgraph.Graph.Incremental.{affected_paths}
use cgraph.Graph.Metrics.{all_right, all_right_or}
use cgraph.Scan.{Db, Env, Disk, PreparedScanData}
use cgraph.Scan.Parsing.{is_present, some_of, prepare_scan_files}
use cgraph.Scan.Writing.{delete_removed, written, write_scan_files, insert_edges}
use cgraph.Scan.Attempts.{
  verify_scan_snapshot, Moment, Outcome, nothing, updated, aborted, is_idle, after_write, attempt,
  distinct, normalized_paths, scan_files,
}
use cgraph.Scan.Degrees.{kept, all_in, written_degrees}
use cgraph.Scan.Prepared.{
  all_in_refl, all_in-select, all_named, all_in-normalize, edge_map-all_from, node_rows-rows_in,
  upsert_nodes-all_right_or, select-all_right_or,
}

all_in-append : (ps qs rs : List Text) → all_in ps qs ≡ true → all_in ps (qs ++ rs) ≡ true
all_in-append [] qs rs h = refl
all_in-append (p ∷ ps) qs rs h = ground (arith, has-append p qs rs, all_in-append ps qs rs)

-- Is every row right, or among those that the update with these lost neighbours writes?
abbrev pub Ready : List Text → List Text → Tables → Type 0
Ready normalized lost t =
    all_right_or (affected_paths normalized lost t.edges) t.edges t.nodes ≡ true

in_affected :
    (ps normalized lost : List Text) (edges : List FileEdge)
    → all_in ps normalized ≡ true
    → all_in ps (affected_paths normalized lost edges) ≡ true
unfolding affected_paths
in_affected ps normalized lost edges h =
    all_in-append ps normalized
      (select (λ p. not (is_empty p)) lost
        ++ select (λ p. not (is_empty p)) (ends_of (fetch_edges_for_paths edges normalized)))
      h

written-Ready :
    (env : Env) (stat_disk disk : Disk) (db : Db) (norm_paths normalized : List Text)
    → all_in norm_paths normalized ≡ true
    → all_right db.graph.edges db.graph.nodes ≡ true
    → (let p = prepare_scan_files env stat_disk disk db norm_paths in
        Ready normalized p.removed_edge_neighbors (written p db).graph)
unfolding prepare_scan_files written delete_removed
written-Ready env stat_disk disk db norm_paths normalized sub right =
    let p = prepare_scan_files env stat_disk disk db norm_paths in
    let after = insert_edges p.edge_map (kept p.present p.removed db.graph.edges) in
    let affected = affected_paths normalized p.removed_edge_neighbors after in
    let present_in = all_in-select (is_present env stat_disk) norm_paths normalized sub in
    let from = edge_map-all_from env stat_disk disk p.present normalized present_in in
    let rows =
      node_rows-rows_in env stat_disk disk p.present affected
        (in_affected p.present normalized p.removed_edge_neighbors after present_in) in
    upsert_nodes-all_right_or affected after db.next_id p.node_rows
      (select (λ n. not (has n.path p.removed)) db.graph.nodes) rows
      (select-all_right_or affected db.graph.edges after (λ n. not (has n.path p.removed))
        db.graph.nodes
        (λ q. written_degrees q normalized p.present p.removed p.edge_map db.graph.edges from)
        right)

-- What a scan leaves where no other session commits: right rows, or rows that the update makes right.
abbrev pub Fine : List Text → Result Outcome × Db → Type 0
Fine normalized (err e, db) = all_right db.graph.edges db.graph.nodes ≡ true
Fine normalized (ok nothing, db) = all_right db.graph.edges db.graph.nodes ≡ true
Fine normalized (ok aborted, db) = all_right db.graph.edges db.graph.nodes ≡ true
Fine normalized (ok (updated p), db) = Ready normalized p.removed_edge_neighbors db.graph

if-Fine :
    (normalized : List Text) (b : Bool) (x y : Result Outcome × Db)
    → Fine normalized x
    → Fine normalized y
    → Fine normalized (if b then x else y)
if-Fine normalized true x y h k = h
if-Fine normalized false x y h k = k

after_write-Fine :
    (env : Env) (normalized : List Text) (p : PreparedScanData) (db : Db)
    → all_right db.graph.edges db.graph.nodes ≡ true
    → Ready normalized p.removed_edge_neighbors (written p db).graph
    → Fine normalized (after_write p (write_scan_files env p db))
unfolding write_scan_files
after_write-Fine env normalized p db right ready = elim (Bool-cases env.db_fails) [
  | inl fails ↦
      subst
        (λ b.
          Fine normalized (after_write p (if b then (err internal, db) else (ok tt, written p db))))
        (sym fails) right
  | inr works ↦
      subst
        (λ b.
          Fine normalized (after_write p (if b then (err internal, db) else (ok tt, written p db))))
        (sym works) ready
]

attempt-Fine :
    (env : Env) (m : Moment) (norm_paths normalized : List Text) (db : Db)
    (retry : Db → Result Outcome × Db)
    → ((d : Db) → m.others d ≡ d)
    → all_in norm_paths normalized ≡ true
    → all_right db.graph.edges db.graph.nodes ≡ true
    → Fine normalized (retry db)
    → Fine normalized (attempt env m norm_paths db retry)
unfolding attempt
attempt-Fine env m norm_paths normalized db retry alone sub right again =
    let p = prepare_scan_files env m.stat_disk m.read_disk db norm_paths in
    let done =
      after_write-Fine env normalized p db right
        (written-Ready env m.stat_disk m.read_disk db norm_paths normalized sub right) in
    let tail : Fine normalized (
        if verify_scan_snapshot env m.lock_disk p
        then after_write p (write_scan_files env p (m.others db))
        else retry (m.others db)) =
      subst
        (λ d. Fine normalized (
          if verify_scan_snapshot env m.lock_disk p
          then after_write p (write_scan_files env p d)
          else retry d))
        (sym (alone db))
        (if-Fine normalized (verify_scan_snapshot env m.lock_disk p)
          (after_write p (write_scan_files env p db)) (retry db) done again) in
    if-Fine normalized (is_idle p) (ok nothing, db)
      (if verify_scan_snapshot env m.lock_disk p
        then after_write p (write_scan_files env p (m.others db))
        else retry (m.others db))
      right tail

-- Are the paths as `resolve_under_root` gives them?
abbrev pub are_resolved : Env → List Text → Bool
are_resolved env [] = true
are_resolved env (p ∷ ps) =
    elim (env.resolve_under_root p) [ none ↦ false | some q ↦ text_eq q p && not (is_empty p) ]
    && are_resolved env ps

resolved_named : (env : Env) (ps : List Text) → are_resolved env ps ≡ true → all_named ps ≡ true
resolved_named env [] h = refl
resolved_named env (p ∷ ps) h = ground (arith, resolved_named env ps)

resolved_same :
    (env : Env) (ps : List Text)
    → are_resolved env ps ≡ true
    → some_of (map env.resolve_under_root ps) ≡ ps
resolved_same env [] h = refl
resolved_same env (p ∷ ps) h = elim (Option-cases (env.resolve_under_root p)) [
  | inl e ↦ absurd (ground (arith, e))
  | inr (q, e) ↦
      let same : q ≡ p = (text_eq_iff q p).0 (ground (arith, e)) in
      ground (arith, e, same, resolved_same env ps)
]

all_in-distinct :
    (seen ps qs : List Text) → all_in ps qs ≡ true → all_in (distinct seen ps) qs ≡ true
unfolding distinct
all_in-distinct seen [] qs h = refl
all_in-distinct seen (p ∷ ps) qs h =
    ground (arith, all_in-distinct (p ∷ seen) ps qs, all_in-distinct seen ps qs)

all_in-normalized_paths :
    (env : Env) (rel_paths : List Text)
    → are_resolved env rel_paths ≡ true
    → all_in (normalized_paths env rel_paths) (normalize [] rel_paths) ≡ true
unfolding normalized_paths
all_in-normalized_paths env rel_paths h =
    subst (λ ps. all_in (distinct [] ps) (normalize [] rel_paths) ≡ true)
      (sym (resolved_same env rel_paths h))
      (all_in-distinct [] rel_paths (normalize [] rel_paths) (
        all_in-normalize rel_paths rel_paths (resolved_named env rel_paths h)
          (all_in_refl rel_paths)))

attempts-Fine :
    (env : Env) (m n : Moment) (norm_paths normalized : List Text) (db : Db)
    → ((d : Db) → m.others d ≡ d)
    → ((d : Db) → n.others d ≡ d)
    → all_in norm_paths normalized ≡ true
    → all_right db.graph.edges db.graph.nodes ≡ true
    → Fine normalized (elim norm_paths [
      | [] ↦ (ok nothing, db)
      | p ∷ ps ↦
          attempt env m (p ∷ ps) db (λ db'. attempt env n (p ∷ ps) db' (λ db''. (ok aborted, db'')))
    ])
attempts-Fine env m n [] normalized db alone_m alone_n sub right = right
attempts-Fine env m n (p ∷ ps) normalized db alone_m alone_n sub right =
    attempt-Fine env m (p ∷ ps) normalized db
      (λ db'. attempt env n (p ∷ ps) db' (λ db''. (ok aborted, db''))) alone_m sub right
      (attempt-Fine env n (p ∷ ps) normalized db (λ db''. (ok aborted, db'')) alone_n sub right
        right)

pub scan_files-Fine :
    (env : Env) (m n : Moment) (rel_paths : List Text) (db : Db)
    → ((d : Db) → m.others d ≡ d)
    → ((d : Db) → n.others d ≡ d)
    → are_resolved env rel_paths ≡ true
    → all_right db.graph.edges db.graph.nodes ≡ true
    → Fine (normalize [] rel_paths) (scan_files env m n rel_paths db)
unfolding scan_files
scan_files-Fine env m n rel_paths db alone_m alone_n resolved right =
    attempts-Fine env m n (normalized_paths env rel_paths) (normalize [] rel_paths) db alone_m
      alone_n (all_in-normalized_paths env rel_paths resolved) right
