-- ===== src/Scan/Attempts.antt =====
-- `_verify_scan_snapshot_async` and `scan_files_async` of backend/app/scan.py, and the indexing of a
-- mutation in backend/app/services/file_mutation_service.py.
use cgraph.Prelude.{
  Bool, true, false, ◌&&◌, Option, none, some, List, [], ◌∷◌, map, ◌==◌, if◌then◌else◌,
}
use cgraph.Text.{Text}
use cgraph.Errors.{Exception, Result, ok, err}
use cgraph.Graph
use cgraph.Graph.{has}
use cgraph.Graph.Incremental.{update_graph_metrics_incremental}
use cgraph.Scan.{
  Disk, DiskFile, Db, Env, content, oversized, stat_only, FileSnapshot, PreparedScanData,
}
use cgraph.Scan.Parsing.{is_missing, some_of, prepare_scan_files}
use cgraph.Scan.Writing.{write_scan_files}

-- `_verify_snapshot_hash_batch`, of one file
unfoldable pub verify_hash : Env → FileSnapshot → DiskFile → Bool
verify_hash env snap f = elim snap.hash_kind [
  | content ↦ elim f.text [ none ↦ false | some text ↦ env.digest text == snap.file_hash ]
  | oversized ↦ env.oversized_digest snap.size snap.mtime_ns == snap.file_hash
  | stat_only ↦ true
]

-- `_check_snapshot_fs_batch`, of one file, and then its hash
unfoldable pub verify_file : Env → Disk → FileSnapshot → Bool
unfolding verify_hash
verify_file env disk snap = elim (disk snap.rel) [
  | none ↦ false
  | some f ↦ (f.mtime_ns == snap.mtime_ns && f.size == snap.size) && verify_hash env snap f
]

abbrev pub all_of {ℓ} : {A : Type ℓ} → (A → Bool) → List A → Bool
all_of p [] = true
all_of p (x ∷ xs) = p x && all_of p xs

-- `_verify_scan_snapshot_async`; which failure is reported is left out.
unfoldable pub verify_scan_snapshot : Env → Disk → PreparedScanData → Bool
unfolding verify_file
verify_scan_snapshot env disk p =
    all_of (is_missing disk) p.removed && all_of (verify_file env disk) p.snapshot

-- What an attempt meets: the disk for `stat`, for the reading and under the lock, and what other
-- sessions commit before it has the lock.
pub record Moment : Type 0 where
  pub stat_disk : Disk
  pub read_disk : Disk
  pub lock_disk : Disk
  pub others : Db → Db

-- how a scan ends: with no file to look at, with what it has written, or with files that kept changing
pub data Outcome : Type 0 where
  nothing : Outcome
  updated : PreparedScanData → Outcome
  aborted : Outcome

abbrev pub is_idle : PreparedScanData → Bool
is_idle p = elim p.present [ [] ↦ elim p.removed [ [] ↦ true | r ∷ rs ↦ false ] | q ∷ qs ↦ false ]

abbrev pub after_write : PreparedScanData → Result (Unit {0}) × Db → Result Outcome × Db
after_write p (err e, db) = (err e, db)
after_write p (ok _, db) = (ok (updated p), db)

-- one turn of the loop, with what follows where the files have changed
unfoldable pub attempt :
    Env → Moment → List Text → Db → (Db → Result Outcome × Db) → Result Outcome × Db
unfolding prepare_scan_files verify_scan_snapshot write_scan_files
attempt env m norm_paths db retry =
    let prepared = prepare_scan_files env m.stat_disk m.read_disk db norm_paths in
    if is_idle prepared
    then (ok nothing, db)
    else if verify_scan_snapshot env m.lock_disk prepared
    then after_write prepared (write_scan_files env prepared (m.others db))
    else retry (m.others db)

-- `set`, in the order of the first occurrences
unfoldable pub distinct : List Text → List Text → List Text
distinct seen [] = []
distinct seen (p ∷ ps) =
    let later = distinct (p ∷ seen) ps in
    let same = distinct seen ps in if has p seen then same else p ∷ later

-- `norm_paths`
unfoldable pub normalized_paths : Env → List Text → List Text
unfolding distinct
normalized_paths env rel_paths = distinct [] (some_of (map env.resolve_under_root rel_paths))

-- `scan_files_async`, whose loop makes two attempts at most
unfoldable pub scan_files : Env → Moment → Moment → List Text → Db → Result Outcome × Db
unfolding attempt normalized_paths
scan_files env first_moment second_moment rel_paths db = elim (normalized_paths env rel_paths) [
  | [] ↦ (ok nothing, db)
  | p ∷ ps ↦
      attempt env first_moment (p ∷ ps) db
        (λ db'. attempt env second_moment (p ∷ ps) db' (λ db''. (ok aborted, db'')))
]

-- the update of the metrics, where `true` says that they are pending; a failure leaves the tables as the
-- scan has committed them.
unfoldable pub update_metrics :
    Graph.Env → Option Exception → List Text → List Text → Db → Result (Option Bool) × Db
unfolding update_graph_metrics_incremental
update_metrics graph_env (some e) rel_paths removed db = (err e, db)
update_metrics graph_env none rel_paths removed db =
    let (pending, graph) = update_graph_metrics_incremental graph_env rel_paths removed db.graph in
    (ok (some pending), record db { graph = graph })

-- what `run_mutation_indexing_async` does with the result of its scan
unfoldable pub index_scanned :
    Graph.Env → Option Exception → List Text → Result Outcome × Db → Result (Option Bool) × Db
unfolding update_metrics
index_scanned graph_env metrics_error rel_paths (err e, db) = (err e, db)
index_scanned graph_env metrics_error rel_paths (ok aborted, db) = (ok none, db)
index_scanned graph_env metrics_error rel_paths (ok nothing, db) =
    update_metrics graph_env metrics_error rel_paths [] db
index_scanned graph_env metrics_error rel_paths (ok (updated p), db) =
    update_metrics graph_env metrics_error rel_paths p.removed_edge_neighbors db

-- `run_mutation_indexing_async`, with what the update of the metrics raises
unfoldable pub run_mutation_indexing :
    Env
    → Graph.Env
    → Option Exception
    → Moment
    → Moment
    → List Text
    → Db
    → Result (Option Bool) × Db
unfolding scan_files index_scanned
run_mutation_indexing env graph_env metrics_error first_moment second_moment rel_paths db =
    index_scanned graph_env metrics_error rel_paths
      (scan_files env first_moment second_moment rel_paths db)
