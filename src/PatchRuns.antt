-- ===== src/PatchRuns.antt =====
-- `_apply_patch_and_record_async` of backend/app/services/task_service.py: the patch of a run is applied,
-- the changed files are scanned, the metrics updated, and the run's row told. Of the contracts, only
-- what they raise is kept.
pub mod Ending
pub mod Row
pub mod Done
pub mod Telling
use cgraph.Prelude.{
  ℕ, Bool, true, false, not, ◌||◌, Option, none, some, List, [], ◌∷◌, ◌++◌, map, if◌then◌else◌,
}
use cgraph.Prelude.Rows.{select}
use cgraph.Text.{Text, codes, strip}
use cgraph.Errors.{Exception, Result, ok, err, locked, project_busy, internal, cancelled}
use cgraph.Graph
use cgraph.Graph.{FileNode, Tables, is_empty}
use cgraph.Graph.Incremental.{update_graph_metrics_incremental}
use cgraph.Patches
use cgraph.Patches.{PatchApplyError, invalid_diff, make_failed, os_error, raise, ◌>>=◌}
use cgraph.Patches.Apply
use cgraph.Patches.Apply.{PatchedFile, File, has, resolve_target, apply_unified_diff}
use cgraph.Scan
use cgraph.Scan.{Db, PreparedScanData}
use cgraph.Scan.Attempts
use cgraph.Scan.Attempts.{Moment, nothing, updated, aborted, distinct, scan_files}

-- why a patch is refused
pub data Refusal : Type 0 where
  empty_patch : Refusal
  out_of_context : List Text → Refusal
  refused : PatchApplyError → Refusal

-- what stays unindexed
pub data Unindexed : Type 0 where
  reindex_error reindex_aborted : Unindexed

-- `applied`: a failure, a success with the changed paths, or those with an index that is left behind
pub data Applied : Type 0 where
  failed : Refusal → Applied
  success : List Text → Applied
  partial : List Text → Unindexed → Applied

-- The settings; what `unidiff` reads; the environments of the patch, of the scan and of the metrics;
-- whether the lock of the project is taken; and what the update of the metrics, the marking of the nodes,
-- the contracts and the writing of the run's row raise.
pub record Env : Type 0 where
  pub require_in_context : Bool
  pub allow_out_of_context_patch : Bool
  pub allowed_patch_paths : List Text
  pub patch_set : Text → Option (List PatchedFile)
  pub patch : Apply.Env
  pub scan : Scan.Env
  pub graph : Graph.Env
  pub first_moment : Moment
  pub second_moment : Moment
  pub is_locked : Bool
  pub metrics_error : Option Exception
  pub mark_error : Option Exception
  pub contract_error : Option Exception
  pub record_error : Option Exception

-- the files and the tables of the project, and `applied_json` of the run, if its row is there
pub record Site : Type 0 where
  pub files : List File
  pub db : Db
  pub has_run : Bool
  pub applied_json : Option Applied

-- `_parse_diff_paths`, of the files that `unidiff` has read
unfoldable pub parse_diff_paths :
    Apply.Env → List Text → List PatchedFile → Patches.Outcome (List Text)
unfolding resolve_target
parse_diff_paths env seen [] = Patches.ok []
parse_diff_paths env seen (f ∷ fs) = resolve_target env f.path >>= λ rel.
    parse_diff_paths env (rel ∷ seen) fs >>= λ rels.
    Patches.ok (if has rel seen then rels else rel ∷ rels)

-- `allowed`
abbrev pub allowed_paths : Env → List Text → Option (List Text)
allowed_paths env diff_paths =
    if env.require_in_context
    then some
        (env.allowed_patch_paths ++ (if env.allow_out_of_context_patch then diff_paths else []))
    else none

-- `blocked_paths`
unfoldable pub blocked_paths : Env → List Text → List Text
unfolding distinct
blocked_paths env diff_paths = elim (allowed_paths env diff_paths) [
  | none ↦ []
  | some allowed ↦ distinct [] (select (λ p. not (has p allowed)) diff_paths)
]

-- `_mark_patched_nodes_async`
unfoldable pub mark_patched_nodes : List Text → Db → Db
mark_patched_nodes modified db = record db {
  graph = record db.graph {
    nodes =
        map (λ n. if has n.path modified then record n { status = codes "patched" } else n)
          db.graph.nodes;
  };
}

-- the end of a handler
abbrev pub left_behind : Env → List Text → Unindexed → Site → Result Applied × Site
left_behind env modified why site = elim env.mark_error [
  | some e ↦ (err e, site)
  | none ↦ (ok (partial modified why), record site { db = mark_patched_nodes modified site.db })
]

-- `except Exception` lets a cancellation pass.
abbrev pub unindexed : Env → List Text → Exception → Site → Result Applied × Site
unindexed env modified cancelled site = (err cancelled, site)
unindexed env modified e site = left_behind env modified reindex_error site

-- the metrics after a scan that has ended
unfoldable pub update_metrics : Env → List Text → List Text → Site → Result Applied × Site
unfolding update_graph_metrics_incremental mark_patched_nodes
update_metrics env modified neighbors site =
    let (pending, graph) =
      update_graph_metrics_incremental env.graph modified neighbors site.db.graph in
    elim env.metrics_error [
      | some e ↦ unindexed env modified e site
      | none ↦ (ok (success modified), record site { db = record site.db { graph = graph } })
    ]

abbrev pub after_scan :
    Env → List Text → Site → Result Attempts.Outcome × Db → Result Applied × Site
after_scan env modified site (err e, db) = unindexed env modified e (record site { db = db })
after_scan env modified site (ok aborted, db) =
    left_behind env modified reindex_aborted (record site { db = db })
after_scan env modified site (ok nothing, db) =
    update_metrics env modified [] (record site { db = db })
after_scan env modified site (ok (updated p), db) =
    update_metrics env modified p.removed_edge_neighbors (record site { db = db })

-- the scan and the metrics of the changed files
unfoldable pub reindex : Env → List Text → Site → Result Applied × Site
unfolding scan_files update_metrics mark_patched_nodes
reindex env modified site =
    after_scan env modified site
      (scan_files env.scan env.first_moment env.second_moment modified site.db)

-- the contracts of the changed files, as far as they raise
abbrev pub then_contracts : Env → Result Applied × Site → Result Applied × Site
then_contracts env (err e, site) = (err e, site)
then_contracts env (ok applied, site) = elim env.contract_error [
  | some e ↦ (err e, site)
  | none ↦ (ok applied, site)
]

-- An `OSError` is no `PatchApplyError`, and passes.
abbrev pub refuse : PatchApplyError → Site → Result Applied × Site
refuse os_error site = (err internal, site)
refuse make_failed site = (err internal, site)
refuse e site = (ok (failed (refused e)), site)

abbrev pub after_patch :
    Env → Site → Patches.Outcome (List Text) × List File → Result Applied × Site
after_patch env site (raise e, files) = refuse e (record site { files = files })
after_patch env site (Patches.ok modified, files) =
    then_contracts env (reindex env (distinct [] modified) (record site { files = files }))

abbrev pub unless_blocked : List Text → Site → Result Applied × Site → Result Applied × Site
unless_blocked [] site done = done
unless_blocked (p ∷ ps) site done = (ok (failed (out_of_context (p ∷ ps))), site)

-- with the paths of the diff
unfoldable pub apply_in_context : Env → List PatchedFile → List Text → Site → Result Applied × Site
unfolding blocked_paths reindex distinct
apply_in_context env patch diff_paths site = unless_blocked (blocked_paths env diff_paths) site (
    after_patch env site (
      apply_unified_diff (record env.patch { allowed_rel_paths = allowed_paths env diff_paths })
        patch site.files))

abbrev pub with_paths :
    Env → List PatchedFile → Site → Patches.Outcome (List Text) → Result Applied × Site
with_paths env patch site (raise e) = refuse e site
with_paths env patch site (Patches.ok diff_paths) = apply_in_context env patch diff_paths site

abbrev pub with_patch : Env → Site → Option (List PatchedFile) → Result Applied × Site
with_patch env site none = (ok (failed (refused invalid_diff)), site)
with_patch env site (some patch) = with_paths env patch site (parse_diff_paths env.patch [] patch)

-- the body of the `try`
unfoldable pub apply_patch : Env → Text → Site → Result Applied × Site
unfolding strip apply_in_context parse_diff_paths
apply_patch env patch_text site =
    if is_empty (strip patch_text)
    then (ok (failed empty_patch), site)
    else if env.is_locked
    then (err (locked project_busy), site)
    else with_patch env site (env.patch_set patch_text)

abbrev pub recorded : Env → Result Applied × Site → Result Applied × Site
recorded env (err e, site) = (err e, site)
recorded env (ok applied, site) =
    if site.has_run
    then elim env.record_error [
      | some e ↦ (err e, site)
      | none ↦ (ok applied, record site { applied_json = some applied })
    ]
    else (ok applied, site)

-- `_apply_patch_and_record_async`
unfoldable pub apply_patch_and_record : Env → Text → Site → Result Applied × Site
unfolding apply_patch
apply_patch_and_record env patch_text site = recorded env (apply_patch env patch_text site)
