-- ===== src/PatchRuns/Row.antt =====
-- The row of a run before its result is recorded (backend/app/services/task_service.py).
use cgraph.Prelude.{
  ◌≡◌, refl, ◌∙◌, ap, none, some, Option, Option-cases, inl, inr, List, [], ◌∷◌, arith,
}
use cgraph.Text.{Text}
use cgraph.Errors.{Exception, cancelled, Result, ok, err}
use cgraph.Patches
use cgraph.Patches.{PatchApplyError, raise}
use cgraph.Patches.Apply.{PatchedFile, File, apply_unified_diff}
use cgraph.Scan.{Db}
use cgraph.Scan.Attempts
use cgraph.Scan.Attempts.{Outcome, nothing, updated, aborted, distinct, scan_files}
use cgraph.PatchRuns.{
  Applied, Env, Site, parse_diff_paths, allowed_paths, blocked_paths, unindexed, after_scan,
  update_metrics, reindex, after_patch, unless_blocked, apply_in_context, with_paths, with_patch,
  apply_patch,
}
use cgraph.PatchRuns.Ending.{then_contracts_site, refuse_site}

unindexed-row :
    (env : Env) (modified : List Text) (e : Exception) (site : Site)
    → (unindexed env modified e site).1.applied_json ≡ site.applied_json
unindexed-row env modified cancelled site = refl
unindexed-row env modified e site = ground arith

update_metrics-row :
    (env : Env) (modified neighbors : List Text) (site : Site)
    → (update_metrics env modified neighbors site).1.applied_json ≡ site.applied_json
unfolding update_metrics
update_metrics-row env modified neighbors site = elim (Option-cases env.metrics_error) [
  | inl works ↦ ground (arith, works)
  | inr (e, fails) ↦ ground (arith, fails, unindexed-row env modified e site)
]

after_scan-row :
    (env : Env) (modified : List Text) (site : Site) (scanned : Result Attempts.Outcome × Db)
    → (after_scan env modified site scanned).1.applied_json ≡ site.applied_json
after_scan-row env modified site (err e, db) =
    unindexed-row env modified e (record site { db = db })
after_scan-row env modified site (ok aborted, db) = ground arith
after_scan-row env modified site (ok nothing, db) =
    update_metrics-row env modified [] (record site { db = db })
after_scan-row env modified site (ok (updated p), db) =
    update_metrics-row env modified p.removed_edge_neighbors (record site { db = db })

reindex-row :
    (env : Env) (modified : List Text) (site : Site)
    → (reindex env modified site).1.applied_json ≡ site.applied_json
unfolding reindex
reindex-row env modified site =
    after_scan-row env modified site
      (scan_files env.scan env.first_moment env.second_moment modified site.db)

after_patch-row :
    (env : Env) (site : Site) (patched : Patches.Outcome (List Text) × List File)
    → (after_patch env site patched).1.applied_json ≡ site.applied_json
after_patch-row env site (raise e, files) =
    ap (λ s. s.applied_json) (refuse_site e (record site { files = files }))
after_patch-row env site (Patches.ok modified, files) =
    let site' = record site { files = files } in
    ap (λ s. s.applied_json) (then_contracts_site env (reindex env (distinct [] modified) site'))
    ∙ reindex-row env (distinct [] modified) site'

unless_blocked-row :
    (site : Site) (blocked : List Text) (done : Result Applied × Site)
    → done.1.applied_json ≡ site.applied_json
    → (unless_blocked blocked site done).1.applied_json ≡ site.applied_json
unless_blocked-row site [] done h = h
unless_blocked-row site (p ∷ ps) done h = refl

with_paths-row :
    (env : Env) (patch : List PatchedFile) (site : Site) (paths : Patches.Outcome (List Text))
    → (with_paths env patch site paths).1.applied_json ≡ site.applied_json
unfolding apply_in_context
with_paths-row env patch site (raise e) = ap (λ s. s.applied_json) (refuse_site e site)
with_paths-row env patch site (Patches.ok diff_paths) =
    let patched =
      apply_unified_diff (record env.patch { allowed_rel_paths = allowed_paths env diff_paths })
        patch site.files in
    unless_blocked-row site (blocked_paths env diff_paths) (after_patch env site patched)
      (after_patch-row env site patched)

with_patch-row :
    (env : Env) (site : Site) (patch : Option (List PatchedFile))
    → (with_patch env site patch).1.applied_json ≡ site.applied_json
with_patch-row env site none = refl
with_patch-row env site (some patch) =
    with_paths-row env patch site (parse_diff_paths env.patch [] patch)

pub apply_patch-row :
    (env : Env) (patch_text : Text) (site : Site)
    → (apply_patch env patch_text site).1.applied_json ≡ site.applied_json
unfolding apply_patch
apply_patch-row env patch_text site =
    ground (arith, with_patch-row env site (env.patch_set patch_text))
