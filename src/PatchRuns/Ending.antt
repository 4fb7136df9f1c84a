-- ===== src/PatchRuns/Ending.antt =====
-- What the application of a run's patch leaves (backend/app/services/task_service.py,
-- backend/app/patches.py).
use cgraph.Prelude.{
  Option-cases, inl, inr, none, some, Option, ◌≡◌, refl, sym, ◌∙◌, subst, ap, true, false, some,
  List, [], ◌∷◌, ◌++◌, arith, append-nil,
}
use cgraph.Text.{Text}
use cgraph.Errors.{Exception, cancelled, Result, ok, err}
use cgraph.Patches
use cgraph.Patches.{PatchApplyError, raise, make_failed, os_error}
use cgraph.Patches.Apply
use cgraph.Patches.Apply.{PatchedFile, File, has, content_of, apply_unified_diff}
use cgraph.Patches.Scope.{apply_unified_diff-others}
use cgraph.Scan.{Db}
use cgraph.Scan.Attempts
use cgraph.Scan.Attempts.{Outcome, nothing, updated, aborted, distinct, scan_files}
use cgraph.PatchRuns.{
  Applied, Env, Site, parse_diff_paths, allowed_paths, blocked_paths, after_scan, update_metrics,
  unindexed, then_contracts, reindex, refuse, after_patch, unless_blocked, apply_in_context,
  with_paths, with_patch, apply_patch, recorded, apply_patch_and_record,
}

pub unindexed-files :
    (env : Env) (modified : List Text) (e : Exception) (site : Site)
    → (unindexed env modified e site).1.files ≡ site.files
unindexed-files env modified cancelled site = refl
unindexed-files env modified e site = ground arith

update_metrics-files :
    (env : Env) (modified neighbors : List Text) (site : Site)
    → (update_metrics env modified neighbors site).1.files ≡ site.files
unfolding update_metrics
update_metrics-files env modified neighbors site = elim (Option-cases env.metrics_error) [
  | inl works ↦ ground (arith, works)
  | inr (e, fails) ↦ ground (arith, fails, unindexed-files env modified e site)
]

after_scan-files :
    (env : Env) (modified : List Text) (site : Site) (scanned : Result Attempts.Outcome × Db)
    → (after_scan env modified site scanned).1.files ≡ site.files
after_scan-files env modified site (err e, db) =
    unindexed-files env modified e (record site { db = db })
after_scan-files env modified site (ok aborted, db) = ground arith
after_scan-files env modified site (ok nothing, db) =
    update_metrics-files env modified [] (record site { db = db })
after_scan-files env modified site (ok (updated p), db) =
    update_metrics-files env modified p.removed_edge_neighbors (record site { db = db })

pub reindex-files :
    (env : Env) (modified : List Text) (site : Site)
    → (reindex env modified site).1.files ≡ site.files
unfolding reindex
reindex-files env modified site =
    after_scan-files env modified site
      (scan_files env.scan env.first_moment env.second_moment modified site.db)

pub then_contracts_site :
    (env : Env) (done : Result Applied × Site) → (then_contracts env done).1 ≡ done.1
then_contracts_site env (err e, site) = refl
then_contracts_site env (ok applied, site) = elim (Option-cases env.contract_error) [
  | inl works ↦ ground (arith, works)
  | inr (e, fails) ↦ ground (arith, fails)
]

pub refuse_site : (e : PatchApplyError) (site : Site) → (refuse e site).1 ≡ site
refuse_site os_error site = refl
refuse_site make_failed site = refl
refuse_site e site = refl

after_patch-files :
    (env : Env) (site : Site) (patched : Patches.Outcome (List Text) × List File)
    → (after_patch env site patched).1.files ≡ patched.1
after_patch-files env site (raise e, files) =
    ap (λ s. s.files) (refuse_site e (record site { files = files }))
after_patch-files env site (Patches.ok modified, files) =
    let site' = record site { files = files } in
    ap (λ s. s.files) (then_contracts_site env (reindex env (distinct [] modified) site'))
    ∙ reindex-files env (distinct [] modified) site'

unless_blocked-others :
    (site : Site) (q : Text) (blocked : List Text) (done : Result Applied × Site)
    → content_of q done.1.files ≡ content_of q site.files
    → content_of q (unless_blocked blocked site done).1.files ≡ content_of q site.files
unless_blocked-others site q [] done h = h
unless_blocked-others site q (p ∷ ps) done h = refl

apply_in_context-others :
    (env : Env) (patch : List PatchedFile) (diff_paths : List Text) (site : Site) (q : Text)
    → env.require_in_context ≡ true
    → env.allow_out_of_context_patch ≡ false
    → has q (env.allowed_patch_paths ++ []) ≡ false
    → content_of q (apply_in_context env patch diff_paths site).1.files ≡ content_of q site.files
unfolding apply_in_context
apply_in_context-others env patch diff_paths site q on strict out =
    let scope : allowed_paths env diff_paths ≡ some (env.allowed_patch_paths ++ []) =
      ground (arith, on, strict) in
    let patch_env : Apply.Env = record env.patch {
      allowed_rel_paths = allowed_paths env diff_paths;
    } in
    let patched = apply_unified_diff patch_env patch site.files in
    let kept =
      apply_unified_diff-others patch_env q (env.allowed_patch_paths ++ []) patch site.files scope
        out in
    let files = after_patch-files env site patched in
    unless_blocked-others site q (blocked_paths env diff_paths) (after_patch env site patched)
      (ap (content_of q) files ∙ kept)

with_paths-others :
    (env : Env) (patch : List PatchedFile) (site : Site) (paths : Patches.Outcome (List Text))
    (q : Text)
    → env.require_in_context ≡ true
    → env.allow_out_of_context_patch ≡ false
    → has q (env.allowed_patch_paths ++ []) ≡ false
    → content_of q (with_paths env patch site paths).1.files ≡ content_of q site.files
with_paths-others env patch site (raise e) q on strict out =
    ap (λ s. content_of q s.files) (refuse_site e site)
with_paths-others env patch site (Patches.ok diff_paths) q on strict out =
    apply_in_context-others env patch diff_paths site q on strict out

with_patch-others :
    (env : Env) (site : Site) (patch : Option (List PatchedFile)) (q : Text)
    → env.require_in_context ≡ true
    → env.allow_out_of_context_patch ≡ false
    → has q (env.allowed_patch_paths ++ []) ≡ false
    → content_of q (with_patch env site patch).1.files ≡ content_of q site.files
with_patch-others env site none q on strict out = refl
with_patch-others env site (some patch) q on strict out =
    with_paths-others env patch site (parse_diff_paths env.patch [] patch) q on strict out

apply_patch-others :
    (env : Env) (patch_text : Text) (site : Site) (q : Text)
    → env.require_in_context ≡ true
    → env.allow_out_of_context_patch ≡ false
    → has q (env.allowed_patch_paths ++ []) ≡ false
    → content_of q (apply_patch env patch_text site).1.files ≡ content_of q site.files
unfolding apply_patch
apply_patch-others env patch_text site q on strict out =
    ground (arith, with_patch-others env site (env.patch_set patch_text) q on strict out)

recorded-files :
    (env : Env) (result : Result Applied × Site) → (recorded env result).1.files ≡ result.1.files
recorded-files env (err e, site) = refl
recorded-files env (ok applied, site) = ground arith

-- Where patches have to stay in the context and the request makes no exception, the application of a run's
-- patch leaves every file outside the allowed paths as it is, however it ends: refused, blocked, broken off
-- by a failed writing, or done.
pub apply_patch_and_record-others :
    (env : Env) (patch_text : Text) (site : Site) (q : Text)
    → env.require_in_context ≡ true
    → env.allow_out_of_context_patch ≡ false
    → has q env.allowed_patch_paths ≡ false
    → content_of q (apply_patch_and_record env patch_text site).1.files ≡ content_of q site.files
unfolding apply_patch_and_record
apply_patch_and_record-others env patch_text site q on strict out =
    let out' : has q (env.allowed_patch_paths ++ []) ≡ false =
      subst (λ ps. has q ps ≡ false) (sym (append-nil env.allowed_patch_paths)) out in
    ap (content_of q) (recorded-files env (apply_patch env patch_text site))
    ∙ apply_patch-others env patch_text site q on strict out'
