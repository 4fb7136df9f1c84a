-- ===== src/PatchRuns/Done.antt =====
-- What the reindexing after a patch tells, where it raises nothing (backend/app/services/task_service.py).
use cgraph.Prelude.{◌≡◌, ◌⊎◌, inl, inr, refl, sym, subst, List, [], arith, Option-cases}
use cgraph.Text.{Text}
use cgraph.Errors.{Exception, cancelled, Result, ok, err}
use cgraph.Scan.{Db}
use cgraph.Scan.Attempts
use cgraph.Scan.Attempts.{Outcome, nothing, updated, aborted, distinct, scan_files}
use cgraph.PatchRuns.{
  Applied, success, partial, Unindexed, reindex_error, reindex_aborted, Env, Site, after_scan,
  update_metrics, left_behind, unindexed, reindex,
}

-- a success, or a part of one, with these paths
abbrev pub IsDone : List Text → Applied → Type 0
IsDone modified applied =
    (applied ≡ success modified) ⊎ ((why : Unindexed) × (applied ≡ partial modified why))

-- where nothing has raised
abbrev pub IsDoneOrRaised : List Text → Result Applied → Type 0
IsDoneOrRaised modified (err e) = Unit {0}
IsDoneOrRaised modified (ok applied) = IsDone modified applied

left_behind-IsDone :
    (env : Env) (modified : List Text) (why : Unindexed) (site : Site)
    → IsDoneOrRaised modified (left_behind env modified why site).0
left_behind-IsDone env modified why site = elim (Option-cases env.mark_error) [
  | inl works ↦
      let done : (left_behind env modified why site).0 ≡ ok (partial modified why) =
        ground (arith, works) in
      subst (IsDoneOrRaised modified) (sym done) (inr (why, refl))
  | inr (e, fails) ↦
      let raised : (left_behind env modified why site).0 ≡ err e = ground (arith, fails) in
      subst (IsDoneOrRaised modified) (sym raised) tt
]

unindexed-IsDone :
    (env : Env) (modified : List Text) (e : Exception) (site : Site)
    → IsDoneOrRaised modified (unindexed env modified e site).0
unindexed-IsDone env modified cancelled site = tt
unindexed-IsDone env modified e site = left_behind-IsDone env modified reindex_error site

update_metrics-IsDone :
    (env : Env) (modified neighbors : List Text) (site : Site)
    → IsDoneOrRaised modified (update_metrics env modified neighbors site).0
unfolding update_metrics
update_metrics-IsDone env modified neighbors site = elim (Option-cases env.metrics_error) [
  | inl works ↦
      let done : (update_metrics env modified neighbors site).0 ≡ ok (success modified) =
        ground (arith, works) in
      subst (IsDoneOrRaised modified) (sym done) (inl refl)
  | inr (e, fails) ↦
      let same : (update_metrics env modified neighbors site).0
          ≡ (unindexed env modified e site).0 =
        ground (arith, fails) in
      subst (IsDoneOrRaised modified) (sym same) (unindexed-IsDone env modified e site)
]

after_scan-IsDone :
    (env : Env) (modified : List Text) (site : Site) (scanned : Result Attempts.Outcome × Db)
    → IsDoneOrRaised modified (after_scan env modified site scanned).0
after_scan-IsDone env modified site (err e, db) =
    unindexed-IsDone env modified e (record site { db = db })
after_scan-IsDone env modified site (ok aborted, db) =
    left_behind-IsDone env modified reindex_aborted (record site { db = db })
after_scan-IsDone env modified site (ok nothing, db) =
    update_metrics-IsDone env modified [] (record site { db = db })
after_scan-IsDone env modified site (ok (updated p), db) =
    update_metrics-IsDone env modified p.removed_edge_neighbors (record site { db = db })

pub reindex-IsDone :
    (env : Env) (modified : List Text) (site : Site)
    → IsDoneOrRaised modified (reindex env modified site).0
unfolding reindex
reindex-IsDone env modified site =
    after_scan-IsDone env modified site
      (scan_files env.scan env.first_moment env.second_moment modified site.db)
