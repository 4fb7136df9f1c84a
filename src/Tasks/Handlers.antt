-- ===== src/Tasks/Handlers.antt =====
-- How a task ends (backend/app/task_handlers.py).
use cgraph.Prelude.{Bool, if◌then◌else◌, ℕ, ◌≤◌, ◌≡◌, refl, sym, ◌∙◌, subst, ap, false, some, arith}
use cgraph.Errors.{internal, Result, ok, err, cancelled}
use cgraph.Jobs.{Status, running, succeeded, failed}
use cgraph.Lifecycle.{Store, Update, set_job_status}
use cgraph.Imports.Rows.{rows_with}
use cgraph.Imports.Reports.{Reported, set_job_status-Reported}
use cgraph.Tasks.{
  scan_task, docs_task, run_task_job, Reporter, Ending, done, stopped, start_update, raised_update,
  end_update, report, report_end, after_start, run_handler,
}

-- the status that is reported in the end
abbrev pub last_status : Result Ending → Status
last_status (ok (done result)) = succeeded
last_status (ok (stopped message payload result)) = failed
last_status (err cancelled) = running
last_status (err e) = failed

-- what the task itself raises
abbrev pub raised_by : Result Ending → Result (Unit {0})
raised_by (err cancelled) = err cancelled
raised_by _ = ok tt

module _ {W : Type 0} where
  report_done :
      (r : Reporter) (job_id org_id : ℕ) (u : Update) (store : Store) (w : W)
      → r.redis_fails ≡ false
      → u.org_id ≡ some org_id
      → rows_with job_id store.jobs ≤ 1
      → (store' : Store) × ((report r job_id u (store, w) ≡ (ok tt, (store', w)))
          × Reported r.now r.settings job_id u.status store')
  report_done r job_id org_id u store w works org keyed =
      let (store', (told, reported)) =
        set_job_status-Reported r.now job_id org_id r.settings u store org keyed in
      let at_work : set_job_status r.now r.settings r.redis_fails job_id u store ≡ (ok tt, store') =
        ap (λ b. set_job_status r.now r.settings b job_id u store) works ∙ told in
      (store', (ground (arith, at_work), reported))

  -- What the body has left, how the task returns, and what its job is reported as.
  abbrev pub EndedWith : Reporter → ℕ → Result Ending × W → Result (Unit {0}) × (Store × W) → Type 0
  EndedWith r job_id (result, w) (ended, (store, w')) =
      (ended ≡ raised_by result)
      × ((w' ≡ w) × Reported r.now r.settings job_id (last_status result) store)

  told-EndedWith :
      (r : Reporter) (org_id job_id : ℕ) (u : Update) (store : Store) (result : Result Ending)
      (w : W)
      → r.redis_fails ≡ false
      → rows_with job_id store.jobs ≤ 1
      → u.org_id ≡ some org_id
      → raised_by result ≡ ok tt
      → last_status result ≡ u.status
      → EndedWith r job_id (result, w) (report r job_id u (store, w))
  told-EndedWith r org_id job_id u store result w works keyed org returns same =
      let (store', (told, reported)) = report_done r job_id org_id u store w works org keyed in
      subst (EndedWith r job_id (result, w)) (sym told) (
        sym returns,
        (refl, subst (λ s. Reported r.now r.settings job_id s store') (sym same) reported),
      )

  report_end-EndedWith :
      (r : Reporter) (org_id job_id : ℕ) (store : Store) (result : Result Ending) (w : W)
      → r.redis_fails ≡ false
      → Reported r.now r.settings job_id running store
      → EndedWith r job_id (result, w) (report_end r org_id job_id store (result, w))
  report_end-EndedWith r org_id job_id store (ok (done text)) w works (same, keyed) =
      told-EndedWith r org_id job_id (end_update org_id (done text)) store (ok (done text)) w works
        keyed refl refl refl
  report_end-EndedWith r org_id job_id store (ok (stopped m p text)) w works (same, keyed) =
      told-EndedWith r org_id job_id (end_update org_id (stopped m p text)) store
        (ok (stopped m p text)) w works keyed refl refl refl
  report_end-EndedWith r org_id job_id store (err cancelled) w works reported =
      (refl, (refl, reported))
  report_end-EndedWith r org_id job_id store (err e) w works (same, keyed) =
      told-EndedWith r org_id job_id (raised_update r org_id e) store (err e) w works keyed refl
        refl refl

  -- the same for any body
  pub run_handler-EndedWith :
      (r : Reporter) (body : W → Result Ending × W) (org_id job_id : ℕ) (store : Store) (w : W)
      → r.redis_fails ≡ false
      → rows_with job_id store.jobs ≤ 1
      → EndedWith r job_id (body w) (run_handler r body org_id job_id (store, w))
  unfolding run_handler
  run_handler-EndedWith r body org_id job_id store w works keyed =
      let (store', (told, reported)) =
        report_done r job_id org_id (start_update org_id) store w works refl keyed in
      subst (λ started. EndedWith r job_id (body w) (after_start r body org_id job_id started))
        (sym told)
        (report_end-EndedWith r org_id job_id store' (body w).0 (body w).1 works reported)

  -- With Redis there and no two rows for its job, the scan, the docs and the run leave what their bodies
  -- leave, and report the job as the body has ended, where a payload that is no request ends as a failure;
  -- but where the body is cancelled, the task raises that and the job stays running. The one row of the
  -- job then has that status, unless the clean-up after a final status has deleted it.
  pub run_task_job-EndedWith :
      (r : Reporter) (is_request : Bool) (body : W → Result Ending × W) (org_id job_id : ℕ)
      (store : Store) (w : W)
      → r.redis_fails ≡ false
      → rows_with job_id store.jobs ≤ 1
      → EndedWith r job_id (body w) (scan_task r body org_id job_id (store, w))
        × (EndedWith r job_id (body w) (docs_task r body org_id job_id (store, w))
            × EndedWith r job_id
                (if is_request then body w else (err internal, w))
                (run_task_job r is_request body org_id job_id (store, w)))
  unfolding scan_task docs_task run_task_job
  run_task_job-EndedWith r is_request body org_id job_id store w works keyed = (
    run_handler-EndedWith r body org_id job_id store w works keyed,
    (
      run_handler-EndedWith r body org_id job_id store w works keyed,
      run_handler-EndedWith r (λ v. if is_request then body v else (err internal, v)) org_id job_id
          store w works keyed,
    ),
  )
