-- ===== src/Imports/Reports.antt =====
-- What a report leaves in the rows of its job (`_set_job_status_async` of backend/app/task_handlers.py).
use cgraph.Prelude.{
  ==_iff, Bool, true, ℕ, ◌≤◌, ◌≡◌, inl, inr, refl, sym, subst, Bool, true, false, not, ◌&&◌, some,
  List, [], ◌∷◌, ◌++◌, ◌==◌, if◌then◌else◌, arith, Bool-cases, Option-cases,
}
use cgraph.Prelude.Rows.{first, any, update_first}
use cgraph.Errors.{ok}
use cgraph.Jobs.{TaskJob, Status, is_heavy}
use cgraph.Lifecycle.{
  Update, Store, Settings, load_job, set_job_status, apply_update, cleanup_completed_jobs, is_final,
  blank_job, committed, touch, is_pending,
}
use cgraph.Imports.Rows.{
  same_status, same_status_refl, differs, rows_with, apply_update_id, apply_update_status,
  differs-update, rows_with-update, rows_with-append, rows_with-none, cleanup-differs,
  cleanup-rows_with,
}

-- The rows before the clean-up that follows a final status: one of them is of the job and has the status.
abbrev pub Kept : ℕ → Settings → ℕ → Status → Store → Type 0
Kept now settings job_id s store =
    (before : List TaskJob) × ((any (λ j. j.id == job_id && same_status j.status s) before ≡ true)
      × (store.jobs ≡ (
          if is_final s
          then cleanup_completed_jobs now settings.completed_ttl settings.max_completed before
          else before)))

-- The row of the job has the status, unless the clean-up has deleted it; no other row is of the job.
abbrev pub Reported : ℕ → Settings → ℕ → Status → Store → Type 0
Reported now settings job_id s store =
    ((differs job_id s store.jobs ≡ false) × Kept now settings job_id s store)
    × (rows_with job_id store.jobs ≤ 1)

abbrev has_row : ℕ → List TaskJob → Bool
has_row job_id jobs = any (λ j. j.id == job_id) jobs

holds-update :
    (now job_id : ℕ) (u : Update) (jobs : List TaskJob)
    → has_row job_id jobs ≡ true
    → any
        (λ j. j.id == job_id && same_status j.status u.status)
        (update_first (λ j. j.id == job_id) (apply_update now u) jobs)
      ≡ true
holds-update now job_id u [] h = absurd (ground arith)
holds-update now job_id u (j ∷ jobs) h = elim (Bool-cases (j.id == job_id)) [
  | inl here ↦
      let status : same_status (apply_update now u j).status u.status ≡ true =
        subst (λ s. same_status s u.status ≡ true) (sym (apply_update_status now u j))
          (same_status_refl u.status) in
      ground (arith, status, apply_update_id now u j)
  | inr there ↦ ground (arith, holds-update now job_id u jobs)
]

committed-Reported :
    (now job_id : ℕ) (settings : Settings) (u : Update) (jobs : List TaskJob) (inflight : List ℕ)
    → has_row job_id jobs ≡ true
    → rows_with job_id jobs ≤ 1
    → Reported now settings job_id u.status (committed now settings u job_id jobs inflight)
committed-Reported now job_id settings u jobs inflight there keyed =
    let written = update_first (λ j. j.id == job_id) (apply_update now u) jobs in
    let same = differs-update now job_id u jobs keyed in
    let count = rows_with-update now job_id u jobs in
    let kept : Kept now settings job_id u.status (committed now settings u job_id jobs inflight) =
      (written, (holds-update now job_id u jobs there, refl)) in
    elim (Bool-cases (is_final u.status)) [
      | inl final ↦
          let clean =
            cleanup-differs now job_id settings.completed_ttl settings.max_completed u.status
              written same in
          let fewer =
            cleanup-rows_with now job_id settings.completed_ttl settings.max_completed written in
          ((ground (arith, final, clean), kept), ground (arith, final, fewer, count))
      | inr still ↦ ((ground (arith, still, same), kept), ground (arith, still, count))
    ]

first-has_row :
    (job_id : ℕ) (jobs : List TaskJob) (j : TaskJob)
    → first (λ i. i.id == job_id) jobs ≡ some j
    → has_row job_id jobs ≡ true
first-has_row job_id [] j h = absurd (ground arith)
first-has_row job_id (i ∷ jobs) j h = ground (arith, first-has_row job_id jobs j)

last-has_row :
    (job_id : ℕ) (jobs : List TaskJob) (j : TaskJob)
    → (j.id == job_id) ≡ true
    → has_row job_id (jobs ++ (j ∷ [])) ≡ true
last-has_row job_id [] j h = ground arith
last-has_row job_id (i ∷ jobs) j h = ground (arith, last-has_row job_id jobs j)

loaded-rows_with :
    (now job_id org_id : ℕ) (u : Update) (jobs : List TaskJob)
    → u.org_id ≡ some org_id
    → rows_with job_id jobs ≤ 1
    → (loaded : List TaskJob × TaskJob) × ((load_job now job_id u jobs ≡ ok loaded)
        × ((has_row job_id loaded.0 ≡ true) × (rows_with job_id loaded.0 ≤ 1)))
unfolding load_job
loaded-rows_with now job_id org_id u jobs org keyed =
    elim (Option-cases (first (λ j. j.id == job_id) jobs)) [
      | inr (j, found) ↦
          ((jobs, j), (ground (arith, found), (first-has_row job_id jobs j found, keyed)))
      | inl missing ↦
          let j = blank_job now job_id org_id u.status in
          (
            (jobs ++ (j ∷ []), j),
            (
              ground (arith, missing, org),
              (
                last-has_row job_id jobs j ((==_iff job_id job_id).1 refl),
                ground (arith, rows_with-append job_id jobs j, rows_with-none job_id jobs missing),
              ),
            ),
          )
    ]

-- With Redis there, a report is written.
pub set_job_status-Reported :
    (now job_id org_id : ℕ) (settings : Settings) (u : Update) (store : Store)
    → u.org_id ≡ some org_id
    → rows_with job_id store.jobs ≤ 1
    → (store' : Store) × ((set_job_status now settings false job_id u store ≡ (ok tt, store'))
        × Reported now settings job_id u.status store')
unfolding set_job_status
set_job_status-Reported now job_id org_id settings u store org keyed =
    let ((jobs, j), (loaded, (there, keyed'))) =
      loaded-rows_with now job_id org_id u store.jobs org keyed in
    elim (Bool-cases (is_heavy j.queue && not (is_pending u.status))) [
      | inl heavy ↦ (
        committed now settings u job_id jobs (touch u.status job_id store.inflight),
        (
          ground (arith, loaded, heavy),
          committed-Reported now job_id settings u jobs (touch u.status job_id store.inflight) there
              keyed',
        ),
      )
      | inr light ↦ (
        committed now settings u job_id jobs store.inflight,
        (
          ground (arith, loaded, light),
          committed-Reported now job_id settings u jobs store.inflight there keyed',
        ),
      )
    ]
