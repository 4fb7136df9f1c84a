-- ===== src/Imports/Rows.antt =====
-- The rows of a job under an update and the clean-up (backend/app/task_handlers.py).
use cgraph.Prelude.{
  Bool, true, ℕ, ◌≤◌, ◌+◌, ◌≡◌, inl, inr, refl, sym, subst, Bool, true, false, not, ◌&&◌, Option,
  none, some, List, [], ◌∷◌, ◌++◌, length, ◌==◌, if◌then◌else◌, arith, Bool-cases,
}
use cgraph.Prelude.Rows.{select, first, any, update_first}
use cgraph.Jobs.{TaskJob, Status, pending, running, succeeded, failed}
use cgraph.Lifecycle.{Update, apply_update, cleanup_completed_jobs, delete_expired, delete_surplus}

abbrev pub same_status : Status → Status → Bool
same_status pending pending = true
same_status running running = true
same_status succeeded succeeded = true
same_status failed failed = true
same_status _ _ = false

pub same_status_refl : (s : Status) → same_status s s ≡ true
same_status_refl pending = refl
same_status_refl running = refl
same_status_refl succeeded = refl
same_status_refl failed = refl

-- Is there a row of this job with another status?
abbrev pub differs : ℕ → Status → List TaskJob → Bool
differs job_id s jobs = any (λ j. j.id == job_id && not (same_status j.status s)) jobs

-- the number of rows with this id, which the primary key keeps at one
abbrev pub rows_with : ℕ → List TaskJob → ℕ
rows_with job_id jobs = length (select (λ j. j.id == job_id) jobs)

differs-select :
    (job_id : ℕ) (s : Status) (f : TaskJob → Bool) (jobs : List TaskJob)
    → differs job_id s jobs ≡ false
    → differs job_id s (select f jobs) ≡ false
differs-select job_id s f [] h = refl
differs-select job_id s f (j ∷ jobs) h = ground (arith, differs-select job_id s f jobs)

differs-absent :
    (job_id : ℕ) (s : Status) (jobs : List TaskJob)
    → rows_with job_id jobs ≡ 0
    → differs job_id s jobs ≡ false
differs-absent job_id s [] h = refl
differs-absent job_id s (j ∷ jobs) h = ground (arith, differs-absent job_id s jobs)

pub apply_update_id : (now : ℕ) (u : Update) (j : TaskJob) → (apply_update now u j).id ≡ j.id
apply_update_id now u j = ground arith

pub apply_update_status :
    (now : ℕ) (u : Update) (j : TaskJob) → (apply_update now u j).status ≡ u.status
apply_update_status now u j = ground arith

pub differs-update :
    (now job_id : ℕ) (u : Update) (jobs : List TaskJob)
    → rows_with job_id jobs ≤ 1
    → differs job_id u.status (update_first (λ j. j.id == job_id) (apply_update now u) jobs) ≡ false
differs-update now job_id u [] h = refl
differs-update now job_id u (j ∷ jobs) h = elim (Bool-cases (j.id == job_id)) [
  | inl here ↦
      let rest : rows_with job_id jobs ≡ 0 = ground arith in
      let status : same_status (apply_update now u j).status u.status ≡ true =
        subst (λ s. same_status s u.status ≡ true) (sym (apply_update_status now u j))
          (same_status_refl u.status) in
      ground (arith, status, differs-absent job_id u.status jobs rest)
  | inr there ↦ ground (arith, differs-update now job_id u jobs)
]

pub rows_with-update :
    (now job_id : ℕ) (u : Update) (jobs : List TaskJob)
    → rows_with job_id (update_first (λ j. j.id == job_id) (apply_update now u) jobs)
      ≡ rows_with job_id jobs
rows_with-update now job_id u [] = refl
rows_with-update now job_id u (j ∷ jobs) =
    ground (arith, apply_update_id now u j, rows_with-update now job_id u jobs)

pub rows_with-append :
    (job_id : ℕ) (jobs : List TaskJob) (j : TaskJob)
    → rows_with job_id (jobs ++ (j ∷ []))
      ≡ rows_with job_id jobs + (if j.id == job_id then 1 else 0)
rows_with-append job_id [] j = ground arith
rows_with-append job_id (i ∷ jobs) j = ground (arith, rows_with-append job_id jobs j)

pub rows_with-none :
    (job_id : ℕ) (jobs : List TaskJob)
    → first (λ j. j.id == job_id) jobs ≡ none
    → rows_with job_id jobs ≡ 0
rows_with-none job_id [] h = refl
rows_with-none job_id (j ∷ jobs) h = ground (arith, rows_with-none job_id jobs)

rows_with-select :
    (job_id : ℕ) (f : TaskJob → Bool) (jobs : List TaskJob)
    → rows_with job_id (select f jobs) ≤ rows_with job_id jobs
rows_with-select job_id f [] = omega arith
rows_with-select job_id f (j ∷ jobs) = ground (arith, rows_with-select job_id f jobs)

pub cleanup-differs :
    (now job_id : ℕ) (ttl max_completed : Option ℕ) (s : Status) (jobs : List TaskJob)
    → differs job_id s jobs ≡ false
    → differs job_id s (cleanup_completed_jobs now ttl max_completed jobs) ≡ false
unfolding cleanup_completed_jobs delete_expired delete_surplus
cleanup-differs now job_id none none s jobs h = h
cleanup-differs now job_id (some t) none s jobs h = differs-select job_id s _ jobs h
cleanup-differs now job_id none (some n) s jobs h = differs-select job_id s _ jobs h
cleanup-differs now job_id (some t) (some n) s jobs h =
    differs-select job_id s _ (delete_expired now (some t) jobs) (differs-select job_id s _ jobs h)

expired-rows_with :
    (now job_id : ℕ) (ttl : Option ℕ) (jobs : List TaskJob)
    → rows_with job_id (delete_expired now ttl jobs) ≤ rows_with job_id jobs
unfolding delete_expired
expired-rows_with now job_id none jobs = omega arith
expired-rows_with now job_id (some t) jobs = rows_with-select job_id _ jobs

surplus-rows_with :
    (job_id : ℕ) (max_completed : Option ℕ) (jobs : List TaskJob)
    → rows_with job_id (delete_surplus max_completed jobs) ≤ rows_with job_id jobs
unfolding delete_surplus
surplus-rows_with job_id none jobs = omega arith
surplus-rows_with job_id (some n) jobs = rows_with-select job_id _ jobs

pub cleanup-rows_with :
    (now job_id : ℕ) (ttl max_completed : Option ℕ) (jobs : List TaskJob)
    → rows_with job_id (cleanup_completed_jobs now ttl max_completed jobs) ≤ rows_with job_id jobs
unfolding cleanup_completed_jobs
cleanup-rows_with now job_id ttl max_completed jobs = omega (
  arith,
  surplus-rows_with job_id max_completed (delete_expired now ttl jobs),
  expired-rows_with now job_id ttl jobs,
)
