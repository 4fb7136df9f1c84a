-- ===== src/Lifecycle/Cleanup.antt =====
-- What the clean-up of completed jobs keeps (backend/app/services/task_queue.py).
use cgraph.Prelude.{
  ℕ, ◌+◌, ◌≤◌, ◌≡◌, refl, Bool, true, not, ◌&&◌, Option, none, some, List, [], ◌∷◌, map, arith,
  ◌==◌, length, take, drop, length-take, take-append-drop, ap, ◌∙◌,
}
use cgraph.Prelude.Rows.{
  select, any, length-select-append, length-select-le, select-select, select_all,
}
use cgraph.Jobs.{TaskJob, is_active}
use cgraph.Lifecycle.{
  is_final, is_older, insert_newest, newest_first, has_id, delete_expired, delete_surplus,
  cleanup_completed_jobs,
}

length-select-insert_newest :
    (p : TaskJob → Bool) (j : TaskJob) (jobs : List TaskJob)
    → length (select p (insert_newest j jobs)) ≡ length (select p (j ∷ jobs))
unfolding insert_newest
length-select-insert_newest p j [] = refl
length-select-insert_newest p j (i ∷ jobs) = ground (arith, length-select-insert_newest p j jobs)

length-select-newest_first :
    (p : TaskJob → Bool) (jobs : List TaskJob)
    → length (select p (newest_first jobs)) ≡ length (select p jobs)
unfolding newest_first
length-select-newest_first p [] = refl
length-select-newest_first p (j ∷ jobs) =
    ground (
      arith,
      length-select-insert_newest p j (newest_first jobs),
      length-select-newest_first p jobs,
    )

-- Rows whose ids are all listed are gone.
select-listed :
    (ids : List ℕ) (jobs : List TaskJob)
    → ((j : TaskJob) → has_id (map (λ j. j.id) jobs) j ≡ true → has_id ids j ≡ true)
    → length (select (λ j. not (has_id ids j)) jobs) ≡ 0
select-listed ids [] h = refl
select-listed ids (i ∷ jobs) h =
    ground (arith, h i, select-listed ids jobs (λ j listed. h j (later j listed)))
  where
    later :
        (j : TaskJob)
        → has_id (map (λ j. j.id) jobs) j ≡ true
        → has_id (map (λ j. j.id) (i ∷ jobs)) j ≡ true
    later j listed = ground arith

-- With a cap, at most that many completed jobs are left.
delete_surplus-bound :
    (max_completed : ℕ) (jobs : List TaskJob)
    → length (select (λ j. is_final j.status) (delete_surplus (some max_completed) jobs))
      ≤ max_completed
unfolding delete_surplus
delete_surplus-bound n jobs =
    let finals = select (λ (j : TaskJob). is_final j.status) jobs in
    let sorted = newest_first finals in
    let ids = map (λ (j : TaskJob). j.id) (drop n sorted) in
    let kept = λ (j : TaskJob). not (has_id ids j) in
    omega (
      arith,
      ap (length {0}) (select-select kept (λ (j : TaskJob). is_final j.status) jobs),
      length-select-newest_first kept finals,
      ap (λ (l : List TaskJob). length (select kept l)) (take-append-drop n sorted),
      length-select-append kept (take n sorted) (drop n sorted),
      length-select-le kept (take n sorted),
      length-take n sorted,
      select-listed ids (drop n sorted) (λ j listed. listed),
    )

-- the primary key of the table
abbrev pub IsKeyed : List TaskJob → Type 0
IsKeyed jobs = (i : ℕ) → length (select (λ j. j.id == i) jobs) ≤ 1

any→length-select :
    (p : TaskJob → Bool) (jobs : List TaskJob) → any p jobs ≡ true → 1 ≤ length (select p jobs)
any→length-select p [] h = ground arith
any→length-select p (j ∷ jobs) h = ground (arith, any→length-select p jobs)

has_id-map :
    (jobs : List TaskJob) (x : TaskJob)
    → has_id (map (λ j. j.id) jobs) x ≡ any (λ j. j.id == x.id) jobs
has_id-map [] x = refl
has_id-map (j ∷ jobs) x = ground (arith, has_id-map jobs x)

length-select-drop :
    (p : TaskJob → Bool) (n : ℕ) (jobs : List TaskJob)
    → length (select p (drop n jobs)) ≤ length (select p jobs)
length-select-drop p n jobs = omega (
  arith,
  ap (λ (l : List TaskJob). length (select p l)) (take-append-drop n jobs),
  length-select-append p (take n jobs) (drop n jobs),
)

active_and_final :
    (p : TaskJob → Bool) (jobs : List TaskJob)
    → length (select p (select (λ j. is_active j.status) jobs))
        + length (select p (select (λ j. is_final j.status) jobs))
      ≤ length (select p jobs)
active_and_final p [] = omega arith
active_and_final p (j ∷ jobs) = ground (arith, active_and_final p jobs)

-- A filter that lets through the active rows of the table leaves them as they are.
select_kept :
    (p q : TaskJob → Bool) (jobs : List TaskJob)
    → ((x : TaskJob) → q x ≡ true → any (λ j. j.id == x.id) (select q jobs) ≡ true → p x ≡ true)
    → select q (select p jobs) ≡ select q jobs
select_kept p q [] h = refl
select_kept p q (j ∷ jobs) h =
    ground (arith, h j, select_kept p q jobs (λ x qx m. h x qx (more x m)))
  where
    more :
        (x : TaskJob)
        → any (λ j. j.id == x.id) (select q jobs) ≡ true
        → any (λ j. j.id == x.id) (select q (j ∷ jobs)) ≡ true
    more x m = ground arith

delete_surplus-active :
    (max_completed : Option ℕ) (jobs : List TaskJob)
    → IsKeyed jobs
    → select (λ j. is_active j.status) (delete_surplus max_completed jobs)
      ≡ select (λ j. is_active j.status) jobs
unfolding delete_surplus
delete_surplus-active none jobs keyed = refl
delete_surplus-active (some n) jobs keyed =
    select_kept (λ j. not (has_id ids j)) (λ j. is_active j.status) jobs spared
  where
    sorted : List TaskJob
    sorted = newest_first (select (λ j. is_final j.status) jobs)

    ids : List ℕ
    ids = map (λ j. j.id) (drop n sorted)

    spared :
        (x : TaskJob)
        → is_active x.status ≡ true
        → any (λ j. j.id == x.id) (select (λ j. is_active j.status) jobs) ≡ true
        → not (has_id ids x) ≡ true
    spared x active there =
        let same = λ (j : TaskJob). j.id == x.id in
        ground (
          arith,
          has_id-map (drop n sorted) x,
          any→length-select same (drop n sorted),
          length-select-drop same n sorted,
          length-select-newest_first same (select (λ (j : TaskJob). is_final j.status) jobs),
          any→length-select same (select (λ (j : TaskJob). is_active j.status) jobs),
          active_and_final same jobs,
          keyed x.id,
        )

delete_expired-active :
    (now : ℕ) (ttl : Option ℕ) (jobs : List TaskJob)
    → select (λ j. is_active j.status) (delete_expired now ttl jobs)
      ≡ select (λ j. is_active j.status) jobs
unfolding delete_expired
delete_expired-active now none jobs = refl
delete_expired-active now (some ttl) jobs =
    select_all (λ j. not (is_final j.status && is_older now ttl j.completed_at))
      (λ j. is_active j.status) jobs (λ x active. ground arith)

delete_expired-IsKeyed :
    (now : ℕ) (ttl : Option ℕ) (jobs : List TaskJob)
    → IsKeyed jobs
    → IsKeyed (delete_expired now ttl jobs)
unfolding delete_expired
delete_expired-IsKeyed now none jobs keyed i = keyed i
delete_expired-IsKeyed now (some ttl) jobs keyed i =
    let kept = λ (j : TaskJob). not (is_final j.status && is_older now ttl j.completed_at) in
    omega (
      arith,
      keyed i,
      ap (length {0}) (select-select kept (λ (j : TaskJob). j.id == i) jobs),
      length-select-le kept (select (λ (j : TaskJob). j.id == i) jobs),
    )

-- The clean-up touches no active job and, where a cap is set, leaves at most that many completed
-- ones, given that no two rows share an id.
pub cleanup_completed_jobs-keeps :
    (now : ℕ) (ttl : Option ℕ) (max_completed : ℕ) (jobs : List TaskJob)
    → IsKeyed jobs
    → (select (λ j. is_active j.status) (cleanup_completed_jobs now ttl (some max_completed) jobs)
        ≡ select (λ j. is_active j.status) jobs)
      × (length (
            select
              (λ j. is_final j.status)
              (cleanup_completed_jobs now ttl (some max_completed) jobs))
          ≤ max_completed)
unfolding cleanup_completed_jobs
cleanup_completed_jobs-keeps now ttl n jobs keyed = (
  delete_surplus-active (some n) (delete_expired now ttl jobs)
        (delete_expired-IsKeyed now ttl jobs keyed)
      ∙ delete_expired-active now ttl jobs,
  delete_surplus-bound n (delete_expired now ttl jobs),
)
