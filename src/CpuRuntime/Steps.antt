-- ===== src/CpuRuntime/Steps.antt =====
-- What the counters say after any interleaving, and that the tasks can end
-- (backend/app/infra/cpu_runtime.py).
use cgraph.Prelude.{
  ℕ, suc, zero, ◌+◌, ◌<◌, ◌≤◌, ◌≡◌, refl, Bool, true, false, List, [], ◌∷◌, length, length-append,
  arith,
}
use cgraph.Prelude.Rows.{any, delete_first}
use cgraph.CpuRuntime.{
  CpuRuntime, new_runtime, enter, begin, finish, give_up, Pool, is_task, Step, arrive, start, stop,
  cancel, Reach, here, next,
}

length-delete :
    {A : Type 0} (p : A → Bool) (xs : List A)
    → any p xs ≡ true
    → length (delete_first p xs) + 1 ≡ length xs
length-delete p [] h = absurd (ground arith)
length-delete p (x ∷ xs) h = ground (arith, length-delete p xs)

abbrev pub idle : ℕ → ℕ → Pool
idle loop setting = record { runtime = new_runtime loop setting; waiting = []; running = [] }

-- The counters count the tasks, and the running tasks and the free permits make the limit.
pub record Counted (p : Pool) : Type 0 where
  pub queued : p.runtime.queue_depth ≡ length p.waiting
  pub flying : p.runtime.in_flight ≡ length p.running
  pub limited : p.runtime.permits + length p.running ≡ p.runtime.max_concurrency
  pub peak : p.runtime.peak_in_flight ≤ p.runtime.max_concurrency
  pub reached : p.runtime.in_flight ≤ p.runtime.peak_in_flight
  pub some_permit : 0 < p.runtime.max_concurrency

Step-Counted : (p q : Pool) → Step p q → Counted p → Counted q
unfolding enter begin finish give_up
Step-Counted p q (arrive t e) c = ground (arith, length-append p.waiting (t ∷ []))
Step-Counted p q (start t w free e) c = ground (arith, length-delete (is_task t) p.waiting)
Step-Counted p q (stop t w e) c = ground (arith, length-delete (is_task t) p.running)
Step-Counted p q (cancel t w e) c = ground (arith, length-delete (is_task t) p.waiting)

-- In every state that a new runtime comes to, the counters of waiting and running tasks are right, and
-- no more tasks run, or have ever run at once, than the limit.
pub Reach-Counted : (loop setting : ℕ) (p : Pool) → Reach (idle loop setting) p → Counted p
unfolding new_runtime
Reach-Counted loop setting p here = ground arith
Reach-Counted loop setting p (next {q} r s) = Step-Counted q p s (Reach-Counted loop setting q r)

-- Does a task start or stop, where none arrives and none is cancelled?
abbrev pub is_progress : {p q : Pool} → Step p q → Bool
is_progress (arrive t e) = false
is_progress (start t w free e) = true
is_progress (stop t w e) = true
is_progress (cancel t w e) = false

-- any number of such steps
pub data Work : Pool → Pool → Type 0 where
  rest : {p : Pool} → Work p p
  then_step : {p q r : Pool} → (s : Step p q) → is_progress s ≡ true → Work q r → Work p r

abbrev pub work : Pool → ℕ
work p = length p.waiting + length p.waiting + length p.running

-- the pool in which all tasks have ended
abbrev pub Drained : Pool → Type 0
Drained q =
    (q.waiting ≡ [])
    × (q.running ≡ [])
    × (q.runtime.queue_depth ≡ 0)
    × (q.runtime.in_flight ≡ 0)
    × (q.runtime.permits ≡ q.runtime.max_concurrency)

any_self : (t : ℕ) (ts : List ℕ) → any (is_task t) (t ∷ ts) ≡ true
any_self t ts = ground arith

drain :
    (n : ℕ) (r : CpuRuntime) (waiting running : List ℕ)
    → work (record { runtime = r; waiting = waiting; running = running }) ≤ n
    → Counted (record { runtime = r; waiting = waiting; running = running })
    → (q : Pool) × Work (record { runtime = r; waiting = waiting; running = running }) q × Drained q
drain n r [] [] m c = (record { runtime = r; waiting = []; running = [] }, rest, ground arith)
drain zero r (w ∷ ws) running m c = absurd (ground arith)
drain zero r [] (t ∷ ts) m c = absurd (ground arith)
drain (suc n) r waiting (t ∷ ts) m c =
    let p : Pool = record { runtime = r; waiting = waiting; running = t ∷ ts } in
    let p' : Pool = record {
      runtime = finish r;
      waiting = waiting;
      running = delete_first (is_task t) (t ∷ ts);
    } in
    let s : Step p p' = stop t (any_self t ts) refl in
    let (q, reached, drained) =
      drain n (finish r) waiting (delete_first (is_task t) (t ∷ ts))
        (ground (arith, length-delete (is_task t) (t ∷ ts))) (Step-Counted p p' s c) in
    (q, then_step s refl reached, drained)
drain (suc n) r (w ∷ ws) [] m c =
    let p : Pool = record { runtime = r; waiting = w ∷ ws; running = [] } in
    let p' : Pool = record {
      runtime = begin r;
      waiting = delete_first (is_task w) (w ∷ ws);
      running = w ∷ [];
    } in
    let s : Step p p' = start w (any_self w ws) (ground arith) refl in
    let (q, reached, drained) =
      drain n (begin r) (delete_first (is_task w) (w ∷ ws)) (w ∷ [])
        (ground (arith, length-delete (is_task w) (w ∷ ws))) (Step-Counted p p' s c) in
    (q, then_step s refl reached, drained)

-- From every state that a new runtime comes to, the tasks can all end by starting and stopping alone, with
-- no cancellation and no new task, and then the counters are zero and all permits are free again.
pub Reach-Drained :
    (loop setting : ℕ) (p : Pool) → Reach (idle loop setting) p → (q : Pool) × Work p q × Drained q
Reach-Drained loop setting p r =
    drain (work p) p.runtime p.waiting p.running (omega arith) (Reach-Counted loop setting p r)
