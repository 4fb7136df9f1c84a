-- ===== src/CpuRuntime.antt =====
-- backend/app/infra/cpu_runtime.py: the counters and the semaphore of the process pool. A semaphore is
-- its free permits: `acquire` waits until there is one. Times, logging and the pool are left out.
pub mod Steps
use cgraph.Prelude.{
  ℕ, ◌+◌, ◌-◌, ◌<◌, ◌≡◌, Bool, true, false, Option, none, some, List, [], ◌∷◌, ◌++◌, ◌==◌, max,
  if◌then◌else◌,
}
use cgraph.Prelude.Rows.{any, delete_first}

-- `loop` is the event loop that the runtime belongs to.
pub record CpuRuntime : Type 0 where
  pub loop : ℕ
  pub permits : ℕ
  pub max_concurrency : ℕ
  pub queue_depth : ℕ
  pub peak_queue_depth : ℕ
  pub in_flight : ℕ
  pub peak_in_flight : ℕ

-- `max(1, int(raw))`
abbrev pub at_least_one : ℕ → ℕ
at_least_one raw = max 1 raw

-- the construction of a runtime for the running loop
unfoldable pub new_runtime : ℕ → ℕ → CpuRuntime
new_runtime loop setting = record {
  loop = loop;
  permits = at_least_one setting;
  max_concurrency = at_least_one setting;
  queue_depth = 0;
  peak_queue_depth = 0;
  in_flight = 0;
  peak_in_flight = 0;
}

-- `_get_cpu_runtime`: the runtime of the process, or a new one where there is none or it belongs to
-- another loop
unfoldable pub get_cpu_runtime : ℕ → ℕ → Option CpuRuntime → CpuRuntime
get_cpu_runtime loop setting none = new_runtime loop setting
get_cpu_runtime loop setting (some r) = if r.loop == loop then r else new_runtime loop setting

-- A task is queued.
unfoldable pub enter : CpuRuntime → CpuRuntime
enter r = record r {
  queue_depth = r.queue_depth + 1;
  peak_queue_depth = max r.peak_queue_depth (r.queue_depth + 1);
}

-- The semaphore has been acquired; `-` stops at 0 as `max(0, …)` does.
unfoldable pub begin : CpuRuntime → CpuRuntime
begin r = record r {
  permits = r.permits - 1;
  queue_depth = r.queue_depth - 1;
  in_flight = r.in_flight + 1;
  peak_in_flight = max r.peak_in_flight (r.in_flight + 1);
}

-- both `finally` blocks, after the function has returned or raised
unfoldable pub finish : CpuRuntime → CpuRuntime
finish r = record r { in_flight = r.in_flight - 1; permits = r.permits + 1 }

-- the outer `finally` block, for a task that is cancelled while it waits for the semaphore
unfoldable pub give_up : CpuRuntime → CpuRuntime
give_up r = record r { queue_depth = r.queue_depth - 1 }

-- the runtime, and the tasks that wait for the semaphore and that run
pub record Pool : Type 0 where
  pub runtime : CpuRuntime
  pub waiting : List ℕ
  pub running : List ℕ

abbrev pub is_task : ℕ → ℕ → Bool
is_task t u = u == t

-- What may happen next to the tasks in `run_cpu_io_async`, in any interleaving: each step lies between
-- two awaits.
pub data Step (p : Pool) (q : Pool) : Type 0 where
  arrive :
      (t : ℕ)
      → q
        ≡ record { runtime = enter p.runtime; waiting = p.waiting ++ (t ∷ []); running = p.running }
      → Step p q
  start :
      (t : ℕ)
      → any (is_task t) p.waiting ≡ true
      → 0 < p.runtime.permits
      → q ≡ record {
        runtime = begin p.runtime;
        waiting = delete_first (is_task t) p.waiting;
        running = t ∷ p.running;
      }
      → Step p q
  stop :
      (t : ℕ)
      → any (is_task t) p.running ≡ true
      → q ≡ record {
        runtime = finish p.runtime;
        waiting = p.waiting;
        running = delete_first (is_task t) p.running;
      }
      → Step p q
  cancel :
      (t : ℕ)
      → any (is_task t) p.waiting ≡ true
      → q ≡ record {
        runtime = give_up p.runtime;
        waiting = delete_first (is_task t) p.waiting;
        running = p.running;
      }
      → Step p q

-- any number of steps
pub data Reach (p : Pool) : Pool → Type 0 where
  here : Reach p p
  next : {q r : Pool} → Reach p q → Step q r → Reach p r
