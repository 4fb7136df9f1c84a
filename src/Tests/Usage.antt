-- ===== src/Tests/Usage.antt =====
-- Two calls under a quota of three, of which the second is refused; two tasks in a pool with one permit.
use cgraph.Prelude.{◌+◌, ◌≤◌, ◌≡◌, refl, max, some, List, [], ◌∷◌, arith}
use cgraph.Text.Number.{pos}
use cgraph.Usage.{Key, check_and_increment}
use cgraph.Usage.Quota.{Call, serve, total, used, serve-quota}
use cgraph.CpuRuntime.{Pool, Reach, here, next, arrive, start, enter, begin, new_runtime}
use cgraph.CpuRuntime.Steps.{Work, idle, Counted, Drained, Reach-Counted, Reach-Drained}

abbrev key : Key
key = record { org_id = 1; day = 5; kind = "chat" }

abbrev calls : List Call
calls =
    record { key = key; amount = pos 2; limit = some (pos 3) }
    ∷ record { key = key; amount = pos 2; limit = some (pos 3) }
    ∷ []

used_two : used key (serve calls []) ≡ 2
unfolding serve check_and_increment
used_two = ground arith

serve-quota_example :
    (used key (serve calls []) ≡ used key [] + total key calls [])
    × (used key (serve calls []) ≤ max (used key []) 3)
serve-quota_example = serve-quota key calls [] 3 refl

abbrev one_waits : Pool
one_waits = record { runtime = enter (idle 0 1).runtime; waiting = 7 ∷ []; running = [] }

abbrev one_runs : Pool
one_runs = record { runtime = begin one_waits.runtime; waiting = []; running = 7 ∷ [] }

one_runs_reached : Reach (idle 0 1) one_runs
unfolding enter new_runtime
one_runs_reached = next (next here (arrive 7 refl)) (start 7 refl (ground arith) refl)

Reach-Counted_example : Counted one_runs
Reach-Counted_example = Reach-Counted 0 1 one_runs one_runs_reached

Reach-Drained_example : (q : Pool) × Work one_runs q × Drained q
Reach-Drained_example = Reach-Drained 0 1 one_runs one_runs_reached
