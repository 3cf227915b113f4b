-- ===== src/Tests/Space.antt =====
-- The order of an apply plan and the limiter at concrete inputs.
use file_sync_engine.Prelude.{ℕ, ◌+◌, ◌*◌, ◌<◌, ◌≡◌, refl, true, none, List, [], ◌∷◌, map, arith}
use mathlib.Core.List.{Perm}
use file_sync_engine.Prelude.Int.{pos, add64, sub64}
use file_sync_engine.Prelude.Sort.{sort_stable}
use file_sync_engine.ApplyPlan.{Write, Delete, Step, step_of_write, step_of_delete, order}
use file_sync_engine.ApplyPlan.Space.{Fits, order-Fits}
use file_sync_engine.ApplyPlan.Complete.{writes_of, deletes_of, order_complete}
use file_sync_engine.RateLimit.{Limiter, second, new_limiter, wait}
use file_sync_engine.RateLimit.Paced.{Event, transfer, idle, total, clock, run, run_paced}
use file_sync_engine.RateLimit.Overflow.{wait_unpaced}

abbrev writes : List Write
writes =
    record { path = "w"; bytes_needed = pos 8 } ∷ record { path = "v"; bytes_needed = pos 1 } ∷ []

abbrev deletes : List Delete
deletes =
    record { path = "b"; bytes_freed = pos 2 } ∷ record { path = "a"; bytes_freed = pos 4 } ∷ []

first_steps :
    map (λ (s : Step). s.path) (order writes deletes (pos 5)) ≡ ("a" ∷ "w" ∷ "v" ∷ "b" ∷ [])
unfolding order add64 sub64 sort_stable
first_steps = refl

order-Fits_example : Fits 5 (order writes deletes (pos 5))
order-Fits_example =
    order-Fits 5 writes deletes (refl, (refl, tt)) (refl, (refl, tt)) (omega arith) (omega arith)

order_complete_example :
    (writes_of (order writes deletes (pos 5)) ≡ map step_of_write writes)
    × Perm (deletes_of (order writes deletes (pos 5))) (map step_of_delete deletes)
order_complete_example = order_complete writes deletes (pos 5)

-- A clock whose sleeps take a nanosecond more.
abbrev oversleep : ℕ → ℕ
oversleep d = d + 1

abbrev events : List Event
events = transfer 500 ∷ idle 3 ∷ transfer 700 ∷ []

paced_clock : clock (run oversleep events (new_limiter (pos 1000))) ≡ 1200000001
unfolding wait add64 sub64
paced_clock = refl

run_paced_example :
    total events * second < (clock (run oversleep events (new_limiter (pos 1000))) + 1) * 1000
run_paced_example = run_paced oversleep 1000 events (λ d. omega arith) (omega arith) (omega arith)

abbrev fresh : Limiter
fresh = new_limiter (pos 1000)

wait_unpaced_example :
    wait oversleep none (pos 10000000000) fresh
    ≡ (record fresh { transferred = pos (0 + 10000000000) }, true)
wait_unpaced_example =
    wait_unpaced oversleep none 1000 0 10000000000 0 fresh refl refl refl (omega arith)
      (omega arith) (omega arith) (omega arith) (omega arith)
