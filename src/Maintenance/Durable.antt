-- ===== src/Maintenance/Durable.antt =====
-- What a run that finishes reports, against the checkpoint store, and that a budget of files ends
-- every run.
use file_sync_engine.Prelude.{
  ℕ, zero, suc, ◌+◌, ◌≤◌, ◌<◌, ◌≡◌, ◌≢◌, refl, Bool, true, false, Option, none, some, arith,
  if_rule, ◌&&◌, ◌==◌,
}
use file_sync_engine.Maintenance.{
  no_cursor, Cursor, StepResult, World, Budget, Run, Outcome, finished, failed, not_loaded,
  out_of_fuel, budget_reached, with_default, next_cursor, stops, after_save, after_step, round_of,
  Round, ends, goes_on, run_loop, started_run, idle_run, run_once,
}

-- What is said of a run that finished.
abbrev pub WhenFinished : (Run → Type 0) → Outcome → Type 0
WhenFinished P (finished run) = P run
WhenFinished P (failed run) = Unit
WhenFinished P not_loaded = Unit
WhenFinished P out_of_fuel = Unit

abbrev pub IsStored : Run → Type 0
IsStored run = run.stored ≡ some run.cursor

-- What a round leaves, of the stored cursor.
abbrev RoundStored : Round → Type 0
RoundStored (ends outcome) = WhenFinished IsStored outcome
RoundStored (goes_on next) = next.stored ≡ some next.loop_cursor

-- What a round leaves, of the count of files before it and the budget.
abbrev Advances : ℕ → ℕ → Round → Type 0
Advances max before (ends outcome) = outcome ≢ out_of_fuel
Advances max before (goes_on next) = before < max × before < next.files_scanned

finished≢out_of_fuel : (run : Run) → finished run ≢ out_of_fuel
finished≢out_of_fuel run e = cc

failed≢out_of_fuel : (run : Run) → failed run ≢ out_of_fuel
failed≢out_of_fuel run e = cc

not_loaded≢out_of_fuel : not_loaded ≢ out_of_fuel
not_loaded≢out_of_fuel e = cc

module _ (w : World) (budget : Budget) where
  after_step-RoundStored :
      (round : ℕ) (run : Run) (o : Option StepResult)
      → RoundStored (after_step w budget round run o)
  unfolding after_step after_save
  after_step-RoundStored round run none = tt
  after_step-RoundStored round run (some step) = saved (w.save round (next_cursor step))
    where
      saved : (b : Bool) → RoundStored (after_save w budget run step b)
      saved false = tt
      saved true = if_rule RoundStored step.complete _ _ (λ _. refl) (λ _. refl)

  round_of-RoundStored :
      (round : ℕ) (run : Run)
      → run.stored ≡ some run.loop_cursor
      → RoundStored (round_of w budget round run)
  unfolding round_of
  round_of-RoundStored round run s =
      if_rule RoundStored (w.cancelled round) _ _ (λ _. tt)
        (λ _.
          if_rule RoundStored (stops w budget round run) _ _ (λ _. s)
            (λ _. after_step-RoundStored round run (w.step round run.loop_cursor)))

  run_loop-IsStored :
      (fuel round : ℕ) (run : Run)
      → run.stored ≡ some run.loop_cursor
      → WhenFinished IsStored (run_loop w budget fuel round run)
  unfolding run_loop
  run_loop-IsStored zero round run s = tt
  run_loop-IsStored (suc fuel) round run s =
      next_round (round_of w budget round run) (round_of-RoundStored round run s)
        (λ next h. run_loop-IsStored fuel (round + 1) next h)
    where
      next_round :
          (r : Round)
          → RoundStored r
          → ((next : Run)
              → next.stored ≡ some next.loop_cursor
              → WhenFinished IsStored (run_loop w budget fuel (round + 1) next))
          → WhenFinished IsStored (elim r [
            | ends outcome ↦ outcome
            | goes_on next ↦ run_loop w budget fuel (round + 1) next
          ])
      next_round (ends outcome) h rest = h
      next_round (goes_on next) h rest = rest next h

  module _
      (counts : (round : ℕ) (cursor : Cursor) (step : StepResult)
        → w.step round cursor ≡ some step
        → step.complete ≡ false
        → 1 ≤ step.files_scanned)
      (limited : 0 < budget.max_files) where
    after_step-Advances :
        (round : ℕ) (run : Run) (o : Option StepResult)
        → w.step round run.loop_cursor ≡ o
        → run.files_scanned < budget.max_files
        → Advances budget.max_files run.files_scanned (after_step w budget round run o)
    unfolding after_step after_save
    after_step-Advances round run none q below = failed≢out_of_fuel run
    after_step-Advances round run (some step) q below = saved (w.save round (next_cursor step))
      where
        saved :
            (b : Bool)
            → Advances budget.max_files run.files_scanned (after_save w budget run step b)
        saved false = failed≢out_of_fuel _
        saved true =
            if_rule (Advances budget.max_files run.files_scanned) step.complete _ _
              (λ _. finished≢out_of_fuel _)
              (λ more. (below, omega (arith, counts round run.loop_cursor step q more)))

    round_of-Advances :
        (round : ℕ) (run : Run)
        → Advances budget.max_files run.files_scanned (round_of w budget round run)
    unfolding round_of stops budget_reached
    round_of-Advances round run =
        if_rule (Advances budget.max_files run.files_scanned) (w.cancelled round) _ _
          (λ _. failed≢out_of_fuel run)
          (λ _.
            if_rule (Advances budget.max_files run.files_scanned) (stops w budget round run) _ _
              (λ _. finished≢out_of_fuel _)
              (λ go.
                after_step-Advances round run (w.step round run.loop_cursor) refl
                  (ground (arith, go, limited))))

    run_loop-ends :
        (fuel round : ℕ) (run : Run)
        → budget.max_files < run.files_scanned + fuel
        → 0 < fuel
        → run_loop w budget fuel round run ≢ out_of_fuel
    unfolding run_loop
    run_loop-ends zero round run enough some_fuel = absurd (omega arith)
    run_loop-ends (suc fuel) round run enough some_fuel =
        next_round (round_of w budget round run) (round_of-Advances round run) (λ next h.
          run_loop-ends fuel (round + 1) next (omega (arith, h.0, h.1, enough))
            (omega (arith, h.0, h.1, enough)))
      where
        next_round :
            (r : Round)
            → Advances budget.max_files run.files_scanned r
            → ((next : Run)
                → run.files_scanned < budget.max_files × run.files_scanned < next.files_scanned
                → run_loop w budget fuel (round + 1) next ≢ out_of_fuel)
            → (elim r [
              | ends outcome ↦ outcome
              | goes_on next ↦ run_loop w budget fuel (round + 1) next
            ])
              ≢ out_of_fuel
        next_round (ends outcome) h rest = h
        next_round (goes_on next) h rest = rest next h

-- What a run reports that finishes: nothing but that it yielded, where it yields at once, and
-- otherwise the cursor that the store holds.
abbrev pub Reports : Bool → Option Cursor → Run → Type 0
Reports true loaded run =
    (run.stored ≡ loaded)
    × (run.cursor ≡ no_cursor)
    × (run.yielded ≡ true)
    × (run.complete ≡ false)
    × (run.files_scanned ≡ 0)
    × (run.bytes_scanned ≡ 0)
Reports false loaded run = IsStored run

-- A run that finishes reports the cursor that the checkpoint store holds, so the next run resumes
-- where this one ended, unless it yields at once: such a run reports the zero cursor and that it
-- yielded, counts no file and no byte, and leaves the store as it was.
pub run_once-Reports :
    (w : World) (budget : Budget) (fuel : ℕ) (busy : Bool) (loaded : Option Cursor)
    → WhenFinished (Reports busy loaded) (run_once w budget fuel busy loaded)
unfolding run_once
run_once-Reports w budget fuel true loaded = (refl, refl, refl, refl, refl, refl)
run_once-Reports w budget fuel false none = tt
run_once-Reports w budget fuel false (some cursor) =
    run_loop-IsStored w (with_default budget) fuel 0 (started_run cursor) refl

-- With a budget of files, a run ends after at most one round more than the budget, if every step
-- that succeeds scans a file or completes the crawl.
pub run_once_ends :
    (w : World) (budget : Budget) (busy : Bool) (loaded : Option Cursor)
    → 0 < budget.max_files
    → ((round : ℕ) (cursor : Cursor) (step : StepResult)
        → w.step round cursor ≡ some step
        → step.complete ≡ false
        → 1 ≤ step.files_scanned)
    → run_once w budget (budget.max_files + 1) busy loaded ≢ out_of_fuel
unfolding run_once with_default
run_once_ends w budget true loaded limited counts = finished≢out_of_fuel (idle_run loaded)
run_once_ends w budget false none limited counts = not_loaded≢out_of_fuel
run_once_ends w budget false (some cursor) limited counts =
    if_rule
      (λ (b : Budget). run_loop w b (budget.max_files + 1) 0 (started_run cursor) ≢ out_of_fuel)
      (budget.max_files == 0 && budget.max_bytes == 0 && budget.max_duration == 0) _ _
      (λ zero_all. absurd (ground (arith, zero_all, limited)))
      (λ _.
        run_loop-ends w budget counts limited (budget.max_files + 1) 0 (started_run cursor)
          (omega arith) (omega arith))
