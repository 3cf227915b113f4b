-- ===== src/Maintenance.antt =====
-- internal/maintenance/worker.go: `RunOnce`, one run of the maintenance crawl. The crawler, the
-- checkpoint file, the clock, the context and `ShouldYield` are a record of functions; those that
-- may answer differently each time get the number of the round. Counts are natural numbers, and a
-- budget of 0 stands for every budget that is not positive. A missing crawler or checkpoint store,
-- which is an error at once, is not modelled.
pub mod Durable
use file_sync_engine.Prelude.{
  ℕ, zero, suc, ◌+◌, String, Bool, true, false, not, ◌&&◌, ◌||◌, Option, none, some, leb, ◌==◌, ltb,
  if◌then◌else◌,
}

pub record Cursor : Type 0 where
  pub position : ℕ
  pub folder_id : String
  pub path : String
  pub revision : ℕ

abbrev pub no_cursor : Cursor
no_cursor = record { position = 0; folder_id = ""; path = ""; revision = 0 }

pub record StepResult : Type 0 where
  pub cursor : Cursor
  pub files_scanned : ℕ
  pub bytes_scanned : ℕ
  pub pruned : ℕ
  pub reported : ℕ
  pub quarantined : ℕ
  pub complete : Bool

pub record World : Type 0 where
  -- ctx.Err() is not nil
  pub cancelled : ℕ → Bool
  -- the call of ShouldYield that may end a round, and the one that fills in the result
  pub should_yield : ℕ → Bool
  pub yielded_then : ℕ → Bool
  pub now : ℕ → ℕ
  -- `none` is an error
  pub step : ℕ → Cursor → Option StepResult
  pub save : ℕ → Cursor → Bool

pub record Budget : Type 0 where
  pub max_files : ℕ
  pub max_bytes : ℕ
  pub max_duration : ℕ

-- The result of the run so far, the cursor of the loop, and what the checkpoint store holds, which
-- is `none` where it cannot be read. The two times of the result are left out.
pub record Run : Type 0 where
  pub loop_cursor : Cursor
  pub stored : Option Cursor
  pub cursor : Cursor
  pub files_scanned : ℕ
  pub bytes_scanned : ℕ
  pub pruned : ℕ
  pub reported : ℕ
  pub quarantined : ℕ
  pub complete : Bool
  pub yielded : Bool

pub data Outcome : Type 0 where
  finished : Run → Outcome
  failed : Run → Outcome
  -- the stored cursor could not be read
  not_loaded : Outcome
  out_of_fuel : Outcome

-- A round ends the run, or goes on with the next round.
pub data Round : Type 0 where
  ends : Outcome → Round
  goes_on : Run → Round

-- `max > 0 && scanned >= max`
unfoldable pub budget_reached : ℕ → ℕ → Bool
budget_reached scanned max = ltb 0 max && leb max scanned

-- The deadline is zero where there is no limit of time.
unfoldable pub duration_reached : ℕ → ℕ → ℕ → Bool
duration_reached started max now = ltb 0 max && leb (started + max) now

unfoldable pub with_default : Budget → Budget
with_default b =
    if b.max_files == 0 && b.max_bytes == 0 && b.max_duration == 0
    then record b { max_files = 1 }
    else b

abbrev pub next_cursor : StepResult → Cursor
next_cursor step = if step.complete then no_cursor else step.cursor

-- The run after a step, before its cursor is saved.
abbrev pub counted : Run → StepResult → Run
counted run step = record run {
  loop_cursor = next_cursor step;
  cursor = next_cursor step;
  files_scanned = run.files_scanned + step.files_scanned;
  bytes_scanned = run.bytes_scanned + step.bytes_scanned;
  pruned = run.pruned + step.pruned;
  reported = run.reported + step.reported;
  quarantined = run.quarantined + step.quarantined;
}

module _ (w : World) (budget : Budget) where
  unfoldable pub stops : ℕ → Run → Bool
  unfolding budget_reached duration_reached
  stops round run =
      w.should_yield round
      || duration_reached (w.now 0) budget.max_duration (w.now (round + 1))
      || budget_reached run.files_scanned budget.max_files
      || budget_reached run.bytes_scanned budget.max_bytes

  -- The end of a round: `none` of a step is an error, and so is a cursor that is not saved.
  unfoldable pub after_save : Run → StepResult → Bool → Round
  after_save run step false = ends (failed (counted run step))
  after_save run step true =
      if step.complete
      then ends (
          finished
            (record (counted run step) { stored = some (next_cursor step); complete = true }))
      else goes_on (record (counted run step) { stored = some (next_cursor step) })

  unfoldable pub after_step : ℕ → Run → Option StepResult → Round
  unfolding after_save
  after_step round run none = ends (failed run)
  after_step round run (some step) = after_save run step (w.save round (next_cursor step))

  -- One round of the loop of `RunOnce`.
  unfoldable pub round_of : ℕ → Run → Round
  unfolding stops after_step
  round_of round run =
      if w.cancelled round
      then ends (failed run)
      else if stops round run
      then ends (finished (record run { yielded = w.yielded_then round; cursor = run.loop_cursor }))
      else after_step round run (w.step round run.loop_cursor)

  -- The loop of `RunOnce`, on fuel.
  unfoldable pub run_loop : ℕ → ℕ → Run → Outcome
  unfolding round_of
  run_loop zero round run = out_of_fuel
  run_loop (suc fuel) round run = elim (round_of round run) [
    | ends outcome ↦ outcome
    | goes_on next ↦ run_loop fuel (round + 1) next
  ]

abbrev pub started_run : Cursor → Run
started_run cursor = record {
  loop_cursor = cursor;
  stored = some cursor;
  cursor = no_cursor;
  files_scanned = 0;
  bytes_scanned = 0;
  pruned = 0;
  reported = 0;
  quarantined = 0;
  complete = false;
  yielded = false;
}

-- The result of a run that yields at once, with what the store holds.
abbrev pub idle_run : Option Cursor → Run
idle_run loaded = record {
  loop_cursor = no_cursor;
  stored = loaded;
  cursor = no_cursor;
  files_scanned = 0;
  bytes_scanned = 0;
  pruned = 0;
  reported = 0;
  quarantined = 0;
  complete = false;
  yielded = true;
}

-- `RunOnce`: whether the engine yields when the run begins, and the cursor that the
-- store holds.
unfoldable pub run_once : World → Budget → ℕ → Bool → Option Cursor → Outcome
unfolding run_loop with_default
run_once w budget fuel true loaded = finished (idle_run loaded)
run_once w budget fuel false none = not_loaded
run_once w budget fuel false (some cursor) =
    run_loop w (with_default budget) fuel 0 (started_run cursor)
