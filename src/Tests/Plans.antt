-- ===== src/Tests/Plans.antt =====
-- Scans and the maintenance crawl at concrete inputs.
use file_sync_engine.Prelude.{
  ℕ, suc, ◌+◌, String, ◌≡◌, ◌≢◌, ◌↔◌, refl, ap, Bool, true, false, Option, none, some, List, [],
  ◌∷◌, ◌++◌, arith, inl, inr, leb, ◌==◌, ◌*◌,
}
use file_sync_engine.Prelude.Map.{lookup, Distinct}
use file_sync_engine.Scheduler.{Scheduler, due}
use file_sync_engine.Scheduler.Rest.{due_again}
use file_sync_engine.Maintenance.{Cursor, StepResult, World, Budget, out_of_fuel, run_once}
use file_sync_engine.Maintenance.Durable.{WhenFinished, Reports, run_once-Reports, run_once_ends}

abbrev scheduler : Scheduler
scheduler = record {
  event_debounce = 5;
  fallback_interval = 100;
  folders =
      ("a", record { last_scan = 10; last_event = 20; is_pending = true })
      ∷ ("b", record { last_scan = 10; last_event = 0; is_pending = false })
      ∷ [];
}

scheduler-Distinct : Distinct scheduler.folders
unfolding lookup
scheduler-Distinct = (refl, (refl, tt))

first_due : (due scheduler 25).0 ≡ ("a" ∷ [])
unfolding due file_sync_engine.Prelude.Sort.sort_stable
first_due = refl

due_again_example : (due (due scheduler 25).1 25).0 ≡ []
due_again_example = due_again scheduler 25 scheduler-Distinct (omega arith)

abbrev at_file : ℕ → Cursor
at_file n = record { position = n; folder_id = "f"; path = ""; revision = 1 }

-- A crawl of one file a step, which is complete after the fifth.
abbrev one_step : Cursor → StepResult
one_step cursor = record {
  cursor = at_file (cursor.position + 1);
  files_scanned = 1;
  bytes_scanned = 10;
  pruned = 0;
  reported = 0;
  quarantined = 0;
  complete = leb 4 cursor.position;
}

abbrev world : World
world = record {
  cancelled = λ round. false;
  should_yield = λ round. false;
  yielded_then = λ round. false;
  now = λ round. round;
  step = λ round cursor. some (one_step cursor);
  save = λ round cursor. true;
}

abbrev two_files : Budget
two_files = record { max_files = 2; max_bytes = 0; max_duration = 0 }

run_once-Reports_example :
    WhenFinished
      (Reports false (some (at_file 0)))
      (run_once world two_files 3 false (some (at_file 0)))
run_once-Reports_example = run_once-Reports world two_files 3 false (some (at_file 0))

-- The files of a step, if there was one.
abbrev counted_of : Option StepResult → ℕ
counted_of none = 0
counted_of (some step) = step.files_scanned

run_once_ends_example : run_once world two_files 3 false (some (at_file 0)) ≢ out_of_fuel
run_once_ends_example =
    run_once_ends world two_files false (some (at_file 0)) (omega arith)
      (λ round cursor step s more. ground (arith, ap (λ (o : Option StepResult). counted_of o) s))
