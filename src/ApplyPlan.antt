-- ===== src/ApplyPlan.antt =====
-- internal/applyplan/order.go: the order in which writes and deletes are applied, so that space is
-- freed before it is needed. The sizes are int64.
pub mod Space
pub mod Complete
use file_sync_engine.Prelude.{
  ℕ, zero, suc, ◌+◌, String, Bool, true, false, List, [], ◌∷◌, ◌++◌, map, if◌then◌else◌,
}
use file_sync_engine.Prelude.Int.{ℤ, ltb_ℤ, add64, sub64}
use file_sync_engine.Prelude.Lists.{length}
use file_sync_engine.Prelude.Sort.{sort_stable}
use file_sync_engine.Prelude.Text.{str_lt}

pub record Write : Type 0 where
  pub path : String
  pub bytes_needed : ℤ

pub record Delete : Type 0 where
  pub path : String
  pub bytes_freed : ℤ

pub data StepKind : Type 0 where
  write_step delete_step : StepKind

pub record Step : Type 0 where
  pub kind : StepKind
  pub path : String
  pub bytes : ℤ

abbrev pub step_of_write : Write → Step
step_of_write w = record { kind = write_step; path = w.path; bytes = w.bytes_needed }

abbrev pub step_of_delete : Delete → Step
step_of_delete d = record { kind = delete_step; path = d.path; bytes = d.bytes_freed }

-- The loop of `bestDeleteIndex` from index `i`, with the best index and what it frees.
unfoldable pub best_from : ℕ → ℕ → ℤ → List Delete → ℕ
best_from i best freed [] = best
best_from i best freed (d ∷ deletes) =
    best_from (suc i) (if ltb_ℤ freed d.bytes_freed then i else best)
      (if ltb_ℤ freed d.bytes_freed then d.bytes_freed else freed) deletes

unfoldable pub best_delete_index : List Delete → ℕ
unfolding best_from
best_delete_index [] = 0
best_delete_index (d ∷ deletes) = best_from 1 0 d.bytes_freed deletes

-- `deletes[idx]`, with a default that is never read.
unfoldable pub delete_at : Delete → ℕ → List Delete → Delete
delete_at default i [] = default
delete_at default zero (d ∷ deletes) = d
delete_at default (suc i) (d ∷ deletes) = delete_at default i deletes

-- `append(deletes[:idx], deletes[idx+1:]...)`
unfoldable pub remove_at : ℕ → List Delete → List Delete
remove_at i [] = []
remove_at zero (d ∷ deletes) = deletes
remove_at (suc i) (d ∷ deletes) = d ∷ remove_at i deletes

-- The steps that a loop appended, the space, and the deletes that are left.
pub record Room : Type 0 where
  pub steps : List Step
  pub available : ℤ
  pub deletes : List Delete

-- `for available < write.BytesNeeded && len(deletes) > 0`: the fuel is the number of deletes, of
-- which each round takes one.
unfoldable pub make_room : ℕ → ℤ → ℤ → List Delete → Room
unfolding best_delete_index delete_at remove_at
make_room zero needed available deletes = record {
  steps = [];
  available = available;
  deletes = deletes;
}
make_room (suc fuel) needed available [] = record {
  steps = [];
  available = available;
  deletes = [];
}
make_room (suc fuel) needed available (d ∷ deletes) =
    let idx = best_delete_index (d ∷ deletes) in
    let best = delete_at d idx (d ∷ deletes) in
    let rest =
      make_room fuel needed (add64 available best.bytes_freed) (remove_at idx (d ∷ deletes)) in
    if ltb_ℤ available needed
    then record rest { steps = step_of_delete best ∷ rest.steps }
    else record { steps = []; available = available; deletes = d ∷ deletes }

-- The loop over the writes.
unfoldable pub place_writes : ℤ → List Delete → List Write → Room
unfolding make_room
place_writes available deletes [] = record { steps = []; available = available; deletes = deletes }
place_writes available deletes (w ∷ writes) =
    let room = make_room (length deletes) w.bytes_needed available deletes in
    let rest = place_writes (sub64 room.available w.bytes_needed) room.deletes writes in
    record rest { steps = room.steps ++ (step_of_write w ∷ rest.steps) }

unfoldable pub order : List Write → List Delete → ℤ → List Step
unfolding place_writes
order writes deletes available =
    let placed = place_writes available deletes writes in
    placed.steps
    ++ map step_of_delete (sort_stable (λ (a b : Delete). str_lt a.path b.path) placed.deletes)
