-- ===== src/ApplyPlan/Complete.antt =====
-- A plan has every write, in the order given, and every delete, once.
use file_sync_engine.Prelude.{
  ℕ, zero, suc, ◌<◌, ◌≡◌, refl, ap, ◌∙◌, List, [], ◌∷◌, ◌++◌, map, arith, if_rule,
}
use mathlib.Core.List.{Perm, append_assoc, append-nil, perm-append_left_iff}
use mathlib.Core.List.Perm
use file_sync_engine.Prelude.Int.{ℤ, ltb_ℤ, add64, sub64}
use file_sync_engine.Prelude.Lists.{length}
use file_sync_engine.Prelude.Sort.{sort_stable, sort_stable-perm}
use file_sync_engine.Prelude.Text.{str_lt}
use file_sync_engine.ApplyPlan.{
  Write, Delete, Step, write_step, delete_step, StepKind, step_of_write, step_of_delete, delete_at,
  remove_at, best_delete_index, Room, make_room, place_writes, order,
}
use file_sync_engine.ApplyPlan.Space.{best_delete_index-lt}

-- The steps of a kind.
abbrev pub put_write : StepKind → Step → List Step → List Step
put_write write_step s rest = s ∷ rest
put_write delete_step s rest = rest

abbrev pub put_delete : StepKind → Step → List Step → List Step
put_delete write_step s rest = rest
put_delete delete_step s rest = s ∷ rest

abbrev pub writes_of : List Step → List Step
writes_of [] = []
writes_of (s ∷ steps) = put_write s.kind s (writes_of steps)

abbrev pub deletes_of : List Step → List Step
deletes_of [] = []
deletes_of (s ∷ steps) = put_delete s.kind s (deletes_of steps)

writes_of-append : (xs ys : List Step) → writes_of (xs ++ ys) ≡ writes_of xs ++ writes_of ys
writes_of-append [] ys = refl
writes_of-append (s ∷ xs) ys = step s.kind (writes_of-append xs ys)
  where
    step :
        (k : StepKind)
        → writes_of (xs ++ ys) ≡ writes_of xs ++ writes_of ys
        → put_write k s (writes_of (xs ++ ys)) ≡ put_write k s (writes_of xs) ++ writes_of ys
    step write_step ih = ap (λ r. s ∷ r) ih
    step delete_step ih = ih

deletes_of-append : (xs ys : List Step) → deletes_of (xs ++ ys) ≡ deletes_of xs ++ deletes_of ys
deletes_of-append [] ys = refl
deletes_of-append (s ∷ xs) ys = step s.kind (deletes_of-append xs ys)
  where
    step :
        (k : StepKind)
        → deletes_of (xs ++ ys) ≡ deletes_of xs ++ deletes_of ys
        → put_delete k s (deletes_of (xs ++ ys)) ≡ put_delete k s (deletes_of xs) ++ deletes_of ys
    step write_step ih = ih
    step delete_step ih = ap (λ r. s ∷ r) ih

writes_of-deletes : (ds : List Delete) → writes_of (map step_of_delete ds) ≡ []
writes_of-deletes [] = refl
writes_of-deletes (d ∷ ds) = writes_of-deletes ds

deletes_of-deletes : (ds : List Delete) → deletes_of (map step_of_delete ds) ≡ map step_of_delete ds
deletes_of-deletes [] = refl
deletes_of-deletes (d ∷ ds) = ap (λ r. step_of_delete d ∷ r) (deletes_of-deletes ds)

remove_at-perm :
    (default : Delete) (i : ℕ) (ds : List Delete)
    → i < length ds
    → Perm (delete_at default i ds ∷ remove_at i ds) ds
unfolding delete_at remove_at
remove_at-perm default i [] h = absurd (omega (arith, h))
remove_at-perm default zero (d ∷ ds) h = Perm.refl (d ∷ ds)
remove_at-perm default (suc i) (d ∷ ds) h =
    Perm.trans (Perm.swap d (delete_at default i ds) (remove_at i ds))
      (Perm.cons d (remove_at-perm default i ds (omega (arith, h))))

-- What a loop over the deletes says of the deletes it started with: no write, and every delete is a
-- step or is left.
record IsComplete (deletes : List Delete) (r : Room) : Type 0 where
  no_write : writes_of r.steps ≡ []
  all_there : Perm (deletes_of r.steps ++ map step_of_delete r.deletes) (map step_of_delete deletes)

make_room-IsComplete :
    (fuel : ℕ) (needed available : ℤ) (deletes : List Delete)
    → IsComplete deletes (make_room fuel needed available deletes)
unfolding make_room
make_room-IsComplete zero needed available deletes = record {
  no_write = refl;
  all_there = Perm.refl _;
}
make_room-IsComplete (suc fuel) needed available [] = record {
  no_write = refl;
  all_there = Perm.refl _;
}
make_room-IsComplete (suc fuel) needed available (d ∷ ds) =
    let idx = best_delete_index (d ∷ ds) in
    let best = delete_at d idx (d ∷ ds) in
    let rest =
      make_room-IsComplete fuel needed (add64 available best.bytes_freed)
        (remove_at idx (d ∷ ds)) in
    if_rule (IsComplete (d ∷ ds)) (ltb_ℤ available needed) _ _
      (λ _. record {
        no_write = rest.no_write;
        all_there =
            Perm.trans (Perm.cons (step_of_delete best) rest.all_there)
              (Perm.map step_of_delete (remove_at-perm d idx (d ∷ ds) (best_delete_index-lt d ds)));
      })
      (λ _. record { no_write = refl; all_there = Perm.refl _ })

place_writes-writes :
    (available : ℤ) (deletes : List Delete) (writes : List Write)
    → writes_of (place_writes available deletes writes).steps ≡ map step_of_write writes
unfolding place_writes
place_writes-writes available deletes [] = refl
place_writes-writes available deletes (w ∷ writes) =
    let room = make_room (length deletes) w.bytes_needed available deletes in
    let left = sub64 room.available w.bytes_needed in
    rw
      (writes_of-append room.steps
        (step_of_write w ∷ (place_writes left room.deletes writes).steps))
      (rw (make_room-IsComplete (length deletes) w.bytes_needed available deletes).no_write
        (ap (λ r. step_of_write w ∷ r) (place_writes-writes left room.deletes writes)))

place_writes-deletes :
    (available : ℤ) (deletes : List Delete) (writes : List Write)
    → let placed = place_writes available deletes writes in
      Perm
        (deletes_of placed.steps ++ map step_of_delete placed.deletes)
        (map step_of_delete deletes)
unfolding place_writes
place_writes-deletes available deletes [] = Perm.refl (map step_of_delete deletes)
place_writes-deletes available deletes (w ∷ writes) =
    let room = make_room (length deletes) w.bytes_needed available deletes in
    let rest = place_writes (sub64 room.available w.bytes_needed) room.deletes writes in
    let left = map step_of_delete rest.deletes in
    rw (deletes_of-append room.steps (step_of_write w ∷ rest.steps)) (
      rw (append_assoc (deletes_of room.steps) (deletes_of rest.steps) left) (
        Perm.trans
          ((perm-append_left_iff (deletes_of room.steps)).1
            (place_writes-deletes (sub64 room.available w.bytes_needed) room.deletes writes))
          (make_room-IsComplete (length deletes) w.bytes_needed available deletes).all_there))

-- A plan is complete whatever the space: its writes are the given writes in their order, and its
-- deletes are the given deletes in some order, each once.
pub order_complete :
    (writes : List Write) (deletes : List Delete) (available : ℤ)
    → (writes_of (order writes deletes available) ≡ map step_of_write writes)
      × Perm (deletes_of (order writes deletes available)) (map step_of_delete deletes)
unfolding order
order_complete writes deletes available =
    let placed = place_writes available deletes writes in
    let by_path = (λ (a b : Delete). str_lt a.path b.path) in
    let last = sort_stable by_path placed.deletes in
    (
      writes_of-append placed.steps (map step_of_delete last)
          ∙ ap (λ r. writes_of placed.steps ++ r) (writes_of-deletes last)
          ∙ append-nil (writes_of placed.steps)
          ∙ place_writes-writes available deletes writes,
      rw (deletes_of-append placed.steps (map step_of_delete last)) (
          rw (deletes_of-deletes last) (
            Perm.trans
              ((perm-append_left_iff (deletes_of placed.steps)).1
                (Perm.map step_of_delete (sort_stable-perm by_path placed.deletes)))
              (place_writes-deletes available deletes writes))),
    )
