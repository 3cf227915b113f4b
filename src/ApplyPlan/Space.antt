-- ===== src/ApplyPlan/Space.antt =====
-- Whether a plan ever runs out of space, by a run of its steps.
use file_sync_engine.Prelude.{
  ℕ, zero, suc, ◌+◌, ◌-◌, ◌^◌, ◌≤◌, ◌<◌, ◌≡◌, refl, sym, ap, ◌∙◌, subst, List, [], ◌∷◌, ◌++◌, map,
  arith, if◌then◌else◌, if_rule,
}
use mathlib.Core.List.{append_assoc}
use file_sync_engine.Prelude.Int.{
  ℤ, pos, negsuc, pos_part, neg_part, ltb_ℤ, add64, sub64, add64-pos, sub64-pos,
}
use file_sync_engine.Prelude.Lists.{length, All}
use file_sync_engine.Prelude.Text.{str_lt}
use file_sync_engine.Prelude.Sort.{sort_stable}
use file_sync_engine.ApplyPlan.{
  Write, Delete, Step, write_step, delete_step, StepKind, step_of_write, step_of_delete, delete_at,
  remove_at, best_from, best_delete_index, Room, make_room, place_writes, order,
}

-- A step of `bytes` in `space` bytes: a write needs its bytes, and `rest` is said of what is left.
abbrev pub FitsStep : StepKind → ℕ → ℕ → (ℕ → Type 0) → Type 0
FitsStep write_step bytes space rest = (bytes ≤ space) × rest (space - bytes)
FitsStep delete_step bytes space rest = rest (space + bytes)

-- The steps can be run in this order in `space` bytes.
abbrev pub Fits : ℕ → List Step → Type 0
Fits space [] = Unit
Fits space (s ∷ steps) = FitsStep s.kind (pos_part s.bytes) space (λ left. Fits left steps)

-- What the deletes free, and what the writes need.
abbrev pub freed : List Delete → ℕ
freed [] = 0
freed (d ∷ deletes) = pos_part d.bytes_freed + freed deletes

abbrev pub needed : List Write → ℕ
needed [] = 0
needed (w ∷ writes) = pos_part w.bytes_needed + needed writes

abbrev pub IsNat : ℤ → Type 0
IsNat z = neg_part z ≡ 0

abbrev pub FreesNat : Delete → Type 0
FreesNat d = IsNat d.bytes_freed

abbrev pub NeedsNat : Write → Type 0
NeedsNat w = IsNat w.bytes_needed

pos_of : (z : ℤ) → IsNat z → z ≡ pos (pos_part z)
pos_of (pos n) h = refl
pos_of (negsuc n) h = absurd (omega (arith, h))

best_from-lt :
    (i best : ℕ) (freed : ℤ) (ds : List Delete)
    → best < i
    → best_from i best freed ds < i + length ds
unfolding best_from
best_from-lt i best freed [] h = omega arith
best_from-lt i best freed (d ∷ ds) h =
    let rest =
      best_from-lt (suc i) (if ltb_ℤ freed d.bytes_freed then i else best)
        (if ltb_ℤ freed d.bytes_freed then d.bytes_freed else freed) ds (ground arith) in
    omega (arith, rest)

pub best_delete_index-lt :
    (d : Delete) (ds : List Delete) → best_delete_index (d ∷ ds) < length (d ∷ ds)
unfolding best_delete_index
best_delete_index-lt d ds = omega (arith, best_from-lt 1 0 d.bytes_freed ds)

freed-remove_at :
    (default : Delete) (i : ℕ) (ds : List Delete)
    → i < length ds
    → pos_part (delete_at default i ds).bytes_freed + freed (remove_at i ds) ≡ freed ds
unfolding delete_at remove_at
freed-remove_at default i [] h = absurd (omega (arith, h))
freed-remove_at default zero (d ∷ ds) h = refl
freed-remove_at default (suc i) (d ∷ ds) h = omega (arith, freed-remove_at default i ds)

remove_at-All : (P : Delete → Type 0) (i : ℕ) (ds : List Delete) → All P ds → All P (remove_at i ds)
unfolding remove_at
remove_at-All P i [] h = tt
remove_at-All P zero (d ∷ ds) h = h.1
remove_at-All P (suc i) (d ∷ ds) h = (h.0, remove_at-All P i ds h.1)

delete_at-All :
    (P : Delete → Type 0) (default : Delete) (i : ℕ) (ds : List Delete)
    → P default
    → All P ds
    → P (delete_at default i ds)
unfolding delete_at
delete_at-All P default i [] p h = p
delete_at-All P default zero (d ∷ ds) p h = h.0
delete_at-All P default (suc i) (d ∷ ds) p h = delete_at-All P default i ds p h.1

length-remove_at :
    (i : ℕ) (ds : List Delete) → i < length ds → length (remove_at i ds) + 1 ≡ length ds
unfolding remove_at
length-remove_at i [] h = absurd (omega (arith, h))
length-remove_at zero (d ∷ ds) h = omega arith
length-remove_at (suc i) (d ∷ ds) h = omega (arith, length-remove_at i ds)

-- What a loop that had `before` bytes, and could free `total` more, has made of them.
record IsRoomy (want before : ℕ) (deletes : List Delete) (r : Room) : Type 0 where
  space : ℕ
  available : r.available ≡ pos space
  enough : want ≤ space
  total : space + freed r.deletes ≡ before + freed deletes
  natural : All FreesNat r.deletes
  runs : (steps : List Step) → Fits space steps → Fits before (r.steps ++ steps)

make_room-IsRoomy :
    (fuel want before : ℕ) (deletes : List Delete)
    → length deletes ≤ fuel
    → All FreesNat deletes
    → before + freed deletes < 2 ^ 63
    → want ≤ before + freed deletes
    → IsRoomy want before deletes (make_room fuel (pos want) (pos before) deletes)
unfolding make_room
make_room-IsRoomy zero want before [] l n b w = record {
  space = before;
  available = refl;
  enough = omega (arith, w);
  total = refl;
  natural = n;
  runs = λ steps h. h;
}
make_room-IsRoomy zero want before (d ∷ ds) l n b w = absurd (omega (arith, l))
make_room-IsRoomy (suc fuel) want before [] l n b w = record {
  space = before;
  available = refl;
  enough = omega (arith, w);
  total = refl;
  natural = n;
  runs = λ steps h. h;
}
make_room-IsRoomy (suc fuel) want before (d ∷ ds) l n b w =
    let idx = best_delete_index (d ∷ ds) in
    let best = delete_at d idx (d ∷ ds) in
    let left = remove_at idx (d ∷ ds) in
    let inside = best_delete_index-lt d ds in
    let sum = freed-remove_at d idx (d ∷ ds) inside in
    let rest =
      make_room-IsRoomy fuel want (before + pos_part best.bytes_freed) left
        (omega (arith, length-remove_at idx (d ∷ ds) inside, l))
        (remove_at-All FreesNat idx (d ∷ ds) n) (omega (arith, sum, b)) (omega (arith, sum, w)) in
    let more : add64 (pos before) best.bytes_freed ≡ pos (before + pos_part best.bytes_freed) =
      ap (add64 (pos before))
        (pos_of best.bytes_freed (delete_at-All FreesNat d idx (d ∷ ds) n.0 n))
      ∙ add64-pos before (pos_part best.bytes_freed) (omega (arith, sum, b)) in
    if_rule (IsRoomy want before (d ∷ ds)) (ltb_ℤ (pos before) (pos want)) _ _
      (λ _. rw more (record {
        space = rest.space;
        available = rest.available;
        enough = rest.enough;
        total = omega (arith, rest.total, sum);
        natural = rest.natural;
        runs = rest.runs;
      }))
      (λ stop. record {
        space = before;
        available = refl;
        enough = ground (arith, stop);
        total = refl;
        natural = n;
        runs = λ steps h. h;
      })

room_of :
    (want : ℤ) (before : ℕ) (deletes : List Delete)
    → IsNat want
    → All FreesNat deletes
    → before + freed deletes < 2 ^ 63
    → pos_part want ≤ before + freed deletes
    → IsRoomy (pos_part want) before deletes (make_room (length deletes) want (pos before) deletes)
room_of want before deletes k n b w =
    subst
      (λ (z : ℤ).
        IsRoomy (pos_part want) before deletes (make_room (length deletes) z (pos before) deletes))
      (sym (pos_of want k))
      (make_room-IsRoomy (length deletes) (pos_part want) before deletes (omega arith) n b w)

after_write :
    (want : ℤ) (space : ℕ) (available : ℤ)
    → IsNat want
    → available ≡ pos space
    → pos_part want ≤ space
    → space < 2 ^ 63
    → sub64 available want ≡ pos (space - pos_part want)
after_write want space available k e l b =
    ap (λ z. sub64 z want) e
    ∙ ap (sub64 (pos space)) (pos_of want k)
    ∙ sub64-pos space (pos_part want) l b

Fits-deletes : (space : ℕ) (deletes : List Delete) → Fits space (map step_of_delete deletes)
Fits-deletes space [] = tt
Fits-deletes space (d ∷ deletes) = Fits-deletes (space + pos_part d.bytes_freed) deletes

place_writes-Fits :
    (before : ℕ) (deletes : List Delete) (writes : List Write)
    → All FreesNat deletes
    → All NeedsNat writes
    → before + freed deletes < 2 ^ 63
    → needed writes ≤ before + freed deletes
    → (after : List Delete)
    → Fits before ((place_writes (pos before) deletes writes).steps ++ map step_of_delete after)
unfolding place_writes
place_writes-Fits before deletes [] n m b enough after = Fits-deletes before after
place_writes-Fits before deletes (w ∷ writes) n m b enough after =
    let room = make_room (length deletes) w.bytes_needed (pos before) deletes in
    let r = room_of w.bytes_needed before deletes m.0 n b (omega (arith, enough)) in
    let left =
      after_write w.bytes_needed r.space room.available m.0 r.available r.enough
        (omega (arith, r.total, b)) in
    let rest =
      place_writes-Fits (r.space - pos_part w.bytes_needed) room.deletes writes r.natural m.1
        (omega (arith, r.total, b)) (omega (arith, r.total, r.enough, enough)) after in
    let tail =
      (λ (z : ℤ). (place_writes z room.deletes writes).steps ++ map step_of_delete after) in
    let z = sub64 room.available w.bytes_needed in
    subst (Fits before)
      (sym (
        append_assoc room.steps (step_of_write w ∷ (place_writes z room.deletes writes).steps)
          (map step_of_delete after)))
      (r.runs (step_of_write w ∷ tail z) (
        r.enough,
        subst (λ (y : ℤ). Fits (r.space - pos_part w.bytes_needed) (tail y)) (sym left) rest,
      ))

-- A plan never runs out of space when the space that there is, and what all deletes free, suffice
-- for all writes: run in its order, each write finds the bytes it needs. The sizes are not
-- negative, and the space with all that is freed is an int64.
pub order-Fits :
    (space : ℕ) (writes : List Write) (deletes : List Delete)
    → All FreesNat deletes
    → All NeedsNat writes
    → space + freed deletes < 2 ^ 63
    → needed writes ≤ space + freed deletes
    → Fits space (order writes deletes (pos space))
unfolding order
order-Fits space writes deletes n m b enough = place_writes-Fits space deletes writes n m b enough (
    sort_stable (λ (a b : Delete). str_lt a.path b.path)
      (place_writes (pos space) deletes writes).deletes)
