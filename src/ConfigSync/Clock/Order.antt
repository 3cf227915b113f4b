-- ===== src/ConfigSync/Clock/Order.antt =====
-- The clocks are totally ordered, and a new write is later than everything the engine has seen.
use file_sync_engine.Prelude.{
  ◌+◌, ◌<◌, ◌^◌, String, ◌≡◌, ◌⊎◌, inl, inr, true, false, arith, Bool-cases, subst, sym,
}
use file_sync_engine.Prelude.Int.{ℤ, ◌<ℤ◌, eq_of_parts}
use file_sync_engine.Prelude.Text.{str_lt, str_lt_irrefl, str_lt_trans, str_lt_total, str_lt_asym}
use file_sync_engine.ConfigSync.Clock.{
  Clock, is_later, compare_text, later_than, tick_clock, witness_clock,
}

-- The order that the comment on `Clock` states: wall time, then counter, then node id.
abbrev pub Later : Clock → Clock → Type 0
Later a b =
    (b.wall <ℤ a.wall)
    ⊎ (a.wall ≡ b.wall)
      × ((b.counter < a.counter) ⊎ (a.counter ≡ b.counter) × (str_lt b.node_id a.node_id ≡ true))

compare_text_later : (s t : String) → is_later (compare_text s t) ≡ str_lt t s
unfolding compare_text
compare_text_later s t = ground (arith, str_lt_asym s t)

module _ (a b : Clock) where
  -- `Compare` is that order.
  pub later_than-Later : later_than a b ≡ true → Later a b
  unfolding later_than
  later_than-Later h =
      ground (arith, compare_text_later a.node_id b.node_id, eq_of_parts a.wall b.wall)

  pub Later-later_than : Later a b → later_than a b ≡ true
  unfolding later_than
  Later-later_than h = ground (arith, compare_text_later a.node_id b.node_id)

pub later_than_irrefl : (a : Clock) → later_than a a ≡ false
later_than_irrefl a = ground (arith, later_than-Later a a, str_lt_irrefl a.node_id)

-- Two clocks neither of which is later are the same clock.
pub later_than_total : (a b : Clock) → later_than a b ≡ false → later_than b a ≡ false → a ≡ b
later_than_total a b h k = ground (
  arith,
  Later-later_than a b,
  Later-later_than b a,
  eq_of_parts a.wall b.wall,
  str_lt_total a.node_id b.node_id,
)

pub later_than_trans :
    (a b c : Clock) → later_than a b ≡ true → later_than b c ≡ true → later_than a c ≡ true
later_than_trans a b c h k = ground (
  arith,
  later_than-Later a b,
  later_than-Later b c,
  Later-later_than a c,
  str_lt_trans c.node_id b.node_id a.node_id,
)

pub later_than_asym : (a b : Clock) → later_than a b ≡ true → later_than b a ≡ false
later_than_asym a b h = ground (arith, later_than_trans a b a, later_than_irrefl a)

-- Later by wall time or counter, whatever the node ids.
abbrev Above : Clock → Clock → Type 0
Above a b = (b.wall <ℤ a.wall) ⊎ (a.wall ≡ b.wall) × (b.counter < a.counter)

tick_Above :
    (local : Clock) (id : String) (wall : ℤ)
    → local.counter + 1 < 2 ^ 32
    → Above (tick_clock local id wall) local
unfolding tick_clock
tick_Above local id wall h = ground (arith, eq_of_parts wall local.wall)

later_of_Above : (a b : Clock) → Above a b → later_than a b ≡ true
later_of_Above a b (inl h) = Later-later_than a b (inl h)
later_of_Above a b (inr h) = Later-later_than a b (inr (h.0, inl h.1))

-- The next local write is later than the clock it starts from, while the counter does not wrap.
pub tick_clock-later :
    (local : Clock) (id : String) (wall : ℤ)
    → local.counter + 1 < 2 ^ 32
    → later_than (tick_clock local id wall) local ≡ true
tick_clock-later local id wall h = later_of_Above _ local (tick_Above local id wall h)

not_later : (a b : Clock) → later_than a b ≡ false → (a ≡ b) ⊎ (later_than b a ≡ true)
not_later a b h = elim (Bool-cases (later_than b a)) [
  | inl t ↦ inr t
  | inr f ↦ inl (later_than_total a b h f)
]

-- A write that follows the reading of a remote clock is later than that clock and than the
-- engine's own clock before it, for any wall time, while neither counter is the largest uint32.
pub tick_witness_later :
    (local remote : Clock) (id : String) (wall : ℤ)
    → local.counter + 1 < 2 ^ 32
    → remote.counter + 1 < 2 ^ 32
    → (later_than (tick_clock (witness_clock local id remote) id wall) remote ≡ true)
      × (later_than (tick_clock (witness_clock local id remote) id wall) local ≡ true)
unfolding witness_clock
tick_witness_later local remote id wall h k = elim (Bool-cases (later_than remote local)) [
  | inl t ↦
      let seen : Clock = record { wall = remote.wall; counter = remote.counter; node_id = id } in
      let new = later_of_Above (tick_clock seen id wall) remote (tick_Above seen id wall k) in
      rw t (new, later_than_trans (tick_clock seen id wall) remote local new t)
  | inr f ↦
      let new = tick_clock-later local id wall h in
      rw f (elim (not_later remote local f) [
        | inl e ↦ (subst (λ c. later_than (tick_clock local id wall) c ≡ true) (sym e) new, new)
        | inr below ↦ (later_than_trans (tick_clock local id wall) local remote new below, new)
      ])
]
