-- ===== src/ConfigSync/Clock.antt =====
-- internal/configsync/sync.go: the hybrid logical clock.
pub mod Order
use file_sync_engine.Prelude.{ℕ, ◌+◌, ◌%◌, ◌^◌, String, Bool, true, false, ◌==◌, ltb, if◌then◌else◌}
use file_sync_engine.Prelude.Int.{ℤ, ltb_ℤ, eqb_ℤ}
use file_sync_engine.Prelude.Text.{str_lt}

-- The counter is a uint32.
pub record Clock : Type 0 where
  pub wall : ℤ
  pub counter : ℕ
  pub node_id : String

-- The sign of an `int` that a comparison returns.
pub data Sign : Type 0 where
  earlier same later : Sign

-- strings.Compare
unfoldable pub compare_text : String → String → Sign
compare_text s t = if str_lt s t then earlier else if str_lt t s then later else same

unfoldable pub compare_clocks : Clock → Clock → Sign
compare_clocks a b =
    if eqb_ℤ a.wall b.wall
    then (if a.counter == b.counter
        then compare_text a.node_id b.node_id
        else if ltb b.counter a.counter
        then later
        else earlier)
    else if ltb_ℤ b.wall a.wall
    then later
    else earlier

abbrev pub is_later : Sign → Bool
is_later earlier = false
is_later same = false
is_later later = true

-- `Compare(a, b) > 0`
unfoldable pub later_than : Clock → Clock → Bool
unfolding compare_clocks
later_than a b = is_later (compare_clocks a b)

-- The clock that `Tick` makes from the local clock, the engine's id and the wall time.
unfoldable pub tick_clock : Clock → String → ℤ → Clock
tick_clock local id wall =
    if ltb_ℤ wall local.wall
    then record { wall = local.wall; counter = (local.counter + 1) % 2 ^ 32; node_id = id }
    else if eqb_ℤ wall local.wall
    then record { wall = wall; counter = (local.counter + 1) % 2 ^ 32; node_id = id }
    else record { wall = wall; counter = 0; node_id = id }

-- The local clock after `witness`.
unfoldable pub witness_clock : Clock → String → Clock → Clock
unfolding later_than
witness_clock local id remote =
    if later_than remote local
    then record { wall = remote.wall; counter = remote.counter; node_id = id }
    else local
