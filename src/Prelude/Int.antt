-- ===== src/Prelude/Int.antt =====
-- Signed integers over the native numbers, and the wrap-around of a 64-bit signed integer.
use Prim.Native.Nat.{ℕ, zero, suc, ◌+◌, ◌-◌, ◌*◌, ◌/◌, ◌%◌, ◌^◌, ◌≤◌, ◌<◌}
use mathlib.Core.Path.{◌≡◌}
use mathlib.Core.Bool.{Bool, true}
use mathlib.Core.Logic.{◌↔◌}
use native.Mathlib.Omega.{arith}
use file_sync_engine.Prelude.Tests.{ltb, leb, ◌==◌, if◌then◌else◌}

-- `negsuc n` is -(n + 1).
pub data ℤ : Type 0 where
  pos : ℕ → ℤ
  negsuc : ℕ → ℤ

abbrev pub pos_part : ℤ → ℕ
pos_part (pos n) = n
pos_part (negsuc n) = 0

abbrev pub neg_part : ℤ → ℕ
neg_part (pos n) = 0
neg_part (negsuc n) = suc n

-- a - b, as an integer.
abbrev pub sub_ℕ : ℕ → ℕ → ℤ
sub_ℕ a b = if leb b a then pos (a - b) else negsuc (b - a - 1)

infixl 65 ◌+ℤ◌ ◌-ℤ◌
infix 50 ◌≤ℤ◌ ◌<ℤ◌
unfoldable pub ◌+ℤ◌ : ℤ → ℤ → ℤ
a +ℤ b = sub_ℕ (pos_part a + pos_part b) (neg_part a + neg_part b)

unfoldable pub ◌-ℤ◌ : ℤ → ℤ → ℤ
a -ℤ b = sub_ℕ (pos_part a + neg_part b) (neg_part a + pos_part b)

abbrev pub ◌≤ℤ◌ : ℤ → ℤ → Type 0
a ≤ℤ b = pos_part a + neg_part b ≤ pos_part b + neg_part a

abbrev pub ◌<ℤ◌ : ℤ → ℤ → Type 0
a <ℤ b = pos_part a + neg_part b < pos_part b + neg_part a

abbrev pub ltb_ℤ : ℤ → ℤ → Bool
ltb_ℤ a b = ltb (pos_part a + neg_part b) (pos_part b + neg_part a)

abbrev pub leb_ℤ : ℤ → ℤ → Bool
leb_ℤ a b = leb (pos_part a + neg_part b) (pos_part b + neg_part a)

abbrev pub eqb_ℤ : ℤ → ℤ → Bool
eqb_ℤ a b = (pos_part a + neg_part b) == (pos_part b + neg_part a)

pub +ℤ_parts :
    (a b : ℤ)
    → pos_part (a +ℤ b) + neg_part a + neg_part b ≡ neg_part (a +ℤ b) + pos_part a + pos_part b
unfolding ◌+ℤ◌
+ℤ_parts a b = ground arith

pub eq_of_parts : (a b : ℤ) → pos_part a + neg_part b ≡ pos_part b + neg_part a → a ≡ b
eq_of_parts a b h = ground arith

pub eqb_ℤ_iff : (a b : ℤ) → (eqb_ℤ a b ≡ true) ↔ (a ≡ b)
eqb_ℤ_iff a b = ground (arith, eq_of_parts a b)

-- a * k, and a / k rounded to 0, for a natural number k.
unfoldable pub times : ℤ → ℕ → ℤ
times (pos n) k = pos (n * k)
times (negsuc n) k = sub_ℕ 0 (suc n * k)

unfoldable pub quotient : ℤ → ℕ → ℤ
quotient (pos n) k = pos (n / k)
quotient (negsuc n) k = sub_ℕ 0 (suc n / k)

-- The values of an int64.
abbrev pub max_int64 : ℤ
max_int64 = pos (2 ^ 63 - 1)

abbrev pub min_int64 : ℤ
min_int64 = negsuc (2 ^ 63 - 1)

pub record IsInt64 (z : ℤ) : Type 0 where
  pub upper : pos_part z < 2 ^ 63
  pub lower : neg_part z ≤ 2 ^ 63

-- The int64 that a residue modulo 2 ^ 64 stands for.
abbrev of_residue : ℕ → ℤ
of_residue r = if ltb r (2 ^ 63) then pos r else negsuc (2 ^ 64 - r - 1)

-- What a 64-bit register keeps of an integer.
unfoldable pub wrap64 : ℤ → ℤ
wrap64 z = of_residue ((pos_part z + (2 ^ 64 - neg_part z % 2 ^ 64)) % 2 ^ 64)

-- int64 a + b and a - b.
unfoldable pub add64 : ℤ → ℤ → ℤ
unfolding ◌+ℤ◌ wrap64
add64 a b = wrap64 (a +ℤ b)

unfoldable pub sub64 : ℤ → ℤ → ℤ
unfolding ◌-ℤ◌ wrap64
sub64 a b = wrap64 (a -ℤ b)

-- Inside the range nothing wraps.
pub wrap64_id : (z : ℤ) → IsInt64 z → wrap64 z ≡ z
unfolding wrap64
wrap64_id (pos n) h = ground arith
wrap64_id (negsuc n) h = ground arith

-- A sum in range is the sum.
pub add64_parts :
    (a b : ℤ)
    → IsInt64 (a +ℤ b)
    → pos_part (add64 a b) + neg_part a + neg_part b
      ≡ neg_part (add64 a b) + pos_part a + pos_part b
add64_parts a b h = unfold add64 in rw (wrap64_id (a +ℤ b) h) (+ℤ_parts a b)

-- The sum and the difference of natural numbers, while they are in range.
pub add64-pos : (a b : ℕ) → a + b < 2 ^ 63 → add64 (pos a) (pos b) ≡ pos (a + b)
unfolding add64 ◌+ℤ◌
add64-pos a b h = ground (arith, wrap64_id (pos (a + b)))

pub sub64-pos : (a b : ℕ) → b ≤ a → a < 2 ^ 63 → sub64 (pos a) (pos b) ≡ pos (a - b)
unfolding sub64 ◌-ℤ◌
sub64-pos a b h k = ground (arith, wrap64_id (pos (a - b)))

-- An int64 that an increment does not wrap.
pub record CanRise (r : ℤ) : Type 0 where
  pub int64 : IsInt64 r
  pub below : r <ℤ max_int64

succ-IsInt64 : (r : ℤ) → CanRise r → IsInt64 (r +ℤ pos 1)
unfolding ◌+ℤ◌
succ-IsInt64 (pos n) h = ground arith
succ-IsInt64 (negsuc n) h = ground arith

pub succ64-eq : (r : ℤ) → CanRise r → add64 r (pos 1) ≡ r +ℤ pos 1
unfolding add64
succ64-eq r h = wrap64_id (r +ℤ pos 1) (succ-IsInt64 r h)

pub succ64-gt : (r : ℤ) → CanRise r → r <ℤ add64 r (pos 1)
succ64-gt r h = rw (succ64-eq r h) (omega (arith, +ℤ_parts r (pos 1)))

-- `if d <= 0 { d = default }`.
unfoldable pub positive_or : ℕ → ℤ → ℕ
positive_or default (pos zero) = default
positive_or default (pos (suc n)) = suc n
positive_or default (negsuc n) = default
