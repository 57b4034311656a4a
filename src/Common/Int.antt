-- ===== src/Common/Int.antt =====
-- Signed integers over the native numbers, for coordinates, offsets and differences of times.
use ride_location_tracking_e.Common.Tests.{ltb, leb, if◌then◌else◌}
use Prim.Native.Nat.{ℕ, suc, ◌+◌, ◌-◌, ◌*◌, ◌/◌, ◌≤◌, ◌<◌}
use mathlib.Core.Path.{◌≡◌}
use mathlib.Core.Bool.{Bool}
use native.Mathlib.Omega.{arith}

-- `negsuc n` is -(n + 1).
pub data ℤ : Type 0 where
  pos : ℕ → ℤ
  negsuc : ℕ → ℤ

abbrev pub pos_part : ℤ → ℕ
pos_part (pos n) = n
pos_part (negsuc n) = 0

abbrev pub neg_part : ℤ → ℕ
neg_part (pos n) = 0
neg_part (negsuc n) = suc n

abbrev pub sub_ℕ : ℕ → ℕ → ℤ
sub_ℕ a b = if leb b a then pos (a - b) else negsuc (b - a - 1)

infixl 65 ◌+ℤ◌ ◌-ℤ◌
infix 50 ◌≤ℤ◌
unfoldable pub ◌+ℤ◌ : ℤ → ℤ → ℤ
a +ℤ b = sub_ℕ (pos_part a + pos_part b) (neg_part a + neg_part b)

unfoldable pub ◌-ℤ◌ : ℤ → ℤ → ℤ
a -ℤ b = sub_ℕ (pos_part a + neg_part b) (neg_part a + pos_part b)

-- The product with a natural number.
unfoldable pub times : ℤ → ℕ → ℤ
times a k = sub_ℕ (pos_part a * k) (neg_part a * k)

abbrev pub ◌≤ℤ◌ : ℤ → ℤ → Type 0
a ≤ℤ b = pos_part a + neg_part b ≤ pos_part b + neg_part a

abbrev pub leb_ℤ : ℤ → ℤ → Bool
leb_ℤ a b = leb (pos_part a + neg_part b) (pos_part b + neg_part a)

abbrev pub ltb_ℤ : ℤ → ℤ → Bool
ltb_ℤ a b = ltb (pos_part a + neg_part b) (pos_part b + neg_part a)

-- Math.floor (a / k)
unfoldable pub div_floor : ℤ → ℕ → ℤ
div_floor (pos n) k = pos (n / k)
div_floor (negsuc n) k = negsuc (n / k)

-- Math.round (a / k), which rounds halves up.
unfoldable pub round_div : ℤ → ℕ → ℤ
round_div a k = div_floor (times a 2 +ℤ pos k) (2 * k)

pub +ℤ_parts :
    (a b : ℤ)
    → pos_part (a +ℤ b) + neg_part a + neg_part b ≡ neg_part (a +ℤ b) + pos_part a + pos_part b
unfolding ◌+ℤ◌
+ℤ_parts a b = ground arith

pub -ℤ_parts :
    (a b : ℤ)
    → pos_part (a -ℤ b) + neg_part a + pos_part b ≡ neg_part (a -ℤ b) + pos_part a + neg_part b
unfolding ◌-ℤ◌
-ℤ_parts a b = ground arith

pub times_parts :
    (a : ℤ) (k : ℕ) → pos_part (times a k) + neg_part a * k ≡ neg_part (times a k) + pos_part a * k
unfolding times
times_parts a k = ground arith

pub eq_of_parts : (a b : ℤ) → pos_part a + neg_part b ≡ pos_part b + neg_part a → a ≡ b
eq_of_parts a b h = ground arith

pub ruleset int_laws = (arith, +ℤ_parts, -ℤ_parts, times_parts, eq_of_parts)

-- The quotient times the divisor is the greatest multiple that does not exceed `a`.
pub div_floor_bounds :
    (a : ℤ) (k : ℕ)
    → 0 < k
    → (pos_part (div_floor a k) * k + neg_part a ≤ pos_part a + neg_part (div_floor a k) * k)
      × (pos_part a + neg_part (div_floor a k) * k < pos_part (div_floor a k) * k + k + neg_part a)
unfolding div_floor
div_floor_bounds (pos n) k h = ground arith
div_floor_bounds (negsuc n) k h = ground arith

-- Twice the distance of `a` and `b` is at most `e`.
abbrev pub Within : ℕ → ℤ → ℤ → Type 0
Within e a b = (times a 2 ≤ℤ times b 2 +ℤ pos e) × (times b 2 ≤ℤ times a 2 +ℤ pos e)

-- Rounding misses by half a divisor at most.
pub round_div-Within : (a : ℤ) (k : ℕ) → 0 < k → Within k (times (round_div a k) k) a
unfolding round_div
round_div-Within a k h =
    omega (int_laws, div_floor_bounds (times a 2 +ℤ pos k) (2 * k) (omega arith))

pub Within-trans : (d e : ℕ) (a b c : ℤ) → Within d a b → Within e b c → Within (d + e) a c
Within-trans d e a b c p q = omega int_laws
