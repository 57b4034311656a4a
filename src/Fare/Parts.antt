-- ===== src/Fare/Parts.antt =====
-- How the parts of a fare add up (core/src/services/fare.service.ts).
use ride_location_tracking_e.Common.{
  ℕ, ◌+◌, ◌*◌, ◌≤◌, ◌<◌, arith, mul_mono, leb, Bool-cases, inl, inr,
}
use native.Mathlib.Nat.{div-add-mod', mod-lt}
use ride_location_tracking_e.Domain.{LatLng}
use ride_location_tracking_e.Surge.{
  SurgeStore, SurgeRuntimeConfig, get_surge_multiplier_for_location, multiplier_of, zone_hash_for,
}
use ride_location_tracking_e.Surge.Step.{StoredInRange, previous-IsInRange}
use ride_location_tracking_e.Common.Map
use ride_location_tracking_e.Fare.{FareConfig, round_ratio, exact_subtotal, fare_of, estimate_fare}

-- `r` is `n / d` up to a half.
abbrev Rounds : ℕ → ℕ → ℕ → Type 0
Rounds n d r = (r * d * 2 ≤ n * 2 + d) × (n * 2 + d < r * d * 2 + d * 2)

round_ratio-Rounds : (n d : ℕ) → 0 < d → Rounds n d (round_ratio n d)
unfolding round_ratio
round_ratio-Rounds n d h =
    let e = div-add-mod' (2 * n + d) (2 * d) in
    let m = mod-lt (2 * n + d) {m = 2 * d} (omega arith) in omega arith

-- A factor that is positive is cancelled.
lt_of_scaled : (a b k : ℕ) → a * k < b * k → a < b
lt_of_scaled a b k h = elim (Bool-cases (leb b a)) [
  | inl e ↦ absurd (let m = mul_mono b a k (ground (arith, e)) in omega arith)
  | inr e ↦ ground (arith, e)
]

le_of_scaled : (a b k : ℕ) → 0 < k → a * k ≤ b * k → a ≤ b
le_of_scaled a b k p h = elim (Bool-cases (leb a b)) [
  | inl e ↦ ground (arith, e)
  | inr e ↦ absurd (let m = mul_mono (b + 1) a k (ground (arith, e)) in omega arith)
]

module _ (base n1 n2 v s t1 t2 : ℕ) (positive : 0 < v)
    (sub : Rounds (base * (60000 * v) + n1 * (60 * v) + n2 * 1000) (60000 * v) s)
    (first : Rounds n1 1000 t1) (second : Rounds n2 (60 * v) t2) where
  sub_le : s ≤ base + t1 + t2 + 1
  sub_le =
      let a = mul_mono (n1 * 2 + 1000) (t1 * 1000 * 2 + 1000 * 2) (60 * v) (omega arith) in
      let b = mul_mono (n2 * 2 + 60 * v) (t2 * (60 * v) * 2 + 60 * v * 2) 1000 (omega arith) in
      let c = lt_of_scaled s (base + t1 + t2 + 2) (60000 * v * 2) (omega arith) in omega arith

  le_sub : base + t1 + t2 ≤ s + 1
  le_sub =
      let a = mul_mono (t1 * 1000 * 2) (n1 * 2 + 1000) (60 * v) (omega arith) in
      let b = mul_mono (t2 * (60 * v) * 2) (n2 * 2 + 60 * v) 1000 (omega arith) in
      let c = lt_of_scaled (base + t1 + t2) (s + 2) (60000 * v * 2) (omega arith) in omega arith

module _ (n d k m top s t : ℕ) (some_d : 0 < d) (some_k : 0 < k) (sub : Rounds n d s)
    (total : Rounds (n * m) (d * k) t) where
  sub-le-total : k ≤ m → s ≤ t
  sub-le-total h =
      let a = mul_mono (s * d * 2) (n * 2 + d) k (omega arith) in
      let b = mul_mono k m (n * 2) h in
      let c = lt_of_scaled s (t + 1) (d * k * 2) (omega arith) in omega arith

  total-le-sub : m ≤ top → t * (2 * k) ≤ (2 * s + 1) * top + k
  total-le-sub h =
      let a = mul_mono (n * 2) ((2 * s + 1) * d) m (omega arith) in
      let b = mul_mono m top ((2 * s + 1) * d) h in
      le_of_scaled (t * (2 * k)) ((2 * s + 1) * top + k) d some_d (omega arith)

-- In cents, the rounded base, distance and time add up to the rounded subtotal, or miss it by one. If the
-- least multiplier is at least 1, the total is no less than the subtotal, and it is at most half a cent more than
-- the greatest multiplier makes of half a cent more than the subtotal; the speed and the scale must be positive,
-- the least multiplier no greater than the greatest, and every stored multiplier in their range.
pub fare_adds_up :
    (haversine : LatLng → LatLng → ℕ) (rates : FareConfig) (cfg : SurgeRuntimeConfig)
    (unit scale : ℕ) (store : SurgeStore) (pickup dropoff : LatLng) (speed : ℕ)
    → 0 < speed
    → 0 < scale
    → scale ≤ cfg.min_multiplier
    → cfg.min_multiplier ≤ cfg.max_multiplier
    → StoredInRange cfg store
    → let f = estimate_fare haversine rates cfg unit scale store pickup dropoff speed in
      (f.subtotal_cents ≤ f.base_cents + f.distance_cents + f.time_cents + 1)
      × (f.base_cents + f.distance_cents + f.time_cents ≤ f.subtotal_cents + 1)
      × (f.subtotal_cents ≤ f.total_cents)
      × (f.total_cents * (2 * scale) ≤ (2 * f.subtotal_cents + 1) * cfg.max_multiplier + scale)
unfolding estimate_fare fare_of get_surge_multiplier_for_location exact_subtotal
fare_adds_up haversine rates cfg unit scale store pickup dropoff speed v k least ordered keep =
    let d = haversine pickup dropoff in
    let n = exact_subtotal rates d speed in
    let m =
      multiplier_of (Map.get store (zone_hash_for unit cfg.zone_bits pickup)) cfg.min_multiplier in
    let range =
      previous-IsInRange cfg store (zone_hash_for unit cfg.zone_bits pickup) ordered keep in
    let sub = round_ratio-Rounds n (60000 * speed) (omega arith) in
    let total = round_ratio-Rounds (n * m) (60000 * speed * scale) (grind arith) in
    let first = round_ratio-Rounds (d * rates.per_km_cents) 1000 (omega arith) in
    let second = round_ratio-Rounds (d * rates.per_minute_cents) (60 * speed) (omega arith) in
    (
      sub_le rates.base_cents (d * rates.per_km_cents) (d * rates.per_minute_cents) speed
          (round_ratio n (60000 * speed)) (round_ratio (d * rates.per_km_cents) 1000)
          (round_ratio (d * rates.per_minute_cents) (60 * speed)) v sub first second,
      le_sub rates.base_cents (d * rates.per_km_cents) (d * rates.per_minute_cents) speed
          (round_ratio n (60000 * speed)) (round_ratio (d * rates.per_km_cents) 1000)
          (round_ratio (d * rates.per_minute_cents) (60 * speed)) v sub first second,
      sub-le-total n (60000 * speed) scale m cfg.max_multiplier (round_ratio n (60000 * speed))
          (round_ratio (n * m) (60000 * speed * scale)) (omega arith) k sub total (omega arith),
      total-le-sub n (60000 * speed) scale m cfg.max_multiplier (round_ratio n (60000 * speed))
          (round_ratio (n * m) (60000 * speed * scale)) (omega arith) k sub total range.1,
    )
