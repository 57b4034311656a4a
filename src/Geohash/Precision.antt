-- ===== src/Geohash/Precision.antt =====
-- The choice of a precision (core/src/geo/geohash.ts).
use ride_location_tracking_e.Common.{
  ℕ, zero, suc, ◌+◌, ◌*◌, ◌<◌, ◌≤◌, ◌≡◌, ◌⊎◌, true, false, arith, Bool-cases, inl, inr,
}
use ride_location_tracking_e.Geohash.{cell_covers, precision_loop, precision_for_radius}

module _ (scale cos radius_meters : ℕ) where
  loop_finest :
      (n k : ℕ)
      → precision_loop scale cos radius_meters n < 2 * k
      → k ≤ n
      → cell_covers scale cos radius_meters (2 * k) ≡ false
  unfolding precision_loop
  loop_finest zero k h le = absurd (omega arith)
  loop_finest (suc n) k h le = elim (Bool-cases (cell_covers scale cos radius_meters (2 * suc n))) [
    | inl e ↦ absurd (ground (arith, e))
    | inr e ↦ ground (arith, e, loop_finest n k)
  ]

  loop_covers :
      (n : ℕ)
      → (precision_loop scale cos radius_meters n ≡ 2)
        ⊎ (cell_covers scale cos radius_meters (precision_loop scale cos radius_meters n) ≡ true)
  unfolding precision_loop
  loop_covers zero = ground arith
  loop_covers (suc n) = elim (Bool-cases (cell_covers scale cos radius_meters (2 * suc n))) [
    | inl e ↦ rw (precision_loop, e) (inr e)
    | inr e ↦ rw (precision_loop, e) (loop_covers n)
  ]

  loop_bounds :
      (n : ℕ)
      → (2 ≤ precision_loop scale cos radius_meters n)
        × (precision_loop scale cos radius_meters n ≤ 2 * n + 2)
        × (0 < n → precision_loop scale cos radius_meters n ≤ 2 * n)
  unfolding precision_loop
  loop_bounds zero = omega arith
  loop_bounds (suc n) = ground (arith, loop_bounds n)

  -- The precision lies between 2 and 52 bits; a cell of it is at least as wide and as high as the radius,
  -- unless it is 2; and at no finer even precision, up to 52 bits, a cell is.
  pub precision_for_radius-IsFinest :
      let bits = precision_for_radius scale cos radius_meters in
      (2 ≤ bits)
      × (bits ≤ 52)
      × ((bits ≡ 2) ⊎ (cell_covers scale cos radius_meters bits ≡ true))
      × ((k : ℕ) → bits < 2 * k → k ≤ 26 → cell_covers scale cos radius_meters (2 * k) ≡ false)
  unfolding precision_for_radius
  precision_for_radius-IsFinest =
      ((loop_bounds 26).0, (loop_bounds 26).2 (omega arith), loop_covers 26, loop_finest 26)
