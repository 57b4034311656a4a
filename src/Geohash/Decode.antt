-- ===== src/Geohash/Decode.antt =====
-- What `decode` of core/src/geo/geohash.ts says of a point's hash.
use ride_location_tracking_e.Common.{
  ℕ, ◌+◌, ◌-◌, ◌*◌, ◌/◌, ◌^◌, ◌≤◌, ◌<◌, ◌≡◌, inl, inr, arith, ap, min, leb, some, Bool-cases,
  mul_mono,
}
use ride_location_tracking_e.Common.Int.{
  ℤ, pos, pos_part, neg_part, ◌+ℤ◌, ◌-ℤ◌, ◌≤ℤ◌, times, int_laws, negsuc, -ℤ_parts,
}
use native.Mathlib.Nat.{div-add-mod', mod-lt, one-le-pow, mod-eq_of_lt}
use ride_location_tracking_e.Domain.{LatLng}
use ride_location_tracking_e.Geohash.{
  GridCell, bit_split, cell_of, encode, decode, cell_bounds, clamp_lat, normalize_lng, js_rem,
}
use ride_location_tracking_e.Geohash.Cells.{encode-deinterleave}

-- The cell `r` of `q` equal cells over `w` units holds the place `x`.
abbrev Holds : ℕ → ℕ → ℕ → ℕ → Type 0
Holds q w x r = (r * w ≤ x * q) × (x * q ≤ r * w + w)

cell_Holds : (q w x : ℕ) → 0 < q → 0 < w → x ≤ w → Holds q w x (min (q - 1) (x * q / w))
cell_Holds q w x hq hw hx =
    let e = div-add-mod' (x * q) w in
    let m = mod-lt (x * q) hw in
    elim (Bool-cases (leb (q - 1) (x * q / w))) [
      | inl c ↦
          let r : min (q - 1) (x * q / w) ≡ q - 1 = ground (arith, c) in
          let low : (q - 1) * w ≤ x * q / w * w =
            mul_mono (q - 1) (x * q / w) w (ground (arith, c)) in
          let whole : x * q ≤ w * q = mul_mono x w q hx in
          let split : (q - 1 + 1) * w ≡ (q - 1) * w + w = grind arith in
          let top : q - 1 + 1 ≡ q = omega arith in
          rw r (omega arith, omega (arith, ap (λ (t : ℕ). t * w) top))
      | inr c ↦
          let r : min (q - 1) (x * q / w) ≡ x * q / w = ground (arith, c) in
          rw r (omega arith, omega arith)
    ]

in_range_rem : (a : ℤ) (k : ℕ) → pos_part a < k → neg_part a < k → js_rem a k ≡ a
unfolding js_rem ◌-ℤ◌
in_range_rem (pos n) k h g = ap pos (mod-eq_of_lt h)
in_range_rem (negsuc n) k h g = rw (mod-eq_of_lt g) (ground arith)

normalize_same :
    (unit : ℕ) (lng : ℤ)
    → neg_part lng ≤ 180 * unit
    → pos_part lng < 180 * unit
    → normalize_lng unit lng ≡ lng
unfolding normalize_lng ◌-ℤ◌
normalize_same unit lng west east =
    rw (in_range_rem lng (360 * unit) (omega arith) (omega arith)) (ground arith)

-- `a + k`, of a number `a` that is at least `-k`.
shifted : (a : ℤ) (k : ℕ) → neg_part a ≤ k → pos_part (a +ℤ pos k) + neg_part a ≡ pos_part a + k
unfolding ◌+ℤ◌
shifted a k h = ground arith

-- The center, in `2 * q`-ths of a degree, is at most the error away from the place, in `unit`-ths.
abbrev pub Near : ℕ → ℕ → ℕ → ℤ → ℤ → Type 0
Near unit q error center place =
    (times center unit ≤ℤ times place (2 * q) +ℤ pos (error * unit))
    × (times place (2 * q) ≤ℤ times center unit +ℤ pos (error * unit))

module _ (unit : ℕ) (point : LatLng) (bits : ℕ) (positive : 0 < unit) where
  abbrev cell : GridCell
  cell = cell_of unit point bits

  clamp_lat-le : clamp_lat unit point.lat ≤ 180 * unit
  unfolding clamp_lat
  clamp_lat-le = ground arith

  row_Holds : Holds (2 ^ (bit_split bits).lat_bits) (180 * unit) (clamp_lat unit point.lat) cell.row
  unfolding cell_of
  row_Holds =
      cell_Holds (2 ^ (bit_split bits).lat_bits) (180 * unit) (clamp_lat unit point.lat)
        (one-le-pow _ 2 (omega arith)) (omega arith) clamp_lat-le

  col_Holds :
      neg_part point.lng ≤ 180 * unit
      → pos_part point.lng < 180 * unit
      → Holds
          (2 ^ (bit_split bits).lng_bits)
          (360 * unit)
          (pos_part (point.lng +ℤ pos (180 * unit)))
          cell.col
  unfolding cell_of
  col_Holds west east = rw (normalize_same unit point.lng west east) (
      cell_Holds (2 ^ (bit_split bits).lng_bits) (360 * unit)
        (pos_part (point.lng +ℤ pos (180 * unit))) (one-le-pow _ 2 (omega arith)) (omega arith)
        (omega (arith, shifted point.lng (180 * unit) west)))

  lat_place :
      neg_part point.lat ≤ 90 * unit
      → pos_part point.lat ≤ 90 * unit
      → clamp_lat unit point.lat + neg_part point.lat ≡ pos_part point.lat + 90 * unit
  unfolding clamp_lat
  lat_place south north = ground (arith, shifted point.lat (90 * unit) south)

  near :
      (q r x half : ℕ) (place : ℤ)
      → Holds q (2 * half * unit) x r
      → x + neg_part place ≡ pos_part place + half * unit
      → Near unit q (2 * half) (pos (r * (4 * half) + 2 * half) -ℤ pos (2 * half * q)) place
  near q r x half place h e =
      let scaled = ap (λ (t : ℕ). t * (2 * q)) e in
      let apart =
        ap (λ (t : ℕ). t * unit)
          (-ℤ_parts (pos (r * (4 * half) + 2 * half)) (pos (2 * half * q))) in
      omega (int_laws, h, scaled, apart)

  -- The hash of a point, decoded, is a center that the point is no farther from than the error that comes with
  -- it, on both axes: the precision must be from 1 to 52 bits, the latitude from -90 to 90 degrees, and the
  -- longitude from -180 up to but not including 180.
  pub encode-decode :
      0 < bits
      → bits ≤ 52
      → (neg_part point.lat ≤ 90 * unit) × (pos_part point.lat ≤ 90 * unit)
      → (neg_part point.lng ≤ 180 * unit) × (pos_part point.lng < 180 * unit)
      → (hash : ℕ) × (encode unit point bits ≡ some hash)
        × Near unit
            (2 ^ (bit_split bits).lat_bits)
            (decode hash bits).lat_error_deg
            (decode hash bits).lat
            point.lat
        × Near unit
            (2 ^ (bit_split bits).lng_bits)
            (decode hash bits).lng_error_deg
            (decode hash bits).lng
            point.lng
  unfolding decode cell_bounds
  encode-decode some_bits fits lat_ok lng_ok =
      let (hash, encoded, cell_back, _) = encode-deinterleave unit point bits some_bits fits in
      (
        hash,
        encoded,
        rw cell_back (
            near (2 ^ (bit_split bits).lat_bits) cell.row (clamp_lat unit point.lat) 90 point.lat
              row_Holds (lat_place lat_ok.0 lat_ok.1)),
        rw cell_back (
            near (2 ^ (bit_split bits).lng_bits) cell.col (pos_part (point.lng +ℤ pos (180 * unit)))
              180 point.lng (col_Holds lng_ok.0 lng_ok.1)
              (shifted point.lng (180 * unit) lng_ok.0)),
      )
