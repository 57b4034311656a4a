-- ===== src/GeoIndex/Spread.antt =====
-- Every cell that can hold a position within the radius is among those that the scan visits
-- (core/src/geo/geohash-index.ts).
use ride_location_tracking_e.Common.{
  ℕ, suc, ◌+◌, ◌-◌, ◌*◌, ◌/◌, ◌%◌, ◌^◌, ◌≡◌, ◌≤◌, ◌<◌, sym, ap, ◌∙◌, some, leb, Bool-cases, inl,
  inr, arith, min,
}
use native.Mathlib.Nat.{
  mod-eq_of_lt, add-mod_right, le-div_iff_mul-le, mul-le-mul, mul-pos, one-le-pow,
}
use ride_location_tracking_e.Common.Int.{pos, negsuc, pos_part, ◌+ℤ◌, ◌-ℤ◌}
use ride_location_tracking_e.Common.Map
use ride_location_tracking_e.Domain.{LatLng}
use ride_location_tracking_e.Geohash.{GridCell, bit_split, cell_of, js_rem, meters_per_degree_lat}
use ride_location_tracking_e.Geohash.Cells.{cell_of-IsOnGrid}
use ride_location_tracking_e.GeoIndex.{GeohashIndex}
use ride_location_tracking_e.GeoIndex.Search.{
  cell_size_meters, min_cell_dim, ring_count, col_at, col_count,
}
use ride_location_tracking_e.GeoIndex.Candidates.{IsScanned, col_at-east}

abbrev pub gap : ℕ → ℕ → ℕ
gap a b = a - b + (b - a)

-- How many columns two columns are apart, the shorter way around the globe.
abbrev pub gap_around : ℕ → ℕ → ℕ → ℕ
gap_around count a b = min (gap a b) (count - gap a b)

below_zero : (a b : ℕ) → a < b → pos a -ℤ pos b ≡ negsuc (b - a - 1)
unfolding ◌-ℤ◌
below_zero a b h = ground (arith, h)

from_zero : (a b : ℕ) → b ≤ a → pos a -ℤ pos b ≡ pos (a - b)
unfolding ◌-ℤ◌
from_zero a b h = ground (arith, h)

wrapped : (k count : ℕ) → k < count → pos_part (pos 0 -ℤ pos k +ℤ pos count) ≡ count - k
unfolding ◌-ℤ◌ ◌+ℤ◌
wrapped k count h = ground (arith, h)

unwrapped : (k count : ℕ) → pos_part (pos k +ℤ pos count) ≡ k + count
unfolding ◌+ℤ◌
unwrapped k count = ground arith

module _ (unit bits scale : ℕ) where
  -- A column at most `ring` to the west, on the same side of the date line.
  col_at-west :
      (center : GridCell) (ring west : ℕ)
      → west ≤ ring
      → west ≤ center.col
      → center.col < col_count unit bits scale
      → col_at unit bits scale center ring (ring - west) ≡ center.col - west
  unfolding col_at js_rem
  col_at-west center ring west h k on =
      let count = col_count unit bits scale in
      let small : center.col - west < count = omega (arith, on) in
      let here : pos (center.col + (ring - west)) -ℤ pos ring ≡ pos (center.col - west) =
        from_zero (center.col + (ring - west)) ring (omega arith) ∙ ap (λ n. pos n) (omega arith) in
      rw (here, js_rem, mod-eq_of_lt small, unwrapped (center.col - west) count)
        (add-mod_right (center.col - west) count ∙ mod-eq_of_lt small)

  -- And across it.
  col_at-across :
      (center : GridCell) (ring west : ℕ)
      → west ≤ ring
      → center.col < west
      → west ≤ col_count unit bits scale - 1
      → col_at unit bits scale center ring (ring - west)
        ≡ center.col + col_count unit bits scale - west
  unfolding col_at js_rem
  col_at-across center ring west h k on =
      let count = col_count unit bits scale in
      let back = west - center.col in
      let offset : suc (ring - (center.col + (ring - west)) - 1) ≡ back = omega arith in
      let below : back < count = omega (arith, k, on) in
      let small : count - back < count = omega (arith, k, below) in
      rw
        (
          below_zero (center.col + (ring - west)) ring (omega arith),
          js_rem,
          offset,
          mod-eq_of_lt below,
          wrapped back count below,
        )
        (mod-eq_of_lt small ∙ omega (arith, k, below))

  -- The scan visits every column within the rings, whichever way around is the shorter.
  near_col :
      (center : GridCell) (ring col : ℕ)
      → center.col < col_count unit bits scale
      → col < col_count unit bits scale
      → gap_around (col_count unit bits scale) center.col col ≤ ring
      → (j : ℕ) × (j ≤ 2 * ring) × (col_at unit bits scale center ring j ≡ col)
  near_col center ring col on there near =
      let count = col_count unit bits scale in
      let g = gap center.col col in
      elim (Bool-cases (leb g (count - g))) [
        | inl direct ↦ elim (Bool-cases (leb center.col col)) [
          | inl e ↦ (
            ring + g,
            ground (arith, direct, e, near),
            col_at-east unit bits scale center ring g
                ∙ ap (λ n. n % count) (ground (arith, e))
                ∙ mod-eq_of_lt there,
          )
          | inr e ↦ (
            ring - g,
            omega arith,
            col_at-west center ring g (ground (arith, direct, near)) (ground (arith, e)) on
                ∙ ground (arith, e),
          )
        ]
        | inr across ↦ elim (Bool-cases (leb center.col col)) [
          | inl e ↦ (
            ring - (count - g),
            omega arith,
            col_at-across center ring (count - g) (ground (arith, across, near))
                  (ground (arith, e, on, there)) (ground (arith, e, across, on, there))
                ∙ ground (arith, e, on, there),
          )
          | inr e ↦ (
            ring + (count - g),
            ground (arith, across, e, near),
            col_at-east unit bits scale center ring (count - g)
                ∙ ap (λ n. n % count) (ground (arith, e, on, there))
                ∙ add-mod_right col count
                ∙ mod-eq_of_lt there,
          )
        ]
      ]

  module _ (cos : LatLng → ℕ) (distance : LatLng → LatLng → ℕ) where
    -- A position whose cell is some rows or columns from the center's is at least all but one of them away; the
    -- columns are as wide as at the center.
    pub record IsFarApart (center p : LatLng) : Type 0 where
      pub rows :
          (gap (cell_of unit center bits).row (cell_of unit p bits).row - 1)
            * (cell_size_meters unit bits scale (cos center)).lat_meters
          ≤ distance center p
      pub cols :
          (gap_around
                (col_count unit bits scale)
                (cell_of unit center bits).col
                (cell_of unit p bits).col
              - 1)
            * (cell_size_meters unit bits scale (cos center)).lng_meters
          ≤ distance center p

    -- So it is for every position of the index within reach.
    abbrev pub IsSpread : GeohashIndex → LatLng → ℕ → Type 0
    IsSpread index center reach =
        (id : ℕ) (p : LatLng)
        → Map.get index.positions id ≡ some p
        → distance center p ≤ reach
        → IsFarApart center p

    some_dim : (c : ℕ) → 0 < scale → 0 < min_cell_dim unit bits scale c
    unfolding cell_size_meters
    some_dim c h =
        let wide : 0 < 2 ^ ((bit_split bits).lng_bits - (bit_split bits).lat_bits) =
          one-le-pow ((bit_split bits).lng_bits - (bit_split bits).lat_bits) 2 (omega arith) in
        let high : 0 < (cell_size_meters unit bits scale c).lat_meters =
          mul-pos {m = 180 * meters_per_degree_lat * (1000000 * scale)}
            {n = 2 ^ ((bit_split bits).lng_bits - (bit_split bits).lat_bits)} (omega (arith, h))
            wide in
        let broad : 0 < (cell_size_meters unit bits scale c).lng_meters = ground (arith, h) in
        ground (arith, high, broad)

    -- So many cells lie within the rings if all but one fit in the radius.
    in_rings :
        (c radius n size : ℕ)
        → 0 < scale
        → min_cell_dim unit bits scale c ≤ size
        → (n - 1) * size ≤ radius
        → n ≤ ring_count unit bits scale c radius
    unfolding ring_count
    in_rings c radius n size h small fits =
        let dim = min_cell_dim unit bits scale c in
        let positive = some_dim c h in
        let fits' : (n - 1) * dim ≤ radius + dim - 1 = omega (
          arith,
          mul-le-mul {n₁ = n - 1} {m₁ = dim} {n₂ = n - 1} {m₂ = size} (omega arith) small,
          fits,
          positive,
        ) in
        let k : n - 1 ≤ (radius + dim - 1) / dim = (le-div_iff_mul-le positive).1 fits' in
        ground (arith, k)

    pub IsFarApart-IsScanned :
        (center p : LatLng) (radius : ℕ)
        → 0 < scale
        → distance center p ≤ radius
        → IsFarApart center p
        → IsScanned unit bits scale
            (cell_of unit center bits)
            (ring_count unit bits scale (cos center) radius)
            (cell_of unit p bits)
    IsFarApart-IsScanned center p radius h near far =
        let c = cell_of unit center bits in
        let q = cell_of unit p bits in
        let ring = ring_count unit bits scale (cos center) radius in
        let size = cell_size_meters unit bits scale (cos center) in
        let dim = min_cell_dim unit bits scale (cos center) in
        let rows : gap c.row q.row ≤ ring =
          in_rings (cos center) radius (gap c.row q.row) size.lat_meters h (ground arith)
            (omega (arith, far.rows, near)) in
        let cols : gap_around (col_count unit bits scale) c.col q.col ≤ ring =
          in_rings (cos center) radius (gap_around (col_count unit bits scale) c.col q.col)
            size.lng_meters h (ground arith) (omega (arith, far.cols, near)) in
        let on = cell_of-IsOnGrid unit p bits in
        let j = near_col c ring q.col (cell_of-IsOnGrid unit center bits).1 on.1 cols in
        let level : c.row + (q.row + ring - c.row) - ring ≡ q.row = omega (arith, rows) in
        record {
          row_offset = q.row + ring - c.row;
          col_offset = j.0;
          row_near = omega (arith, rows);
          col_near = j.1;
          on_grid = ground (arith, rows, on.0);
          there = λ i. record { row = sym level i; col = sym j.2 i };
        }
