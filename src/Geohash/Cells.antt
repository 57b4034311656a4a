-- ===== src/Geohash/Cells.antt =====
-- The cells that points fall in, their hashes, and their neighbours (core/src/geo/geohash.ts).
use ride_location_tracking_e.Common.{
  ℕ, ◌+◌, ◌-◌, ◌%◌, ◌^◌, ◌≡◌, ◌<◌, ◌≤◌, refl, sym, false, ◌||◌, some, leb, ltb, ◌==◌, Bool-cases,
  inl, inr, arith, min, ◌∙◌,
}
use native.Mathlib.Nat.{one-le-pow, mod-eq_of_lt, add-mod_right, mod_self}
use ride_location_tracking_e.Domain.{LatLng}
use ride_location_tracking_e.Geohash.{
  GridCell, bit_split, max_bits, cell_of, encode, deinterleave, cell_hash, interleave, Direction,
  neighbor_cell, col_after, col_before, row_above, row_below,
}
use ride_location_tracking_e.Geohash
use ride_location_tracking_e.Geohash.Bits.{deinterleave-cell_hash}

-- The cell is on the grid.
abbrev pub IsOnGrid : ℕ → GridCell → Type 0
IsOnGrid bits cell =
    (cell.row < 2 ^ (bit_split bits).lat_bits) × (cell.col < 2 ^ (bit_split bits).lng_bits)

capped : (k x : ℕ) → min (2 ^ k - 1) x < 2 ^ k
capped k x = ground (arith, one-le-pow k 2 (omega arith))

pub cell_of-IsOnGrid :
    (unit : ℕ) (point : LatLng) (bits : ℕ) → IsOnGrid bits (cell_of unit point bits)
unfolding cell_of
cell_of-IsOnGrid unit point bits =
    (capped (bit_split bits).lat_bits _, capped (bit_split bits).lng_bits _)

-- A point has a hash at every precision from 1 to 52 bits, and the hash, taken apart, is the cell of the
-- point, which is on the grid.
pub encode-deinterleave :
    (unit : ℕ) (point : LatLng) (bits : ℕ)
    → 0 < bits
    → bits ≤ 52
    → (hash : ℕ) × (encode unit point bits ≡ some hash)
      × (deinterleave hash bits ≡ cell_of unit point bits)
      × IsOnGrid bits (cell_of unit point bits)
unfolding encode cell_hash
encode-deinterleave unit point bits h k =
    let cell = cell_of unit point bits in
    let on = cell_of-IsOnGrid unit point bits in
    let ok : (leb bits 0 || ltb max_bits bits) ≡ false = ground arith in
    (cell_hash cell bits, rw (encode, ok) refl, deinterleave-cell_hash cell bits on.0 on.1, on)

-- The way back.
abbrev pub opposite : Direction → Direction
opposite Geohash.n = Geohash.s
opposite Geohash.s = Geohash.n
opposite Geohash.e = Geohash.w
opposite Geohash.w = Geohash.e
opposite Geohash.ne = Geohash.sw
opposite Geohash.nw = Geohash.se
opposite Geohash.se = Geohash.nw
opposite Geohash.sw = Geohash.ne

col_back : (count col : ℕ) → col < count → col_before count (col_after count col) ≡ col
unfolding col_before col_after
col_back count col h = elim (Bool-cases (ltb (col + 1) count)) [
  | inl g ↦
      let next : (col + 1) % count ≡ col + 1 = mod-eq_of_lt (ground (arith, g)) in
      let around : col + 1 + count - 1 ≡ col + count = omega arith in
      rw (next, around) (add-mod_right col count ∙ mod-eq_of_lt h)
  | inr g ↦
      let last : col + 1 ≡ count = ground (arith, g) in
      let next : (col + 1) % count ≡ 0 = rw last (mod_self count) in
      let around : 0 + count - 1 ≡ col = omega (arith, last) in rw (next, around) (mod-eq_of_lt h)
]

col_forth : (count col : ℕ) → col < count → col_after count (col_before count col) ≡ col
unfolding col_before col_after
col_forth count col h = elim (Bool-cases (col == 0)) [
  | inl g ↦
      let zero_col : col ≡ 0 = ground (arith, g) in
      let around : col + count - 1 ≡ count - 1 = omega (arith, zero_col) in
      let back : (count - 1) % count ≡ count - 1 = mod-eq_of_lt (omega arith) in
      let up : count - 1 + 1 ≡ count = omega arith in
      rw (around, back, up) (mod_self count ∙ sym zero_col)
  | inr g ↦
      let around : col + count - 1 ≡ (col - 1) + count = ground (arith, g) in
      let back : (col - 1) % count ≡ col - 1 = mod-eq_of_lt (omega arith) in
      let up : col - 1 + 1 ≡ col = ground (arith, g) in
      rw (around, add-mod_right (col - 1) count, back, up) (mod-eq_of_lt h)
]

row_back : (count row : ℕ) → row + 1 < count → row_below count (row_above count row) ≡ row
unfolding row_below row_above
row_back count row h = ground (arith, h)

row_forth : (count row : ℕ) → row < count → 0 < row → row_above count (row_below count row) ≡ row
unfolding row_below row_above
row_forth count row h k = ground (arith, h, k)

-- The step does not leave the grid at a pole.
abbrev pub IsWithin : ℕ → ℕ → Direction → Type 0
IsWithin rows row Geohash.n = row + 1 < rows
IsWithin rows row Geohash.ne = row + 1 < rows
IsWithin rows row Geohash.nw = row + 1 < rows
IsWithin rows row Geohash.s = 0 < row
IsWithin rows row Geohash.se = 0 < row
IsWithin rows row Geohash.sw = 0 < row
IsWithin rows row Geohash.e = Unit {0}
IsWithin rows row Geohash.w = Unit {0}

-- From a cell on the grid, a step to a neighbour and a step in the opposite direction lead back to the cell,
-- across the antimeridian too, unless the first step was held at a pole.
pub neighbor_cell-opposite :
    (cell : GridCell) (bits : ℕ) (d : Direction)
    → IsOnGrid bits cell
    → IsWithin (2 ^ (bit_split bits).lat_bits) cell.row d
    → neighbor_cell (neighbor_cell cell bits d) bits (opposite d) ≡ cell
unfolding neighbor_cell
neighbor_cell-opposite cell bits Geohash.n on h = rw (row_back _ cell.row h) refl
neighbor_cell-opposite cell bits Geohash.s on h = rw (row_forth _ cell.row on.0 h) refl
neighbor_cell-opposite cell bits Geohash.e on h = rw (col_back _ cell.col on.1) refl
neighbor_cell-opposite cell bits Geohash.w on h = rw (col_forth _ cell.col on.1) refl
neighbor_cell-opposite cell bits Geohash.ne on h =
    rw (row_back _ cell.row h, col_back _ cell.col on.1) refl
neighbor_cell-opposite cell bits Geohash.nw on h =
    rw (row_back _ cell.row h, col_forth _ cell.col on.1) refl
neighbor_cell-opposite cell bits Geohash.se on h =
    rw (row_forth _ cell.row on.0 h, col_back _ cell.col on.1) refl
neighbor_cell-opposite cell bits Geohash.sw on h =
    rw (row_forth _ cell.row on.0 h, col_forth _ cell.col on.1) refl
