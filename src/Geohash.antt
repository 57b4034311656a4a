-- ===== src/Geohash.antt =====
-- core/src/geo/geohash.ts: grid cells and their interleaved hash. A coordinate counts `unit`-ths of a degree, and
-- the cell is the exact quotient that the code computes in floating point.
mod Tests
pub mod Bits
pub mod Cells
pub mod Decode
pub mod Precision
use ride_location_tracking_e.Common.{
  ℕ, zero, suc, ◌+◌, ◌-◌, ◌*◌, ◌/◌, ◌%◌, ◌^◌, Bool, true, false, Option, none, some, if◌then◌else◌,
  leb, ltb, ◌==◌, min, ◌||◌, ◌&&◌,
}
use ride_location_tracking_e.Common.Int.{ℤ, pos, negsuc, pos_part, ◌+ℤ◌, ◌-ℤ◌, leb_ℤ, ltb_ℤ}
use ride_location_tracking_e.Domain.{LatLng}

abbrev pub max_bits : ℕ
max_bits = 52

pub record BitSplit : Type 0 where
  pub lat_bits : ℕ
  pub lng_bits : ℕ

unfoldable pub bit_split : ℕ → BitSplit
bit_split bits = record { lng_bits = (bits + 1) / 2; lat_bits = bits / 2 }

pub record GridCell : Type 0 where
  pub row : ℕ
  pub col : ℕ

-- `Math.min(90, Math.max(-90, lat))`, plus 90: from 0 to 180 degrees.
unfoldable pub clamp_lat : ℕ → ℤ → ℕ
clamp_lat unit lat = min (180 * unit) (pos_part (lat +ℤ pos (90 * unit)))

-- The remainder with the sign of the dividend.
unfoldable pub js_rem : ℤ → ℕ → ℤ
js_rem (pos n) k = pos (n % k)
js_rem (negsuc n) k = pos 0 -ℤ pos (suc n % k)

unfoldable pub normalize_lng : ℕ → ℤ → ℤ
normalize_lng unit lng =
    let n = js_rem lng (360 * unit) in
    let up = if ltb_ℤ n (pos 0 -ℤ pos (180 * unit)) then n +ℤ pos (360 * unit) else n in
    if leb_ℤ (pos (180 * unit)) up then up -ℤ pos (360 * unit) else up

unfoldable pub cell_of : ℕ → LatLng → ℕ → GridCell
cell_of unit point bits =
    let s = bit_split bits in
    record {
      row = min (2 ^ s.lat_bits - 1) (clamp_lat unit point.lat * 2 ^ s.lat_bits / (180 * unit));
      col = min (2 ^ s.lng_bits - 1) (
          pos_part (normalize_lng unit point.lng +ℤ pos (180 * unit))
          * 2 ^ s.lng_bits
          / (360 * unit));
    }

-- `(x >> k) & 1`
unfoldable pub bit_at : ℕ → ℕ → ℕ
bit_at x k = x / 2 ^ k % 2

-- The loop of `interleave`, with `n` rounds left of those from `i` on; `result <<= 1; result |= bit`.
unfoldable pub interleave_loop : ℕ → ℕ → ℕ → ℕ → ℕ → ℕ → ℕ → ℕ
interleave_loop zero i result col col_bits_left row lat_bits_left = result
interleave_loop (suc n) i result col col_bits_left row lat_bits_left =
    interleave_loop n (i + 1)
      (2 * result
        + (if i % 2 == 0 then bit_at col (col_bits_left - 1) else bit_at row (lat_bits_left - 1)))
      col (if i % 2 == 0 then col_bits_left - 1 else col_bits_left) row
      (if i % 2 == 0 then lat_bits_left else lat_bits_left - 1)

unfoldable pub interleave : ℕ → ℕ → ℕ → ℕ → ℕ
interleave col lng_bits row lat_bits =
    interleave_loop (lng_bits + lat_bits) 0 0 col lng_bits row lat_bits

-- The loop of `deinterleave`, with `n` rounds left; `bitPos` is one less.
unfoldable pub deinterleave_loop : ℕ → ℕ → ℕ → GridCell → GridCell
deinterleave_loop zero i hash cell = cell
deinterleave_loop (suc n) i hash cell = deinterleave_loop n (i + 1) hash (
    if i % 2 == 0
    then record { row = cell.row; col = 2 * cell.col + bit_at hash n }
    else record { row = 2 * cell.row + bit_at hash n; col = cell.col })

unfoldable pub deinterleave : ℕ → ℕ → GridCell
deinterleave hash bits = deinterleave_loop bits 0 hash (record { row = 0; col = 0 })

unfoldable pub cell_hash : GridCell → ℕ → ℕ
cell_hash cell bits = let s = bit_split bits in interleave cell.col s.lng_bits cell.row s.lat_bits

-- `none` where the code throws.
unfoldable pub encode : ℕ → LatLng → ℕ → Option ℕ
encode unit point bits =
    if leb bits 0 || ltb max_bits bits
    then none
    else let cell = cell_of unit point bits in
      let s = bit_split bits in some (interleave cell.col s.lng_bits cell.row s.lat_bits)

pub data Direction : Type 0 where
  n s e w ne nw se sw : Direction

-- `((col % colCount) + colCount) % colCount` of `col + 1` and of `col - 1`.
unfoldable pub col_after : ℕ → ℕ → ℕ
col_after count col = (col + 1) % count

unfoldable pub col_before : ℕ → ℕ → ℕ
col_before count col = (col + count - 1) % count

-- `clampRow` of `row + 1` and of `row - 1`.
unfoldable pub row_above : ℕ → ℕ → ℕ
row_above count row = if leb count (row + 1) then count - 1 else row + 1

unfoldable pub row_below : ℕ → ℕ → ℕ
row_below count row = row - 1

unfoldable pub neighbor_cell : GridCell → ℕ → Direction → GridCell
neighbor_cell cell bits d =
    let split = bit_split bits in
    let rows = 2 ^ split.lat_bits in
    let cols = 2 ^ split.lng_bits in
    elim d [
      | n ↦ record { row = row_above rows cell.row; col = cell.col }
      | s ↦ record { row = row_below rows cell.row; col = cell.col }
      | e ↦ record { row = cell.row; col = col_after cols cell.col }
      | w ↦ record { row = cell.row; col = col_before cols cell.col }
      | ne ↦ record { row = row_above rows cell.row; col = col_after cols cell.col }
      | nw ↦ record { row = row_above rows cell.row; col = col_before cols cell.col }
      | se ↦ record { row = row_below rows cell.row; col = col_after cols cell.col }
      | sw ↦ record { row = row_below rows cell.row; col = col_before cols cell.col }
    ]

-- A center and half a cell's size: latitudes count 2 ^ (latBits + 1)-ths of a degree, longitudes 2 ^ (lngBits + 1)-ths.
pub record DecodedGeohash : Type 0 where
  pub lat : ℤ
  pub lng : ℤ
  pub lat_error_deg : ℕ
  pub lng_error_deg : ℕ

unfoldable pub cell_bounds : GridCell → ℕ → DecodedGeohash
cell_bounds cell bits =
    let s = bit_split bits in
    record {
      lat = pos (cell.row * 360 + 180) -ℤ pos (180 * 2 ^ s.lat_bits);
      lng = pos (cell.col * 720 + 360) -ℤ pos (360 * 2 ^ s.lng_bits);
      lat_error_deg = 180;
      lng_error_deg = 360;
    }

unfoldable pub decode : ℕ → ℕ → DecodedGeohash
decode hash bits = cell_bounds (deinterleave hash bits) bits

abbrev pub meters_per_degree_lat : ℕ
meters_per_degree_lat = 111320

-- Both spans of a cell are at least the radius; the cosine of the latitude is `cos / scale`.
unfoldable pub cell_covers : ℕ → ℕ → ℕ → ℕ → Bool
cell_covers scale cos radius_meters bits =
    let s = bit_split bits in
    leb (radius_meters * 2 ^ s.lat_bits) (180 * meters_per_degree_lat)
    && leb (radius_meters * 2 ^ s.lng_bits * scale) (360 * meters_per_degree_lat * cos)

-- The loop from `2 * k` bits down.
unfoldable pub precision_loop : ℕ → ℕ → ℕ → ℕ → ℕ
precision_loop scale cos radius_meters zero = 2
precision_loop scale cos radius_meters (suc k) =
    let coarser = precision_loop scale cos radius_meters k in
    if cell_covers scale cos radius_meters (2 * suc k) then 2 * suc k else coarser

unfoldable pub precision_for_radius : ℕ → ℕ → ℕ → ℕ
precision_for_radius scale cos radius_meters = precision_loop scale cos radius_meters (max_bits / 2)
