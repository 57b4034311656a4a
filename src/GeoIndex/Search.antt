-- ===== src/GeoIndex/Search.antt =====
-- core/src/geo/geohash-index.ts: the searches. `bits` is the index's precision; lengths count `meter`-ths of a meter, so
-- that the sizes of a cell are exact. The cosine of a latitude counts `scale`-ths; it and the distance of two places
-- (core/src/services/haversine.ts) are arguments.
use ride_location_tracking_e.Common.{
  ℕ, zero, suc, ◌+◌, ◌-◌, ◌*◌, ◌/◌, ◌%◌, ◌^◌, Bool, ◌&&◌, Option, none, some, List, [], ◌∷◌,
  if◌then◌else◌, for_each, leb, ltb, min, max, take, length,
}
use ride_location_tracking_e.Common.Int.{pos, pos_part, ◌+ℤ◌, ◌-ℤ◌}
use ride_location_tracking_e.Common.KeySet
use ride_location_tracking_e.Common.KeySet.{KeySet}
use ride_location_tracking_e.Common.Map
use ride_location_tracking_e.Common.Map.{Map}
use ride_location_tracking_e.Common.Sorting.{sort_by}
use ride_location_tracking_e.Domain.{LatLng}
use ride_location_tracking_e.Geohash.{
  GridCell, bit_split, cell_of, cell_hash, js_rem, meters_per_degree_lat,
}
use ride_location_tracking_e.GeoIndex.{GeohashIndex}

pub record GeoIndexEntry : Type 0 where
  pub id : ℕ
  pub position : LatLng
  pub distance_meters : ℕ

pub record CellSize : Type 0 where
  pub lat_meters : ℕ
  pub lng_meters : ℕ

module _ (unit bits scale : ℕ) where
  abbrev pub row_count : ℕ
  row_count = 2 ^ (bit_split bits).lat_bits

  abbrev pub col_count : ℕ
  col_count = 2 ^ (bit_split bits).lng_bits

  abbrev pub meter : ℕ
  meter = 1000000 * scale * col_count

  -- `Math.max(cos, 1e-6)` counts `1000000 * scale`-ths.
  unfoldable pub cell_size_meters : ℕ → CellSize
  cell_size_meters cos =
      let s = bit_split bits in
      record {
        lat_meters =
            180 * meters_per_degree_lat * (1000000 * scale) * 2 ^ (s.lng_bits - s.lat_bits);
        lng_meters = 360 * meters_per_degree_lat * max (1000000 * cos) scale;
      }

  abbrev pub min_cell_dim : ℕ → ℕ
  min_cell_dim cos = min (cell_size_meters cos).lat_meters (cell_size_meters cos).lng_meters

  unfoldable pub ring_count : ℕ → ℕ → ℕ
  ring_count cos radius = max 1 ((radius + min_cell_dim cos - 1) / min_cell_dim cos + 1)

  -- The column that is `j - ring` columns to the east, around the globe.
  unfoldable pub col_at : GridCell → ℕ → ℕ → ℕ
  col_at center ring j =
      pos_part (js_rem (pos (center.col + j) -ℤ pos ring) col_count +ℤ pos col_count) % col_count

  unfoldable pub add_bucket : Map KeySet → KeySet → ℕ → KeySet
  add_bucket buckets candidates hash = elim (Map.get buckets hash) [
    | none ↦ candidates
    | some bucket ↦ for_each bucket KeySet.add candidates
  ]

  -- The loop over the columns, with `n` rounds left of those from `j` on.
  unfoldable pub scan_cols : Map KeySet → GridCell → ℕ → ℕ → ℕ → ℕ → KeySet → KeySet
  scan_cols buckets center ring row zero j c = c
  scan_cols buckets center ring row (suc n) j c =
      scan_cols buckets center ring row n (j + 1)
        (add_bucket buckets c (cell_hash (record { row = row; col = col_at center ring j }) bits))

  -- The row `i - ring` rows to the north is on the grid.
  abbrev pub has_row : GridCell → ℕ → ℕ → Bool
  has_row center ring i = leb ring (center.row + i) && ltb (center.row + i - ring) row_count

  unfoldable pub scan_row : Map KeySet → GridCell → ℕ → ℕ → KeySet → KeySet
  scan_row buckets center ring i c =
      if has_row center ring i
      then scan_cols buckets center ring (center.row + i - ring) (2 * ring + 1) 0 c
      else c

  -- The loop over the rows, with `n` rounds left of those from `i` on.
  unfoldable pub scan_rows : Map KeySet → GridCell → ℕ → ℕ → ℕ → KeySet → KeySet
  scan_rows buckets center ring zero i c = c
  scan_rows buckets center ring (suc n) i c =
      scan_rows buckets center ring n (i + 1) (scan_row buckets center ring i c)

  unfoldable pub scan_candidates : GeohashIndex → LatLng → ℕ → KeySet
  scan_candidates index center ring =
      scan_rows index.buckets (cell_of unit center bits) ring (2 * ring + 1) 0 []

  module _ (cos : LatLng → ℕ) (distance : LatLng → LatLng → ℕ) where
    -- The loop over the candidates.
    unfoldable pub entries_within : Map LatLng → LatLng → ℕ → List ℕ → List GeoIndexEntry
    entries_within positions center radius [] = []
    entries_within positions center radius (id ∷ ids) =
        let rest = entries_within positions center radius ids in
        elim (Map.get positions id) [
          | none ↦ rest
          | some p ↦
              if leb (distance center p) radius
              then record { id = id; position = p; distance_meters = distance center p } ∷ rest
              else rest
        ]

    unfoldable pub limited : List GeoIndexEntry → Option ℕ → List GeoIndexEntry
    limited entries none = entries
    limited entries (some limit) = take entries limit

    unfoldable pub radius_search : GeohashIndex → LatLng → ℕ → Option ℕ → List GeoIndexEntry
    radius_search index center radius limit =
        limited
          (sort_by (λ e. e.distance_meters)
            (entries_within index.positions center radius
              (scan_candidates index center (ring_count (cos center) radius))))
          limit

    -- The loop, with fuel: `none` if it runs out.
    unfoldable pub deepen : ℕ → GeohashIndex → LatLng → ℕ → ℕ → ℕ → Option (List GeoIndexEntry)
    deepen zero index center k max_radius radius = none
    deepen (suc fuel) index center k max_radius radius =
        let results = radius_search index center radius none in
        let wider = deepen fuel index center k max_radius (radius * 2) in
        if ltb (length results) k && ltb radius max_radius then wider else some (take results k)

    unfoldable pub first_radius : LatLng → ℕ
    first_radius center = max (50 * meter) (min_cell_dim (cos center))

    unfoldable pub nearest_neighbors : GeohashIndex → LatLng → ℕ → ℕ → Option (List GeoIndexEntry)
    nearest_neighbors index center k max_radius =
        if leb k 0
        then some []
        else deepen (suc max_radius) index center k max_radius (first_radius center)
