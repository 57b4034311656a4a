-- ===== src/GeoIndex/Tests.antt =====
-- The theorems on the index at a driver who moves and one who leaves (core/src/geo/geohash-index.ts).
use ride_location_tracking_e.Common.{
  ℕ, ◌+◌, ◌*◌, ◌≡◌, none, some, List, [], ◌∷◌, arith, take, ◌==◌, Bool-cases, inl, inr, subst,
}
use ride_location_tracking_e.Common.Int.{ℤ, pos, pos_part, neg_part, ◌+ℤ◌, ◌-ℤ◌}
use ride_location_tracking_e.Common.Map
use ride_location_tracking_e.Domain.{LatLng}
use ride_location_tracking_e.Geohash.{
  bit_split, cell_of, cell_hash, clamp_lat, normalize_lng, js_rem,
}
use ride_location_tracking_e.GeoIndex.{GeohashIndex}
use ride_location_tracking_e.GeoIndex.Buckets.{
  Call, upserted, removed, perform_all, no_entries, IsIndexed, perform_all-IsIndexed,
}
use ride_location_tracking_e.GeoIndex.Search.{
  GeoIndexEntry, cell_size_meters, radius_search, nearest_neighbors,
}
use ride_location_tracking_e.GeoIndex.Candidates.{hash_at_bits}
use ride_location_tracking_e.GeoIndex.Spread.{IsFarApart, IsSpread}
use ride_location_tracking_e.GeoIndex.Radius.{IsExhaustive, radius_search-IsExhaustive}
use ride_location_tracking_e.GeoIndex.Nearest.{IsNearest, last_radius, nearest_neighbors-IsNearest}

abbrev at : ℕ → LatLng
at n = record { lat = pos n; lng = pos 8 }

abbrev hash_at_26 : LatLng → ℕ
hash_at_26 p = cell_hash (cell_of 1 p 26) 26

abbrev moves : List Call
moves = upserted 5 (at 40) ∷ upserted 6 (at 41) ∷ upserted 5 (at 70) ∷ removed 6 ∷ []

perform_all-IsIndexed_example : IsIndexed hash_at_26 (perform_all hash_at_26 no_entries moves)
perform_all-IsIndexed_example = perform_all-IsIndexed hash_at_26 moves

-- At 10 bits, 32 rows of 5.625 and 32 columns of 11.25 degrees, and three drivers near the equator.
abbrev three : List Call
three =
    upserted 5 (record { lat = pos 2; lng = pos 8 })
    ∷ upserted 6 (record { lat = pos 20; lng = pos 9 })
    ∷ upserted 7 (record { lat = pos 2; lng = pos 0 -ℤ pos 20 })
    ∷ []

abbrev index : GeohashIndex
index = perform_all (hash_at_bits 1 10) no_entries three

abbrev degree : ℕ
degree = 111320 * 1000000 * 32

abbrev apart : ℤ → ℤ → ℕ
apart a b = pos_part (a -ℤ b) + neg_part (a -ℤ b)

-- Along the axes.
abbrev along_axes : LatLng → LatLng → ℕ
along_axes p q = (apart p.lat q.lat + apart p.lng q.lng) * degree

abbrev cos : LatLng → ℕ
cos p = 1

abbrev center : LatLng
center = record { lat = pos 2; lng = pos 7 }

at_east : IsFarApart 1 10 1 cos along_axes center (record { lat = pos 2; lng = pos 8 })
unfolding cell_of bit_split clamp_lat normalize_lng js_rem ◌+ℤ◌ ◌-ℤ◌ cell_size_meters
at_east = record { rows = omega arith; cols = omega arith }

at_north : IsFarApart 1 10 1 cos along_axes center (record { lat = pos 20; lng = pos 9 })
unfolding cell_of bit_split clamp_lat normalize_lng js_rem ◌+ℤ◌ ◌-ℤ◌ cell_size_meters
at_north = record { rows = omega arith; cols = omega arith }

at_west : IsFarApart 1 10 1 cos along_axes center (record { lat = pos 2; lng = pos 0 -ℤ pos 20 })
unfolding cell_of bit_split clamp_lat normalize_lng js_rem ◌+ℤ◌ ◌-ℤ◌ cell_size_meters
at_west = record { rows = omega arith; cols = omega arith }

three-IsSpread : (reach : ℕ) → IsSpread 1 10 1 cos along_axes index center reach
unfolding perform_all ride_location_tracking_e.GeoIndex.Buckets.perform
    ride_location_tracking_e.GeoIndex.upsert Map.get Map.set
three-IsSpread reach id p e near = elim (Bool-cases (5 == id)) [
  | inl g ↦ subst (IsFarApart 1 10 1 cos along_axes center) (ground (arith, e, g)) at_east
  | inr g ↦ elim (Bool-cases (6 == id)) [
    | inl h ↦ subst (IsFarApart 1 10 1 cos along_axes center) (ground (arith, e, g, h)) at_north
    | inr h ↦ elim (Bool-cases (7 == id)) [
      | inl k ↦ subst (IsFarApart 1 10 1 cos along_axes center) (ground (arith, e, g, h, k)) at_west
      | inr k ↦ absurd (ground (arith, e, g, h, k))
    ]
  ]
]

-- Within 22 degrees are drivers 5 and 6.
radius_search-IsExhaustive_example :
    IsExhaustive 1 10 1 cos along_axes index center
      (22 * degree)
      (radius_search 1 10 1 cos along_axes index center (22 * degree) none)
    × ((limit : ℕ)
        → radius_search 1 10 1 cos along_axes index center (22 * degree) (some limit)
          ≡ take (radius_search 1 10 1 cos along_axes index center (22 * degree) none) limit)
radius_search-IsExhaustive_example =
    radius_search-IsExhaustive 1 10 1 cos along_axes index center (22 * degree)
      (perform_all-IsIndexed (hash_at_bits 1 10) three) (three-IsSpread (22 * degree)) (omega arith)

nearest_neighbors-IsNearest_example :
    (found : List GeoIndexEntry) × (nearest_neighbors 1 10 1 cos along_axes index center 2
        (30 * degree)
      ≡ some found)
    × IsNearest 1 10 1 cos along_axes index center 2 (30 * degree) found
nearest_neighbors-IsNearest_example =
    nearest_neighbors-IsNearest 1 10 1 cos along_axes index center 2 (30 * degree)
      (perform_all-IsIndexed (hash_at_bits 1 10) three)
      (three-IsSpread (last_radius 1 10 1 cos along_axes index center 2 (30 * degree)))
      (omega arith)
