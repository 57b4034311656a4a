-- ===== src/Sharding/Nearby.antt =====
-- The search over several shards (`searchNearby` of core/src/repositories/sharded-driver-geo.repository.ts).
use ride_location_tracking_e.Common.{
  ℕ, zero, suc, ◌≤◌, ◌≡◌, refl, ap, ◌∙◌, List, [], ◌∷◌, All, take,
}
use mathlib.Core.Path.{ap₂}
use ride_location_tracking_e.Common.Map.{Map}
use ride_location_tracking_e.Common.Sorting.{IsSortedBy, take-IsSortedBy, sort_by-IsSortedBy}
use ride_location_tracking_e.Domain.{LatLng}
use ride_location_tracking_e.Live.{GeoRow}
use ride_location_tracking_e.Sharding.{
  Region, Sharded, shard_for, ShardedNearbyResult, distance, sort_near, flat, tag, per_region,
  regions_within_radius, search_nearby,
}
use ride_location_tracking_e.Sharding.Merge.{IsSorted, cut, sort-cut}

-- From the nearest to the farthest.
abbrev pub IsByDistance : List GeoRow → Type 0
IsByDistance = IsSortedBy (λ r. r.distance_meters)

tag-take : (region n : ℕ) (rows : List GeoRow) → tag region (take rows n) ≡ take (tag region rows) n
unfolding tag
tag-take region n [] = refl
tag-take region zero (row ∷ rows) = refl
tag-take region (suc n) (row ∷ rows) =
    ap (λ l. record { row = row; region_id = region } ∷ l) (tag-take region n rows)

tag-All :
    (region d : ℕ) (rows : List GeoRow)
    → All (λ (y : GeoRow). d ≤ y.distance_meters) rows
    → All (λ y. d ≤ distance y) (tag region rows)
unfolding tag
tag-All region d [] h = tt
tag-All region d (row ∷ rows) h = (h.0, tag-All region d rows h.1)

tag-IsSorted : (region : ℕ) (rows : List GeoRow) → IsByDistance rows → IsSorted (tag region rows)
unfolding tag
tag-IsSorted region [] h = tt
tag-IsSorted region (row ∷ rows) h =
    (tag-All region row.distance_meters rows h.0, tag-IsSorted region rows h.1)

-- All rows of each region's shard; `whole` stands for the rows within the radius, with no limit.
abbrev pub whole_per_region :
    (LatLng → LatLng → ℕ)
    → (Map LatLng → LatLng → ℕ → List GeoRow)
    → Sharded
    → LatLng
    → ℕ
    → List Region
    → List (List ShardedNearbyResult)
whole_per_region haversine whole s center radius regions =
    per_region haversine (λ geo c r n. whole geo c r) s center radius 0 regions

-- GEOSEARCH ... BYRADIUS ... ASC COUNT n answers the first `n` rows of all that are within the radius, nearest
-- first.
module _ (haversine : LatLng → LatLng → ℕ) (geosearch : Map LatLng → LatLng → ℕ → ℕ → List GeoRow)
    (whole : Map LatLng → LatLng → ℕ → List GeoRow)
    (counts : (geo : Map LatLng) (center : LatLng) (radius n : ℕ)
      → geosearch geo center radius n ≡ take (whole geo center radius) n)
    (ascends : (geo : Map LatLng) (center : LatLng) (radius : ℕ)
      → IsByDistance (whole geo center radius))
    (s : Sharded) (center : LatLng) (radius limit : ℕ) where
  per_region-cut :
      (regions : List Region)
      → per_region haversine geosearch s center radius limit regions
        ≡ cut limit (whole_per_region haversine whole s center radius regions)
  unfolding per_region
  per_region-cut [] = refl
  per_region-cut (r ∷ rest) =
      ap₂ ◌∷◌
        (ap (tag r.id) (counts (shard_for s r) center radius limit)
          ∙ tag-take r.id limit (whole (shard_for s r) center radius))
        (per_region-cut rest)

  whole-IsSorted :
      (regions : List Region)
      → All IsSorted (whole_per_region haversine whole s center radius regions)
  unfolding per_region
  whole-IsSorted [] = tt
  whole-IsSorted (r ∷ rest) = (
    tag-IsSorted r.id (whole (shard_for s r) center radius) (ascends (shard_for s r) center radius),
    whole-IsSorted rest,
  )

  -- If each shard answers its nearest `limit` drivers within the radius, nearest first, then the search over the
  -- candidate regions' shards answers the nearest `limit` of all their drivers within the radius, nearest first:
  -- cutting each shard's answer loses none of them.
  pub search_nearby-eq-whole :
      (unit : ℕ)
      → (search_nearby haversine geosearch unit s center radius limit
          ≡ take
              (sort_near (
                flat (
                  whole_per_region haversine whole s center radius
                    (regions_within_radius haversine unit center radius))))
              limit)
        × IsSorted (search_nearby haversine geosearch unit s center radius limit)
  unfolding search_nearby
  search_nearby-eq-whole unit =
      let regions = regions_within_radius haversine unit center radius in
      (
        ap (λ xss. take (sort_near (flat xss)) limit) (per_region-cut regions)
            ∙ sort-cut (whole_per_region haversine whole s center radius regions) limit
                (whole-IsSorted regions),
        take-IsSortedBy distance
            (sort_near (flat (per_region haversine geosearch s center radius limit regions))) limit
            (sort_by-IsSortedBy distance
              (flat (per_region haversine geosearch s center radius limit regions))),
      )
