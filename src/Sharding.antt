-- ===== src/Sharding.antt =====
-- core/src/geo/regions.ts and core/src/repositories/sharded-driver-geo.repository.ts.
-- A region's id is a number (1 for "sf", 2 for "oakland"), and a coordinate counts `unit`-ths of 1/1000 degree. The
-- geo set of a shard is a map under the number of its Redis database; the regions that drivers are in are a map of
-- their own. Each awaited call may throw, as `fails` says; a call that throws changes nothing. The distance of two
-- places (core/src/services/haversine.ts) and the rows that GEOSEARCH answers are arguments.
mod Tests
pub mod Regions
pub mod Entering
pub mod Tracking
pub mod Crossing
pub mod Merge
pub mod Nearby
use ride_location_tracking_e.Common.{
  ℕ, ◌*◌, Bool, true, false, not, ◌&&◌, ◌||◌, Option, none, some, List, [], ◌∷◌, ◌++◌, ◌==◌, ltb,
  leb, if◌then◌else◌, is_some, or_default, take,
}
use ride_location_tracking_e.Common.Int.{ℤ, pos, ◌-ℤ◌, leb_ℤ, ltb_ℤ}
use ride_location_tracking_e.Common.Map
use ride_location_tracking_e.Common.Map.{Map}
use ride_location_tracking_e.Common.Sorting.{sort_by}
use ride_location_tracking_e.Domain.{LatLng}
use ride_location_tracking_e.Live.{GeoRow}

pub record BoundingBox : Type 0 where
  pub min_lat : ℤ
  pub max_lat : ℤ
  pub min_lng : ℤ
  pub max_lng : ℤ

pub record Region : Type 0 where
  pub id : ℕ
  pub redis_db : ℕ
  pub bbox : BoundingBox

-- A longitude to the west.
abbrev pub west : ℕ → ℤ
west n = pos 0 -ℤ pos n

abbrev pub sf : ℕ → Region
sf unit = record {
  id = 1;
  redis_db = 1;
  bbox = record {
    min_lat = pos (37708 * unit);
    max_lat = pos (37812 * unit);
    min_lng = west (122514 * unit);
    max_lng = west (122386 * unit);
  };
}

abbrev pub oakland : ℕ → Region
oakland unit = record {
  id = 2;
  redis_db = 2;
  bbox = record {
    min_lat = pos (37708 * unit);
    max_lat = pos (37812 * unit);
    min_lng = west (122386 * unit);
    max_lng = west (122258 * unit);
  };
}

abbrev pub all_regions : ℕ → List Region
all_regions unit = sf unit ∷ oakland unit ∷ []

-- `latInRange && lngInRange`
unfoldable pub contains : Bool → BoundingBox → LatLng → Bool
contains easternmost b p =
    leb_ℤ b.min_lat p.lat
    && leb_ℤ p.lat b.max_lat
    && leb_ℤ b.min_lng p.lng
    && (if easternmost then leb_ℤ p.lng b.max_lng else ltb_ℤ p.lng b.max_lng)

abbrev pub is_last {ℓ} : {A : Type ℓ} → List A → Bool
is_last [] = true
is_last (x ∷ xs) = false

-- The loop, over the regions left.
unfoldable pub first_containing : LatLng → List Region → Option Region
first_containing p [] = none
first_containing p (r ∷ rest) =
    if contains (is_last rest) r.bbox p then some r else first_containing p rest

unfoldable pub region_for_point : ℕ → LatLng → Option Region
region_for_point unit p = first_containing p (all_regions unit)

-- `Math.min(hi, Math.max(lo, x))`
unfoldable pub clamp_coordinate : ℤ → ℤ → ℤ → ℤ
clamp_coordinate lo hi x =
    let raised = if leb_ℤ lo x then x else lo in if leb_ℤ raised hi then raised else hi

-- `.find((r) => r.id === regionId)`
unfoldable pub find_region : ℕ → List Region → Option Region
find_region id [] = none
find_region id (r ∷ rest) = if r.id == id then some r else find_region id rest

unfoldable pub region_by_id : ℕ → ℕ → Option Region
region_by_id unit id = find_region id (all_regions unit)

pub record Sharded : Type 0 where
  pub shards : Map (Map LatLng)
  pub current_region : Map ℕ

pub no_drivers : Sharded
no_drivers = record { shards = []; current_region = [] }

-- The geo set of a region's database.
unfoldable pub shard_for : Sharded → Region → Map LatLng
shard_for s r = or_default (Map.get s.shards r.redis_db) []

unfoldable pub zrem : Sharded → Region → ℕ → Sharded
zrem s r id = record s { shards = Map.set s.shards r.redis_db (Map.delete (shard_for s r) id) }

unfoldable pub geoadd : Sharded → Region → ℕ → LatLng → Sharded
geoadd s r id p = record s { shards = Map.set s.shards r.redis_db (Map.set (shard_for s r) id p) }

unfoldable pub set_current_region_id : Sharded → ℕ → ℕ → Sharded
set_current_region_id s id region = record s { current_region = Map.set s.current_region id region }

-- The awaited calls of an operation.
pub data Call : Type 0 where
  get_region zrem_old geoadd_new set_region del_region : Call

pub data Upsert : Type 0 where
  outside threw : Upsert
  routed : ℕ → Bool → Upsert

-- `previousRegionId !== null && previousRegionId !== newRegion.id`
abbrev pub is_migrated : Option ℕ → ℕ → Bool
is_migrated none region = false
is_migrated (some previous) region = not (previous == region)

-- The old shard without the driver, if the region's id is known.
unfoldable pub leave : ℕ → Sharded → Option ℕ → ℕ → Sharded
leave unit s none id = s
leave unit s (some previous) id = elim (region_by_id unit previous) [
  | none ↦ s
  | some r ↦ zrem s r id
]

abbrev pub is_known_region : ℕ → Option ℕ → Bool
is_known_region unit none = false
is_known_region unit (some region) = is_some (region_by_id unit region)

module _ (unit : ℕ) (fails : Call → Bool) where
  -- From the `geoadd` on.
  unfoldable pub enter : Sharded → Region → ℕ → LatLng → Bool → Sharded × Upsert
  enter s r id p migrated =
      if fails geoadd_new
      then (s, threw)
      else if fails set_region
      then (geoadd s r id p, threw)
      else (set_current_region_id (geoadd s r id p) id r.id, routed r.id migrated)

  unfoldable pub upsert_driver_location : Sharded → ℕ → LatLng → Sharded × Upsert
  upsert_driver_location s id p = elim (region_for_point unit p) [
    | none ↦ (s, outside)
    | some r ↦
        let previous = Map.get s.current_region id in
        if fails get_region
        then (s, threw)
        else if is_migrated previous r.id
        then if fails zrem_old && is_known_region unit previous
          then (s, threw)
          else enter (leave unit s previous id) r id p true
        else enter s r id p false
  ]

  -- The state, and whether the call returned.
  unfoldable pub remove_driver : Sharded → ℕ → Sharded × Bool
  remove_driver s id = elim (Map.get s.current_region id) [
    | none ↦ (s, not (fails get_region))
    | some region ↦
        if fails get_region || fails zrem_old && is_some (region_by_id unit region)
        then (s, false)
        else let left = leave unit s (some region) id in
          if fails del_region
          then (left, false)
          else (record left { current_region = Map.delete left.current_region id }, true)
  ]

pub record ShardedNearbyResult : Type 0 where
  pub row : GeoRow
  pub region_id : ℕ

abbrev pub distance : ShardedNearbyResult → ℕ
distance r = r.row.distance_meters

-- `.sort((a, b) => a.distanceMeters - b.distanceMeters)`
abbrev pub sort_near : List ShardedNearbyResult → List ShardedNearbyResult
sort_near xs = sort_by distance xs

-- `.flat()`
unfoldable pub flat {ℓ} : {A : Type ℓ} → List (List A) → List A
flat [] = []
flat (xs ∷ xss) = xs ++ flat xss

unfoldable pub tag : ℕ → List GeoRow → List ShardedNearbyResult
tag region [] = []
tag region (row ∷ rows) = record { row = row; region_id = region } ∷ tag region rows

module _ (haversine_distance_meters : LatLng → LatLng → ℕ) where
  unfoldable pub distance_to_bbox_meters : LatLng → BoundingBox → ℕ
  distance_to_bbox_meters p b = haversine_distance_meters p (record {
    lat = clamp_coordinate b.min_lat b.max_lat p.lat;
    lng = clamp_coordinate b.min_lng b.max_lng p.lng;
  })

  unfoldable pub within : LatLng → ℕ → List Region → List Region
  within p radius [] = []
  within p radius (r ∷ rest) =
      let others = within p radius rest in
      if leb (distance_to_bbox_meters p r.bbox) radius then r ∷ others else others

  unfoldable pub regions_within_radius : ℕ → LatLng → ℕ → List Region
  regions_within_radius unit p radius = within p radius (all_regions unit)

  module _ (geosearch : Map LatLng → LatLng → ℕ → ℕ → List GeoRow) where
    -- What each candidate region's shard answers.
    unfoldable pub per_region :
        Sharded → LatLng → ℕ → ℕ → List Region → List (List ShardedNearbyResult)
    per_region s center radius limit [] = []
    per_region s center radius limit (r ∷ rest) =
        tag r.id (geosearch (shard_for s r) center radius limit)
        ∷ per_region s center radius limit rest

    unfoldable pub search_nearby : ℕ → Sharded → LatLng → ℕ → ℕ → List ShardedNearbyResult
    search_nearby unit s center radius limit =
        take
          (sort_near
            (flat (per_region s center radius limit (regions_within_radius unit center radius))))
          limit

-- `none` where the code throws.
unfoldable pub is_driver_in_region_shard : ℕ → Sharded → ℕ → ℕ → Option Bool
is_driver_in_region_shard unit s id region = elim (region_by_id unit region) [
  | none ↦ none
  | some r ↦ some (is_some (Map.get (shard_for s r) id))
]

unfoldable pub get_shard_member_count : ℕ → Sharded → ℕ → Option ℕ
get_shard_member_count unit s region = elim (region_by_id unit region) [
  | none ↦ none
  | some r ↦ some (Map.size (shard_for s r))
]
