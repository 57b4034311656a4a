-- ===== src/Sharding/Tests.antt =====
-- Two drivers on both sides of the meridian that the regions share
-- (core/src/repositories/sharded-driver-geo.repository.ts).
use ride_location_tracking_e.Common.{ℕ, ◌≡◌, refl, true, List, [], ◌∷◌, arith, for_each, take}
use ride_location_tracking_e.Common.Map
use ride_location_tracking_e.Common.Map.{Map}
use ride_location_tracking_e.Common.Int
use ride_location_tracking_e.Common.Int.{pos, negsuc, neg_part, pos_part}
use ride_location_tracking_e.Domain.{LatLng}
use ride_location_tracking_e.Live.{GeoRow}
use ride_location_tracking_e.Sharding.{
  Sharded, no_drivers, sf, oakland, region_for_point, first_containing, contains,
  upsert_driver_location, remove_driver, search_nearby, sort_near, flat, enter, geoadd,
  set_current_region_id, regions_within_radius,
}
use ride_location_tracking_e.Sharding.Entering.{IsTracked, in_shard, nothing_fails}
use ride_location_tracking_e.Sharding.Tracking.{
  Request, upsert, remove, perform, perform_all-IsTracked,
}
use ride_location_tracking_e.Sharding.Crossing.{came_back, stale_duplicate}
use ride_location_tracking_e.Sharding.Merge.{IsSorted}
use ride_location_tracking_e.Sharding.Nearby.{whole_per_region, search_nearby-eq-whole}

abbrev union_square : LatLng
union_square = record { lat = pos 37788; lng = negsuc 122406 }

abbrev lake_merritt : LatLng
lake_merritt = record { lat = pos 37802; lng = negsuc 122259 }

abbrev shift_start : List Request
shift_start = upsert 3 union_square ∷ upsert 4 lake_merritt ∷ upsert 3 lake_merritt ∷ remove 4 ∷ []

perform_all-IsTracked_example : IsTracked 1 (for_each shift_start (perform 1) no_drivers)
perform_all-IsTracked_example = perform_all-IsTracked 1 shift_start

abbrev at_work : Sharded
at_work = (upsert_driver_location 1 nothing_fails no_drivers 3 union_square).0

stale_duplicate_example :
    (in_shard (came_back 1 at_work 3 lake_merritt union_square) (sf 1) 3 ≡ true)
    × (in_shard (came_back 1 at_work 3 lake_merritt union_square) (oakland 1) 3 ≡ true)
    × (in_shard
          (remove_driver 1 nothing_fails (came_back 1 at_work 3 lake_merritt union_square) 3).0
          (oakland 1)
          3
        ≡ true)
unfolding region_for_point first_containing contains Int.◌-ℤ◌ upsert_driver_location enter
    set_current_region_id geoadd Map.get Map.set no_drivers
stale_duplicate_example = stale_duplicate 1 at_work 3 lake_merritt union_square refl refl refl

-- Every driver of a shard, at distance 10.
abbrev rows : Map LatLng → LatLng → ℕ → List GeoRow
rows geo center radius =
    record { driver_id = 3; distance_meters = 10; position = union_square }
    ∷ record { driver_id = 4; distance_meters = 20; position = lake_merritt }
    ∷ []

search_nearby-eq-whole_example :
    (search_nearby (λ p q. 5) (λ geo c r n. take (rows geo c r) n) 1 at_work union_square 100 1
      ≡ take
          (sort_near (
            flat (
              whole_per_region
                (λ p q. 5)
                rows
                at_work
                union_square
                100
                (regions_within_radius (λ p q. 5) 1 union_square 100))))
          1)
    × IsSorted
        (search_nearby (λ p q. 5) (λ geo c r n. take (rows geo c r) n) 1 at_work union_square 100 1)
search_nearby-eq-whole_example =
    search_nearby-eq-whole (λ p q. 5) (λ geo c r n. take (rows geo c r) n) rows (λ geo c r n. refl)
      (λ geo c r. ((omega arith, tt), (tt, tt))) at_work union_square 100 1 1
