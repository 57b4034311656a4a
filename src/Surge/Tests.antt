-- ===== src/Surge/Tests.antt =====
-- The surge job at a zone with three open requests and one online driver
-- (core/src/services/surge.service.ts).
use ride_location_tracking_e.Common.{ℕ, ◌≡◌, refl, some, List, [], ◌∷◌, arith, for_each}
use ride_location_tracking_e.Common.Map
use ride_location_tracking_e.Common.KeySet
use ride_location_tracking_e.Common.Int
use ride_location_tracking_e.Geohash
use ride_location_tracking_e.Common.Int.{pos}
use ride_location_tracking_e.Domain.{LatLng, online}
use ride_location_tracking_e.Database.{
  Db, new_trip, new_driver, find_open_trip_pickups, find_online_drivers_with_location,
}
use ride_location_tracking_e.Surge.{
  SurgeStore, SurgeRuntimeConfig, compute_and_update_surge, zone_hash_for, multiplier_of,
  target_multiplier, clamp, clamp_ℤ, set_surge_zone_states, add_keys, count_in, next_multiplier,
  zone_counts, zone_state,
}
use ride_location_tracking_e.Surge.Step.{StoredInRange, surge_computed, compute-StoredInRange}
use ride_location_tracking_e.Surge.Settling.{runs, settled}

abbrev config : SurgeRuntimeConfig
config = record {
  zone_bits = 12;
  update_interval_ms = 15000;
  min_multiplier = 100;
  max_multiplier = 300;
  min_sample_requests = 2;
  max_change_per_interval = 50;
}

abbrev home : LatLng
home = record { lat = pos 47; lng = pos 8 }

abbrev busy_evening : Db
busy_evening = record {
  trips =
      (1, new_trip 10 (record { rider_id = 7; pickup = home; dropoff = home }))
      ∷ (2, new_trip 11 (record { rider_id = 8; pickup = home; dropoff = home }))
      ∷ (3, new_trip 12 (record { rider_id = 9; pickup = home; dropoff = home }))
      ∷ [];
  drivers =
      (
        4,
        new_driver 5
            (record { name = "Ada"; vehicle = "red"; status = some online; location = some home }),
      )
      ∷ [];
}

abbrev zone : ℕ
zone = zone_hash_for 1 12 home

abbrev first : SurgeStore
first = compute_and_update_surge config 1 100 1000 busy_evening []

first-StoredInRange : StoredInRange config first
first-StoredInRange = compute-StoredInRange config 1 100 1000 busy_evening [] (omega arith)

surge_computed_example :
    Map.get (compute_and_update_surge config 1 100 2000 busy_evening first) zone
    ≡ some (record { multiplier = 200; request_count = 3; driver_count = 1; updated_at_ms = 2000 })
unfolding zone_hash_for Geohash.cell_hash Geohash.interleave Geohash.interleave_loop
    Geohash.bit_split Geohash.bit_at Geohash.cell_of Int.◌+ℤ◌ Int.◌-ℤ◌ Geohash.normalize_lng
    Geohash.js_rem Geohash.clamp_lat find_open_trip_pickups find_online_drivers_with_location
    target_multiplier clamp Map.get compute_and_update_surge set_surge_zone_states for_each
    KeySet.add Map.keys Map.set add_keys clamp_ℤ count_in next_multiplier zone_counts zone_state
surge_computed_example =
    (surge_computed config 1 100 2000 busy_evening first (omega arith) first-StoredInRange).0 zone

abbrev five_runs : List ℕ
five_runs = 2000 ∷ 3000 ∷ 4000 ∷ 5000 ∷ []

settled_example :
    multiplier_of (Map.get (runs config 1 100 busy_evening first five_runs) zone) 100 ≡ 300
unfolding zone_hash_for Geohash.cell_hash Geohash.interleave Geohash.interleave_loop
    Geohash.bit_split Geohash.bit_at Geohash.cell_of Int.◌+ℤ◌ Int.◌-ℤ◌ Geohash.normalize_lng
    Geohash.js_rem Geohash.clamp_lat find_open_trip_pickups find_online_drivers_with_location
    target_multiplier clamp
settled_example =
    (settled config 1 100 busy_evening zone (omega arith) five_runs first first-StoredInRange refl
      (omega arith)).0
