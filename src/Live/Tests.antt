-- ===== src/Live/Tests.antt =====
-- The theorems on the live state at two drivers (core/src/repositories/drivers.geo.repository.ts).
use ride_location_tracking_e.Common.{ℕ, List, [], ◌∷◌}
use ride_location_tracking_e.Common.Map
use ride_location_tracking_e.Common.Map.{Map}
use ride_location_tracking_e.Common.Int.{pos}
use ride_location_tracking_e.Domain.{LatLng, online}
use ride_location_tracking_e.Database.{empty_db}
use ride_location_tracking_e.Live.{
  Live, World, GeoRow, upsert_driver_location, is_stale, reconcile_stale_drivers,
}
use ride_location_tracking_e.Live.Reconcile.{IsEvicted, reconciled}

abbrev home : LatLng
home = record { lat = pos 47; lng = pos 8 }

abbrev two_drivers : Live
two_drivers =
    upsert_driver_location
      (upsert_driver_location (record { geo = []; states = [] }) 100 3 home online) 400 4 home
      online

abbrev rows : Map LatLng → LatLng → ℕ → ℕ → List GeoRow
rows geo center radius count =
    record { driver_id = 3; distance_meters = 10; position = home }
    ∷ record { driver_id = 4; distance_meters = 20; position = home }
    ∷ record { driver_id = 9; distance_meters = 30; position = home }
    ∷ []

abbrev world : World
world = record { db = empty_db; live = two_drivers }

reconciled_example :
    IsEvicted 451 3
      (is_stale 120 450 (Map.get two_drivers.states 3))
      world
      (reconcile_stale_drivers 120 450 451 world)
reconciled_example = reconciled 120 450 451 world 3
