-- ===== src/Drivers.antt =====
-- core/src/services/drivers.service.ts, and frontend/src/driverStatusRules.ts, which mirrors its table.
-- A request runs with no other request between its awaits.
pub mod Laws
pub mod Overtaken
mod Tests
use ride_location_tracking_e.Common.{
  ℕ, Bool, true, false, ◌||◌, Option, none, some, List, if◌then◌else◌,
}
use ride_location_tracking_e.Common.Map
use ride_location_tracking_e.Common.Map.{Map}
use ride_location_tracking_e.Domain.{LatLng, DriverStatus, online, offline, busy}
use ride_location_tracking_e.Database.{
  Driver, CreateDriverInput, new_driver, insert_driver, find_driver_by_id,
}
use ride_location_tracking_e.Database
use ride_location_tracking_e.Live.{
  World, GeoRow, NearbyDriver, search_nearby, update_driver_status_in_redis,
}
use ride_location_tracking_e.Live
use ride_location_tracking_e.Delta.{status_eq}

-- LEGAL_TRANSITIONS[from].has(to)
unfoldable pub is_legal : DriverStatus → DriverStatus → Bool
is_legal offline offline = true
is_legal offline online = true
is_legal online _ = true
is_legal busy busy = true
is_legal busy online = true
is_legal _ _ = false

-- `canTransitionDriverStatus` of the frontend.
unfoldable pub can_transition_driver_status : DriverStatus → DriverStatus → Bool
can_transition_driver_status from to =
    if status_eq from to
    then true
    else if status_eq to online
    then (status_eq from offline || status_eq from busy)
    else if status_eq to offline
    then status_eq from online
    else if status_eq to busy
    then status_eq from online
    else false

pub data Answer {ℓ} (A : Type ℓ) : Type ℓ where
  ok : A → Answer A
  not_found : Answer A
  conflict : Answer A

-- The id is the one that the INSERT gives.
unfoldable pub create_driver : World → ℕ → ℕ → CreateDriverInput → World × Driver
create_driver w now id input =
    (record w { db = insert_driver w.db id now input }, new_driver now input)

unfoldable pub search_nearby_drivers :
    (Map LatLng → LatLng → ℕ → ℕ → List GeoRow) → ℕ → ℕ → World → LatLng → ℕ → ℕ → List NearbyDriver
search_nearby_drivers geosearch stale_ms now w center radius limit =
    search_nearby geosearch stale_ms now w.live center radius limit

unfoldable pub get_driver : World → ℕ → Answer Driver
get_driver w id = elim (find_driver_by_id w.db id) [ none ↦ not_found | some d ↦ ok d ]

-- The rest of `updateDriverStatus` after the checks; the row may be gone by the time of the write.
unfoldable pub write_status : World → ℕ → ℕ → DriverStatus → World × Answer Driver
write_status w now id next_status =
    let db = Database.update_driver_status w.db now id next_status in
    elim (Map.get db.drivers id) [
      | none ↦ (record w { db = db }, not_found)
      | some updated ↦ (
        record { db = db; live = update_driver_status_in_redis w.live now id next_status },
        ok updated,
      )
    ]

unfoldable pub update_driver_status : World → ℕ → ℕ → DriverStatus → World × Answer Driver
update_driver_status w now id next_status = elim (find_driver_by_id w.db id) [
  | none ↦ (w, not_found)
  | some driver ↦
      if is_legal driver.status next_status
      then write_status w now id next_status
      else (w, conflict)
]

unfoldable pub update_driver_location : World → ℕ → ℕ → LatLng → World × Answer Driver
update_driver_location w now id p = elim (find_driver_by_id w.db id) [
  | none ↦ (w, not_found)
  | some driver ↦
      let db = Database.update_driver_location w.db now id p in
      elim (Map.get db.drivers id) [
        | none ↦ (record w { db = db }, not_found)
        | some updated ↦ (
          record { db = db; live = Live.upsert_driver_location w.live now id p updated.status },
          ok updated,
        )
      ]
]
