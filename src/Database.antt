-- ===== src/Database.antt =====
-- The Postgres tables, and the statements of core/src/repositories/trips.repository.ts and
-- core/src/repositories/drivers.repository.ts on them. Each statement (and the transaction of
-- `tryFinalizeMatch`) is one atomic step. The ids and times that Postgres draws (`DEFAULT` ids, `now()`)
-- are arguments; the row a statement RETURNs is the one at its id afterwards; the texts of a driver's row that no code reads are one field.
mod Tests
pub mod Booking
pub mod Rebooking
use ride_location_tracking_e.Common.{
  ℕ, Bool, true, false, ◌&&◌, Option, none, some, List, [], ◌∷◌, if◌then◌else◌, opt_is, is_some,
  or_default, for_each,
}
use ride_location_tracking_e.Common.KeySet
use ride_location_tracking_e.Common.Map
use ride_location_tracking_e.Common.Map.{Map}
use ride_location_tracking_e.Domain.{
  LatLng, DriverStatus, online, offline, busy, TripStatus, requested, matched, in_progress,
  completed, cancelled,
}
use Prim.Native.String.{String}

pub data CancellationReason : Type 0 where
  no_drivers_available all_candidates_declined : CancellationReason

pub record Trip : Type 0 where
  pub rider_id : ℕ
  pub driver_id : Option ℕ
  pub status : TripStatus
  pub pickup : LatLng
  pub dropoff : LatLng
  pub requested_at : ℕ
  pub matched_at : Option ℕ
  pub started_at : Option ℕ
  pub completed_at : Option ℕ
  pub distance_meters : Option ℕ
  pub duration_seconds : Option ℕ
  pub cancellation_reason : Option CancellationReason

pub record Driver : Type 0 where
  pub name : String
  pub vehicle : String
  pub status : DriverStatus
  pub location : Option LatLng
  pub last_updated_at : ℕ
  pub created_at : ℕ

pub record Db : Type 0 where
  pub trips : Map Trip
  pub drivers : Map Driver

pub empty_db : Db
empty_db = record { trips = []; drivers = [] }

abbrev pub is_online : DriverStatus → Bool
is_online online = true
is_online _ = false

abbrev pub is_requested : TripStatus → Bool
is_requested requested = true
is_requested _ = false

-- `status === "matched"`
abbrev pub is_matched : TripStatus → Bool
is_matched matched = true
is_matched _ = false

-- `status IN ('matched', 'in_progress')`
abbrev pub is_active : TripStatus → Bool
is_active matched = true
is_active in_progress = true
is_active _ = false

-- core/src/repositories/trips.repository.ts

pub record CreateTripInput : Type 0 where
  pub rider_id : ℕ
  pub pickup : LatLng
  pub dropoff : LatLng

-- The inserted row, with the column defaults.
abbrev pub new_trip : ℕ → CreateTripInput → Trip
new_trip now input = record {
  rider_id = input.rider_id;
  driver_id = none;
  status = requested;
  pickup = input.pickup;
  dropoff = input.dropoff;
  requested_at = now;
  matched_at = none;
  started_at = none;
  completed_at = none;
  distance_meters = none;
  duration_seconds = none;
  cancellation_reason = none;
}

unfoldable pub insert_trip : Db → ℕ → ℕ → CreateTripInput → Db
insert_trip db id now input = record db { trips = Map.set db.trips id (new_trip now input) }

unfoldable pub find_trip_by_id : Db → ℕ → Option Trip
find_trip_by_id db id = Map.get db.trips id

-- `WHERE status = 'requested'`, row by row: the id and the pickup.
pub open_pickups : Map Trip → List (ℕ × LatLng)
open_pickups [] = []
open_pickups ((id, t) ∷ ts) =
    let rest = open_pickups ts in if is_requested t.status then (id, t.pickup) ∷ rest else rest

unfoldable pub find_open_trip_pickups : Db → List (ℕ × LatLng)
unfolding open_pickups
find_open_trip_pickups db = open_pickups db.trips

-- The first row with `driver_id = $1 AND status IN ('matched', 'in_progress')`.
unfoldable pub first_active : ℕ → Map Trip → Option (ℕ × Trip)
first_active driver_id [] = none
first_active driver_id ((id, t) ∷ ts) =
    if opt_is t.driver_id driver_id && is_active t.status
    then some (id, t)
    else first_active driver_id ts

unfoldable pub find_active_trip_for_driver : Db → ℕ → Option (ℕ × Trip)
unfolding first_active
find_active_trip_for_driver db driver_id = first_active driver_id db.trips

-- One row of `driver_id = ANY($1) AND status IN ('matched', 'in_progress')`, put in the map at its driver.
unfoldable pub add_active : List ℕ → Map (ℕ × Trip) → ℕ × Trip → Map (ℕ × Trip)
add_active driver_ids found row = elim row.1.driver_id [
  | none ↦ found
  | some d ↦
      if KeySet.has driver_ids d && is_active row.1.status then Map.set found d row else found
]

unfoldable pub find_active_trips_for_drivers : Db → List ℕ → Map (ℕ × Trip)
find_active_trips_for_drivers db driver_ids = for_each db.trips (add_active driver_ids) []

-- `WHERE id = $1 AND status = 'requested' AND driver_id IS NULL`
unfoldable pub can_take : Option Trip → Bool
can_take none = false
can_take (some t) = is_requested t.status && (if is_some t.driver_id then false else true)

-- `WHERE id = $1 AND status = 'online'`
unfoldable pub can_drive : Option Driver → Bool
can_drive none = false
can_drive (some d) = is_online d.status

unfoldable pub take_trip : ℕ → ℕ → Trip → Trip
take_trip driver_id now t = record t {
  status = matched;
  driver_id = some driver_id;
  matched_at = some now;
}

unfoldable pub set_status : DriverStatus → ℕ → Driver → Driver
set_status status now d = record d { status = status; last_updated_at = now }

-- `UPDATE table SET ... WHERE id = $1`
unfoldable pub update_row {ℓ} : {A : Type ℓ} → Map A → ℕ → (A → A) → Map A
update_row table id f = elim (Map.get table id) [
  | none ↦ table
  | some row ↦ Map.set table id (f row)
]

-- Both updates are committed, or neither.
unfoldable pub try_finalize_match : Db → ℕ → ℕ → ℕ → Db × Bool
try_finalize_match db now trip_id driver_id =
    if can_take (Map.get db.trips trip_id) && can_drive (Map.get db.drivers driver_id)
    then (
      record {
        trips = update_row db.trips trip_id (take_trip driver_id now);
        drivers = update_row db.drivers driver_id (set_status busy now);
      },
      true,
    )
    else (db, false)

unfoldable pub cancel_trip : CancellationReason → Trip → Trip
cancel_trip reason t = record t { status = cancelled; cancellation_reason = some reason }

-- `none` where no row was still 'requested'.
unfoldable pub mark_trip_unmatched : Db → ℕ → CancellationReason → Db × Option Trip
mark_trip_unmatched db trip_id reason = elim (Map.get db.trips trip_id) [
  | none ↦ (db, none)
  | some t ↦
      if is_requested t.status
      then (
        record db { trips = Map.set db.trips trip_id (cancel_trip reason t) },
        some (cancel_trip reason t),
      )
      else (db, none)
]

-- core/src/repositories/drivers.repository.ts

pub record CreateDriverInput : Type 0 where
  pub name : String
  pub vehicle : String
  pub status : Option DriverStatus
  pub location : Option LatLng

abbrev pub new_driver : ℕ → CreateDriverInput → Driver
new_driver now input = record {
  name = input.name;
  vehicle = input.vehicle;
  status = or_default input.status offline;
  location = input.location;
  last_updated_at = now;
  created_at = now;
}

unfoldable pub insert_driver : Db → ℕ → ℕ → CreateDriverInput → Db
insert_driver db id now input = record db { drivers = Map.set db.drivers id (new_driver now input) }

unfoldable pub find_driver_by_id : Db → ℕ → Option Driver
find_driver_by_id db id = Map.get db.drivers id

-- `WHERE status = 'online' AND current_location IS NOT NULL`, row by row: the id and the position.
pub online_positions : Map Driver → List (ℕ × LatLng)
online_positions [] = []
online_positions ((id, d) ∷ ds) =
    let rest = online_positions ds in
    elim d.location [ none ↦ rest | some p ↦ if is_online d.status then (id, p) ∷ rest else rest ]

unfoldable pub find_online_drivers_with_location : Db → List (ℕ × LatLng)
unfolding online_positions
find_online_drivers_with_location db = online_positions db.drivers

unfoldable pub update_driver_status : Db → ℕ → ℕ → DriverStatus → Db
update_driver_status db now id status = record db {
  drivers = update_row db.drivers id (set_status status now);
}

unfoldable pub set_location : LatLng → ℕ → Driver → Driver
set_location p now d = record d { location = some p; last_updated_at = now }

unfoldable pub update_driver_location : Db → ℕ → ℕ → LatLng → Db
update_driver_location db now id p = record db {
  drivers = update_row db.drivers id (set_location p now);
}

-- One UPDATE for the whole batch; its ids are the keys of a Map, so no two rows of it are for one driver.
unfoldable pub batch_update_locations : Db → ℕ → List (ℕ × LatLng) → Db
batch_update_locations db now entries =
    for_each entries (λ db' e. update_driver_location db' now e.0 e.1) db

-- core/src/services/reconciliation.service.ts: `status <> 'offline'` drivers that went stale.
unfoldable pub force_offline : Db → ℕ → ℕ → Db
force_offline db now id = elim (Map.get db.drivers id) [
  | none ↦ db
  | some d ↦ elim d.status [ offline ↦ db | _ ↦ update_driver_status db now id offline ]
]
