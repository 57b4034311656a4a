-- ===== src/Live.antt =====
-- core/src/repositories/drivers.geo.repository.ts and core/src/services/reconciliation.service.ts.
-- The Redis keys are two maps: the geo set, and the hash of each driver. A pipeline is one step, at one
-- time `now`. What GEOSEARCH answers is an argument: its rows, in its order.
mod Tests
pub mod Nearby
pub mod Reconcile
use ride_location_tracking_e.Common.{
  ℕ, ◌+◌, ◌-◌, ◌*◌, ◌≡◌, Bool, true, false, ◌&&◌, Option, none, some, List, [], ◌∷◌, leb, ltb,
  if◌then◌else◌, for_each, min, not,
}
use ride_location_tracking_e.Common.Interval
use ride_location_tracking_e.Common.Interval.{Interval}
use ride_location_tracking_e.Common.Map
use ride_location_tracking_e.Common.Map.{Map}
use ride_location_tracking_e.Domain.{LatLng, DriverStatus, online, offline, busy}
use ride_location_tracking_e.Database.{Db, is_online, force_offline}

pub record DriverState : Type 0 where
  pub status : DriverStatus
  pub last_updated_at_ms : ℕ
  pub online_since_ms : Option ℕ

pub record Live : Type 0 where
  pub geo : Map LatLng
  pub states : Map DriverState

abbrev pub since_of : Option DriverState → Option ℕ
since_of none = none
since_of (some s) = s.online_since_ms

-- HSET of `status` and `lastUpdatedAtMs`.
unfoldable pub hset_state : Map DriverState → ℕ → DriverStatus → ℕ → Map DriverState
hset_state states id status now = Map.set states id (record {
  status = status;
  last_updated_at_ms = now;
  online_since_ms = since_of (Map.get states id);
})

-- `o ?? some(now)`: HSETNX of `onlineSinceMs`.
abbrev pub first_since : Option ℕ → ℕ → Option ℕ
first_since none now = some now
first_since (some s) now = some s

unfoldable pub upsert_driver_location : Live → ℕ → ℕ → LatLng → DriverStatus → Live
upsert_driver_location live now id p status = record {
  geo = Map.set live.geo id p;
  states = Map.set live.states id (record {
    status = status;
    last_updated_at_ms = now;
    online_since_ms = first_since (since_of (Map.get live.states id)) now;
  });
}

pub record BatchGeoEntry : Type 0 where
  pub driver_id : ℕ
  pub position : LatLng
  pub status : DriverStatus

unfoldable pub upsert_driver_locations_batch : Live → ℕ → List BatchGeoEntry → Live
upsert_driver_locations_batch live now entries =
    for_each entries (λ l e. upsert_driver_location l now e.driver_id e.position e.status) live

unfoldable pub update_driver_status_in_redis : Live → ℕ → ℕ → DriverStatus → Live
update_driver_status_in_redis live now id online = record live {
  states =
      Map.set live.states id
        (record { status = online; last_updated_at_ms = now; online_since_ms = some now });
}
update_driver_status_in_redis live now id offline = record {
  geo = Map.delete live.geo id;
  states = hset_state live.states id offline now;
}
update_driver_status_in_redis live now id busy = record live {
  states = hset_state live.states id busy now;
}

unfoldable pub get_driver_state : Live → ℕ → Option DriverState
get_driver_state live id = Map.get live.states id

-- `nowMs - lastUpdatedAtMs <= driverStaleMs`
unfoldable pub is_fresh : ℕ → DriverState → ℕ → Bool
is_fresh stale_ms s now = leb (now - s.last_updated_at_ms) stale_ms

pub record GeoRow : Type 0 where
  pub driver_id : ℕ
  pub distance_meters : ℕ
  pub position : LatLng

pub record NearbyDriver : Type 0 where
  pub driver_id : ℕ
  pub distance_meters : ℕ
  pub position : LatLng
  pub online_since_ms : Option ℕ

-- The row with its driver's state, unless one of the three `continue`s skips it.
unfoldable pub admit : ℕ → ℕ → GeoRow → Option DriverState → Option NearbyDriver
admit stale_ms now row none = none
admit stale_ms now row (some s) =
    if is_online s.status && is_fresh stale_ms s now
    then some (record {
      driver_id = row.driver_id;
      distance_meters = row.distance_meters;
      position = row.position;
      online_since_ms = s.online_since_ms;
    })
    else none

-- The loop, with the number of results so far; it breaks once there are `limit`.
unfoldable pub collect : ℕ → ℕ → Live → ℕ → ℕ → List GeoRow → List NearbyDriver
collect stale_ms now live limit count [] = []
collect stale_ms now live limit count (row ∷ rows) =
    let skip = collect stale_ms now live limit count rows in
    let more = collect stale_ms now live limit (count + 1) rows in
    elim (admit stale_ms now row (get_driver_state live row.driver_id)) [
      | none ↦ skip
      | some found ↦ if leb limit (count + 1) then found ∷ [] else found ∷ more
    ]

-- `geosearch` stands for GEOSEARCH on the geo set: center, radius and COUNT.
unfoldable pub search_nearby :
    (Map LatLng → LatLng → ℕ → ℕ → List GeoRow) → ℕ → ℕ → Live → LatLng → ℕ → ℕ → List NearbyDriver
search_nearby geosearch stale_ms now live center radius limit =
    collect stale_ms now live limit 0 (geosearch live.geo center radius (min (limit * 5) 500))

unfoldable pub is_stale : ℕ → ℕ → Option DriverState → Bool
is_stale stale_ms now none = false
is_stale stale_ms now (some s) =
    (elim s.status [ offline ↦ false | _ ↦ true ]) && not (is_fresh stale_ms s now)

-- The ids of a scan whose state went stale.
unfoldable pub stale_among : ℕ → ℕ → Live → List ℕ → List ℕ
stale_among stale_ms now live [] = []
stale_among stale_ms now live (id ∷ ids) =
    let rest = stale_among stale_ms now live ids in
    if is_stale stale_ms now (get_driver_state live id) then id ∷ rest else rest

-- SCAN over the state keys.
unfoldable pub find_stale_drivers : ℕ → ℕ → Live → List ℕ
find_stale_drivers stale_ms now live = stale_among stale_ms now live (Map.keys live.states)

unfoldable pub evict_stale_driver : Live → ℕ → ℕ → Live
evict_stale_driver live clock id = record {
  geo = Map.delete live.geo id;
  states = hset_state live.states id offline clock;
}

pub record World : Type 0 where
  pub db : Db
  pub live : Live

unfoldable pub reconcile_one : ℕ → World → ℕ → World
reconcile_one clock w id = record {
  db = force_offline w.db clock id;
  live = evict_stale_driver w.live clock id;
}

-- `nowMs` is the time of the scan, `clock` that of the writes.
unfoldable pub reconcile_stale_drivers : ℕ → ℕ → ℕ → World → World
reconcile_stale_drivers stale_ms now clock w =
    for_each (find_stale_drivers stale_ms now w.live) (reconcile_one clock) w

-- The loop that starts the job.
abbrev pub start_reconciliation_job : Interval → ℕ → Interval
start_reconciliation_job = Interval.start_loop

abbrev pub stop_reconciliation_job : Interval → Interval
stop_reconciliation_job = Interval.stop_loop
