-- ===== src/Batch.antt =====
-- core/src/ws/location-batch.ts and core/src/ws/runtime-config.ts. A flush is the stage that it waits in, so that other
-- messages come between its awaited calls: an event is a message, a tick of the interval, the end of the awaited
-- call (with the time at which a store wrote, or by a failure), or what other requests make of the stores. The
-- counters and the latency histogram are not modelled.
mod Tests
pub mod Writes
pub mod Broadcasts
pub mod Heard
pub mod Flush
pub mod Failure
pub mod OneByOne
pub mod Sent
use ride_location_tracking_e.Common.{
  ℕ, Bool, true, false, Option, none, some, List, [], ◌∷◌, for_each, ltb, if◌then◌else◌, or_default,
}
use ride_location_tracking_e.Common.Interval
use ride_location_tracking_e.Common.Interval.{Interval}
use ride_location_tracking_e.Common.Map
use ride_location_tracking_e.Common.Map.{Map}
use ride_location_tracking_e.Domain.{LatLng}
use ride_location_tracking_e.Database.{Db, Driver, batch_update_locations}
use ride_location_tracking_e.Live.{Live, BatchGeoEntry, upsert_driver_locations_batch}
use ride_location_tracking_e.Subscriptions.{Registry, OutMessage, broadcast_driver_location}
use ride_location_tracking_e.Eta.Service.{
  CachedEta, Engines, EtaRuntimeConfig, BatchLocationUpdate, entries_ended,
  handle_driver_location_updates_batch,
}

pub record PendingUpdate : Type 0 where
  pub position : LatLng
  pub timestamp : ℕ

abbrev pub Snapshot : Type 0
Snapshot = List (ℕ × PendingUpdate)

-- The awaited call that the flush in flight is in; `idle` if `flushing` is false.
pub data Stage : Type 0 where
  idle : Stage
  in_postgres : Snapshot → Stage
  in_redis : Snapshot → Map Driver → Stage
  in_eta : List BatchLocationUpdate → Stage

pub record Stores : Type 0 where
  pub db : Db
  pub live : Live
  pub registry : Registry
  pub cache : Map CachedEta

pub record Core : Type 0 where
  pub pending_batch : Map PendingUpdate
  pub stage : Stage
  pub stores : Stores

unfoldable pub enqueue_location_update : Core → ℕ → PendingUpdate → Core
enqueue_location_update c id u = record c { pending_batch = Map.set c.pending_batch id u }

unfoldable pub get_pending_batch_size : Core → ℕ
get_pending_batch_size c = Map.size c.pending_batch

-- `snapshot.map(([driverId, u]) => ({ id: driverId, ... }))`
unfoldable pub positions_of : Snapshot → List (ℕ × LatLng)
positions_of [] = []
positions_of ((id, u) ∷ rest) = (id, u.position) ∷ positions_of rest

-- `new Map(updatedDrivers.map((d) => [d.id, d]))`: the rows that the UPDATE returns.
unfoldable pub driver_by_id : Db → Snapshot → Map Driver
driver_by_id db [] = []
driver_by_id db ((id, u) ∷ rest) =
    let others = driver_by_id db rest in
    elim (Map.get db.drivers id) [ none ↦ others | some row ↦ (id, row) ∷ others ]

unfoldable pub geo_entries : Map Driver → Snapshot → List BatchGeoEntry
geo_entries drivers [] = []
geo_entries drivers ((id, u) ∷ rest) =
    let others = geo_entries drivers rest in
    elim (Map.get drivers id) [
      | none ↦ others
      | some row ↦ record { driver_id = id; position = u.position; status = row.status } ∷ others
    ]

unfoldable pub drivers_with_broadcast : Map Driver → Snapshot → List BatchLocationUpdate
drivers_with_broadcast drivers [] = []
drivers_with_broadcast drivers ((id, u) ∷ rest) =
    let others = drivers_with_broadcast drivers rest in
    elim (Map.get drivers id) [
      | none ↦ others
      | some row ↦
          record { driver_id = id; position = u.position; timestamp_ms = u.timestamp } ∷ others
    ]

module _ (is_open : ℕ → Bool) (byte_length : OutMessage → ℕ) (step : ℕ) where
  -- The body of the loop over the snapshot.
  unfoldable pub broadcast_one : Map Driver → Registry → ℕ × PendingUpdate → Registry
  broadcast_one drivers r (id, u) = elim (Map.get drivers id) [
    | none ↦ r
    | some row ↦ broadcast_driver_location is_open byte_length step r id (record {
      position = u.position;
      meta = record { driver_id = id; timestamp = u.timestamp; status = row.status };
    })
  ]

unfoldable pub begin_flush : Core → Stage → Map PendingUpdate → Core
begin_flush c idle [] = c
begin_flush c idle (e ∷ es) = record c { pending_batch = []; stage = in_postgres (e ∷ es) }
begin_flush c (in_postgres snapshot) pending = c
begin_flush c (in_redis snapshot drivers) pending = c
begin_flush c (in_eta updates) pending = c

-- Up to the first `await`; nothing if a flush is in flight or nothing is pending.
unfoldable pub flush_batch : Core → Core
flush_batch c = begin_flush c c.stage c.pending_batch

module _ (is_open : ℕ → Bool) (byte_length : OutMessage → ℕ) (step : ℕ) (engines : Engines)
    (cfg : EtaRuntimeConfig) where
  unfoldable pub proceed_from : Core → ℕ → Stage → Core
  proceed_from c now idle = c
  proceed_from c now (in_postgres snapshot) =
      let db = batch_update_locations c.stores.db now (positions_of snapshot) in
      record c {
        stage = in_redis snapshot (driver_by_id db snapshot);
        stores = record {
          db = db;
          live = c.stores.live;
          registry = c.stores.registry;
          cache = c.stores.cache;
        };
      }
  proceed_from c now (in_redis snapshot drivers) = record c {
    stage = in_eta (drivers_with_broadcast drivers snapshot);
    stores = record {
      db = c.stores.db;
      live = upsert_driver_locations_batch c.stores.live now (geo_entries drivers snapshot);
      registry =
          for_each snapshot (broadcast_one is_open byte_length step drivers) c.stores.registry;
      cache = c.stores.cache;
    };
  }
  proceed_from c now (in_eta updates) = record c {
    stage = idle;
    stores = record {
      db = c.stores.db;
      live = c.stores.live;
      registry = c.stores.registry;
      cache = handle_driver_location_updates_batch engines cfg c.stores.db c.stores.cache updates;
    };
  }

  -- From the end of the awaited call to the next one; `now` is the time at which the store wrote.
  unfoldable pub proceed : Core → ℕ → Core
  proceed c now = proceed_from c now c.stage

abbrev pub picked :
    (BatchLocationUpdate → Bool) → List BatchLocationUpdate → List BatchLocationUpdate
picked ended [] = []
picked ended (u ∷ us) = let rest = picked ended us in if ended u then u ∷ rest else rest

module _ (engines : Engines) (cfg : EtaRuntimeConfig) (ended : BatchLocationUpdate → Bool) where
  -- A call of a store that throws has changed nothing. The update of the estimates is many calls that run at
  -- once: when one of them throws, the entries that `ended` picks have stored their estimates or store them yet.
  unfoldable pub fail_from : Core → Stage → Core
  fail_from c (in_eta updates) = record c {
    stage = idle;
    stores = record {
      db = c.stores.db;
      live = c.stores.live;
      registry = c.stores.registry;
      cache = entries_ended engines cfg c.stores.db c.stores.cache updates (picked ended updates);
    };
  }
  fail_from c _ = record c { stage = idle }

  -- The awaited call throws: nothing more is done, and the `finally` ends the flush.
  unfoldable pub fail : Core → Core
  fail c = fail_from c c.stage

abbrev pub max_batch_window_ms : ℕ
max_batch_window_ms = 1000

unfoldable pub clamp_batch_window_ms : ℕ → ℕ
clamp_batch_window_ms ms = if ltb max_batch_window_ms ms then max_batch_window_ms else ms

pub record WsRuntimeConfig : Type 0 where
  pub driver_throttle_ms : ℕ
  pub heartbeat_interval_ms : ℕ
  pub timestamp_tolerance_ms : ℕ
  pub batch_window_ms : ℕ
  pub bandwidth_log_interval_ms : ℕ

pub record WsOverrides : Type 0 where
  pub driver_throttle_ms : Option ℕ
  pub heartbeat_interval_ms : Option ℕ
  pub timestamp_tolerance_ms : Option ℕ
  pub batch_window_ms : Option ℕ
  pub bandwidth_log_interval_ms : Option ℕ

abbrev clamped : Option ℕ → ℕ → ℕ
clamped none old = old
clamped (some ms) old = clamp_batch_window_ms ms

unfoldable pub configure_ws : WsRuntimeConfig → WsOverrides → WsRuntimeConfig
configure_ws cfg o = record {
  driver_throttle_ms = or_default o.driver_throttle_ms cfg.driver_throttle_ms;
  heartbeat_interval_ms = or_default o.heartbeat_interval_ms cfg.heartbeat_interval_ms;
  timestamp_tolerance_ms = or_default o.timestamp_tolerance_ms cfg.timestamp_tolerance_ms;
  batch_window_ms = clamped o.batch_window_ms cfg.batch_window_ms;
  bandwidth_log_interval_ms = or_default o.bandwidth_log_interval_ms cfg.bandwidth_log_interval_ms;
}

-- The loop whose ticks flush.
abbrev pub start_batch_loop : Interval → ℕ → Interval
start_batch_loop = Interval.start_loop

abbrev pub stop_batch_loop : Interval → Interval
stop_batch_loop = Interval.stop_loop
