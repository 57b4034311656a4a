-- ===== src/Eta/Service.antt =====
-- core/src/services/eta.service.ts, eta-config.ts and core/src/repositories/eta.repository.ts. The cache is a map
-- by trip; what the two engines, the haversine formula and the clock's local hour answer is an argument. A
-- request runs with no other request between its awaits, but the entries of a batch run at once; the log lines
-- are left out.
use ride_location_tracking_e.Common.{
  ℕ, ◌*◌, ◌/◌, Bool, true, false, ◌||◌, not, Option, none, some, List, [], ◌∷◌, leb, if◌then◌else◌,
  is_some, for_each,
}
use ride_location_tracking_e.Common.Int.{ℤ, pos, ◌-ℤ◌, leb_ℤ, ltb_ℤ}
use ride_location_tracking_e.Common.Map
use ride_location_tracking_e.Common.Map.{Map}
use ride_location_tracking_e.Domain.{LatLng, in_progress, completed, cancelled}
use ride_location_tracking_e.Database.{
  Db, Trip, Driver, find_active_trips_for_drivers, find_trip_by_id, find_active_trip_for_driver,
  find_driver_by_id,
}
use ride_location_tracking_e.Eta.Replies.{Reply}
use ride_location_tracking_e.Eta.Clients.{success, failure, fetch_ml_eta, fetch_osrm_route}
use ride_location_tracking_e.Eta.Heuristic.{
  EtaEstimate, estimate_eta, get_rush_hour_multiplier, rush_hour_table,
}

pub data EtaMode : Type 0 where
  heuristic ml ml_with_fallback : EtaMode

pub data EtaSource : Type 0 where
  heuristic ml ml_fallback heuristic_osrm : EtaSource

pub record EtaRuntimeConfig : Type 0 where
  -- Per second, in the distances' unit over `scale`.
  pub avg_speed : ℕ
  pub scale : ℕ
  pub recompute_interval_ms : ℕ
  pub recompute_distance_meters : ℕ
  pub stale_location_ms : ℕ
  pub mode : EtaMode
  pub ml_cache_ttl_ms : ℕ
  pub osrm_enabled : Bool

pub record CachedEta : Type 0 where
  pub eta_seconds : ℕ
  pub distance_meters : ℕ
  pub computed_at_ms : ℕ
  pub computed_at : LatLng
  pub source : EtaSource

-- What the code asks of the world outside: the two services, from and to, and at a time.
pub record Engines : Type 0 where
  pub ml_service : LatLng → LatLng → ℕ → Reply
  pub osrm : LatLng → LatLng → ℕ → Reply
  pub haversine : LatLng → LatLng → ℕ
  pub local_hour : ℕ → ℕ

unfoldable pub build_cached_eta : EtaEstimate → ℕ → LatLng → EtaSource → CachedEta
build_cached_eta estimate now location source = record {
  eta_seconds = estimate.eta_seconds;
  distance_meters = estimate.distance_meters;
  computed_at_ms = now;
  computed_at = location;
  source = source;
}

pub record EngineOutcome : Type 0 where
  pub eta : Option CachedEta
  pub fresh : Bool
  pub ml_unavailable : Bool

pub record Recomputed : Type 0 where
  pub eta : Option CachedEta
  pub served_from_cache : Bool
  pub ml_unavailable : Bool

pub record BatchLocationUpdate : Type 0 where
  pub driver_id : ℕ
  pub position : LatLng
  pub timestamp_ms : ℕ

abbrev pub driver_ids : List BatchLocationUpdate → List ℕ
driver_ids [] = []
driver_ids (u ∷ us) = u.driver_id ∷ driver_ids us

abbrev pub is_heuristic : EtaMode → Bool
is_heuristic heuristic = true
is_heuristic _ = false

module _ (engines : Engines) (cfg : EtaRuntimeConfig) where
  unfoldable pub straight_line : LatLng → LatLng → ℕ → CachedEta
  straight_line location target now =
      build_cached_eta
        (estimate_eta cfg.scale (engines.haversine location target) (engines.local_hour now)
          cfg.avg_speed)
        now location EtaSource.heuristic

  unfoldable pub compute_heuristic_eta : LatLng → LatLng → ℕ → CachedEta
  compute_heuristic_eta location target now =
      if cfg.osrm_enabled
      then (elim (fetch_osrm_route (engines.osrm location target now)) [
        | failure reason ↦ straight_line location target now
        | success route ↦
            build_cached_eta
              (record {
                eta_seconds =
                    route.duration_seconds
                    * get_rush_hour_multiplier (engines.local_hour now) rush_hour_table
                    / 10;
                distance_meters = route.distance_meters;
              })
              now location EtaSource.heuristic_osrm
      ])
      else straight_line location target now

  abbrev fresh_eta : CachedEta → EngineOutcome
  fresh_eta eta = record { eta = some eta; fresh = true; ml_unavailable = false }

  -- When the prediction service failed.
  unfoldable pub without_ml : EtaMode → LatLng → LatLng → ℕ → Option CachedEta → EngineOutcome
  without_ml ml_with_fallback location target now prior =
      fresh_eta
        (record (compute_heuristic_eta location target now) { source = EtaSource.ml_fallback })
  without_ml _ location target now prior = record {
    eta = prior;
    fresh = false;
    ml_unavailable = true;
  }

  unfoldable pub compute_eta_for_mode :
      EtaMode → LatLng → LatLng → ℕ → Option CachedEta → EngineOutcome
  compute_eta_for_mode mode location target now prior =
      if is_heuristic mode
      then fresh_eta (compute_heuristic_eta location target now)
      else elim (fetch_ml_eta (engines.ml_service location target now)) [
        | success p ↦ fresh_eta (
            build_cached_eta
              (record { eta_seconds = p.eta_seconds; distance_meters = p.distance_meters }) now
              location EtaSource.ml)
        | failure reason ↦ without_ml mode location target now prior
      ]

  unfoldable pub should_recompute : LatLng → ℕ → Option CachedEta → Bool
  should_recompute location now none = true
  should_recompute location now (some cached) =
      let interval =
        if is_heuristic cfg.mode then cfg.recompute_interval_ms else cfg.ml_cache_ttl_ms in
      leb_ℤ (pos interval) (pos now -ℤ pos cached.computed_at_ms)
      || leb cfg.recompute_distance_meters (engines.haversine location cached.computed_at)

  abbrev pub target_of : Trip → LatLng
  target_of trip = elim trip.status [ in_progress ↦ trip.dropoff | _ ↦ trip.pickup ]

  -- `if (outcome.fresh && outcome.eta) await setCachedEta(...)`
  unfoldable pub store_outcome : Map CachedEta → ℕ → EngineOutcome → Map CachedEta
  store_outcome cache trip_id o = elim o.eta [
    | none ↦ cache
    | some e ↦ if o.fresh then Map.set cache trip_id e else cache
  ]

  -- What follows the read of the trip's estimate, which answered `cached`.
  abbrev pub recompute_from :
      Option CachedEta → Map CachedEta → ℕ → Trip → LatLng → ℕ → Map CachedEta × Recomputed
  recompute_from cached cache trip_id trip location now =
      if should_recompute location now cached
      then (let o = compute_eta_for_mode cfg.mode location (target_of trip) now cached in
          (
            store_outcome cache trip_id o,
            record {
              eta = o.eta;
              served_from_cache = not o.fresh;
              ml_unavailable = o.ml_unavailable;
            },
          ))
      else (cache, record { eta = cached; served_from_cache = true; ml_unavailable = false })

  unfoldable pub maybe_recompute_eta :
      Map CachedEta → ℕ → Trip → LatLng → ℕ → Map CachedEta × Recomputed
  maybe_recompute_eta cache trip_id trip location now =
      recompute_from (Map.get cache trip_id) cache trip_id trip location now

  unfoldable pub handle_driver_location_update : Db → Map CachedEta → ℕ → LatLng → ℕ → Map CachedEta
  handle_driver_location_update db cache driver_id location timestamp =
      elim (find_active_trip_for_driver db driver_id) [
        | none ↦ cache
        | some (trip_id, trip) ↦ (maybe_recompute_eta cache trip_id trip location timestamp).0
      ]

  -- One entry of a batch that started with the cache `before`: all entries run at once, so each has read its
  -- trip's estimate there before any of them stores one.
  unfoldable pub handle_one :
      Map (ℕ × Trip) → Map CachedEta → Map CachedEta → BatchLocationUpdate → Map CachedEta
  handle_one trips before cache u = elim (Map.get trips u.driver_id) [
    | none ↦ cache
    | some (trip_id, trip) ↦
        (recompute_from (Map.get before trip_id) cache trip_id trip u.position u.timestamp_ms).0
  ]

  -- The cache once these entries of the batch, in this order, have stored their estimates.
  unfoldable pub entries_ended :
      Db → Map CachedEta → List BatchLocationUpdate → List BatchLocationUpdate → Map CachedEta
  entries_ended db cache updates ended =
      let trips = find_active_trips_for_drivers db (driver_ids updates) in
      for_each ended (handle_one trips cache) cache

  -- The stores come in the order of the updates.
  unfoldable pub handle_driver_location_updates_batch :
      Db → Map CachedEta → List BatchLocationUpdate → Map CachedEta
  handle_driver_location_updates_batch db cache updates = entries_ended db cache updates updates

pub data EtaStatus : Type 0 where
  ok no_driver_assigned trip_completed trip_cancelled stale_location ml_unavailable : EtaStatus

pub record EtaResult : Type 0 where
  pub status : EtaStatus
  pub eta_seconds : Option ℕ
  pub distance_meters : Option ℕ
  pub computed_at : Option ℕ
  pub driver_location_age_ms : Option ℤ
  pub eta_source : Option EtaSource
  pub served_from_cache : Option Bool

unfoldable pub from_cached : EtaStatus → Option CachedEta → Option ℤ → Bool → EtaResult
from_cached status none age served = record {
  status = status;
  eta_seconds = none;
  distance_meters = none;
  computed_at = none;
  driver_location_age_ms = age;
  eta_source = none;
  served_from_cache = some served;
}
from_cached status (some c) age served = record {
  status = status;
  eta_seconds = some c.eta_seconds;
  distance_meters = some c.distance_meters;
  computed_at = some c.computed_at_ms;
  driver_location_age_ms = age;
  eta_source = some c.source;
  served_from_cache = some served;
}

-- The three answers that no computation stands behind.
abbrev pub no_eta : EtaStatus → Option ℕ → EtaResult
no_eta status number = record {
  status = status;
  eta_seconds = number;
  distance_meters = number;
  computed_at = none;
  driver_location_age_ms = none;
  eta_source = none;
  served_from_cache = none;
}

module _ (engines : Engines) (cfg : EtaRuntimeConfig) where
  abbrev pub status_of : Recomputed → EtaStatus
  status_of r = if r.ml_unavailable then ml_unavailable else ok

  unfoldable pub eta_at : Map CachedEta → ℕ → Trip → Driver → LatLng → ℕ → Map CachedEta × EtaResult
  eta_at cache trip_id trip driver location now =
      let age = pos now -ℤ pos driver.last_updated_at in
      let cached = Map.get cache trip_id in
      if ltb_ℤ (pos cfg.stale_location_ms) age
      then (cache, from_cached stale_location cached (some age) (is_some cached))
      else let r = maybe_recompute_eta engines cfg cache trip_id trip location now in
        (r.0, from_cached (status_of r.1) r.1.eta (some age) r.1.served_from_cache)

  unfoldable pub eta_of_driver :
      Map CachedEta → ℕ → Trip → Option Driver → ℕ → Map CachedEta × EtaResult
  eta_of_driver cache trip_id trip none now =
      let cached = Map.get cache trip_id in
      (cache, from_cached stale_location cached none (is_some cached))
  eta_of_driver cache trip_id trip (some driver) now = elim driver.location [
    | none ↦
        let cached = Map.get cache trip_id in
        (cache, from_cached stale_location cached none (is_some cached))
    | some location ↦ eta_at cache trip_id trip driver location now
  ]

  unfoldable pub eta_of_trip : Db → Map CachedEta → ℕ → Trip → ℕ → Map CachedEta × EtaResult
  eta_of_trip db cache trip_id trip now = elim trip.status [
    | completed ↦ (cache, no_eta trip_completed (some 0))
    | cancelled ↦ (cache, no_eta trip_cancelled none)
    | _ ↦ elim trip.driver_id [
      | none ↦ (cache, no_eta no_driver_assigned none)
      | some d ↦ eta_of_driver cache trip_id trip (find_driver_by_id db d) now
    ]
  ]

  -- `none` where the code throws a NotFoundError.
  unfoldable pub get_trip_eta : Db → Map CachedEta → ℕ → ℕ → Map CachedEta × Option EtaResult
  get_trip_eta db cache trip_id now = elim (find_trip_by_id db trip_id) [
    | none ↦ (cache, none)
    | some trip ↦ let r = eta_of_trip db cache trip_id trip now in (r.0, some r.1)
  ]
