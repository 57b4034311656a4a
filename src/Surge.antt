-- ===== src/Surge.antt =====
-- core/src/services/surge.service.ts, surge-config.ts and core/src/repositories/surge.repository.ts.
-- A multiplier counts `scale`-ths of the factor, and the ratio of requests to drivers is cut to that grid. The
-- Redis hash `surge:state` is a map from the hash of a zone to its state; `zone_of` is `zoneHashFor` at the
-- configured precision, whose `unit` is the fraction of a degree that a coordinate counts.
mod Tests
pub mod Zones
pub mod Step
pub mod Settling
use ride_location_tracking_e.Common.{
  ℕ, ◌+◌, ◌-◌, ◌*◌, ◌/◌, ◌<◌, ◌≤◌, Bool, true, false, Option, none, some, List, [], ◌∷◌, ltb, min,
  max, if◌then◌else◌, for_each, or_default,
}
use ride_location_tracking_e.Common.Interval
use ride_location_tracking_e.Common.Interval.{Interval}
use ride_location_tracking_e.Common.Int.{ℤ, pos, pos_part, ◌+ℤ◌, ◌-ℤ◌, leb_ℤ, times}
use ride_location_tracking_e.Common.Map
use ride_location_tracking_e.Common.Map.{Map}
use ride_location_tracking_e.Common.KeySet
use ride_location_tracking_e.Common.KeySet.{KeySet}
use ride_location_tracking_e.Domain.{LatLng}
use ride_location_tracking_e.Database.{
  Db, find_open_trip_pickups, find_online_drivers_with_location,
}
use ride_location_tracking_e.Geohash.{cell_of, cell_hash, decode}

pub record SurgeZoneState : Type 0 where
  pub multiplier : ℕ
  pub request_count : ℕ
  pub driver_count : ℕ
  pub updated_at_ms : ℕ

abbrev pub SurgeStore : Type 0
SurgeStore = Map SurgeZoneState

pub record SurgeRuntimeConfig : Type 0 where
  pub zone_bits : ℕ
  pub update_interval_ms : ℕ
  pub min_multiplier : ℕ
  pub max_multiplier : ℕ
  pub min_sample_requests : ℕ
  pub max_change_per_interval : ℕ

-- `Math.min(max, Math.max(min, value))`, of numbers that are not negative, and of any.
unfoldable pub clamp : ℕ → ℕ → ℕ → ℕ
clamp value lo hi = min hi (max lo value)

unfoldable pub clamp_ℤ : ℤ → ℤ → ℤ → ℤ
clamp_ℤ value lo hi =
    let raised = if leb_ℤ lo value then value else lo in if leb_ℤ raised hi then raised else hi

unfoldable pub zone_hash_for : ℕ → ℕ → LatLng → ℕ
zone_hash_for unit bits p = cell_hash (cell_of unit p bits) bits

-- `counts.set(hash, (counts.get(hash) ?? 0) + 1)`
unfoldable pub count_in : (LatLng → ℕ) → Map ℕ → ℕ × LatLng → Map ℕ
count_in zone_of counts row =
    let hash = zone_of row.1 in Map.set counts hash (or_default (Map.get counts hash) 0 + 1)

unfoldable pub zone_counts : (LatLng → ℕ) → List (ℕ × LatLng) → Map ℕ
zone_counts zone_of rows = for_each rows (count_in zone_of) []

-- `[...a, ...b]` put in a Set, one key after the other.
unfoldable pub add_keys : KeySet → List ℕ → KeySet
add_keys s ks = for_each ks KeySet.add s

abbrev pub multiplier_of : Option SurgeZoneState → ℕ → ℕ
multiplier_of none base = base
multiplier_of (some s) base = s.multiplier

unfoldable pub target_multiplier : SurgeRuntimeConfig → ℕ → ℕ → ℕ → ℕ
target_multiplier cfg scale requests drivers =
    if ltb requests cfg.min_sample_requests
    then cfg.min_multiplier
    else clamp (requests * scale / max drivers 1) cfg.min_multiplier cfg.max_multiplier

-- The body of the loop from `delta` on.
unfoldable pub next_multiplier : SurgeRuntimeConfig → ℕ → ℕ → ℕ
next_multiplier cfg previous target =
    let change = pos cfg.max_change_per_interval in
    let delta = clamp_ℤ (pos target -ℤ pos previous) (pos 0 -ℤ change) change in
    clamp (pos_part (pos previous +ℤ delta)) cfg.min_multiplier cfg.max_multiplier

unfoldable pub zone_state :
    SurgeRuntimeConfig → ℕ → ℕ → Option SurgeZoneState → ℕ → ℕ → SurgeZoneState
zone_state cfg scale now previous requests drivers = record {
  multiplier =
      next_multiplier cfg (multiplier_of previous cfg.min_multiplier)
        (target_multiplier cfg scale requests drivers);
  request_count = requests;
  driver_count = drivers;
  updated_at_ms = now;
}

-- HSET of every field, in one round trip; the other fields stay.
unfoldable pub set_surge_zone_states : SurgeStore → Map SurgeZoneState → SurgeStore
set_surge_zone_states store states = for_each states (λ s e. Map.set s e.0 e.1) store

unfoldable pub compute_and_update_surge :
    SurgeRuntimeConfig → ℕ → ℕ → ℕ → Db → SurgeStore → SurgeStore
compute_and_update_surge cfg unit scale now db store =
    let zone_of = zone_hash_for unit cfg.zone_bits in
    let requests = zone_counts zone_of (find_open_trip_pickups db) in
    let drivers = zone_counts zone_of (find_online_drivers_with_location db) in
    let zones =
      add_keys (add_keys (add_keys [] (Map.keys requests)) (Map.keys drivers)) (Map.keys store) in
    set_surge_zone_states store (
      for_each zones
        (λ states z. Map.set states z (
          zone_state cfg scale now (Map.get store z) (or_default (Map.get requests z) 0)
            (or_default (Map.get drivers z) 0)))
        [])

unfoldable pub get_surge_multiplier_for_location : SurgeRuntimeConfig → ℕ → SurgeStore → LatLng → ℕ
get_surge_multiplier_for_location cfg unit store p =
    multiplier_of (Map.get store (zone_hash_for unit cfg.zone_bits p)) cfg.min_multiplier

-- The center's coordinates count fractions of a degree as those of `decode` do.
pub record SurgeZoneInfo : Type 0 where
  pub zone_id : ℕ
  pub center : LatLng
  pub multiplier : ℕ
  pub request_count : ℕ
  pub driver_count : ℕ
  pub updated_at : ℕ

unfoldable pub zone_info : SurgeRuntimeConfig → ℕ × SurgeZoneState → SurgeZoneInfo
zone_info cfg (zone, s) =
    let decoded = decode zone cfg.zone_bits in
    record {
      zone_id = zone;
      center = record { lat = decoded.lat; lng = decoded.lng };
      multiplier = s.multiplier;
      request_count = s.request_count;
      driver_count = s.driver_count;
      updated_at = s.updated_at_ms;
    }

unfoldable pub get_all_surge_zones : SurgeRuntimeConfig → SurgeStore → List SurgeZoneInfo
get_all_surge_zones cfg [] = []
get_all_surge_zones cfg (row ∷ rest) = zone_info cfg row ∷ get_all_surge_zones cfg rest

-- The loop that starts the runs.
abbrev pub start_surge_update_loop : Interval → ℕ → Interval
start_surge_update_loop = Interval.start_loop

abbrev pub stop_surge_update_loop : Interval → Interval
stop_surge_update_loop = Interval.stop_loop
