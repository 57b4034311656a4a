-- ===== src/Eta/Tests.antt =====
-- The theorems on estimates at one trip (core/src/services/eta.service.ts), whose prediction service is down.
use ride_location_tracking_e.Common.{
  ℕ, ◌+◌, ◌*◌, ◌≤◌, ◌<◌, ◌≡◌, ◌↔◌, refl, Bool, true, false, Option, none, some, List, [], ◌∷◌,
  arith, for_each, if◌then◌else◌,
}
use ride_location_tracking_e.Common.Map
use ride_location_tracking_e.Common.Map.{Map}
use ride_location_tracking_e.Common.Int.{pos}
use ride_location_tracking_e.Domain.{LatLng, matched, busy}
use ride_location_tracking_e.Database.{Db, Trip, Driver}
use ride_location_tracking_e.Eta.Replies.{
  Reply, refused, responded, number, finite, string, object, array, nil, cons, end, field,
}
use ride_location_tracking_e.Eta.Clients.{
  MlEtaPrediction, FailureReason, success, failure, fetch_ml_eta, fetch_osrm_route,
}
use ride_location_tracking_e.Eta.Usable.{IsPrediction, reason_of, fetch_ml_eta-IsPrediction}
use ride_location_tracking_e.Eta.Heuristic.{estimate_eta}
use ride_location_tracking_e.Eta.Service.{
  Engines, EtaRuntimeConfig, CachedEta, BatchLocationUpdate, EtaResult, maybe_recompute_eta,
  get_trip_eta, handle_driver_location_update, handle_driver_location_updates_batch, entries_ended,
  ml_with_fallback,
}
use ride_location_tracking_e.Eta.Service
use ride_location_tracking_e.Eta.Answers.{IsCurrent, get_trip_eta-IsCurrent}
use ride_location_tracking_e.Eta.Batch.{active_count, batch-eq-for_each}

abbrev home : LatLng
home = record { lat = pos 47; lng = pos 8 }

abbrev work : LatLng
work = record { lat = pos 48; lng = pos 8 }

abbrev trip : Trip
trip = record {
  rider_id = 1;
  driver_id = some 5;
  status = matched;
  pickup = home;
  dropoff = work;
  requested_at = 5;
  matched_at = some 6;
  started_at = none;
  completed_at = none;
  distance_meters = none;
  duration_seconds = none;
  cancellation_reason = none;
}

abbrev ada : Driver
ada = record {
  name = "Ada";
  vehicle = "van";
  status = busy;
  location = some work;
  last_updated_at = 900;
  created_at = 0;
}

abbrev db : Db
db = record { trips = (9, trip) ∷ []; drivers = (5, ada) ∷ [] }

abbrev engines : Engines
engines = record {
  ml_service = λ a b n. refused;
  osrm = λ a b n. refused;
  haversine = λ a b. 0;
  local_hour = λ n. 8;
}

abbrev cfg : EtaRuntimeConfig
cfg = record {
  avg_speed = 10;
  scale = 1;
  recompute_interval_ms = 5000;
  recompute_distance_meters = 100;
  stale_location_ms = 30000;
  mode = ml_with_fallback;
  ml_cache_ttl_ms = 15000;
  osrm_enabled = true;
}

abbrev no_cache : Map CachedEta
no_cache = []

abbrev answer : EtaResult
answer = record {
  status = Service.ok;
  eta_seconds = some 0;
  distance_meters = some 0;
  computed_at = some 1000;
  driver_location_age_ms = some (pos 100);
  eta_source = some Service.ml_fallback;
  served_from_cache = some false;
}

get_trip_eta-IsCurrent_example :
    IsCurrent engines cfg db 9 1000 (get_trip_eta engines cfg db no_cache 9 1000).0 answer
unfolding get_trip_eta ride_location_tracking_e.Database.find_trip_by_id Map.get Service.eta_of_trip
    Service.eta_of_driver ride_location_tracking_e.Database.find_driver_by_id Service.eta_at
    ride_location_tracking_e.Common.Int.◌-ℤ◌ Service.from_cached maybe_recompute_eta
    Service.should_recompute Service.compute_eta_for_mode fetch_ml_eta Service.without_ml
    Service.compute_heuristic_eta fetch_osrm_route Service.straight_line estimate_eta
    ride_location_tracking_e.Eta.Heuristic.get_rush_hour_multiplier Service.build_cached_eta
    Service.store_outcome
get_trip_eta-IsCurrent_example =
    get_trip_eta-IsCurrent engines cfg db no_cache 9 1000 answer refl refl

abbrev batch : List BatchLocationUpdate
batch =
    record { driver_id = 5; position = work; timestamp_ms = 1000 }
    ∷ record { driver_id = 6; position = home; timestamp_ms = 1000 }
    ∷ []

one_row : active_count 5 db.trips ≤ 1
unfolding active_count
one_row = omega arith

no_row : active_count 6 db.trips ≤ 1
unfolding active_count
no_row = omega arith

-- The second entry stores first.
abbrev other_order : List BatchLocationUpdate
other_order =
    record { driver_id = 6; position = home; timestamp_ms = 1000 }
    ∷ record { driver_id = 5; position = work; timestamp_ms = 1000 }
    ∷ []

abbrev alone : Map CachedEta → BatchLocationUpdate → Map CachedEta
alone c u = handle_driver_location_update engines cfg db c u.driver_id u.position u.timestamp_ms

batch-eq-for_each_example :
    (handle_driver_location_updates_batch engines cfg db no_cache batch
      ≡ for_each batch alone no_cache)
    × (entries_ended engines cfg db no_cache batch other_order
        ≡ for_each other_order alone no_cache)
unfolding ride_location_tracking_e.Common.KeySet.has Map.get
batch-eq-for_each_example =
    batch-eq-for_each engines cfg db no_cache batch other_order (one_row, (no_row, tt))
      (refl, (refl, tt)) (no_row, (one_row, tt)) (refl, (refl, tt)) (refl, (refl, tt)) (refl, tt)

abbrev reply : Reply
reply = responded 200 (
    some (
      object (
        field "predicted_duration_seconds" (number (finite (pos 300))) (
          field "distance_meters" (number (finite (pos 2000)))
            (field "model_version" (string "v3") end)))))

abbrev predicted : MlEtaPrediction
predicted = record { eta_seconds = 300; distance_meters = 2000; model_version = "v3" }

fetch_ml_eta-IsPrediction_example :
    ((fetch_ml_eta reply ≡ success predicted) ↔ IsPrediction reply predicted)
    × ((f : FailureReason) → fetch_ml_eta reply ≡ failure f → f ≡ reason_of reply)
fetch_ml_eta-IsPrediction_example = fetch_ml_eta-IsPrediction reply predicted

abbrev routes : Reply
routes = responded 200 (
    some (
      object (
        field "code" (string "Ok") (
          field "routes"
            (array (
              cons
                (object (
                  field "distance" (number (finite (pos 900)))
                    (field "duration" (number (finite (pos 60))) end)))
                nil))
            end))))
