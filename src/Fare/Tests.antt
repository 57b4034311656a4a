-- ===== src/Fare/Tests.antt =====
-- A fare in a zone whose multiplier is 1.5 (core/src/services/fare.service.ts).
use ride_location_tracking_e.Common.{◌+◌, ◌*◌, ◌≤◌, [], ◌∷◌, arith}
use ride_location_tracking_e.Common.Map
use ride_location_tracking_e.Common.Int.{pos}
use ride_location_tracking_e.Domain.{LatLng}
use ride_location_tracking_e.Surge.{SurgeStore, SurgeRuntimeConfig, zone_hash_for}
use ride_location_tracking_e.Surge.Step.{StoredInRange}
use ride_location_tracking_e.Fare.{FareConfig, estimate_fare}
use ride_location_tracking_e.Fare.Parts.{fare_adds_up}

abbrev config : SurgeRuntimeConfig
config = record {
  zone_bits = 12;
  update_interval_ms = 15000;
  min_multiplier = 100;
  max_multiplier = 300;
  min_sample_requests = 2;
  max_change_per_interval = 50;
}

abbrev rates : FareConfig
rates = record { base_cents = 250; per_km_cents = 125; per_minute_cents = 35 }

abbrev home : LatLng
home = record { lat = pos 47; lng = pos 8 }

abbrev surged : SurgeStore
surged =
    (
      zone_hash_for 1 12 home,
      record { multiplier = 150; request_count = 3; driver_count = 2; updated_at_ms = 9 },
    )
    ∷ []

surged-StoredInRange : StoredInRange config surged
unfolding Map.get
surged-StoredInRange z s e = ground arith

fare_adds_up_example :
    let f = estimate_fare (λ p q. 5300) rates config 1 100 surged home home 8 in
    (f.subtotal_cents ≤ f.base_cents + f.distance_cents + f.time_cents + 1)
    × (f.base_cents + f.distance_cents + f.time_cents ≤ f.subtotal_cents + 1)
    × (f.subtotal_cents ≤ f.total_cents)
    × (f.total_cents * (2 * 100) ≤ (2 * f.subtotal_cents + 1) * 300 + 100)
fare_adds_up_example =
    fare_adds_up (λ p q. 5300) rates config 1 100 surged home home 8 (omega arith) (omega arith)
      (omega arith) (omega arith) surged-StoredInRange
