-- ===== src/Fare.antt =====
-- core/src/services/fare.service.ts. Cents and distances are numbers, and the quotients that the code takes in
-- floating point are exact: the subtotal counts `60000 * speed`-ths of a cent. The distance between two places
-- (core/src/services/haversine.ts) is an argument; a multiplier counts `scale`-ths, as in Surge.
mod Tests
pub mod Parts
use ride_location_tracking_e.Common.{ℕ, ◌+◌, ◌*◌, ◌/◌}
use ride_location_tracking_e.Domain.{LatLng}
use ride_location_tracking_e.Surge.{
  SurgeStore, SurgeRuntimeConfig, get_surge_multiplier_for_location,
}

-- `config.fareBaseCents` and the two rates.
pub record FareConfig : Type 0 where
  pub base_cents : ℕ
  pub per_km_cents : ℕ
  pub per_minute_cents : ℕ

pub record FareEstimate : Type 0 where
  pub base_cents : ℕ
  pub distance_cents : ℕ
  pub time_cents : ℕ
  pub subtotal_cents : ℕ
  pub surge_multiplier : ℕ
  pub total_cents : ℕ

-- `Math.round(n / d)`
unfoldable pub round_ratio : ℕ → ℕ → ℕ
round_ratio n d = (2 * n + d) / (2 * d)

-- `baseCents + distanceCents + timeCents`, in `60000 * speed`-ths.
unfoldable pub exact_subtotal : FareConfig → ℕ → ℕ → ℕ
exact_subtotal rates distance speed =
    rates.base_cents * (60000 * speed)
    + distance * rates.per_km_cents * (60 * speed)
    + distance * rates.per_minute_cents * 1000

unfoldable pub fare_of : FareConfig → ℕ → ℕ → ℕ → ℕ → FareEstimate
fare_of rates scale speed distance multiplier = record {
  base_cents = rates.base_cents;
  distance_cents = round_ratio (distance * rates.per_km_cents) 1000;
  time_cents = round_ratio (distance * rates.per_minute_cents) (60 * speed);
  subtotal_cents = round_ratio (exact_subtotal rates distance speed) (60000 * speed);
  surge_multiplier = multiplier;
  total_cents =
      round_ratio (exact_subtotal rates distance speed * multiplier) (60000 * speed * scale);
}

unfoldable pub estimate_fare :
    (LatLng → LatLng → ℕ)
    → FareConfig
    → SurgeRuntimeConfig
    → ℕ
    → ℕ
    → SurgeStore
    → LatLng
    → LatLng
    → ℕ
    → FareEstimate
estimate_fare haversine_distance_meters rates cfg unit scale store pickup dropoff speed =
    fare_of rates scale speed (haversine_distance_meters pickup dropoff)
      (get_surge_multiplier_for_location cfg unit store pickup)
