-- ===== src/Eta/Heuristic.antt =====
-- core/src/services/eta-heuristic.ts. Seconds and metres are fixed-point numbers, rounded down, and a
-- multiplier is in tenths. The local hour and the haversine distance, which stand on `Date` and on
-- trigonometry, are arguments.
use ride_location_tracking_e.Common.{ℕ, ◌*◌, ◌/◌, ◌&&◌, List, [], ◌∷◌, leb, ltb, if◌then◌else◌}

pub record RushHourWindow : Type 0 where
  pub start_hour : ℕ
  pub end_hour : ℕ
  pub multiplier : ℕ

abbrev pub rush_hour_table : List RushHourWindow
rush_hour_table =
    record { start_hour = 7; end_hour = 9; multiplier = 14 }
    ∷ record { start_hour = 16; end_hour = 19; multiplier = 15 }
    ∷ []

abbrev pub default_multiplier : ℕ
default_multiplier = 10

unfoldable pub get_rush_hour_multiplier : ℕ → List RushHourWindow → ℕ
get_rush_hour_multiplier hour [] = default_multiplier
get_rush_hour_multiplier hour (window ∷ table) =
    if leb window.start_hour hour && ltb hour window.end_hour
    then window.multiplier
    else get_rush_hour_multiplier hour table

pub record EtaEstimate : Type 0 where
  pub eta_seconds : ℕ
  pub distance_meters : ℕ

-- The distance over the average speed (both on one scale, the speed per second), times the multiplier.
unfoldable pub estimate_eta : ℕ → ℕ → ℕ → ℕ → EtaEstimate
estimate_eta scale distance hour avg_speed = record {
  eta_seconds = distance * scale * get_rush_hour_multiplier hour rush_hour_table / (avg_speed * 10);
  distance_meters = distance;
}
