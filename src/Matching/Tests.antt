-- ===== src/Matching/Tests.antt =====
-- The theorems on matching at a trip and two drivers, of whom another trip has locked the nearer
-- (core/src/services/matching.service.ts).
use ride_location_tracking_e.Common.{
  ℕ, refl, true, false, none, some, List, [], ◌∷◌, arith, ◌==◌, if◌then◌else◌,
}
use ride_location_tracking_e.Common.Map
use ride_location_tracking_e.Common.Map.{Map}
use ride_location_tracking_e.Common.Int.{pos}
use ride_location_tracking_e.Domain.{LatLng, online, requested}
use ride_location_tracking_e.Database.{Db, Trip, Driver, empty_db}
use ride_location_tracking_e.Database.Booking.{IsBooked}
use ride_location_tracking_e.Live.{World, NearbyDriver, upsert_driver_location}
use ride_location_tracking_e.Lock.Memory.{memory, Keys, no_keys}
use ride_location_tracking_e.Matching.{Env, State, match_trip}
use ride_location_tracking_e.Matching.Score.{MatchingRuntimeConfig, ScoringInput, ranked}
use ride_location_tracking_e.Matching.Safety.{match_trip-IsBooked}
use ride_location_tracking_e.Matching.Locks.{
  IsReturned, has_thrown, open_locks, match_trip-IsReturned,
}
use ride_location_tracking_e.Matching.Quiet.{Drivers, IsQuiet, Ended, reason_for, first_willing}
use ride_location_tracking_e.Matching.Quiet.Whole.{candidates_at, match_trip-Ended}

abbrev home : LatLng
home = record { lat = pos 47; lng = pos 8 }

abbrev ada : Driver
ada = record {
  name = "Ada";
  vehicle = "van";
  status = online;
  location = some home;
  last_updated_at = 0;
  created_at = 0;
}

abbrev trip : Trip
trip = record {
  rider_id = 1;
  driver_id = none;
  status = requested;
  pickup = home;
  dropoff = home;
  requested_at = 5;
  matched_at = none;
  started_at = none;
  completed_at = none;
  distance_meters = none;
  duration_seconds = none;
  cancellation_reason = none;
}

abbrev world : World
world = record {
  db = record { trips = (9, trip) ∷ []; drivers = (3, ada) ∷ (4, ada) ∷ [] };
  live =
      upsert_driver_location
        (upsert_driver_location (record { geo = []; states = [] }) 100 3 home online) 100 4 home
        online;
}

abbrev config : MatchingRuntimeConfig
config = record {
  search_radius_meters = 5000;
  max_candidates = 10;
  offer_timeout_ms = 15000;
  distance_weight = 6;
  idle_time_weight = 3;
  rating_weight = 1;
  max_idle_time_ms = 600000;
}

abbrev env : Env Keys
env = record {
  others = λ n w. w;
  other_keys = λ n k. k;
  fails = λ n. false;
  connected = λ n d. true;
  accepts = λ n t d. d == 4;
  clock = λ n. 200;
  geosearch = λ geo center radius count.
      record { driver_id = 3; distance_meters = 10; position = home }
      ∷ record { driver_id = 4; distance_meters = 20; position = home }
      ∷ [];
  driver_stale_ms = 1000;
  id_codes = λ d. d ∷ [];
}

abbrev start : State Keys
start = record { world = world; keys = no_keys; tick = 0; log = [] }

-- The nearest driver's lock is held by another trip, for a second from the start.
abbrev taken : Keys
taken j = if j == 3 then some (8, 1200) else none

abbrev drivers : Drivers
drivers = record {
  holder = λ d. if d == 3 then some 8 else none;
  connected = λ d. true;
  accepts = λ d. true;
}

abbrev all_accept : Env Keys
all_accept = record env { accepts = λ n t d. true }

quiet : IsQuiet all_accept config 9 drivers
quiet = record {
  same_world = λ n w. refl;
  same_keys = λ n k. refl;
  no_failure = λ n. refl;
  connects = λ n d. refl;
  answers = λ n d. refl;
  in_time = λ n m a b. omega arith;
}

match_trip-Ended_example :
    Ended world 9 trip
      (reason_for (candidates_at all_accept config world trip 1))
      (first_willing drivers world
        (ranked config 200 all_accept.id_codes (candidates_at all_accept config world trip 1)))
      (match_trip memory all_accept config (record start { keys = taken }) 9)
unfolding Map.get ride_location_tracking_e.Database.can_take
match_trip-Ended_example =
    match_trip-Ended memory all_accept config drivers (record start { keys = taken }) 9 trip quiet
      (λ d n before. ground arith) refl refl

match_trip-IsReturned_example : IsReturned memory env config (open_locks []) 9 (
  (match_trip memory env config start 9).0,
  has_thrown memory env config (match_trip memory env config start 9).1,
)
match_trip-IsReturned_example = match_trip-IsReturned memory env config start 9

booked : IsBooked world.db
unfolding Map.get
booked = record {
  exclusive = λ t u d h k. ground (arith, h, k);
  engaged = λ t d h. ground (arith, h);
}

match_trip-IsBooked_example : IsBooked (match_trip memory env config start 9).0.world.db
match_trip-IsBooked_example = match_trip-IsBooked memory env config start 9 (λ n w v. v) booked

abbrev near : ScoringInput
near = record { distance_meters = 100; idle_time_ms = pos 5000; rating_score = pos 400 }

abbrev far : ScoringInput
far = record { distance_meters = 900; idle_time_ms = pos 5000; rating_score = pos 300 }

abbrev nearby : ℕ → ℕ → NearbyDriver
nearby d m = record { driver_id = d; distance_meters = m; position = home; online_since_ms = none }

abbrev three : List NearbyDriver
three = nearby 1 30 ∷ nearby 2 50 ∷ nearby 3 30 ∷ []
