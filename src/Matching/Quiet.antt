-- ===== src/Matching/Quiet.antt =====
-- What an attempt to match a trip (core/src/services/matching.service.ts) does when nothing fails and nobody
-- else changes the stores while it runs.
pub mod Offers
pub mod Attempts
pub mod Whole
use ride_location_tracking_e.Common.{
  ℕ, ◌+◌, ◌≡◌, ◌≤◌, ◌<◌, Bool, true, false, ◌&&◌, Option, none, some, List, [], ◌∷◌, if◌then◌else◌,
}
use ride_location_tracking_e.Common.Map
use ride_location_tracking_e.Domain.{busy}
use ride_location_tracking_e.Database.{
  CancellationReason, Trip, can_take, can_drive, take_trip, set_status, update_row, cancel_trip,
}
use ride_location_tracking_e.Live.{World, NearbyDriver, update_driver_status_in_redis}
use ride_location_tracking_e.Lock.{KeyStore}
use ride_location_tracking_e.Matching.{
  Env, State, Attempt, accepted, passed, Result, result, matched, unmatched,
}
use ride_location_tracking_e.Matching.Score.{MatchingRuntimeConfig}

-- Who holds the lock of a driver, who is connected, and who accepts an offer of the trip.
pub record Drivers : Type 0 where
  pub holder : ℕ → Option ℕ
  pub connected : ℕ → Bool
  pub accepts : ℕ → Bool

pub record IsQuiet {Store : Type 0} (env : Env Store) (config : MatchingRuntimeConfig) (trip_id : ℕ)
    (drivers : Drivers) : Type 0 where
  pub same_world : (n : ℕ) (w : World) → env.others n w ≡ w
  pub same_keys : (n : ℕ) (k : Store) → env.other_keys n k ≡ k
  pub no_failure : (n : ℕ) → env.fails n ≡ false
  pub connects : (n d : ℕ) → env.connected n d ≡ drivers.connected d
  pub answers : (n d : ℕ) → env.accepts n trip_id d ≡ drivers.accepts d
  -- An offer, which is four awaited calls at most, ends before its lock does.
  pub in_time :
      (n m : ℕ) → n ≤ m → m ≤ n + 4 → env.clock m < env.clock n + (config.offer_timeout_ms + 5000)

-- At every call up to the last one, a driver's lock is with its holder.
abbrev pub IsSteady : (redis : KeyStore) → Env redis.Store → Drivers → ℕ → redis.Store → Type 0
IsSteady redis env drivers last keys =
    (d n : ℕ) → n ≤ last → redis.get keys (env.clock n) d ≡ drivers.holder d

abbrev pub is_free : Option ℕ → Bool
is_free none = true
is_free (some trip) = false

-- The driver's lock is free, the driver is connected and accepts, and is 'online' in Postgres.
abbrev pub is_willing : Drivers → World → ℕ → Bool
is_willing drivers w d =
    is_free (drivers.holder d)
    && (drivers.connected d && (drivers.accepts d && can_drive (Map.get w.db.drivers d)))

abbrev pub first_willing : Drivers → World → List ℕ → Option ℕ
first_willing drivers w [] = none
first_willing drivers w (d ∷ ds) =
    let rest = first_willing drivers w ds in if is_willing drivers w d then some d else rest

-- The stores once the driver has the trip: its row, the driver's row, and the driver's live status.
abbrev pub taken_world : World → ℕ → Trip → ℕ → ℕ → ℕ → World
taken_world w trip_id trip d now later = record {
  db = record {
    trips = Map.set w.db.trips trip_id (take_trip d now trip);
    drivers = update_row w.db.drivers d (set_status busy now);
  };
  live = update_driver_status_in_redis w.live later d busy;
}

-- What an attempt has done, by the driver who got the trip.
abbrev pub Tried : {S : Type 0} → World → ℕ → Trip → Option ℕ → State S × Attempt → Type 0
Tried w trip_id trip none r = (r.1 ≡ passed) × (r.0.world ≡ w)
Tried w trip_id trip (some d) r =
    (r.1 ≡ accepted)
    × ((now : ℕ) × (later : ℕ) × (r.0.world ≡ taken_world w trip_id trip d now later))

abbrev pub reason_for : List NearbyDriver → CancellationReason
reason_for [] = CancellationReason.no_drivers_available
reason_for (c ∷ cs) = CancellationReason.all_candidates_declined

abbrev pub cancelled_world : World → ℕ → Trip → CancellationReason → World
cancelled_world w trip_id trip reason = record {
  db = record w.db { trips = Map.set w.db.trips trip_id (cancel_trip reason trip) };
  live = w.live;
}

-- What `matchTrip` has done, by the driver who got the trip, and the reason where nobody did.
abbrev pub Ended :
    {S : Type 0} → World → ℕ → Trip → CancellationReason → Option ℕ → State S × Result → Type 0
Ended w trip_id trip reason none r =
    (r.1 ≡ result (unmatched reason) (cancel_trip reason trip))
    × (r.0.world ≡ cancelled_world w trip_id trip reason)
Ended w trip_id trip reason (some d) r =
    (now : ℕ) × (later : ℕ) × (r.1 ≡ result matched (take_trip d now trip))
    × (r.0.world ≡ taken_world w trip_id trip d now later)
