-- ===== src/TripOffers.antt =====
-- core/src/ws/trip-offers.ts: the promises of `waitForDriverResponse`, each a number of its own, with their
-- timers. A promise that is settled stays as it is.
mod Tests
pub mod Waits
use ride_location_tracking_e.Common.{ℕ, Bool, true, false, Option, none, some, List, [], ◌∷◌}
use ride_location_tracking_e.Common.Map
use ride_location_tracking_e.Common.Map.{Map}

pub record Offers : Type 0 where
  -- `pendingOffers`: the wait that a response to the trip resolves.
  pub pending : Map ℕ
  -- The trip of each running timer.
  pub timers : Map ℕ
  -- What the settled promises hold.
  pub settled : Map Bool

-- `resolve(accepted)`
unfoldable pub resolve : Map Bool → ℕ → Bool → Map Bool
resolve settled wait accepted = elim (Map.get settled wait) [
  | none ↦ Map.set settled wait accepted
  | some earlier ↦ settled
]

unfoldable pub wait_for_driver_response : Offers → ℕ → ℕ → Offers
wait_for_driver_response o wait trip_id = record {
  pending = Map.set o.pending trip_id wait;
  timers = Map.set o.timers wait trip_id;
  settled = o.settled;
}

-- The timer's callback.
unfoldable pub on_timeout : Offers → ℕ → ℕ → Offers
on_timeout o wait trip_id = record {
  pending = Map.delete o.pending trip_id;
  timers = Map.delete o.timers wait;
  settled = resolve o.settled wait false;
}

unfoldable pub handle_driver_response : Offers → ℕ → Bool → Offers × Bool
handle_driver_response o trip_id accepted = elim (Map.get o.pending trip_id) [
  | none ↦ (o, false)
  | some wait ↦ (
    record {
      pending = Map.delete o.pending trip_id;
      timers = Map.delete o.timers wait;
      settled = resolve o.settled wait accepted;
    },
    true,
  )
]
