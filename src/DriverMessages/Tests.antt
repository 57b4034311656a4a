-- ===== src/DriverMessages/Tests.antt =====
-- Two drivers who send positions, one of them too fast (core/src/ws/driver-connections.ts).
use ride_location_tracking_e.Common.{ℕ, ◌≡◌, refl, Bool, true, none, some, List, [], ◌∷◌}
use ride_location_tracking_e.Common.Map
use ride_location_tracking_e.Common.Int.{pos}
use ride_location_tracking_e.Subscriptions.{init}
use ride_location_tracking_e.Connections.{new_throttle, LocationUpdate}
use ride_location_tracking_e.Batch.{idle}
use ride_location_tracking_e.DriverMessages.{Driving, untyped, typed, not_json}
use ride_location_tracking_e.DriverMessages.Received.{
  Event, frame, timer, handle_all, last_noted, IsReceived, frames-IsReceived,
}

abbrev all_open : ℕ → Bool
all_open s = true

abbrev at : ℕ → ℕ → LocationUpdate
at lat time = record { position = record { lat = pos lat; lng = pos 8 }; timestamp = time }

abbrev quiet : Driving
quiet = record {
  sockets = record {
    connections = (7, 1) ∷ (9, 2) ∷ [];
    throttles = (1, new_throttle) ∷ (2, new_throttle) ∷ [];
    tracked = [];
    ended = [];
  };
  offers = record { pending = []; timers = []; settled = [] };
  core = record {
    pending_batch = [];
    stage = idle;
    stores = record {
      db = record { trips = []; drivers = [] };
      live = record { geo = []; states = [] };
      registry = init;
      cache = [];
    };
  };
  errors = [];
}

-- The second position of driver 7 waits for the throttle, the third is out of range, and driver 9 sends one too.
abbrev sent : List Event
sent =
    frame 1 7 1000 (untyped (some (at 40 1000)))
    ∷ frame 1 7 1100 (untyped (some (at 41 1100)))
    ∷ frame 2 9 1200 (untyped (some (at 50 1200)))
    ∷ frame 1 7 1300 (untyped (some (at 91 1300)))
    ∷ frame 1 7 1350 not_json
    ∷ timer 1 7 2000
    ∷ frame 1 7 2010 (typed (some (60, true)))
    ∷ []

frames-IsReceived_example :
    IsReceived 1 7
      (handle_all all_open 1 5000 1000 quiet sent)
      (last_noted all_open 1 5000 1000 1 none sent)
unfolding Map.get new_throttle
frames-IsReceived_example =
    frames-IsReceived all_open 1 5000 1000 1 7 sent quiet
      (refl, (refl, (refl, (refl, (refl, (refl, (refl, tt))))))) refl refl

-- The last valid position is the second one.
last_valid : last_noted all_open 1 5000 1000 1 none sent ≡ some (at 41 1100)
unfolding last_noted ride_location_tracking_e.DriverMessages.is_valid_location
    ride_location_tracking_e.DriverMessages.is_timely
last_valid = refl
