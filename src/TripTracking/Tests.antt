-- ===== src/TripTracking/Tests.antt =====
-- A rider who is matched, sees the driver move, and goes on to another trip (frontend/src/hooks).
use ride_location_tracking_e.Common.{
  ℕ, ◌≡◌, refl, Bool, true, false, Option, none, some, List, [], ◌∷◌, ◌++◌, arith, or_default, ap,
  sym,
}
use ride_location_tracking_e.Common.Map
use ride_location_tracking_e.Common.Int.{pos}
use ride_location_tracking_e.Domain.{LatLng, requested, cancelled, busy}
use ride_location_tracking_e.Database.{Trip, Driver, new_driver, no_drivers_available}
use ride_location_tracking_e.Delta.{EncodeMeta}
use ride_location_tracking_e.Sockets.{new_socket, subscribe_trip}
use ride_location_tracking_e.TripTracking.{
  TripTrackingState, TripTracking, subscribed, trip_matched, unsubscribed, error, trip_cancelled,
  initial_tracking_state,
}
use ride_location_tracking_e.Subscriptions.{
  Registry, OutMessage, init, trip_cancelled as by_cancellation,
}
use ride_location_tracking_e.Subscriptions.Calls
use ride_location_tracking_e.Subscriptions.Calls.{Call}
use ride_location_tracking_e.TripTracking.Followed.{broadcasts}
use ride_location_tracking_e.TripTracking.Followed.Riders.{Sees, SeesAt}
use ride_location_tracking_e.TripTracking.Followed.Driven.{handle_all-Sees}
use ride_location_tracking_e.Connections.{
  ThrottleState, LocationUpdate, new_throttle, handle_location_message, flush_pending, is_due,
}
use ride_location_tracking_e.DriverMessages.{
  Driving, untyped, is_valid_location, is_timely, on_driver_frame, on_throttle, on_flush_timer,
  refuse, release,
}
use ride_location_tracking_e.DriverMessages.Received.{
  Event as DriverEvent, frame, timer, handle, handle_all, last_noted,
}
use ride_location_tracking_e.TripTracking.Followed.Flushed.{subscribed as at_subscription, since}
use ride_location_tracking_e.Eta.Replies.{refused}
use ride_location_tracking_e.Eta.Service.{Engines, EtaRuntimeConfig, heuristic}
use ride_location_tracking_e.Batch.{Core, idle, enqueue_location_update}
use ride_location_tracking_e.Batch.Flush.{flush_amid, tick}
use ride_location_tracking_e.TripTracking.Followed.Waiting.{waiting_rider-Sees}
use ride_location_tracking_e.TripTracking.Status.{
  Event, message, fetched, take_all, settled_last, named, asks_for, status_and_fetches,
}

abbrev place : ℕ → LatLng × EncodeMeta
place n =
    (record { lat = pos n; lng = pos 50 }, record { driver_id = 7; timestamp = 20; status = busy })

abbrev matched_screen : TripTrackingState
matched_screen = record initial_tracking_state { driver_id = some 7 }

abbrev all_open : ℕ → Bool
all_open s = true

abbrev any_size : OutMessage → ℕ
any_size m = 90

abbrev moved_to : ℕ → Call
moved_to n = Calls.broadcast 7 (record { position = (place n).0; meta = (place n).1 })

-- Socket 2 watches driver 7 from before; it leaves while socket 1 follows trip 50.
abbrev ride : List Call
ride =
    moved_to 1000
    ∷ Calls.subscribe_driver 3 7
    ∷ Calls.matched 50 7
    ∷ Calls.disconnect 2
    ∷ moved_to 1007
    ∷ []

abbrev watched : List Call
watched = Calls.subscribe_driver 2 7 ∷ Calls.subscribe_trip 1 49 none ∷ []

-- While the rider waits, driver 7 moves, and another trip is matched to it and ends.
abbrev wait : List Call
wait = moved_to 990 ∷ Calls.matched 51 7 ∷ Calls.ended 51 by_cancellation ∷ []

abbrev asked_with : Option ℕ → Registry
asked_with d =
    Calls.perform all_open any_size 10 (Calls.perform_all all_open any_size 10 init watched)
      (Calls.subscribe_trip 1 50 d)

-- Nothing answers.
abbrev engines : Engines
engines = record {
  ml_service = λ a b n. refused;
  osrm = λ a b n. refused;
  haversine = λ a b. 0;
  local_hour = λ n. 8;
}

abbrev cfg : EtaRuntimeConfig
cfg = record {
  avg_speed = 8;
  scale = 1;
  recompute_interval_ms = 5000;
  recompute_distance_meters = 100;
  stale_location_ms = 60000;
  mode = heuristic;
  ml_cache_ttl_ms = 30000;
  osrm_enabled = false;
}

abbrev row_7 : Driver
row_7 = new_driver 5 (record { name = "Ada"; vehicle = "red"; status = some busy; location = none })

-- The batch has a position of a driver without a row.
abbrev idle_core : Core
idle_core = record {
  pending_batch = (9, record { position = (place 900).0; timestamp = 30 }) ∷ [];
  stage = idle;
  stores = record {
    db = record { trips = []; drivers = (7, row_7) ∷ [] };
    live = record { geo = []; states = [] };
    registry = since all_open any_size 10 watched ride 1 50 7;
    cache = [];
  };
}

-- Driver 7 is on socket 8.
abbrev ready : Driving
ready = record {
  sockets = record {
    connections = (7, 8) ∷ [];
    throttles = (8, new_throttle) ∷ [];
    tracked = [];
    ended = [];
  };
  offers = record { pending = []; timers = []; settled = [] };
  core = idle_core;
  errors = [];
}

abbrev held_back : Option ThrottleState → Option LocationUpdate
held_back none = none
held_back (some t) = t.pending

abbrev sends : ℕ → ℕ → DriverEvent
sends n now = frame 8 7 now (untyped (some (record { position = (place n).0; timestamp = now })))

-- The second position waits for the throttle's timer; the third is out of range.
abbrev frames : List DriverEvent
frames = sends 1009 1100 ∷ sends 1015 1200 ∷ sends 9999 1300 ∷ timer 8 7 2100 ∷ []

abbrev delivered : Core
delivered =
    flush_amid all_open any_size 10 engines cfg
      (handle_all all_open 100 5000 1000 ready frames).core (tick ∷ []) 2200 [] 2210 [] 2220

handle_all-Sees_example :
    SeesAt 10 1 7 2
      (record { lat = pos 1015; lng = pos 50; status = busy })
      (at_subscription all_open any_size 10 watched ride 1 50 7)
      (some (matched_screen, false))
      delivered.stores.registry
unfolding Map.get broadcasts last_noted is_valid_location is_timely handle_all handle
    on_driver_frame on_throttle on_flush_timer flush_pending handle_location_message is_due
    new_throttle Map.set refuse release enqueue_location_update
handle_all-Sees_example =
    handle_all-Sees all_open any_size 10 watched ride 1 50 7 engines cfg 100 5000 1000 8 frames
      (tick ∷ []) [] [] 2200 2210 2220 ready matched_screen
      (record { position = (place 1015).0; timestamp = 1200 }) row_7 (omega arith) refl refl
      (refl, (refl, ((λ e. refl), (refl, (refl, tt))))) refl refl refl (refl, tt) refl refl
      (refl, (refl, (refl, (refl, tt)))) refl (λ t e. sym (ap held_back e))

waiting_rider-Sees_example :
    Sees all_open any_size 10 1 50 7
      (place 1000)
      (place 1007 ∷ [])
      (asked_with none)
      (some (initial_tracking_state, false))
      (Calls.perform_all all_open any_size 10
        (Calls.perform all_open any_size 10
          (Calls.perform_all all_open any_size 10 (asked_with none) wait)
          (Calls.matched 50 7))
        ride)
unfolding broadcasts
waiting_rider-Sees_example =
    waiting_rider-Sees all_open any_size 10 watched wait ride 1 50 7 initial_tracking_state
      (place 1000) (place 1007 ∷ []) (omega arith) refl (tt, (refl, (refl, tt)))
      (refl, (refl, ((λ e. refl), (refl, (refl, tt))))) refl

abbrev tracking_50 : TripTracking
tracking_50 = record {
  socket = record { base = new_socket; subscribe_message = some (subscribe_trip 50) };
  current_trip_id = some 50;
  tracking = initial_tracking_state;
  fetches = [];
}

abbrev row_50 : Trip
row_50 = record {
  rider_id = 1;
  driver_id = some 7;
  status = cancelled;
  pickup = record { lat = pos 47; lng = pos 8 };
  dropoff = record { lat = pos 48; lng = pos 8 };
  requested_at = 10;
  matched_at = some 20;
  started_at = none;
  completed_at = none;
  distance_meters = none;
  duration_seconds = none;
  cancellation_reason = some no_drivers_available;
}

abbrev story : List Event
story =
    message (subscribed none)
    ∷ message (trip_matched (some 7))
    ∷ message (unsubscribed trip_cancelled)
    ∷ fetched (some row_50)
    ∷ message (error true)
    ∷ fetched none
    ∷ []

status_and_fetches_example :
    ((take_all 10 tracking_50 story).tracking.status
      ≡ or_default (settled_last story) (named story requested))
    × ((take_all 10 tracking_50 story).fetches ≡ [] ++ asks_for 50 story)
status_and_fetches_example = status_and_fetches 10 story tracking_50 50 refl

-- Two requests: for the cancellation, and for the refusal.
two_asked : asks_for 50 story ≡ 50 ∷ 50 ∷ []
unfolding asks_for
two_asked = refl
