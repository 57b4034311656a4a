-- ===== src/TripTracking.antt =====
-- frontend/src/hooks/tripTrackingReducer.ts and useTripTracking.ts: what a rider sees of a trip. A message is what the
-- reducer reads of it: `none` for an id that is missing or of another type; an error counts as its text's match with
-- /already ended/i. The state is `none` where the code throws. The React state copies `trackingRef` and is left out.
mod Tests
pub mod Shown
pub mod Status
pub mod Fetches
pub mod Followed
use ride_location_tracking_e.Common.{
  ℕ, Bool, true, false, ◌&&◌, Option, none, some, List, [], ◌∷◌, ◌++◌, if◌then◌else◌, opt_is,
  is_some,
}
use ride_location_tracking_e.Domain.{
  TripStatus, requested, matched, in_progress, completed, cancelled,
}
use ride_location_tracking_e.Database.{Trip, CancellationReason}
use ride_location_tracking_e.Delta.{
  LastKnownState, LocationBroadcastPayload, location, delta, decode_location_message,
}
use ride_location_tracking_e.Sockets.{SubscriberSocket, subscribe_to_trip, end_subscription}

pub record TripTrackingState : Type 0 where
  pub status : TripStatus
  pub driver_id : Option ℕ
  pub driver_position : Option LastKnownState
  pub cancellation_reason : Option CancellationReason

abbrev pub initial_tracking_state : TripTrackingState
initial_tracking_state = record {
  status = requested;
  driver_id = none;
  driver_position = none;
  cancellation_reason = none;
}

pub data UnsubscribeReason : Type 0 where
  trip_completed trip_cancelled other_reason : UnsubscribeReason

pub data TripMessage : Type 0 where
  subscribed trip_matched : Option ℕ → TripMessage
  broadcast : LocationBroadcastPayload → TripMessage
  unsubscribed : UnsubscribeReason → TripMessage
  error : Bool → TripMessage
  unknown : TripMessage

abbrev pub driver_of : LocationBroadcastPayload → ℕ
driver_of (location m) = m.driver_id
driver_of (delta m) = m.driver_id

-- `state.status === "requested" ? "matched" : state.status`
unfoldable pub status_with_driver : TripStatus → TripStatus
status_with_driver requested = matched
status_with_driver matched = matched
status_with_driver in_progress = in_progress
status_with_driver completed = completed
status_with_driver cancelled = cancelled

-- The new state, and whether the effect is 'resolve_final_state'.
abbrev pub Applied : Type 0
Applied = Option (TripTrackingState × Bool)

-- The broadcast of the trip's driver, decoded.
unfoldable pub shown_at : TripTrackingState → Option LastKnownState → Applied
shown_at s none = none
shown_at s (some p) = some (record s { driver_position = some p }, false)

unfoldable pub apply_trip_message : ℕ → TripTrackingState → TripMessage → Applied
apply_trip_message step s (subscribed none) = some (s, false)
apply_trip_message step s (subscribed (some d)) =
    some (record s { status = status_with_driver s.status; driver_id = some d }, false)
apply_trip_message step s (trip_matched d) =
    some (record s { status = matched; driver_id = d }, false)
apply_trip_message step s (broadcast m) =
    if opt_is s.driver_id (driver_of m)
    then shown_at s (decode_location_message step s.driver_position m)
    else some (s, false)
apply_trip_message step s (unsubscribed trip_completed) =
    some (record s { status = completed }, false)
apply_trip_message step s (unsubscribed trip_cancelled) =
    some (record s { status = cancelled }, true)
apply_trip_message step s (unsubscribed other_reason) = some (s, false)
apply_trip_message step s (error has_ended) = some (s, has_ended)
apply_trip_message step s unknown = some (s, false)

-- The hook's refs, and the trips whose rows it has asked for.
pub record TripTracking : Type 0 where
  pub socket : SubscriberSocket
  pub current_trip_id : Option ℕ
  pub tracking : TripTrackingState
  pub fetches : List ℕ

unfoldable pub asked : Bool → Option ℕ → List ℕ → List ℕ
asked true (some t) fetches = fetches ++ t ∷ []
asked true none fetches = fetches
asked false trip fetches = fetches

-- A message that makes the reducer throw changes nothing.
unfoldable pub apply_message : ℕ → TripTracking → TripMessage → TripTracking
apply_message step h m = elim (apply_trip_message step h.tracking m) [
  | none ↦ h
  | some (next, resolve) ↦ record h {
    tracking = next;
    fetches = asked resolve h.current_trip_id h.fetches;
  }
]

-- An answer to `getTrip`; `none` if it is not ok.
unfoldable pub on_fetched : TripTracking → Option Trip → TripTracking
on_fetched h none = h
on_fetched h (some trip) = record h {
  tracking = record h.tracking {
    status = trip.status;
    driver_id = trip.driver_id;
    cancellation_reason = trip.cancellation_reason;
  };
}

unfoldable pub leave_trip : SubscriberSocket → Option ℕ → SubscriberSocket
leave_trip socket none = socket
leave_trip socket (some t) = end_subscription socket

unfoldable pub enter_trip : SubscriberSocket → Option ℕ → SubscriberSocket
enter_trip socket none = socket
enter_trip socket (some t) = subscribe_to_trip socket t

-- The effect of a new `tripId`.
unfoldable pub on_trip_change : TripTracking → Option ℕ → TripTracking
on_trip_change h trip = record h {
  socket = enter_trip (leave_trip h.socket h.current_trip_id) trip;
  current_trip_id = trip;
  tracking = initial_tracking_state;
}
