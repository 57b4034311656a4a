-- ===== src/DriverOffer.antt =====
-- frontend/src/hooks/driverOfferReducer.ts: the driver's offer state machine. A message is what the reducer reads
-- of it: `none` for a field that is missing or of another type, and for an empty id.
mod Tests
pub mod Flow
use ride_location_tracking_e.Common.{
  ℕ, ◌+◌, Bool, true, false, ◌&&◌, Option, none, some, if◌then◌else◌, ◌==◌,
}
use ride_location_tracking_e.Domain.{LatLng}

pub record OfferDetails : Type 0 where
  pub trip_id : ℕ
  pub pickup : LatLng
  pub dropoff : LatLng
  pub offer_timeout_ms : ℕ

pub data ExpiryReason : Type 0 where
  no_response too_late : ExpiryReason

pub data DriverOfferPhase : Type 0 where
  idle : DriverOfferPhase
  offered : OfferDetails → ℕ → DriverOfferPhase
  responding : OfferDetails → ℕ → ℕ → DriverOfferPhase
  expired : ℕ → ExpiryReason → DriverOfferPhase
  declined : ℕ → DriverOfferPhase
  matched : ℕ → LatLng → LatLng → DriverOfferPhase

abbrev pub initial_offer_phase : DriverOfferPhase
initial_offer_phase = idle

abbrev pub confirmation_grace_ms : ℕ
confirmation_grace_ms = 2000

-- `none` is the effect 'none'.
pub record TripResponse : Type 0 where
  pub trip_id : ℕ
  pub accept : Bool

pub data Message : Type 0 where
  trip_offer : Option ℕ → Option ℕ → Option LatLng → Option LatLng → Message
  trip_matched : Option ℕ → Message
  -- No object, or of another type.
  other : Message

pub data DriverOfferEvent : Type 0 where
  message : Message → ℕ → DriverOfferEvent
  accept decline deadline_elapsed grace_elapsed : DriverOfferEvent

-- An offer with all its fields.
abbrev pub details : Option ℕ → Option ℕ → Option LatLng → Option LatLng → Option OfferDetails
details (some t) (some ms) (some p) (some d) =
    some (record { trip_id = t; pickup = p; dropoff = d; offer_timeout_ms = ms })
details _ _ _ _ = none

abbrev pub is_matched : DriverOfferPhase → Bool
is_matched (matched t p d) = true
is_matched _ = false

unfoldable pub on_offer : DriverOfferPhase → Option OfferDetails → ℕ → DriverOfferPhase
on_offer state none now = state
on_offer state (some offer) now =
    if is_matched state then state else offered offer (now + offer.offer_timeout_ms)

unfoldable pub on_matched : DriverOfferPhase → Option ℕ → DriverOfferPhase
on_matched (offered offer deadline) (some t) =
    if offer.trip_id == t then matched t offer.pickup offer.dropoff else offered offer deadline
on_matched (responding offer deadline grace) (some t) =
    if offer.trip_id == t
    then matched t offer.pickup offer.dropoff
    else responding offer deadline grace
on_matched state _ = state

unfoldable pub apply_driver_offer_event :
    DriverOfferPhase → DriverOfferEvent → DriverOfferPhase × Option TripResponse
apply_driver_offer_event state (message (trip_offer t ms p d) now) =
    (on_offer state (details t ms p d) now, none)
apply_driver_offer_event state (message (trip_matched t) now) = (on_matched state t, none)
apply_driver_offer_event state (message other now) = (state, none)
apply_driver_offer_event (offered offer deadline) accept = (
  responding offer deadline (deadline + confirmation_grace_ms),
  some (record { trip_id = offer.trip_id; accept = true }),
)
apply_driver_offer_event (offered offer deadline) decline =
    (declined offer.trip_id, some (record { trip_id = offer.trip_id; accept = false }))
apply_driver_offer_event (offered offer deadline) deadline_elapsed =
    (expired offer.trip_id no_response, none)
apply_driver_offer_event (responding offer deadline grace) grace_elapsed =
    (expired offer.trip_id too_late, none)
apply_driver_offer_event state _ = (state, none)
