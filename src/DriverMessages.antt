-- ===== src/DriverMessages.antt =====
-- core/src/ws/driver-connections.ts: what a driver's socket sends, with the schemas of core/src/ws/messages.ts that it
-- reads. A response goes to TripOffers, a position through the throttle of Connections into the batch of Batch. What
-- `JSON.parse` and the schemas' shapes make of a frame is an argument; a coordinate counts `unit`-ths of a degree.
mod Tests
pub mod Kept
pub mod Received
pub mod Untouched
use ride_location_tracking_e.Common.{
  ℕ, ◌+◌, ◌-◌, ◌*◌, Bool, true, false, ◌&&◌, Option, none, some, List, [], ◌∷◌, ◌++◌, if◌then◌else◌,
  leb,
}
use ride_location_tracking_e.Common.Int.{pos_part, neg_part}
use ride_location_tracking_e.Common.Map
use ride_location_tracking_e.Common.Map.{Map}
use ride_location_tracking_e.Domain.{LatLng}
use ride_location_tracking_e.Connections.{
  Sockets, ThrottleState, LocationUpdate, handle_location_message, flush_pending,
}
use ride_location_tracking_e.TripOffers.{Offers, handle_driver_response}
use ride_location_tracking_e.Batch.{Core, PendingUpdate, enqueue_location_update}

-- By the presence of a "type": a response, or a position; `none` where the schema's shape refuses.
pub data DriverFrame : Type 0 where
  not_json : DriverFrame
  typed : Option (ℕ × Bool) → DriverFrame
  untyped : Option LocationUpdate → DriverFrame

pub data DriverError : Type 0 where
  malformed_payload refused_message : DriverError

pub record Driving : Type 0 where
  pub sockets : Sockets
  pub offers : Offers
  pub core : Core
  pub errors : List (ℕ × DriverError)

-- `Math.abs(Date.now() - data.timestamp) > toleranceMs`, denied.
unfoldable pub is_timely : ℕ → ℕ → ℕ → Bool
is_timely tolerance_ms now timestamp = leb (now - timestamp + (timestamp - now)) tolerance_ms

unfoldable pub is_valid_location : ℕ → ℕ → ℕ → LocationUpdate → Bool
is_valid_location unit tolerance_ms now u =
    leb (neg_part u.position.lat) (90 * unit)
    && leb (pos_part u.position.lat) (90 * unit)
    && leb (neg_part u.position.lng) (180 * unit)
    && leb (pos_part u.position.lng) (180 * unit)
    && is_timely tolerance_ms now u.timestamp

abbrev pub pending_update : LocationUpdate → PendingUpdate
pending_update u = record { position = u.position; timestamp = u.timestamp }

-- A released update goes into the batch.
unfoldable pub release : Core → ℕ → Option LocationUpdate → Core
release c driver none = c
release c driver (some u) = enqueue_location_update c driver (pending_update u)

-- A change of the throttle of a socket's handler.
unfoldable pub on_throttle :
    Driving → ℕ → ℕ → (ThrottleState → ThrottleState × Option LocationUpdate) → Driving
on_throttle s socket driver change = elim (Map.get s.sockets.throttles socket) [
  | none ↦ s
  | some t ↦
      let r = change t in
      record s {
        sockets = record s.sockets { throttles = Map.set s.sockets.throttles socket r.0 };
        core = release s.core driver r.1;
      }
]

unfoldable pub refuse : (ℕ → Bool) → Driving → ℕ → DriverError → Driving
refuse is_open s socket e =
    if is_open socket then record s { errors = s.errors ++ (socket, e) ∷ [] } else s

module _ (is_open : ℕ → Bool) (unit tolerance_ms throttle_ms : ℕ) where
  unfoldable pub on_driver_frame : Driving → ℕ → ℕ → ℕ → DriverFrame → Driving
  on_driver_frame s socket driver now not_json = refuse is_open s socket malformed_payload
  on_driver_frame s socket driver now (typed none) = refuse is_open s socket refused_message
  on_driver_frame s socket driver now (typed (some (trip, accept))) = record s {
    offers = (handle_driver_response s.offers trip accept).0;
  }
  on_driver_frame s socket driver now (untyped none) = refuse is_open s socket refused_message
  on_driver_frame s socket driver now (untyped (some u)) =
      if is_valid_location unit tolerance_ms now u
      then on_throttle s socket driver (λ t. handle_location_message throttle_ms now t u)
      else refuse is_open s socket refused_message

-- The timer of a socket's throttle fires.
unfoldable pub on_flush_timer : Driving → ℕ → ℕ → ℕ → Driving
on_flush_timer s socket driver now = on_throttle s socket driver (λ t. flush_pending now t)
