-- ===== src/DriverMessages/Untouched.antt =====
-- What a driver's frames leave alone, and how the batch stays a map (core/src/ws/driver-connections.ts,
-- core/src/ws/location-batch.ts).
use ride_location_tracking_e.Common.{
  ℕ, ◌≡◌, refl, ◌∙◌, Bool, Option, none, some, List, [], ◌∷◌, Bool-cases, Option-cases, inl, inr,
}
use ride_location_tracking_e.Common.Map
use ride_location_tracking_e.Common.Map.{Map, IsDistinct, set-IsDistinct}
use ride_location_tracking_e.Connections.{ThrottleState, LocationUpdate}
use ride_location_tracking_e.Batch.{Core, enqueue_location_update}
use ride_location_tracking_e.DriverMessages.{
  DriverError, malformed_payload, refused_message, not_json, typed, untyped, Driving,
  is_valid_location, pending_update, release, on_throttle, refuse, on_driver_frame, on_flush_timer,
}
use ride_location_tracking_e.DriverMessages.Received.{Event, frame, timer, handle, handle_all}

-- No flush has gone on, no store has changed, and the batch has each key once if it had.
pub record IsUntouched (before after : Core) : Type 0 where
  pub stage : after.stage ≡ before.stage
  pub stores : after.stores ≡ before.stores
  pub distinct : IsDistinct before.pending_batch → IsDistinct after.pending_batch

untouched : (c : Core) → IsUntouched c c
untouched c = record { stage = refl; stores = refl; distinct = λ h. h }

release-IsUntouched :
    (c : Core) (driver : ℕ) (o : Option LocationUpdate) → IsUntouched c (release c driver o)
unfolding release enqueue_location_update
release-IsUntouched c driver none = untouched c
release-IsUntouched c driver (some u) = record {
  stage = refl;
  stores = refl;
  distinct = set-IsDistinct c.pending_batch driver (pending_update u);
}

throttle-IsUntouched :
    (s : Driving) (socket driver : ℕ)
    (change : ThrottleState → ThrottleState × Option LocationUpdate)
    → IsUntouched s.core (on_throttle s socket driver change).core
unfolding on_throttle
throttle-IsUntouched s socket driver change =
    elim (Option-cases (Map.get s.sockets.throttles socket)) [
      | inl e ↦ rw (e, on_throttle) (untouched s.core)
      | inr (t, e) ↦ rw (e, on_throttle) (release-IsUntouched s.core driver (change t).1)
    ]

module _ (is_open : ℕ → Bool) (unit tolerance_ms throttle_ms : ℕ) where
  refuse-IsUntouched :
      (s : Driving) (socket : ℕ) (e : DriverError)
      → IsUntouched s.core (refuse is_open s socket e).core
  unfolding refuse
  refuse-IsUntouched s socket e = elim (Bool-cases (is_open socket)) [
    | inl o ↦ rw (o, refuse) (untouched s.core)
    | inr o ↦ rw (o, refuse) (untouched s.core)
  ]

  handle-IsUntouched :
      (s : Driving) (e : Event)
      → IsUntouched s.core (handle is_open unit tolerance_ms throttle_ms s e).core
  unfolding handle on_driver_frame on_flush_timer
  handle-IsUntouched s (frame socket driver now not_json) =
      refuse-IsUntouched s socket malformed_payload
  handle-IsUntouched s (frame socket driver now (typed none)) =
      refuse-IsUntouched s socket refused_message
  handle-IsUntouched s (frame socket driver now (typed (some x))) = untouched s.core
  handle-IsUntouched s (frame socket driver now (untyped none)) =
      refuse-IsUntouched s socket refused_message
  handle-IsUntouched s (frame socket driver now (untyped (some u))) =
      elim (Bool-cases (is_valid_location unit tolerance_ms now u)) [
        | inl ok ↦ rw (ok, on_driver_frame) (throttle-IsUntouched s socket driver _)
        | inr ok ↦ rw (ok, on_driver_frame) (refuse-IsUntouched s socket refused_message)
      ]
  handle-IsUntouched s (timer socket driver now) = throttle-IsUntouched s socket driver _

  pub handle_all-IsUntouched :
      (s : Driving) (es : List Event)
      → IsUntouched s.core (handle_all is_open unit tolerance_ms throttle_ms s es).core
  unfolding handle_all
  handle_all-IsUntouched s [] = untouched s.core
  handle_all-IsUntouched s (e ∷ es) =
      let first = handle-IsUntouched s e in
      let rest = handle_all-IsUntouched (handle is_open unit tolerance_ms throttle_ms s e) es in
      record {
        stage = rest.stage ∙ first.stage;
        stores = rest.stores ∙ first.stores;
        distinct = λ h. rest.distinct (first.distinct h);
      }
