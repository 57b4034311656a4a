-- ===== src/TripTracking/Followed/Driven.antt =====
-- From a driver's frames to a rider's screen (core/src/ws/driver-connections.ts, location-batch.ts, subscriptions.ts,
-- frontend/src/hooks/tripTrackingReducer.ts).
use ride_location_tracking_e.Common.{
  ℕ, ◌<◌, ◌≡◌, refl, ◌∙◌, sym, ap, subst, Bool, true, false, none, some, List, [], ◌∷◌, length, All,
}
use ride_location_tracking_e.Common.Map
use ride_location_tracking_e.Common.Map.{Map, IsDistinct}
use ride_location_tracking_e.Database.{Driver}
use ride_location_tracking_e.Subscriptions.{OutMessage}
use ride_location_tracking_e.Subscriptions.Calls.{Call}
use ride_location_tracking_e.Eta.Service.{Engines, EtaRuntimeConfig}
use ride_location_tracking_e.Connections.{ThrottleState, LocationUpdate, new_throttle}
use ride_location_tracking_e.Batch.{PendingUpdate, idle}
use ride_location_tracking_e.Batch.Flush.{Event, flush_amid}
use ride_location_tracking_e.DriverMessages.{Driving, pending_update}
use ride_location_tracking_e.DriverMessages.Received.{
  Event as DriverEvent, AllApart, handle_all, last_noted, frames-IsReceived,
}
use ride_location_tracking_e.DriverMessages.Kept.{in_batch}
use ride_location_tracking_e.DriverMessages.Untouched.{handle_all-IsUntouched}
use ride_location_tracking_e.TripTracking.{TripTrackingState}
use ride_location_tracking_e.TripTracking.Followed.{Undisturbed, broadcasts}
use ride_location_tracking_e.TripTracking.Followed.Riders.{SeesAt}
use ride_location_tracking_e.TripTracking.Followed.Flushed.{subscribed, since, flush_amid-Sees}

-- A map that has a key has a first entry.
first_of :
    (m : Map PendingUpdate) (k : ℕ) (v : PendingUpdate)
    → Map.get m k ≡ some v
    → (p : ℕ × PendingUpdate) × (ps : List (ℕ × PendingUpdate)) × (m ≡ p ∷ ps)
unfolding Map.get
first_of [] k v e = cc
first_of (p ∷ ps) k v e = (p, ps, refl)

-- The throttle of the socket holds nothing back.
abbrev pub IsReleased : ℕ → Driving → Type 0
IsReleased q s = (t : ThrottleState) → Map.get s.sockets.throttles q ≡ some t → t.pending ≡ none

module _ (is_open : ℕ → Bool) (byte_length : OutMessage → ℕ) (step : ℕ) (before cs : List Call)
    (s t d : ℕ) (engines : Engines) (cfg : EtaRuntimeConfig)
    (unit tolerance_ms throttle_ms q : ℕ) where
  abbrev driven : Driving → List DriverEvent → Driving
  driven = handle_all is_open unit tolerance_ms throttle_ms

  -- A rider whose socket, open from then on, subscribed to a trip that has a driver, and whose screen knows this driver,
  -- sees the last valid position that the driver sent, with the status of its row, once the throttle of the driver's
  -- socket has released it and a flush of which no call fails has ended, within half a quantization step on each axis
  -- for each broadcast of the driver since the subscription. Before the frames, whatever they are and whoever sends
  -- them, the throttle must be new, the batch hold nothing of the driver and have each key once, and the service be
  -- idle; the driver must have a row and no other socket, and the stores change in no other way until the flush ends;
  -- the calls since the subscription must be such that the socket neither leaves, moves nor asks anew, the trip does
  -- not end or change its driver, the server is not shut down, and a broadcast is of the driver's own position.
  pub handle_all-Sees :
      (frames : List DriverEvent) (e1 e2 e3 : List Event) (t1 t2 t3 : ℕ) (w : Driving)
      (shown : TripTrackingState) (u : LocationUpdate) (row : Driver)
      → 0 < step
      → is_open s ≡ true
      → shown.driver_id ≡ some d
      → All (Undisturbed s t d) cs
      → w.core.stage ≡ idle
      → w.core.stores.registry ≡ since is_open byte_length step before cs s t d
      → Map.get w.core.stores.db.drivers d ≡ some row
      → IsDistinct w.core.pending_batch
      → Map.get w.core.pending_batch d ≡ none
      → Map.get w.sockets.throttles q ≡ some new_throttle
      → AllApart q d frames
      → last_noted is_open unit tolerance_ms throttle_ms q none frames ≡ some u
      → IsReleased q (handle_all is_open unit tolerance_ms throttle_ms w frames)
      → SeesAt step s d
          (length (broadcasts d cs))
          (record { lat = u.position.lat; lng = u.position.lng; status = row.status })
          (subscribed is_open byte_length step before cs s t d)
          (some (shown, false))
          (flush_amid is_open byte_length step engines cfg
            (handle_all is_open unit tolerance_ms throttle_ms w frames).core
            e1
            t1
            e2
            t2
            e3
            t3).stores.registry
  handle_all-Sees frames e1 e2 e3 t1 t2 t3 w shown u row h opened known all at now has distinct
        empty fresh apart last released =
      let r =
        frames-IsReceived is_open unit tolerance_ms throttle_ms q d frames w apart fresh empty in
      let w' = driven w frames in
      let k = handle_all-IsUntouched is_open unit tolerance_ms throttle_ms w frames in
      let batched : Map.get w'.core.pending_batch d ≡ some (pending_update u) =
        r.kept.none_pending (released r.throttle r.found) ∙ ap in_batch last in
      let (p, ps, full) = first_of w'.core.pending_batch d (pending_update u) batched in
      flush_amid-Sees is_open byte_length step before cs s t d engines cfg w'.core e1 e2 e3 t1 t2 t3
        p ps shown (pending_update u) row h opened known all (k.stage ∙ at) full
        (subst IsDistinct full (k.distinct distinct)) (ap (λ x. x.registry) k.stores ∙ now)
        (ap (λ m. Map.get m d) (sym full) ∙ batched)
        (ap (λ x. Map.get x.db.drivers d) k.stores ∙ has)
