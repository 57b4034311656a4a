-- ===== src/TripTracking/Followed/Riders.antt =====
-- What a rider sees of the driver from the subscription on (core/src/ws/subscriptions.ts, frontend/src/hooks).
use ride_location_tracking_e.Common.{
  ℕ, ◌<◌, ◌≡◌, ◌∙◌, Bool, true, false, Option, none, some, List, ◌∷◌, ◌++◌, length, ap, subst, All,
}
use ride_location_tracking_e.Domain.{LatLng}
use ride_location_tracking_e.Delta.{LastKnownState, EncodeMeta, sent_state}
use ride_location_tracking_e.Delta.Stream.{Tracks}
use ride_location_tracking_e.Subscriptions.{Registry, OutMessage, init, replace_existing}
use ride_location_tracking_e.Subscriptions.Calls.{
  Call, subscribe_trip, perform, perform_all, perform-Inv, perform_all-init-Inv,
}
use ride_location_tracking_e.Subscriptions.Invariant.{Inv}
use ride_location_tracking_e.Subscriptions.Sets.{
  IsSetwise, perform-IsSetwise, perform_all-init-IsSetwise,
}
use ride_location_tracking_e.Subscriptions.Outbox.{sent_to, seen}
use ride_location_tracking_e.Subscriptions.Outbox.Heard.{seen-subscribed}
use ride_location_tracking_e.TripTracking.{TripTrackingState, Applied}
use ride_location_tracking_e.TripTracking.Shown.{last_update, Shows, screen-Tracks}
use ride_location_tracking_e.TripTracking.Followed.{
  show_all, Undisturbed, broadcasts, events, updates-events, events-AllOf,
}
use ride_location_tracking_e.TripTracking.Followed.Through.{rider, perform_all-Through}

-- The messages to the socket since the registry `begun` bring the screen to a position for the driver that is off
-- `last` by at most half a quantization step, `n` times, on each axis, with its status.
abbrev pub SeesAt : (step s d n : ℕ) → LastKnownState → Registry → Applied → Registry → Type 0
SeesAt step s d n last begun screen after =
    (ms : List OutMessage) × (p : Option LastKnownState) × (sent_to s after.outbox
      ≡ sent_to s begun.outbox ++ ms)
    × Shows d p (show_all step screen ms)
    × Tracks step n (some last) p

module _ (is_open : ℕ → Bool) (byte_length : OutMessage → ℕ) (step s t d : ℕ)
    (first : LatLng × EncodeMeta) (us : List (LatLng × EncodeMeta)) where
  -- The screen from then on shows the driver's last position, within the bound.
  abbrev pub Sees : Registry → Applied → Registry → Type 0
  Sees = SeesAt step s d (length us) (sent_state (last_update first us).0 (last_update first us).1)

  -- From a subscription that was sent nothing and follows the driver.
  pub followed-Sees :
      (r : Registry) (j : ℕ) (cs : List Call) (shown : TripTrackingState)
      → Inv r
      → IsSetwise r
      → seen s j r ≡ rider step s t d j none (sent_to s r.outbox)
      → 0 < step
      → is_open s ≡ true
      → shown.driver_id ≡ some d
      → All (Undisturbed s t d) cs
      → broadcasts d cs ≡ first ∷ us
      → Sees r (some (shown, false)) (perform_all is_open byte_length step r cs)
  followed-Sees r j cs shown v w f h opened known all e =
      let (ms, now, a, b) =
        perform_all-Through step s t d j is_open byte_length opened cs r none (sent_to s r.outbox)
          (some (shown, false)) v w all f in
      let (p, shows, tracks) =
        screen-Tracks step d (events t d cs) shown first us h known (events-AllOf t d s cs all)
          (updates-events t d cs ∙ e) in
      (ms, p, ap (λ x. x.sent) a, subst (λ v. Shows d p v.screen) b shows, tracks)

-- Whatever calls came before, a rider whose socket, open from then on, subscribes to a trip that has a driver, and
-- whose screen knows this driver, is sent messages over which the screen shows, once a first position `first` and the
-- further ones `us` of the driver were broadcast, a position within half a quantization step for each of `us`, on each
-- axis, of the last one broadcast, with its status: whatever is called meanwhile for other sockets, trips and drivers,
-- and whenever the match is made known again, if the socket neither leaves, moves or asks anew, the trip does not end
-- or change its driver, the server is not shut down, and a broadcast is of the driver's own position.
pub rider-Sees :
    (is_open : ℕ → Bool) (byte_length : OutMessage → ℕ) (step : ℕ) (before cs : List Call)
    (s t d : ℕ) (shown : TripTrackingState) (first : LatLng × EncodeMeta)
    (us : List (LatLng × EncodeMeta))
    → 0 < step
    → is_open s ≡ true
    → shown.driver_id ≡ some d
    → All (Undisturbed s t d) cs
    → broadcasts d cs ≡ first ∷ us
    → let begun =
        perform is_open byte_length step
          (perform_all is_open byte_length step init before)
          (subscribe_trip s t (some d)) in
      Sees is_open byte_length step s t d first us begun
        (some (shown, false))
        (perform_all is_open byte_length step begun cs)
unfolding perform
rider-Sees is_open byte_length step before cs s t d shown first us h opened known all e =
    let r = perform_all is_open byte_length step init before in
    let c = subscribe_trip s t (some d) in
    followed-Sees is_open byte_length step s t d first us (perform is_open byte_length step r c)
      (replace_existing r s).next_info cs shown
      (perform-Inv is_open byte_length step r c
        (perform_all-init-Inv is_open byte_length step before))
      (perform-IsSetwise is_open byte_length step r c
        (perform_all-init-IsSetwise is_open byte_length step before))
      (seen-subscribed r s t (some d)) h opened known all e
