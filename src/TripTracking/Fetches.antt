-- ===== src/TripTracking/Fetches.antt =====
-- An answer for a trip that the rider no longer follows (frontend/src/hooks/useTripTracking.ts).
use ride_location_tracking_e.Common.{ℕ, ◌≡◌, refl, false, some, [], ◌∷◌, ◌++◌, arith, opt_is}
use ride_location_tracking_e.Database.{Trip}
use ride_location_tracking_e.Delta.{LocationBroadcastPayload}
use ride_location_tracking_e.TripTracking.{
  TripTracking, unsubscribed, trip_cancelled, broadcast, driver_of, apply_message,
  apply_trip_message, asked, on_fetched, on_trip_change,
}

-- A trip is cancelled, its row is asked for, the rider goes on to trip `u`, and then the answer comes.
abbrev pub moved_on : ℕ → TripTracking → ℕ → Trip → TripTracking
moved_on step h u row =
    on_fetched (on_trip_change (apply_message step h (unsubscribed trip_cancelled)) (some u))
      (some row)

-- A rider whose trip `t` is cancelled and who goes on to a new trip `u` before the answer with the row of `t` has come
-- then sees, for `u`, the status, the driver and the reason of `t`, and no position of any other driver.
pub late_fetch :
    (step : ℕ) (h : TripTracking) (t u : ℕ) (row : Trip)
    → h.current_trip_id ≡ some t
    → let after = moved_on step h u row in
      ((apply_message step h (unsubscribed trip_cancelled)).fetches ≡ h.fetches ++ t ∷ [])
      × (after.current_trip_id ≡ some u)
      × (after.tracking.status ≡ row.status)
      × (after.tracking.driver_id ≡ row.driver_id)
      × (after.tracking.cancellation_reason ≡ row.cancellation_reason)
      × ((m : LocationBroadcastPayload)
          → opt_is row.driver_id (driver_of m) ≡ false
          → (apply_message step after (broadcast m)).tracking ≡ after.tracking)
unfolding apply_message apply_trip_message asked on_fetched on_trip_change
late_fetch step h t u row e =
    (ground (arith, e), refl, refl, refl, refl, λ m g. rw (g, apply_trip_message) refl)
