-- ===== src/Subscriptions/Calls.antt =====
-- Every exported call of core/src/ws/subscriptions.ts that changes state, and histories of such calls.
use ride_location_tracking_e.Common.{ℕ, Bool, Option, List, [], ◌∷◌}
use ride_location_tracking_e.Subscriptions.{
  Registry, OutMessage, EndReason, RawDriverLocationUpdate, init, subscribe_to_driver,
  subscribe_to_trip, handle_subscriber_disconnect, notify_trip_matched, notify_trip_status_changed,
  broadcast_driver_location, close_all_subscriber_connections,
}
use ride_location_tracking_e.Subscriptions.Invariant.{
  Inv, init-Inv, subscribe_to_driver-Inv, subscribe_to_trip-Inv, disconnect-Inv,
}
use ride_location_tracking_e.Subscriptions.Matches.{notify_trip_matched-Inv}
use ride_location_tracking_e.Subscriptions.Notices.{
  notify_trip_status_changed-Inv, broadcast_driver_location-Inv, close_all-Inv,
}

pub data Call : Type 0 where
  subscribe_driver : ℕ → ℕ → Call
  subscribe_trip : ℕ → ℕ → Option ℕ → Call
  disconnect : ℕ → Call
  matched : ℕ → ℕ → Call
  ended : ℕ → EndReason → Call
  broadcast : ℕ → RawDriverLocationUpdate → Call
  shut_down : Call

module _ (is_open : ℕ → Bool) (byte_length : OutMessage → ℕ) (step : ℕ) where
  unfoldable pub perform : Registry → Call → Registry
  perform r (subscribe_driver s d) = subscribe_to_driver r s d
  perform r (subscribe_trip s t d) = subscribe_to_trip r s t d
  perform r (disconnect s) = handle_subscriber_disconnect r s
  perform r (matched t d) = notify_trip_matched is_open r t d
  perform r (ended t reason) = notify_trip_status_changed is_open r t reason
  perform r (broadcast d u) = broadcast_driver_location is_open byte_length step r d u
  perform r shut_down = close_all_subscriber_connections r

  unfoldable pub perform_all : Registry → List Call → Registry
  perform_all r [] = r
  perform_all r (c ∷ cs) = perform_all (perform r c) cs

  pub perform-Inv : (r : Registry) (c : Call) → Inv r → Inv (perform r c)
  unfolding perform
  perform-Inv r (subscribe_driver s d) v = subscribe_to_driver-Inv r s d v
  perform-Inv r (subscribe_trip s t d) v = subscribe_to_trip-Inv r s t d v
  perform-Inv r (disconnect s) v = disconnect-Inv r s v
  perform-Inv r (matched t d) v = notify_trip_matched-Inv is_open t d r v
  perform-Inv r (ended t reason) v = notify_trip_status_changed-Inv is_open t reason r v
  perform-Inv r (broadcast d u) v = broadcast_driver_location-Inv is_open byte_length step u r d v
  perform-Inv r shut_down v = close_all-Inv r v

  perform_all-Inv : (r : Registry) (cs : List Call) → Inv r → Inv (perform_all r cs)
  unfolding perform_all
  perform_all-Inv r [] v = v
  perform_all-Inv r (c ∷ cs) v = perform_all-Inv (perform r c) cs (perform-Inv r c v)

  -- After any history of calls from the empty registry, an object is in a driver's set exactly if it
  -- is its socket's current subscription and follows that driver, in a trip's set exactly if it is its
  -- socket's current subscription and is to that trip; a socket's current subscription is an object of
  -- that socket, and the identities that are yet to be given out are unused.
  pub perform_all-init-Inv : (cs : List Call) → Inv (perform_all init cs)
  perform_all-init-Inv cs = perform_all-Inv init cs init-Inv
