-- ===== src/Sockets/Liveness.antt =====
-- Whatever happens to a subscriber's socket between `connect` and `close`, it recovers and asks for the right thing
-- (frontend/src/ws/reconnectingSocket.ts, subscriberSocket.ts).
use ride_location_tracking_e.Common.{ℕ, refl, none, some, List, for_each, for_each_inv}
use ride_location_tracking_e.Sockets.{
  SubscriberSocket, subscribe_driver, subscribe_trip, unsubscribe, close, opened, dropped, fired,
  resend, set_subscription, subscribe_to_driver, subscribe_to_trip, end_subscription,
}
use ride_location_tracking_e.Sockets.Lifecycle.{IsLive, connected_new, connected_new-IsLive}
use ride_location_tracking_e.Sockets.Lifecycle.Losses.{dropped-IsLive, close-IsLive}
use ride_location_tracking_e.Sockets.Lifecycle.Openings.{opened-IsLive}
use ride_location_tracking_e.Sockets.Lifecycle.Sends.{send-IsLive}
use ride_location_tracking_e.Sockets.Lifecycle.Timers.{fired-IsLive}

-- A call of the subscriber or an event of the browser.
pub data Event : Type 0 where
  follow_driver follow_trip : ℕ → Event
  stop_following shut : Event
  socket_opens socket_goes timer_fires : ℕ → Event

unfoldable pub handle : SubscriberSocket → Event → SubscriberSocket
handle s (follow_driver d) = subscribe_to_driver s d
handle s (follow_trip t) = subscribe_to_trip s t
handle s stop_following = end_subscription s
handle s shut = record s { base = close s.base }
handle s (socket_opens id) = record s { base = opened (resend s.subscribe_message) s.base id }
handle s (socket_goes id) = record s { base = dropped s.base id }
handle s (timer_fires t) = record s { base = fired s.base t }

pub handle-IsLive : (s : SubscriberSocket) (e : Event) → IsLive s → IsLive (handle s e)
unfolding handle subscribe_to_driver subscribe_to_trip set_subscription end_subscription
handle-IsLive s (follow_driver d) v =
    send-IsLive s v (subscribe_driver d) (some (subscribe_driver d)) (λ now. refl)
handle-IsLive s (follow_trip t) v =
    send-IsLive s v (subscribe_trip t) (some (subscribe_trip t)) (λ now. refl)
handle-IsLive s stop_following v = send-IsLive s v unsubscribe none (λ now. refl)
handle-IsLive s shut v = close-IsLive s v
handle-IsLive s (socket_opens id) v = opened-IsLive s id v
handle-IsLive s (socket_goes id) v = dropped-IsLive s v id
handle-IsLive s (timer_fires t) v = fired-IsLive s v t

-- After `connect` and any calls and browser events but a second `connect`: the object has a socket unless the
-- caller closed it; that socket lives, or it has gone and exactly one timer runs, at the current backoff, to replace
-- it, and otherwise none does; no other socket lives; on an open socket the server was last asked for exactly what
-- the subscriber wants, and on one that connects for nothing; the backoff is from 500 to 10000 ms.
pub run-IsLive : (events : List Event) → IsLive (for_each events handle connected_new)
run-IsLive events =
    for_each_inv IsLive events handle handle-IsLive connected_new connected_new-IsLive
