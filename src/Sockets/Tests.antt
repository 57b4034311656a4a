-- ===== src/Sockets/Tests.antt =====
-- A subscriber to a trip whose connection is lost (frontend/src/ws/reconnectingSocket.ts).
use ride_location_tracking_e.Common.{
  ℕ, ◌*◌, ◌^◌, ◌≡◌, refl, true, none, some, List, [], ◌∷◌, min, for_each,
}
use ride_location_tracking_e.Common.Map
use ride_location_tracking_e.Sockets.{
  SubscriberSocket, is_open, opened, subscribe_to_trip, set_subscription, send, on_socket_open,
  resend,
}
use ride_location_tracking_e.Sockets.Lifecycle.{IsLive, connected_new, asked_on}
use ride_location_tracking_e.Sockets.Liveness.{
  Event, follow_trip, socket_opens, socket_goes, timer_fires, stop_following, shut, handle,
  run-IsLive,
}
use ride_location_tracking_e.Sockets.Retries.{retry, retries}
use ride_location_tracking_e.Sockets.Recovery.{recovered}

abbrev evening : List Event
evening =
    follow_trip 5
    ∷ socket_opens 0
    ∷ socket_goes 0
    ∷ timer_fires 0
    ∷ stop_following
    ∷ socket_opens 1
    ∷ shut
    ∷ []

run-IsLive_example : IsLive (for_each evening handle connected_new)
run-IsLive_example = run-IsLive evening

abbrev following : List Event
following = follow_trip 5 ∷ socket_opens 0 ∷ []

abbrev follower : SubscriberSocket
follower = for_each following handle connected_new

recovered_example :
    (j : ℕ) × ((retries 5 follower).base.socket ≡ some j)
    × (Map.get
          (handle (retries 5 follower) (socket_goes j)).base.timers
          (retries 5 follower).base.next_timer
        ≡ some (min (follower.base.backoff_ms * 2 ^ 5) 10000))
    × (let k = (retries 5 follower).base.next_socket in
        let t = handle (retry (retries 5 follower)) (socket_opens k) in
        (t.base.socket ≡ some k)
        × (is_open (Map.get t.base.ready k) ≡ true)
        × (asked_on t.base k ≡ follower.subscribe_message)
        × ((u : ℕ) → Map.get t.base.timers u ≡ none)
        × (t.base.backoff_ms ≡ 500))
unfolding for_each handle opened Map.get Map.set subscribe_to_trip set_subscription send
    connected_new on_socket_open resend
recovered_example = recovered following 0 5 refl refl
