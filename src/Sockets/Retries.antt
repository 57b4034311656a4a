-- ===== src/Sockets/Retries.antt =====
-- One failed attempt (frontend/src/ws/reconnectingSocket.ts).
use ride_location_tracking_e.Common.{
  ℕ, zero, suc, ◌*◌, ◌≡◌, sym, subst, ◌∙◌, ap, true, Option, none, some, min, is_some, arith,
}
use ride_location_tracking_e.Common.Map
use ride_location_tracking_e.Common.Map.{Map, get-set}
use ride_location_tracking_e.Sockets.{
  ReconnectingSocket, ready_connecting, ready_closed, SubscriberSocket, open_socket,
  schedule_reconnect, on_timer, fired,
}
use ride_location_tracking_e.Sockets.Lifecycle.{IsLive, is_live, current_ready}
use ride_location_tracking_e.Sockets.Lifecycle.Losses.{dropped_current}
use ride_location_tracking_e.Sockets.Liveness.{socket_goes, timer_fires, handle, handle-IsLive}

-- The current socket goes, and the timer that this sets fires.
unfoldable pub retry : SubscriberSocket → SubscriberSocket
retry s = elim s.base.socket [
  | none ↦ s
  | some id ↦ handle (handle s (socket_goes id)) (timer_fires s.base.next_timer)
]

unfoldable pub retries : ℕ → SubscriberSocket → SubscriberSocket
retries zero s = s
retries (suc n) s = retries n (retry s)

-- The current socket connects or is open.
abbrev pub IsUp : SubscriberSocket → Type 0
IsUp s = is_live (current_ready s.base) ≡ true

module _ (s : SubscriberSocket) (v : IsLive s) (id : ℕ) (at : s.base.socket ≡ some id)
    (up : is_live (Map.get s.base.ready id) ≡ true) where
  abbrev lost : SubscriberSocket
  lost = handle s (socket_goes id)

  lost_lem : lost ≡ record s {
    base = schedule_reconnect (record s.base { ready = Map.set s.base.ready id ready_closed });
  }
  unfolding handle
  lost_lem =
      ap (λ (b : ReconnectingSocket). record s { base = b })
        (dropped_current s v id (ground (arith, up)) (ground (arith, at))
          (ground (arith, at, v.wanted)))

  -- The delay is the backoff.
  pub lost_timer : Map.get lost.base.timers s.base.next_timer ≡ some s.base.backoff_ms
  unfolding schedule_reconnect
  lost_timer =
      ap (λ (x : SubscriberSocket). Map.get x.base.timers s.base.next_timer) lost_lem
      ∙ ground (arith, get-set s.base.timers s.base.next_timer s.base.next_timer s.base.backoff_ms)

  gone_timer :
      is_some (
        Map.get
          (schedule_reconnect
            (record s.base { ready = Map.set s.base.ready id ready_closed })).timers
          s.base.next_timer)
      ≡ true
  unfolding schedule_reconnect
  gone_timer =
      ground (arith, get-set s.base.timers s.base.next_timer s.base.next_timer s.base.backoff_ms)

  fired_at :
      (b : ReconnectingSocket) (t : ℕ)
      → is_some (Map.get b.timers t) ≡ true
      → fired b t ≡ on_timer (record b { timers = Map.delete b.timers t })
  unfolding fired
  fired_at b t e = ground (arith, e)

  retry_at : retry s ≡ handle lost (timer_fires s.base.next_timer)
  unfolding retry
  retry_at =
      ap
        (λ (o : Option ℕ). elim o as (λ _. SubscriberSocket) [
          | none ↦ s
          | some j ↦ handle (handle s (socket_goes j)) (timer_fires s.base.next_timer)
        ])
        at

  -- The base of `lost`, and the base after the timer.
  abbrev gone : ReconnectingSocket
  gone = schedule_reconnect (record s.base { ready = Map.set s.base.ready id ready_closed })

  retry_lem : retry s ≡ record s {
    base = on_timer (record gone { timers = Map.delete gone.timers s.base.next_timer });
  }
  unfolding handle
  retry_lem =
      retry_at
      ∙ ap (λ (x : SubscriberSocket). handle x (timer_fires s.base.next_timer)) lost_lem
      ∙ ap (λ (b : ReconnectingSocket). record s { base = b })
          (fired_at gone s.base.next_timer (gone_timer))

  pub retry_socket : (retry s).base.socket ≡ some s.base.next_socket
  unfolding on_timer open_socket schedule_reconnect
  retry_socket = ap (λ (x : SubscriberSocket). x.base.socket) retry_lem

  pub retry_ready : Map.get (retry s).base.ready s.base.next_socket ≡ some ready_connecting
  unfolding on_timer open_socket schedule_reconnect
  retry_ready =
      ap (λ (x : SubscriberSocket). Map.get x.base.ready s.base.next_socket) retry_lem
      ∙ ground (
        arith,
        get-set (Map.set s.base.ready id ready_closed) s.base.next_socket s.base.next_socket
            ready_connecting,
      )

  pub retry_backoff : (retry s).base.backoff_ms ≡ min (s.base.backoff_ms * 2) 10000
  unfolding on_timer open_socket schedule_reconnect
  retry_backoff = ap (λ (x : SubscriberSocket). x.base.backoff_ms) retry_lem

  pub retry_message : (retry s).subscribe_message ≡ s.subscribe_message
  retry_message = ap (λ (x : SubscriberSocket). x.subscribe_message) retry_lem

  pub retry-IsLive : IsLive (retry s)
  retry-IsLive =
      subst IsLive (sym retry_at)
        (handle-IsLive lost (timer_fires s.base.next_timer) (handle-IsLive s (socket_goes id) v))
