-- ===== src/Sockets/Lifecycle/Openings.antt =====
-- A socket that opens (frontend/src/ws/reconnectingSocket.ts, subscriberSocket.ts).
use ride_location_tracking_e.Common.{
  ℕ, ◌≡◌, refl, sym, subst, true, Option, none, some, opt_is, arith, Bool-cases, inl, inr,
}
use ride_location_tracking_e.Common.Map
use ride_location_tracking_e.Common.Map.{Map, get-set, get-delete, get-empty}
use ride_location_tracking_e.Sockets.{
  ReconnectingSocket, ready_open, ClientMessage, SubscriberSocket, is_connecting, on_socket_open,
  opened, resend, notify, connected,
}
use ride_location_tracking_e.Sockets.Lifecycle.{Decides, IsLive}
use ride_location_tracking_e.Sockets.Lifecycle.Sends.{send-IsLive}

module _ (s : SubscriberSocket) (v : IsLive s) where
  -- The state in the listener of 'open', before what is remembered is sent: nothing was asked for yet.
  abbrev answering : ℕ → ReconnectingSocket
  answering id =
      notify (record s.base { backoff_ms = 500; ready = Map.set s.base.ready id ready_open })
        connected

  answering-IsLive :
      (id : ℕ)
      → is_connecting (Map.get s.base.ready id) ≡ true
      → IsLive (record { base = answering id; subscribe_message = none })
  answering-IsLive id g = elim (Bool-cases (opt_is s.base.socket id)) [
    | inr c ↦ absurd (ground (arith, c, g, v.no_other id))
    | inl c ↦
        let at : s.base.socket ≡ some id = ground (arith, c) in
        record {
          wanted = v.wanted;
          alive_or_gone = λ j e. ground (arith, e, at, get-set s.base.ready id j ready_open);
          no_other =
              λ j e. ground (arith, e, at, v.no_other j, get-set s.base.ready id j ready_open);
          timers = λ t. ground (arith, at, g, v.timers t, get-set s.base.ready id id ready_open);
          timer_set = ground (arith, at, get-set s.base.ready id id ready_open);
          asked_for = λ j e l.
              ground (arith, e, at, g, v.asked_for j, get-set s.base.ready id j ready_open);
          remembered = λ m e. cc;
          fresh = λ j h. ground (arith, h, g, v.fresh j h, get-set s.base.ready id j ready_open);
          capped = omega arith;
        }
  ]

-- Once connected, what is remembered is asked for again.
resent-IsLive :
    (s : SubscriberSocket) (id : ℕ) (v : IsLive s)
    → is_connecting (Map.get s.base.ready id) ≡ true
    → (o : Option ClientMessage) → ((m : ClientMessage) → o ≡ some m → Decides m (some m))
    → IsLive (record { base = resend o (answering s v id); subscribe_message = o })
unfolding resend
resent-IsLive s id v g none h = answering-IsLive s v id g
resent-IsLive s id v g (some m) h =
    send-IsLive (record { base = answering s v id; subscribe_message = none })
      (answering-IsLive s v id g) m (some m) (h m refl)

pub opened_at :
    (on_open : ReconnectingSocket → ReconnectingSocket) (b : ReconnectingSocket) (id : ℕ)
    → is_connecting (Map.get b.ready id) ≡ true
    → opened on_open b id
      ≡ on_open
          (notify (record b { backoff_ms = 500; ready = Map.set b.ready id ready_open }) connected)
unfolding opened on_socket_open
opened_at on_open b id g = ground (arith, g)

pub opened-IsLive :
    (s : SubscriberSocket) (id : ℕ)
    → IsLive s
    → IsLive (record s { base = opened (resend s.subscribe_message) s.base id })
unfolding opened
opened-IsLive s id v = elim (Bool-cases (is_connecting (Map.get s.base.ready id))) [
  | inr g ↦ rw (opened, g) v
  | inl g ↦
      subst (λ (b : ReconnectingSocket). IsLive (record s { base = b }))
        (sym (opened_at (resend s.subscribe_message) s.base id g))
        (resent-IsLive s id v g s.subscribe_message v.remembered)
]
