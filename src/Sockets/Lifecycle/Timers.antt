-- ===== src/Sockets/Lifecycle/Timers.antt =====
-- A timer that replaces a socket (frontend/src/ws/reconnectingSocket.ts).
use ride_location_tracking_e.Common.{
  ℕ, ◌*◌, ◌≡◌, true, false, none, min, is_some, arith, Bool-cases, Option-cases, inl, inr,
}
use ride_location_tracking_e.Common.Map
use ride_location_tracking_e.Common.Map.{Map, get-set, get-delete, get-empty}
use ride_location_tracking_e.Sockets.{SubscriberSocket, on_timer, fired}
use ride_location_tracking_e.Sockets.Lifecycle.{is_live, IsLive, open-IsLive}

module _ (s : SubscriberSocket) (v : IsLive s) where
  -- While a timer runs, the caller has not closed the object, no socket lives, and no other timer runs.
  module _ (t : ℕ) (running : is_some (Map.get s.base.timers t) ≡ true) where
    timer_wanted : s.base.closed_by_caller ≡ false
    timer_wanted = elim (Option-cases s.base.socket) [
      | inl n ↦ absurd (ground (arith, n, running, v.timers t))
      | inr (id, n) ↦ ground (arith, n, v.wanted)
    ]

    timer_gone : (j : ℕ) → is_live (Map.get s.base.ready j) ≡ false
    timer_gone j = elim (Option-cases s.base.socket) [
      | inl n ↦ absurd (ground (arith, n, running, v.timers t))
      | inr (id, n) ↦ ground (arith, n, running, v.timers t, v.no_other j, v.alive_or_gone id n)
    ]

    timer_alone : (u : ℕ) → Map.get (Map.delete s.base.timers t) u ≡ none
    timer_alone u = ground (arith, running, v.timers t, v.timers u, get-delete s.base.timers t u)

  pub fired-IsLive : (t : ℕ) → IsLive (record s { base = fired s.base t })
  unfolding fired on_timer
  fired-IsLive t = elim (Bool-cases (is_some (Map.get s.base.timers t))) [
    | inr g ↦ rw (fired, g) v
    | inl g ↦
        rw (fired, g)
          (open-IsLive
            (record s.base {
              timers = Map.delete s.base.timers t;
              backoff_ms = min (s.base.backoff_ms * 2) 10000;
            })
            s.subscribe_message true (timer_wanted t g) (λ j. timer_gone t g j)
            (λ u. timer_alone t g u) v.fresh (ground (arith, v.capped)) v.remembered)
  ]
