-- ===== src/Sockets/Lifecycle/Losses.antt =====
-- A socket that goes, or that the caller closes (frontend/src/ws/reconnectingSocket.ts).
use ride_location_tracking_e.Common.{
  ℕ, ◌≡◌, refl, sym, subst, true, false, some, opt_is, is_some, arith, Bool-cases, Option-cases,
  inl, inr,
}
use ride_location_tracking_e.Common.Map
use ride_location_tracking_e.Common.Map.{Map, get-set, get-delete, get-empty}
use ride_location_tracking_e.Sockets.{
  ReconnectingSocket, ReadyState, ready_closed, SubscriberSocket, may_go, closing,
  schedule_reconnect, on_socket_close, close, close_ready, clear_timer, dropped,
}
use ride_location_tracking_e.Sockets.Lifecycle.{is_live, IsLive}

module _ (s : SubscriberSocket) (v : IsLive s) where
  -- A socket that is gone or that the caller closed is not the current one.
  elsewhere-IsLive :
      (id : ℕ) (r : ReadyState)
      → opt_is s.base.socket id ≡ false
      → is_live (some r) ≡ false
      → is_some (Map.get s.base.ready id) ≡ true
      → IsLive (record s { base = record s.base { ready = Map.set s.base.ready id r } })
  elsewhere-IsLive id r other gone known = record {
    wanted = v.wanted;
    alive_or_gone =
        λ j e. ground (arith, e, other, v.alive_or_gone j e, get-set s.base.ready id j r);
    no_other = λ j e. ground (arith, e, gone, v.no_other j e, get-set s.base.ready id j r);
    timers = λ t. elim (Option-cases s.base.socket) [
      | inl n ↦ ground (arith, n, v.timers t)
      | inr (j, n) ↦ ground (arith, n, other, v.timers t, get-set s.base.ready id j r)
    ];
    timer_set = λ d. elim (Option-cases s.base.socket) [
      | inl n ↦ ground (arith, n, d, v.timer_set)
      | inr (j, n) ↦ ground (arith, n, d, other, v.timer_set, get-set s.base.ready id j r)
    ];
    asked_for = λ j e l. ground (arith, e, l, other, v.asked_for j e, get-set s.base.ready id j r);
    fresh = λ j h. ground (arith, h, known, v.fresh j h, get-set s.base.ready id j r);
    remembered = v.remembered;
    capped = v.capped;
  }

  gone-IsLive :
      (id : ℕ)
      → s.base.socket ≡ some id
      → may_go (Map.get s.base.ready id) ≡ true
      → IsLive (record s {
        base = schedule_reconnect (record s.base { ready = Map.set s.base.ready id ready_closed });
      })
  unfolding schedule_reconnect
  gone-IsLive id at goes = record {
    wanted = ground (arith, at, v.wanted);
    alive_or_gone = λ j e. ground (arith, e, at, get-set s.base.ready id j ready_closed);
    no_other = λ j e. ground (arith, e, at, v.no_other j e, get-set s.base.ready id j ready_closed);
    timers = λ t. ground (
      arith,
      at,
      goes,
      v.timers t,
      v.alive_or_gone id at,
      get-set s.base.ready id id ready_closed,
      get-set s.base.timers s.base.next_timer t s.base.backoff_ms,
    );
    timer_set = λ d. refl;
    asked_for = λ j e l. ground (arith, e, at, l, get-set s.base.ready id j ready_closed);
    fresh = λ j h. ground (arith, h, goes, v.fresh j h, get-set s.base.ready id j ready_closed);
    remembered = v.remembered;
    capped = v.capped;
  }

  pub dropped_current :
      (id : ℕ)
      → may_go (Map.get s.base.ready id) ≡ true
      → opt_is s.base.socket id ≡ true
      → s.base.closed_by_caller ≡ false
      → dropped s.base id
        ≡ schedule_reconnect (record s.base { ready = Map.set s.base.ready id ready_closed })
  unfolding dropped on_socket_close
  dropped_current id g c o = ground (arith, g, c, o)

  pub dropped-IsLive : (id : ℕ) → IsLive (record s { base = dropped s.base id })
  unfolding dropped on_socket_close
  dropped-IsLive id = elim (Bool-cases (may_go (Map.get s.base.ready id))) [
    | inr g ↦ rw (dropped, g) v
    | inl g ↦ elim (Bool-cases (opt_is s.base.socket id)) [
      | inl c ↦
          let at : s.base.socket ≡ some id = ground (arith, c) in
          let open_yet : s.base.closed_by_caller ≡ false = ground (arith, at, v.wanted) in
          subst (λ (b : ReconnectingSocket). IsLive (record s { base = b }))
            (sym (dropped_current id g c open_yet)) (gone-IsLive id at g)
      | inr c ↦
          rw (dropped, g, on_socket_close, c)
            (elsewhere-IsLive id ready_closed c refl (ground (arith, g)))
    ]
  ]

  pub close-IsLive : IsLive (record s { base = close s.base })
  unfolding close close_ready clear_timer
  close-IsLive = record {
    wanted = refl;
    alive_or_gone = λ j e. cc;
    no_other = λ j e. elim (Option-cases s.base.socket) [
      | inl n ↦ ground (arith, n, v.no_other j)
      | inr (id, n) ↦
          ground
            (arith, n, v.no_other j, get-set s.base.ready id j (closing (Map.get s.base.ready id)))
    ];
    timers = λ t. elim (Option-cases s.base.reconnect_timer) [
      | inl n ↦ ground (arith, n, v.timers t)
      | inr (r, n) ↦ ground (arith, n, v.timers t, get-delete s.base.timers r t)
    ];
    timer_set = λ d. cc;
    asked_for = λ j e. cc;
    fresh = λ j h. elim (Option-cases s.base.socket) [
      | inl n ↦ ground (arith, n, v.fresh j h)
      | inr (id, n) ↦ ground (
        arith,
        n,
        v.fresh j h,
        v.alive_or_gone id n,
        get-set s.base.ready id j (closing (Map.get s.base.ready id)),
      )
    ];
    remembered = v.remembered;
    capped = v.capped;
  }
