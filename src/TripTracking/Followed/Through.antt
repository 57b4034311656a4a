-- ===== src/TripTracking/Followed/Through.antt =====
-- What the calls of core/src/ws/subscriptions.ts send to a rider's socket, and the screen over these messages.
use ride_location_tracking_e.Common.{
  append-nil, append_assoc, ℕ, ◌≡◌, refl, ◌∙◌, Bool, true, Option, some, List, [], ◌∷◌, ◌++◌, arith,
  ap, sym, ◌==◌, Bool-cases, inl, inr, All,
}
use ride_location_tracking_e.Delta.{LastKnownState, encode_location_message, sent_state}
use ride_location_tracking_e.Subscriptions.{
  Registry, OutMessage, location_update, trip_matched as sent_match,
}
use ride_location_tracking_e.Subscriptions.Calls.{
  Call, subscribe_driver, subscribe_trip, disconnect, matched, ended, broadcast as broadcast_call,
  shut_down, perform, perform_all, perform-Inv,
}
use ride_location_tracking_e.Subscriptions.Invariant.{Inv}
use ride_location_tracking_e.Subscriptions.Index.{member}
use ride_location_tracking_e.Subscriptions.Sets.{IsSetwise, perform-IsSetwise}
use ride_location_tracking_e.Subscriptions.Outbox.{Seen, seen, same_seen}
use ride_location_tracking_e.Subscriptions.Outbox.Bodies.{heard_update, heard_match}
use ride_location_tracking_e.Subscriptions.Outbox.Heard.{
  seen-broadcast, seen-matched, seen-ended, seen-disconnect, seen-subscribe_to_driver,
  seen-subscribe_to_trip,
}
use ride_location_tracking_e.TripTracking.{Applied}
use ride_location_tracking_e.TripTracking.Shown.{Event, see, see_all, then_apply}
use ride_location_tracking_e.TripTracking.Followed.{
  read_message, show_all, Undisturbed, Heard, nothing, match, moved, heard_of, then_events, events,
}

module _ (step s t d j : ℕ) where
  -- What the rider's socket has of the registry.
  abbrev pub rider : Option LastKnownState → List OutMessage → Seen
  rider last sent = record {
    current = some j;
    info = some (record { socket = s; driver_id = some d; trip_id = some t; last_sent = last });
    sent = sent;
  }

  abbrev pub last_after : Option LastKnownState → Heard → Option LastKnownState
  last_after last nothing = last
  last_after last match = last
  last_after last (moved u) = some (sent_state u.0 u.1)

  abbrev pub messages_for : Option LastKnownState → Heard → List OutMessage
  messages_for last nothing = []
  messages_for last match = sent_match t d ∷ []
  messages_for last (moved u) = location_update (encode_location_message step last u.0 u.1) ∷ []

  abbrev pub rider_after : Option LastKnownState → List OutMessage → Heard → Seen
  rider_after last sent nothing = rider last sent
  rider_after last sent h = rider (last_after last h) (sent ++ messages_for last h)

  module _ (is_open : ℕ → Bool) (byte_length : OutMessage → ℕ) (opened : is_open s ≡ true) where
    member-rider :
        (r : Registry) (last : Option LastKnownState) (sent : List OutMessage) (x : ℕ)
        → Inv r
        → seen s j r ≡ rider last sent
        → (member r.by_trip x j ≡ (x == t)) × (member r.by_driver x j ≡ (x == d))
    member-rider r last sent x v f = (
      ground (arith, v.trips x j, ap (λ p. p.current) f, ap (λ p. p.info) f),
      ground (arith, v.drivers x j, ap (λ p. p.current) f, ap (λ p. p.info) f),
    )

    -- One call, to the rider's socket.
    seen-perform :
        (r : Registry) (last : Option LastKnownState) (sent : List OutMessage) (c : Call)
        → Inv r
        → IsSetwise r
        → seen s j r ≡ rider last sent
        → Undisturbed s t d c
        → seen s j (perform is_open byte_length step r c) ≡ rider_after last sent (heard_of t d c)
    unfolding perform heard_update heard_match
    seen-perform r last sent (subscribe_driver q x) v w f n =
        seen-subscribe_to_driver r s j v (ap (λ p. p.current) f) q x n ∙ f
    seen-perform r last sent (subscribe_trip q x y) v w f n =
        seen-subscribe_to_trip r s j v (ap (λ p. p.current) f) q x y n ∙ f
    seen-perform r last sent (disconnect q) v w f n =
        seen-disconnect r s j v (ap (λ p. p.current) f) q n ∙ f
    seen-perform r last sent (matched x y) v w f n =
        seen-matched r s j v (ap (λ p. p.current) f) w is_open x y ∙ elim (Bool-cases (x == t)) [
          | inl e ↦
              rw ((member-rider r last sent x v f).0, e)
                (ap (λ p. heard_match (is_open s) x y p.info p) f
                  ∙ same_seen _ _ refl
                      (ap
                        (λ k. some (record {
                          socket = s;
                          driver_id = some k;
                          trip_id = some t;
                          last_sent = last;
                        }))
                        (n e))
                      (ground (arith, opened, n e, e)))
          | inr e ↦ rw ((member-rider r last sent x v f).0, e) f
        ]
    seen-perform r last sent (ended x reason) v w f n =
        seen-ended r s j v (ap (λ p. p.current) f) w is_open x reason
        ∙ rw ((member-rider r last sent x v f).0, n) f
    seen-perform r last sent (broadcast_call x u) v w f n =
        seen-broadcast r s j v (ap (λ p. p.current) f) w is_open byte_length step x u
        ∙ elim (Bool-cases (x == d)) [
          | inl e ↦
              rw ((member-rider r last sent x v f).1, e)
                (ap (λ p. heard_update (is_open s) step u p.info p) f
                  ∙ same_seen _ _ refl refl (ground (arith, opened)))
          | inr e ↦ rw ((member-rider r last sent x v f).1, e) f
        ]
    seen-perform r last sent shut_down v w f n = elim n [ ]

  -- The socket from then on, against the screen and the server's memory of it.
  abbrev pub Through :
      List Event → Registry → Option LastKnownState → List OutMessage → Applied → Type 0
  Through es after last sent screen =
      (ms : List OutMessage) × (now : Option LastKnownState) × (seen s j after
        ≡ rider now (sent ++ ms))
      × (see_all step (record { server = last; screen = screen }) es
          ≡ record { server = now; screen = show_all step screen ms })

  heard-Through :
      (h : Heard) (es : List Event) (r after : Registry) (last : Option LastKnownState)
      (sent : List OutMessage) (screen : Applied)
      → seen s j r ≡ rider_after last sent h
      → ((last' : Option LastKnownState) (sent' : List OutMessage) (screen' : Applied)
          → seen s j r ≡ rider last' sent'
          → Through es after last' sent' screen')
      → Through (then_events t d h es) after last sent screen
  unfolding see_all see show_all
  heard-Through nothing es r after last sent screen f rest = rest last sent screen f
  heard-Through match es r after last sent screen f rest =
      let m = sent_match t d in
      let (ms, now, a, b) =
        rest last (sent ++ m ∷ []) (then_apply step screen (read_message m)) f in
      (m ∷ ms, now, a ∙ ap (rider now) (append_assoc sent (m ∷ []) ms), b)
  heard-Through (moved u) es r after last sent screen f rest =
      let m = location_update (encode_location_message step last u.0 u.1) in
      let (ms, now, a, b) =
        rest (some (sent_state u.0 u.1)) (sent ++ m ∷ []) (then_apply step screen (read_message m))
          f in
      (m ∷ ms, now, a ∙ ap (rider now) (append_assoc sent (m ∷ []) ms), b)

  module _ (is_open : ℕ → Bool) (byte_length : OutMessage → ℕ) (opened : is_open s ≡ true) where
    pub perform_all-Through :
        (cs : List Call) (r : Registry) (last : Option LastKnownState) (sent : List OutMessage)
        (screen : Applied)
        → Inv r
        → IsSetwise r
        → All (Undisturbed s t d) cs
        → seen s j r ≡ rider last sent
        → Through (events t d cs) (perform_all is_open byte_length step r cs) last sent screen
    unfolding perform_all see_all show_all
    perform_all-Through [] r last sent screen v w h f =
        ([], last, f ∙ ap (rider last) (sym (append-nil sent)), refl)
    perform_all-Through (c ∷ cs) r last sent screen v w h f =
        heard-Through (heard_of t d c) (events t d cs) (perform is_open byte_length step r c)
          (perform_all is_open byte_length step (perform is_open byte_length step r c) cs) last sent
          screen (seen-perform is_open byte_length opened r last sent c v w f h.0)
          (λ last' sent' screen' f'.
            perform_all-Through cs (perform is_open byte_length step r c) last' sent' screen'
              (perform-Inv is_open byte_length step r c v)
              (perform-IsSetwise is_open byte_length step r c w) h.1 f')
