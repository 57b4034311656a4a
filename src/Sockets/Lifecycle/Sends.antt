-- ===== src/Sockets/Lifecycle/Sends.antt =====
-- A message of a subscriber (frontend/src/ws/reconnectingSocket.ts).
use ride_location_tracking_e.Common.{
  ℕ, ◌≡◌, ◌∙◌, true, false, Option, none, some, [], ◌∷◌, ◌++◌, or_default, arith, Bool-cases,
  Option-cases, inl, inr,
}
use ride_location_tracking_e.Common.Map
use ride_location_tracking_e.Common.Map.{Map, get-set, get-delete, get-empty}
use ride_location_tracking_e.Sockets.{ClientMessage, SubscriberSocket, is_open, send}
use ride_location_tracking_e.Sockets.Lifecycle.{
  asked, asked-append, Decides, wanted-Decides, IsLive,
}

module _ (s : SubscriberSocket) (v : IsLive s) where
  module _ (m : ClientMessage) (wanted : Option ClientMessage) (decides : Decides m wanted) where
    abbrev asking : SubscriberSocket
    asking = record { base = (send s.base m).0; subscribe_message = wanted }

    -- Nothing is sent.
    unsent-IsLive :
        (send s.base m).0 ≡ s.base
        → ((j : ℕ) → s.base.socket ≡ some j → is_open (Map.get s.base.ready j) ≡ false)
        → IsLive asking
    unsent-IsLive e shut = rw e (record {
      wanted = v.wanted;
      alive_or_gone = v.alive_or_gone;
      no_other = v.no_other;
      timers = v.timers;
      timer_set = v.timer_set;
      asked_for = λ j at l. ground (arith, v.asked_for j at l, shut j at);
      remembered = wanted-Decides m wanted decides;
      fresh = v.fresh;
      capped = v.capped;
    })

    sent-IsLive :
        (id : ℕ)
        → s.base.socket ≡ some id
        → is_open (Map.get s.base.ready id) ≡ true
        → IsLive asking
    unfolding send
    sent-IsLive id at o =
        let old = or_default (Map.get s.base.sent id) [] in
        let now_asked : asked none (old ++ m ∷ []) ≡ wanted =
          asked-append old none m ∙ decides (asked none old) in
        rw (send, at, o)
          (record {
            wanted = v.wanted;
            alive_or_gone = v.alive_or_gone;
            no_other = v.no_other;
            timers = v.timers;
            timer_set = v.timer_set;
            asked_for = λ j e l.
                ground (arith, at, e, o, now_asked, get-set s.base.sent id j (old ++ m ∷ []));
            remembered = wanted-Decides m wanted decides;
            fresh = v.fresh;
            capped = v.capped;
          })

    pub send-IsLive : IsLive asking
    unfolding send
    send-IsLive = elim (Option-cases s.base.socket) [
      | inl e ↦ unsent-IsLive (ground (arith, e)) (λ j at. absurd (ground (arith, e, at)))
      | inr (id, e) ↦ elim (Bool-cases (is_open (Map.get s.base.ready id))) [
        | inl o ↦ sent-IsLive id e o
        | inr o ↦ unsent-IsLive (ground (arith, e, o)) (λ j at. ground (arith, e, at, o))
      ]
    ]
