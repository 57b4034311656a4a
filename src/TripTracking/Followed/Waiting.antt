-- ===== src/TripTracking/Followed/Waiting.antt =====
-- A rider who subscribes before the trip has a driver (core/src/ws/subscriptions.ts, frontend/src/hooks).
use ride_location_tracking_e.Common.{
  append_assoc, ℕ, ◌<◌, ◌≡◌, refl, ◌∙◌, Bool, true, false, none, some, List, [], ◌∷◌, ◌++◌, arith,
  ap, sym, ◌==◌, All,
}
use ride_location_tracking_e.Domain.{LatLng, matched as is_matched}
use ride_location_tracking_e.Delta.{EncodeMeta}
use ride_location_tracking_e.Subscriptions.{
  Registry, OutMessage, init, trip_matched as sent_match, replace_existing,
}
use ride_location_tracking_e.Subscriptions.Calls.{
  Call, subscribe_driver, subscribe_trip, disconnect, matched, ended, broadcast as broadcast_call,
  shut_down, perform, perform_all, perform-Inv, perform_all-init-Inv,
}
use ride_location_tracking_e.Subscriptions.Invariant.{Inv}
use ride_location_tracking_e.Subscriptions.Index.{member}
use ride_location_tracking_e.Subscriptions.Sets.{
  IsSetwise, perform-IsSetwise, perform_all-init-IsSetwise,
}
use ride_location_tracking_e.Subscriptions.Outbox.{sent_to, Seen, seen, same_seen}
use ride_location_tracking_e.Subscriptions.Outbox.Bodies.{heard_match}
use ride_location_tracking_e.Subscriptions.Outbox.Heard.{
  seen-broadcast, seen-matched, seen-ended, seen-disconnect, seen-subscribe_to_driver,
  seen-subscribe_to_trip, seen-subscribed,
}
use ride_location_tracking_e.TripTracking.{TripTrackingState, apply_trip_message}
use ride_location_tracking_e.TripTracking.Followed.{show_all, Undisturbed, broadcasts}
use ride_location_tracking_e.TripTracking.Followed.Through.{rider}
use ride_location_tracking_e.TripTracking.Followed.Riders.{Sees, followed-Sees}

module _ (s t : ℕ) where
  -- The call leaves the socket's subscription to the trip as it is, and does not match the trip.
  abbrev pub KeepsWaiting : Call → Type 0
  KeepsWaiting (subscribe_driver q x) = (q == s) ≡ false
  KeepsWaiting (subscribe_trip q x y) = (q == s) ≡ false
  KeepsWaiting (disconnect q) = (q == s) ≡ false
  KeepsWaiting (matched x y) = (x == t) ≡ false
  KeepsWaiting (ended x reason) = (x == t) ≡ false
  KeepsWaiting (broadcast_call x u) = Unit {0}
  KeepsWaiting shut_down = ⊥

  module _ (j : ℕ) where
    -- What the socket has of the registry while there is no driver.
    abbrev waiter : List OutMessage → Seen
    waiter sent = record {
      current = some j;
      info = some (record { socket = s; driver_id = none; trip_id = some t; last_sent = none });
      sent = sent;
    }

    member-waiter :
        (r : Registry) (sent : List OutMessage) (x : ℕ)
        → Inv r
        → seen s j r ≡ waiter sent
        → (member r.by_trip x j ≡ (x == t)) × (member r.by_driver x j ≡ false)
    member-waiter r sent x v f = (
      ground (arith, v.trips x j, ap (λ p. p.current) f, ap (λ p. p.info) f),
      ground (arith, v.drivers x j, ap (λ p. p.current) f, ap (λ p. p.info) f),
    )

    module _ (is_open : ℕ → Bool) (byte_length : OutMessage → ℕ) (step : ℕ) where
      seen-waiter :
          (r : Registry) (sent : List OutMessage) (c : Call)
          → Inv r
          → IsSetwise r
          → seen s j r ≡ waiter sent
          → KeepsWaiting c
          → seen s j (perform is_open byte_length step r c) ≡ waiter sent
      unfolding perform
      seen-waiter r sent (subscribe_driver q x) v w f n =
          seen-subscribe_to_driver r s j v (ap (λ p. p.current) f) q x n ∙ f
      seen-waiter r sent (subscribe_trip q x y) v w f n =
          seen-subscribe_to_trip r s j v (ap (λ p. p.current) f) q x y n ∙ f
      seen-waiter r sent (disconnect q) v w f n =
          seen-disconnect r s j v (ap (λ p. p.current) f) q n ∙ f
      seen-waiter r sent (matched x y) v w f n =
          seen-matched r s j v (ap (λ p. p.current) f) w is_open x y
          ∙ rw ((member-waiter r sent x v f).0, n) f
      seen-waiter r sent (ended x reason) v w f n =
          seen-ended r s j v (ap (λ p. p.current) f) w is_open x reason
          ∙ rw ((member-waiter r sent x v f).0, n) f
      seen-waiter r sent (broadcast_call x u) v w f n =
          seen-broadcast r s j v (ap (λ p. p.current) f) w is_open byte_length step x u
          ∙ rw (member-waiter r sent x v f).1 f
      seen-waiter r sent shut_down v w f n = elim n [ ]

      seen-waiter_after :
          (r : Registry) (sent : List OutMessage) (cs : List Call)
          → Inv r
          → IsSetwise r
          → seen s j r ≡ waiter sent
          → All KeepsWaiting cs
          → Inv (perform_all is_open byte_length step r cs)
            × IsSetwise (perform_all is_open byte_length step r cs)
            × (seen s j (perform_all is_open byte_length step r cs) ≡ waiter sent)
      unfolding perform_all
      seen-waiter_after r sent [] v w f h = (v, w, f)
      seen-waiter_after r sent (c ∷ cs) v w f h =
          seen-waiter_after (perform is_open byte_length step r c) sent cs
            (perform-Inv is_open byte_length step r c v)
            (perform-IsSetwise is_open byte_length step r c w) (seen-waiter r sent c v w f h.0) h.1

      -- The match, to the socket that waited for it.
      seen-match :
          (d : ℕ) (r : Registry) (sent : List OutMessage)
          → Inv r
          → IsSetwise r
          → seen s j r ≡ waiter sent
          → is_open s ≡ true
          → seen s j (perform is_open byte_length step r (matched t d))
            ≡ rider step s t d j none (sent ++ sent_match t d ∷ [])
      unfolding perform heard_match
      seen-match d r sent v w f opened =
          seen-matched r s j v (ap (λ p. p.current) f) w is_open t d
          ∙ rw ((member-waiter r sent t v f).0 ∙ same) (
              ap (λ p. heard_match (is_open s) t d p.info p) f
              ∙ same_seen _ _ refl refl (ground (arith, opened)))
        where
          same : (t == t) ≡ true
          same = ground arith

-- Whatever calls came before, a rider whose socket, open from then on, subscribes to a trip before it has a driver, is
-- sent, once the trip is matched with the driver `d`, and a first position `first` and the further ones `us` of this
-- driver were broadcast, messages over which the screen, whatever it showed before, shows a position within half a
-- quantization step for each of `us`, on each axis, of the last one broadcast, with its status: whatever is called
-- meanwhile for other sockets, trips and drivers, and whenever the match is made known again, if the socket neither
-- leaves, moves or asks anew, the trip does not end or change its driver, the server is not shut down, and a broadcast
-- after the match is of the driver's own position.
pub waiting_rider-Sees :
    (is_open : ℕ → Bool) (byte_length : OutMessage → ℕ) (step : ℕ) (before waiting cs : List Call)
    (s t d : ℕ) (shown : TripTrackingState) (first : LatLng × EncodeMeta)
    (us : List (LatLng × EncodeMeta))
    → 0 < step
    → is_open s ≡ true
    → All (KeepsWaiting s t) waiting
    → All (Undisturbed s t d) cs
    → broadcasts d cs ≡ first ∷ us
    → let begun =
        perform is_open byte_length step
          (perform_all is_open byte_length step init before)
          (subscribe_trip s t none) in
      let waited = perform_all is_open byte_length step begun waiting in
      Sees is_open byte_length step s t d first us begun (some (shown, false)) (
        perform_all is_open byte_length step
          (perform is_open byte_length step waited (matched t d))
          cs)
unfolding perform show_all apply_trip_message
waiting_rider-Sees is_open byte_length step before waiting cs s t d shown first us h opened quiet
      all e =
    let r = perform_all is_open byte_length step init before in
    let c = subscribe_trip s t none in
    let begun = perform is_open byte_length step r c in
    let j = (replace_existing r s).next_info in
    let sent = sent_to s begun.outbox in
    let (v, w, f) =
      seen-waiter_after s t j is_open byte_length step begun sent waiting
        (perform-Inv is_open byte_length step r c
          (perform_all-init-Inv is_open byte_length step before))
        (perform-IsSetwise is_open byte_length step r c
          (perform_all-init-IsSetwise is_open byte_length step before))
        (seen-subscribed r s t none) quiet in
    let waited = perform_all is_open byte_length step begun waiting in
    let following = perform is_open byte_length step waited (matched t d) in
    let g = seen-match s t j is_open byte_length step d waited sent v w f opened in
    let told : sent_to s following.outbox ≡ sent ++ sent_match t d ∷ [] = ap (λ x. x.sent) g in
    let (ms, p, a, shows, tracks) =
      followed-Sees is_open byte_length step s t d first us following j cs
        (record shown { status = is_matched; driver_id = some d })
        (perform-Inv is_open byte_length step waited (matched t d) v)
        (perform-IsSetwise is_open byte_length step waited (matched t d) w)
        (g ∙ ap (rider step s t d j none) (sym told)) h opened refl all e in
    (
      sent_match t d ∷ ms,
      p,
      a ∙ ap (λ xs. xs ++ ms) told ∙ append_assoc sent (sent_match t d ∷ []) ms,
      shows,
      tracks,
    )
