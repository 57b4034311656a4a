-- ===== src/Subscriptions/Outbox/Bodies.antt =====
-- What the loop bodies of core/src/ws/subscriptions.ts do for one socket.
use ride_location_tracking_e.Common.{
  ℕ, ◌≡◌, refl, ◌∙◌, Bool, true, false, ◌&&◌, Option, none, some, [], ◌∷◌, ◌++◌, arith, ◌==◌,
  if◌then◌else◌, Option-cases, Bool-cases, inl, inr, opt_is, ap, sym, subst,
}
use ride_location_tracking_e.Common.Map
use ride_location_tracking_e.Common.Map.{Map, get-set, get-delete}
use ride_location_tracking_e.Delta.{encode_location_message, sent_state}
use ride_location_tracking_e.Subscriptions.Invariant.{has_socket}
use ride_location_tracking_e.Subscriptions.Effects.{
  infos-broadcast_to, infos-rematch, rematch_keeps,
}
use ride_location_tracking_e.Subscriptions.{
  Registry, SubscriberInfo, OutMessage, EndReason, RawDriverLocationUpdate, detach, send_json,
  rematch, end_subscription, broadcast_to, trip_matched, unsubscribed, location_update,
}
use ride_location_tracking_e.Subscriptions.Outbox.{sent_to, sent_to-append, Seen, seen, same_seen}

-- What a broadcast of the driver it follows does for a socket.
unfoldable pub heard_update :
    Bool → ℕ → RawDriverLocationUpdate → Option SubscriberInfo → Seen → Seen
heard_update is_open step u none v = v
heard_update is_open step u (some info) v = record {
  current = v.current;
  info = some (record info { last_sent = some (sent_state u.position u.meta) });
  sent =
      if is_open
      then v.sent
        ++ location_update (encode_location_message step info.last_sent u.position u.meta) ∷ []
      else v.sent;
}

-- What the notice of a match of its trip does for a socket.
unfoldable pub heard_match : Bool → ℕ → ℕ → Option SubscriberInfo → Seen → Seen
heard_match is_open t d none v = v
heard_match is_open t d (some info) v = record {
  current = v.current;
  info = some (record info { driver_id = some d });
  sent = if is_open then v.sent ++ trip_matched t d ∷ [] else v.sent;
}

-- What the end of its trip does for a socket.
unfoldable pub heard_end : Bool → ℕ → EndReason → Option SubscriberInfo → Seen → Seen
heard_end is_open t reason none v = v
heard_end is_open t reason (some info) v = record {
  current = none;
  info = some info;
  sent = if is_open then v.sent ++ unsubscribed t reason ∷ [] else v.sent;
}

module _ (s j : ℕ) where
  pub seen-detach :
      (r : Registry) (x : ℕ)
      → has_socket (Map.get r.infos x) s ≡ false
      → seen s j (detach r x) ≡ seen s j r
  unfolding detach
  seen-detach r x q = elim (Option-cases (Map.get r.infos x)) [
    | inl e ↦ rw (detach, e) refl
    | inr (info, e) ↦
        rw (detach, e)
          (same_seen _ _ (get-delete r.by_socket info.socket s ∙ ground (arith, e, q)) refl refl)
  ]

  pub seen-detach_mine :
      (r : Registry)
      → has_socket (Map.get r.infos j) s ≡ true
      → seen s j (detach r j)
        ≡ record { current = none; info = Map.get r.infos j; sent = sent_to s r.outbox }
  unfolding detach
  seen-detach_mine r h = elim (Option-cases (Map.get r.infos j)) [
    | inl e ↦ ground (arith, e, h)
    | inr (info, e) ↦
        rw (detach, e)
          (same_seen _ _ (get-delete r.by_socket info.socket s ∙ ground (arith, e, h)) e refl)
  ]

module _ (is_open : ℕ → Bool) (s j : ℕ) where
  sent_to-send_json :
      (r : Registry) (q : ℕ) (m : OutMessage)
      → sent_to s (send_json is_open r q m).outbox
        ≡ (if (q == s) && is_open s then sent_to s r.outbox ++ m ∷ [] else sent_to s r.outbox)
  unfolding send_json
  sent_to-send_json r q m = elim (Bool-cases (is_open q)) [
    | inl e ↦ rw (send_json, e) (ground (arith, e, sent_to-append s q m r.outbox))
    | inr e ↦ rw (send_json, e) (ground (arith, e))
  ]

  send_json_keeps :
      (r : Registry) (q : ℕ) (m : OutMessage)
      → ((send_json is_open r q m).by_socket ≡ r.by_socket)
        × ((send_json is_open r q m).infos ≡ r.infos)
  unfolding send_json
  send_json_keeps r q m = ground arith

  module _ (byte_length : OutMessage → ℕ) (step : ℕ) (u : RawDriverLocationUpdate) where
    pub keeps-broadcast_to :
        (r : Registry) (x y : ℕ)
        → has_socket (Map.get (broadcast_to is_open byte_length step u r x).infos y) s
          ≡ has_socket (Map.get r.infos y) s
    keeps-broadcast_to r x y = ground (arith, infos-broadcast_to is_open byte_length step u r x y)

    by_socket-broadcast_to :
        (r : Registry) (x : ℕ)
        → (broadcast_to is_open byte_length step u r x).by_socket ≡ r.by_socket
    unfolding broadcast_to send_json
    by_socket-broadcast_to r x = ground arith

    sent_to-broadcast_to :
        (r : Registry) (x : ℕ) (info : SubscriberInfo)
        → Map.get r.infos x ≡ some info
        → sent_to s (broadcast_to is_open byte_length step u r x).outbox ≡ (
            if (info.socket == s) && is_open s
            then sent_to s r.outbox
              ++ location_update (encode_location_message step info.last_sent u.position u.meta)
                ∷ []
            else sent_to s r.outbox)
    unfolding broadcast_to
    sent_to-broadcast_to r x info e = rw (broadcast_to, e) (sent_to-send_json r info.socket _)

    pub quiet-broadcast_to :
        (r : Registry) (x : ℕ)
        → (x == j) ≡ false
        → has_socket (Map.get r.infos x) s ≡ false
        → seen s j (broadcast_to is_open byte_length step u r x) ≡ seen s j r
    unfolding broadcast_to
    quiet-broadcast_to r x n q = elim (Option-cases (Map.get r.infos x)) [
      | inl e ↦ rw (broadcast_to, e) refl
      | inr (info, e) ↦
          same_seen _ _ (ap (λ b. Map.get b s) (by_socket-broadcast_to r x))
            (infos-broadcast_to is_open byte_length step u r x j ∙ ground (arith, n))
            (sent_to-broadcast_to r x info e ∙ ground (arith, e, q))
    ]

    pub hit-broadcast_to :
        (r : Registry)
        → has_socket (Map.get r.infos j) s ≡ true
        → seen s j (broadcast_to is_open byte_length step u r j)
          ≡ heard_update (is_open s) step u (Map.get r.infos j) (seen s j r)
    unfolding broadcast_to heard_update
    hit-broadcast_to r h = elim (Option-cases (Map.get r.infos j)) [
      | inl e ↦ rw (broadcast_to, e) (same_seen _ _ refl e refl)
      | inr (info, e) ↦
          subst
            (λ o.
              seen s j (broadcast_to is_open byte_length step u r j)
              ≡ heard_update (is_open s) step u o (seen s j r))
            (sym e)
            (same_seen _ _ (ap (λ b. Map.get b s) (by_socket-broadcast_to r j))
              (infos-broadcast_to is_open byte_length step u r j j ∙ ground (arith, e))
              (sent_to-broadcast_to r j info e ∙ ground (arith, e, h)))
    ]

  module _ (t d : ℕ) where
    pub keeps-rematch :
        (r : Registry) (x y : ℕ)
        → has_socket (Map.get (rematch is_open t d r x).infos y) s
          ≡ has_socket (Map.get r.infos y) s
    keeps-rematch r x y = ground (arith, infos-rematch is_open t d r x y)

    sent_to-rematch :
        (r : Registry) (x : ℕ) (info : SubscriberInfo)
        → Map.get r.infos x ≡ some info
        → sent_to s (rematch is_open t d r x).outbox ≡ (
            if (info.socket == s) && is_open s
            then sent_to s r.outbox ++ trip_matched t d ∷ []
            else sent_to s r.outbox)
    unfolding rematch
    sent_to-rematch r x info e = elim (Bool-cases (opt_is info.driver_id d)) [
      | inl o ↦ rw (rematch, e, o) (sent_to-send_json r info.socket (trip_matched t d))
      | inr o ↦ rw (rematch, e, o) (sent_to-send_json _ info.socket (trip_matched t d))
    ]

    pub quiet-rematch :
        (r : Registry) (x : ℕ)
        → (x == j) ≡ false
        → has_socket (Map.get r.infos x) s ≡ false
        → seen s j (rematch is_open t d r x) ≡ seen s j r
    unfolding rematch
    quiet-rematch r x n q = elim (Option-cases (Map.get r.infos x)) [
      | inl e ↦ rw (rematch, e) refl
      | inr (info, e) ↦
          same_seen _ _ (ap (λ b. Map.get b s) (rematch_keeps is_open t d r x).1)
            (infos-rematch is_open t d r x j ∙ ground (arith, n))
            (sent_to-rematch r x info e ∙ ground (arith, e, q))
    ]

    pub hit-rematch :
        (r : Registry)
        → has_socket (Map.get r.infos j) s ≡ true
        → seen s j (rematch is_open t d r j)
          ≡ heard_match (is_open s) t d (Map.get r.infos j) (seen s j r)
    unfolding rematch heard_match
    hit-rematch r h = elim (Option-cases (Map.get r.infos j)) [
      | inl e ↦ rw (rematch, e) (same_seen _ _ refl e refl)
      | inr (info, e) ↦
          subst
            (λ o. seen s j (rematch is_open t d r j) ≡ heard_match (is_open s) t d o (seen s j r))
            (sym e)
            (same_seen _ _ (ap (λ b. Map.get b s) (rematch_keeps is_open t d r j).1)
              (infos-rematch is_open t d r j j ∙ ground (arith, e))
              (sent_to-rematch r j info e ∙ ground (arith, e, h)))
    ]

  module _ (t : ℕ) (reason : EndReason) where
    pub keeps-end_subscription :
        (r : Registry) (x y : ℕ)
        → has_socket (Map.get (end_subscription is_open t reason r x).infos y) s
          ≡ has_socket (Map.get r.infos y) s
    unfolding end_subscription detach send_json
    keeps-end_subscription r x y = ground arith

    pub quiet-end_subscription :
        (r : Registry) (x : ℕ)
        → (x == j) ≡ false
        → has_socket (Map.get r.infos x) s ≡ false
        → seen s j (end_subscription is_open t reason r x) ≡ seen s j r
    unfolding end_subscription
    quiet-end_subscription r x n q = elim (Option-cases (Map.get r.infos x)) [
      | inl e ↦ rw (end_subscription, e) refl
      | inr (info, e) ↦
          let m = unsubscribed t reason in
          let k = send_json_keeps r info.socket m in
          rw (end_subscription, e)
            (seen-detach s j (send_json is_open r info.socket m) x
                (ap (λ b. has_socket (Map.get b x) s) k.1 ∙ q)
              ∙ same_seen _ _ (ap (λ b. Map.get b s) k.0) (ap (λ b. Map.get b j) k.1)
                  (sent_to-send_json r info.socket m ∙ ground (arith, e, q)))
    ]

    pub hit-end_subscription :
        (r : Registry)
        → has_socket (Map.get r.infos j) s ≡ true
        → seen s j (end_subscription is_open t reason r j)
          ≡ heard_end (is_open s) t reason (Map.get r.infos j) (seen s j r)
    unfolding end_subscription heard_end
    hit-end_subscription r h = elim (Option-cases (Map.get r.infos j)) [
      | inl e ↦ rw (end_subscription, e) (same_seen _ _ refl e refl)
      | inr (info, e) ↦
          let m = unsubscribed t reason in
          let k = send_json_keeps r info.socket m in
          rw (end_subscription, e)
            (seen-detach_mine s j (send_json is_open r info.socket m)
                (ap (λ b. has_socket (Map.get b j) s) k.1 ∙ h)
              ∙ same_seen _ _ refl (ap (λ b. Map.get b j) k.1 ∙ e)
                  (sent_to-send_json r info.socket m ∙ ground (arith, e, h)))
    ]
