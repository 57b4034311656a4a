-- ===== src/Subscriptions/Notices.antt =====
-- The end of a trip, a broadcast and the shutdown of core/src/ws/subscriptions.ts keep the indexes consistent.
use ride_location_tracking_e.Common.{
  ℕ, ◌≡◌, refl, Bool, true, some, arith, Option-cases, Bool-cases, inl, inr, for_each_inv,
  for_each_all, All-mono,
}
use ride_location_tracking_e.Common.Map
use ride_location_tracking_e.Common.Map.{Map, All-values, get-set, get-delete, get-empty}
use ride_location_tracking_e.Delta.{sent_state}
use ride_location_tracking_e.Subscriptions.Invariant.{
  Inv, wants_trip, NotReplaced, detach-Inv, current-NotReplaced,
}
use ride_location_tracking_e.Subscriptions.{
  Registry, OutMessage, EndReason, RawDriverLocationUpdate, detach, end_subscription,
  notify_trip_status_changed, broadcast_to, broadcast_driver_location, close_subscriber,
  close_all_subscriber_connections, send_json, unsubscribed,
}
use ride_location_tracking_e.Subscriptions.Matches.{
  trip_members, repacked, send_json-Inv, resent-Inv,
}

-- Detaching one object leaves another one free to be detached.
detach-NotReplaced : (r : Registry) (x y : ℕ) → NotReplaced r y → NotReplaced (detach r x) y
unfolding detach
detach-NotReplaced r x y n = elim (Option-cases (Map.get r.infos x)) [
  | inl e ↦ rw (e, detach) n
  | inr (info, e) ↦
      rw (e, detach)
        (λ other f. ground (arith, n other f, get-delete r.by_socket info.socket other.socket))
]

module _ (is_open : ℕ → Bool) where
  send_json-NotReplaced :
      (r : Registry) (s : ℕ) (m : OutMessage) (y : ℕ)
      → NotReplaced r y
      → NotReplaced (send_json is_open r s m) y
  unfolding send_json
  send_json-NotReplaced r s m y n = elim (Bool-cases (is_open s)) [
    | inl e ↦ rw (e, send_json) n
    | inr e ↦ rw (e, send_json) n
  ]

  module _ (t : ℕ) (reason : EndReason) where
    end_subscription-Inv :
        (r : Registry) (id : ℕ)
        → Inv r
        → NotReplaced r id
        → Inv (end_subscription is_open t reason r id)
    unfolding end_subscription
    end_subscription-Inv r id v n = elim (Option-cases (Map.get r.infos id)) [
      | inl e ↦ rw (e, end_subscription) v
      | inr (info, e) ↦
          rw (e, end_subscription)
            (detach-Inv _ id (send_json-NotReplaced r info.socket (unsubscribed t reason) id n)
              (send_json-Inv is_open r info.socket (unsubscribed t reason) v))
    ]

    end_subscription-NotReplaced :
        (r : Registry) (x y : ℕ)
        → Inv r
        → NotReplaced r x
        → NotReplaced r y
        → NotReplaced (end_subscription is_open t reason r x) y
    unfolding end_subscription
    end_subscription-NotReplaced r x y v p q = elim (Option-cases (Map.get r.infos x)) [
      | inl e ↦ rw (e, end_subscription) q
      | inr (info, e) ↦
          rw (e, end_subscription)
            (detach-NotReplaced _ x y
              (send_json-NotReplaced r info.socket (unsubscribed t reason) y q))
    ]

    pub notify_trip_status_changed-Inv :
        (r : Registry) → Inv r → Inv (notify_trip_status_changed is_open r t reason)
    unfolding notify_trip_status_changed
    notify_trip_status_changed-Inv r v = elim (Option-cases (Map.get r.by_trip t)) [
      | inl e ↦ rw (e, notify_trip_status_changed) v
      | inr (set, e) ↦
          rw (e, notify_trip_status_changed)
            (for_each_all Inv NotReplaced (end_subscription is_open t reason) end_subscription-Inv
              end_subscription-NotReplaced set r v
              (All-mono (λ id. wants_trip r.by_socket (Map.get r.infos id) t id ≡ true)
                (NotReplaced r) set (λ id h info f. inr (ground (arith, h, f)))
                (trip_members r t set e v)))
    ]

  module _ (byte_length : OutMessage → ℕ) (step : ℕ) (u : RawDriverLocationUpdate) where
    broadcast_to-Inv :
        (r : Registry) (id : ℕ) → Inv r → Inv (broadcast_to is_open byte_length step u r id)
    unfolding broadcast_to send_json
    broadcast_to-Inv r id v = elim (Option-cases (Map.get r.infos id)) [
      | inl e ↦ rw (e, broadcast_to) v
      | inr (info, e) ↦
          let w = resent-Inv r id info e v (some (sent_state u.position u.meta)) in
          elim (Bool-cases (is_open info.socket)) [
            | inl o ↦ rw (e, broadcast_to, o, send_json) (repacked _ w refl refl refl refl refl)
            | inr o ↦ rw (e, broadcast_to, o, send_json) (repacked _ w refl refl refl refl refl)
          ]
    ]

    pub broadcast_driver_location-Inv :
        (r : Registry) (d : ℕ)
        → Inv r
        → Inv (broadcast_driver_location is_open byte_length step r d u)
    unfolding broadcast_driver_location
    broadcast_driver_location-Inv r d v = elim (Option-cases (Map.get r.by_driver d)) [
      | inl e ↦ rw (e, broadcast_driver_location) v
      | inr (set, e) ↦
          rw (e, broadcast_driver_location)
            (for_each_inv Inv set (broadcast_to is_open byte_length step u) broadcast_to-Inv r v)
    ]

close_subscriber-Inv :
    (r : Registry) (id : ℕ) → Inv r → NotReplaced r id → Inv (close_subscriber r id)
unfolding close_subscriber
close_subscriber-Inv r id v n = elim (Option-cases (Map.get r.infos id)) [
  | inl e ↦ rw (e, close_subscriber) v
  | inr (info, e) ↦
      rw (e, close_subscriber) (repacked _ (detach-Inv r id n v) refl refl refl refl refl)
]

close_subscriber-NotReplaced :
    (r : Registry) (x y : ℕ)
    → Inv r
    → NotReplaced r x
    → NotReplaced r y
    → NotReplaced (close_subscriber r x) y
unfolding close_subscriber
close_subscriber-NotReplaced r x y v p q = elim (Option-cases (Map.get r.infos x)) [
  | inl e ↦ rw (e, close_subscriber) q
  | inr (info, e) ↦ rw (e, close_subscriber) (detach-NotReplaced r x y q)
]

pub close_all-Inv : (r : Registry) → Inv r → Inv (close_all_subscriber_connections r)
unfolding close_all_subscriber_connections
close_all-Inv r v =
    for_each_all Inv NotReplaced close_subscriber close_subscriber-Inv close_subscriber-NotReplaced
      (Map.values r.by_socket) r v
      (All-values (NotReplaced r) r.by_socket (λ s id e. current-NotReplaced r s id e v))
