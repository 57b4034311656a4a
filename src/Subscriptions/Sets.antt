-- ===== src/Subscriptions/Sets.antt =====
-- The sets of the two indexes of core/src/ws/subscriptions.ts hold no subscriber twice.
use ride_location_tracking_e.Common.{
  ℕ, Bool, Option, none, some, List, [], ◌∷◌, or_default, Option-cases, opt_is, Bool-cases, inl,
  inr, for_each_inv, subst, ◌==◌,
}
use ride_location_tracking_e.Common.Map
use ride_location_tracking_e.Common.Map.{Map, get-set, get-delete}
use ride_location_tracking_e.Common.KeySet
use ride_location_tracking_e.Common.KeySet.{KeySet, IsDistinct, add-IsDistinct, delete-IsDistinct}
use ride_location_tracking_e.Subscriptions.Index.{
  Index as SubscriberIndex, add_to_index, remove_from_index, emptied, add_if_keyed, remove_if_keyed,
}
use ride_location_tracking_e.Subscriptions.{
  Registry, OutMessage, EndReason, RawDriverLocationUpdate, init, detach, attach, replace_existing,
  subscribe_to_driver, subscribe_to_trip, unsubscribe, handle_subscriber_disconnect, send_json,
  rematch, notify_trip_matched, end_subscription, notify_trip_status_changed, broadcast_to,
  broadcast_driver_location, close_subscriber, close_all_subscriber_connections,
}
use ride_location_tracking_e.Subscriptions.Calls.{
  Call, subscribe_driver, subscribe_trip, disconnect, matched, ended, broadcast, shut_down, perform,
  perform_all,
}

-- No set of the index holds a subscriber twice.
abbrev pub HasSets : SubscriberIndex → Type 0
HasSets index = (key : ℕ) → IsDistinct (or_default (Map.get index key) [])

set-HasSets :
    (index : SubscriberIndex) (key : ℕ) (set : KeySet)
    → IsDistinct set
    → HasSets index
    → HasSets (Map.set index key set)
set-HasSets index key set d h k = elim (Bool-cases (key == k)) [
  | inl e ↦ rw (get-set index key k set, e) d
  | inr e ↦ rw (get-set index key k set, e) (h k)
]

delete-HasSets :
    (index : SubscriberIndex) (key : ℕ) → HasSets index → HasSets (Map.delete index key)
delete-HasSets index key h k = elim (Bool-cases (key == k)) [
  | inl e ↦ rw (get-delete index key k, e) tt
  | inr e ↦ rw (get-delete index key k, e) (h k)
]

add_to_index-HasSets :
    (index : SubscriberIndex) (key info : ℕ) → HasSets index → HasSets (add_to_index index key info)
unfolding add_to_index
add_to_index-HasSets index key info h =
    set-HasSets index key (KeySet.add (or_default (Map.get index key) []) info)
      (add-IsDistinct (or_default (Map.get index key) []) info (h key)) h

emptied-HasSets :
    (index : SubscriberIndex) (key : ℕ) (set : KeySet)
    → IsDistinct set
    → HasSets index
    → HasSets (emptied index key set)
unfolding emptied
emptied-HasSets index key set d h = elim (Bool-cases (KeySet.is_empty set)) [
  | inl e ↦ rw (emptied, e) (delete-HasSets index key h)
  | inr e ↦ rw (emptied, e) (set-HasSets index key set d h)
]

remove_from_index-HasSets :
    (index : SubscriberIndex) (key info : ℕ)
    → HasSets index
    → HasSets (remove_from_index index key info)
unfolding remove_from_index
remove_from_index-HasSets index key info h = elim (Option-cases (Map.get index key)) [
  | inl e ↦ rw (remove_from_index, e) h
  | inr (set, e) ↦
      rw (remove_from_index, e)
        (emptied-HasSets index key (KeySet.delete set info)
          (delete-IsDistinct set info (subst (λ o. IsDistinct (or_default o [])) e (h key))) h)
]

remove_if_keyed-HasSets :
    (index : SubscriberIndex) (o : Option ℕ) (info : ℕ)
    → HasSets index
    → HasSets (remove_if_keyed index o info)
unfolding remove_if_keyed
remove_if_keyed-HasSets index none info h = h
remove_if_keyed-HasSets index (some key) info h = remove_from_index-HasSets index key info h

add_if_keyed-HasSets :
    (index : SubscriberIndex) (o : Option ℕ) (info : ℕ)
    → HasSets index
    → HasSets (add_if_keyed index o info)
unfolding add_if_keyed
add_if_keyed-HasSets index none info h = h
add_if_keyed-HasSets index (some key) info h = add_to_index-HasSets index key info h

-- Both indexes of the registry hold sets.
abbrev pub IsSetwise : Registry → Type 0
IsSetwise r = HasSets r.by_driver × HasSets r.by_trip

detach-IsSetwise : (r : Registry) (id : ℕ) → IsSetwise r → IsSetwise (detach r id)
unfolding detach
detach-IsSetwise r id h = elim (Option-cases (Map.get r.infos id)) [
  | inl e ↦ rw (detach, e) h
  | inr (info, e) ↦
      rw (detach, e)
        (
          remove_if_keyed-HasSets r.by_driver info.driver_id id h.0,
          remove_if_keyed-HasSets r.by_trip info.trip_id id h.1,
        )
]

replace_existing-IsSetwise : (r : Registry) (s : ℕ) → IsSetwise r → IsSetwise (replace_existing r s)
unfolding replace_existing
replace_existing-IsSetwise r s h = elim (Option-cases (Map.get r.by_socket s)) [
  | inl e ↦ rw (replace_existing, e) h
  | inr (id, e) ↦ rw (replace_existing, e) (detach-IsSetwise r id h)
]

attach-IsSetwise :
    (r : Registry) (s : ℕ) (driver trip : Option ℕ)
    → IsSetwise r
    → IsSetwise (attach r s driver trip)
unfolding attach
attach-IsSetwise r s driver trip h = (
  add_if_keyed-HasSets r.by_driver driver r.next_info h.0,
  add_if_keyed-HasSets r.by_trip trip r.next_info h.1,
)

disconnect-IsSetwise :
    (r : Registry) (s : ℕ) → IsSetwise r → IsSetwise (handle_subscriber_disconnect r s)
unfolding handle_subscriber_disconnect unsubscribe
disconnect-IsSetwise r s h = elim (Option-cases (Map.get r.by_socket s)) [
  | inl e ↦ rw (handle_subscriber_disconnect, unsubscribe, e) h
  | inr (id, e) ↦ rw (handle_subscriber_disconnect, unsubscribe, e) (detach-IsSetwise r id h)
]

close_subscriber-IsSetwise :
    (r : Registry) (id : ℕ) → IsSetwise r → IsSetwise (close_subscriber r id)
unfolding close_subscriber
close_subscriber-IsSetwise r id h = elim (Option-cases (Map.get r.infos id)) [
  | inl e ↦ rw (close_subscriber, e) h
  | inr (info, e) ↦ rw (close_subscriber, e) (detach-IsSetwise r id h)
]

module _ (is_open : ℕ → Bool) where
  send_json-IsSetwise :
      (r : Registry) (s : ℕ) (m : OutMessage) → IsSetwise r → IsSetwise (send_json is_open r s m)
  unfolding send_json
  send_json-IsSetwise r s m h = elim (Bool-cases (is_open s)) [
    | inl e ↦ rw (send_json, e) h
    | inr e ↦ rw (send_json, e) h
  ]

  end_subscription-IsSetwise :
      (t : ℕ) (reason : EndReason) (r : Registry) (id : ℕ)
      → IsSetwise r
      → IsSetwise (end_subscription is_open t reason r id)
  unfolding end_subscription
  end_subscription-IsSetwise t reason r id h = elim (Option-cases (Map.get r.infos id)) [
    | inl e ↦ rw (end_subscription, e) h
    | inr (info, e) ↦
        rw (end_subscription, e) (detach-IsSetwise _ id (send_json-IsSetwise r info.socket _ h))
  ]

  rematch-IsSetwise :
      (t d : ℕ) (r : Registry) (id : ℕ) → IsSetwise r → IsSetwise (rematch is_open t d r id)
  unfolding rematch
  rematch-IsSetwise t d r id h = elim (Option-cases (Map.get r.infos id)) [
    | inl e ↦ rw (rematch, e) h
    | inr (info, e) ↦ elim (Bool-cases (opt_is info.driver_id d)) [
      | inl o ↦ rw (rematch, e, o) (send_json-IsSetwise r info.socket _ h)
      | inr o ↦
          rw (rematch, e, o)
            (send_json-IsSetwise _ info.socket _ (
              add_to_index-HasSets (remove_if_keyed r.by_driver info.driver_id id) d id
                  (remove_if_keyed-HasSets r.by_driver info.driver_id id h.0),
              h.1,
            ))
    ]
  ]

  module _ (byte_length : OutMessage → ℕ) (step : ℕ) where
    broadcast_to-IsSetwise :
        (u : RawDriverLocationUpdate) (r : Registry) (id : ℕ)
        → IsSetwise r
        → IsSetwise (broadcast_to is_open byte_length step u r id)
    unfolding broadcast_to
    broadcast_to-IsSetwise u r id h = elim (Option-cases (Map.get r.infos id)) [
      | inl e ↦ rw (broadcast_to, e) h
      | inr (info, e) ↦ rw (broadcast_to, e) (send_json-IsSetwise r info.socket _ h)
    ]

    -- Every call keeps both indexes sets.
    pub perform-IsSetwise :
        (r : Registry) (c : Call) → IsSetwise r → IsSetwise (perform is_open byte_length step r c)
    unfolding perform subscribe_to_driver subscribe_to_trip notify_trip_matched
        notify_trip_status_changed broadcast_driver_location close_all_subscriber_connections
    perform-IsSetwise r (subscribe_driver s d) h =
        attach-IsSetwise (replace_existing r s) s (some d) none (replace_existing-IsSetwise r s h)
    perform-IsSetwise r (subscribe_trip s t d) h =
        attach-IsSetwise (replace_existing r s) s d (some t) (replace_existing-IsSetwise r s h)
    perform-IsSetwise r (disconnect s) h = disconnect-IsSetwise r s h
    perform-IsSetwise r (matched t d) h = elim (Option-cases (Map.get r.by_trip t)) [
      | inl e ↦ rw (notify_trip_matched, e) h
      | inr (set, e) ↦
          rw (notify_trip_matched, e)
            (for_each_inv IsSetwise set (rematch is_open t d) (rematch-IsSetwise t d) r h)
    ]
    perform-IsSetwise r (ended t reason) h = elim (Option-cases (Map.get r.by_trip t)) [
      | inl e ↦ rw (notify_trip_status_changed, e) h
      | inr (set, e) ↦
          rw (notify_trip_status_changed, e)
            (for_each_inv IsSetwise set (end_subscription is_open t reason)
              (end_subscription-IsSetwise t reason) r h)
    ]
    perform-IsSetwise r (broadcast d u) h = elim (Option-cases (Map.get r.by_driver d)) [
      | inl e ↦ rw (broadcast_driver_location, e) h
      | inr (set, e) ↦
          rw (broadcast_driver_location, e)
            (for_each_inv IsSetwise set (broadcast_to is_open byte_length step u)
              (broadcast_to-IsSetwise u) r h)
    ]
    perform-IsSetwise r shut_down h =
        for_each_inv IsSetwise (Map.values r.by_socket) close_subscriber close_subscriber-IsSetwise
          r h

    perform_all-IsSetwise :
        (r : Registry) (cs : List Call)
        → IsSetwise r
        → IsSetwise (perform_all is_open byte_length step r cs)
    unfolding perform_all
    perform_all-IsSetwise r [] h = h
    perform_all-IsSetwise r (c ∷ cs) h =
        perform_all-IsSetwise (perform is_open byte_length step r c) cs (perform-IsSetwise r c h)

    -- After any history of calls, no set of the indexes holds a subscriber twice.
    pub perform_all-init-IsSetwise :
        (cs : List Call) → IsSetwise (perform_all is_open byte_length step init cs)
    unfolding init Map.get
    perform_all-init-IsSetwise cs = perform_all-IsSetwise init cs (λ k. tt, λ k. tt)
