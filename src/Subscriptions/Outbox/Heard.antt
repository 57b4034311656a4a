-- ===== src/Subscriptions/Outbox/Heard.antt =====
-- What each call of core/src/ws/subscriptions.ts does for a socket that has a subscription.
use ride_location_tracking_e.Common.{
  ℕ, ◌≡◌, refl, ◌∙◌, Bool, true, false, Option, none, some, [], ◌∷◌, arith, ◌==◌, if◌then◌else◌,
  Option-cases, inl, inr, or_default, ap, subst,
}
use ride_location_tracking_e.Common.Map
use ride_location_tracking_e.Common.Map.{Map, get-set, get-delete}
use ride_location_tracking_e.Common.KeySet
use ride_location_tracking_e.Common.KeySet.{KeySet, IsDistinct, has-nil}
use ride_location_tracking_e.Subscriptions.Invariant.{
  Inv, has_socket, current, replace_existing-Inv,
}
use ride_location_tracking_e.Subscriptions.Index.{member, member_at}
use ride_location_tracking_e.Subscriptions.{
  Registry, SubscriberInfo, OutMessage, EndReason, RawDriverLocationUpdate, rematch,
  end_subscription, broadcast_driver_location, notify_trip_matched, notify_trip_status_changed,
  attach, replace_existing, subscribe_to_driver, subscribe_to_trip, handle_subscriber_disconnect,
  unsubscribe,
}
use ride_location_tracking_e.Subscriptions.Sets.{IsSetwise}
use ride_location_tracking_e.Subscriptions.Outbox.{sent_to, seen, seen-loop, IsOnly, same_seen}
use ride_location_tracking_e.Subscriptions.Outbox.Broadcasts.{seen-broadcast_only}
use ride_location_tracking_e.Subscriptions.Outbox.Bodies.{
  heard_update, heard_match, heard_end, keeps-rematch, quiet-rematch, hit-rematch,
  keeps-end_subscription, hit-end_subscription, quiet-end_subscription, seen-detach,
}

abbrev is_current : Map ℕ → Option SubscriberInfo → ℕ → Bool
is_current by_socket none id = false
is_current by_socket (some info) id = current by_socket info id

module _ (r : Registry) (s j : ℕ) (v : Inv r) (mine : Map.get r.by_socket s ≡ some j) where
  -- Of current subscriptions, no other one is the socket's.
  members-IsOnly :
      (set : KeySet)
      → ((x : ℕ) → KeySet.has set x ≡ true → is_current r.by_socket (Map.get r.infos x) x ≡ true)
      → IsOnly s j r set
  unfolding KeySet.has
  members-IsOnly [] f = tt
  members-IsOnly (x ∷ set) f = (
    ground (arith, f x, v.owners s j mine, mine, v.owners s x),
    members-IsOnly set (λ y h. f y (ground (arith, h))),
  )

  by_driver-IsOnly : (d : ℕ) (set : KeySet) → Map.get r.by_driver d ≡ some set → IsOnly s j r set
  by_driver-IsOnly d set e =
      members-IsOnly set
        (λ x h. ground (arith, h, v.drivers d x, member_at r.by_driver d x (some set) e))

  by_trip-IsOnly : (t : ℕ) (set : KeySet) → Map.get r.by_trip t ≡ some set → IsOnly s j r set
  by_trip-IsOnly t set e =
      members-IsOnly set
        (λ x h. ground (arith, h, v.trips t x, member_at r.by_trip t x (some set) e))

  mine_has : has_socket (Map.get r.infos j) s ≡ true
  mine_has = v.owners s j mine

  module _ (w : IsSetwise r) (is_open : ℕ → Bool) where
    -- A broadcast sends an open socket whose current subscription follows the driver one message,
    -- encoded against what this subscription was last sent, and no other socket with a subscription
    -- anything.
    pub seen-broadcast :
        (byte_length : OutMessage → ℕ) (step d : ℕ) (u : RawDriverLocationUpdate)
        → seen s j (broadcast_driver_location is_open byte_length step r d u) ≡ (
            if member r.by_driver d j
            then heard_update (is_open s) step u (Map.get r.infos j) (seen s j r)
            else seen s j r)
    seen-broadcast byte_length step d u =
        seen-broadcast_only r s j w is_open byte_length step d u (by_driver-IsOnly d)

    -- The notice of a match sends an open socket whose current subscription is to the trip one
    -- message, makes the subscription follow the driver, and does nothing for another subscription.
    pub seen-matched :
        (t d : ℕ)
        → seen s j (notify_trip_matched is_open r t d) ≡ (
            if member r.by_trip t j
            then heard_match (is_open s) t d (Map.get r.infos j) (seen s j r)
            else seen s j r)
    unfolding notify_trip_matched
    seen-matched t d = elim (Option-cases (Map.get r.by_trip t)) [
      | inl e ↦
          rw (notify_trip_matched, e) (ground (arith, member_at r.by_trip t j none e, has-nil j))
      | inr (set, e) ↦
          rw (notify_trip_matched, e)
            (rw (member_at r.by_trip t j (some set) e) (
              seen-loop s j (rematch is_open t d) (λ v. heard_match (is_open s) t d v.info v)
                (keeps-rematch is_open s j t d) (quiet-rematch is_open s j t d)
                (hit-rematch is_open s j t d) set r
                (subst (λ o. IsDistinct (or_default o [])) e (w.1 t)) (by_trip-IsOnly t set e)))
    ]

    -- The end of the trip that a socket's current subscription is to sends the socket, if it is open,
    -- one message, and takes its subscription; it does nothing for another subscription.
    pub seen-ended :
        (t : ℕ) (reason : EndReason)
        → seen s j (notify_trip_status_changed is_open r t reason) ≡ (
            if member r.by_trip t j
            then heard_end (is_open s) t reason (Map.get r.infos j) (seen s j r)
            else seen s j r)
    unfolding notify_trip_status_changed
    seen-ended t reason = elim (Option-cases (Map.get r.by_trip t)) [
      | inl e ↦
          rw (notify_trip_status_changed, e)
            (ground (arith, member_at r.by_trip t j none e, has-nil j))
      | inr (set, e) ↦
          rw (notify_trip_status_changed, e)
            (rw (member_at r.by_trip t j (some set) e) (
              seen-loop s j (end_subscription is_open t reason)
                (λ v. heard_end (is_open s) t reason v.info v)
                (keeps-end_subscription is_open s j t reason)
                (quiet-end_subscription is_open s j t reason)
                (hit-end_subscription is_open s j t reason) set r
                (subst (λ o. IsDistinct (or_default o [])) e (w.1 t)) (by_trip-IsOnly t set e)))
    ]

  -- The replacement of another socket's subscription does nothing for this one.
  seen-replace_existing : (q : ℕ) → (q == s) ≡ false → seen s j (replace_existing r q) ≡ seen s j r
  unfolding replace_existing
  seen-replace_existing q n = elim (Option-cases (Map.get r.by_socket q)) [
    | inl e ↦ rw (replace_existing, e) refl
    | inr (id, e) ↦
        rw (replace_existing, e) (seen-detach s j r id (ground (arith, n, v.owners q id e)))
  ]

  pub seen-disconnect :
      (q : ℕ) → (q == s) ≡ false → seen s j (handle_subscriber_disconnect r q) ≡ seen s j r
  unfolding handle_subscriber_disconnect unsubscribe
  seen-disconnect q n = elim (Option-cases (Map.get r.by_socket q)) [
    | inl e ↦ rw (handle_subscriber_disconnect, unsubscribe, e) refl
    | inr (id, e) ↦
        rw (handle_subscriber_disconnect, unsubscribe, e)
          (seen-detach s j r id (ground (arith, n, v.owners q id e)))
  ]

  seen-attach :
      (q : ℕ) (driver trip : Option ℕ)
      → (q == s) ≡ false
      → seen s j (attach r q driver trip) ≡ seen s j r
  unfolding attach
  seen-attach q driver trip n =
      same_seen _ _ (get-set r.by_socket q s r.next_info ∙ ground (arith, n))
        (get-set r.infos r.next_info j
            (record { socket = q; driver_id = driver; trip_id = trip; last_sent = none })
          ∙ ground (arith, v.fresh r.next_info, mine_has))
        refl

module _ (r : Registry) (s j : ℕ) (v : Inv r) (mine : Map.get r.by_socket s ≡ some j) where
  seen-subscribe :
      (q : ℕ) (driver trip : Option ℕ)
      → (q == s) ≡ false
      → seen s j (attach (replace_existing r q) q driver trip) ≡ seen s j r
  seen-subscribe q driver trip n =
      let replaced = seen-replace_existing r s j v mine q n in
      seen-attach (replace_existing r q) s j (replace_existing-Inv r q v)
        (ap (λ x. x.current) replaced ∙ mine) q driver trip n
      ∙ replaced

  -- Nor does a subscription of another socket.
  pub seen-subscribe_to_driver :
      (q d : ℕ) → (q == s) ≡ false → seen s j (subscribe_to_driver r q d) ≡ seen s j r
  unfolding subscribe_to_driver
  seen-subscribe_to_driver q d n = seen-subscribe q (some d) none n

  pub seen-subscribe_to_trip :
      (q t : ℕ) (d : Option ℕ)
      → (q == s) ≡ false
      → seen s j (subscribe_to_trip r q t d) ≡ seen s j r
  unfolding subscribe_to_trip
  seen-subscribe_to_trip q t d n = seen-subscribe q d (some t) n

-- A subscription of the socket itself is a new one, that was sent nothing, and sends nothing itself.
pub seen-subscribed :
    (r : Registry) (s t : ℕ) (d : Option ℕ)
    → seen s (replace_existing r s).next_info (subscribe_to_trip r s t d) ≡ record {
      current = some (replace_existing r s).next_info;
      info = some (record { socket = s; driver_id = d; trip_id = some t; last_sent = none });
      sent = sent_to s (subscribe_to_trip r s t d).outbox;
    }
unfolding subscribe_to_trip attach
seen-subscribed r s t d =
    same_seen _ _
      (get-set (replace_existing r s).by_socket s s (replace_existing r s).next_info ∙ ground arith)
      (get-set (replace_existing r s).infos (replace_existing r s).next_info
          (replace_existing r s).next_info
          (record { socket = s; driver_id = d; trip_id = some t; last_sent = none })
        ∙ ground arith)
      refl
