-- ===== src/Subscriptions/Effects.antt =====
-- What the notices of core/src/ws/subscriptions.ts do to the sets of subscribers.
use ride_location_tracking_e.Common.{
  ℕ, ◌≡◌, refl, Bool, true, Option, none, some, [], ◌∷◌, arith, ◌==◌, if◌then◌else◌, Option-cases,
  Bool-cases, inl, inr, for_each, ◌∙◌, ap,
}
use ride_location_tracking_e.Common.Map
use ride_location_tracking_e.Common.Map.{Map, get-set, get-delete}
use ride_location_tracking_e.Common.KeySet
use ride_location_tracking_e.Common.KeySet.{KeySet, has-nil}
use ride_location_tracking_e.Delta.{sent_state}
use ride_location_tracking_e.Subscriptions.Index.{member, member_at}
use ride_location_tracking_e.Subscriptions.Invariant.{Inv}
use ride_location_tracking_e.Subscriptions.Matches.{notify_trip_matched-Inv}
use ride_location_tracking_e.Subscriptions.{
  Registry, SubscriberInfo, OutMessage, RawDriverLocationUpdate, rematch, notify_trip_matched,
  broadcast_to, broadcast_driver_location, send_json,
}

-- What a broadcast leaves in an object that it reached.
abbrev pub marked : RawDriverLocationUpdate → Option SubscriberInfo → Option SubscriberInfo
marked u none = none
marked u (some info) = some (record info { last_sent = some (sent_state u.position u.meta) })

module _ (is_open : ℕ → Bool) (byte_length : OutMessage → ℕ) (step : ℕ)
    (u : RawDriverLocationUpdate) where
  pub infos-broadcast_to :
      (r : Registry) (x j : ℕ)
      → Map.get (broadcast_to is_open byte_length step u r x).infos j
        ≡ (if x == j then marked u (Map.get r.infos j) else Map.get r.infos j)
  unfolding broadcast_to send_json
  infos-broadcast_to r x j = elim (Option-cases (Map.get r.infos x)) [
    | inl e ↦ rw (e, broadcast_to) (ground (arith, e))
    | inr (info, e) ↦ elim (Bool-cases (is_open info.socket)) [
      | inl o ↦
          rw (e, broadcast_to, o, send_json)
            (ground (
              arith,
              e,
              get-set r.infos x j (record info { last_sent = some (sent_state u.position u.meta) }),
            ))
      | inr o ↦
          rw (e, broadcast_to, o, send_json)
            (ground (
              arith,
              e,
              get-set r.infos x j (record info { last_sent = some (sent_state u.position u.meta) }),
            ))
    ]
  ]

  marked_twice : (o : Option SubscriberInfo) → marked u (marked u o) ≡ marked u o
  marked_twice none = refl
  marked_twice (some info) = refl

  infos-loop :
      (set : KeySet) (r : Registry) (j : ℕ)
      → Map.get (for_each set (broadcast_to is_open byte_length step u) r).infos j
        ≡ (if KeySet.has set j then marked u (Map.get r.infos j) else Map.get r.infos j)
  unfolding for_each KeySet.has
  infos-loop [] r j = refl
  infos-loop (x ∷ set) r j = ground (
    arith,
    infos-loop set (broadcast_to is_open byte_length step u r x) j,
    infos-broadcast_to r x j,
    marked_twice (Map.get r.infos j),
  )

  -- A broadcast records the new position and status as last sent in exactly the objects of the driver's
  -- set, and leaves every other object as it was.
  pub infos-broadcast :
      (r : Registry) (d j : ℕ)
      → Map.get (broadcast_driver_location is_open byte_length step r d u).infos j
        ≡ (if member r.by_driver d j then marked u (Map.get r.infos j) else Map.get r.infos j)
  unfolding broadcast_driver_location
  infos-broadcast r d j = elim (Option-cases (Map.get r.by_driver d)) [
    | inl e ↦
        rw (e, broadcast_driver_location)
          (ground (arith, member_at r.by_driver d j none e, has-nil j))
    | inr (set, e) ↦
        rw (e, broadcast_driver_location)
          (rw (member_at r.by_driver d j (some set) e) (infos-loop set r j))
  ]

  by_driver-broadcast_to :
      (r : Registry) (x : ℕ) → (broadcast_to is_open byte_length step u r x).by_driver ≡ r.by_driver
  unfolding broadcast_to send_json
  by_driver-broadcast_to r x = ground arith

  by_driver-loop :
      (set : KeySet) (r : Registry)
      → (for_each set (broadcast_to is_open byte_length step u) r).by_driver ≡ r.by_driver
  unfolding for_each
  by_driver-loop [] r = refl
  by_driver-loop (x ∷ set) r =
      by_driver-loop set (broadcast_to is_open byte_length step u r x) ∙ by_driver-broadcast_to r x

  -- A broadcast leaves the sets of subscribers as they are.
  pub by_driver-broadcast :
      (r : Registry) (d : ℕ)
      → (broadcast_driver_location is_open byte_length step r d u).by_driver ≡ r.by_driver
  unfolding broadcast_driver_location
  by_driver-broadcast r d = elim (Option-cases (Map.get r.by_driver d)) [
    | inl e ↦ rw (broadcast_driver_location, e) refl
    | inr (set, e) ↦ rw (broadcast_driver_location, e) (by_driver-loop set r)
  ]

module _ (is_open : ℕ → Bool) (t d : ℕ) where
  abbrev pub redirected : Option SubscriberInfo → Option SubscriberInfo
  redirected none = none
  redirected (some info) = some (record info { driver_id = some d })

  pub infos-rematch :
      (r : Registry) (x j : ℕ)
      → Map.get (rematch is_open t d r x).infos j
        ≡ (if x == j then redirected (Map.get r.infos j) else Map.get r.infos j)
  unfolding rematch send_json
  infos-rematch r x j = elim (Option-cases (Map.get r.infos x)) [
    | inl e ↦ rw (e, rematch) (ground (arith, e))
    | inr (info, e) ↦
        rw (e, rematch)
          (ground (arith, e, get-set r.infos x j (record info { driver_id = some d })))
  ]

  pub rematch_keeps :
      (r : Registry) (x : ℕ)
      → ((rematch is_open t d r x).by_trip ≡ r.by_trip)
        × ((rematch is_open t d r x).by_socket ≡ r.by_socket)
  unfolding rematch send_json
  rematch_keeps r x = ground arith

  rematch_loop_infos :
      (set : KeySet) (r : Registry) (j : ℕ)
      → Map.get (for_each set (rematch is_open t d) r).infos j
        ≡ (if KeySet.has set j then redirected (Map.get r.infos j) else Map.get r.infos j)
  unfolding for_each KeySet.has
  rematch_loop_infos [] r j = refl
  rematch_loop_infos (x ∷ set) r j = ground (
    arith,
    rematch_loop_infos set (rematch is_open t d r x) j,
    infos-rematch r x j,
    redirected_twice (Map.get r.infos j),
  )
    where
      redirected_twice : (o : Option SubscriberInfo) → redirected (redirected o) ≡ redirected o
      redirected_twice none = refl
      redirected_twice (some info) = refl

  rematch_loop_keeps :
      (set : KeySet) (r : Registry)
      → ((for_each set (rematch is_open t d) r).by_trip ≡ r.by_trip)
        × ((for_each set (rematch is_open t d) r).by_socket ≡ r.by_socket)
  unfolding for_each
  rematch_loop_keeps [] r = (refl, refl)
  rematch_loop_keeps (x ∷ set) r =
      let k = rematch_loop_keeps set (rematch is_open t d r x) in
      (k.0 ∙ (rematch_keeps r x).0, k.1 ∙ (rematch_keeps r x).1)

  rematched_set :
      (r : Registry) (set : KeySet) (j : ℕ)
      → Map.get r.by_trip t ≡ some set
      → Inv r
      → Inv (for_each set (rematch is_open t d) r)
      → member r.by_trip t j ≡ true
      → member (for_each set (rematch is_open t d) r).by_driver d j ≡ true
  rematched_set r set j e v w m = ground (
    arith,
    w.drivers d j,
    v.trips t j,
    m,
    member_at r.by_trip t j (some set) e,
    rematch_loop_infos set r j,
    ap (λ b. Map.get b) (rematch_loop_keeps set r).1,
  )

  -- Once a trip is matched, every subscriber of the trip is still in the trip's set and is in the set
  -- of the assigned driver, whose broadcasts it therefore gets.
  pub matched_followed :
      (r : Registry) (j : ℕ)
      → Inv r
      → member r.by_trip t j ≡ true
      → (member (notify_trip_matched is_open r t d).by_trip t j ≡ true)
        × (member (notify_trip_matched is_open r t d).by_driver d j ≡ true)
  unfolding notify_trip_matched
  matched_followed r j v m = elim (Option-cases (Map.get r.by_trip t)) [
    | inl e ↦ ground (arith, member_at r.by_trip t j none e, has-nil j)
    | inr (set, e) ↦
        let w : Inv (for_each set (rematch is_open t d) r) =
          rw (notify_trip_matched, e) at (notify_trip_matched-Inv is_open t d r v) in
        rw (e, notify_trip_matched)
          (rw (rematch_loop_keeps set r).0 m, rematched_set r set j e v w m)
  ]
