-- ===== src/Subscriptions/Matches.antt =====
-- The notice of a match of core/src/ws/subscriptions.ts keeps the indexes consistent.
use ride_location_tracking_e.Common.{
  ℕ, ◌≡◌, refl, Bool, true, Option, some, arith, opt_is, Option-cases, Bool-cases, inl, inr,
  for_each_all, All,
}
use ride_location_tracking_e.Common.Map
use ride_location_tracking_e.Common.Map.{Map, All-values, get-set, get-delete, get-empty}
use ride_location_tracking_e.Common.KeySet.{KeySet, All-has}
use ride_location_tracking_e.Delta.{LastKnownState}
use ride_location_tracking_e.Subscriptions.Index.{
  member-remove_if, member-add, add_to_index, remove_if_keyed, member_at,
}
use ride_location_tracking_e.Subscriptions.Invariant.{Inv, wants_trip, current}
use ride_location_tracking_e.Subscriptions.{
  Registry, SubscriberInfo, OutMessage, rematch, notify_trip_matched, send_json, trip_matched,
}

-- The identities in a trip's set are current subscriptions to the trip.
pub trip_members :
    (r : Registry) (t : ℕ) (set : KeySet)
    → Map.get r.by_trip t ≡ some set
    → Inv r
    → All (λ id. wants_trip r.by_socket (Map.get r.infos id) t id ≡ true) set
trip_members r t set e v =
    All-has (λ id. wants_trip r.by_socket (Map.get r.infos id) t id ≡ true) set
      (λ id h. ground (arith, v.trips t id, member_at r.by_trip t id (some set) e))

-- The invariant does not read what was sent.
pub repacked :
    {r : Registry} (q : Registry)
    → Inv r
    → q.by_driver ≡ r.by_driver
    → q.by_trip ≡ r.by_trip
    → q.by_socket ≡ r.by_socket
    → q.infos ≡ r.infos
    → q.next_info ≡ r.next_info
    → Inv q
repacked q v a b c d e = record {
  drivers = rw (a, c, d) v.drivers;
  trips = rw (b, c, d) v.trips;
  owners = rw (c, d) v.owners;
  fresh = rw (e, d) v.fresh;
}

module _ (is_open : ℕ → Bool) where
  pub send_json-Inv :
      (r : Registry) (s : ℕ) (m : OutMessage) → Inv r → Inv (send_json is_open r s m)
  unfolding send_json
  send_json-Inv r s m v = elim (Bool-cases (is_open s)) [
    | inl e ↦ rw (e, send_json) (repacked _ v refl refl refl refl refl)
    | inr e ↦ rw (e, send_json) v
  ]

module _ (r : Registry) (id : ℕ) (info : SubscriberInfo) (found : Map.get r.infos id ≡ some info)
    (v : Inv r) where
  -- Changing what an object was last sent.
  pub resent-Inv :
      (l : Option LastKnownState)
      → Inv (record r { infos = Map.set r.infos id (record info { last_sent = l }) })
  resent-Inv l = record {
    drivers = λ d j.
        ground (arith, found, v.drivers d j, get-set r.infos id j (record info { last_sent = l }));
    trips = λ t j.
        ground (arith, found, v.trips t j, get-set r.infos id j (record info { last_sent = l }));
    owners = λ s j e.
        ground (arith, found, v.owners s j e, get-set r.infos id j (record info { last_sent = l }));
    fresh = λ j h.
        ground (arith, found, v.fresh j h, get-set r.infos id j (record info { last_sent = l }));
  }

  -- Moving a current subscription to another driver.
  moved-Inv :
      (d : ℕ)
      → current r.by_socket info id ≡ true
      → Inv (record r {
        by_driver = add_to_index (remove_if_keyed r.by_driver info.driver_id id) d id;
        infos = Map.set r.infos id (record info { driver_id = some d });
      })
  moved-Inv d c = record {
    drivers = λ k j. ground (
      arith,
      found,
      c,
      v.drivers k j,
      get-set r.infos id j (record info { driver_id = some d }),
      member-add (remove_if_keyed r.by_driver info.driver_id id) d id k j,
      member-remove_if r.by_driver info.driver_id id k j,
    );
    trips = λ t j.
        ground
          (arith, found, v.trips t j, get-set r.infos id j (record info { driver_id = some d }));
    owners = λ s j e.
        ground
          (arith, found, v.owners s j e, get-set r.infos id j (record info { driver_id = some d }));
    fresh = λ j h.
        ground
          (arith, found, v.fresh j h, get-set r.infos id j (record info { driver_id = some d }));
  }

module _ (is_open : ℕ → Bool) (t d : ℕ) where
  -- The object is a current subscription to the trip.
  abbrev OnTrip : Registry → ℕ → Type 0
  OnTrip r id = wants_trip r.by_socket (Map.get r.infos id) t id ≡ true

  rematch-Inv : (r : Registry) (id : ℕ) → Inv r → OnTrip r id → Inv (rematch is_open t d r id)
  unfolding rematch
  rematch-Inv r id v q = elim (Option-cases (Map.get r.infos id)) [
    | inl e ↦ rw (e, rematch) v
    | inr (info, e) ↦ elim (Bool-cases (opt_is info.driver_id d)) [
      | inl c ↦ rw (e, rematch, c) (send_json-Inv is_open r info.socket (trip_matched t d) v)
      | inr c ↦
          rw (e, rematch, c)
            (send_json-Inv is_open _ info.socket (trip_matched t d)
              (moved-Inv r id info e v d (ground (arith, q, e))))
    ]
  ]

  rematch-OnTrip :
      (r : Registry) (x y : ℕ)
      → Inv r
      → OnTrip r x
      → OnTrip r y
      → OnTrip (rematch is_open t d r x) y
  unfolding rematch send_json
  rematch-OnTrip r x y v p q = elim (Option-cases (Map.get r.infos x)) [
    | inl e ↦ rw (e, rematch) q
    | inr (info, e) ↦
        rw (e, rematch)
          (ground (arith, e, q, get-set r.infos x y (record info { driver_id = some d })))
  ]

  pub notify_trip_matched-Inv : (r : Registry) → Inv r → Inv (notify_trip_matched is_open r t d)
  unfolding notify_trip_matched
  notify_trip_matched-Inv r v = elim (Option-cases (Map.get r.by_trip t)) [
    | inl e ↦ rw (e, notify_trip_matched) v
    | inr (set, e) ↦
        rw (e, notify_trip_matched)
          (for_each_all Inv OnTrip (rematch is_open t d) rematch-Inv rematch-OnTrip set r v
            (trip_members r t set e v))
  ]
