-- ===== src/Batch/Broadcasts.antt =====
-- What the broadcasts of a flush leave in the subscriber objects (core/src/ws/location-batch.ts).
use ride_location_tracking_e.Common.{
  ℕ, ◌≡◌, refl, ◌∙◌, ap, Bool, true, false, Option, none, some, [], ◌∷◌, arith, ◌==◌, if◌then◌else◌,
  for_each, Bool-cases, Option-cases, inl, inr,
}
use ride_location_tracking_e.Common.Map
use ride_location_tracking_e.Common.Map.{Map, IsDistinct}
use ride_location_tracking_e.Database.{Driver}
use ride_location_tracking_e.Subscriptions.{
  Registry, SubscriberInfo, OutMessage, RawDriverLocationUpdate,
}
use ride_location_tracking_e.Subscriptions.Index.{member}
use ride_location_tracking_e.Subscriptions.Invariant.{Inv}
use ride_location_tracking_e.Subscriptions.Notices.{broadcast_driver_location-Inv}
use ride_location_tracking_e.Subscriptions.Effects.{marked, infos-broadcast, by_driver-broadcast}
use ride_location_tracking_e.Batch.Writes.{kept}
use ride_location_tracking_e.Batch.{PendingUpdate, Snapshot, broadcast_one}

-- The broadcast for an update, with the row's status.
abbrev pub raw_update : ℕ → PendingUpdate → Driver → RawDriverLocationUpdate
raw_update id u d = record {
  position = u.position;
  meta = record { driver_id = id; timestamp = u.timestamp; status = d.status };
}

-- What a flush leaves in a subscriber of the driver.
abbrev pub told :
    ℕ → Option PendingUpdate → Option Driver → Option SubscriberInfo → Option SubscriberInfo
told id none row old = old
told id (some u) none old = old
told id (some u) (some d) old = marked (raw_update id u d) old

module _ (is_open : ℕ → Bool) (byte_length : OutMessage → ℕ) (step : ℕ) where
  module _ (drivers : Map Driver) where
    abbrev one : Registry → ℕ × PendingUpdate → Registry
    one = broadcast_one is_open byte_length step drivers

    by_driver-one : (r : Registry) (e : ℕ × PendingUpdate) → (one r e).by_driver ≡ r.by_driver
    unfolding broadcast_one
    by_driver-one r (id, u) = elim (Option-cases (Map.get drivers id)) [
      | inl e ↦ rw (broadcast_one, e) refl
      | inr (d, e) ↦
          rw (broadcast_one, e)
            (by_driver-broadcast is_open byte_length step (raw_update id u d) r id)
    ]

    pub one-Inv : (r : Registry) (e : ℕ × PendingUpdate) → Inv r → Inv (one r e)
    unfolding broadcast_one
    one-Inv r (id, u) v = elim (Option-cases (Map.get drivers id)) [
      | inl e ↦ rw (broadcast_one, e) v
      | inr (d, e) ↦
          rw (broadcast_one, e)
            (broadcast_driver_location-Inv is_open byte_length step (raw_update id u d) r id v)
    ]

    infos-one :
        (r : Registry) (id : ℕ) (u : PendingUpdate) (j : ℕ)
        → Map.get (one r (id, u)).infos j ≡ (
            if member r.by_driver id j
            then told id (some u) (Map.get drivers id) (Map.get r.infos j)
            else Map.get r.infos j)
    unfolding broadcast_one
    infos-one r id u j = elim (Option-cases (Map.get drivers id)) [
      | inl e ↦ rw (broadcast_one, e) (ground (arith, e))
      | inr (d, e) ↦
          rw (broadcast_one, e)
            (infos-broadcast is_open byte_length step (raw_update id u d) r id j
              ∙ ground (arith, e))
    ]

    -- An object is in one driver's set at most.
    pub one_set :
        (r : Registry) (d id j : ℕ)
        → Inv r
        → member r.by_driver d j ≡ true
        → (id == d) ≡ false
        → member r.by_driver id j ≡ false
    one_set r d id j v m e = elim (Option-cases (Map.get r.infos j)) [
      | inl n ↦ ground (arith, v.drivers d j, m, n)
      | inr (info, n) ↦ ground (arith, v.drivers d j, v.drivers id j, m, n, e)
    ]

    pub member-one :
        (r : Registry) (e : ℕ × PendingUpdate) (d j : ℕ)
        → member (one r e).by_driver d j ≡ member r.by_driver d j
    member-one r e d j = ap (λ index. member index d j) (by_driver-one r e)

    -- A subscriber of a driver in the batch was sent the driver's update, and no other.
    pub infos-flush :
        (snapshot : Snapshot) (r : Registry) (d j : ℕ)
        → IsDistinct snapshot
        → Inv r
        → member r.by_driver d j ≡ true
        → Map.get (for_each snapshot one r).infos j
          ≡ told d (Map.get snapshot d) (Map.get drivers d) (Map.get r.infos j)
    unfolding for_each Map.get
    infos-flush [] r d j h v m = refl
    infos-flush ((id, u) ∷ rest) r d j h v m =
        infos-flush rest (one r (id, u)) d j h.1 (one-Inv r (id, u) v)
          (member-one r (id, u) d j ∙ m)
        ∙ elim (Bool-cases (id == d)) [
          | inl e ↦ ground (arith, e, h.0, m, infos-one r id u j)
          | inr e ↦ ground (arith, e, one_set r d id j v m e, infos-one r id u j)
        ]

    -- Any other object is left as it was.
    pub infos-flush_others :
        (snapshot : Snapshot) (r : Registry) (j : ℕ)
        → ((d : ℕ) → member r.by_driver d j ≡ false)
        → Map.get (for_each snapshot one r).infos j ≡ Map.get r.infos j
    unfolding for_each
    infos-flush_others [] r j m = refl
    infos-flush_others ((id, u) ∷ rest) r j m =
        infos-flush_others rest (one r (id, u)) j (λ d. member-one r (id, u) d j ∙ m d)
        ∙ ground (arith, m id, infos-one r id u j)

pub told-kept :
    (d : ℕ) (o : Option PendingUpdate) (row : Option Driver) (old : Option SubscriberInfo)
    → told d o (kept o row) old ≡ told d o row old
told-kept d none row old = refl
told-kept d (some u) row old = refl
