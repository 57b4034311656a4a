-- ===== src/Subscriptions/Outbox/Broadcasts.antt =====
-- What a broadcast of core/src/ws/subscriptions.ts does for a socket, with a subscription or without.
use ride_location_tracking_e.Common.{
  ℕ, ◌≡◌, Bool, true, none, some, [], ◌∷◌, arith, if◌then◌else◌, Option-cases, inl, inr, or_default,
  subst,
}
use ride_location_tracking_e.Common.Map
use ride_location_tracking_e.Common.KeySet
use ride_location_tracking_e.Common.KeySet.{KeySet, IsDistinct, has-nil}
use ride_location_tracking_e.Subscriptions.Invariant.{Inv, wants_driver}
use ride_location_tracking_e.Subscriptions.Index.{member, member_at}
use ride_location_tracking_e.Subscriptions.{
  Registry, OutMessage, RawDriverLocationUpdate, broadcast_driver_location, broadcast_to,
}
use ride_location_tracking_e.Subscriptions.Sets.{IsSetwise}
use ride_location_tracking_e.Subscriptions.Outbox.{seen, seen-loop, IsOnly}
use ride_location_tracking_e.Subscriptions.Outbox.Bodies.{
  heard_update, keeps-broadcast_to, quiet-broadcast_to, hit-broadcast_to,
}

module _ (r : Registry) (s j : ℕ) (w : IsSetwise r) (is_open : ℕ → Bool)
    (byte_length : OutMessage → ℕ) (step d : ℕ) (u : RawDriverLocationUpdate) where
  -- If of the driver's set only the object `j` can be the socket's, the body runs for the socket once at most.
  pub seen-broadcast_only :
      ((set : KeySet) → Map.get r.by_driver d ≡ some set → IsOnly s j r set)
      → seen s j (broadcast_driver_location is_open byte_length step r d u) ≡ (
          if member r.by_driver d j
          then heard_update (is_open s) step u (Map.get r.infos j) (seen s j r)
          else seen s j r)
  unfolding broadcast_driver_location
  seen-broadcast_only only = elim (Option-cases (Map.get r.by_driver d)) [
    | inl e ↦
        rw (broadcast_driver_location, e)
          (ground (arith, member_at r.by_driver d j none e, has-nil j))
    | inr (set, e) ↦
        rw (broadcast_driver_location, e)
          (rw (member_at r.by_driver d j (some set) e) (
            seen-loop s j (broadcast_to is_open byte_length step u)
              (λ v. heard_update (is_open s) step u v.info v)
              (keeps-broadcast_to is_open s j byte_length step u)
              (quiet-broadcast_to is_open s j byte_length step u)
              (hit-broadcast_to is_open s j byte_length step u) set r
              (subst (λ o. IsDistinct (or_default o [])) e (w.0 d)) (only set e)))
  ]

  module _ (v : Inv r) (free : Map.get r.by_socket s ≡ none)
      (unused : Map.get r.infos j ≡ none) where
    members-IsOnly :
        (set : KeySet)
        → ((x : ℕ)
            → KeySet.has set x ≡ true
            → wants_driver r.by_socket (Map.get r.infos x) d x ≡ true)
        → IsOnly s j r set
    unfolding KeySet.has
    members-IsOnly [] f = tt
    members-IsOnly (x ∷ set) f = (
      elim (Option-cases (Map.get r.infos x)) [
        | inl e ↦ absurd (ground (arith, e, f x))
        | inr (info, e) ↦ ground (arith, e, f x, free, unused)
      ],
      members-IsOnly set (λ y h. f y (ground (arith, h))),
    )

    -- Nothing, if the socket has no subscription.
    pub seen-broadcast_stranger :
        seen s j (broadcast_driver_location is_open byte_length step r d u) ≡ seen s j r
    seen-broadcast_stranger = ground (
      arith,
      seen-broadcast_only (λ set e.
          members-IsOnly set
            (λ x h. ground (arith, h, v.drivers d x, member_at r.by_driver d x (some set) e))),
      v.drivers d j,
      unused,
    )
