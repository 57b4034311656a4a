-- ===== src/Subscriptions/Follows.antt =====
-- What a socket currently follows (core/src/ws/subscriptions.ts).
use ride_location_tracking_e.Common.{
  ℕ, ◌≡◌, Option, none, some, arith, ◌==◌, if◌then◌else◌, Option-cases, inl, inr,
}
use ride_location_tracking_e.Common.Map
use ride_location_tracking_e.Common.Map.{Map, get-set, get-delete}
use ride_location_tracking_e.Subscriptions.{
  Registry, SubscriberInfo, detach, attach, replace_existing, subscribe_to_driver,
  subscribe_to_trip, unsubscribe,
}
use ride_location_tracking_e.Subscriptions.Invariant.{Inv, replace_existing-Inv}

-- What an object follows: a driver, a trip.
abbrev pub keys_of : Option SubscriberInfo → Option (Option ℕ × Option ℕ)
keys_of none = none
keys_of (some info) = some (info.driver_id, info.trip_id)

abbrev pub info_of : Map SubscriberInfo → Option ℕ → Option SubscriberInfo
info_of infos none = none
info_of infos (some id) = Map.get infos id

-- What a socket currently follows.
abbrev pub follows : Registry → ℕ → Option (Option ℕ × Option ℕ)
follows r s = keys_of (info_of r.infos (Map.get r.by_socket s))

follows-detach :
    (r : Registry) (s id q : ℕ)
    → Inv r
    → Map.get r.by_socket s ≡ some id
    → follows (detach r id) q ≡ (if s == q then none else follows r q)
unfolding detach
follows-detach r s id q v e = elim (Option-cases (Map.get r.infos id)) [
  | inl f ↦ ground (arith, v.owners s id e, f)
  | inr (info, f) ↦
      rw (f, detach) (ground (arith, f, v.owners s id e, get-delete r.by_socket info.socket q))
]

follows-replace_existing :
    (r : Registry) (s q : ℕ)
    → Inv r
    → follows (replace_existing r s) q ≡ (if s == q then none else follows r q)
unfolding replace_existing
follows-replace_existing r s q v = elim (Option-cases (Map.get r.by_socket s)) [
  | inl e ↦ rw (e, replace_existing) (ground (arith, e))
  | inr (id, e) ↦ rw (e, replace_existing) (follows-detach r s id q v e)
]

pub follows-unsubscribe :
    (r : Registry) (s q : ℕ)
    → Inv r
    → follows (unsubscribe r s).0 q ≡ (if s == q then none else follows r q)
unfolding unsubscribe
follows-unsubscribe r s q v = elim (Option-cases (Map.get r.by_socket s)) [
  | inl e ↦ rw (e, unsubscribe) (ground (arith, e))
  | inr (id, e) ↦ rw (e, unsubscribe) (follows-detach r s id q v e)
]

follows-attach :
    (r : Registry) (s q : ℕ) (driver trip : Option ℕ)
    → Inv r
    → follows (attach r s driver trip) q ≡ (if s == q then some (driver, trip) else follows r q)
unfolding attach
follows-attach r s q driver trip v = elim (Option-cases (Map.get r.by_socket q)) [
  | inl e ↦ ground (
    arith,
    e,
    get-set r.by_socket s q r.next_info,
    get-set r.infos r.next_info r.next_info
        (record { socket = s; driver_id = driver; trip_id = trip; last_sent = none }),
  )
  | inr (id, e) ↦ ground (
    arith,
    e,
    v.owners q id e,
    v.fresh r.next_info,
    get-set r.by_socket s q r.next_info,
    get-set r.infos r.next_info r.next_info
        (record { socket = s; driver_id = driver; trip_id = trip; last_sent = none }),
    get-set r.infos r.next_info id
        (record { socket = s; driver_id = driver; trip_id = trip; last_sent = none }),
  )
]

follows-subscribe :
    (r : Registry) (s q : ℕ) (driver trip : Option ℕ)
    → Inv r
    → follows (attach (replace_existing r s) s driver trip) q
      ≡ (if s == q then some (driver, trip) else follows r q)
follows-subscribe r s q driver trip v = ground (
  arith,
  follows-attach (replace_existing r s) s q driver trip (replace_existing-Inv r s v),
  follows-replace_existing r s q v,
)

pub follows-subscribe_to_driver :
    (r : Registry) (s q d : ℕ)
    → Inv r
    → follows (subscribe_to_driver r s d) q ≡ (if s == q then some (some d, none) else follows r q)
unfolding subscribe_to_driver
follows-subscribe_to_driver r s q d v = follows-subscribe r s q (some d) none v

pub follows-subscribe_to_trip :
    (r : Registry) (s q t : ℕ) (d : Option ℕ)
    → Inv r
    → follows (subscribe_to_trip r s t d) q ≡ (if s == q then some (d, some t) else follows r q)
unfolding subscribe_to_trip
follows-subscribe_to_trip r s q t d v = follows-subscribe r s q d (some t) v
