-- ===== src/Subscriptions/Endings.antt =====
-- What is left of a trip's subscriptions once the trip has ended (core/src/ws/subscriptions.ts,
-- `notifyTripStatusChanged`).
use ride_location_tracking_e.Common.{
  ℕ, ◌≡◌, refl, Bool, true, false, ◌||◌, Option, none, some, [], ◌∷◌, arith, if◌then◌else◌,
  Option-cases, inl, inr, for_each, ap,
}
use ride_location_tracking_e.Common.Map
use ride_location_tracking_e.Common.Map.{Map, get-delete}
use ride_location_tracking_e.Common.KeySet
use ride_location_tracking_e.Common.KeySet.{KeySet, has-nil}
use ride_location_tracking_e.Subscriptions.Index.{member, member_at}
use ride_location_tracking_e.Subscriptions.Invariant.{Inv, wants_trip, has_socket}
use ride_location_tracking_e.Subscriptions.Notices.{notify_trip_status_changed-Inv}
use ride_location_tracking_e.Subscriptions.{
  Registry, SubscriberInfo, EndReason, detach, end_subscription, notify_trip_status_changed,
  send_json,
}

-- Does one of these objects belong to the socket?
any_at : Map SubscriberInfo → KeySet → ℕ → Bool
any_at infos [] s = false
any_at infos (x ∷ set) s = has_socket (Map.get infos x) s || any_at infos set s

module _ (is_open : ℕ → Bool) (t : ℕ) (reason : EndReason) where
  ended_step :
      (r : Registry) (x s : ℕ)
      → (Map.get (end_subscription is_open t reason r x).by_socket s
          ≡ (if has_socket (Map.get r.infos x) s then none else Map.get r.by_socket s))
        × ((end_subscription is_open t reason r x).infos ≡ r.infos)
  unfolding end_subscription send_json detach
  ended_step r x s = elim (Option-cases (Map.get r.infos x)) [
    | inl e ↦ rw (e, end_subscription) (refl, refl)
    | inr (info, e) ↦
        rw (e, end_subscription) (ground (arith, e, get-delete r.by_socket info.socket s))
  ]

  ended_loop :
      (set : KeySet) (r : Registry) (s : ℕ)
      → (Map.get (for_each set (end_subscription is_open t reason) r).by_socket s
          ≡ (if any_at r.infos set s then none else Map.get r.by_socket s))
        × ((for_each set (end_subscription is_open t reason) r).infos ≡ r.infos)
  unfolding for_each any_at
  ended_loop [] r s = (refl, refl)
  ended_loop (x ∷ set) r s =
      let rest = ended_loop set (end_subscription is_open t reason r x) s in
      let here = ended_step r x s in ground (arith, rest, here, ap (λ m. any_at m set s) here.1)

-- The subscription of a socket that has one of the objects, if these are current on one trip.
module _ (r : Registry) (t : ℕ) (v : Inv r) where
  any_at-current :
      (set : KeySet) (s : ℕ)
      → ((x : ℕ) → KeySet.has set x ≡ true → wants_trip r.by_socket (Map.get r.infos x) t x ≡ true)
      → any_at r.infos set s
        ≡ (elim (Map.get r.by_socket s) [ none ↦ false | some id ↦ KeySet.has set id ])
  unfolding any_at KeySet.has
  any_at-current [] s f = ground arith
  any_at-current (x ∷ set) s f =
      ground (arith, any_at-current set s (λ y h. f y (ground (arith, h))), f x, v.owners s x)

-- A subscription, dropped if its object is in the trip's set.
abbrev pub unless_on_trip : Registry → ℕ → Option ℕ → Option ℕ
unless_on_trip r t none = none
unless_on_trip r t (some id) = if member r.by_trip t id then none else some id

module _ (is_open : ℕ → Bool) (r : Registry) (t : ℕ) (reason : EndReason) (v : Inv r) where
  abbrev ended : KeySet → Registry
  ended set = for_each set (end_subscription is_open t reason) r

  module _ (set : KeySet) (e : Map.get r.by_trip t ≡ some set) where
    ended_sockets :
        (s : ℕ) → Map.get (ended set).by_socket s ≡ unless_on_trip r t (Map.get r.by_socket s)
    ended_sockets s = elim (Option-cases (Map.get r.by_socket s)) [
      | inl n ↦ ground (arith, (ended_loop is_open t reason set r s).0, n)
      | inr (id, n) ↦ ground (
        arith,
        (ended_loop is_open t reason set r s).0,
        n,
        member_at r.by_trip t id (some set) e,
        any_at-current r t v set s
            (λ x h. ground (arith, v.trips t x, member_at r.by_trip t x (some set) e, h)),
      )
    ]

    no_member_left : (id : ℕ) → Inv (ended set) → member (ended set).by_trip t id ≡ false
    no_member_left id w = elim (Option-cases (Map.get r.infos id)) [
      | inl n ↦
          ground
            (arith, w.trips t id, n, ap (λ m. Map.get m id) (ended_loop is_open t reason set r 0).1)
      | inr (info, n) ↦ ground (
        arith,
        w.trips t id,
        v.trips t id,
        n,
        ended_sockets info.socket,
        ap (λ m. Map.get m id) (ended_loop is_open t reason set r 0).1,
      )
    ]

  -- When a trip ends, each socket whose current subscription is to the trip loses it, every other
  -- socket keeps its own, and no subscriber is left in the trip's set.
  pub ended_unsubscribed :
      (s id : ℕ)
      → (Map.get (notify_trip_status_changed is_open r t reason).by_socket s
          ≡ unless_on_trip r t (Map.get r.by_socket s))
        × (member (notify_trip_status_changed is_open r t reason).by_trip t id ≡ false)
  unfolding notify_trip_status_changed
  ended_unsubscribed s id = elim (Option-cases (Map.get r.by_trip t)) [
    | inl e ↦
        rw (e, notify_trip_status_changed)
          (
            no_members e (Map.get r.by_socket s),
            ground (arith, member_at r.by_trip t id none e, has-nil id),
          )
    | inr (set, e) ↦
        let w : Inv (ended set) =
          rw (notify_trip_status_changed, e) at
            (notify_trip_status_changed-Inv is_open t reason r v) in
        rw (e, notify_trip_status_changed) (ended_sockets set e s, no_member_left set e id w)
  ]
    where
      no_members : Map.get r.by_trip t ≡ none → (o : Option ℕ) → o ≡ unless_on_trip r t o
      no_members e none = refl
      no_members e (some j) = ground (arith, member_at r.by_trip t j none e, has-nil j)
