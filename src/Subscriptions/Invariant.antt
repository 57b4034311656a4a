-- ===== src/Subscriptions/Invariant.antt =====
-- The indexes of core/src/ws/subscriptions.ts agree with the subscriber objects, whatever is called.
use ride_location_tracking_e.Common.{
  ℕ, ◌≤◌, ◌≡◌, Bool, true, false, ◌&&◌, Option, none, some, arith, ◌==◌, opt_is, Option-cases, inl,
  inr, ◌⊎◌,
}
use ride_location_tracking_e.Common.Map
use ride_location_tracking_e.Common.Map.{Map, get-set, get-delete, get-empty}
use ride_location_tracking_e.Subscriptions.Index.{
  member, member-remove_if, member-add_if, member-nil, remove_if_keyed, add_if_keyed,
}
use ride_location_tracking_e.Subscriptions.{
  Registry, SubscriberInfo, init, detach, attach, replace_existing, subscribe_to_driver,
  subscribe_to_trip, unsubscribe, handle_subscriber_disconnect,
}

-- Is the object its socket's current subscription, for a socket that has this object or none?
abbrev pub current : Map ℕ → SubscriberInfo → ℕ → Bool
current by_socket info id = opt_is (Map.get by_socket info.socket) id

-- Does the object with this identity want the driver's broadcasts?
abbrev pub wants_driver : Map ℕ → Option SubscriberInfo → ℕ → ℕ → Bool
wants_driver by_socket none d id = false
wants_driver by_socket (some info) d id = opt_is info.driver_id d && current by_socket info id

abbrev pub wants_trip : Map ℕ → Option SubscriberInfo → ℕ → ℕ → Bool
wants_trip by_socket none t id = false
wants_trip by_socket (some info) t id = opt_is info.trip_id t && current by_socket info id

abbrev pub has_socket : Option SubscriberInfo → ℕ → Bool
has_socket none s = false
has_socket (some info) s = info.socket == s

pub record Inv (r : Registry) : Type 0 where
  -- A driver's set holds exactly the current subscriptions that follow the driver.
  pub drivers :
      (d id : ℕ) → member r.by_driver d id ≡ wants_driver r.by_socket (Map.get r.infos id) d id
  -- A trip's set holds exactly the current subscriptions to the trip.
  pub trips : (t id : ℕ) → member r.by_trip t id ≡ wants_trip r.by_socket (Map.get r.infos id) t id
  -- A socket's current subscription is an object of that socket.
  pub owners :
      (s id : ℕ) → Map.get r.by_socket s ≡ some id → has_socket (Map.get r.infos id) s ≡ true
  -- Identities that are yet to be given out are unused.
  pub fresh : (id : ℕ) → r.next_info ≤ id → Map.get r.infos id ≡ none

pub init-Inv : Inv init
unfolding init
init-Inv = record {
  drivers = λ d id. rw (member-nil d id, get-empty {V = SubscriberInfo} id);
  trips = λ t id. rw (member-nil t id, get-empty {V = SubscriberInfo} id);
  owners = λ s id e. ground (arith, get-empty {V = ℕ} s);
  fresh = λ id h. get-empty id;
}

-- No other object has taken the socket over.
abbrev pub NotReplaced : Registry → ℕ → Type 0
NotReplaced r id =
    (info : SubscriberInfo)
    → Map.get r.infos id ≡ some info
    → (Map.get r.by_socket info.socket ≡ none) ⊎ (Map.get r.by_socket info.socket ≡ some id)

module _ (r : Registry) (id : ℕ) (info : SubscriberInfo) (found : Map.get r.infos id ≡ some info)
    (free : (Map.get r.by_socket info.socket ≡ none) ⊎ (Map.get r.by_socket info.socket ≡ some id))
    (v : Inv r) where
  detached_drivers :
      (d j : ℕ)
      → member (remove_if_keyed r.by_driver info.driver_id id) d j
        ≡ wants_driver (Map.delete r.by_socket info.socket) (Map.get r.infos j) d j
  detached_drivers d j = elim (Option-cases (Map.get r.infos j)) [
    | inl e ↦ ground (arith, member-remove_if r.by_driver info.driver_id id d j, v.drivers d j, e)
    | inr (other, e) ↦ ground (
      arith,
      member-remove_if r.by_driver info.driver_id id d j,
      v.drivers d j,
      e,
      found,
      free,
      get-delete r.by_socket info.socket other.socket,
    )
  ]

  detached_trips :
      (t j : ℕ)
      → member (remove_if_keyed r.by_trip info.trip_id id) t j
        ≡ wants_trip (Map.delete r.by_socket info.socket) (Map.get r.infos j) t j
  detached_trips t j = elim (Option-cases (Map.get r.infos j)) [
    | inl e ↦ ground (arith, member-remove_if r.by_trip info.trip_id id t j, v.trips t j, e)
    | inr (other, e) ↦ ground (
      arith,
      member-remove_if r.by_trip info.trip_id id t j,
      v.trips t j,
      e,
      found,
      free,
      get-delete r.by_socket info.socket other.socket,
    )
  ]

  detached_owners :
      (s j : ℕ)
      → Map.get (Map.delete r.by_socket info.socket) s ≡ some j
      → has_socket (Map.get r.infos j) s ≡ true
  detached_owners s j e = ground (arith, get-delete r.by_socket info.socket s, v.owners s j)

  detach_found : Inv (detach r id)
  unfolding detach
  detach_found =
      rw (found, detach)
        (record {
          drivers = detached_drivers;
          trips = detached_trips;
          owners = detached_owners;
          fresh = v.fresh;
        })

pub detach-Inv : (r : Registry) (id : ℕ) → NotReplaced r id → Inv r → Inv (detach r id)
unfolding detach
detach-Inv r id n v = elim (Option-cases (Map.get r.infos id)) [
  | inl e ↦ rw (e, detach) v
  | inr (info, e) ↦ detach_found r id info e (n info e) v
]

-- A current subscription may be detached.
pub current-NotReplaced :
    (r : Registry) (s id : ℕ) → Map.get r.by_socket s ≡ some id → Inv r → NotReplaced r id
current-NotReplaced r s id e v info f = ground (arith, v.owners s id e, f)

pub replace_existing-Inv : (r : Registry) (s : ℕ) → Inv r → Inv (replace_existing r s)
unfolding replace_existing
replace_existing-Inv r s v = elim (Option-cases (Map.get r.by_socket s)) [
  | inl e ↦ rw (e, replace_existing) v
  | inr (id, e) ↦ rw (e, replace_existing) (detach-Inv r id (current-NotReplaced r s id e v) v)
]

-- After the replacement the socket has no subscription.
pub by_socket-replace_existing :
    (r : Registry) (s : ℕ) → Inv r → Map.get (replace_existing r s).by_socket s ≡ none
unfolding replace_existing detach
by_socket-replace_existing r s v = elim (Option-cases (Map.get r.by_socket s)) [
  | inl e ↦ rw (e, replace_existing) e
  | inr (id, e) ↦ elim (Option-cases (Map.get r.infos id)) [
    | inl f ↦ ground (arith, v.owners s id e, f)
    | inr (info, f) ↦ ground (arith, v.owners s id e, e, f, get-delete r.by_socket info.socket s)
  ]
]

module _ (r : Registry) (s : ℕ) (driver trip : Option ℕ) (vacant : Map.get r.by_socket s ≡ none)
    (v : Inv r) where
  abbrev new_info : SubscriberInfo
  new_info = record { socket = s; driver_id = driver; trip_id = trip; last_sent = none }

  attached_drivers :
      (d j : ℕ)
      → member (add_if_keyed r.by_driver driver r.next_info) d j
        ≡ wants_driver
            (Map.set r.by_socket s r.next_info)
            (Map.get (Map.set r.infos r.next_info new_info) j)
            d
            j
  attached_drivers d j = elim (Option-cases (Map.get r.infos j)) [
    | inl e ↦ ground (
      arith,
      e,
      vacant,
      member-add_if r.by_driver driver r.next_info d j,
      v.drivers d j,
      get-set r.by_socket s s r.next_info,
      get-set r.infos r.next_info j new_info,
    )
    | inr (other, e) ↦ ground (
      arith,
      e,
      vacant,
      v.fresh r.next_info,
      v.drivers d j,
      member-add_if r.by_driver driver r.next_info d j,
      get-set r.by_socket s other.socket r.next_info,
      get-set r.infos r.next_info j new_info,
    )
  ]

  attached_trips :
      (t j : ℕ)
      → member (add_if_keyed r.by_trip trip r.next_info) t j
        ≡ wants_trip
            (Map.set r.by_socket s r.next_info)
            (Map.get (Map.set r.infos r.next_info new_info) j)
            t
            j
  attached_trips t j = elim (Option-cases (Map.get r.infos j)) [
    | inl e ↦ ground (
      arith,
      e,
      vacant,
      member-add_if r.by_trip trip r.next_info t j,
      v.trips t j,
      get-set r.by_socket s s r.next_info,
      get-set r.infos r.next_info j new_info,
    )
    | inr (other, e) ↦ ground (
      arith,
      e,
      vacant,
      v.fresh r.next_info,
      v.trips t j,
      member-add_if r.by_trip trip r.next_info t j,
      get-set r.by_socket s other.socket r.next_info,
      get-set r.infos r.next_info j new_info,
    )
  ]

  attach-Inv : Inv (attach r s driver trip)
  unfolding attach
  attach-Inv = record {
    drivers = attached_drivers;
    trips = attached_trips;
    owners = λ q j e. ground (
      arith,
      v.owners q j,
      v.fresh r.next_info,
      get-set r.by_socket s q r.next_info,
      get-set r.infos r.next_info j new_info,
    );
    fresh = λ j h. ground (arith, v.fresh j, get-set r.infos r.next_info j new_info);
  }

pub subscribe_to_driver-Inv : (r : Registry) (s d : ℕ) → Inv r → Inv (subscribe_to_driver r s d)
unfolding subscribe_to_driver
subscribe_to_driver-Inv r s d v =
    attach-Inv (replace_existing r s) s (some d) none (by_socket-replace_existing r s v)
      (replace_existing-Inv r s v)

pub subscribe_to_trip-Inv :
    (r : Registry) (s t : ℕ) (d : Option ℕ) → Inv r → Inv (subscribe_to_trip r s t d)
unfolding subscribe_to_trip
subscribe_to_trip-Inv r s t d v =
    attach-Inv (replace_existing r s) s d (some t) (by_socket-replace_existing r s v)
      (replace_existing-Inv r s v)

pub disconnect-Inv : (r : Registry) (s : ℕ) → Inv r → Inv (handle_subscriber_disconnect r s)
unfolding handle_subscriber_disconnect unsubscribe
disconnect-Inv r s v = elim (Option-cases (Map.get r.by_socket s)) [
  | inl e ↦ rw (e, handle_subscriber_disconnect, unsubscribe) v
  | inr (id, e) ↦
      rw (e, handle_subscriber_disconnect, unsubscribe)
        (detach-Inv r id (current-NotReplaced r s id e v) v)
]

pub unsubscribe-Inv : (r : Registry) (s : ℕ) → Inv r → Inv (unsubscribe r s).0
unfolding handle_subscriber_disconnect
unsubscribe-Inv r s v = disconnect-Inv r s v
