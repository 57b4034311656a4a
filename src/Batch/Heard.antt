-- ===== src/Batch/Heard.antt =====
-- What the broadcasts of a flush send to one socket (core/src/ws/location-batch.ts).
use ride_location_tracking_e.Common.{
  ℕ, ◌≡◌, refl, ◌∙◌, ap, Bool, true, false, Option, none, some, [], ◌∷◌, arith, ◌==◌, if◌then◌else◌,
  for_each, Bool-cases, Option-cases, inl, inr,
}
use ride_location_tracking_e.Common.Map
use ride_location_tracking_e.Common.Map.{Map, IsDistinct}
use ride_location_tracking_e.Database.{Driver}
use ride_location_tracking_e.Subscriptions.{Registry, OutMessage}
use ride_location_tracking_e.Subscriptions.Index.{member}
use ride_location_tracking_e.Subscriptions.Invariant.{Inv}
use ride_location_tracking_e.Subscriptions.Calls.{broadcast}
use ride_location_tracking_e.Subscriptions.Sets.{IsSetwise, perform-IsSetwise}
use ride_location_tracking_e.Subscriptions.Outbox.{Seen, seen}
use ride_location_tracking_e.Subscriptions.Outbox.Bodies.{heard_update}
use ride_location_tracking_e.Subscriptions.Outbox.Broadcasts.{seen-broadcast_stranger}
use ride_location_tracking_e.Subscriptions.Outbox.Heard.{seen-broadcast}
use ride_location_tracking_e.Batch.Writes.{kept}
use ride_location_tracking_e.Batch.Broadcasts.{raw_update, one_set, one-Inv, member-one}
use ride_location_tracking_e.Batch.{PendingUpdate, Snapshot, broadcast_one}

-- What a flush does for a socket whose subscription follows the driver: the driver's update is sent as one message,
-- encoded against what the subscription was last sent, if the batch has one and the driver a row.
abbrev pub heard : Bool → ℕ → ℕ → Option PendingUpdate → Option Driver → Seen → Seen
heard is_open step d none row v = v
heard is_open step d (some u) none v = v
heard is_open step d (some u) (some row) v = heard_update is_open step (raw_update d u row) v.info v

pub heard-kept :
    (is_open : Bool) (step d : ℕ) (o : Option PendingUpdate) (row : Option Driver) (v : Seen)
    → heard is_open step d o (kept o row) v ≡ heard is_open step d o row v
heard-kept is_open step d none row v = refl
heard-kept is_open step d (some u) row v = refl

current-heard_update :
    (is_open : Bool) (step d : ℕ) (u : PendingUpdate) (row : Driver) (v : Seen)
    → (heard_update is_open step (raw_update d u row) v.info v).current ≡ v.current
unfolding heard_update
current-heard_update is_open step d u row v = elim (Option-cases v.info) [
  | inl e ↦ rw (heard_update, e) refl
  | inr (info, e) ↦ rw (heard_update, e) refl
]

module _ (is_open : ℕ → Bool) (byte_length : OutMessage → ℕ) (step : ℕ) (drivers : Map Driver) where
  abbrev one : Registry → ℕ × PendingUpdate → Registry
  one = broadcast_one is_open byte_length step drivers

  one-IsSetwise : (r : Registry) (e : ℕ × PendingUpdate) → IsSetwise r → IsSetwise (one r e)
  unfolding broadcast_one ride_location_tracking_e.Subscriptions.Calls.perform
  one-IsSetwise r (id, u) w = elim (Option-cases (Map.get drivers id)) [
    | inl e ↦ rw (broadcast_one, e) w
    | inr (d, e) ↦
        rw (broadcast_one, e)
          (perform-IsSetwise is_open byte_length step r (broadcast id (raw_update id u d)) w)
  ]

  module _ (s j : ℕ) where
    seen-one :
        (r : Registry) (id : ℕ) (u : PendingUpdate)
        → Inv r
        → IsSetwise r
        → Map.get r.by_socket s ≡ some j
        → seen s j (one r (id, u)) ≡ (
            if member r.by_driver id j
            then heard (is_open s) step id (some u) (Map.get drivers id) (seen s j r)
            else seen s j r)
    unfolding broadcast_one
    seen-one r id u v w mine = elim (Option-cases (Map.get drivers id)) [
      | inl e ↦ rw (broadcast_one, e) (ground arith)
      | inr (d, e) ↦
          rw (broadcast_one, e)
            (seen-broadcast r s j v mine w is_open byte_length step id (raw_update id u d))
    ]

    current-one :
        (r : Registry) (id : ℕ) (u : PendingUpdate)
        → Inv r
        → IsSetwise r
        → Map.get r.by_socket s ≡ some j
        → Map.get (one r (id, u)).by_socket s ≡ some j
    current-one r id u v w mine =
        ap (λ x. x.current) (seen-one r id u v w mine)
        ∙ elim (Bool-cases (member r.by_driver id j)) [
          | inr m ↦ rw (m) mine
          | inl m ↦ elim (Option-cases (Map.get drivers id)) [
            | inl e ↦ rw (m, e) mine
            | inr (d, e) ↦
                rw (m, e) (current-heard_update (is_open s) step id u d (seen s j r) ∙ mine)
          ]
        ]

    -- A socket whose subscription follows no driver is sent nothing.
    pub seen-flush_others :
        (snapshot : Snapshot) (r : Registry)
        → Inv r
        → IsSetwise r
        → Map.get r.by_socket s ≡ some j
        → ((d : ℕ) → member r.by_driver d j ≡ false)
        → seen s j (for_each snapshot one r) ≡ seen s j r
    unfolding for_each Map.get
    seen-flush_others [] r v w mine m = refl
    seen-flush_others ((id, u) ∷ rest) r v w mine m =
        seen-flush_others rest (one r (id, u))
          (one-Inv is_open byte_length step drivers r (id, u) v) (one-IsSetwise r (id, u) w)
          (current-one r id u v w mine)
          (λ d. member-one is_open byte_length step drivers r (id, u) d j ∙ m d)
        ∙ seen-one r id u v w mine
        ∙ ground (arith, m id)

    -- A socket whose subscription follows a driver hears of this driver alone.
    pub seen-flush :
        (snapshot : Snapshot) (r : Registry) (d : ℕ)
        → IsDistinct snapshot
        → Inv r
        → IsSetwise r
        → Map.get r.by_socket s ≡ some j
        → member r.by_driver d j ≡ true
        → seen s j (for_each snapshot one r)
          ≡ heard (is_open s) step d (Map.get snapshot d) (Map.get drivers d) (seen s j r)
    unfolding for_each Map.get
    seen-flush [] r d h v w mine m = refl
    seen-flush ((id, u) ∷ rest) r d h v w mine m =
        seen-flush rest (one r (id, u)) d h.1 (one-Inv is_open byte_length step drivers r (id, u) v)
          (one-IsSetwise r (id, u) w) (current-one r id u v w mine)
          (member-one is_open byte_length step drivers r (id, u) d j ∙ m)
        ∙ elim (Bool-cases (id == d)) [
          | inl e ↦ ground (arith, e, h.0, m, seen-one r id u v w mine)
          | inr e ↦ ground (
            arith,
            e,
            one_set is_open byte_length step drivers r d id j v m e,
            seen-one r id u v w mine,
          )
        ]

    -- A socket without a subscription is sent nothing.
    pub seen-flush_strangers :
        (snapshot : Snapshot) (r : Registry)
        → Inv r
        → IsSetwise r
        → Map.get r.by_socket s ≡ none
        → Map.get r.infos j ≡ none
        → seen s j (for_each snapshot one r) ≡ seen s j r
    unfolding for_each broadcast_one
    seen-flush_strangers [] r v w free unused = refl
    seen-flush_strangers ((id, u) ∷ rest) r v w free unused =
        let same : seen s j (one r (id, u)) ≡ seen s j r =
          elim (Option-cases (Map.get drivers id)) [
            | inl e ↦ rw (broadcast_one, e) refl
            | inr (d, e) ↦
                rw (broadcast_one, e)
                  (seen-broadcast_stranger r s j w is_open byte_length step id (raw_update id u d) v
                    free unused)
          ] in
        seen-flush_strangers rest (one r (id, u))
          (one-Inv is_open byte_length step drivers r (id, u) v) (one-IsSetwise r (id, u) w)
          (ap (λ x. x.current) same ∙ free) (ap (λ x. x.info) same ∙ unused)
        ∙ same
