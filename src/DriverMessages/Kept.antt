-- ===== src/DriverMessages/Kept.antt =====
-- What one throttle and the batch keep of a driver's last position (core/src/ws/driver-connections.ts).
use ride_location_tracking_e.Common.{
  ℕ, ◌≡◌, refl, sym, ap, ◌∙◌, true, Option, none, some, Bool-cases, Option-cases, inl, inr, arith,
  is_some,
}
use ride_location_tracking_e.Connections.{
  ThrottleState, LocationUpdate, handle_location_message, flush_pending, is_due,
}
use ride_location_tracking_e.Batch.{PendingUpdate}
use ride_location_tracking_e.DriverMessages.{pending_update}

-- What the batch holds of an update.
abbrev pub in_batch : Option LocationUpdate → Option PendingUpdate
in_batch none = none
in_batch (some u) = some (pending_update u)

-- The batch has the last update, or the throttle has it and a timer to release it.
pub record IsKept (t : ThrottleState) (batched : Option PendingUpdate)
    (last : Option LocationUpdate) : Type 0 where
  pub none_pending : t.pending ≡ none → batched ≡ in_batch last
  pub some_pending : is_some t.pending ≡ true → (t.pending ≡ last) × (is_some t.flush_timer ≡ true)

-- What the batch holds after a release.
abbrev pub batched_after : Option PendingUpdate → Option LocationUpdate → Option PendingUpdate
batched_after batched none = batched
batched_after batched (some u) = some (pending_update u)

pub message-IsKept :
    (throttle_ms now : ℕ) (t : ThrottleState) (batched : Option PendingUpdate)
    (last : Option LocationUpdate) (u : LocationUpdate)
    → IsKept t batched last
    → IsKept
        (handle_location_message throttle_ms now t u).0
        (batched_after batched (handle_location_message throttle_ms now t u).1)
        (some u)
unfolding handle_location_message
message-IsKept throttle_ms now t batched last u h =
    elim (Bool-cases (is_due throttle_ms now t.last_processed_at)) [
      | inl g ↦
          rw (handle_location_message, g)
            (record { none_pending = λ f. refl; some_pending = λ f. absurd (ground (arith, f)) })
      | inr g ↦ elim (Option-cases t.flush_timer) [
        | inl q ↦
            rw (handle_location_message, g, q)
              (record {
                none_pending = λ f. absurd (ground (arith, f));
                some_pending = λ f. (refl, refl);
              })
        | inr (due, q) ↦
            rw (handle_location_message, g, q)
              (record {
                none_pending = λ f. absurd (ground (arith, f));
                some_pending = λ f. (refl, ground (arith, q));
              })
      ]
    ]

pub timer-IsKept :
    (now : ℕ) (t : ThrottleState) (batched : Option PendingUpdate) (last : Option LocationUpdate)
    → IsKept t batched last
    → IsKept (flush_pending now t).0 (batched_after batched (flush_pending now t).1) last
unfolding flush_pending
timer-IsKept now t batched last h = elim (Option-cases t.pending) [
  | inl p ↦
      rw (flush_pending, p)
        (record {
          none_pending = λ f. h.none_pending p;
          some_pending = λ f. absurd (ground (arith, f));
        })
  | inr (u, p) ↦
      let same : some u ≡ last = sym p ∙ (h.some_pending (ground (arith, p))).0 in
      rw (flush_pending, p)
        (record {
          none_pending = λ f. ap in_batch same;
          some_pending = λ f. absurd (ground (arith, f));
        })
]
