-- ===== src/Connections/Coalescing.antt =====
-- The per-driver throttle loses no last update (core/src/ws/driver-connections.ts).
use ride_location_tracking_e.Common.{
  ℕ, ◌≡◌, inl, inr, refl, true, Option, none, some, List, [], ◌∷◌, Bool-cases, Option-cases, arith,
  is_some,
}
use ride_location_tracking_e.Connections.{
  LocationUpdate, ThrottleState, new_throttle, is_due, handle_location_message, flush_pending,
}

pub data Event : Type 0 where
  message : ℕ → LocationUpdate → Event
  timer : ℕ → Event

abbrev pub time_of : Event → ℕ
time_of (message now u) = now
time_of (timer now) = now

-- A socket's throttle, what it has released with the times, and the last update it has received.
pub record Stream : Type 0 where
  pub state : ThrottleState
  pub released : List (ℕ × LocationUpdate)
  pub received : Option LocationUpdate

abbrev pub note : ℕ → Option LocationUpdate → List (ℕ × LocationUpdate) → List (ℕ × LocationUpdate)
note now none log = log
note now (some u) log = (now, u) ∷ log

unfoldable pub step : ℕ → Stream → Event → Stream
step throttle_ms s (message now u) =
    let r = handle_location_message throttle_ms now s.state u in
    record { state = r.0; released = note now r.1 s.released; received = some u }
step throttle_ms s (timer now) =
    let r = flush_pending now s.state in
    record { state = r.0; released = note now r.1 s.released; received = s.received }

unfoldable pub run : ℕ → Stream → List Event → Stream
run throttle_ms s [] = s
run throttle_ms s (e ∷ es) = run throttle_ms (step throttle_ms s e) es

unfoldable pub fresh : Stream
fresh = record { state = new_throttle; released = []; received = none }

abbrev pub last_released : List (ℕ × LocationUpdate) → Option LocationUpdate
last_released [] = none
last_released ((now, u) ∷ log) = some u

-- The last update received is the last released, or it is pending and a timer is set.
pub record IsCoalesced (s : Stream) : Type 0 where
  pub none_pending : s.state.pending ≡ none → s.received ≡ last_released s.released
  pub some_pending :
      is_some s.state.pending ≡ true
      → (s.state.pending ≡ s.received) × (is_some s.state.flush_timer ≡ true)

step-IsCoalesced :
    (throttle_ms : ℕ) (s : Stream) (e : Event) → IsCoalesced s → IsCoalesced (step throttle_ms s e)
unfolding step handle_location_message flush_pending
step-IsCoalesced throttle_ms s (message now u) h =
    elim (Bool-cases (is_due throttle_ms now s.state.last_processed_at)) [
      | inl g ↦
          rw (step, handle_location_message, g)
            (record { none_pending = λ f. refl; some_pending = λ f. absurd (ground (arith, f)) })
      | inr g ↦ elim (Option-cases s.state.flush_timer) [
        | inl t ↦
            rw (step, handle_location_message, g, t)
              (record {
                none_pending = λ f. absurd (ground (arith, f));
                some_pending = λ f. (refl, refl);
              })
        | inr (due, t) ↦
            rw (step, handle_location_message, g, t)
              (record {
                none_pending = λ f. absurd (ground (arith, f));
                some_pending = λ f. (refl, ground (arith, t));
              })
      ]
    ]
step-IsCoalesced throttle_ms s (timer now) h = elim (Option-cases s.state.pending) [
  | inl p ↦
      rw (step, flush_pending, p)
        (record {
          none_pending = λ f. h.none_pending p;
          some_pending = λ f. absurd (ground (arith, f));
        })
  | inr (u, p) ↦
      rw (step, flush_pending, p)
        (record {
          none_pending = λ f. ground (arith, p, h.some_pending);
          some_pending = λ f. absurd (ground (arith, f));
        })
]

run-keeps :
    (throttle_ms : ℕ) (s : Stream) (es : List Event)
    → IsCoalesced s
    → IsCoalesced (run throttle_ms s es)
unfolding run
run-keeps throttle_ms s [] h = h
run-keeps throttle_ms s (e ∷ es) h =
    run-keeps throttle_ms (step throttle_ms s e) es (step-IsCoalesced throttle_ms s e h)

-- Whatever messages come and whenever the timer fires, the last update that a driver sent has been released
-- last, or is pending with a timer set to release it.
pub run-IsCoalesced : (throttle_ms : ℕ) (es : List Event) → IsCoalesced (run throttle_ms fresh es)
unfolding fresh new_throttle
run-IsCoalesced throttle_ms es =
    run-keeps throttle_ms fresh es
      (record { none_pending = λ f. refl; some_pending = λ f. absurd (ground (arith, f)) })
