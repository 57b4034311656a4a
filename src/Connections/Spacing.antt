-- ===== src/Connections/Spacing.antt =====
-- The per-driver throttle releases no two updates within its window unless a timer is late
-- (core/src/ws/driver-connections.ts).
use ride_location_tracking_e.Common.{
  ℕ, ◌+◌, ◌≤◌, ◌<◌, ◌≡◌, inl, inr, refl, sym, ◌∙◌, true, false, Option, none, some, List, [], ◌∷◌,
  Bool-cases, Option-cases, arith,
}
use ride_location_tracking_e.Connections.{
  LocationUpdate, ThrottleState, new_throttle, is_due, timer_due, handle_location_message,
  flush_pending,
}
use ride_location_tracking_e.Connections.Coalescing.{
  Event, message, timer, Stream, step, run, fresh,
}

-- The timer fires when it is set and due, and no message comes between its time and its firing.
abbrev pub IsOnTime : ThrottleState → Event → Type 0
IsOnTime t (message now u) = (due : ℕ) → t.flush_timer ≡ some due → now < due
IsOnTime t (timer now) = (due : ℕ) × (t.flush_timer ≡ some due) × (due ≤ now)

abbrev pub IsPrompt : ℕ → Stream → List Event → Type 0
IsPrompt throttle_ms s [] = Unit {0}
IsPrompt throttle_ms s (e ∷ es) =
    IsOnTime s.state e × IsPrompt throttle_ms (step throttle_ms s e) es

abbrev pub IsAfter : ℕ → ℕ → List (ℕ × LocationUpdate) → Type 0
IsAfter throttle_ms now [] = Unit {0}
IsAfter throttle_ms now ((earlier, u) ∷ log) = earlier + throttle_ms ≤ now

-- Every release comes at least the window after the one before it.
abbrev pub IsSpaced : ℕ → List (ℕ × LocationUpdate) → Type 0
IsSpaced throttle_ms [] = Unit {0}
IsSpaced throttle_ms ((now, u) ∷ log) = IsAfter throttle_ms now log × IsSpaced throttle_ms log

abbrev head_time : List (ℕ × LocationUpdate) → Option ℕ
head_time [] = none
head_time ((now, u) ∷ log) = some now

record IsTimed (throttle_ms : ℕ) (s : Stream) : Type 0 where
  last : s.state.last_processed_at ≡ head_time s.released
  due :
      (d : ℕ)
      → s.state.flush_timer ≡ some d
      → (l : ℕ) × (s.state.last_processed_at ≡ some l) × (d ≡ l + throttle_ms)
  spaced : IsSpaced throttle_ms s.released

head-IsAfter :
    (throttle_ms now : ℕ) (log : List (ℕ × LocationUpdate))
    → is_due throttle_ms now (head_time log) ≡ true
    → IsAfter throttle_ms now log
unfolding is_due
head-IsAfter throttle_ms now [] h = tt
head-IsAfter throttle_ms now ((l, u) ∷ log) h = ground (arith, h)

due-IsAfter :
    (throttle_ms now l : ℕ) (log : List (ℕ × LocationUpdate))
    → head_time log ≡ some l
    → l + throttle_ms ≤ now
    → IsAfter throttle_ms now log
due-IsAfter throttle_ms now l [] e h = tt
due-IsAfter throttle_ms now l ((k, u) ∷ log) e h = ground (arith, e, h)

due_time :
    (throttle_ms now l : ℕ) (last : Option ℕ)
    → is_due throttle_ms now last ≡ true
    → last ≡ some l
    → l + throttle_ms ≤ now
unfolding is_due
due_time throttle_ms now l none g e = absurd (ground (arith, e))
due_time throttle_ms now l (some k) g e = ground (arith, g, e)

timer_time :
    (throttle_ms now d : ℕ) (last : Option ℕ)
    → is_due throttle_ms now last ≡ false
    → some (timer_due throttle_ms now last) ≡ some d
    → (l : ℕ) × (last ≡ some l) × (d ≡ l + throttle_ms)
unfolding is_due timer_due
timer_time throttle_ms now d none g e = absurd (ground (arith, g))
timer_time throttle_ms now d (some l) g e = (l, refl, ground (arith, e))

step-IsTimed :
    (throttle_ms : ℕ) (s : Stream) (e : Event)
    → IsOnTime s.state e
    → IsTimed throttle_ms s
    → IsTimed throttle_ms (step throttle_ms s e)
unfolding step handle_location_message flush_pending
step-IsTimed throttle_ms s (message now u) o h =
    elim (Bool-cases (is_due throttle_ms now s.state.last_processed_at)) [
      | inl g ↦ elim (Option-cases s.state.flush_timer) [
        | inl t ↦
            rw (step, handle_location_message, g)
              (record {
                last = refl;
                due = λ d e. absurd (ground (arith, t, e));
                spaced = (head-IsAfter throttle_ms now s.released (rw (← h.last) g), h.spaced);
              })
        | inr (d, t) ↦
            let k = h.due d t in
            absurd (
              omega
                (arith, o d t, due_time throttle_ms now k.0 s.state.last_processed_at g k.1, k.2))
      ]
      | inr g ↦ elim (Option-cases s.state.flush_timer) [
        | inl t ↦
            rw (step, handle_location_message, g, t)
              (record {
                last = h.last;
                due = λ d e. timer_time throttle_ms now d s.state.last_processed_at g e;
                spaced = h.spaced;
              })
        | inr (d, t) ↦
            rw (step, handle_location_message, g, t)
              (record { last = h.last; due = h.due; spaced = h.spaced })
      ]
    ]
step-IsTimed throttle_ms s (timer now) o h = elim (Option-cases s.state.pending) [
  | inl p ↦
      rw (step, flush_pending, p)
        (record { last = h.last; due = λ d e. absurd (ground (arith, e)); spaced = h.spaced })
  | inr (u, p) ↦
      let k = h.due o.0 o.1 in
      rw (step, flush_pending, p)
        (record {
          last = refl;
          due = λ d e. absurd (ground (arith, e));
          spaced = (
            due-IsAfter throttle_ms now k.0 s.released (sym h.last ∙ k.1) (omega (arith, k.2, o.2)),
            h.spaced,
          );
        })
]

run-IsTimed :
    (throttle_ms : ℕ) (s : Stream) (es : List Event)
    → IsPrompt throttle_ms s es
    → IsTimed throttle_ms s
    → IsTimed throttle_ms (run throttle_ms s es)
unfolding run
run-IsTimed throttle_ms s [] p h = h
run-IsTimed throttle_ms s (e ∷ es) p h =
    run-IsTimed throttle_ms (step throttle_ms s e) es p.1 (step-IsTimed throttle_ms s e p.0 h)

-- If no message comes between the time of a timer and its firing, a driver's updates are released at least
-- the throttle's window apart.
pub run-IsSpaced :
    (throttle_ms : ℕ) (es : List Event)
    → IsPrompt throttle_ms fresh es
    → IsSpaced throttle_ms (run throttle_ms fresh es).released
unfolding fresh new_throttle
run-IsSpaced throttle_ms es p =
    let h : IsTimed throttle_ms fresh = record {
      last = refl;
      due = λ d e. absurd (ground (arith, e));
      spaced = tt;
    } in
    (run-IsTimed throttle_ms fresh es p h).spaced

-- After a first message and one within its window, on a new throttle, if a message comes when the window has
-- passed but its timer has not fired yet, it is released at once and the timer stays set for the old window's end, also when a further message comes within the new
-- window; that message is then released when the old timer fires, however soon that is, and no timer is left.
pub late_timer :
    (throttle_ms l m now next fires : ℕ) (t u v w : LocationUpdate)
    → m < l + throttle_ms
    → l + throttle_ms ≤ now
    → next < now + throttle_ms
    → (let third = run throttle_ms fresh (message l t ∷ message m u ∷ message now v ∷ []) in
        let fourth = step throttle_ms third (message next w) in
        let fired = step throttle_ms fourth (timer fires) in
        ((third.released ≡ (now, v) ∷ (l, t) ∷ [])
          × (third.state.flush_timer ≡ some (l + throttle_ms))
          × (fourth.state.flush_timer ≡ some (l + throttle_ms))
          × (fired.released ≡ (fires, w) ∷ (now, v) ∷ (l, t) ∷ [])
          × (fired.state.flush_timer ≡ none)))
unfolding fresh new_throttle run step handle_location_message flush_pending is_due timer_due
late_timer throttle_ms l m now next fires t u v w g h k = (
  ground (arith, g, h, k),
  ground (arith, g, h, k),
  ground (arith, g, h, k),
  ground (arith, g, h, k),
  ground (arith, g, h, k),
)
