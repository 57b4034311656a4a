-- ===== src/Common/Interval.antt =====
-- A module's `let timer`, set by setInterval and cleared by clearInterval, and the intervals that run.
use Prim.Native.Nat.{ℕ, ◌+◌}
use mathlib.Core.Path.{◌≡◌}
use mathlib.Core.Option.{Option, none, some}
use mathlib.Core.List.{List, [], ◌∷◌}
use native.Mathlib.Omega.{arith}
use ride_location_tracking_e.Common.Map
use ride_location_tracking_e.Common.Map.{Map}

-- A handle is a number; each interval that runs has its period.
pub record Interval : Type 0 where
  pub timer : Option ℕ
  pub running : Map ℕ
  pub next_handle : ℕ

abbrev pub no_interval : Interval
no_interval = record { timer = none; running = []; next_handle = 0 }

-- `if (timer) return; timer = setInterval(..., intervalMs)`
abbrev pub start_loop : Interval → ℕ → Interval
start_loop l interval_ms = elim l.timer [
  | some handle ↦ l
  | none ↦ record {
    timer = some l.next_handle;
    running = Map.set l.running l.next_handle interval_ms;
    next_handle = l.next_handle + 1;
  }
]

-- `if (timer) { clearInterval(timer); timer = undefined }`
abbrev pub stop_loop : Interval → Interval
stop_loop l = elim l.timer [
  | none ↦ l
  | some handle ↦ record l { timer = none; running = Map.delete l.running handle }
]

pub data Call : Type 0 where
  starts : ℕ → Call
  stops : Call

abbrev pub apply : Interval → Call → Interval
apply l (starts ms) = start_loop l ms
apply l stops = stop_loop l

unfoldable pub apply_all : Interval → List Call → Interval
apply_all l [] = l
apply_all l (c ∷ cs) = apply_all (apply l c) cs

-- The period that was asked for first since the last stop.
unfoldable pub period : Option ℕ → List Call → Option ℕ
period now [] = now
period none (starts ms ∷ cs) = period (some ms) cs
period (some ms) (starts later ∷ cs) = period (some ms) cs
period now (stops ∷ cs) = period none cs

-- Nothing runs without a handle, and with one, its interval alone.
abbrev pub IsSingle : Interval → Option ℕ → Type 0
IsSingle l none = (l.timer ≡ none) × (l.running ≡ [])
IsSingle l (some ms) = (handle : ℕ) × (l.timer ≡ some handle) × (l.running ≡ (handle, ms) ∷ [])

start_loop-IsSingle :
    (l : Interval) (ms : ℕ) → IsSingle l none → IsSingle (start_loop l ms) (some ms)
unfolding Map.set
start_loop-IsSingle l ms h = (l.next_handle, ground (arith, h.0), ground (arith, h.0, h.1))

start_again-IsSingle :
    (l : Interval) (ms later : ℕ) → IsSingle l (some ms) → IsSingle (start_loop l later) (some ms)
start_again-IsSingle l ms later (handle, timer, running) =
    (handle, ground (arith, timer), ground (arith, timer, running))

stop_loop-IsSingle : (l : Interval) (now : Option ℕ) → IsSingle l now → IsSingle (stop_loop l) none
unfolding Map.delete
stop_loop-IsSingle l none h = ground (arith, h.0, h.1)
stop_loop-IsSingle l (some ms) (handle, timer, running) = ground (arith, timer, running)

-- However often the loop is started and stopped, one interval runs at most: it runs with the period
-- that was asked for first since the last stop, and none if nothing was.
pub apply_all-IsSingle :
    (cs : List Call) (l : Interval) (now : Option ℕ)
    → IsSingle l now
    → IsSingle (apply_all l cs) (period now cs)
unfolding apply_all period
apply_all-IsSingle [] l now h = h
apply_all-IsSingle (starts ms ∷ cs) l none h =
    apply_all-IsSingle cs (start_loop l ms) (some ms) (start_loop-IsSingle l ms h)
apply_all-IsSingle (starts later ∷ cs) l (some ms) h =
    apply_all-IsSingle cs (start_loop l later) (some ms) (start_again-IsSingle l ms later h)
apply_all-IsSingle (stops ∷ cs) l none h =
    apply_all-IsSingle cs (stop_loop l) none (stop_loop-IsSingle l none h)
apply_all-IsSingle (stops ∷ cs) l (some ms) h =
    apply_all-IsSingle cs (stop_loop l) none (stop_loop-IsSingle l (some ms) h)
