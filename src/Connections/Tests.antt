-- ===== src/Connections/Tests.antt =====
-- The theorems on the drivers' sockets at short runs (core/src/ws/driver-connections.ts).
use ride_location_tracking_e.Common.{ℕ, ◌≡◌, refl, false, none, some, List, [], ◌∷◌, arith}
use ride_location_tracking_e.Common.Map
use ride_location_tracking_e.Common.Int.{pos}
use ride_location_tracking_e.Connections.{
  LocationUpdate, Sockets, new_throttle, handle_location_message, is_due, timer_due,
  replace_connection, register_heartbeat, unregister_heartbeat, run_heartbeat_sweep,
  handle_driver_connection,
}
use ride_location_tracking_e.Connections.Coalescing.{Event, message, timer, run, fresh, step}
use ride_location_tracking_e.Connections.Reconnects.{
  connect, closed, sweep, IsWatched, step_all, no_sockets, AllAllowed, swept, swept_marks,
  step_all-IsWatched, reconnected,
}
use ride_location_tracking_e.Connections.Spacing.{IsPrompt, late_timer}
use ride_location_tracking_e.Connections.Reconnects

abbrev at : ℕ → LocationUpdate
at n = record { position = record { lat = pos n; lng = pos 8 }; timestamp = n }

abbrev drive : List Event
drive = message 1000 (at 1) ∷ message 1500 (at 2) ∷ message 1700 (at 3) ∷ timer 2000 ∷ []

drive-IsPrompt : IsPrompt 1000 fresh drive
unfolding fresh new_throttle step handle_location_message is_due timer_due
drive-IsPrompt = (
  λ d e. ground (arith, e),
  (λ d e. ground (arith, e), (λ d e. ground (arith, e), ((2000, refl, omega arith), tt))),
)

late_timer_example :
    let third =
      run 1000 fresh (message 1000 (at 1) ∷ message 1500 (at 2) ∷ message 2001 (at 3) ∷ []) in
    let fourth = step 1000 third (message 2002 (at 4)) in
    let fired = step 1000 fourth (timer 2003) in
    ((third.released ≡ (2001, at 3) ∷ (1000, at 1) ∷ [])
      × (third.state.flush_timer ≡ some 2000)
      × (fourth.state.flush_timer ≡ some 2000)
      × (fired.released ≡ (2003, at 4) ∷ (2001, at 3) ∷ (1000, at 1) ∷ [])
      × (fired.state.flush_timer ≡ none))
late_timer_example =
    late_timer 1000 1000 1500 2001 2002 2003 (at 1) (at 2) (at 3) (at 4) (omega arith) (omega arith)
      (omega arith)

abbrev one_socket : Sockets
one_socket = record {
  connections = (5, 1) ∷ [];
  throttles = [];
  tracked = (1, false) ∷ [];
  ended = [];
}

abbrev day : List Reconnects.Event
day = connect 1 5 ∷ sweep ∷ connect 2 5 ∷ closed 1 5 ∷ []

day-AllAllowed : AllAllowed no_sockets day
unfolding Reconnects.step handle_driver_connection replace_connection register_heartbeat
    unregister_heartbeat run_heartbeat_sweep Map.get Map.set Map.delete
day-AllAllowed = (λ e. refl, (tt, (λ e. ground arith, (λ e h. ground (arith, h), tt))))

step_all-IsWatched_example : IsWatched (step_all no_sockets day)
step_all-IsWatched_example = step_all-IsWatched day day-AllAllowed
