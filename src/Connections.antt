-- ===== src/Connections.antt =====
-- The drivers' sockets: core/src/ws/driver-connections.ts (here the per-driver throttle and the registry),
-- core/src/ws/heartbeat.ts and core/src/ws/trip-offers.ts. A socket is a number; the messages' texts are
-- taken as parsed and validated.
mod Tests
pub mod Coalescing
pub mod Spacing
pub mod Reconnects
use ride_location_tracking_e.Common.{
  ℕ, ◌+◌, ◌-◌, ◌≡◌, Bool, true, false, ◌&&◌, Option, none, some, List, [], ◌∷◌, ◌++◌, leb,
  if◌then◌else◌, opt_is, ◌==◌, for_each,
}
use ride_location_tracking_e.Common.Interval
use ride_location_tracking_e.Common.Interval.{Interval}
use ride_location_tracking_e.Common.Map
use ride_location_tracking_e.Common.Map.{Map}
use ride_location_tracking_e.Domain.{LatLng}

pub record LocationUpdate : Type 0 where
  pub position : LatLng
  pub timestamp : ℕ

-- `flush_timer` holds the time at which the timer is due.
pub record ThrottleState : Type 0 where
  pub last_processed_at : Option ℕ
  pub pending : Option LocationUpdate
  pub flush_timer : Option ℕ

unfoldable pub new_throttle : ThrottleState
new_throttle = record { last_processed_at = none; pending = none; flush_timer = none }

-- `now - lastProcessedAt >= throttleMs`, with `Infinity` where nothing was processed yet.
unfoldable pub is_due : ℕ → ℕ → Option ℕ → Bool
is_due throttle_ms now none = true
is_due throttle_ms now (some last) = leb (last + throttle_ms) now

-- The time after the delay: `now + (throttleMs - (now - lastProcessedAt))`.
unfoldable pub timer_due : ℕ → ℕ → Option ℕ → ℕ
timer_due throttle_ms now none = now
timer_due throttle_ms now (some last) = last + throttle_ms

-- The state after a message, and the update that is enqueued for the batch, if any.
unfoldable pub handle_location_message :
    ℕ → ℕ → ThrottleState → LocationUpdate → ThrottleState × Option LocationUpdate
handle_location_message throttle_ms now state update =
    if is_due throttle_ms now state.last_processed_at
    then (record state { last_processed_at = some now; pending = none }, some update)
    else elim state.flush_timer [
      | some due ↦ (record state { pending = some update }, none)
      | none ↦ (
        record state {
          pending = some update;
          flush_timer = some (timer_due throttle_ms now state.last_processed_at);
        },
        none,
      )
    ]

-- The timer's callback.
unfoldable pub flush_pending : ℕ → ThrottleState → ThrottleState × Option LocationUpdate
flush_pending now state = elim state.pending [
  | none ↦ (record state { flush_timer = none }, none)
  | some to_process ↦
      (record { last_processed_at = some now; pending = none; flush_timer = none }, some to_process)
]

unfoldable pub clear_throttle_timer : ThrottleState → ThrottleState
clear_throttle_timer state = record state { flush_timer = none }

-- The registry, the throttle of every socket's handler, the heartbeat's marks, and the sockets that the
-- service closed or terminated, the last first.
pub record Sockets : Type 0 where
  pub connections : Map ℕ
  pub throttles : Map ThrottleState
  pub tracked : Map Bool
  pub ended : List ℕ

-- The throttle of a socket, changed in place.
unfoldable pub clear_timer_of : Map ThrottleState → ℕ → Map ThrottleState
clear_timer_of throttles socket = elim (Map.get throttles socket) [
  | none ↦ throttles
  | some t ↦ Map.set throttles socket (clear_throttle_timer t)
]

-- core/src/ws/heartbeat.ts
unfoldable pub register_heartbeat : Sockets → ℕ → Sockets
register_heartbeat s socket = record s { tracked = Map.set s.tracked socket true }

unfoldable pub unregister_heartbeat : Sockets → ℕ → Sockets
unregister_heartbeat s socket = record s { tracked = Map.delete s.tracked socket }

unfoldable pub on_pong : Sockets → ℕ → Sockets
on_pong s socket = elim (Map.get s.tracked socket) [
  | none ↦ s
  | some alive ↦ record s { tracked = Map.set s.tracked socket true }
]

-- The loop over the entries, in their order: the marks it leaves, and the sockets it terminates.
unfoldable pub sweep_marks : Map Bool → Map Bool
sweep_marks [] = []
sweep_marks ((socket, alive) ∷ rest) =
    let swept = sweep_marks rest in if alive then (socket, false) ∷ swept else swept

unfoldable pub sweep_dead : Map Bool → List ℕ
sweep_dead [] = []
sweep_dead ((socket, alive) ∷ rest) =
    let dead = sweep_dead rest in if alive then dead else socket ∷ dead

unfoldable pub run_heartbeat_sweep : Sockets → Sockets
run_heartbeat_sweep s = record s {
  tracked = sweep_marks s.tracked;
  ended = sweep_dead s.tracked ++ s.ended;
}

-- core/src/ws/driver-connections.ts
unfoldable pub replace_connection : Sockets → ℕ → Sockets
replace_connection s driver_id = elim (Map.get s.connections driver_id) [
  | none ↦ s
  | some old ↦
      record (unregister_heartbeat (record s { throttles = clear_timer_of s.throttles old }) old) {
        ended = old ∷ s.ended;
      }
]

unfoldable pub handle_driver_connection : Sockets → ℕ → ℕ → Sockets
handle_driver_connection s socket driver_id =
    let r = replace_connection s driver_id in
    register_heartbeat
      (record r {
        connections = Map.set r.connections driver_id socket;
        throttles = Map.set r.throttles socket new_throttle;
      })
      socket

-- The 'close' event of a driver's socket.
unfoldable pub on_close : Sockets → ℕ → ℕ → Sockets
on_close s socket driver_id =
    let r =
      unregister_heartbeat (record s { throttles = clear_timer_of s.throttles socket }) socket in
    if opt_is (Map.get s.connections driver_id) socket
    then record r { connections = Map.delete s.connections driver_id }
    else r

unfoldable pub has_driver_connection : Sockets → ℕ → Bool
has_driver_connection s driver_id = Map.has s.connections driver_id

unfoldable pub get_driver_connection_count : Sockets → ℕ
get_driver_connection_count s = Map.size s.connections

-- The socket that `sendToDriver` sends to, if it is registered and open.
unfoldable pub send_target : Sockets → (ℕ → Bool) → ℕ → Option ℕ
send_target s is_open driver_id = elim (Map.get s.connections driver_id) [
  | none ↦ none
  | some socket ↦ if is_open socket then some socket else none
]

unfoldable pub close_one : Sockets → ℕ × ℕ → Sockets
close_one s (driver_id, socket) =
    record (unregister_heartbeat (record s { throttles = clear_timer_of s.throttles socket })
      socket) { ended = socket ∷ s.ended }

unfoldable pub close_all_driver_connections : Sockets → Sockets
close_all_driver_connections s = record (for_each s.connections close_one s) { connections = [] }

-- The loop that starts the sweeps.
abbrev pub start_heartbeat_loop : Interval → ℕ → Interval
start_heartbeat_loop = Interval.start_loop

abbrev pub stop_heartbeat_loop : Interval → Interval
stop_heartbeat_loop = Interval.stop_loop
