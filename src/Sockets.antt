-- ===== src/Sockets.antt =====
-- frontend/src/ws/reconnectingSocket.ts, subscriberSocket.ts and driverSocket.ts. The record holds the fields of the
-- object and what the browser keeps for it: the sockets it made with their `readyState`, the messages sent on each, and
-- the timers that run, with their delays. The listeners run on browser events: a socket opens or goes, a timer fires.
-- `onOpen`, which each class overrides, is an argument. What comes in is handed on unread and is not modelled.
mod Tests
pub mod Lifecycle
pub mod Liveness
pub mod Retries
pub mod Recovery
use ride_location_tracking_e.Common.{
  ℕ, ◌+◌, ◌*◌, Bool, true, false, Option, none, some, List, [], ◌∷◌, ◌++◌, ◌==◌, if◌then◌else◌, min,
  opt_is, or_default, is_some,
}
use ride_location_tracking_e.Common.Int.{ℤ}
use ride_location_tracking_e.Common.Map
use ride_location_tracking_e.Common.Map.{Map}

pub data SocketConnectionState : Type 0 where
  connecting connected reconnecting closed : SocketConnectionState

-- `readyState`
pub data ReadyState : Type 0 where
  ready_connecting ready_open ready_closing ready_closed : ReadyState

pub data ClientMessage : Type 0 where
  subscribe_driver subscribe_trip : ℕ → ClientMessage
  unsubscribe : ClientMessage
  location : ℤ → ℤ → ℕ → ClientMessage
  trip_response : ℕ → Bool → ClientMessage

abbrev pub initial_backoff_ms : ℕ
initial_backoff_ms = 500

abbrev pub backoff_multiplier : ℕ
backoff_multiplier = 2

abbrev pub max_backoff_ms : ℕ
max_backoff_ms = 10000

pub record ReconnectingSocket : Type 0 where
  pub socket : Option ℕ
  pub closed_by_caller : Bool
  pub backoff_ms : ℕ
  pub reconnect_timer : Option ℕ
  pub ready : Map ReadyState
  pub next_socket : ℕ
  pub sent : Map (List ClientMessage)
  pub timers : Map ℕ
  pub next_timer : ℕ
  pub states : List SocketConnectionState

pub new_socket : ReconnectingSocket
new_socket = record {
  socket = none;
  closed_by_caller = false;
  backoff_ms = initial_backoff_ms;
  reconnect_timer = none;
  ready = [];
  next_socket = 0;
  sent = [];
  timers = [];
  next_timer = 0;
  states = [];
}

-- `this.handlers.onStateChange?.(state)`
abbrev pub notify : ReconnectingSocket → SocketConnectionState → ReconnectingSocket
notify s state = record s { states = s.states ++ state ∷ [] }

abbrev pub is_open : Option ReadyState → Bool
is_open (some ready_open) = true
is_open _ = false

pub open_socket : ReconnectingSocket → Bool → ReconnectingSocket
open_socket s is_reconnect = record (notify s (if is_reconnect then reconnecting else connecting)) {
  socket = some s.next_socket;
  ready = Map.set s.ready s.next_socket ready_connecting;
  sent = Map.set s.sent s.next_socket [];
  next_socket = s.next_socket + 1;
}

pub connect : ReconnectingSocket → ReconnectingSocket
connect s = open_socket (record s { closed_by_caller = false }) false

pub schedule_reconnect : ReconnectingSocket → ReconnectingSocket
schedule_reconnect s = record (notify s reconnecting) {
  reconnect_timer = some s.next_timer;
  timers = Map.set s.timers s.next_timer s.backoff_ms;
  next_timer = s.next_timer + 1;
}

-- The timer's callback, once it has fired.
pub on_timer : ReconnectingSocket → ReconnectingSocket
on_timer s =
    open_socket (record s { backoff_ms = min (s.backoff_ms * backoff_multiplier) max_backoff_ms })
      true

-- The listeners of 'open' and of 'close'.
pub on_socket_open :
    (ReconnectingSocket → ReconnectingSocket) → ReconnectingSocket → ReconnectingSocket
on_socket_open on_open s = on_open (notify (record s { backoff_ms = initial_backoff_ms }) connected)

pub on_socket_close : ReconnectingSocket → ℕ → ReconnectingSocket
on_socket_close s id =
    if opt_is s.socket id then (if s.closed_by_caller then s else schedule_reconnect s) else s

pub send : ReconnectingSocket → ClientMessage → ReconnectingSocket × Bool
send s m = elim s.socket [
  | none ↦ (s, false)
  | some id ↦
      if is_open (Map.get s.ready id)
      then (
        record s { sent = Map.set s.sent id (or_default (Map.get s.sent id) [] ++ m ∷ []) },
        true,
      )
      else (s, false)
]

-- `socket.close()`: one that is closed stays so.
abbrev pub closing : Option ReadyState → ReadyState
closing (some ready_closed) = ready_closed
closing _ = ready_closing

pub close_ready : Map ReadyState → Option ℕ → Map ReadyState
close_ready ready none = ready
close_ready ready (some id) = Map.set ready id (closing (Map.get ready id))

pub clear_timer : Map ℕ → Option ℕ → Map ℕ
clear_timer timers none = timers
clear_timer timers (some t) = Map.delete timers t

pub close : ReconnectingSocket → ReconnectingSocket
close s = record (notify s closed) {
  closed_by_caller = true;
  timers = clear_timer s.timers s.reconnect_timer;
  reconnect_timer = none;
  ready = close_ready s.ready s.socket;
  socket = none;
}

-- The browser: a socket that is connecting opens, one that is not closed goes, a running timer fires.
abbrev pub is_connecting : Option ReadyState → Bool
is_connecting (some ready_connecting) = true
is_connecting _ = false

abbrev pub may_go : Option ReadyState → Bool
may_go none = false
may_go (some ready_closed) = false
may_go (some _) = true

pub opened : (ReconnectingSocket → ReconnectingSocket) → ReconnectingSocket → ℕ → ReconnectingSocket
opened on_open s id =
    if is_connecting (Map.get s.ready id)
    then on_socket_open on_open (record s { ready = Map.set s.ready id ready_open })
    else s

pub dropped : ReconnectingSocket → ℕ → ReconnectingSocket
dropped s id =
    if may_go (Map.get s.ready id)
    then on_socket_close (record s { ready = Map.set s.ready id ready_closed }) id
    else s

pub fired : ReconnectingSocket → ℕ → ReconnectingSocket
fired s t =
    if is_some (Map.get s.timers t)
    then on_timer (record s { timers = Map.delete s.timers t })
    else s

-- frontend/src/ws/subscriberSocket.ts

pub record SubscriberSocket : Type 0 where
  pub base : ReconnectingSocket
  pub subscribe_message : Option ClientMessage

-- `onOpen`: the remembered message is sent again.
pub resend : Option ClientMessage → ReconnectingSocket → ReconnectingSocket
resend none s = s
resend (some m) s = (send s m).0

pub set_subscription : SubscriberSocket → ClientMessage → SubscriberSocket
set_subscription s m = record { base = (send s.base m).0; subscribe_message = some m }

pub subscribe_to_driver : SubscriberSocket → ℕ → SubscriberSocket
subscribe_to_driver s d = set_subscription s (subscribe_driver d)

pub subscribe_to_trip : SubscriberSocket → ℕ → SubscriberSocket
subscribe_to_trip s t = set_subscription s (subscribe_trip t)

pub end_subscription : SubscriberSocket → SubscriberSocket
end_subscription s = record { base = (send s.base unsubscribe).0; subscribe_message = none }

-- frontend/src/ws/driverSocket.ts: its `onOpen` is the empty one. Time is an argument.

pub send_location : ReconnectingSocket → ℤ → ℤ → ℕ → ReconnectingSocket
send_location s lat lng now = (send s (location lat lng now)).0

pub send_trip_response : ReconnectingSocket → ℕ → Bool → ReconnectingSocket
send_trip_response s trip accept = (send s (trip_response trip accept)).0
