-- ===== src/Sockets/Lifecycle.antt =====
-- What holds of a subscriber's socket between two events (frontend/src/ws/reconnectingSocket.ts).
pub mod Sends
pub mod Losses
pub mod Timers
pub mod Openings
use ride_location_tracking_e.Common.{
  ℕ, ◌*◌, ◌≤◌, ◌≡◌, refl, sym, subst, ◌∙◌, Bool, true, false, not, ◌&&◌, Option, none, some, List,
  [], ◌∷◌, ◌++◌, if◌then◌else◌, min, opt_is, or_default, is_some, arith, Bool-cases, Option-cases,
  inl, inr,
}
use ride_location_tracking_e.Common.Map
use ride_location_tracking_e.Common.Map.{Map, get-set, get-delete, get-empty}
use ride_location_tracking_e.Sockets.{
  ReconnectingSocket, ReadyState, ready_connecting, ready_open, ready_closed, ClientMessage,
  subscribe_driver, subscribe_trip, unsubscribe, SubscriberSocket, new_socket, is_open,
  is_connecting, may_go, closing, open_socket, connect, schedule_reconnect, on_timer,
  on_socket_open, on_socket_close, send, close, close_ready, clear_timer, opened, dropped, fired,
  resend, notify, connected,
}

-- What the server has been asked for on a connection: the last subscription that was not ended.
abbrev pub ask : Option ClientMessage → ClientMessage → Option ClientMessage
ask now unsubscribe = none
ask now (subscribe_driver d) = some (subscribe_driver d)
ask now (subscribe_trip t) = some (subscribe_trip t)
ask now _ = now

abbrev pub asked : Option ClientMessage → List ClientMessage → Option ClientMessage
asked now [] = now
asked now (m ∷ ms) = asked (ask now m) ms

pub asked-append :
    (ms : List ClientMessage) (now : Option ClientMessage) (m : ClientMessage)
    → asked now (ms ++ m ∷ []) ≡ ask (asked now ms) m
asked-append [] now m = refl
asked-append (x ∷ ms) now m = asked-append ms (ask now x) m

abbrev pub asked_on : ReconnectingSocket → ℕ → Option ClientMessage
asked_on b j = asked none (or_default (Map.get b.sent j) [])

-- The `readyState` of the current socket.
abbrev pub current_ready : ReconnectingSocket → Option ReadyState
current_ready b = elim b.socket as (λ _. Option ReadyState) [
  | none ↦ none
  | some j ↦ Map.get b.ready j
]

abbrev pub is_live : Option ReadyState → Bool
is_live (some ready_connecting) = true
is_live (some ready_open) = true
is_live _ = false

abbrev pub is_down : Option ReadyState → Bool
is_down (some ready_closed) = true
is_down _ = false

-- A message that decides by itself what is wanted.
abbrev pub Decides : ClientMessage → Option ClientMessage → Type 0
Decides m wanted = (now : Option ClientMessage) → ask now m ≡ wanted

pub wanted-Decides :
    (m : ClientMessage) (wanted : Option ClientMessage)
    → Decides m wanted
    → (m' : ClientMessage) → wanted ≡ some m'
    → Decides m' (some m')
wanted-Decides unsubscribe wanted h m' e now = absurd (ground (arith, h none, e))
wanted-Decides (subscribe_driver d) wanted h m' e now = ground (arith, h none, e)
wanted-Decides (subscribe_trip t) wanted h m' e now = ground (arith, h none, e)
wanted-Decides (ClientMessage.location lat lng t) wanted h m' e now =
    absurd (ground (arith, h none, e))
wanted-Decides (ClientMessage.trip_response t a) wanted h m' e now =
    absurd (ground (arith, h none, e))

pub record IsLive (s : SubscriberSocket) : Type 0 where
  -- The object has a socket unless the caller closed it; the socket lives, or has gone.
  pub wanted : is_some s.base.socket ≡ not s.base.closed_by_caller
  pub alive_or_gone :
      (j : ℕ)
      → s.base.socket ≡ some j
      → is_live (Map.get s.base.ready j) ≡ not (is_down (Map.get s.base.ready j))
  -- No other socket lives.
  pub no_other : (j : ℕ) → opt_is s.base.socket j ≡ false → is_live (Map.get s.base.ready j) ≡ false
  -- Exactly one timer runs if the current socket has gone, and none otherwise.
  pub timers :
      (t : ℕ)
      → Map.get s.base.timers t ≡ (
          if is_down (current_ready s.base) && opt_is s.base.reconnect_timer t
          then some s.base.backoff_ms
          else none)
  pub timer_set : is_down (current_ready s.base) ≡ true → is_some s.base.reconnect_timer ≡ true
  -- On an open socket the server was last asked for what the subscriber wants; on one that connects, for nothing.
  pub asked_for :
      (j : ℕ)
      → s.base.socket ≡ some j
      → is_live (Map.get s.base.ready j) ≡ true
      → asked_on s.base j ≡ (if is_open (Map.get s.base.ready j) then s.subscribe_message else none)
  -- What is remembered is a subscription.
  pub remembered : (m : ClientMessage) → s.subscribe_message ≡ some m → Decides m (some m)
  pub fresh : (j : ℕ) → s.base.next_socket ≤ j → Map.get s.base.ready j ≡ none
  pub capped : (500 ≤ s.base.backoff_ms) × (s.base.backoff_ms ≤ 10000)

unfoldable pub connected_new : SubscriberSocket
unfolding connect open_socket new_socket
connected_new = record { base = connect new_socket; subscribe_message = none }

-- A new socket takes the place of one that does not live.
module _ (b : ReconnectingSocket) (m : Option ClientMessage) (again : Bool) where
  abbrev replaced : SubscriberSocket
  replaced = record { base = open_socket b again; subscribe_message = m }

  pub open-IsLive :
      b.closed_by_caller ≡ false
      → ((j : ℕ) → is_live (Map.get b.ready j) ≡ false)
      → ((t : ℕ) → Map.get b.timers t ≡ none)
      → ((j : ℕ) → b.next_socket ≤ j → Map.get b.ready j ≡ none)
      → (500 ≤ b.backoff_ms) × (b.backoff_ms ≤ 10000)
      → ((m' : ClientMessage) → m ≡ some m' → Decides m' (some m'))
      → IsLive replaced
  unfolding open_socket
  open-IsLive wanted none_lives no_timer fresh capped remembered = record {
    wanted = ground (arith, wanted);
    alive_or_gone = λ j e. ground (arith, e, get-set b.ready b.next_socket j ready_connecting);
    no_other =
        λ j e. ground (arith, e, none_lives j, get-set b.ready b.next_socket j ready_connecting);
    timers = λ t.
        ground (arith, no_timer t, get-set b.ready b.next_socket b.next_socket ready_connecting);
    timer_set = ground (arith, get-set b.ready b.next_socket b.next_socket ready_connecting);
    asked_for = λ j e l. ground (
      arith,
      e,
      get-set b.ready b.next_socket j ready_connecting,
      get-set b.sent b.next_socket j [],
    );
    fresh = λ j h. ground (arith, h, fresh j, get-set b.ready b.next_socket j ready_connecting);
    remembered = remembered;
    capped = capped;
  }

pub connected_new-IsLive : IsLive connected_new
unfolding connected_new connect new_socket
connected_new-IsLive =
    open-IsLive (record new_socket { closed_by_caller = false }) none false refl
      (λ j. ground (arith, get-empty {V = ReadyState} j)) (λ t. get-empty t) (λ j h. get-empty j)
      (omega arith) (λ m e. cc)
