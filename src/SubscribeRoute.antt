-- ===== src/SubscribeRoute.antt =====
-- core/src/routes/ws.ts, with the schema of core/src/ws/messages.ts that `/ws/subscribe` reads. A message is handled up to
-- the query that it awaits, the query answers at some later time, and the handler resumes later still: what other
-- requests do may come between. What `JSON.parse` and the schema's shape make of a frame is an argument.
mod Tests
pub mod Answers
pub mod Late
use ride_location_tracking_e.Common.{
  ℕ, Bool, true, false, not, ◌||◌, Option, none, some, List, [], ◌∷◌, ◌++◌, if◌then◌else◌, is_some,
}
use ride_location_tracking_e.Domain.{
  TripStatus, requested, matched, in_progress, completed, cancelled,
}
use ride_location_tracking_e.Database.{Db, Trip, Driver, find_trip_by_id, find_driver_by_id}
use ride_location_tracking_e.Subscriptions
use ride_location_tracking_e.Subscriptions.{Registry}
use ride_location_tracking_e.Connections.{Sockets, register_heartbeat, unregister_heartbeat}

pub data MessageType : Type 0 where
  subscribe unsubscribe : MessageType

pub record ClientSubscriptionMessage : Type 0 where
  pub kind : MessageType
  pub driver_id : Option ℕ
  pub trip_id : Option ℕ

-- The `refine` of the schema: a 'subscribe' has exactly one of the two ids.
unfoldable pub is_valid : ClientSubscriptionMessage → Bool
is_valid m = elim m.kind [
  | unsubscribe ↦ true
  | subscribe ↦ if is_some m.driver_id then not (is_some m.trip_id) else is_some m.trip_id
]

pub data Frame : Type 0 where
  not_json not_message : Frame
  message : ClientSubscriptionMessage → Frame

pub data Reply : Type 0 where
  connected malformed_json invalid client_requested : Reply
  driver_not_found trip_not_found already_ended subscribed_to_driver : ℕ → Reply
  subscribed_to_trip : ℕ → Option ℕ → Reply

pub record Route : Type 0 where
  pub sockets : Sockets
  pub registry : Registry
  pub replies : List (ℕ × Reply)

-- Where the handler of a message is: over, in a query, or with the row that the query answered.
pub data Waiting : Type 0 where
  finished : Waiting
  asks_driver asks_trip : ℕ → Waiting
  has_driver : ℕ → Option Driver → Waiting
  has_trip : ℕ → Option Trip → Waiting

abbrev pub has_ended : TripStatus → Bool
has_ended requested = false
has_ended matched = false
has_ended in_progress = false
has_ended completed = true
has_ended cancelled = true

-- The queries, on the rows of their time.
unfoldable pub answer : Db → Waiting → Waiting
answer db finished = finished
answer db (asks_driver d) = has_driver d (find_driver_by_id db d)
answer db (asks_trip t) = has_trip t (find_trip_by_id db t)
answer db (has_driver d row) = has_driver d row
answer db (has_trip t row) = has_trip t row

module _ (is_open : ℕ → Bool) where
  -- `sendJson`
  unfoldable pub reply : Route → ℕ → Reply → Route
  reply r socket a =
      if is_open socket then record r { replies = r.replies ++ (socket, a) ∷ [] } else r

  unfoldable pub on_subscriber : Route → ℕ → Route
  on_subscriber r socket =
      reply (record r { sockets = register_heartbeat r.sockets socket }) socket connected

  unfoldable pub on_subscriber_close : Route → ℕ → Route
  on_subscriber_close r socket = record r {
    sockets = unregister_heartbeat r.sockets socket;
    registry = Subscriptions.handle_subscriber_disconnect r.registry socket;
  }

  -- The id that a valid 'subscribe' does not have is never asked for.
  unfoldable pub handle_subscription_message :
      Route → ℕ → ClientSubscriptionMessage → Route × Waiting
  handle_subscription_message r socket m = elim m.kind [
    | unsubscribe ↦ (
      reply (record r { registry = (Subscriptions.unsubscribe r.registry socket).0 }) socket
          client_requested,
      finished,
    )
    | subscribe ↦ elim m.driver_id [
      | some d ↦ (r, asks_driver d)
      | none ↦ elim m.trip_id [ none ↦ (r, finished) | some t ↦ (r, asks_trip t) ]
    ]
  ]

  unfoldable pub on_frame : Route → ℕ → Frame → Route × Waiting
  on_frame r socket not_json = (reply r socket malformed_json, finished)
  on_frame r socket not_message = (reply r socket invalid, finished)
  on_frame r socket (message m) =
      if is_valid m
      then handle_subscription_message r socket m
      else (reply r socket invalid, finished)

  -- From the awaited row on.
  unfoldable pub resume : Route → ℕ → Waiting → Route
  resume r socket finished = r
  resume r socket (asks_driver d) = r
  resume r socket (asks_trip t) = r
  resume r socket (has_driver d none) = reply r socket (driver_not_found d)
  resume r socket (has_driver d (some row)) =
      reply (record r { registry = Subscriptions.subscribe_to_driver r.registry socket d }) socket
        (subscribed_to_driver d)
  resume r socket (has_trip t none) = reply r socket (trip_not_found t)
  resume r socket (has_trip t (some row)) =
      if has_ended row.status
      then reply r socket (already_ended t)
      else reply
          (record r {
            registry = Subscriptions.subscribe_to_trip r.registry socket t row.driver_id;
          })
          socket (subscribed_to_trip t row.driver_id)

-- The upgrade of `/ws/driver`, for the id of the query, if it is one.
pub data Upgrade : Type 0 where
  bad_request no_such_driver upgraded : Upgrade

unfoldable pub pre_validation : Db → Option ℕ → Upgrade
pre_validation db none = bad_request
pre_validation db (some d) = if is_some (find_driver_by_id db d) then upgraded else no_such_driver
