-- ===== src/SubscribeRoute/Answers.antt =====
-- What a subscriber's message does when nothing comes between (core/src/routes/ws.ts).
use ride_location_tracking_e.Common.{
  ℕ, ◌≡◌, refl, Bool, Option, none, some, [], ◌∷◌, ◌++◌, arith, ◌==◌, if◌then◌else◌, Bool-cases,
  inl, inr,
}
use ride_location_tracking_e.Database.{Db, Trip, Driver, find_trip_by_id, find_driver_by_id}
use ride_location_tracking_e.Subscriptions.{
  Registry, subscribe_to_driver as follow_driver, subscribe_to_trip as follow_trip,
  unsubscribe as end_socket,
}
use ride_location_tracking_e.Subscriptions.Invariant.{
  Inv, subscribe_to_driver-Inv, subscribe_to_trip-Inv, unsubscribe-Inv,
}
use ride_location_tracking_e.Subscriptions.Follows.{
  follows, follows-subscribe_to_driver, follows-subscribe_to_trip, follows-unsubscribe,
}
use ride_location_tracking_e.SubscribeRoute.{
  has_driver, has_trip, MessageType, subscribe, unsubscribe, Route, Reply, Frame, is_valid, answer,
  resume, reply, handle_subscription_message, on_frame, message, not_json, not_message,
  malformed_json, invalid, client_requested, driver_not_found, trip_not_found, already_ended,
  subscribed_to_driver, subscribed_to_trip, has_ended,
}

-- A driver and a trip that a socket follows.
abbrev pub Followed : Type 0
Followed = Option (Option ℕ × Option ℕ)

-- What the socket follows from then on, unless that stays, and what it is told.
abbrev pub Answer : Type 0
Answer = Option Followed × Reply

abbrev pub of_driver : ℕ → Option Driver → Answer
of_driver d none = (none, driver_not_found d)
of_driver d (some row) = (some (some (some d, none)), subscribed_to_driver d)

abbrev pub of_trip : ℕ → Option Trip → Answer
of_trip t none = (none, trip_not_found t)
of_trip t (some row) =
    if has_ended row.status
    then (none, already_ended t)
    else (some (some (row.driver_id, some t)), subscribed_to_trip t row.driver_id)

-- Exactly one of two ids.
abbrev pub of_ids : Db → Option ℕ → Option ℕ → Answer
of_ids db none none = (none, invalid)
of_ids db (some d) none = of_driver d (find_driver_by_id db d)
of_ids db none (some t) = of_trip t (find_trip_by_id db t)
of_ids db (some d) (some t) = (none, invalid)

abbrev pub of_kind : Db → MessageType → Option ℕ → Option ℕ → Answer
of_kind db subscribe driver trip = of_ids db driver trip
of_kind db unsubscribe driver trip = (some none, client_requested)

abbrev pub expected : Db → Frame → Answer
expected db not_json = (none, malformed_json)
expected db not_message = (none, invalid)
expected db (message m) = of_kind db m.kind m.driver_id m.trip_id

abbrev pub or_old : Option Followed → Followed → Followed
or_old none old = old
or_old (some new) old = new

module _ (is_open : ℕ → Bool) where
  -- The socket follows what it is to follow, the others what they did, and it has its answer.
  pub record IsAnswered (r : Route) (socket : ℕ) (a : Answer) (after : Route) : Type 0 where
    pub valid : Inv after.registry
    pub followed :
        (q : ℕ)
        → follows after.registry q
          ≡ (if socket == q then or_old a.0 (follows r.registry q) else follows r.registry q)
    pub told :
        after.replies ≡ (if is_open socket then r.replies ++ (socket, a.1) ∷ [] else r.replies)

  reply-IsAnswered :
      (r : Route) (socket : ℕ) (reg : Registry) (change : Option Followed) (a : Reply)
      → Inv reg
      → ((q : ℕ)
          → follows reg q
            ≡ (if socket == q then or_old change (follows r.registry q) else follows r.registry q))
      → IsAnswered r socket (change, a) (reply is_open (record r { registry = reg }) socket a)
  unfolding reply
  reply-IsAnswered r socket reg change a v f = elim (Bool-cases (is_open socket)) [
    | inl o ↦ rw (o, reply) (record { valid = v; followed = f; told = rw o refl })
    | inr o ↦ rw (o, reply) (record { valid = v; followed = f; told = rw o refl })
  ]

  -- An answer that changes nothing.
  refused :
      (r : Route) (socket : ℕ) (a : Reply)
      → Inv r.registry
      → IsAnswered r socket (none, a) (reply is_open r socket a)
  refused r socket a v = reply-IsAnswered r socket r.registry none a v (λ q. ground arith)

  driver-IsAnswered :
      (r : Route) (socket d : ℕ) (row : Option Driver)
      → Inv r.registry
      → IsAnswered r socket (of_driver d row) (resume is_open r socket (has_driver d row))
  unfolding resume
  driver-IsAnswered r socket d none v = refused r socket (driver_not_found d) v
  driver-IsAnswered r socket d (some row) v =
      reply-IsAnswered r socket (follow_driver r.registry socket d) (some (some (some d, none)))
        (subscribed_to_driver d) (subscribe_to_driver-Inv r.registry socket d v)
        (λ q. follows-subscribe_to_driver r.registry socket q d v)

  pub trip-IsAnswered :
      (r : Route) (socket t : ℕ) (row : Option Trip)
      → Inv r.registry
      → IsAnswered r socket (of_trip t row) (resume is_open r socket (has_trip t row))
  unfolding resume
  trip-IsAnswered r socket t none v = refused r socket (trip_not_found t) v
  trip-IsAnswered r socket t (some row) v = elim (Bool-cases (has_ended row.status)) [
    | inl o ↦ rw (o, resume) (refused r socket (already_ended t) v)
    | inr o ↦
        rw (o, resume)
          (reply-IsAnswered r socket (follow_trip r.registry socket t row.driver_id)
            (some (some (row.driver_id, some t))) (subscribed_to_trip t row.driver_id)
            (subscribe_to_trip-Inv r.registry socket t row.driver_id v)
            (λ q. follows-subscribe_to_trip r.registry socket q t row.driver_id v))
  ]

  -- A frame handled with nothing in between.
  abbrev pub handled : Route → ℕ → Frame → Db → Route
  handled r socket f db =
      let begun = on_frame is_open r socket f in resume is_open begun.0 socket (answer db begun.1)

  kinds-IsAnswered :
      (r : Route) (socket : ℕ) (db : Db) (kind : MessageType) (driver trip : Option ℕ)
      → Inv r.registry
      → IsAnswered r socket (of_kind db kind driver trip) (
          handled r socket
            (message (record { kind = kind; driver_id = driver; trip_id = trip }))
            db)
  unfolding on_frame is_valid handle_subscription_message answer resume
  kinds-IsAnswered r socket db unsubscribe driver trip v =
      reply-IsAnswered r socket (end_socket r.registry socket).0 (some none) client_requested
        (unsubscribe-Inv r.registry socket v) (λ q. follows-unsubscribe r.registry socket q v)
  kinds-IsAnswered r socket db subscribe none none v = refused r socket invalid v
  kinds-IsAnswered r socket db subscribe (some d) none v =
      driver-IsAnswered r socket d (find_driver_by_id db d) v
  kinds-IsAnswered r socket db subscribe none (some t) v =
      trip-IsAnswered r socket t (find_trip_by_id db t) v
  kinds-IsAnswered r socket db subscribe (some d) (some t) v = refused r socket invalid v

  -- With nothing in between, a frame makes its socket follow what it asks for, where that exists and has not ended,
  -- or nothing, where it asks for that; otherwise the socket follows what it did. No other socket is touched, and
  -- the socket, if it is open, gets the one answer that says so. The registry keeps its invariant, and must have it.
  pub frame-IsAnswered :
      (r : Route) (socket : ℕ) (f : Frame) (db : Db)
      → Inv r.registry
      → IsAnswered r socket (expected db f) (handled r socket f db)
  unfolding on_frame resume answer
  frame-IsAnswered r socket not_json db v = refused r socket malformed_json v
  frame-IsAnswered r socket not_message db v = refused r socket invalid v
  frame-IsAnswered r socket (message m) db v =
      kinds-IsAnswered r socket db m.kind m.driver_id m.trip_id v
