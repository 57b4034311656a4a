-- ===== src/TripTracking/Followed.antt =====
-- A rider's subscription from its start: the registry's calls (core/src/ws/subscriptions.ts), the messages that it
-- sends to the rider's socket, and the screen that reads them (frontend/src/hooks/tripTrackingReducer.ts).
pub mod Through
pub mod Riders
pub mod Waiting
pub mod Flushed
pub mod Driven
use ride_location_tracking_e.Common.{
  append-nil, append_assoc, ℕ, ◌<◌, ◌≡◌, refl, ◌∙◌, Bool, true, false, Option, none, some, List, [],
  ◌∷◌, ◌++◌, arith, length, ap, sym, subst, ◌==◌, if◌then◌else◌, Bool-cases, inl, inr, All,
}
use ride_location_tracking_e.Common.Map
use ride_location_tracking_e.Domain.{LatLng}
use ride_location_tracking_e.Delta.{
  LastKnownState, EncodeMeta, encode_location_message, sent_state, Ends, fresh_ends, deliver,
  deliver_all,
}
use ride_location_tracking_e.Delta.Stream.{Tracks}
use ride_location_tracking_e.Subscriptions.{
  Registry, SubscriberInfo, OutMessage, location_update, RawDriverLocationUpdate, init,
  subscribe_to_trip, replace_existing, trip_matched as sent_match, unsubscribed as sent_end,
  trip_completed as by_completion, trip_cancelled as by_cancellation,
}
use ride_location_tracking_e.Subscriptions.Calls.{
  Call, subscribe_driver, subscribe_trip, disconnect, matched, ended, broadcast as broadcast_call,
  shut_down, perform, perform_all, perform-Inv, perform_all-init-Inv,
}
use ride_location_tracking_e.Subscriptions.Invariant.{Inv}
use ride_location_tracking_e.Subscriptions.Index.{member}
use ride_location_tracking_e.Subscriptions.Sets.{
  IsSetwise, perform-IsSetwise, perform_all-init-IsSetwise,
}
use ride_location_tracking_e.Subscriptions.Outbox.{sent_to, Seen, seen, same_seen}
use ride_location_tracking_e.Subscriptions.Outbox.Bodies.{heard_update, heard_match, heard_end}
use ride_location_tracking_e.Subscriptions.Outbox.Heard.{
  seen-broadcast, seen-matched, seen-ended, seen-disconnect, seen-subscribe_to_driver,
  seen-subscribe_to_trip, seen-subscribed,
}
use ride_location_tracking_e.TripTracking.{
  TripTrackingState, TripMessage, trip_matched, broadcast, unsubscribed, trip_completed,
  trip_cancelled, Applied,
}
use ride_location_tracking_e.TripTracking.Shown.{
  Event, update, other, View, see, see_all, then_apply, AllOf, updates, last_update, Shows,
  screen-Tracks,
}

-- A message of the registry, as the reducer reads it.
abbrev pub read_message : OutMessage → TripMessage
read_message (location_update m) = broadcast m
read_message (sent_match t d) = trip_matched (some d)
read_message (sent_end t by_completion) = unsubscribed trip_completed
read_message (sent_end t by_cancellation) = unsubscribed trip_cancelled

-- The screen after some messages.
unfoldable pub show_all : ℕ → Applied → List OutMessage → Applied
show_all step screen [] = screen
show_all step screen (m ∷ ms) = show_all step (then_apply step screen (read_message m)) ms

module _ (s t d : ℕ) where
  -- The call leaves the socket's subscription to the trip and the trip's driver as they are; a broadcast
  -- is of a driver's own position.
  abbrev pub Undisturbed : Call → Type 0
  Undisturbed (subscribe_driver q x) = (q == s) ≡ false
  Undisturbed (subscribe_trip q x y) = (q == s) ≡ false
  Undisturbed (disconnect q) = (q == s) ≡ false
  Undisturbed (matched x y) = (x == t) ≡ true → y ≡ d
  Undisturbed (ended x reason) = (x == t) ≡ false
  Undisturbed (broadcast_call x u) = u.meta.driver_id ≡ x
  Undisturbed shut_down = ⊥

-- The positions of the driver that are broadcast.
unfoldable pub broadcasts : ℕ → List Call → List (LatLng × EncodeMeta)
broadcasts d [] = []
broadcasts d (broadcast_call x u ∷ cs) =
    let rest = broadcasts d cs in if x == d then (u.position, u.meta) ∷ rest else rest
broadcasts d (subscribe_driver q x ∷ cs) = broadcasts d cs
broadcasts d (subscribe_trip q x y ∷ cs) = broadcasts d cs
broadcasts d (disconnect q ∷ cs) = broadcasts d cs
broadcasts d (matched x y ∷ cs) = broadcasts d cs
broadcasts d (ended x reason ∷ cs) = broadcasts d cs
broadcasts d (shut_down ∷ cs) = broadcasts d cs

-- What a call sends to the rider.
pub data Heard : Type 0 where
  nothing match : Heard
  moved : LatLng × EncodeMeta → Heard

abbrev pub heard_if : Bool → Heard → Heard
heard_if b h = if b then h else nothing

module _ (t d : ℕ) where
  abbrev pub heard_of : Call → Heard
  heard_of (broadcast_call x u) = heard_if (x == d) (moved (u.position, u.meta))
  heard_of (matched x y) = heard_if (x == t) match
  heard_of (subscribe_driver q x) = nothing
  heard_of (subscribe_trip q x y) = nothing
  heard_of (disconnect q) = nothing
  heard_of (ended x reason) = nothing
  heard_of shut_down = nothing

  abbrev pub then_events : Heard → List Event → List Event
  then_events nothing es = es
  then_events match es = other (trip_matched (some d)) ∷ es
  then_events (moved u) es = update u ∷ es

  abbrev pub events : List Call → List Event
  events [] = []
  events (c ∷ cs) = then_events (heard_of c) (events cs)

  pub updates-events : (cs : List Call) → updates (events cs) ≡ broadcasts d cs
  unfolding updates broadcasts
  updates-events [] = refl
  updates-events (broadcast_call x u ∷ cs) = elim (Bool-cases (x == d)) [
    | inl e ↦ rw e (ap (λ us. (u.position, u.meta) ∷ us) (updates-events cs))
    | inr e ↦ rw e (updates-events cs)
  ]
  updates-events (matched x y ∷ cs) = elim (Bool-cases (x == t)) [
    | inl e ↦ rw e (updates-events cs)
    | inr e ↦ rw e (updates-events cs)
  ]
  updates-events (subscribe_driver q x ∷ cs) = updates-events cs
  updates-events (subscribe_trip q x y ∷ cs) = updates-events cs
  updates-events (disconnect q ∷ cs) = updates-events cs
  updates-events (ended x reason ∷ cs) = updates-events cs
  updates-events (shut_down ∷ cs) = updates-events cs

  pub events-AllOf : (s : ℕ) (cs : List Call) → All (Undisturbed s t d) cs → AllOf d (events cs)
  events-AllOf s [] h = tt
  events-AllOf s (broadcast_call x u ∷ cs) h = elim (Bool-cases (x == d)) [
    | inl e ↦ rw e (ground (arith, e, h.0), events-AllOf s cs h.1)
    | inr e ↦ rw e (events-AllOf s cs h.1)
  ]
  events-AllOf s (matched x y ∷ cs) h = elim (Bool-cases (x == t)) [
    | inl e ↦ rw e (refl, events-AllOf s cs h.1)
    | inr e ↦ rw e (events-AllOf s cs h.1)
  ]
  events-AllOf s (subscribe_driver q x ∷ cs) h = events-AllOf s cs h.1
  events-AllOf s (subscribe_trip q x y ∷ cs) h = events-AllOf s cs h.1
  events-AllOf s (disconnect q ∷ cs) h = events-AllOf s cs h.1
  events-AllOf s (ended x reason ∷ cs) h = events-AllOf s cs h.1
  events-AllOf s (shut_down ∷ cs) h = elim h.0 [ ]
