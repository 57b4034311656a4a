-- ===== src/TripTracking/Status.antt =====
-- The status that a rider sees after some messages and answers (frontend/src/hooks/tripTrackingReducer.ts).
use ride_location_tracking_e.Common.{
  ℕ, ◌≡◌, refl, ◌∙◌, Bool, true, false, ◌||◌, Option, none, some, List, [], ◌∷◌, ◌++◌, arith,
  if◌then◌else◌, or_default, Option-cases, Bool-cases, ap, inl, inr, sym, append-nil, append_assoc,
}
use ride_location_tracking_e.Database.{Trip}
use ride_location_tracking_e.Domain.{TripStatus, matched, completed, cancelled}
use ride_location_tracking_e.TripTracking.{
  TripTracking, TripMessage, subscribed, trip_matched, broadcast, unsubscribed, error, unknown,
  trip_completed, trip_cancelled, other_reason, apply_message, apply_trip_message, shown_at, asked,
  status_with_driver, on_fetched,
}

-- What changes the tracking of a trip: a message on the socket, or an answer to `getTrip`.
pub data Event : Type 0 where
  message : TripMessage → Event
  fetched : Option Trip → Event

unfoldable pub take_event : ℕ → TripTracking → Event → TripTracking
take_event step h (message m) = apply_message step h m
take_event step h (fetched answer) = on_fetched h answer

unfoldable pub take_all : ℕ → TripTracking → List Event → TripTracking
take_all step h [] = h
take_all step h (e ∷ es) = take_all step (take_event step h e) es

-- The status that an event settles, whatever it was.
abbrev pub settles : Event → Option TripStatus
settles (message (trip_matched d)) = some matched
settles (message (unsubscribed trip_completed)) = some completed
settles (message (unsubscribed trip_cancelled)) = some cancelled
settles (fetched (some trip)) = some trip.status
settles _ = none

abbrev pub names_driver : Event → Bool
names_driver (message (subscribed (some d))) = true
names_driver _ = false

-- Has some answer to the subscription named a driver?
unfoldable pub any_names_driver : List Event → Bool
any_names_driver [] = false
any_names_driver (e ∷ es) = names_driver e || any_names_driver es

-- A status, once these events have come, if none of them settles another one.
abbrev pub named : List Event → TripStatus → TripStatus
named es status = if any_names_driver es then status_with_driver status else status

-- The status that the last such event settles, once the events after it have come.
unfoldable pub settled_last : List Event → Option TripStatus
settled_last [] = none
settled_last (e ∷ es) =
    let later = settled_last es in
    elim later [
      | some status ↦ some status
      | none ↦ elim (settles e) [ none ↦ none | some status ↦ some (named es status) ]
    ]

-- The messages after which the final state must be asked for.
abbrev pub must_ask : Event → Bool
must_ask (message (unsubscribed trip_cancelled)) = true
must_ask (message (error has_ended)) = has_ended
must_ask _ = false

-- One request for the trip per such message.
unfoldable pub asks_for : ℕ → List Event → List ℕ
asks_for t [] = []
asks_for t (e ∷ es) = let rest = asks_for t es in if must_ask e then t ∷ rest else rest

abbrev after_one : TripStatus → Event → TripStatus
after_one status e =
    or_default (settles e) (if names_driver e then status_with_driver status else status)

module _ (step : ℕ) where
  status-take_event :
      (h : TripTracking) (e : Event)
      → (take_event step h e).tracking.status ≡ after_one h.tracking.status e
  unfolding take_event apply_message apply_trip_message shown_at on_fetched
  status-take_event h (message (subscribed none)) = refl
  status-take_event h (message (subscribed (some d))) = refl
  status-take_event h (message (trip_matched d)) = refl
  status-take_event h (message (broadcast m)) = ground arith
  status-take_event h (message (unsubscribed trip_completed)) = refl
  status-take_event h (message (unsubscribed trip_cancelled)) = refl
  status-take_event h (message (unsubscribed other_reason)) = refl
  status-take_event h (message (error e)) = refl
  status-take_event h (message unknown) = refl
  status-take_event h (fetched none) = refl
  status-take_event h (fetched (some trip)) = refl

  current-take_event :
      (h : TripTracking) (e : Event) → (take_event step h e).current_trip_id ≡ h.current_trip_id
  unfolding take_event apply_message on_fetched
  current-take_event h (fetched none) = refl
  current-take_event h (fetched (some trip)) = refl
  current-take_event h (message m) = elim (Option-cases (apply_trip_message step h.tracking m)) [
    | inl e ↦ rw (e, apply_message) refl
    | inr (a, e) ↦ rw (e, apply_message) refl
  ]

  fetches-take_event :
      (h : TripTracking) (e : Event) (t : ℕ)
      → h.current_trip_id ≡ some t
      → (take_event step h e).fetches ≡ (if must_ask e then h.fetches ++ t ∷ [] else h.fetches)
  unfolding take_event apply_message apply_trip_message shown_at asked on_fetched
  fetches-take_event h (message (subscribed none)) t e = refl
  fetches-take_event h (message (subscribed (some d))) t e = refl
  fetches-take_event h (message (trip_matched d)) t e = refl
  fetches-take_event h (message (broadcast m)) t e = ground arith
  fetches-take_event h (message (unsubscribed trip_completed)) t e = refl
  fetches-take_event h (message (unsubscribed trip_cancelled)) t e = ground (arith, e)
  fetches-take_event h (message (unsubscribed other_reason)) t e = refl
  fetches-take_event h (message (error x)) t e = ground (arith, e)
  fetches-take_event h (message unknown) t e = refl
  fetches-take_event h (fetched none) t e = refl
  fetches-take_event h (fetched (some trip)) t e = refl

  named-cons :
      (e : Event) (es : List Event) (status : TripStatus)
      → named es (if names_driver e then status_with_driver status else status)
        ≡ named (e ∷ es) status
  unfolding any_names_driver status_with_driver
  named-cons e es status = elim (Bool-cases (names_driver e)) [
    | inl g ↦ rw (g) (ground arith)
    | inr g ↦ rw (g) refl
  ]

  status-take_all :
      (es : List Event) (h : TripTracking)
      → (take_all step h es).tracking.status
        ≡ or_default (settled_last es) (named es h.tracking.status)
  unfolding take_all settled_last any_names_driver
  status-take_all [] h = refl
  status-take_all (e ∷ es) h =
      status-take_all es (take_event step h e)
      ∙ ap (λ x. or_default (settled_last es) (named es x)) (status-take_event h e)
      ∙ elim (Option-cases (settled_last es)) [
        | inr (x, l) ↦ rw (l) refl
        | inl l ↦ elim (Option-cases (settles e)) [
          | inr (x, k) ↦ rw (l, k) refl
          | inl k ↦ rw (l, k) (named-cons e es h.tracking.status)
        ]
      ]

  fetches-take_all :
      (es : List Event) (h : TripTracking) (t : ℕ)
      → h.current_trip_id ≡ some t
      → (take_all step h es).fetches ≡ h.fetches ++ asks_for t es
  unfolding take_all asks_for
  fetches-take_all [] h t e = sym (append-nil h.fetches)
  fetches-take_all (x ∷ es) h t e =
      fetches-take_all es (take_event step h x) t (current-take_event h x ∙ e)
      ∙ ground (arith, fetches-take_event h x t e, append_assoc h.fetches (t ∷ []) (asks_for t es))

  -- For a trip that the rider follows, through any messages and answers to the requests for its row, the
  -- status is the one that the last of these events settles: 'trip_matched', 'unsubscribed' for an end, or
  -- an answer that is a row, whose status it is. If none does, it is as before. In both cases a 'requested' has
  -- become 'matched' if some later answer to the subscription named a driver. The trip's row is asked for once for each
  -- cancellation and each refusal because the trip has ended, and for no other event.
  pub status_and_fetches :
      (es : List Event) (h : TripTracking) (t : ℕ)
      → h.current_trip_id ≡ some t
      → ((take_all step h es).tracking.status
          ≡ or_default (settled_last es) (named es h.tracking.status))
        × ((take_all step h es).fetches ≡ h.fetches ++ asks_for t es)
  status_and_fetches es h t e = (status-take_all es h, fetches-take_all es h t e)
