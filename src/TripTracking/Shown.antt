-- ===== src/TripTracking/Shown.antt =====
-- The position that a rider sees, over what the server broadcasts (frontend/src/hooks/tripTrackingReducer.ts,
-- core/src/ws/delta-compression.ts).
use ride_location_tracking_e.Common.{
  opt_is, ℕ, ◌<◌, ◌≡◌, refl, ◌∙◌, true, false, Option, none, some, List, [], ◌∷◌, arith, length, ap,
  sym, subst,
}
use ride_location_tracking_e.Domain.{LatLng}
use ride_location_tracking_e.Delta.{
  LastKnownState, EncodeMeta, LocationBroadcastPayload, Ends, fresh_ends, deliver, deliver_all,
  encode_location_message, decode_location_message, sent_state,
}
use ride_location_tracking_e.Delta.Stream.{Tracks, stream_bound}
use ride_location_tracking_e.TripTracking.{
  TripTrackingState, TripMessage, subscribed, trip_matched, broadcast, unsubscribed, error, unknown,
  shown_at, apply_trip_message, Applied, driver_of, trip_completed, trip_cancelled, other_reason,
}

-- What reaches the rider: an update of the driver that the server encodes, or any other message.
pub data Event : Type 0 where
  update : LatLng × EncodeMeta → Event
  other : TripMessage → Event

-- The server's memory of the subscription, and the screen.
pub record View : Type 0 where
  pub server : Option LastKnownState
  pub screen : Applied

abbrev pub then_apply : ℕ → Applied → TripMessage → Applied
then_apply step none m = none
then_apply step (some r) m = apply_trip_message step r.0 m

unfoldable pub see : ℕ → View → Event → View
see step v (update u) = record {
  server = some (sent_state u.0 u.1);
  screen = then_apply step v.screen (broadcast (encode_location_message step v.server u.0 u.1));
}
see step v (other m) = record { server = v.server; screen = then_apply step v.screen m }

unfoldable pub see_all : ℕ → View → List Event → View
see_all step v [] = v
see_all step v (e ∷ es) = see_all step (see step v e) es

-- An update is the driver's, and no other message names another driver or is a broadcast.
abbrev pub IsOf : ℕ → Event → Type 0
IsOf d (update u) = u.1.driver_id ≡ d
IsOf d (other (subscribed none)) = Unit {0}
IsOf d (other (subscribed (some x))) = x ≡ d
IsOf d (other (trip_matched none)) = ⊥
IsOf d (other (trip_matched (some x))) = x ≡ d
IsOf d (other (broadcast m)) = ⊥
IsOf d (other (unsubscribed reason)) = Unit {0}
IsOf d (other (error has_ended)) = Unit {0}
IsOf d (other unknown) = Unit {0}

abbrev pub AllOf : ℕ → List Event → Type 0
AllOf d [] = Unit {0}
AllOf d (e ∷ es) = IsOf d e × AllOf d es

unfoldable pub updates : List Event → List (LatLng × EncodeMeta)
updates [] = []
updates (update u ∷ es) = u ∷ updates es
updates (other m ∷ es) = updates es

-- The last of some updates.
unfoldable pub last_update : LatLng × EncodeMeta → List (LatLng × EncodeMeta) → LatLng × EncodeMeta
last_update u [] = u
last_update u (w ∷ us) = last_update w us

server-last_update :
    (step : ℕ) (e : Ends) (u : LatLng × EncodeMeta) (us : List (LatLng × EncodeMeta))
    → (deliver_all step e (u ∷ us)).server
      ≡ some (sent_state (last_update u us).0 (last_update u us).1)
unfolding deliver_all deliver last_update
server-last_update step e u [] = refl
server-last_update step e u (w ∷ us) = server-last_update step (deliver step e u) w us

-- The screen shows that position for the driver.
abbrev pub Shows : ℕ → Option LastKnownState → Applied → Type 0
Shows d p none = ⊥
Shows d p (some r) = (r.0.driver_id ≡ some d) × (r.0.driver_position ≡ p)

driver_of-encode :
    (step : ℕ) (server : Option LastKnownState) (p : LatLng) (meta : EncodeMeta)
    → driver_of (encode_location_message step server p meta) ≡ meta.driver_id
unfolding encode_location_message
driver_of-encode step none p meta = refl
driver_of-encode step (some s) p meta = refl

-- A client that has a position can read every message, and one that has none the first.
abbrev CanRead : Option LastKnownState → Option LastKnownState → Type 0
CanRead none client = Unit {0}
CanRead (some s) none = ⊥
CanRead (some s) (some c) = Unit {0}

module _ (step d : ℕ) where
  other_kept :
      (m : TripMessage) (p : Option LastKnownState) (screen : Applied)
      → IsOf d (other m)
      → Shows d p screen
      → Shows d p (then_apply step screen m)
  unfolding apply_trip_message
  other_kept m p none h s = elim s [ ]
  other_kept (subscribed none) p (some r) h s = s
  other_kept (subscribed (some x)) p (some r) h s = (ap some h, s.1)
  other_kept (trip_matched none) p (some r) h s = elim h [ ]
  other_kept (trip_matched (some x)) p (some r) h s = (ap some h, s.1)
  other_kept (broadcast m) p (some r) h s = elim h [ ]
  other_kept (unsubscribed trip_completed) p (some r) h s = s
  other_kept (unsubscribed trip_cancelled) p (some r) h s = s
  other_kept (unsubscribed other_reason) p (some r) h s = s
  other_kept (error has_ended) p (some r) h s = s
  other_kept unknown p (some r) h s = s

  decode-encode :
      (server client : Option LastKnownState) (u : LatLng × EncodeMeta)
      → CanRead server client
      → (q : LastKnownState) × (decode_location_message step client
            (encode_location_message step server u.0 u.1)
          ≡ some q)
  unfolding encode_location_message decode_location_message
  decode-encode none client u h = (_, refl)
  decode-encode (some s) none u h = elim h [ ]
  decode-encode (some s) (some c) u h = (_, refl)

  -- The driver's message is decoded from the position that is shown.
  read_kept :
      (m : LocationBroadcastPayload) (p : Option LastKnownState) (q : LastKnownState)
      (screen : Applied)
      → driver_of m ≡ d
      → decode_location_message step p m ≡ some q
      → Shows d p screen
      → Shows d (some q) (then_apply step screen (broadcast m))
  unfolding apply_trip_message shown_at
  read_kept m p q none h e s = elim s [ ]
  read_kept m p q (some r) h e s =
      let mine : opt_is r.0.driver_id (driver_of m) ≡ true = ground (arith, h, s.0) in
      let read : decode_location_message step r.0.driver_position m ≡ some q =
        ap (λ x. decode_location_message step x m) s.1 ∙ e in
      rw (mine, read) (s.0, refl)

  -- Both ends after some events, of which the client's is what the screen shows.
  see_all-Shows :
      (es : List Event) (e : Ends) (v : View)
      → AllOf d es
      → v.server ≡ e.server
      → CanRead e.server e.client
      → Shows d e.client v.screen
      → Shows d (deliver_all step e (updates es)).client (see_all step v es).screen
        × ((see_all step v es).server ≡ (deliver_all step e (updates es)).server)
  unfolding see_all see deliver_all deliver updates
  see_all-Shows [] e v h same can s = (s, same)
  see_all-Shows (other m ∷ es) e v h same can s =
      see_all-Shows es e (see step v (other m)) h.1 same can (other_kept m e.client v.screen h.0 s)
  see_all-Shows (update u ∷ es) e v h same can s =
      let (q, g) = decode-encode e.server e.client u can in
      let read =
        read_kept (encode_location_message step v.server u.0 u.1) e.client q v.screen
          (driver_of-encode step v.server u.0 u.1 ∙ h.0)
          (ap (λ x. decode_location_message step e.client (encode_location_message step x u.0 u.1))
              same
            ∙ g)
          s in
      see_all-Shows es (deliver step e u) (see step v (update u)) h.1 refl
        (subst (CanRead (some (sent_state u.0 u.1))) (sym g) tt)
        (subst
          (λ x.
            Shows d x (
              then_apply step v.screen (broadcast (encode_location_message step v.server u.0 u.1))))
          (sym g) read)

  -- A rider whose screen knows the trip's driver, and whose subscription the server has sent nothing yet, sees the
  -- driver within half a quantization step, on each axis, for each of the updates `us` after the first one, with the
  -- status of the last one, whatever else is sent in between and whatever position was shown before; no
  -- message between may name another driver, or be a broadcast of its own.
  pub screen-Tracks :
      (es : List Event) (s : TripTrackingState) (first : LatLng × EncodeMeta)
      (us : List (LatLng × EncodeMeta))
      → 0 < step
      → s.driver_id ≡ some d
      → AllOf d es
      → updates es ≡ first ∷ us
      → let v = see_all step (record { server = none; screen = some (s, false) }) es in
        (p : Option LastKnownState) × Shows d p v.screen
        × Tracks step
            (length us)
            (some (sent_state (last_update first us).0 (last_update first us).1))
            p
  unfolding deliver_all deliver fresh_ends encode_location_message decode_location_message
  screen-Tracks es s first us h known all e =
      let start : Ends = record { server = none; client = s.driver_position } in
      let begun : View = record { server = none; screen = some (s, false) } in
      let seen = see_all-Shows es start begun all refl tt (known, refl) in
      let same : deliver_all step start (updates es) ≡ deliver_all step fresh_ends (first ∷ us) =
        ap (deliver_all step start) e in
      let close = stream_bound step first us h in
      (
        (deliver_all step fresh_ends (first ∷ us)).client,
        subst (λ x. Shows d x.client (see_all step begun es).screen) same seen.0,
        subst (λ x. Tracks step (length us) x (deliver_all step fresh_ends (first ∷ us)).client)
            (server-last_update step fresh_ends first us) close,
      )
