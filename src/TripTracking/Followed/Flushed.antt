-- ===== src/TripTracking/Followed/Flushed.antt =====
-- What a rider sees of a position that is in the batch, after the flush (core/src/ws/location-batch.ts,
-- core/src/ws/subscriptions.ts, frontend/src/hooks/tripTrackingReducer.ts).
use ride_location_tracking_e.Common.{
  ℕ, ◌<◌, ◌≡◌, refl, ◌∙◌, Bool, true, false, none, some, List, [], ◌∷◌, ◌++◌, arith, length,
  length-append, ap, sym, subst, ◌==◌, Bool-cases, Option-cases, inl, inr, All,
}
use ride_location_tracking_e.Common.Map
use ride_location_tracking_e.Common.Map.{Map, IsDistinct}
use ride_location_tracking_e.Domain.{LatLng}
use ride_location_tracking_e.Database.{Driver, set_location}
use ride_location_tracking_e.Delta.{EncodeMeta, sent_state}
use ride_location_tracking_e.Delta.Stream.{Tracks}
use ride_location_tracking_e.Subscriptions.{Registry, OutMessage, init}
use ride_location_tracking_e.Subscriptions.Calls.{
  Call, subscribe_driver, subscribe_trip, disconnect, matched, ended, broadcast as broadcast_call,
  shut_down, perform, perform_all,
}
use ride_location_tracking_e.Subscriptions.Outbox.{sent_to}
use ride_location_tracking_e.Eta.Service.{Engines, EtaRuntimeConfig}
use ride_location_tracking_e.Batch.{PendingUpdate, Snapshot, Core, idle}
use ride_location_tracking_e.Batch.Broadcasts.{raw_update}
use ride_location_tracking_e.Batch.Flush.{Event, flush_amid}
use ride_location_tracking_e.Batch.Sent.{
  calls_of, flushed_rows, registry-flush_amid, get-flushed_rows,
}
use ride_location_tracking_e.TripTracking.{TripTrackingState}
use ride_location_tracking_e.TripTracking.Shown.{last_update}
use ride_location_tracking_e.TripTracking.Followed.{Undisturbed, broadcasts}
use ride_location_tracking_e.TripTracking.Followed.Riders.{SeesAt, rider-Sees}

broadcasts-append :
    (d : ℕ) (cs es : List Call) → broadcasts d (cs ++ es) ≡ broadcasts d cs ++ broadcasts d es
unfolding broadcasts
broadcasts-append d [] es = refl
broadcasts-append d (broadcast_call x u ∷ cs) es = ground (arith, broadcasts-append d cs es)
broadcasts-append d (subscribe_driver q x ∷ cs) es = broadcasts-append d cs es
broadcasts-append d (subscribe_trip q x y ∷ cs) es = broadcasts-append d cs es
broadcasts-append d (disconnect q ∷ cs) es = broadcasts-append d cs es
broadcasts-append d (matched x y ∷ cs) es = broadcasts-append d cs es
broadcasts-append d (ended x reason ∷ cs) es = broadcasts-append d cs es
broadcasts-append d (shut_down ∷ cs) es = broadcasts-append d cs es

module _ (is_open : ℕ → Bool) (byte_length : OutMessage → ℕ) (step : ℕ) where
  perform_all-append :
      (r : Registry) (cs es : List Call)
      → perform_all is_open byte_length step r (cs ++ es)
        ≡ perform_all is_open byte_length step (perform_all is_open byte_length step r cs) es
  unfolding perform_all
  perform_all-append r [] es = refl
  perform_all-append r (c ∷ cs) es = perform_all-append (perform is_open byte_length step r c) cs es

All-append : (P : Call → Type 0) (cs es : List Call) → All P cs → All P es → All P (cs ++ es)
All-append P [] es h k = k
All-append P (c ∷ cs) es h k = (h.0, All-append P cs es h.1 k)

module _ (drivers : Map Driver) where
  -- A flush disturbs nobody, and broadcasts a driver's own position.
  calls_of-Undisturbed :
      (s t d : ℕ) (snapshot : Snapshot) → All (Undisturbed s t d) (calls_of drivers snapshot)
  calls_of-Undisturbed s t d [] = tt
  calls_of-Undisturbed s t d ((id, u) ∷ rest) = elim (Option-cases (Map.get drivers id)) [
    | inl e ↦ rw e (calls_of-Undisturbed s t d rest)
    | inr (row, e) ↦ rw e (refl, calls_of-Undisturbed s t d rest)
  ]

  absent :
      (snapshot : Snapshot) (d : ℕ)
      → Map.get snapshot d ≡ none
      → broadcasts d (calls_of drivers snapshot) ≡ []
  unfolding broadcasts Map.get
  absent [] d h = refl
  absent ((id, u) ∷ rest) d h = elim (Option-cases (Map.get drivers id)) [
    | inl e ↦ rw e (absent rest d (ground (arith, h)))
    | inr (row, e) ↦ rw e (ground (arith, h, absent rest d))
  ]

  -- A driver of the batch who has a row is broadcast once.
  broadcasts-calls_of :
      (snapshot : Snapshot) (d : ℕ) (u : PendingUpdate) (row : Driver)
      → IsDistinct snapshot
      → Map.get snapshot d ≡ some u
      → Map.get drivers d ≡ some row
      → broadcasts d (calls_of drivers snapshot) ≡ (u.position, (raw_update d u row).meta) ∷ []
  unfolding broadcasts Map.get
  broadcasts-calls_of [] d u row h e f = cc
  broadcasts-calls_of ((id, w) ∷ rest) d u row h e f = elim (Bool-cases (id == d)) [
    | inl k ↦
        let same : id ≡ d = ground (arith, k) in
        let mine : w ≡ u = ground (arith, k, e) in
        rw (subst (λ x. Map.get drivers x ≡ some row) (sym same) f)
          (ground (arith, k, same, mine, absent rest d (ground (arith, h.0, same))))
    | inr k ↦ elim (Option-cases (Map.get drivers id)) [
      | inl n ↦ rw n (broadcasts-calls_of rest d u row h.1 (ground (arith, k, e)) f)
      | inr (other, n) ↦
          rw n (ground (arith, k, broadcasts-calls_of rest d u row h.1 (ground (arith, k, e)) f))
    ]
  ]

-- A list with one more element at its end, taken apart at its front.
abbrev front : LatLng × EncodeMeta → List (LatLng × EncodeMeta) → LatLng × EncodeMeta
front u [] = u
front u (w ∷ us) = w

abbrev others : LatLng × EncodeMeta → List (LatLng × EncodeMeta) → List (LatLng × EncodeMeta)
others u [] = []
others u (w ∷ us) = us ++ u ∷ []

front_others :
    (u : LatLng × EncodeMeta) (us : List (LatLng × EncodeMeta))
    → us ++ u ∷ [] ≡ front u us ∷ others u us
front_others u [] = refl
front_others u (w ∷ us) = refl

last_update-append :
    (w u : LatLng × EncodeMeta) (us : List (LatLng × EncodeMeta)) → last_update w (us ++ u ∷ []) ≡ u
unfolding last_update
last_update-append w u [] = refl
last_update-append w u (v ∷ us) = last_update-append v u us

last_update-others :
    (u : LatLng × EncodeMeta) (us : List (LatLng × EncodeMeta))
    → last_update (front u us) (others u us) ≡ u
unfolding last_update
last_update-others u [] = refl
last_update-others u (w ∷ us) = last_update-append w u us

length-others :
    (u : LatLng × EncodeMeta) (us : List (LatLng × EncodeMeta)) → length (others u us) ≡ length us
length-others u [] = refl
length-others u (w ∷ us) = length-append us (u ∷ []) ∙ ground arith

module _ (is_open : ℕ → Bool) (byte_length : OutMessage → ℕ) (step : ℕ) (before cs : List Call)
    (s t d : ℕ) where
  -- The registry at the subscription, and after the calls since.
  abbrev pub subscribed : Registry
  subscribed =
      perform is_open byte_length step (perform_all is_open byte_length step init before)
        (subscribe_trip s t (some d))

  abbrev pub since : Registry
  since = perform_all is_open byte_length step subscribed cs

  module _ (engines : Engines) (cfg : EtaRuntimeConfig) (c : Core) (e1 e2 e3 : List Event)
      (t1 t2 t3 : ℕ) (p : ℕ × PendingUpdate) (ps : List (ℕ × PendingUpdate)) where
    -- A rider whose socket, open from then on, subscribed to a trip that has a driver, and whose screen knows this
    -- driver, sees a position of the driver that is in the batch, with the status of its row, after a flush of which
    -- no call fails, within half a quantization step on each axis for each broadcast of the driver since the
    -- subscription: the driver must have a row, the service be idle, the batch have each key once, the stores change in
    -- no other way during the flush, and the calls since the subscription be such that the socket neither leaves,
    -- moves nor asks anew, the trip does not end or change its driver, the server is not shut down, and a broadcast is
    -- of the driver's own position.
    pub flush_amid-Sees :
        (shown : TripTrackingState) (u : PendingUpdate) (row : Driver)
        → 0 < step
        → is_open s ≡ true
        → shown.driver_id ≡ some d
        → All (Undisturbed s t d) cs
        → c.stage ≡ idle
        → c.pending_batch ≡ p ∷ ps
        → IsDistinct (p ∷ ps)
        → c.stores.registry ≡ since
        → Map.get (p ∷ ps) d ≡ some u
        → Map.get c.stores.db.drivers d ≡ some row
        → SeesAt step s d
            (length (broadcasts d cs))
            (record { lat = u.position.lat; lng = u.position.lng; status = row.status })
            subscribed
            (some (shown, false))
            (flush_amid is_open byte_length step engines cfg c e1 t1 e2 t2 e3 t3).stores.registry
    unfolding set_location
    flush_amid-Sees shown u row h opened known all at full distinct now e f =
        let rows = flushed_rows is_open byte_length step engines cfg c e1 e2 e3 t1 t2 t3 p ps in
        let es = calls_of rows (p ∷ ps) in
        let last : LatLng × EncodeMeta = (u.position, (raw_update d u row).meta) in
        let us = broadcasts d cs in
        let found =
          get-flushed_rows is_open byte_length step engines cfg c e1 e2 e3 t1 t2 t3 p ps d u row
            distinct e f in
        let sent : broadcasts d (cs ++ es) ≡ front last us ∷ others last us =
          broadcasts-append d cs es
          ∙ ap (λ xs. us ++ xs)
              (broadcasts-calls_of rows (p ∷ ps) d u (set_location u.position t1 row) distinct e
                found)
          ∙ front_others last us in
        let after : perform_all is_open byte_length step subscribed (cs ++ es)
            ≡ (flush_amid is_open byte_length step engines cfg c e1 t1 e2 t2 e3
                t3).stores.registry =
          perform_all-append is_open byte_length step subscribed cs es
          ∙ ap (λ r. perform_all is_open byte_length step r es) (sym now)
          ∙ sym (
              registry-flush_amid is_open byte_length step engines cfg c e1 e2 e3 t1 t2 t3 p ps at
                full) in
        let (ms, shows, told, seen, tracks) =
          rider-Sees is_open byte_length step before (cs ++ es) s t d shown (front last us)
            (others last us) h opened known
            (All-append (Undisturbed s t d) cs es all (calls_of-Undisturbed rows s t d (p ∷ ps)))
            sent in
        (
          ms,
          shows,
          subst (λ r. sent_to s r.outbox ≡ sent_to s subscribed.outbox ++ ms) after told,
          seen,
          subst (λ n. Tracks step n (some (sent_state last.0 last.1)) shows) (length-others last us)
              (subst (λ x. Tracks step (length (others last us)) (some (sent_state x.0 x.1)) shows)
                (last_update-others last us) tracks),
        )
