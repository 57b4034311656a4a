-- ===== src/Eta/Batch.antt =====
-- The batched update of estimates against one update at a time (core/src/services/eta.service.ts and
-- findActiveTripsForDrivers of core/src/repositories/trips.repository.ts).
use ride_location_tracking_e.Common.{
  ℕ, suc, ◌≤◌, ◌≡◌, refl, ap, sym, ◌∙◌, ◌==◌, Bool, true, false, ◌&&◌, Option, none, some, List, [],
  ◌∷◌, arith, if◌then◌else◌, Bool-cases, Option-cases, inl, inr, ==_refl, opt_is, for_each, All,
  All-mono,
}
use ride_location_tracking_e.Common.KeySet
use ride_location_tracking_e.Common.Map
use ride_location_tracking_e.Common.Map.{Map, get-set, get-empty}
use ride_location_tracking_e.Domain.{LatLng}
use ride_location_tracking_e.Database.{
  Db, Trip, is_active, add_active, find_active_trips_for_drivers, find_active_trip_for_driver,
  first_active,
}
use ride_location_tracking_e.Eta.Service.{
  CachedEta, Engines, EtaRuntimeConfig, BatchLocationUpdate, driver_ids, handle_one, recompute_from,
  store_outcome, should_recompute, compute_eta_for_mode, target_of, entries_ended,
  maybe_recompute_eta, handle_driver_location_update, handle_driver_location_updates_batch,
}

abbrev pub is_active_for : ℕ → ℕ × Trip → Bool
is_active_for d row = opt_is row.1.driver_id d && is_active row.1.status

-- How many rows are an active trip of the driver.
unfoldable pub active_count : ℕ → Map Trip → ℕ
active_count d [] = 0
active_count d (row ∷ rows) =
    if is_active_for d row then suc (active_count d rows) else active_count d rows

get-add_active :
    (ids : List ℕ) (found : Map (ℕ × Trip)) (row : ℕ × Trip) (d : ℕ)
    → KeySet.has ids d ≡ true
    → Map.get (add_active ids found row) d
      ≡ (if is_active_for d row then some row else Map.get found d)
unfolding add_active
get-add_active ids found row d h = elim (Option-cases row.1.driver_id) [
  | inl e ↦ rw (add_active, e) refl
  | inr (j, e) ↦ rw (add_active, e) (ground (arith, h, get-set found j d row))
]

others_kept :
    (ids : List ℕ) (d : ℕ) (rows : Map Trip) (found : Map (ℕ × Trip))
    → KeySet.has ids d ≡ true
    → active_count d rows ≡ 0
    → Map.get (for_each rows (add_active ids) found) d ≡ Map.get found d
unfolding active_count for_each
others_kept ids d [] found h c = refl
others_kept ids d (row ∷ rows) found h c =
    others_kept ids d rows (add_active ids found row) h (ground (arith, c))
    ∙ ground (arith, c, get-add_active ids found row d h)

only_active :
    (ids : List ℕ) (d : ℕ) (rows : Map Trip) (found : Map (ℕ × Trip))
    → KeySet.has ids d ≡ true
    → active_count d rows ≤ 1
    → Map.get found d ≡ none
    → Map.get (for_each rows (add_active ids) found) d ≡ first_active d rows
unfolding active_count for_each first_active
only_active ids d [] found h c n = n
only_active ids d (row ∷ rows) found h c n = elim (Bool-cases (is_active_for d row)) [
  | inl g ↦
      others_kept ids d rows (add_active ids found row) h (ground (arith, c, g))
      ∙ ground (arith, g, get-add_active ids found row d h)
  | inr g ↦
      only_active ids d rows (add_active ids found row) h (ground (arith, c, g))
        (ground (arith, g, n, get-add_active ids found row d h))
      ∙ ground (arith, g)
]

-- Every driver of the list is on one active trip at most.
abbrev pub AreSingle : Db → List BatchLocationUpdate → Type 0
AreSingle db us = All (λ u. active_count u.driver_id db.trips ≤ 1) us

-- The driver of the entry is among these.
abbrev pub InList : List ℕ → BatchLocationUpdate → Type 0
InList ids u = KeySet.has ids u.driver_id ≡ true

All-driver_ids : (us : List BatchLocationUpdate) → All (InList (driver_ids us)) us
unfolding KeySet.has
All-driver_ids [] = tt
All-driver_ids (u ∷ us) = (
  ground (arith, ==_refl u.driver_id),
  All-mono (InList (driver_ids us)) (InList (driver_ids (u ∷ us))) us (λ v h. ground (arith, h))
      (All-driver_ids us),
)

-- The row that a driver is found on is the trip's, and the driver's.
found_row :
    (d id : ℕ) (rows : Map Trip) (trip : Trip)
    → Map.IsDistinct rows
    → first_active d rows ≡ some (id, trip)
    → (Map.get rows id ≡ some trip) × (opt_is trip.driver_id d ≡ true)
unfolding first_active Map.get
found_row d id [] trip h e = absurd (ground (arith, e))
found_row d id ((k, t) ∷ rows) trip h e = elim (Bool-cases (is_active_for d (k, t))) [
  | inl g ↦ ground (arith, e, g, ==_refl k)
  | inr g ↦
      let r = found_row d id rows trip h.1 (ground (arith, e, g)) in (ground (arith, r.0, h.0), r.1)
]

-- Two drivers are not found on one trip.
not_shared :
    (rows : Map Trip) (d j id k : ℕ) (t u : Trip)
    → Map.IsDistinct rows
    → first_active d rows ≡ some (id, t)
    → first_active j rows ≡ some (k, u)
    → (d == j) ≡ false
    → (id == k) ≡ false
not_shared rows d j id k t u h a b n =
    let x = found_row d id rows t h a in
    let y = found_row j k rows u h b in ground (arith, x.0, x.1, y.0, y.1, n)

module _ (engines : Engines) (cfg : EtaRuntimeConfig) (db : Db) where
  get-recompute_from :
      (cached : Option CachedEta) (cache : Map CachedEta) (t : ℕ) (trip : Trip) (at : LatLng)
      (now k : ℕ)
      → (t == k) ≡ false
      → Map.get (recompute_from engines cfg cached cache t trip at now).0 k ≡ Map.get cache k
  unfolding store_outcome
  get-recompute_from cached cache t trip at now k n =
      elim (Bool-cases (should_recompute engines cfg at now cached)) [
        | inr g ↦ rw (g) refl
        | inl g ↦
            let o =
              compute_eta_for_mode engines cfg cfg.mode at (target_of engines cfg trip) now
                cached in
            elim (Option-cases o.eta) [
              | inl e ↦ rw (g, store_outcome, e) refl
              | inr (x, e) ↦ rw (g, store_outcome, e) (ground (arith, n, get-set cache t k x))
            ]
      ]

  abbrev alone : Map CachedEta → BatchLocationUpdate → Map CachedEta
  alone c u = handle_driver_location_update engines cfg db c u.driver_id u.position u.timestamp_ms

  -- The estimates of the trips of these drivers have not been written yet.
  abbrev IsUnwritten : Map CachedEta → Map CachedEta → List ℕ → Type 0
  IsUnwritten before cache ids =
      (d id : ℕ) (trip : Trip)
      → KeySet.has ids d ≡ true
      → first_active d db.trips ≡ some (id, trip)
      → Map.get cache id ≡ Map.get before id

  same_update :
      (ids : List ℕ) (before cache : Map CachedEta) (u : BatchLocationUpdate)
      → KeySet.has ids u.driver_id ≡ true
      → active_count u.driver_id db.trips ≤ 1
      → ((id : ℕ) (trip : Trip)
          → first_active u.driver_id db.trips ≡ some (id, trip)
          → Map.get cache id ≡ Map.get before id)
      → handle_one engines cfg (find_active_trips_for_drivers db ids) before cache u ≡ alone cache u
  unfolding handle_one handle_driver_location_update find_active_trips_for_drivers
      find_active_trip_for_driver maybe_recompute_eta
  same_update ids before cache u h c same =
      let found = only_active ids u.driver_id db.trips [] h c (get-empty u.driver_id) in
      elim (Option-cases (first_active u.driver_id db.trips)) [
        | inl e ↦ rw (handle_one, found, handle_driver_location_update, e) refl
        | inr ((id, trip), e) ↦
            rw (handle_one, found, handle_driver_location_update, e)
              (ap (λ o. (recompute_from engines cfg o cache id trip u.position u.timestamp_ms).0)
                (sym (same id trip e)))
      ]

  alone-IsUnwritten :
      (before cache : Map CachedEta) (u : BatchLocationUpdate) (ids : List ℕ)
      → Map.IsDistinct db.trips
      → KeySet.has ids u.driver_id ≡ false
      → IsUnwritten before cache ids
      → IsUnwritten before (alone cache u) ids
  unfolding handle_driver_location_update find_active_trip_for_driver maybe_recompute_eta
  alone-IsUnwritten before cache u ids keys out h d k t m f =
      elim (Option-cases (first_active u.driver_id db.trips)) [
        | inl e ↦ rw (handle_driver_location_update, e) (h d k t m f)
        | inr ((id, trip), e) ↦
            rw (handle_driver_location_update, e)
              (get-recompute_from (Map.get cache id) cache id trip u.position u.timestamp_ms k
                  (not_shared db.trips u.driver_id d id k trip t keys e f (ground (arith, out, m)))
                ∙ h d k t m f)
      ]

  same_updates :
      (ids : List ℕ) (us : List BatchLocationUpdate) (before cache : Map CachedEta)
      → All (InList ids) us
      → AreSingle db us
      → KeySet.IsDistinct (driver_ids us)
      → Map.IsDistinct db.trips
      → IsUnwritten before cache (driver_ids us)
      → for_each us (handle_one engines cfg (find_active_trips_for_drivers db ids) before) cache
        ≡ for_each us alone cache
  unfolding for_each KeySet.has
  same_updates ids [] before cache h c own keys fresh = refl
  same_updates ids (u ∷ us) before cache h c own keys fresh =
      rw
        (same_update ids before cache u h.0 c.0
          (λ id trip e. fresh u.driver_id id trip (ground (arith, ==_refl u.driver_id)) e))
        (same_updates ids us before (alone cache u) h.1 c.1 own.1 keys (
          alone-IsUnwritten before cache u (driver_ids us) keys own.0
            (λ d id trip m e. fresh d id trip (ground (arith, m)) e)))

  -- If the drivers of a batch are different, each is on one active trip at most, and the trips' ids are
  -- different, then the batched update, whose entries all read the cache before any of them writes it, leaves the
  -- cache that one update after the other leaves; and so it is for those entries alone that have stored their
  -- estimates, whichever these are, in the order in which they did.
  pub batch-eq-for_each :
      (cache : Map CachedEta) (us ended : List BatchLocationUpdate)
      → AreSingle db us
      → KeySet.IsDistinct (driver_ids us)
      → AreSingle db ended
      → KeySet.IsDistinct (driver_ids ended)
      → All (InList (driver_ids us)) ended
      → Map.IsDistinct db.trips
      → (handle_driver_location_updates_batch engines cfg db cache us
          ≡ for_each us
              (λ c u.
                handle_driver_location_update engines cfg db c u.driver_id u.position
                  u.timestamp_ms)
              cache)
        × (entries_ended engines cfg db cache us ended
            ≡ for_each ended
                (λ c u.
                  handle_driver_location_update engines cfg db c u.driver_id u.position
                    u.timestamp_ms)
                cache)
  unfolding handle_driver_location_updates_batch entries_ended
  batch-eq-for_each cache us ended h own k own' those keys = (
    same_updates (driver_ids us) us cache cache (All-driver_ids us) h own keys
        (λ d id trip m e. refl),
    same_updates (driver_ids us) ended cache cache those k own' keys (λ d id trip m e. refl),
  )
