-- ===== src/Eta/Answers.antt =====
-- What the answers of core/src/services/eta.service.ts rest on.
use ride_location_tracking_e.Common.{
  ℕ, ◌≡◌, refl, sym, ap, subst, ◌∙◌, Bool, true, false, Option, none, some, arith, Bool-cases,
  Option-cases, inl, inr, is_some,
}
use ride_location_tracking_e.Common.Int.{ℤ, pos, ◌-ℤ◌, ltb_ℤ}
use ride_location_tracking_e.Common.Map
use ride_location_tracking_e.Common.Map.{Map, get-set}
use ride_location_tracking_e.Domain.{
  LatLng, TripStatus, requested, matched, in_progress, completed, cancelled,
}
use ride_location_tracking_e.Database.{Db, Trip, Driver, find_trip_by_id, find_driver_by_id}
use ride_location_tracking_e.Eta.Service.{
  EtaRuntimeConfig, CachedEta, Engines, EtaResult, EtaStatus, maybe_recompute_eta, from_cached,
  no_eta, status_of, eta_at, eta_of_driver, eta_of_trip, get_trip_eta,
}
use ride_location_tracking_e.Eta.Recomputing.{recomputed}

-- The trip is neither over nor without a driver.
abbrev pub is_underway : TripStatus → Bool
is_underway completed = false
is_underway cancelled = false
is_underway _ = true

module _ (engines : Engines) (cfg : EtaRuntimeConfig) where
  status-from_cached :
      (status : EtaStatus) (o : Option CachedEta) (age : Option ℤ) (served : Bool)
      → (from_cached status o age served).status ≡ status
  unfolding from_cached
  status-from_cached status none age served = refl
  status-from_cached status (some e) age served = refl

  abbrev pub Shows : EtaResult → CachedEta → Type 0
  Shows a e =
      (a.eta_seconds ≡ some e.eta_seconds)
      × (a.distance_meters ≡ some e.distance_meters)
      × (a.computed_at ≡ some e.computed_at_ms)
      × (a.eta_source ≡ some e.source)

  -- The answer rests on the trip's driver, whose row has a position and was written in time, and on the cache.
  pub record IsCurrent (db : Db) (t now : ℕ) (after : Map CachedEta) (a : EtaResult) : Type 0 where
    pub trip : Trip
    pub driver_id : ℕ
    pub driver : Driver
    pub location : LatLng
    pub found : find_trip_by_id db t ≡ some trip
    pub underway : is_underway trip.status ≡ true
    pub assigned : trip.driver_id ≡ some driver_id
    pub drives : find_driver_by_id db driver_id ≡ some driver
    pub located : driver.location ≡ some location
    pub in_time : ltb_ℤ (pos cfg.stale_location_ms) (pos now -ℤ pos driver.last_updated_at) ≡ false
    pub eta : CachedEta
    pub held : Map.get after t ≡ some eta
    pub shown : Shows a eta

  Shows-from_cached :
      (status : EtaStatus) (o : Option CachedEta) (age : Option ℤ) (served : Bool) (e : CachedEta)
      → o ≡ some e
      → Shows (from_cached status o age served) e
  unfolding from_cached
  Shows-from_cached status o age served e h = rw (h, from_cached) (refl, refl, refl, refl)

  eta_at_ok :
      (cache : Map CachedEta) (t : ℕ) (trip : Trip) (driver : Driver) (location : LatLng) (now : ℕ)
      → (let r = eta_at engines cfg cache t trip driver location now in
          (r.1.status ≡ EtaStatus.ok
            → (ltb_ℤ (pos cfg.stale_location_ms) (pos now -ℤ pos driver.last_updated_at) ≡ false)
              × (e : CachedEta) × (Map.get r.0 t ≡ some e)
              × Shows r.1 e))
  unfolding eta_at
  eta_at_ok cache t trip driver location now =
      elim (Bool-cases
        (ltb_ℤ (pos cfg.stale_location_ms) (pos now -ℤ pos driver.last_updated_at))) [
          | inl g ↦
              rw (eta_at, g)
                (λ f. absurd (
                  ground (
                    arith,
                    f,
                    status-from_cached EtaStatus.stale_location (Map.get cache t)
                        (some (pos now -ℤ pos driver.last_updated_at)) (is_some (Map.get cache t)),
                  )))
          | inr g ↦
              rw (eta_at, g)
                (λ f.
                  let r = maybe_recompute_eta engines cfg cache t trip location now in
                  let age = some (pos now -ℤ pos driver.last_updated_at) in
                  let k = recomputed engines cfg cache t trip location now in
                  let up : r.1.ml_unavailable ≡ false = ground (
                    arith,
                    f,
                    status-from_cached (status_of engines cfg r.1) r.1.eta age
                        r.1.served_from_cache,
                  ) in
                  elim (Option-cases r.1.eta) [
                    | inl e ↦ absurd (ground (arith, e, k.1 up))
                    | inr (x, e) ↦ (
                      refl,
                      x,
                      sym k.0 ∙ e,
                      Shows-from_cached (status_of engines cfg r.1) r.1.eta age
                          r.1.served_from_cache x e,
                    )
                  ])
        ]

  eta_of_driver_ok :
      (db : Db) (cache : Map CachedEta) (t : ℕ) (trip : Trip) (d now : ℕ)
      → find_trip_by_id db t ≡ some trip
      → is_underway trip.status ≡ true
      → trip.driver_id ≡ some d
      → (let r = eta_of_driver engines cfg cache t trip (find_driver_by_id db d) now in
          (r.1.status ≡ EtaStatus.ok → IsCurrent db t now r.0 r.1))
  unfolding eta_of_driver
  eta_of_driver_ok db cache t trip d now found under assigned =
      elim (Option-cases (find_driver_by_id db d)) [
        | inl e ↦
            rw (e, eta_of_driver)
              (λ f. absurd (
                ground (
                  arith,
                  f,
                  status-from_cached EtaStatus.stale_location (Map.get cache t) none
                      (is_some (Map.get cache t)),
                )))
        | inr (driver, e) ↦ elim (Option-cases driver.location) [
          | inl l ↦
              rw (e, eta_of_driver, l)
                (λ f. absurd (
                  ground (
                    arith,
                    f,
                    status-from_cached EtaStatus.stale_location (Map.get cache t) none
                        (is_some (Map.get cache t)),
                  )))
          | inr (location, l) ↦
              rw (e, eta_of_driver, l)
                (λ f.
                  let k = eta_at_ok cache t trip driver location now f in
                  record {
                    trip = trip;
                    driver_id = d;
                    driver = driver;
                    location = location;
                    found = found;
                    underway = under;
                    assigned = assigned;
                    drives = e;
                    located = l;
                    in_time = k.0;
                    eta = k.1;
                    held = k.2;
                    shown = k.3;
                  })
        ]
      ]

  assigned_ok :
      (db : Db) (cache : Map CachedEta) (t : ℕ) (trip : Trip) (now : ℕ) (o : Option ℕ)
      → find_trip_by_id db t ≡ some trip
      → is_underway trip.status ≡ true
      → trip.driver_id ≡ o
      → (let r = (elim o as (λ _. Map CachedEta × EtaResult) [
        | none ↦ (cache, no_eta EtaStatus.no_driver_assigned none)
        | some d ↦ eta_of_driver engines cfg cache t trip (find_driver_by_id db d) now
      ]) in
          (r.1.status ≡ EtaStatus.ok → IsCurrent db t now r.0 r.1))
  assigned_ok db cache t trip now none found under e f = absurd (ground (arith, f))
  assigned_ok db cache t trip now (some d) found under e f =
      eta_of_driver_ok db cache t trip d now found under e f

  eta_of_trip_ok :
      (db : Db) (cache : Map CachedEta) (t : ℕ) (trip : Trip) (now : ℕ) (status : TripStatus)
      → find_trip_by_id db t ≡ some trip
      → trip.status ≡ status
      → (let r = eta_of_trip engines cfg db cache t trip now in
          (r.1.status ≡ EtaStatus.ok → IsCurrent db t now r.0 r.1))
  unfolding eta_of_trip
  eta_of_trip_ok db cache t trip now completed found e =
      rw (e, eta_of_trip) (λ f. absurd (ground (arith, f)))
  eta_of_trip_ok db cache t trip now cancelled found e =
      rw (e, eta_of_trip) (λ f. absurd (ground (arith, f)))
  eta_of_trip_ok db cache t trip now requested found e =
      rw (e, eta_of_trip)
        (assigned_ok db cache t trip now trip.driver_id found (ground (arith, e)) refl)
  eta_of_trip_ok db cache t trip now matched found e =
      rw (e, eta_of_trip)
        (assigned_ok db cache t trip now trip.driver_id found (ground (arith, e)) refl)
  eta_of_trip_ok db cache t trip now in_progress found e =
      rw (e, eta_of_trip)
        (assigned_ok db cache t trip now trip.driver_id found (ground (arith, e)) refl)

  -- An answer 'ok' is for a trip that is not over and has a driver, whose row has a position and was last
  -- written, for whatever reason, no longer ago than the limit, and its numbers, time and source are those
  -- that the cache then holds for the trip.
  pub get_trip_eta-IsCurrent :
      (db : Db) (cache : Map CachedEta) (t now : ℕ) (a : EtaResult)
      → (get_trip_eta engines cfg db cache t now).1 ≡ some a
      → a.status ≡ EtaStatus.ok
      → IsCurrent db t now (get_trip_eta engines cfg db cache t now).0 a
  unfolding get_trip_eta
  get_trip_eta-IsCurrent db cache t now a h f = elim (Option-cases (find_trip_by_id db t)) [
    | inl e ↦ absurd (ground (arith, h, e))
    | inr (trip, e) ↦
        let r = eta_of_trip engines cfg db cache t trip now in
        let same : r.1 ≡ a = ground (arith, h, e) in
        rw (e, get_trip_eta)
          (subst (λ x. IsCurrent db t now r.0 x) same
            (eta_of_trip_ok db cache t trip now trip.status e refl (ap (λ x. x.status) same ∙ f)))
  ]
