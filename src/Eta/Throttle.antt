-- ===== src/Eta/Throttle.antt =====
-- When an estimate is computed anew and what that leaves in the cache (core/src/services/eta.service.ts), and
-- the bounds of the heuristic (core/src/services/eta-heuristic.ts).
use ride_location_tracking_e.Common.{
  ℕ, ◌+◌, ◌*◌, ◌/◌, ◌≤◌, ◌<◌, ◌≡◌, refl, true, false, Option, some, arith, if◌then◌else◌,
  Bool-cases, inl, inr, mul_mono,
}
use ride_location_tracking_e.Common.Int.{pos, ◌-ℤ◌, leb_ℤ}
use ride_location_tracking_e.Common.Map
use ride_location_tracking_e.Common.Map.{Map, get-set}
use ride_location_tracking_e.Domain.{LatLng}
use ride_location_tracking_e.Database.{Trip}
use ride_location_tracking_e.Eta.Clients.{Outcome-cases, fetch_ml_eta, fetch_osrm_route}
use ride_location_tracking_e.Eta.Heuristic.{rush_hour_table, get_rush_hour_multiplier, estimate_eta}
use ride_location_tracking_e.Eta.Service.{
  EtaMode, EtaRuntimeConfig, CachedEta, Engines, EngineOutcome, Recomputed, build_cached_eta,
  straight_line, compute_heuristic_eta, without_ml, compute_eta_for_mode, should_recompute,
  target_of, store_outcome, maybe_recompute_eta, is_heuristic,
}
use ride_location_tracking_e.Eta.Service

multiplier_bounds :
    (hour : ℕ)
    → (10 ≤ get_rush_hour_multiplier hour rush_hour_table)
      × (get_rush_hour_multiplier hour rush_hour_table ≤ 15)
unfolding get_rush_hour_multiplier
multiplier_bounds hour = ground arith

div_bounds : (a k : ℕ) → 0 < k → (a / k * k ≤ a) × (a < (a / k + 1) * k)
div_bounds a k h = ground arith

-- The duration is that of the distance at the average speed, and up to half of it again at rush hour:
-- rounded down, it is at least the first and at most the second; the speed must be positive.
pub estimate_eta_bounds :
    (scale distance hour avg_speed : ℕ)
    → 0 < avg_speed
    → (let e = estimate_eta scale distance hour avg_speed in
        (2 * (e.eta_seconds * avg_speed) ≤ 3 * (distance * scale))
        × (distance * scale < (e.eta_seconds + 1) * avg_speed))
unfolding estimate_eta
estimate_eta_bounds scale distance hour avg_speed h =
    let m = get_rush_hour_multiplier hour rush_hour_table in
    let b = multiplier_bounds hour in
    let q = div_bounds (distance * scale * m) (avg_speed * 10) (omega arith) in
    let low = mul_mono 10 m (distance * scale) b.0 in
    let high = mul_mono m 15 (distance * scale) b.1 in
    (grind (arith, q.0, high), grind (arith, q.1, low))

module _ (engines : Engines) (cfg : EtaRuntimeConfig) where
  -- The interval of the mode.
  abbrev pub interval_ms : ℕ
  interval_ms = if is_heuristic cfg.mode then cfg.recompute_interval_ms else cfg.ml_cache_ttl_ms

  abbrev pub IsComputedAt : LatLng → ℕ → EngineOutcome → Type 0
  IsComputedAt location now o =
      o.fresh ≡ true
      → (e : CachedEta) × (o.eta ≡ some e) × (e.computed_at_ms ≡ now) × (e.computed_at ≡ location)

  heuristic_at :
      (location target : LatLng) (now : ℕ)
      → (let e = compute_heuristic_eta engines cfg location target now in
          ((e.computed_at_ms ≡ now) × (e.computed_at ≡ location)))
  unfolding compute_heuristic_eta straight_line build_cached_eta
  heuristic_at location target now = elim (Bool-cases cfg.osrm_enabled) [
    | inr g ↦ rw (compute_heuristic_eta, g) (refl, refl)
    | inl g ↦
        rw (compute_heuristic_eta, g)
          (elim (Outcome-cases (fetch_osrm_route (engines.osrm location target now))) [
            | inl (r, e) ↦ rw e (refl, refl)
            | inr (f, e) ↦ rw e (refl, refl)
          ])
  ]

  without_ml_at :
      (mode : EtaMode) (location target : LatLng) (now : ℕ) (prior : Option CachedEta)
      → IsComputedAt location now (without_ml engines cfg mode location target now prior)
  unfolding without_ml
  without_ml_at Service.heuristic location target now prior f = absurd (ground (arith, f))
  without_ml_at Service.ml location target now prior f = absurd (ground (arith, f))
  without_ml_at Service.ml_with_fallback location target now prior f =
      let h = heuristic_at location target now in
      (
        record (compute_heuristic_eta engines cfg location target now) {
          source = Service.ml_fallback;
        },
        refl,
        h.0,
        h.1,
      )

  computed_at :
      (mode : EtaMode) (location target : LatLng) (now : ℕ) (prior : Option CachedEta)
      → IsComputedAt location now (compute_eta_for_mode engines cfg mode location target now prior)
  unfolding compute_eta_for_mode build_cached_eta
  computed_at mode location target now prior = elim (Bool-cases (is_heuristic mode)) [
    | inl g ↦
        rw (compute_eta_for_mode, g)
          (λ f.
            let h = heuristic_at location target now in
            (compute_heuristic_eta engines cfg location target now, refl, h.0, h.1))
    | inr g ↦ elim (Outcome-cases (fetch_ml_eta (engines.ml_service location target now))) [
      | inl (p, e) ↦ rw (compute_eta_for_mode, g, e) (λ f. (_, refl, refl, refl))
      | inr (r, e) ↦ rw (compute_eta_for_mode, g, e) (without_ml_at mode location target now prior)
    ]
  ]

  -- A new estimate is in the cache, with the time and the position it is for.
  stored :
      (cache : Map CachedEta) (t : ℕ) (trip : Trip) (location : LatLng) (now : ℕ)
      → (let r = maybe_recompute_eta engines cfg cache t trip location now in
          (r.1.served_from_cache ≡ false
            → (e : CachedEta) × (r.1.eta ≡ some e)
              × (e.computed_at_ms ≡ now)
              × (e.computed_at ≡ location)
              × (Map.get r.0 t ≡ some e)))
  unfolding maybe_recompute_eta store_outcome
  stored cache t trip location now =
      elim (Bool-cases (should_recompute engines cfg location now (Map.get cache t))) [
        | inr g ↦ rw (maybe_recompute_eta, g) (λ f. absurd (ground (arith, f)))
        | inl g ↦
            rw (maybe_recompute_eta, g)
              (λ f.
                let o =
                  compute_eta_for_mode engines cfg cfg.mode location (target_of engines cfg trip)
                    now (Map.get cache t) in
                let fresh : o.fresh ≡ true = ground (arith, f) in
                let c =
                  computed_at cfg.mode location (target_of engines cfg trip) now (Map.get cache t)
                    fresh in
                (
                  c.0,
                  c.1,
                  c.2,
                  c.3,
                  rw (store_outcome, c.1, fresh) (ground (arith, get-set cache t t c.0)),
                ))
      ]

  not_due :
      (interval now later : ℕ)
      → later < now + interval
      → leb_ℤ (pos interval) (pos later -ℤ pos now) ≡ false
  unfolding ◌-ℤ◌
  not_due interval now later h = ground arith

  throttled :
      (e : CachedEta) (location : LatLng) (now later : ℕ)
      → e.computed_at_ms ≡ now
      → e.computed_at ≡ location
      → later < now + interval_ms
      → engines.haversine location location < cfg.recompute_distance_meters
      → should_recompute engines cfg location later (some e) ≡ false
  unfolding should_recompute
  throttled e location now later a b early near =
      rw (should_recompute, a, b, not_due interval_ms now later early) (ground (arith, near))

  -- Once an estimate was computed anew, a later request or update for the trip from the same position is
  -- answered with it, without a computation and without a change of the cache, until the interval of the
  -- mode is over, and whatever the trip's row then says; the distance of a position to itself must be below
  -- the distance threshold.
  maybe_recompute_eta_again :
      (cache : Map CachedEta) (t : ℕ) (trip later_trip : Trip) (location : LatLng) (now later : ℕ)
      → (maybe_recompute_eta engines cfg cache t trip location now).1.served_from_cache ≡ false
      → later < now + interval_ms
      → engines.haversine location location < cfg.recompute_distance_meters
      → (let r = maybe_recompute_eta engines cfg cache t trip location now in
          (maybe_recompute_eta engines cfg r.0 t later_trip location later
            ≡ (r.0, record { eta = r.1.eta; served_from_cache = true; ml_unavailable = false })))
  unfolding maybe_recompute_eta should_recompute
  maybe_recompute_eta_again cache t trip later_trip location now later f early near =
      let r = maybe_recompute_eta engines cfg cache t trip location now in
      let s = stored cache t trip location now f in
      let keep : should_recompute engines cfg location later (some s.0) ≡ false =
        throttled s.0 location now later s.2 s.3 early near in
      rw (s.4, keep, s.1) refl
