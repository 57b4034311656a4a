-- ===== src/Eta/Recomputing.antt =====
-- What a recomputation leaves in the cache (core/src/services/eta.service.ts).
use ride_location_tracking_e.Common.{
  ℕ, ◌≡◌, refl, true, false, not, Option, none, some, arith, Bool-cases, Option-cases, inl, inr,
  is_some,
}
use ride_location_tracking_e.Common.Map
use ride_location_tracking_e.Common.Map.{Map, get-set}
use ride_location_tracking_e.Domain.{LatLng}
use ride_location_tracking_e.Database.{Trip}
use ride_location_tracking_e.Eta.Clients.{Outcome-cases, fetch_ml_eta}
use ride_location_tracking_e.Eta.Service.{
  EtaMode, EtaRuntimeConfig, CachedEta, Engines, EngineOutcome, Recomputed, EtaResult, EtaStatus,
  compute_heuristic_eta, without_ml, compute_eta_for_mode, should_recompute, target_of,
  store_outcome, maybe_recompute_eta, is_heuristic, from_cached, no_eta, status_of, eta_at,
  eta_of_driver, eta_of_trip, get_trip_eta,
}
use ride_location_tracking_e.Eta.Service

module _ (engines : Engines) (cfg : EtaRuntimeConfig) where
  -- What an engine's outcome leaves, from what the cache held.
  abbrev IsSound : Option CachedEta → EngineOutcome → Type 0
  IsSound prior o =
      (o.fresh ≡ not o.ml_unavailable)
      × (o.ml_unavailable ≡ true → o.eta ≡ prior)
      × (o.ml_unavailable ≡ false → is_some o.eta ≡ true)
      × (o.ml_unavailable ≡ true → cfg.mode ≡ Service.ml)

  without_ml-IsSound :
      (mode : EtaMode) (location target : LatLng) (now : ℕ) (prior : Option CachedEta)
      → cfg.mode ≡ mode
      → is_heuristic mode ≡ false
      → IsSound prior (without_ml engines cfg mode location target now prior)
  unfolding without_ml
  without_ml-IsSound Service.heuristic location target now prior m g = absurd (ground (arith, g))
  without_ml-IsSound Service.ml location target now prior m g =
      (refl, λ f. refl, λ f. absurd (ground (arith, f)), λ f. m)
  without_ml-IsSound Service.ml_with_fallback location target now prior m g =
      (refl, λ f. absurd (ground (arith, f)), λ f. refl, λ f. absurd (ground (arith, f)))

  compute-IsSound :
      (location target : LatLng) (now : ℕ) (prior : Option CachedEta)
      → IsSound prior (compute_eta_for_mode engines cfg cfg.mode location target now prior)
  unfolding compute_eta_for_mode
  compute-IsSound location target now prior = elim (Bool-cases (is_heuristic cfg.mode)) [
    | inl g ↦
        rw (compute_eta_for_mode, g)
          (refl, λ f. absurd (ground (arith, f)), λ f. refl, λ f. absurd (ground (arith, f)))
    | inr g ↦ elim (Outcome-cases (fetch_ml_eta (engines.ml_service location target now))) [
      | inl (p, e) ↦
          rw (compute_eta_for_mode, g, e)
            (refl, λ f. absurd (ground (arith, f)), λ f. refl, λ f. absurd (ground (arith, f)))
      | inr (r, e) ↦
          rw (compute_eta_for_mode, g, e)
            (without_ml-IsSound cfg.mode location target now prior refl g)
    ]
  ]

  held :
      (location : LatLng) (now : ℕ) (o : Option CachedEta)
      → should_recompute engines cfg location now o ≡ false
      → is_some o ≡ true
  unfolding should_recompute
  held location now none g = absurd (ground (arith, g))
  held location now (some e) g = refl

  after :
      (cache : Map CachedEta) (t : ℕ) (o : EngineOutcome)
      → IsSound (Map.get cache t) o
      → o.eta ≡ Map.get (store_outcome engines cfg cache t o) t
  unfolding store_outcome
  after cache t o s = elim (Option-cases o.eta) [
    | inl e ↦ rw (e, store_outcome) (ground (arith, e, s.0, s.1, s.2))
    | inr (x, e) ↦ rw (e, store_outcome) (ground (arith, e, s.0, s.1, s.2, get-set cache t t x))
  ]

  -- What a request or an update answers is what the cache then holds; only an unavailable prediction
  -- service leaves it without an estimate, and only in mode 'ml'.
  pub recomputed :
      (cache : Map CachedEta) (t : ℕ) (trip : Trip) (location : LatLng) (now : ℕ)
      → (let r = maybe_recompute_eta engines cfg cache t trip location now in
          ((r.1.eta ≡ Map.get r.0 t)
            × (r.1.ml_unavailable ≡ false → is_some r.1.eta ≡ true)
            × (r.1.ml_unavailable ≡ true → cfg.mode ≡ Service.ml)))
  unfolding maybe_recompute_eta store_outcome should_recompute
  recomputed cache t trip location now =
      elim (Bool-cases (should_recompute engines cfg location now (Map.get cache t))) [
        | inr g ↦
            rw (maybe_recompute_eta, g)
              (refl, λ f. held location now (Map.get cache t) g, λ f. absurd (ground (arith, f)))
        | inl g ↦
            let o =
              compute_eta_for_mode engines cfg cfg.mode location (target_of engines cfg trip) now
                (Map.get cache t) in
            let s = compute-IsSound location (target_of engines cfg trip) now (Map.get cache t) in
            rw (maybe_recompute_eta, g) (after cache t o s, s.2, s.3)
      ]
