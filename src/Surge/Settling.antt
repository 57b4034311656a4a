-- ===== src/Surge/Settling.antt =====
-- Where the surge job (core/src/services/surge.service.ts) takes a zone's multiplier if it is run again and again.
use ride_location_tracking_e.Common.{
  ℕ, ◌+◌, ◌-◌, ◌*◌, ◌≤◌, ◌<◌, ◌≡◌, refl, ◌∙◌, true, List, [], ◌∷◌, arith, length, for_each, is_some,
}
use ride_location_tracking_e.Common.Map
use ride_location_tracking_e.Database.{Db}
use ride_location_tracking_e.Surge.{
  SurgeStore, SurgeRuntimeConfig, target_multiplier, zone_state, multiplier_of,
  compute_and_update_surge,
}
use ride_location_tracking_e.Surge.Zones.{get-compute, is_known, requests_in, drivers_in}
use ride_location_tracking_e.Surge.Step.{
  toward, StoredInRange, next-eq-toward, target-IsInRange, previous-IsInRange,
  compute-StoredInRange,
}

abbrev distance : ℕ → ℕ → ℕ
distance a b = (a - b) + (b - a)

distance-toward : (change a b : ℕ) → distance (toward change a b) b ≡ distance a b - change
distance-toward change a b = ground arith

-- The runs at the listed times, on unchanged tables.
pub runs : SurgeRuntimeConfig → ℕ → ℕ → Db → SurgeStore → List ℕ → SurgeStore
runs cfg unit scale db store times =
    for_each times (λ s now. compute_and_update_surge cfg unit scale now db s) store

module _ (cfg : SurgeRuntimeConfig) (unit scale : ℕ) (db : Db) (z : ℕ)
    (ordered : cfg.min_multiplier ≤ cfg.max_multiplier) where
  abbrev pub target_in : ℕ
  target_in = target_multiplier cfg scale (requests_in cfg unit db z) (drivers_in cfg unit db z)

  module _ (store : SurgeStore) (known : is_known cfg unit db z store ≡ true) (now : ℕ) where
    abbrev after : SurgeStore
    after = compute_and_update_surge cfg unit scale now db store

    stored : is_some (Map.get after z) ≡ true
    stored = rw (get-compute cfg unit scale now db store z, known) refl

    moved :
        StoredInRange cfg store
        → multiplier_of (Map.get after z) cfg.min_multiplier
          ≡ toward cfg.max_change_per_interval
              (multiplier_of (Map.get store z) cfg.min_multiplier)
              target_in
    unfolding zone_state
    moved keep =
        rw (get-compute cfg unit scale now db store z, known)
          (next-eq-toward cfg (multiplier_of (Map.get store z) cfg.min_multiplier) target_in
            (previous-IsInRange cfg store z ordered keep)
            (target-IsInRange cfg scale (requests_in cfg unit db z) (drivers_in cfg unit db z)
              ordered))

    known_after : is_known cfg unit db z after ≡ true
    known_after = ground (arith, stored)

  closing :
      (times : List ℕ) (store : SurgeStore)
      → StoredInRange cfg store
      → is_known cfg unit db z store ≡ true
      → distance
          (multiplier_of (Map.get (runs cfg unit scale db store times) z) cfg.min_multiplier)
          target_in
        ≤ distance (multiplier_of (Map.get store z) cfg.min_multiplier) target_in
          - length times * cfg.max_change_per_interval
  unfolding runs for_each
  closing [] store keep known = ground arith
  closing (now ∷ times) store keep known = ground (
    arith,
    closing times (after store known now)
        (compute-StoredInRange cfg unit scale now db store ordered) (known_after store known now),
    moved store known now keep,
    distance-toward cfg.max_change_per_interval (multiplier_of (Map.get store z) cfg.min_multiplier)
        target_in,
  )

  quiet_target :
      requests_in cfg unit db z ≡ 0 → 0 < cfg.min_sample_requests → target_in ≡ cfg.min_multiplier
  unfolding target_multiplier
  quiet_target quiet sampled = rw quiet (ground arith)

  -- On unchanged tables, runs whose greatest changes add up to the width of the range leave a zone that has an
  -- open request or an online driver, or was stored before, exactly at the target of its counts: a zone whose
  -- demand is over comes back to the least multiplier; the least multiplier must not exceed the greatest, nor
  -- a stored one be out of range.
  pub settled :
      (times : List ℕ) (store : SurgeStore)
      → StoredInRange cfg store
      → is_known cfg unit db z store ≡ true
      → cfg.max_multiplier - cfg.min_multiplier ≤ length times * cfg.max_change_per_interval
      → (multiplier_of (Map.get (runs cfg unit scale db store times) z) cfg.min_multiplier
          ≡ target_in)
        × (requests_in cfg unit db z ≡ 0
            → 0 < cfg.min_sample_requests
            → multiplier_of (Map.get (runs cfg unit scale db store times) z) cfg.min_multiplier
              ≡ cfg.min_multiplier)
  settled times store keep known enough =
      let before = previous-IsInRange cfg store z ordered keep in
      let target =
        target-IsInRange cfg scale (requests_in cfg unit db z) (drivers_in cfg unit db z) ordered in
      let at : multiplier_of (Map.get (runs cfg unit scale db store times) z) cfg.min_multiplier
          ≡ target_in =
        ground (arith, closing times store keep known) in
      (at, λ quiet sampled. at ∙ quiet_target quiet sampled)
