-- ===== src/Surge/Step.antt =====
-- How far one run of the surge job moves a zone's multiplier (core/src/services/surge.service.ts).
use ride_location_tracking_e.Common.{
  ℕ, ◌+◌, ◌-◌, ◌≤◌, ◌≡◌, some, none, leb, if◌then◌else◌, min, max, arith, inl, inr, refl,
  Option-cases,
}
use ride_location_tracking_e.Common.Int.{◌+ℤ◌, ◌-ℤ◌}
use ride_location_tracking_e.Common.Map
use ride_location_tracking_e.Database.{Db}
use ride_location_tracking_e.Surge.{
  SurgeZoneState, SurgeStore, SurgeRuntimeConfig, clamp, clamp_ℤ, target_multiplier,
  next_multiplier, zone_state, multiplier_of, compute_and_update_surge,
}
use ride_location_tracking_e.Surge.Zones.{get-compute, is_known, requests_in, drivers_in}

-- The least and the greatest multiplier, in order.
abbrev pub IsInRange : SurgeRuntimeConfig → ℕ → Type 0
IsInRange cfg m = (cfg.min_multiplier ≤ m) × (m ≤ cfg.max_multiplier)

-- At most `change` from `a`, towards `b`.
abbrev pub toward : ℕ → ℕ → ℕ → ℕ
toward change a b = if leb a b then min b (a + change) else max b (a - change)

pub target-IsInRange :
    (cfg : SurgeRuntimeConfig) (scale requests drivers : ℕ)
    → cfg.min_multiplier ≤ cfg.max_multiplier
    → IsInRange cfg (target_multiplier cfg scale requests drivers)
unfolding target_multiplier clamp
target-IsInRange cfg scale requests drivers h = ground arith

-- Within the range, the multiplier moves to the target, by the greatest change at most.
pub next-eq-toward :
    (cfg : SurgeRuntimeConfig) (previous target : ℕ)
    → IsInRange cfg previous
    → IsInRange cfg target
    → next_multiplier cfg previous target ≡ toward cfg.max_change_per_interval previous target
unfolding next_multiplier clamp clamp_ℤ ◌+ℤ◌ ◌-ℤ◌
next-eq-toward cfg previous target p t = ground arith

pub next-IsInRange :
    (cfg : SurgeRuntimeConfig) (previous target : ℕ)
    → cfg.min_multiplier ≤ cfg.max_multiplier
    → IsInRange cfg (next_multiplier cfg previous target)
unfolding next_multiplier clamp
next-IsInRange cfg previous target h = ground arith

-- Every stored multiplier is in the range.
abbrev pub StoredInRange : SurgeRuntimeConfig → SurgeStore → Type 0
StoredInRange cfg store =
    (z : ℕ) (s : SurgeZoneState) → Map.get store z ≡ some s → IsInRange cfg s.multiplier

pub previous-IsInRange :
    (cfg : SurgeRuntimeConfig) (store : SurgeStore) (z : ℕ)
    → cfg.min_multiplier ≤ cfg.max_multiplier
    → StoredInRange cfg store
    → IsInRange cfg (multiplier_of (Map.get store z) cfg.min_multiplier)
previous-IsInRange cfg store z h keep = elim (Option-cases (Map.get store z)) [
  | inl e ↦ rw e (ground arith)
  | inr (s, e) ↦ rw e (keep z s e)
]

module _ (cfg : SurgeRuntimeConfig) (unit scale now : ℕ) (db : Db) (store : SurgeStore)
    (ordered : cfg.min_multiplier ≤ cfg.max_multiplier) where
  pub compute-StoredInRange :
      StoredInRange cfg (compute_and_update_surge cfg unit scale now db store)
  unfolding zone_state
  compute-StoredInRange z s e =
      let next =
        next-IsInRange cfg (multiplier_of (Map.get store z) cfg.min_multiplier)
          (target_multiplier cfg scale (requests_in cfg unit db z) (drivers_in cfg unit db z))
          ordered in
      ground (arith, get-compute cfg unit scale now db store z, e, next)

  -- One run gives each zone that has an open request or an online driver, or was stored before, its current
  -- counts, and moves its multiplier from the stored one (or else the least one) towards the target of these
  -- counts by the greatest change at most; it stores nothing for another zone, and every stored multiplier
  -- stays in the range; the least multiplier must not exceed the greatest, nor a stored one be out of range.
  pub surge_computed :
      StoredInRange cfg store
      → ((z : ℕ)
          → Map.get (compute_and_update_surge cfg unit scale now db store) z ≡ (
              if is_known cfg unit db z store
              then some (record {
                multiplier =
                    toward cfg.max_change_per_interval
                      (multiplier_of (Map.get store z) cfg.min_multiplier)
                      (target_multiplier cfg scale
                        (requests_in cfg unit db z)
                        (drivers_in cfg unit db z));
                request_count = requests_in cfg unit db z;
                driver_count = drivers_in cfg unit db z;
                updated_at_ms = now;
              })
              else none))
        × StoredInRange cfg (compute_and_update_surge cfg unit scale now db store)
  unfolding zone_state
  surge_computed keep = (
    λ z.
        rw
          (
            get-compute cfg unit scale now db store z,
            next-eq-toward cfg (multiplier_of (Map.get store z) cfg.min_multiplier)
                (target_multiplier cfg scale (requests_in cfg unit db z) (drivers_in cfg unit db z))
                (previous-IsInRange cfg store z ordered keep)
                (target-IsInRange cfg scale (requests_in cfg unit db z) (drivers_in cfg unit db z)
                  ordered),
          )
          refl,
    compute-StoredInRange,
  )
