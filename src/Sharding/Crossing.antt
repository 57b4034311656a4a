-- ===== src/Sharding/Crossing.antt =====
-- A crossing whose last call fails (core/src/repositories/sharded-driver-geo.repository.ts).
use ride_location_tracking_e.Common.{
  ℕ, ◌≡◌, refl, Bool, true, false, some, ◌==◌, if◌then◌else◌, ◌∙◌, ap, arith,
}
use ride_location_tracking_e.Common.Map
use ride_location_tracking_e.Common.Map.{Map, get-set, get-delete, get-empty}
use ride_location_tracking_e.Domain.{LatLng}
use ride_location_tracking_e.Sharding.{
  Region, Sharded, sf, oakland, shard_for, zrem, geoadd, set_current_region_id, region_by_id,
  find_region, region_for_point, leave, enter, Call, upsert_driver_location, remove_driver,
}
use ride_location_tracking_e.Sharding.Entering.{
  in_shard, in_shard-zrem, in_shard-geoadd, nothing_fails,
}

-- Only the last call of an upsert fails.
abbrev pub set_fails : Call → Bool
set_fails Call.set_region = true
set_fails _ = false

-- The driver has crossed to `p`, where the last call failed, and then come back to `q`.
abbrev pub came_back : ℕ → Sharded → ℕ → LatLng → LatLng → Sharded
came_back unit s id p q =
    (upsert_driver_location unit nothing_fails (upsert_driver_location unit set_fails s id p).0 id
      q).0

module _ (unit : ℕ) (s : Sharded) (id : ℕ) (p q : LatLng)
    (in_oakland : region_for_point unit p ≡ some (oakland unit))
    (back_in_sf : region_for_point unit q ≡ some (sf unit)) where
  crossed :
      Map.get s.current_region id ≡ some 1
      → (upsert_driver_location unit set_fails s id p).0
        ≡ geoadd (zrem s (sf unit) id) (oakland unit) id p
  unfolding upsert_driver_location enter leave region_by_id find_region
  crossed at = rw (upsert_driver_location, in_oakland, at) refl

  stays :
      (t : Sharded)
      → Map.get t.current_region id ≡ some 1
      → (upsert_driver_location unit nothing_fails t id q).0
        ≡ set_current_region_id (geoadd t (sf unit) id q) id 1
  unfolding upsert_driver_location enter
  stays t at = rw (upsert_driver_location, back_in_sf, at) refl

  abbrev crossed_state : Sharded
  crossed_state = geoadd (zrem s (sf unit) id) (oakland unit) id p

  crossed_region :
      Map.get s.current_region id ≡ some 1 → Map.get crossed_state.current_region id ≡ some 1
  unfolding geoadd zrem
  crossed_region at = at

  came_back_lem :
      Map.get s.current_region id ≡ some 1
      → came_back unit s id p q ≡ set_current_region_id (geoadd crossed_state (sf unit) id q) id 1
  came_back_lem at =
      ap (λ (t : Sharded). (upsert_driver_location unit nothing_fails t id q).0) (crossed at)
      ∙ stays crossed_state (crossed_region at)

  came_back_at :
      (at : Map.get s.current_region id ≡ some 1) (r : Region)
      → in_shard (came_back unit s id p q) r id
        ≡ (if 1 == r.redis_db then true else in_shard crossed_state r id)
  unfolding set_current_region_id shard_for
  came_back_at at r =
      ap (λ (t : Sharded). in_shard t r id) (came_back_lem at)
      ∙ ground (arith, in_shard-geoadd crossed_state (sf unit) r id id q)

  came_back_region :
      Map.get s.current_region id ≡ some 1
      → Map.get (came_back unit s id p q).current_region id ≡ some 1
  unfolding set_current_region_id geoadd zrem
  came_back_region at =
      ap (λ (t : Sharded). Map.get t.current_region id) (came_back_lem at)
      ∙ ground (arith, get-set s.current_region id id 1)

  removed_still :
      Map.get s.current_region id ≡ some 1
      → in_shard (came_back unit s id p q) (oakland unit) id ≡ true
      → in_shard (remove_driver unit nothing_fails (came_back unit s id p q) id).0 (oakland unit) id
        ≡ true
  unfolding remove_driver leave region_by_id find_region shard_for
  removed_still at there =
      rw (remove_driver, came_back_region at)
        (ground
          (arith, there, in_shard-zrem (came_back unit s id p q) (sf unit) (oakland unit) id id))

  -- A driver of San Francisco crosses to Oakland, the last call of that upsert fails, and the driver comes back:
  -- then it is in both shards, and in Oakland's even after it has been removed, where no other call fails.
  pub stale_duplicate :
      Map.get s.current_region id ≡ some 1
      → (in_shard (came_back unit s id p q) (sf unit) id ≡ true)
        × (in_shard (came_back unit s id p q) (oakland unit) id ≡ true)
        × (in_shard
              (remove_driver unit nothing_fails (came_back unit s id p q) id).0
              (oakland unit)
              id
            ≡ true)
  stale_duplicate at =
      let there : in_shard (came_back unit s id p q) (oakland unit) id ≡ true = ground (
        arith,
        came_back_at at (oakland unit),
        in_shard-geoadd (zrem s (sf unit) id) (oakland unit) (oakland unit) id id p,
      ) in
      (ground (arith, came_back_at at (sf unit)), there, removed_still at there)
