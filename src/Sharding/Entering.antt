-- ===== src/Sharding/Entering.antt =====
-- Which shards a driver is in, and what puts it into another (core/src/repositories/sharded-driver-geo.repository.ts).
use ride_location_tracking_e.Common.{
  ℕ, ◌≡◌, ◌⊎◌, inl, inr, Bool, true, false, ◌&&◌, none, some, ◌==◌, if◌then◌else◌, is_some, opt_is,
  arith,
}
use ride_location_tracking_e.Common.Map
use ride_location_tracking_e.Common.Map.{Map, get-set, get-delete, get-empty}
use ride_location_tracking_e.Domain.{LatLng}
use ride_location_tracking_e.Sharding.{
  Region, Sharded, no_drivers, sf, oakland, shard_for, zrem, geoadd, set_current_region_id,
  region_for_point, first_containing, Call,
}

abbrev pub in_shard : Sharded → Region → ℕ → Bool
in_shard s r id = is_some (Map.get (shard_for s r) id)

pub in_shard-zrem :
    (s : Sharded) (r q : Region) (id j : ℕ)
    → in_shard (zrem s r id) q j
      ≡ (if r.redis_db == q.redis_db && id == j then false else in_shard s q j)
unfolding zrem shard_for
in_shard-zrem s r q id j = ground (
  arith,
  get-set s.shards r.redis_db q.redis_db (Map.delete (shard_for s r) id),
  get-delete (shard_for s r) id j,
)

pub in_shard-geoadd :
    (s : Sharded) (r q : Region) (id j : ℕ) (p : LatLng)
    → in_shard (geoadd s r id p) q j
      ≡ (if r.redis_db == q.redis_db && id == j then true else in_shard s q j)
unfolding geoadd shard_for
in_shard-geoadd s r q id j p = ground (
  arith,
  get-set s.shards r.redis_db q.redis_db (Map.set (shard_for s r) id p),
  get-set (shard_for s r) id j p,
)

-- A point is in one of the two regions, or in none.
pub region_cases :
    (unit : ℕ) (p : LatLng)
    → (region_for_point unit p ≡ none)
      ⊎ ((region_for_point unit p ≡ some (sf unit))
          ⊎ (region_for_point unit p ≡ some (oakland unit)))
unfolding region_for_point first_containing
region_cases unit p = ground arith

-- A driver is in the shard of its current region, and in no other.
pub record IsTracked (unit : ℕ) (s : Sharded) : Type 0 where
  pub in_sf : (id : ℕ) → in_shard s (sf unit) id ≡ opt_is (Map.get s.current_region id) 1
  pub in_oakland : (id : ℕ) → in_shard s (oakland unit) id ≡ opt_is (Map.get s.current_region id) 2
  pub known :
      (id region : ℕ) → Map.get s.current_region id ≡ some region → (region ≡ 1) ⊎ (region ≡ 2)

pub no_drivers-IsTracked : (unit : ℕ) → IsTracked unit no_drivers
unfolding no_drivers shard_for
no_drivers-IsTracked unit = record {
  in_sf = λ id.
      ground (arith, get-empty {V = Map LatLng} 1, get-empty {V = LatLng} id, get-empty {V = ℕ} id);
  in_oakland = λ id.
      ground (arith, get-empty {V = Map LatLng} 2, get-empty {V = LatLng} id, get-empty {V = ℕ} id);
  known = λ id region e. ground (arith, get-empty {V = ℕ} id);
}

abbrev pub nothing_fails : Call → Bool
nothing_fails _ = false

-- The other drivers are tracked, and this one is in no shard but the region's.
pub record IsFreeFor (unit : ℕ) (s : Sharded) (id region : ℕ) : Type 0 where
  pub in_sf :
      (j : ℕ) → (j == id) ≡ false → in_shard s (sf unit) j ≡ opt_is (Map.get s.current_region j) 1
  pub in_oakland :
      (j : ℕ)
      → (j == id) ≡ false
      → in_shard s (oakland unit) j ≡ opt_is (Map.get s.current_region j) 2
  pub known :
      (j r : ℕ) → (j == id) ≡ false → Map.get s.current_region j ≡ some r → (r ≡ 1) ⊎ (r ≡ 2)
  pub not_sf : (region == 1) ≡ false → in_shard s (sf unit) id ≡ false
  pub not_oakland : (region == 2) ≡ false → in_shard s (oakland unit) id ≡ false

module _ (unit : ℕ) (s : Sharded) (r : Region) (id : ℕ) (p : LatLng)
    (one_of : (r ≡ sf unit) ⊎ (r ≡ oakland unit)) (free : IsFreeFor unit s id r.id) where
  abbrev entered : Sharded
  entered = set_current_region_id (geoadd s r id p) id r.id

  entered_at :
      (q : Region) (j : ℕ)
      → in_shard entered q j
        ≡ (if r.redis_db == q.redis_db && id == j then true else in_shard s q j)
  unfolding set_current_region_id shard_for
  entered_at q j = in_shard-geoadd s r q id j p

  entered_region :
      (j : ℕ)
      → Map.get entered.current_region j
        ≡ (if id == j then some r.id else Map.get s.current_region j)
  unfolding set_current_region_id geoadd
  entered_region j = get-set s.current_region id j r.id

  entered-sf : (j : ℕ) → in_shard entered (sf unit) j ≡ opt_is (Map.get entered.current_region j) 1
  entered-sf j = elim one_of [
    | inl e ↦ ground (arith, e, entered_at (sf unit) j, entered_region j, free.in_sf j)
    | inr e ↦ ground (arith, e, entered_at (sf unit) j, entered_region j, free.in_sf j, free.not_sf)
  ]

  entered-oakland :
      (j : ℕ) → in_shard entered (oakland unit) j ≡ opt_is (Map.get entered.current_region j) 2
  entered-oakland j = elim one_of [
    | inl e ↦ ground (
      arith,
      e,
      entered_at (oakland unit) j,
      entered_region j,
      free.in_oakland j,
      free.not_oakland,
    )
    | inr e ↦ ground (arith, e, entered_at (oakland unit) j, entered_region j, free.in_oakland j)
  ]

  pub entered-IsTracked : IsTracked unit entered
  entered-IsTracked = record {
    in_sf = entered-sf;
    in_oakland = entered-oakland;
    known = λ j region e. elim one_of [
      | inl o ↦ ground (arith, o, e, entered_region j, free.known j region)
      | inr o ↦ ground (arith, o, e, entered_region j, free.known j region)
    ];
  }
