-- ===== src/Sharding/Tracking.antt =====
-- The shards after any upserts and removals (core/src/repositories/sharded-driver-geo.repository.ts).
use ride_location_tracking_e.Common.{
  ℕ, ◌≡◌, refl, ◌⊎◌, inl, inr, false, none, some, List, ◌==◌, if◌then◌else◌, ◌∙◌, ap, for_each,
  for_each_inv, Option-cases, Bool-cases, arith,
}
use ride_location_tracking_e.Common.Map
use ride_location_tracking_e.Common.Map.{Map, get-set, get-delete, get-empty}
use ride_location_tracking_e.Domain.{LatLng}
use ride_location_tracking_e.Sharding.{
  Region, Sharded, no_drivers, sf, oakland, shard_for, zrem, region_by_id, find_region,
  region_for_point, leave, enter, upsert_driver_location, remove_driver, is_migrated,
}
use ride_location_tracking_e.Sharding.Entering.{
  in_shard, in_shard-zrem, region_cases, IsTracked, no_drivers-IsTracked, nothing_fails, IsFreeFor,
  entered-IsTracked,
}

module _ (unit : ℕ) (s : Sharded) (id : ℕ) (v : IsTracked unit s) where
  stay-IsFreeFor :
      (region : ℕ)
      → is_migrated (Map.get s.current_region id) region ≡ false
      → IsFreeFor unit s id region
  stay-IsFreeFor region e = record {
    in_sf = λ j h. v.in_sf j;
    in_oakland = λ j h. v.in_oakland j;
    known = λ j r h. v.known j r;
    not_sf = λ h. ground (arith, h, e, v.in_sf id);
    not_oakland = λ h. ground (arith, h, e, v.in_oakland id);
  }

  leave-sf : leave unit s (some 1) id ≡ zrem s (sf unit) id
  unfolding leave region_by_id find_region
  leave-sf = refl

  leave-oakland : leave unit s (some 2) id ≡ zrem s (oakland unit) id
  unfolding leave region_by_id find_region
  leave-oakland = refl

  -- Out of its shard, a driver is in none.
  zrem-IsFreeFor :
      (q : Region) (region : ℕ)
      → (q ≡ sf unit) ⊎ (q ≡ oakland unit)
      → Map.get s.current_region id ≡ some q.id
      → IsFreeFor unit (zrem s q id) id region
  unfolding zrem
  zrem-IsFreeFor q region one_of at = record {
    in_sf = λ j h. elim one_of [
      | inl o ↦ ground (arith, o, h, v.in_sf j, in_shard-zrem s q (sf unit) id j)
      | inr o ↦ ground (arith, o, h, v.in_sf j, in_shard-zrem s q (sf unit) id j)
    ];
    in_oakland = λ j h. elim one_of [
      | inl o ↦ ground (arith, o, h, v.in_oakland j, in_shard-zrem s q (oakland unit) id j)
      | inr o ↦ ground (arith, o, h, v.in_oakland j, in_shard-zrem s q (oakland unit) id j)
    ];
    known = λ j r h. v.known j r;
    not_sf = λ h. elim one_of [
      | inl o ↦ ground (arith, o, at, v.in_sf id, in_shard-zrem s q (sf unit) id id)
      | inr o ↦ ground (arith, o, at, v.in_sf id, in_shard-zrem s q (sf unit) id id)
    ];
    not_oakland = λ h. elim one_of [
      | inl o ↦ ground (arith, o, at, v.in_oakland id, in_shard-zrem s q (oakland unit) id id)
      | inr o ↦ ground (arith, o, at, v.in_oakland id, in_shard-zrem s q (oakland unit) id id)
    ];
  }

  leave-IsFreeFor :
      (previous region : ℕ)
      → Map.get s.current_region id ≡ some previous
      → IsFreeFor unit (leave unit s (some previous) id) id region
  leave-IsFreeFor previous region at = elim (v.known id previous at) [
    | inl o ↦ rw (o, leave-sf) (zrem-IsFreeFor (sf unit) region (inl refl) (at ∙ ap some o))
    | inr o ↦
        rw (o, leave-oakland) (zrem-IsFreeFor (oakland unit) region (inr refl) (at ∙ ap some o))
  ]

  routed-IsTracked :
      (r : Region) (p : LatLng)
      → (r ≡ sf unit) ⊎ (r ≡ oakland unit)
      → region_for_point unit p ≡ some r
      → IsTracked unit (upsert_driver_location unit nothing_fails s id p).0
  unfolding upsert_driver_location enter
  routed-IsTracked r p one_of found =
      elim (Bool-cases (is_migrated (Map.get s.current_region id) r.id)) [
        | inl m ↦ elim (Option-cases (Map.get s.current_region id)) [
          | inl e ↦ absurd (ground (arith, m, e))
          | inr (previous, e) ↦
              rw (upsert_driver_location, found, m, e)
                (entered-IsTracked unit (leave unit s (some previous) id) r id p one_of
                  (leave-IsFreeFor previous r.id e))
        ]
        | inr m ↦
            rw (upsert_driver_location, found, m)
              (entered-IsTracked unit s r id p one_of (stay-IsFreeFor r.id m))
      ]

  upsert-IsTracked :
      (p : LatLng) → IsTracked unit (upsert_driver_location unit nothing_fails s id p).0
  unfolding upsert_driver_location
  upsert-IsTracked p = elim (region_cases unit p) [
    | inl e ↦ rw (upsert_driver_location, e) v
    | inr (inl e) ↦ routed-IsTracked (sf unit) p (inl refl) e
    | inr (inr e) ↦ routed-IsTracked (oakland unit) p (inr refl) e
  ]

  module _ (previous : ℕ) (at : Map.get s.current_region id ≡ some previous) where
    abbrev removed : Sharded
    removed = record (leave unit s (some previous) id) {
      current_region = Map.delete (leave unit s (some previous) id).current_region id;
    }

    removed_region :
        (j : ℕ)
        → Map.get removed.current_region j
          ≡ (if id == j then none else Map.get (leave unit s (some previous) id).current_region j)
    removed_region j = get-delete (leave unit s (some previous) id).current_region id j

    removed_at :
        (q : Region) (j : ℕ) → in_shard removed q j ≡ in_shard (leave unit s (some previous) id) q j
    unfolding shard_for
    removed_at q j = refl

    removed-IsTracked : IsTracked unit removed
    removed-IsTracked =
        let free = leave-IsFreeFor previous 0 at in
        record {
          in_sf = λ j.
              ground
                (arith, removed_at (sf unit) j, removed_region j, free.in_sf j, free.not_sf refl);
          in_oakland = λ j. ground (
            arith,
            removed_at (oakland unit) j,
            removed_region j,
            free.in_oakland j,
            free.not_oakland refl,
          );
          known = λ j r e. ground (arith, e, removed_region j, free.known j r);
        }

  remove-IsTracked : IsTracked unit (remove_driver unit nothing_fails s id).0
  unfolding remove_driver
  remove-IsTracked = elim (Option-cases (Map.get s.current_region id)) [
    | inl e ↦ rw (remove_driver, e) v
    | inr (previous, e) ↦ rw (remove_driver, e) (removed-IsTracked previous e)
  ]

pub data Request : Type 0 where
  upsert : ℕ → LatLng → Request
  remove : ℕ → Request

pub perform : ℕ → Sharded → Request → Sharded
perform unit s (upsert id p) = (upsert_driver_location unit nothing_fails s id p).0
perform unit s (remove id) = (remove_driver unit nothing_fails s id).0

perform-IsTracked :
    (unit : ℕ) (s : Sharded) (r : Request) → IsTracked unit s → IsTracked unit (perform unit s r)
unfolding perform
perform-IsTracked unit s (upsert id p) v = upsert-IsTracked unit s id v p
perform-IsTracked unit s (remove id) v = remove-IsTracked unit s id v

-- After any upserts and removals, one after the other, of which no call fails, a driver is in the shard of the
-- region that the service keeps for it, and in no other shard; no other region is ever kept.
pub perform_all-IsTracked :
    (unit : ℕ) (requests : List Request)
    → IsTracked unit (for_each requests (perform unit) no_drivers)
perform_all-IsTracked unit requests =
    for_each_inv (IsTracked unit) requests (perform unit) (perform-IsTracked unit) no_drivers
      (no_drivers-IsTracked unit)
