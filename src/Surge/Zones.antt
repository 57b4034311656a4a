-- ===== src/Surge/Zones.antt =====
-- Which zones a run of the job in core/src/services/surge.service.ts writes, and with which counts.
use ride_location_tracking_e.Common.{
  ℕ, ◌+◌, ◌≡◌, refl, ◌∙◌, Bool, ◌||◌, none, some, List, [], ◌∷◌, ◌==◌, ltb, is_some, if◌then◌else◌,
  for_each, or_default, arith,
}
use ride_location_tracking_e.Common.Map
use ride_location_tracking_e.Common.Map.{
  Map, get-set, get-empty, has-keys_iff, get-set_each, set_each-IsDistinct, get-set_all,
}
use ride_location_tracking_e.Common.KeySet
use ride_location_tracking_e.Common.KeySet.{KeySet, has-add, has-nil}
use ride_location_tracking_e.Domain.{LatLng}
use ride_location_tracking_e.Database.{
  Db, find_open_trip_pickups, find_online_drivers_with_location,
}
use ride_location_tracking_e.Surge.{
  SurgeZoneState, SurgeStore, SurgeRuntimeConfig, zone_hash_for, count_in, zone_counts, add_keys,
  zone_state, set_surge_zone_states, compute_and_update_surge,
}

-- How many of the positions lie in the zone.
abbrev pub count_at : (LatLng → ℕ) → ℕ → List (ℕ × LatLng) → ℕ
count_at zone_of z [] = 0
count_at zone_of z (row ∷ rows) =
    let rest = count_at zone_of z rows in if zone_of row.1 == z then rest + 1 else rest

count_from :
    (zone_of : LatLng → ℕ) (rows : List (ℕ × LatLng)) (m : Map ℕ) (z : ℕ)
    → or_default (Map.get (for_each rows (count_in zone_of) m) z) 0
      ≡ or_default (Map.get m z) 0 + count_at zone_of z rows
unfolding for_each
count_from zone_of [] m z = ground arith
count_from zone_of (row ∷ rows) m z =
    count_from zone_of rows (count_in zone_of m row) z
    ∙ unfold count_in in
      ground (arith, get-set m (zone_of row.1) z (or_default (Map.get m (zone_of row.1)) 0 + 1))

seen_from :
    (zone_of : LatLng → ℕ) (rows : List (ℕ × LatLng)) (m : Map ℕ) (z : ℕ)
    → is_some (Map.get (for_each rows (count_in zone_of) m) z)
      ≡ (is_some (Map.get m z) || ltb 0 (count_at zone_of z rows))
unfolding for_each
seen_from zone_of [] m z = ground arith
seen_from zone_of (row ∷ rows) m z =
    seen_from zone_of rows (count_in zone_of m row) z
    ∙ unfold count_in in
      ground (arith, get-set m (zone_of row.1) z (or_default (Map.get m (zone_of row.1)) 0 + 1))

module _ (zone_of : LatLng → ℕ) (rows : List (ℕ × LatLng)) (z : ℕ) where
  pub counted : or_default (Map.get (zone_counts zone_of rows) z) 0 ≡ count_at zone_of z rows
  unfolding zone_counts
  counted = ground (arith, count_from zone_of rows [] z, get-empty {V = ℕ} z)

  pub seen : is_some (Map.get (zone_counts zone_of rows) z) ≡ ltb 0 (count_at zone_of z rows)
  unfolding zone_counts
  seen = ground (arith, seen_from zone_of rows [] z, get-empty {V = ℕ} z)

has-add_keys :
    (ks : List ℕ) (s : KeySet) (x : ℕ)
    → KeySet.has (add_keys s ks) x ≡ (KeySet.has s x || KeySet.has ks x)
unfolding add_keys for_each KeySet.has
has-add_keys [] s x = ground arith
has-add_keys (k ∷ ks) s x = has-add_keys ks (KeySet.add s k) x ∙ ground (arith, has-add s k x)

module _ (cfg : SurgeRuntimeConfig) (unit : ℕ) (db : Db) (z : ℕ) where
  abbrev pub requests_in : ℕ
  requests_in = count_at (zone_hash_for unit cfg.zone_bits) z (find_open_trip_pickups db)

  abbrev pub drivers_in : ℕ
  drivers_in = count_at (zone_hash_for unit cfg.zone_bits) z (find_online_drivers_with_location db)

  -- A zone is written if it has an open request or an online driver, or was written before.
  abbrev pub is_known : SurgeStore → Bool
  is_known store = ltb 0 requests_in || ltb 0 drivers_in || is_some (Map.get store z)

module _ (cfg : SurgeRuntimeConfig) (unit scale now : ℕ) (db : Db) (store : SurgeStore)
    (z : ℕ) where
  abbrev request_counts : Map ℕ
  request_counts = zone_counts (zone_hash_for unit cfg.zone_bits) (find_open_trip_pickups db)

  abbrev driver_counts : Map ℕ
  driver_counts =
      zone_counts (zone_hash_for unit cfg.zone_bits) (find_online_drivers_with_location db)

  abbrev zones : KeySet
  zones =
      add_keys (add_keys (add_keys [] (Map.keys request_counts)) (Map.keys driver_counts))
        (Map.keys store)

  zones-has : KeySet.has zones z ≡ is_known cfg unit db z store
  zones-has = ground (
    arith,
    has-add_keys (Map.keys store)
        (add_keys (add_keys [] (Map.keys request_counts)) (Map.keys driver_counts)) z,
    has-add_keys (Map.keys driver_counts) (add_keys [] (Map.keys request_counts)) z,
    has-add_keys (Map.keys request_counts) [] z,
    has-nil z,
    has-keys_iff store z,
    has-keys_iff driver_counts z,
    has-keys_iff request_counts z,
    seen (zone_hash_for unit cfg.zone_bits) (find_open_trip_pickups db) z,
    seen (zone_hash_for unit cfg.zone_bits) (find_online_drivers_with_location db) z,
  )

  abbrev written : ℕ → SurgeZoneState
  written j =
      zone_state cfg scale now (Map.get store j) (or_default (Map.get request_counts j) 0)
        (or_default (Map.get driver_counts j) 0)

  written_lem :
      written z
      ≡ zone_state cfg scale now
          (Map.get store z)
          (requests_in cfg unit db z)
          (drivers_in cfg unit db z)
  written_lem =
      rw
        (
          counted (zone_hash_for unit cfg.zone_bits) (find_open_trip_pickups db) z,
          counted (zone_hash_for unit cfg.zone_bits) (find_online_drivers_with_location db) z,
        )
        refl

  -- What a run leaves at a zone.
  pub get-compute : Map.get (compute_and_update_surge cfg unit scale now db store) z ≡ (
      if is_known cfg unit db z store
      then some (
          zone_state cfg scale now
            (Map.get store z)
            (requests_in cfg unit db z)
            (drivers_in cfg unit db z))
      else none)
  unfolding compute_and_update_surge set_surge_zone_states
  get-compute =
      get-set_all (for_each zones (λ m j. Map.set m j (written j)) []) store z
        (set_each-IsDistinct zones written [] tt)
      ∙ ground (
        arith,
        get-set_each zones written [] z,
        get-empty {V = SurgeZoneState} z,
        zones-has,
        written_lem,
      )
