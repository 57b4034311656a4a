-- ===== src/GeoIndex/Nearest.antt =====
-- The search for the nearest neighbours ends, and finds them (core/src/geo/geohash-index.ts).
use ride_location_tracking_e.Common.{
  ℕ, zero, suc, ◌+◌, ◌*◌, ◌^◌, ◌≡◌, ◌≤◌, ◌<◌, ◌⊎◌, refl, sym, subst, ap, or_default, ◌∙◌, Bool,
  true, false, ◌&&◌, none, some, List, [], leb, ltb, Bool-cases, inl, inr, arith, All, All-mono,
  All-take, take, length, length-take-full, length-take-le, max,
}
use native.Mathlib.Nat.{one-le-pow, mul-pos}
use ride_location_tracking_e.Common.Map
use ride_location_tracking_e.Common.Sorting.{
  any, count, count-take-le, IsSortedBy, take-IsSortedBy, first-or_at_most,
}
use ride_location_tracking_e.Domain.{LatLng}
use ride_location_tracking_e.Geohash.{bit_split}
use ride_location_tracking_e.GeoIndex.{GeohashIndex}
use ride_location_tracking_e.GeoIndex.Buckets.{IsIndexed}
use ride_location_tracking_e.GeoIndex.Search.{
  GeoIndexEntry, radius_search, deepen, first_radius, nearest_neighbors, meter,
}
use ride_location_tracking_e.GeoIndex.Candidates.{hash_at_bits}
use ride_location_tracking_e.GeoIndex.Spread.{IsSpread}
use ride_location_tracking_e.GeoIndex.Radius.{
  is_of, by_distance, IsEntry, IsExhaustive, radius_search-IsExhaustive,
}

module _ (unit bits scale : ℕ) (cos : LatLng → ℕ) (distance : LatLng → LatLng → ℕ)
    (index : GeohashIndex) (center : LatLng) where
  -- The `k` nearest entries of the index, or all that are within the greatest radius.
  pub record IsNearest (k max_radius : ℕ) (found : List GeoIndexEntry) : Type 0 where
    pub sorted : IsSortedBy by_distance found
    pub entries : All (IsEntry unit bits scale cos distance index center) found
    pub single : (id : ℕ) → count (is_of id) found ≤ 1
    pub few : length found ≤ k
    -- An id that is not found is no nearer than those found, which are `k`, unless it is out of reach.
    pub nearest :
        (id : ℕ) (p : LatLng)
        → Map.get index.positions id ≡ some p
        → (any (is_of id) found ≡ true)
          ⊎ (All (λ e. e.distance_meters ≤ distance center p) found
              × ((length found ≡ k) ⊎ (max_radius < distance center p)))

  abbrev results : ℕ → List GeoIndexEntry
  results radius = radius_search unit bits scale cos distance index center radius none

  -- The entry of an id has the distance of the id's position.
  entry_distance :
      (id : ℕ) (p : LatLng) (x : GeoIndexEntry)
      → Map.get index.positions id ≡ some p
      → IsEntry unit bits scale cos distance index center x
      → is_of id x ≡ true
      → x.distance_meters ≡ distance center p
  entry_distance id p x e h g =
      let same : x.id ≡ id = ground (arith, g) in
      let at : Map.get index.positions id ≡ some x.position =
        subst (λ z. Map.get index.positions z ≡ some x.position) same h.0 in
      h.1 ∙ ap (λ o. distance center (or_default o p)) (sym at ∙ e)

  module _ (k max_radius : ℕ) where
    abbrev NoNearer : List GeoIndexEntry → LatLng → Type 0
    NoNearer found p =
        All (λ x. x.distance_meters ≤ distance center p) found
        × ((length found ≡ k) ⊎ (max_radius < distance center p))

    out_of_reach :
        (radius : ℕ) (found : List GeoIndexEntry) (p : LatLng)
        → IsExhaustive unit bits scale cos distance index center radius found
        → (k ≤ length found) ⊎ (max_radius ≤ radius)
        → radius < distance center p
        → NoNearer (take found k) p
    out_of_reach radius found p x enough far = (
      All-take _ found k (All-mono _ _ found (λ y h. omega (arith, h.1, far)) x.entries),
      elim enough [
        | inl full ↦ inl (length-take-full found k full)
        | inr wide ↦ inr (omega (arith, wide, far))
      ],
    )

    -- The first `k` of a search that is wide enough.
    cut-IsNearest :
        (radius : ℕ) (found : List GeoIndexEntry)
        → IsExhaustive unit bits scale cos distance index center radius found
        → (k ≤ length found) ⊎ (max_radius ≤ radius)
        → IsNearest k max_radius (take found k)
    cut-IsNearest radius found x enough = record {
      sorted = take-IsSortedBy by_distance found k x.sorted;
      entries = All-take _ found k (All-mono _ _ found (λ e h. h.0) x.entries);
      single = λ id. omega (arith, count-take-le (is_of id) found k, x.single id);
      few = length-take-le found k;
      nearest = λ id p e. elim (Bool-cases (leb (distance center p) radius)) [
        | inl g ↦
            elim (first-or_at_most by_distance (is_of id) (distance center p) found k
              (x.complete id p e (ground (arith, g)))
              (All-mono _ _ found (λ y h. entry_distance id p y e h.0) x.entries) x.sorted) [
                | inl f ↦ inl f
                | inr f ↦ inr (f.0, inl f.1)
              ]
        | inr g ↦ inr (out_of_reach radius found p x enough (ground (arith, g)))
      ];
    }

    -- No search goes farther than the first one, or twice the greatest radius.
    abbrev pub last_radius : ℕ
    last_radius = max (first_radius unit bits scale cos distance center) (max_radius * 2)

    module _ (v : IsIndexed (hash_at_bits unit bits) index)
        (spread : IsSpread unit bits scale cos distance index center last_radius)
        (positive : 0 < scale) where
      exhaustive :
          (radius : ℕ)
          → radius ≤ last_radius
          → IsExhaustive unit bits scale cos distance index center radius (results radius)
      exhaustive radius reached =
          (radius_search-IsExhaustive unit bits scale cos distance index center radius v
            (λ id p e near. spread id p e (omega arith)) positive).0

      -- The loop goes on.
      abbrev goes_on : ℕ → Bool
      goes_on radius = ltb (length (results radius)) k && ltb radius max_radius

      wide_enough :
          (radius : ℕ)
          → goes_on radius ≡ false
          → (k ≤ length (results radius)) ⊎ (max_radius ≤ radius)
      wide_enough radius g = elim (Bool-cases (ltb (length (results radius)) k)) [
        | inl a ↦ inr (ground (arith, a, g))
        | inr a ↦ inl (ground (arith, a))
      ]

      abbrev Found : ℕ → ℕ → Type 0
      Found fuel radius =
          (found : List GeoIndexEntry) × (deepen unit bits scale cos distance fuel index center k
              max_radius radius
            ≡ some found)
          × IsNearest k max_radius found

      stopped :
          (fuel radius : ℕ)
          → radius ≤ last_radius
          → goes_on radius ≡ false
          → Found (suc fuel) radius
      unfolding deepen
      stopped fuel radius reached g = (
        take (results radius) k,
        rw (g, deepen) refl,
        cut-IsNearest radius (results radius) (exhaustive radius reached) (wide_enough radius g),
      )

      deepen-IsNearest :
          (fuel radius : ℕ)
          → 0 < radius
          → radius ≤ last_radius
          → max_radius ≤ radius + fuel
          → Found (suc fuel) radius
      unfolding deepen
      deepen-IsNearest zero radius some_radius reached h =
          stopped zero radius reached (ground arith)
      deepen-IsNearest (suc fuel) radius some_radius reached h =
          elim (Bool-cases (goes_on radius)) [
            | inr g ↦ stopped (suc fuel) radius reached g
            | inl g ↦
                let deeper =
                  deepen-IsNearest fuel (radius * 2) (omega arith) (ground (arith, g))
                    (omega arith) in
                (deeper.0, rw (g, deepen) deeper.1, deeper.2)
          ]

      some_radius : 0 < scale → 0 < first_radius unit bits scale cos distance center
      unfolding first_radius
      some_radius h =
          let grains : 0 < meter unit bits scale =
            mul-pos {m = 1000000 * scale} {n = 2 ^ (bit_split bits).lng_bits} (omega arith)
              (one-le-pow (bit_split bits).lng_bits 2 (omega arith)) in
          ground (arith, grains)

      -- The search for the `k` nearest entries ends, and answers `k` different entries, the nearest first, than
      -- which no entry that is left out is nearer, or fewer if all the others are farther away than the greatest
      -- radius. The buckets must be those of the positions, the scale of the cosine positive, and every
      -- position of the index within the first radius or within twice the greatest one, whose cell is some rows and some
      -- columns from the center's, at least all but one of these rows away, and all but one of these
      -- columns, counted the shorter way around the globe and as wide as at the center.
      pub nearest_neighbors-IsNearest :
          (found : List GeoIndexEntry) × (nearest_neighbors unit bits scale cos distance index
              center k max_radius
            ≡ some found)
          × IsNearest k max_radius found
      unfolding nearest_neighbors count
      nearest_neighbors-IsNearest = elim (Bool-cases (leb k 0)) [
        | inl g ↦ (
          [],
          rw (g, nearest_neighbors) refl,
          record {
            sorted = tt;
            entries = tt;
            single = λ id. omega arith;
            few = omega arith;
            nearest = λ id p e. inr (tt, inl (ground (arith, g)));
          },
        )
        | inr g ↦
            let deep =
              deepen-IsNearest max_radius (first_radius unit bits scale cos distance center)
                (some_radius positive) (omega arith) (omega arith) in
            (deep.0, rw (g, nearest_neighbors) deep.1, deep.2)
      ]
