-- ===== src/GeoIndex/Radius.antt =====
-- A radius search finds every position within the radius (core/src/geo/geohash-index.ts).
use ride_location_tracking_e.Common.{
  ℕ, ◌+◌, ◌*◌, ◌≡◌, ◌≤◌, ◌<◌, if◌then◌else◌, false, refl, subst, ◌∙◌, Bool, true, none, some, List,
  [], ◌∷◌, ◌==◌, leb, Bool-cases, Option-cases, inl, inr, arith, All, take,
}
use ride_location_tracking_e.Common.KeySet
use ride_location_tracking_e.Common.KeySet.{KeySet}
use ride_location_tracking_e.Common.Map
use ride_location_tracking_e.Common.Map.{Map}
use ride_location_tracking_e.Common.Sorting.{
  any, count, count-sort_by, IsSortedBy, All-sort_by, any-sort_by, sort_by-IsSortedBy,
}
use ride_location_tracking_e.Domain.{LatLng}
use ride_location_tracking_e.Geohash.{cell_of}
use ride_location_tracking_e.GeoIndex.{GeohashIndex}
use ride_location_tracking_e.GeoIndex.Buckets.{IsIndexed}
use ride_location_tracking_e.GeoIndex.Search.{
  GeoIndexEntry, entries_within, limited, radius_search, ring_count, scan_candidates,
}
use ride_location_tracking_e.GeoIndex.Candidates.{
  hash_at_bits, scan_candidates-finds, scan_rows-IsDistinct,
}
use ride_location_tracking_e.GeoIndex.Spread.{IsSpread, IsFarApart-IsScanned}

abbrev pub is_of : ℕ → GeoIndexEntry → Bool
is_of id e = e.id == id

abbrev pub by_distance : GeoIndexEntry → ℕ
by_distance e = e.distance_meters

module _ (unit bits scale : ℕ) (cos : LatLng → ℕ) (distance : LatLng → LatLng → ℕ) where
  -- The entry is the position of its id, with its distance from the center.
  abbrev pub IsEntry : GeohashIndex → LatLng → GeoIndexEntry → Type 0
  IsEntry index center e =
      (Map.get index.positions e.id ≡ some e.position)
      × (e.distance_meters ≡ distance center e.position)

  module _ (index : GeohashIndex) (center : LatLng) (radius : ℕ) where
    abbrev within : List ℕ → List GeoIndexEntry
    within ids = entries_within unit bits scale cos distance index.positions center radius ids

    entries-IsEntry :
        (ids : List ℕ)
        → All (λ e. IsEntry index center e × (e.distance_meters ≤ radius)) (within ids)
    unfolding entries_within
    entries-IsEntry [] = tt
    entries-IsEntry (id ∷ ids) = elim (Option-cases (Map.get index.positions id)) [
      | inl e ↦ rw (e, entries_within) (entries-IsEntry ids)
      | inr (p, e) ↦ elim (Bool-cases (leb (distance center p) radius)) [
        | inl g ↦ rw (e, entries_within, g) (((e, refl), ground (arith, g)), entries-IsEntry ids)
        | inr g ↦ rw (e, entries_within, g) (entries-IsEntry ids)
      ]
    ]

    any-within :
        (ids : List ℕ) (id : ℕ) (p : LatLng)
        → Map.get index.positions id ≡ some p
        → distance center p ≤ radius
        → KeySet.has ids id ≡ true
        → any (is_of id) (within ids) ≡ true
    unfolding entries_within any KeySet.has
    any-within [] id p e near h = h
    any-within (x ∷ ids) id p e near h = elim (Bool-cases (x == id)) [
      | inl g ↦
          let q : id ≡ x = ground (arith, g) in
          let here : Map.get index.positions x ≡ some p =
            subst (λ z. Map.get index.positions z ≡ some p) q e in
          let close : leb (distance center p) radius ≡ true = ground (arith, near) in
          rw (here, entries_within, close) (ground (arith, g))
      | inr g ↦
          let rest : any (is_of id) (within ids) ≡ true =
            any-within ids id p e near (ground (arith, g, h)) in
          elim (Option-cases (Map.get index.positions x)) [
            | inl f ↦ rw (f, entries_within) rest
            | inr (o, f) ↦ elim (Bool-cases (leb (distance center o) radius)) [
              | inl c ↦ rw (f, entries_within, c) (ground (arith, rest))
              | inr c ↦ rw (f, entries_within, c) rest
            ]
          ]
    ]

    -- An id is found as often as the candidates name it.
    count-within :
        (ids : List ℕ) (id : ℕ)
        → KeySet.IsDistinct ids
        → count (is_of id) (within ids) ≤ (if KeySet.has ids id then 1 else 0)
    unfolding entries_within count KeySet.has
    count-within [] id h = omega arith
    count-within (x ∷ ids) id h = elim (Option-cases (Map.get index.positions x)) [
      | inl e ↦ rw (e, entries_within) (ground (arith, count-within ids id h.1))
      | inr (p, e) ↦ elim (Bool-cases (leb (distance center p) radius)) [
        | inr g ↦ rw (e, entries_within, g) (ground (arith, count-within ids id h.1))
        | inl g ↦ elim (Bool-cases (x == id)) [
          | inr n ↦ rw (e, entries_within, g) (ground (arith, n, count-within ids id h.1))
          | inl n ↦
              let same : x ≡ id = ground (arith, n) in
              let out : KeySet.has ids id ≡ false =
                subst (λ z. KeySet.has ids z ≡ false) same h.0 in
              rw (e, entries_within, g) (ground (arith, n, out, count-within ids id h.1))
        ]
      ]
    ]

    -- The entries within the radius, each of them once, the nearest first.
    pub record IsExhaustive (found : List GeoIndexEntry) : Type 0 where
      pub sorted : IsSortedBy by_distance found
      pub entries : All (λ e. IsEntry index center e × (e.distance_meters ≤ radius)) found
      pub complete :
          (id : ℕ) (p : LatLng)
          → Map.get index.positions id ≡ some p
          → distance center p ≤ radius
          → any (is_of id) found ≡ true
      pub single : (id : ℕ) → count (is_of id) found ≤ 1

    abbrev all_found : List GeoIndexEntry
    all_found = radius_search unit bits scale cos distance index center radius none

    -- A radius search answers exactly the entries whose distance is at most the radius, each once, the nearest
    -- first, and a limit cuts that answer. The buckets must be those of the positions, the scale of the cosine
    -- positive, and every position of the index within the radius, whose cell is some rows and some columns
    -- from the center's, at least all but one of these rows away, and all but one of these columns, counted
    -- the shorter way around the globe and as wide as at the center.
    pub radius_search-IsExhaustive :
        IsIndexed (hash_at_bits unit bits) index
        → IsSpread unit bits scale cos distance index center radius
        → 0 < scale
        → IsExhaustive all_found
          × ((limit : ℕ)
              → radius_search unit bits scale cos distance index center radius (some limit)
                ≡ take all_found limit)
    unfolding radius_search limited scan_candidates
    radius_search-IsExhaustive v spread positive =
        let ids =
          scan_candidates unit bits scale index center
            (ring_count unit bits scale (cos center) radius) in
        (
          record {
            sorted = sort_by-IsSortedBy by_distance (within ids);
            entries =
                All-sort_by by_distance (λ e. IsEntry index center e × (e.distance_meters ≤ radius))
                  (within ids) (entries-IsEntry ids);
            complete = λ id p e near.
                any-sort_by by_distance (is_of id) (within ids)
                ∙ any-within ids id p e near (
                    scan_candidates-finds unit bits scale index center p
                      (ring_count unit bits scale (cos center) radius) id v e
                      (IsFarApart-IsScanned unit bits scale cos distance center p radius positive
                        near (spread id p e near)));
            single = λ id. ground (
              arith,
              count-sort_by by_distance (is_of id) (within ids),
              count-within ids id (
                  scan_rows-IsDistinct unit bits scale index.buckets (cell_of unit center bits)
                    (ring_count unit bits scale (cos center) radius)
                    (2 * ring_count unit bits scale (cos center) radius + 1) 0 [] tt),
            );
          },
          λ limit. refl,
        )
