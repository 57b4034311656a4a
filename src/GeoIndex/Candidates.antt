-- ===== src/GeoIndex/Candidates.antt =====
-- The scan finds every id whose position is in a scanned cell (core/src/geo/geohash-index.ts).
use ride_location_tracking_e.Common.{
  ℕ, zero, suc, ◌+◌, ◌-◌, ◌*◌, ◌%◌, ◌^◌, ◌≡◌, ◌≤◌, ◌<◌, sym, ◌∙◌, subst, Bool, true, ◌||◌, some,
  List, [], ◌∷◌, ◌==◌, Bool-cases, Option-cases, inl, inr, arith, for_each, for_each_inv,
}
use ride_location_tracking_e.Common.KeySet
use ride_location_tracking_e.Common.KeySet.{KeySet, has-add, has-nil, add-IsDistinct}
use ride_location_tracking_e.Common.Map
use ride_location_tracking_e.Common.Map.{Map}
use ride_location_tracking_e.Domain.{LatLng}
use native.Mathlib.Nat.{add-mod_right, mod-mod}
use ride_location_tracking_e.Common.Int.{pos, ◌+ℤ◌, ◌-ℤ◌}
use ride_location_tracking_e.Geohash.{bit_split, js_rem, GridCell, cell_of, cell_hash}
use ride_location_tracking_e.GeoIndex.{GeohashIndex}
use ride_location_tracking_e.GeoIndex.Buckets.{IsIndexed, in_bucket}
use ride_location_tracking_e.GeoIndex.Search.{
  add_bucket, scan_cols, scan_row, scan_rows, scan_candidates, col_at, has_row,
}

-- The hash of a position at the index's precision.
abbrev pub hash_at_bits : ℕ → ℕ → LatLng → ℕ
hash_at_bits unit bits p = cell_hash (cell_of unit p bits) bits

has-for_each-add :
    (b : List ℕ) (c : KeySet) (x : ℕ)
    → KeySet.has (for_each b KeySet.add c) x ≡ (KeySet.has b x || KeySet.has c x)
unfolding for_each KeySet.has
has-for_each-add [] c x = ground arith
has-for_each-add (y ∷ b) c x = has-for_each-add b (KeySet.add c y) x ∙ ground (arith, has-add c y x)

module _ (unit bits scale : ℕ) where
  has-add_bucket :
      (buckets : Map KeySet) (c : KeySet) (hash x : ℕ)
      → KeySet.has (add_bucket unit bits scale buckets c hash) x
        ≡ (in_bucket buckets hash x || KeySet.has c x)
  unfolding add_bucket
  has-add_bucket buckets c hash x = elim (Option-cases (Map.get buckets hash)) [
    | inl e ↦ rw (e, add_bucket) (ground (arith, e, has-nil x))
    | inr (b, e) ↦ rw (e, add_bucket) (ground (arith, e, has-for_each-add b c x))
  ]

  module _ (buckets : Map KeySet) (center : GridCell) (ring x : ℕ) where
    scan_cols-keeps :
        (row n j : ℕ) (c : KeySet)
        → KeySet.has c x ≡ true
        → KeySet.has (scan_cols unit bits scale buckets center ring row n j c) x ≡ true
    unfolding scan_cols
    scan_cols-keeps row zero j c h = h
    scan_cols-keeps row (suc n) j c h = scan_cols-keeps row n (j + 1) _ (
        ground (
          arith,
          h,
          has-add_bucket buckets c
              (cell_hash (record { row = row; col = col_at unit bits scale center ring j }) bits) x,
        ))

    abbrev hits : ℕ → ℕ → Bool
    hits row j =
        in_bucket buckets
          (cell_hash (record { row = row; col = col_at unit bits scale center ring j }) bits) x

    scan_cols-finds :
        (row n j m : ℕ) (c : KeySet)
        → j ≤ m
        → m < j + n
        → hits row m ≡ true
        → KeySet.has (scan_cols unit bits scale buckets center ring row n j c) x ≡ true
    unfolding scan_cols
    scan_cols-finds row zero j m c lo hi e = ground arith
    scan_cols-finds row (suc n) j m c lo hi e = elim (Bool-cases (j == m)) [
      | inl g ↦
          let q : m ≡ j = ground (arith, g) in
          let e' : hits row j ≡ true = subst (λ z. hits row z ≡ true) q e in
          scan_cols-keeps row n (j + 1) _ (
            ground (
              arith,
              e',
              has-add_bucket buckets c
                  (cell_hash (record { row = row; col = col_at unit bits scale center ring j })
                    bits)
                  x,
            ))
      | inr g ↦ scan_cols-finds row n (j + 1) m _ (ground (arith, g)) (omega arith) e
    ]

    scan_row-keeps :
        (i : ℕ) (c : KeySet)
        → KeySet.has c x ≡ true
        → KeySet.has (scan_row unit bits scale buckets center ring i c) x ≡ true
    unfolding scan_row
    scan_row-keeps i c h = elim (Bool-cases (has_row unit bits scale center ring i)) [
      | inl g ↦ rw (g, scan_row) (scan_cols-keeps (center.row + i - ring) (2 * ring + 1) 0 c h)
      | inr g ↦ rw (g, scan_row) h
    ]

    scan_rows-keeps :
        (n i : ℕ) (c : KeySet)
        → KeySet.has c x ≡ true
        → KeySet.has (scan_rows unit bits scale buckets center ring n i c) x ≡ true
    unfolding scan_rows
    scan_rows-keeps zero i c h = h
    scan_rows-keeps (suc n) i c h = scan_rows-keeps n (i + 1) _ (scan_row-keeps i c h)

    scan_rows-finds :
        (n i m j : ℕ) (c : KeySet)
        → i ≤ m
        → m < i + n
        → j ≤ 2 * ring
        → has_row unit bits scale center ring m ≡ true
        → hits (center.row + m - ring) j ≡ true
        → KeySet.has (scan_rows unit bits scale buckets center ring n i c) x ≡ true
    unfolding scan_rows scan_row
    scan_rows-finds zero i m j c lo hi in_cols on e = ground arith
    scan_rows-finds (suc n) i m j c lo hi in_cols on e = elim (Bool-cases (i == m)) [
      | inl g ↦
          let q : i ≡ m = ground (arith, g) in
          scan_rows-keeps n (i + 1) _ (
            subst (λ z. KeySet.has (scan_row unit bits scale buckets center ring z c) x ≡ true)
              (sym q)
              (rw (on, scan_row)
                (scan_cols-finds (center.row + m - ring) (2 * ring + 1) 0 j c (omega arith)
                  (omega arith) e)))
      | inr g ↦ scan_rows-finds n (i + 1) m j _ (ground (arith, g)) (omega arith) in_cols on e
    ]

  -- The cell is at most `ring` rows and columns from the center's, the columns counted around the globe.
  pub record IsScanned (center : GridCell) (ring : ℕ) (cell : GridCell) : Type 0 where
    pub row_offset : ℕ
    pub col_offset : ℕ
    pub row_near : row_offset ≤ 2 * ring
    pub col_near : col_offset ≤ 2 * ring
    pub on_grid : has_row unit bits scale center ring row_offset ≡ true
    pub there : cell ≡ record {
      row = center.row + row_offset - ring;
      col = col_at unit bits scale center ring col_offset;
    }

  pub scan_candidates-finds :
      (index : GeohashIndex) (center p : LatLng) (ring id : ℕ)
      → IsIndexed (hash_at_bits unit bits) index
      → Map.get index.positions id ≡ some p
      → IsScanned (cell_of unit center bits) ring (cell_of unit p bits)
      → KeySet.has (scan_candidates unit bits scale index center ring) id ≡ true
  unfolding scan_candidates
  scan_candidates-finds index center p ring id v e s =
      let there : in_bucket index.buckets (hash_at_bits unit bits p) id ≡ true =
        ground (arith, v.bucketed id (hash_at_bits unit bits p), v.hashed id, e) in
      scan_rows-finds index.buckets (cell_of unit center bits) ring id (2 * ring + 1) 0 s.row_offset
        s.col_offset [] (omega arith) (omega (arith, s.row_near)) s.col_near s.on_grid
        (subst (λ cell. in_bucket index.buckets (cell_hash cell bits) id ≡ true) s.there there)

module _ (unit bits scale : ℕ) (buckets : Map KeySet) (center : GridCell) (ring : ℕ) where
  add_bucket-IsDistinct :
      (c : KeySet) (hash : ℕ)
      → KeySet.IsDistinct c
      → KeySet.IsDistinct (add_bucket unit bits scale buckets c hash)
  unfolding add_bucket
  add_bucket-IsDistinct c hash h = elim (Option-cases (Map.get buckets hash)) [
    | inl e ↦ rw (e, add_bucket) h
    | inr (b, e) ↦
        rw (e, add_bucket) (for_each_inv KeySet.IsDistinct b KeySet.add add-IsDistinct c h)
  ]

  scan_cols-IsDistinct :
      (row n j : ℕ) (c : KeySet)
      → KeySet.IsDistinct c
      → KeySet.IsDistinct (scan_cols unit bits scale buckets center ring row n j c)
  unfolding scan_cols
  scan_cols-IsDistinct row zero j c h = h
  scan_cols-IsDistinct row (suc n) j c h =
      scan_cols-IsDistinct row n (j + 1) _ (add_bucket-IsDistinct c _ h)

  scan_row-IsDistinct :
      (i : ℕ) (c : KeySet)
      → KeySet.IsDistinct c
      → KeySet.IsDistinct (scan_row unit bits scale buckets center ring i c)
  unfolding scan_row
  scan_row-IsDistinct i c h = elim (Bool-cases (has_row unit bits scale center ring i)) [
    | inl g ↦ rw (g, scan_row) (scan_cols-IsDistinct (center.row + i - ring) (2 * ring + 1) 0 c h)
    | inr g ↦ rw (g, scan_row) h
  ]

  -- The candidates are a set, however many buckets name an id.
  pub scan_rows-IsDistinct :
      (n i : ℕ) (c : KeySet)
      → KeySet.IsDistinct c
      → KeySet.IsDistinct (scan_rows unit bits scale buckets center ring n i c)
  unfolding scan_rows
  scan_rows-IsDistinct zero i c h = h
  scan_rows-IsDistinct (suc n) i c h = scan_rows-IsDistinct n (i + 1) _ (scan_row-IsDistinct i c h)

back_west : (a r east : ℕ) → pos (a + (r + east)) -ℤ pos r ≡ pos (a + east)
unfolding ◌-ℤ◌
back_west a r east = ground arith

plus_pos : (a b : ℕ) → pos a +ℤ pos b ≡ pos (a + b)
unfolding ◌+ℤ◌
plus_pos a b = ground arith

-- A column at most `ring` to the east, around the globe.
pub col_at-east :
    (unit bits scale : ℕ) (center : GridCell) (ring east : ℕ)
    → col_at unit bits scale center ring (ring + east)
      ≡ (center.col + east) % 2 ^ (bit_split bits).lng_bits
unfolding col_at js_rem
col_at-east unit bits scale center ring east =
    let count = 2 ^ (bit_split bits).lng_bits in
    let n = center.col + east in
    rw (back_west center.col ring east, js_rem, plus_pos (n % count) count)
      (add-mod_right (n % count) count ∙ mod-mod n count)
