-- ===== src/GeoIndex/Buckets.antt =====
-- Every id of the index is in the bucket of its position and in no other (core/src/geo/geohash-index.ts).
use ride_location_tracking_e.Common.{
  ℕ, ◌≡◌, Bool, ◌&&◌, ◌||◌, not, Option, none, some, List, [], ◌∷◌, or_default, ◌==◌, Bool-cases,
  Option-cases, inl, inr, arith, opt_is,
}
use ride_location_tracking_e.Common.KeySet
use ride_location_tracking_e.Common.KeySet.{KeySet, has-add, has-delete, has-empty, has-nil}
use ride_location_tracking_e.Common.Map
use ride_location_tracking_e.Common.Map.{Map, get-set, get-delete, get-empty}
use ride_location_tracking_e.Domain.{LatLng}
use ride_location_tracking_e.GeoIndex.{
  GeohashIndex, drop_from, put_in, leave_old, upsert, drop_and_clean, remove,
}

-- The id is in the bucket of that hash.
abbrev pub in_bucket : Map KeySet → ℕ → ℕ → Bool
in_bucket buckets hash id = KeySet.has (or_default (Map.get buckets hash) []) id

abbrev pub hash_at : (LatLng → ℕ) → Option LatLng → Option ℕ
hash_at hash_of none = none
hash_at hash_of (some p) = some (hash_of p)

pub record IsIndexed (hash_of : LatLng → ℕ) (index : GeohashIndex) : Type 0 where
  -- The bucket of an id's position holds it, and no other bucket does.
  pub bucketed :
      (id hash : ℕ) → in_bucket index.buckets hash id ≡ opt_is (Map.get index.id_to_hash id) hash
  pub hashed : (id : ℕ) → Map.get index.id_to_hash id ≡ hash_at hash_of (Map.get index.positions id)

in_bucket-drop_from :
    (buckets : Map KeySet) (hash id h j : ℕ)
    → in_bucket (drop_from buckets hash id) h j
      ≡ (in_bucket buckets h j && not (hash == h && id == j))
unfolding drop_from
in_bucket-drop_from buckets hash id h j = elim (Option-cases (Map.get buckets hash)) [
  | inl e ↦ rw (e, drop_from) (ground (arith, e, has-nil j))
  | inr (b, e) ↦
      rw (e, drop_from)
        (ground (arith, e, get-set buckets hash h (KeySet.delete b id), has-delete b id j))
]

in_bucket-put_in :
    (buckets : Map KeySet) (hash id h j : ℕ)
    → in_bucket (put_in buckets hash id) h j ≡ ((hash == h && id == j) || in_bucket buckets h j)
unfolding put_in
in_bucket-put_in buckets hash id h j = ground (
  arith,
  get-set buckets hash h (KeySet.add (or_default (Map.get buckets hash) []) id),
  has-add (or_default (Map.get buckets hash) []) id j,
)

in_bucket-drop_and_clean :
    (buckets : Map KeySet) (hash id h j : ℕ)
    → in_bucket (drop_and_clean buckets hash id) h j
      ≡ (in_bucket buckets h j && not (hash == h && id == j))
unfolding drop_and_clean
in_bucket-drop_and_clean buckets hash id h j = elim (Option-cases (Map.get buckets hash)) [
  | inl e ↦ rw (e, drop_and_clean) (ground (arith, e, has-nil j))
  | inr (b, e) ↦ elim (Bool-cases (KeySet.is_empty (KeySet.delete b id))) [
    | inl g ↦
        rw (e, drop_and_clean, g)
          (ground (
            arith,
            e,
            get-delete buckets hash h,
            has-delete b id j,
            has-nil j,
            has-empty (KeySet.delete b id) j g,
          ))
    | inr g ↦
        rw (e, drop_and_clean, g)
          (ground (arith, e, get-set buckets hash h (KeySet.delete b id), has-delete b id j))
  ]
]

module _ (hash_of : LatLng → ℕ) (index : GeohashIndex) (v : IsIndexed hash_of index) where
  pub upsert-IsIndexed : (id : ℕ) (p : LatLng) → IsIndexed hash_of (upsert hash_of index id p)
  unfolding upsert leave_old
  upsert-IsIndexed id p = elim (Option-cases (Map.get index.id_to_hash id)) [
    | inl e ↦
        rw (e, upsert, leave_old)
          (record {
            bucketed = λ j h. ground (
              arith,
              e,
              v.bucketed j h,
              in_bucket-put_in index.buckets (hash_of p) id h j,
              get-set index.id_to_hash id j (hash_of p),
            );
            hashed = λ j. ground (
              arith,
              v.hashed j,
              get-set index.id_to_hash id j (hash_of p),
              get-set index.positions id j p,
            );
          })
    | inr (old, e) ↦ elim (Bool-cases (old == hash_of p)) [
      | inl g ↦
          rw (e, upsert, leave_old, g)
            (record {
              bucketed = v.bucketed;
              hashed = λ j. ground (arith, e, g, v.hashed j, get-set index.positions id j p);
            })
      | inr g ↦
          rw (e, upsert, leave_old, g)
            (record {
              bucketed = λ j h. ground (
                arith,
                e,
                g,
                v.bucketed j h,
                in_bucket-put_in (drop_from index.buckets old id) (hash_of p) id h j,
                in_bucket-drop_from index.buckets old id h j,
                get-set index.id_to_hash id j (hash_of p),
              );
              hashed = λ j. ground (
                arith,
                v.hashed j,
                get-set index.id_to_hash id j (hash_of p),
                get-set index.positions id j p,
              );
            })
    ]
  ]

  pub remove-IsIndexed : (id : ℕ) → IsIndexed hash_of (remove index id)
  unfolding remove
  remove-IsIndexed id = elim (Option-cases (Map.get index.id_to_hash id)) [
    | inl e ↦ rw (e, remove) v
    | inr (hash, e) ↦
        rw (e, remove)
          (record {
            bucketed = λ j h. ground (
              arith,
              e,
              v.bucketed j h,
              in_bucket-drop_and_clean index.buckets hash id h j,
              get-delete index.id_to_hash id j,
            );
            hashed = λ j. ground (
              arith,
              v.hashed j,
              get-delete index.id_to_hash id j,
              get-delete index.positions id j,
            );
          })
  ]

pub data Call : Type 0 where
  upserted : ℕ → LatLng → Call
  removed : ℕ → Call

unfoldable pub perform : (LatLng → ℕ) → GeohashIndex → Call → GeohashIndex
perform hash_of index (upserted id p) = upsert hash_of index id p
perform hash_of index (removed id) = remove index id

unfoldable pub perform_all : (LatLng → ℕ) → GeohashIndex → List Call → GeohashIndex
perform_all hash_of index [] = index
perform_all hash_of index (c ∷ cs) = perform_all hash_of (perform hash_of index c) cs

abbrev pub no_entries : GeohashIndex
no_entries = record { positions = []; buckets = []; id_to_hash = [] }

perform_all-keeps :
    (hash_of : LatLng → ℕ) (index : GeohashIndex) (cs : List Call)
    → IsIndexed hash_of index
    → IsIndexed hash_of (perform_all hash_of index cs)
unfolding perform_all perform
perform_all-keeps hash_of index [] v = v
perform_all-keeps hash_of index (upserted id p ∷ cs) v =
    perform_all-keeps hash_of (upsert hash_of index id p) cs (upsert-IsIndexed hash_of index v id p)
perform_all-keeps hash_of index (removed id ∷ cs) v =
    perform_all-keeps hash_of (remove index id) cs (remove-IsIndexed hash_of index v id)

-- After any upserts and removals, an id with a position is in the bucket of that position's hash and in no
-- other, and an id without one is in none.
pub perform_all-IsIndexed :
    (hash_of : LatLng → ℕ) (cs : List Call) → IsIndexed hash_of (perform_all hash_of no_entries cs)
perform_all-IsIndexed hash_of cs = perform_all-keeps hash_of no_entries cs (record {
  bucketed = λ id h. ground (arith, get-empty {V = KeySet} h, get-empty {V = ℕ} id, has-nil id);
  hashed = λ id. ground (arith, get-empty {V = ℕ} id, get-empty {V = LatLng} id);
})
