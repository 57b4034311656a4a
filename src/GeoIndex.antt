-- ===== src/GeoIndex.antt =====
-- core/src/geo/geohash-index.ts: the buckets of the index. `hash_of` is the hash of a position at the index's
-- precision (`cellHash(cellOf(...))`), an argument here.
mod Tests
pub mod Buckets
pub mod Search
pub mod Candidates
pub mod Spread
pub mod Radius
pub mod Nearest
use ride_location_tracking_e.Common.{
  ℕ, Bool, true, false, ◌&&◌, Option, none, some, if◌then◌else◌, or_default, ◌==◌, [], List,
}
use ride_location_tracking_e.Common.KeySet
use ride_location_tracking_e.Common.KeySet.{KeySet}
use ride_location_tracking_e.Common.Map
use ride_location_tracking_e.Common.Map.{Map}
use ride_location_tracking_e.Domain.{LatLng}

pub record GeohashIndex : Type 0 where
  pub positions : Map LatLng
  pub buckets : Map KeySet
  pub id_to_hash : Map ℕ

-- `this.buckets.get(hash)?.delete(id)`
unfoldable pub drop_from : Map KeySet → ℕ → ℕ → Map KeySet
drop_from buckets hash id = elim (Map.get buckets hash) [
  | none ↦ buckets
  | some bucket ↦ Map.set buckets hash (KeySet.delete bucket id)
]

unfoldable pub put_in : Map KeySet → ℕ → ℕ → Map KeySet
put_in buckets hash id = Map.set buckets hash (KeySet.add (or_default (Map.get buckets hash) []) id)

-- The buckets once an entry of the old hash is out.
unfoldable pub leave_old : Map KeySet → Option ℕ → ℕ → ℕ → Map KeySet
leave_old buckets none hash id = buckets
leave_old buckets (some old) hash id = if old == hash then buckets else drop_from buckets old id

abbrev pub is_same : Option ℕ → ℕ → Bool
is_same none hash = false
is_same (some old) hash = old == hash

unfoldable pub upsert : (LatLng → ℕ) → GeohashIndex → ℕ → LatLng → GeohashIndex
upsert hash_of index id position =
    let hash = hash_of position in
    let old = Map.get index.id_to_hash id in
    let left = leave_old index.buckets old hash id in
    let positions = Map.set index.positions id position in
    if is_same old hash
    then record { positions = positions; buckets = left; id_to_hash = index.id_to_hash }
    else record {
      positions = positions;
      buckets = put_in left hash id;
      id_to_hash = Map.set index.id_to_hash id hash;
    }

-- The bucket without the id; it goes if it is empty.
unfoldable pub drop_and_clean : Map KeySet → ℕ → ℕ → Map KeySet
drop_and_clean buckets hash id = elim (Map.get buckets hash) [
  | none ↦ buckets
  | some bucket ↦
      if KeySet.is_empty (KeySet.delete bucket id)
      then Map.delete buckets hash
      else Map.set buckets hash (KeySet.delete bucket id)
]

unfoldable pub remove : GeohashIndex → ℕ → GeohashIndex
remove index id = elim (Map.get index.id_to_hash id) [
  | none ↦ index
  | some hash ↦ record {
    positions = Map.delete index.positions id;
    buckets = drop_and_clean index.buckets hash id;
    id_to_hash = Map.delete index.id_to_hash id;
  }
]
