-- ===== src/Batch/Writes.antt =====
-- What the stores hold after each awaited call of a flush (core/src/ws/location-batch.ts).
use ride_location_tracking_e.Common.{
  ℕ, ◌≡◌, refl, ◌∙◌, Option, none, some, List, [], ◌∷◌, arith, ◌==◌, if◌then◌else◌, for_each,
  Option-cases, inl, inr,
}
use ride_location_tracking_e.Common.Map
use ride_location_tracking_e.Common.Map.{Map, IsDistinct, get-set, get-empty}
use ride_location_tracking_e.Domain.{LatLng}
use ride_location_tracking_e.Database.{
  Db, Driver, set_location, update_row, update_driver_location, batch_update_locations,
}
use ride_location_tracking_e.Live.{
  Live, DriverState, upsert_driver_location, upsert_driver_locations_batch, first_since, since_of,
}
use ride_location_tracking_e.Batch.{
  PendingUpdate, Snapshot, positions_of, driver_by_id, geo_entries,
}

-- The row with the new position.
abbrev pub moved : ℕ → Option PendingUpdate → Option Driver → Option Driver
moved now none row = row
moved now (some u) none = none
moved now (some u) (some d) = some (set_location u.position now d)

pub get-update_driver_location :
    (db : Db) (now id j : ℕ) (p : LatLng)
    → Map.get (update_driver_location db now id p).drivers j ≡ (
        if id == j
        then moved now (some (record { position = p; timestamp = 0 })) (Map.get db.drivers j)
        else Map.get db.drivers j)
unfolding update_driver_location update_row set_location
get-update_driver_location db now id j p = elim (Option-cases (Map.get db.drivers id)) [
  | inl e ↦ rw (update_driver_location, update_row, e) (ground (arith, e))
  | inr (d, e) ↦
      rw (update_driver_location, update_row, e)
        (ground (arith, e, get-set db.drivers id j (set_location p now d)))
]

-- After the UPDATE, exactly the rows of the batch have moved.
pub get-batch_update :
    (snapshot : Snapshot) (db : Db) (now j : ℕ)
    → IsDistinct snapshot
    → Map.get (batch_update_locations db now (positions_of snapshot)).drivers j
      ≡ moved now (Map.get snapshot j) (Map.get db.drivers j)
unfolding batch_update_locations positions_of for_each Map.get
get-batch_update [] db now j h = refl
get-batch_update ((id, u) ∷ rest) db now j h =
    get-batch_update rest (update_driver_location db now id u.position) now j h.1
    ∙ ground (arith, h.0, get-update_driver_location db now id j u.position)

pub trips-batch_update :
    (entries : List (ℕ × LatLng)) (db : Db) (now : ℕ)
    → (batch_update_locations db now entries).trips ≡ db.trips
unfolding batch_update_locations for_each update_driver_location
trips-batch_update [] db now = refl
trips-batch_update (e ∷ es) db now =
    trips-batch_update es (update_driver_location db now e.0 e.1) now

-- The rows that the UPDATE returns, by id.
abbrev pub kept : Option PendingUpdate → Option Driver → Option Driver
kept none row = none
kept (some u) row = row

pub get-driver_by_id :
    (db : Db) (snapshot : Snapshot) (j : ℕ)
    → Map.get (driver_by_id db snapshot) j ≡ kept (Map.get snapshot j) (Map.get db.drivers j)
unfolding driver_by_id Map.get
get-driver_by_id db [] j = refl
get-driver_by_id db ((id, u) ∷ rest) j = elim (Option-cases (Map.get db.drivers id)) [
  | inl e ↦ rw (driver_by_id, e) (ground (arith, e, get-driver_by_id db rest j))
  | inr (d, e) ↦ rw (driver_by_id, e) (ground (arith, e, get-driver_by_id db rest j))
]

-- What Redis holds of a driver after the pipeline.
abbrev pub placed : Option PendingUpdate → Option Driver → Option LatLng → Option LatLng
placed none row old = old
placed (some u) none old = old
placed (some u) (some d) old = some u.position

abbrev pub refreshed :
    ℕ → Option PendingUpdate → Option Driver → Option DriverState → Option DriverState
refreshed now none row old = old
refreshed now (some u) none old = old
refreshed now (some u) (some d) old = some (record {
  status = d.status;
  last_updated_at_ms = now;
  online_since_ms = first_since (since_of old) now;
})

module _ (drivers : Map Driver) (now : ℕ) where
  pub geo-upsert_batch :
      (snapshot : Snapshot) (live : Live) (j : ℕ)
      → IsDistinct snapshot
      → Map.get (upsert_driver_locations_batch live now (geo_entries drivers snapshot)).geo j
        ≡ placed (Map.get snapshot j) (Map.get drivers j) (Map.get live.geo j)
  unfolding upsert_driver_locations_batch geo_entries for_each Map.get upsert_driver_location
  geo-upsert_batch [] live j h = refl
  geo-upsert_batch ((id, u) ∷ rest) live j h = elim (Option-cases (Map.get drivers id)) [
    | inl e ↦ rw (geo_entries, e) (geo-upsert_batch rest live j h.1 ∙ ground (arith, h.0, e))
    | inr (d, e) ↦
        rw (geo_entries, e)
          (geo-upsert_batch rest (upsert_driver_location live now id u.position d.status) j h.1
            ∙ ground (arith, h.0, e, get-set live.geo id j u.position))
  ]

  pub states-upsert_batch :
      (snapshot : Snapshot) (live : Live) (j : ℕ)
      → IsDistinct snapshot
      → Map.get (upsert_driver_locations_batch live now (geo_entries drivers snapshot)).states j
        ≡ refreshed now (Map.get snapshot j) (Map.get drivers j) (Map.get live.states j)
  unfolding upsert_driver_locations_batch geo_entries for_each Map.get upsert_driver_location
  states-upsert_batch [] live j h = refl
  states-upsert_batch ((id, u) ∷ rest) live j h = elim (Option-cases (Map.get drivers id)) [
    | inl e ↦ rw (geo_entries, e) (states-upsert_batch rest live j h.1 ∙ ground (arith, h.0, e))
    | inr (d, e) ↦
        rw (geo_entries, e)
          (states-upsert_batch rest (upsert_driver_location live now id u.position d.status) j h.1
            ∙ ground (
              arith,
              h.0,
              e,
              get-set live.states id j (record {
                status = d.status;
                last_updated_at_ms = now;
                online_since_ms = first_since (since_of (Map.get live.states id)) now;
              }),
            ))
  ]

-- What Redis gets depends on the row alone.
pub placed-kept :
    (o : Option PendingUpdate) (row : Option Driver) (old : Option LatLng)
    → placed o (kept o row) old ≡ placed o row old
placed-kept none row old = refl
placed-kept (some u) row old = refl

pub refreshed-kept :
    (now : ℕ) (o : Option PendingUpdate) (row : Option Driver) (old : Option DriverState)
    → refreshed now o (kept o row) old ≡ refreshed now o row old
refreshed-kept now none row old = refl
refreshed-kept now (some u) row old = refl
