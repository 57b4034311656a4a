-- ===== src/Batch/OneByOne.antt =====
-- A batch against writing each update as it comes (core/src/ws/location-batch.ts).
use ride_location_tracking_e.Common.{
  ℕ, ◌≡◌, refl, sym, ◌∙◌, Bool-cases, inl, inr, Option, none, some, List, [], ◌∷◌, ◌==◌,
}
use ride_location_tracking_e.Common.Map
use ride_location_tracking_e.Common.Map.{Map, IsDistinct, get-set, get-empty, set-IsDistinct}
use ride_location_tracking_e.Database.{
  Db, Driver, set_location, update_driver_location, batch_update_locations,
}
use ride_location_tracking_e.Batch.{PendingUpdate, positions_of}
use ride_location_tracking_e.Batch.Writes.{moved, get-update_driver_location, get-batch_update}
use ride_location_tracking_e.Batch.Flush.{Event, update, tick, enqueued}

pub enqueued-IsDistinct :
    (events : List Event) (pending : Map PendingUpdate)
    → IsDistinct pending
    → IsDistinct (enqueued pending events)
unfolding enqueued
enqueued-IsDistinct [] pending h = h
enqueued-IsDistinct (update id u ∷ events) pending h =
    enqueued-IsDistinct events (Map.set pending id u) (set-IsDistinct pending id u h)
enqueued-IsDistinct (tick ∷ events) pending h = enqueued-IsDistinct events pending h

-- Each update written at once.
pub write_each : Db → ℕ → List Event → Db
write_each db now [] = db
write_each db now (update id u ∷ events) =
    write_each (update_driver_location db now id u.position) now events
write_each db now (tick ∷ events) = write_each db now events

-- Of two moves of a row the later one counts.
moved_twice :
    (now : ℕ) (o : Option PendingUpdate) (u : PendingUpdate) (row : Option Driver)
    → moved now (some u) (moved now o row) ≡ moved now (some u) row
unfolding set_location
moved_twice now none u row = refl
moved_twice now (some v) u none = refl
moved_twice now (some v) u (some d) = refl

same :
    (now : ℕ) (u : PendingUpdate) (row : Option Driver)
    → moved now (some (record { position = u.position; timestamp = 0 })) row
      ≡ moved now (some u) row
same now u none = refl
same now u (some d) = refl

written :
    (first db : Db) (pending : Map PendingUpdate) (now id j : ℕ) (u : PendingUpdate)
    → Map.get db.drivers j ≡ moved now (Map.get pending j) (Map.get first.drivers j)
    → Map.get (update_driver_location db now id u.position).drivers j
      ≡ moved now (Map.get (Map.set pending id u) j) (Map.get first.drivers j)
written first db pending now id j u h = elim (Bool-cases (id == j)) [
  | inl e ↦
      get-update_driver_location db now id j u.position
      ∙ rw (get-set pending id j u, e, h)
          (moved_twice now (Map.get pending j) (record { position = u.position; timestamp = 0 })
              (Map.get first.drivers j)
            ∙ same now u (Map.get first.drivers j))
  | inr e ↦ get-update_driver_location db now id j u.position ∙ rw (get-set pending id j u, e) h
]

get-write_each :
    (events : List Event) (first db : Db) (pending : Map PendingUpdate) (now j : ℕ)
    → Map.get db.drivers j ≡ moved now (Map.get pending j) (Map.get first.drivers j)
    → Map.get (write_each db now events).drivers j
      ≡ moved now (Map.get (enqueued pending events) j) (Map.get first.drivers j)
unfolding write_each enqueued
get-write_each [] first db pending now j h = h
get-write_each (update id u ∷ events) first db pending now j h =
    get-write_each events first (update_driver_location db now id u.position) (Map.set pending id u)
      now j (written first db pending now id j u h)
get-write_each (tick ∷ events) first db pending now j h =
    get-write_each events first db pending now j h

-- The batched UPDATE leaves every driver's row as it would be if each update had been written as it came, at the
-- same time: of several updates of a driver, the last one counts.
pub batch-eq-write_each :
    (events : List Event) (db : Db) (now j : ℕ)
    → Map.get (batch_update_locations db now (positions_of (enqueued [] events))).drivers j
      ≡ Map.get (write_each db now events).drivers j
batch-eq-write_each events db now j =
    get-batch_update (enqueued [] events) db now j (enqueued-IsDistinct events [] tt)
    ∙ sym (get-write_each events db db [] now j (rw (get-empty {V = PendingUpdate} j) refl))
