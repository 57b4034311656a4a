-- ===== src/Database/Rebooking.antt =====
-- What a status update to 'online' does to a driver who is on a trip: core/src/services/drivers.service.ts
-- allows busy -> online, and core/src/repositories/trips.repository.ts then takes the driver again.
use ride_location_tracking_e.Common.{ℕ, ◌≡◌, true, arith, is_some}
use ride_location_tracking_e.Common.Map
use ride_location_tracking_e.Domain.{online}
use ride_location_tracking_e.Database.{
  Db, try_finalize_match, update_driver_status, can_take, can_drive, take_trip, set_status,
}
use ride_location_tracking_e.Database.Booking.{holds, get-update_row}

-- A driver who is on an active trip and is put online is matched to a second trip, and is on both.
pub booked_twice :
    (db : Db) (t u d now later : ℕ)
    → holds db t d ≡ true
    → can_take (Map.get db.trips u) ≡ true
    → is_some (Map.get db.drivers d) ≡ true
    → (holds (try_finalize_match (update_driver_status db now d online) later u d).0 t d ≡ true)
      × (holds (try_finalize_match (update_driver_status db now d online) later u d).0 u d ≡ true)
unfolding try_finalize_match update_driver_status can_take can_drive take_trip set_status
booked_twice db t u d now later h c e = (
  ground (
    arith,
    h,
    c,
    e,
    get-update_row db.drivers d d (set_status online now),
    get-update_row db.trips u t (take_trip d later),
    get-update_row db.trips u u (take_trip d later),
  ),
  ground (
    arith,
    h,
    c,
    e,
    get-update_row db.drivers d d (set_status online now),
    get-update_row db.trips u u (take_trip d later),
  ),
)
