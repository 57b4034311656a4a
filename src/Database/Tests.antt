-- ===== src/Database/Tests.antt =====
-- The theorems on the tables at two trips and two drivers (core/src/repositories/trips.repository.ts).
use ride_location_tracking_e.Common.{
  ℕ, ◌≡◌, refl, Bool, true, false, Option, none, some, List, [], ◌∷◌, arith,
}
use ride_location_tracking_e.Common.Int.{pos}
use ride_location_tracking_e.Domain.{LatLng, online}
use ride_location_tracking_e.Database.{
  Db, insert_trip, insert_driver, CreateTripInput, CreateDriverInput, empty_db, try_finalize_match,
  update_driver_status, no_drivers_available,
}
use ride_location_tracking_e.Database.Booking.{
  Statement, create_trip, create_driver, finalize, give_up, set_driver_status, move_driver, evict,
  holds, execute_all, IsBooked, no_double_booking,
}
use ride_location_tracking_e.Database.Rebooking.{booked_twice}

abbrev home : LatLng
home = record { lat = pos 47; lng = pos 8 }

abbrev ride : CreateTripInput
ride = record { rider_id = 1; pickup = home; dropoff = home }

abbrev ada : CreateDriverInput
ada = record { name = "Ada"; vehicle = "van"; status = some online; location = some home }

-- Two trips want driver 5: the second is not given the driver, and is cancelled.
abbrev day : List Statement
day =
    create_driver 5 10 ada
    ∷ create_trip 1 11 ride
    ∷ create_trip 2 12 ride
    ∷ finalize 20 1 5
    ∷ finalize 21 2 5
    ∷ move_driver 22 5 home
    ∷ give_up 2 no_drivers_available
    ∷ evict 30 5
    ∷ []

no_double_booking_example : IsBooked (execute_all empty_db day)
unfolding ride_location_tracking_e.Common.Map.get empty_db
    ride_location_tracking_e.Database.Booking.execute insert_driver insert_trip
    ride_location_tracking_e.Common.Map.set
no_double_booking_example =
    no_double_booking day (refl, (refl, (refl, (tt, (tt, (tt, (tt, (tt, tt))))))))

abbrev on_trip : Db
on_trip =
    (try_finalize_match
      (insert_trip (insert_trip (insert_driver empty_db 5 10 ada) 1 11 ride) 2 12 ride) 20 1 5).0

booked_twice_example :
    (holds (try_finalize_match (update_driver_status on_trip 25 5 online) 26 2 5).0 1 5 ≡ true)
    × (holds (try_finalize_match (update_driver_status on_trip 25 5 online) 26 2 5).0 2 5 ≡ true)
unfolding ride_location_tracking_e.Common.Map.get try_finalize_match
    ride_location_tracking_e.Database.can_take insert_trip ride_location_tracking_e.Common.Map.set
    insert_driver empty_db ride_location_tracking_e.Database.can_drive
    ride_location_tracking_e.Database.update_row ride_location_tracking_e.Database.take_trip
booked_twice_example = booked_twice on_trip 1 2 5 25 26 refl refl refl
