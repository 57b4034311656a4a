-- ===== src/SubscribeRoute/Tests.antt =====
-- A trip, two sockets, and the theorems on the subscribe route there (core/src/routes/ws.ts).
use ride_location_tracking_e.Common.{
  ℕ, ◌≡◌, refl, Bool, true, false, none, some, [], ◌∷◌, ◌++◌, for_each,
}
use ride_location_tracking_e.Common.Map
use ride_location_tracking_e.Common.Int.{pos}
use ride_location_tracking_e.Domain.{LatLng, online}
use ride_location_tracking_e.Database
use ride_location_tracking_e.Database.{
  Db, insert_trip, insert_driver, CreateTripInput, CreateDriverInput, try_finalize_match,
}
use ride_location_tracking_e.Database.Booking.{holds}
use ride_location_tracking_e.Subscriptions.{init, OutMessage, RawDriverLocationUpdate}
use ride_location_tracking_e.Subscriptions.Index.{member}
use ride_location_tracking_e.Subscriptions.Calls.{subscribe_trip, perform_all, perform_all-init-Inv}
use ride_location_tracking_e.Subscriptions.Follows.{follows}
use ride_location_tracking_e.SubscribeRoute.{
  Route, ClientSubscriptionMessage, subscribe, message, subscribed_to_trip,
}
use ride_location_tracking_e.SubscribeRoute.Answers.{
  expected, handled, IsAnswered, frame-IsAnswered,
}
use ride_location_tracking_e.SubscribeRoute.Late.{broadcast, resumed, missed_match}

abbrev all_open : ℕ → Bool
all_open s = true

abbrev any_size : OutMessage → ℕ
any_size m = 90

abbrev home : LatLng
home = record { lat = pos 47; lng = pos 8 }

abbrev tables : Db
tables =
    insert_trip
      (insert_driver (record { trips = []; drivers = [] }) 7 10
        (record { name = "Ada"; vehicle = "van"; status = some online; location = some home }))
      50 11 (record { rider_id = 1; pickup = home; dropoff = home })

-- Socket 3 waits for the driver of trip 40.
abbrev route : Route
route = record {
  sockets = record { connections = []; throttles = []; tracked = []; ended = [] };
  registry = perform_all all_open any_size 10 init (subscribe_trip 3 40 none ∷ []);
  replies = [];
}

abbrev follow_trip : ClientSubscriptionMessage
follow_trip = record { kind = subscribe; driver_id = none; trip_id = some 50 }

frame-IsAnswered_example :
    IsAnswered all_open route 3
      (expected tables (message follow_trip))
      (handled all_open route 3 (message follow_trip) tables)
frame-IsAnswered_example =
    frame-IsAnswered all_open route 3 (message follow_trip) tables
      (perform_all-init-Inv all_open any_size 10 (subscribe_trip 3 40 none ∷ []))

abbrev after_match : Route
after_match = resumed all_open route 3 50 7 tables

abbrev driven : ℕ × RawDriverLocationUpdate
driven = (
  7,
  record { position = home; meta = record { driver_id = 7; timestamp = 30; status = online } },
)

missed_match_example :
    (holds (try_finalize_match tables 20 50 7).0 50 7 ≡ true)
    × (follows after_match.registry 3 ≡ some (none, some 50))
    × (after_match.replies ≡ route.replies ++ (3, subscribed_to_trip 50 none) ∷ [])
    × ((j driver : ℕ)
        → Map.get after_match.registry.by_socket 3 ≡ some j
        → member
            (for_each (driven ∷ []) (broadcast all_open any_size 10) after_match.registry).by_driver
            driver
            j
          ≡ false)
unfolding try_finalize_match Database.can_take Database.can_drive Map.get Map.set insert_trip
    insert_driver
missed_match_example =
    missed_match all_open route 3 50 7 20 tables
      (perform_all-init-Inv all_open any_size 10 (subscribe_trip 3 40 none ∷ [])) refl any_size 10
      (driven ∷ []) refl
