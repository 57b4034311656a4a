-- ===== src/DriverOffer/Tests.antt =====
-- The theorem on the driver's offer screen at one offer (frontend/src/hooks/driverOfferReducer.ts).
use ride_location_tracking_e.Common.{some, List, [], ◌∷◌}
use ride_location_tracking_e.Common.Int.{pos}
use ride_location_tracking_e.Domain.{LatLng}
use ride_location_tracking_e.DriverOffer.{
  DriverOfferEvent, message, trip_offer, trip_matched, accept, deadline_elapsed, grace_elapsed,
}
use ride_location_tracking_e.DriverOffer.Flow.{Shown, run, start, run-Shown}

abbrev home : LatLng
home = record { lat = pos 47; lng = pos 8 }

abbrev shift : List DriverOfferEvent
shift =
    message (trip_offer (some 7) (some 15000) (some home) (some home)) 100
    ∷ accept
    ∷ deadline_elapsed
    ∷ message (trip_matched (some 7)) 15050
    ∷ grace_elapsed
    ∷ []

run-Shown_example : Shown (run start shift) (run start shift).phase
run-Shown_example = run-Shown shift
