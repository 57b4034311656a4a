-- ===== src/TripOffers/Tests.antt =====
-- The theorem on waits at two of them for one trip (core/src/ws/trip-offers.ts).
use ride_location_tracking_e.Common.{refl, true, List, [], ◌∷◌}
use ride_location_tracking_e.Common.KeySet
use ride_location_tracking_e.Common.Map
use ride_location_tracking_e.TripOffers.{
  wait_for_driver_response, handle_driver_response, on_timeout,
}
use ride_location_tracking_e.TripOffers.Waits.{
  Event, wait, timeout, respond, step, step_all, start, AllAllowed, IsLive, step_all-IsLive,
}

abbrev two_waits : List Event
two_waits = wait 1 9 ∷ wait 2 9 ∷ respond 9 true ∷ timeout 1 9 ∷ respond 9 true ∷ []

two_waits-AllAllowed : AllAllowed start two_waits
unfolding step wait_for_driver_response handle_driver_response on_timeout KeySet.has KeySet.add
    Map.get Map.set Map.delete
two_waits-AllAllowed = (refl, (refl, (tt, (refl, (tt, tt)))))

step_all-IsLive_example : IsLive (step_all start two_waits)
step_all-IsLive_example = step_all-IsLive two_waits two_waits-AllAllowed
