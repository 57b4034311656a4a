-- ===== src/Subscriptions/Tests.antt =====
-- Histories of the subscription registry, and the theorems at them.
use ride_location_tracking_e.Common.{ℕ, ◌≡◌, refl, Bool, true, false, none, List, [], ◌∷◌}
use ride_location_tracking_e.Common.Map
use ride_location_tracking_e.Common.KeySet
use ride_location_tracking_e.Common.Int.{pos, negsuc}
use ride_location_tracking_e.Domain.{online}
use ride_location_tracking_e.Subscriptions.{
  Registry, OutMessage, RawDriverLocationUpdate, init, trip_cancelled, notify_trip_status_changed,
  detach, attach, subscribe_to_driver, subscribe_to_trip, replace_existing,
  get_driver_subscriber_count,
}
use ride_location_tracking_e.Subscriptions.Index.{
  member, add_to_index, remove_from_index, add_if_keyed, remove_if_keyed, emptied,
}
use ride_location_tracking_e.Subscriptions.Invariant.{Inv}
use ride_location_tracking_e.Subscriptions.Calls.{
  Call, subscribe_driver, subscribe_trip, perform, perform_all, perform_all-init-Inv,
}
use ride_location_tracking_e.Subscriptions.Endings.{unless_on_trip, ended_unsubscribed}

abbrev all_open : ℕ → Bool
all_open s = true

abbrev any_size : OutMessage → ℕ
any_size m = 90

-- Socket 1 waits for a driver on trip 50, socket 2 watches driver 7, and socket 3 moves from the one
-- to the other.
abbrev history : List Call
history =
    subscribe_trip 1 50 none
    ∷ subscribe_driver 2 7
    ∷ subscribe_trip 3 50 none
    ∷ subscribe_driver 3 7
    ∷ []

abbrev update : RawDriverLocationUpdate
update = record {
  position = record { lat = pos 37; lng = negsuc 121 };
  meta = record { driver_id = 7; timestamp = 10; status = online };
}

abbrev busy_registry : Registry
busy_registry = perform_all all_open any_size 10 init history

-- Two sockets watch driver 7 then.
two_watch : get_driver_subscriber_count busy_registry 7 ≡ 2
unfolding perform_all perform init subscribe_to_driver subscribe_to_trip replace_existing attach
    detach get_driver_subscriber_count add_to_index remove_from_index add_if_keyed remove_if_keyed
    emptied Map.get Map.set Map.delete KeySet.add KeySet.delete KeySet.is_empty
two_watch = refl

waits : member busy_registry.by_trip 50 0 ≡ true
unfolding perform_all perform init subscribe_to_driver subscribe_to_trip replace_existing attach
    detach add_to_index remove_from_index add_if_keyed remove_if_keyed emptied Map.get Map.set
    Map.delete KeySet.add KeySet.delete KeySet.is_empty KeySet.has member
waits = refl

perform_all-init-Inv_example : Inv busy_registry
perform_all-init-Inv_example = perform_all-init-Inv all_open any_size 10 history

ended_unsubscribed_example :
    (Map.get (notify_trip_status_changed all_open busy_registry 50 trip_cancelled).by_socket 1
      ≡ unless_on_trip busy_registry 50 (Map.get busy_registry.by_socket 1))
    × (member (notify_trip_status_changed all_open busy_registry 50 trip_cancelled).by_trip 50 0
        ≡ false)
ended_unsubscribed_example =
    ended_unsubscribed all_open busy_registry 50 trip_cancelled
      (perform_all-init-Inv all_open any_size 10 history) 1 0
