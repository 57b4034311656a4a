-- ===== src/Drivers/Laws.antt =====
-- What core/src/services/drivers.service.ts answers, and what it leaves in the two stores.
use ride_location_tracking_e.Common.{ℕ, ◌≡◌, refl, Option, none, some, if◌then◌else◌}
use ride_location_tracking_e.Common.Map
use ride_location_tracking_e.Domain.{DriverStatus, online, offline, busy}
use ride_location_tracking_e.Database.{Driver, set_status, set_location, update_row}
use ride_location_tracking_e.Database
use ride_location_tracking_e.Live.{World}
use ride_location_tracking_e.Drivers.{
  is_legal, can_transition_driver_status, Answer, ok, not_found, conflict,
}

-- The frontend's rules allow exactly the transitions that the server's table allows.
pub rules_agree : (from to : DriverStatus) → can_transition_driver_status from to ≡ is_legal from to
unfolding can_transition_driver_status is_legal
rules_agree online online = refl
rules_agree online offline = refl
rules_agree online busy = refl
rules_agree offline online = refl
rules_agree offline offline = refl
rules_agree offline busy = refl
rules_agree busy online = refl
rules_agree busy offline = refl
rules_agree busy busy = refl

-- The live status of a driver.
abbrev pub live_status : World → ℕ → Option DriverStatus
live_status w id = elim (Map.get w.live.states id) [ none ↦ none | some s ↦ some s.status ]

abbrev pub StatusAfter : World → ℕ → DriverStatus → ℕ → Driver → World × Answer Driver → Type 0
StatusAfter w id next now driver r =
    (r.1 ≡ ok (set_status next now driver))
    × (Map.get r.0.db.drivers id ≡ some (set_status next now driver))
    × (live_status r.0 id ≡ some next)

-- What a status update does, by the driver's row before it.
abbrev pub StatusUpdate :
    World → ℕ → ℕ → DriverStatus → Option Driver → World × Answer Driver → Type 0
StatusUpdate w now id next none r = (r.0 ≡ w) × (r.1 ≡ not_found)
StatusUpdate w now id next (some driver) r =
    if is_legal driver.status next
    then StatusAfter w id next now driver r
    else (r.0 ≡ w) × (r.1 ≡ conflict)
