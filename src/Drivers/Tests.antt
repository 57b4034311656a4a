-- ===== src/Drivers/Tests.antt =====
-- The theorems on status updates at a driver on a trip (core/src/services/drivers.service.ts).
use ride_location_tracking_e.Common.{none, some, []}
use ride_location_tracking_e.Domain.{busy}
use ride_location_tracking_e.Database.{empty_db, insert_driver}
use ride_location_tracking_e.Live.{World}

abbrev busy_world : World
busy_world = record {
  db =
      insert_driver empty_db 5 10
        (record { name = "Ada"; vehicle = "van"; status = some busy; location = none });
  live = record { geo = []; states = [] };
}
