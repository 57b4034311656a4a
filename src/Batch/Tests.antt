-- ===== src/Batch/Tests.antt =====
-- A flush of two drivers' updates, of which one has no row, while a third update comes in
-- (core/src/ws/location-batch.ts).
use ride_location_tracking_e.Common.{
  ℕ, ◌==◌, ◌≡◌, refl, Bool, true, false, none, some, List, [], ◌∷◌,
}
use ride_location_tracking_e.Common.Map
use ride_location_tracking_e.Common.Int.{pos}
use ride_location_tracking_e.Domain.{online}
use ride_location_tracking_e.Database.{Db, new_driver, batch_update_locations}
use ride_location_tracking_e.Subscriptions.{OutMessage, Registry, init}
use ride_location_tracking_e.Subscriptions.Calls.{
  Call, subscribe_driver, perform_all, perform_all-init-Inv,
}
use ride_location_tracking_e.Subscriptions.Sets.{perform_all-init-IsSetwise}
use ride_location_tracking_e.Eta.Replies.{refused}
use ride_location_tracking_e.Eta.Service.{
  Engines, EtaRuntimeConfig, BatchLocationUpdate, heuristic, entries_ended,
}
use ride_location_tracking_e.Batch.{PendingUpdate, Core, idle, fail, proceed, picked, positions_of}
use ride_location_tracking_e.Batch.Flush.{
  Event, update, tick, enqueued, flush_amid, IsFlushed, flush-IsFlushed,
}
use ride_location_tracking_e.Batch.Failure.{in_third, entries, failed_flush}
use ride_location_tracking_e.Batch.OneByOne.{write_each, batch-eq-write_each}

abbrev all_open : ℕ → Bool
all_open s = true

abbrev any_size : OutMessage → ℕ
any_size m = 90

abbrev engines : Engines
engines = record {
  ml_service = λ a b n. refused;
  osrm = λ a b n. refused;
  haversine = λ a b. 0;
  local_hour = λ n. 8;
}

abbrev cfg : EtaRuntimeConfig
cfg = record {
  avg_speed = 8;
  scale = 1;
  recompute_interval_ms = 5000;
  recompute_distance_meters = 100;
  stale_location_ms = 60000;
  mode = heuristic;
  ml_cache_ttl_ms = 30000;
  osrm_enabled = false;
}

abbrev at_home : PendingUpdate
at_home = record { position = record { lat = pos 47; lng = pos 8 }; timestamp = 100 }

abbrev watched : List Call
watched = subscribe_driver 1 7 ∷ subscribe_driver 2 9 ∷ []

abbrev registry : Registry
registry = perform_all all_open any_size 10 init watched

abbrev db : Db
db = record {
  trips = [];
  drivers =
      (
        7,
        new_driver 5
            (record { name = "Ada"; vehicle = "red"; status = some online; location = none }),
      )
      ∷ [];
}

abbrev core : Core
core = record {
  pending_batch = (7, at_home) ∷ (9, at_home) ∷ [];
  stage = idle;
  stores = record {
    db = db;
    live = record { geo = []; states = [] };
    registry = registry;
    cache = [];
  };
}

abbrev next : List Event
next = update 7 at_home ∷ tick ∷ []

flush-IsFlushed_example :
    IsFlushed all_open 10 engines cfg core
      (flush_amid all_open any_size 10 engines cfg core next 200 (tick ∷ []) 210 [] 220)
      (enqueued (enqueued (enqueued [] next) (tick ∷ [])) [])
      200
      210
unfolding Map.get
flush-IsFlushed_example =
    flush-IsFlushed all_open any_size 10 engines cfg core next (tick ∷ []) [] 200 210 220
      (7, at_home) ((9, at_home) ∷ []) (perform_all-init-Inv all_open any_size 10 watched)
      (perform_all-init-IsSetwise all_open any_size 10 watched) (refl, (refl, tt)) refl refl

-- Of the entries, those of driver 7 alone store their estimates.
abbrev first_stores : BatchLocationUpdate → Bool
first_stores u = u.driver_id == 7

abbrev stuck : Core
stuck =
    in_third all_open any_size 10 engines cfg core next [] [] 200 210 (7, at_home)
      ((9, at_home) ∷ [])

abbrev whole : Core
whole = proceed all_open any_size 10 engines cfg stuck 220

abbrev stuck_entries : List BatchLocationUpdate
stuck_entries =
    entries all_open any_size 10 engines cfg core next [] [] 200 210 (7, at_home)
      ((9, at_home) ∷ [])

failed_flush_example : fail engines cfg first_stores stuck ≡ record whole {
  stores = record {
    db = whole.stores.db;
    live = whole.stores.live;
    registry = whole.stores.registry;
    cache =
        entries_ended engines cfg whole.stores.db [] stuck_entries
          (picked first_stores stuck_entries);
  };
}
failed_flush_example =
    (failed_flush all_open any_size 10 engines cfg core next [] [] 200 210 (7, at_home)
      ((9, at_home) ∷ []) refl refl first_stores 220).2

batch-eq-write_each_example :
    Map.get (batch_update_locations db 200 (positions_of (enqueued [] next))).drivers 7
    ≡ Map.get (write_each db 200 next).drivers 7
batch-eq-write_each_example = batch-eq-write_each next db 200 7
