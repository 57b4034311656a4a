-- ===== src/Batch/Failure.antt =====
-- What a flush leaves when one of its awaited calls throws (core/src/ws/location-batch.ts).
use ride_location_tracking_e.Common.{ℕ, ◌≡◌, refl, sym, subst, ◌∙◌, ap, Bool, List, [], ◌∷◌}
use ride_location_tracking_e.Database.{batch_update_locations}
use ride_location_tracking_e.Subscriptions.{OutMessage}
use ride_location_tracking_e.Eta.Service.{
  Engines, EtaRuntimeConfig, BatchLocationUpdate, entries_ended,
}
use ride_location_tracking_e.Batch.{
  PendingUpdate, Core, idle, in_postgres, flush_batch, begin_flush, proceed, proceed_from, fail,
  fail_from, picked, positions_of, driver_by_id, drivers_with_broadcast,
}
use ride_location_tracking_e.Batch.Flush.{Event, meanwhile, enqueued, meanwhile_flushing}

module _ (is_open : ℕ → Bool) (byte_length : OutMessage → ℕ) (step : ℕ) (engines : Engines)
    (cfg : EtaRuntimeConfig) (c : Core) (e1 e2 e3 : List Event) (t1 t2 : ℕ) (p : ℕ × PendingUpdate)
    (ps : List (ℕ × PendingUpdate)) where
  abbrev run : Core → ℕ → Core
  run = proceed is_open byte_length step engines cfg

  -- The flush in its first, its second and its third call.
  abbrev pub in_first : Core
  in_first = meanwhile (flush_batch c) e1

  abbrev pub in_second : Core
  in_second = meanwhile (run in_first t1) e2

  abbrev pub in_third : Core
  in_third = meanwhile (run in_second t2) e3

  abbrev first : Core
  first = record { pending_batch = enqueued [] e1; stage = in_postgres (p ∷ ps); stores = c.stores }

  abbrev second : Core
  second =
      let next = proceed_from is_open byte_length step engines cfg first t1 first.stage in
      record next { pending_batch = enqueued next.pending_batch e2 }

  abbrev third : Core
  third =
      let next = proceed_from is_open byte_length step engines cfg second t2 second.stage in
      record next { pending_batch = enqueued next.pending_batch e3 }

  -- What the third call was called with.
  abbrev pub entries : List BatchLocationUpdate
  entries =
      let db = batch_update_locations c.stores.db t1 (positions_of (p ∷ ps)) in
      drivers_with_broadcast (driver_by_id db (p ∷ ps)) (p ∷ ps)

  module _ (at : c.stage ≡ idle) (full : c.pending_batch ≡ p ∷ ps) where
    in_first_lem : in_first ≡ first
    unfolding flush_batch begin_flush
    in_first_lem =
        let begun : flush_batch c ≡ record c { pending_batch = []; stage = in_postgres (p ∷ ps) } =
          λ i. begin_flush c (at i) (full i) in
        ap (λ (x : Core). meanwhile x e1) begun
        ∙ meanwhile_flushing e1 (record c { pending_batch = []; stage = in_postgres (p ∷ ps) }) refl

    in_second_lem : in_second ≡ second
    unfolding proceed proceed_from
    in_second_lem =
        ap (λ (x : Core). meanwhile (run x t1) e2) in_first_lem
        ∙ meanwhile_flushing e2 (run first t1) refl

    in_third_lem : in_third ≡ third
    unfolding proceed proceed_from
    in_third_lem =
        ap (λ (x : Core). meanwhile (run x t2) e3) in_second_lem
        ∙ meanwhile_flushing e3 (run second t2) refl

    -- Whichever awaited call of a flush throws, the service is idle again, so that the next tick flushes, and
    -- what came in meanwhile is pending; the updates of the batch are pending no more. If the first call throws,
    -- no store has changed; if the second does, the rows alone have their positions; if the third does, the rows,
    -- the live states and the subscribers are as after the whole flush, and the estimates are those that the
    -- entries which ended all the same leave, whichever these are. A store's call that throws is taken to have
    -- changed nothing.
    pub failed_flush :
        (ended : BatchLocationUpdate → Bool) (t3 : ℕ)
        → (fail engines cfg ended in_first
            ≡ record { pending_batch = enqueued [] e1; stage = idle; stores = c.stores })
          × (fail engines cfg ended in_second ≡ record {
            pending_batch = enqueued (enqueued [] e1) e2;
            stage = idle;
            stores = record {
              db = batch_update_locations c.stores.db t1 (positions_of (p ∷ ps));
              live = c.stores.live;
              registry = c.stores.registry;
              cache = c.stores.cache;
            };
          })
          × (fail engines cfg ended in_third ≡ record (run in_third t3) {
            stores = record {
              db = (run in_third t3).stores.db;
              live = (run in_third t3).stores.live;
              registry = (run in_third t3).stores.registry;
              cache =
                  entries_ended engines cfg
                    (run in_third t3).stores.db
                    c.stores.cache
                    entries
                    (picked ended entries);
            };
          })
    unfolding fail fail_from proceed proceed_from
    failed_flush ended t3 = (
      ap (fail engines cfg ended) in_first_lem,
      ap (fail engines cfg ended) in_second_lem,
      subst
          (λ (x : Core). fail engines cfg ended x ≡ record (run x t3) {
            stores = record {
              db = (run x t3).stores.db;
              live = (run x t3).stores.live;
              registry = (run x t3).stores.registry;
              cache =
                  entries_ended engines cfg (run x t3).stores.db c.stores.cache entries
                    (picked ended entries);
            };
          })
          (sym in_third_lem) refl,
    )
