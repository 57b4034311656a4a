-- ===== src/Batch/Flush.antt =====
-- A whole flush, with what comes in while it waits (core/src/ws/location-batch.ts).
use ride_location_tracking_e.Common.{
  ℕ, ◌≡◌, refl, sym, ◌∙◌, ap, subst, Bool, true, false, none, some, arith, List, [], ◌∷◌, for_each,
}
use ride_location_tracking_e.Common.Map
use ride_location_tracking_e.Common.Map.{Map, IsDistinct}
use ride_location_tracking_e.Database.{Driver}
use ride_location_tracking_e.Subscriptions.{OutMessage}
use ride_location_tracking_e.Subscriptions.Index.{member}
use ride_location_tracking_e.Subscriptions.Invariant.{Inv}
use ride_location_tracking_e.Eta.Service.{
  Engines, EtaRuntimeConfig, handle_driver_location_updates_batch,
}
use ride_location_tracking_e.Batch.{
  PendingUpdate, Core, Stage, idle, in_postgres, in_redis, in_eta, enqueue_location_update,
  flush_batch, begin_flush, proceed, proceed_from, positions_of, driver_by_id,
  drivers_with_broadcast,
}
use ride_location_tracking_e.Batch.Writes.{
  moved, placed, refreshed, get-batch_update, trips-batch_update, get-driver_by_id,
  geo-upsert_batch, states-upsert_batch, placed-kept, refreshed-kept,
}
use ride_location_tracking_e.Subscriptions.Sets.{IsSetwise}
use ride_location_tracking_e.Subscriptions.Outbox.{seen, sent_to}
use ride_location_tracking_e.Batch.Heard.{
  heard, heard-kept, seen-flush, seen-flush_others, seen-flush_strangers,
}
use ride_location_tracking_e.Batch.Broadcasts.{told, told-kept, infos-flush, infos-flush_others}

-- What comes in between two steps of a flush: a driver's update, or a tick of the interval.
pub data Event : Type 0 where
  update : ℕ → PendingUpdate → Event
  tick : Event

unfoldable pub handle : Core → Event → Core
handle c (update id u) = enqueue_location_update c id u
handle c tick = flush_batch c

unfoldable pub meanwhile : Core → List Event → Core
meanwhile c events = for_each events handle c

-- The updates, put in the batch.
unfoldable pub enqueued : Map PendingUpdate → List Event → Map PendingUpdate
enqueued pending [] = pending
enqueued pending (update id u ∷ events) = enqueued (Map.set pending id u) events
enqueued pending (tick ∷ events) = enqueued pending events

abbrev pub is_flushing : Stage → Bool
is_flushing idle = false
is_flushing _ = true

no_second :
    (c : Core) (s : Stage) (pending : Map PendingUpdate)
    → is_flushing s ≡ true
    → begin_flush c s pending ≡ c
unfolding begin_flush
no_second c idle pending h = cc
no_second c (in_postgres snapshot) pending h = refl
no_second c (in_redis snapshot drivers) pending h = refl
no_second c (in_eta updates) pending h = refl

-- While a flush is in flight, updates go to the next batch, and a tick starts no second flush.
pub meanwhile_flushing :
    (events : List Event) (c : Core)
    → is_flushing c.stage ≡ true
    → meanwhile c events ≡ record c { pending_batch = enqueued c.pending_batch events }
unfolding meanwhile for_each handle enqueued enqueue_location_update flush_batch
meanwhile_flushing [] c busy = refl
meanwhile_flushing (update id u ∷ events) c busy =
    meanwhile_flushing events (enqueue_location_update c id u) busy
meanwhile_flushing (tick ∷ events) c busy =
    ap (λ (c' : Core). for_each events handle c') (no_second c c.stage c.pending_batch busy)
    ∙ meanwhile_flushing events c busy

module _ (is_open : ℕ → Bool) (byte_length : OutMessage → ℕ) (step : ℕ) (engines : Engines)
    (cfg : EtaRuntimeConfig) where
  -- A flush from its tick to its end, with what comes in during each of its awaited calls.
  abbrev pub flush_amid : Core → List Event → ℕ → List Event → ℕ → List Event → ℕ → Core
  flush_amid c e1 t1 e2 t2 e3 t3 =
      proceed is_open byte_length step engines cfg
        (meanwhile
          (proceed is_open byte_length step engines cfg
            (meanwhile
              (proceed is_open byte_length step engines cfg (meanwhile (flush_batch c) e1) t1) e2)
            t2)
          e3)
        t3

  module _ (c : Core) (e1 e2 e3 : List Event) (t1 t2 t3 : ℕ) (p : ℕ × PendingUpdate)
      (ps : List (ℕ × PendingUpdate)) where
    abbrev snapshot : List (ℕ × PendingUpdate)
    snapshot = p ∷ ps

    abbrev begun : Core
    begun = record c { pending_batch = []; stage = in_postgres snapshot }

    abbrev after_1 : Core
    after_1 = record begun { pending_batch = enqueued [] e1 }

    abbrev after_2 : Core
    after_2 =
        let next = proceed_from is_open byte_length step engines cfg after_1 t1 after_1.stage in
        record next { pending_batch = enqueued next.pending_batch e2 }

    abbrev after_3 : Core
    after_3 =
        let next = proceed_from is_open byte_length step engines cfg after_2 t2 after_2.stage in
        record next { pending_batch = enqueued next.pending_batch e3 }

    abbrev pub ended : Core
    ended = proceed_from is_open byte_length step engines cfg after_3 t3 after_3.stage

    pub flush_amid_lem :
        c.stage ≡ idle → c.pending_batch ≡ snapshot → flush_amid c e1 t1 e2 t2 e3 t3 ≡ ended
    unfolding flush_batch begin_flush proceed proceed_from
    flush_amid_lem at full =
        let run = proceed is_open byte_length step engines cfg in
        let first : flush_batch c ≡ begun = λ i. begin_flush c (at i) (full i) in
        ap (λ (x : Core). run (meanwhile (run (meanwhile (run (meanwhile x e1) t1) e2) t2) e3) t3)
          first
        ∙ ap (λ (x : Core). run (meanwhile (run (meanwhile (run x t1) e2) t2) e3) t3)
            (meanwhile_flushing e1 begun refl)
        ∙ ap (λ (x : Core). run (meanwhile (run x t2) e3) t3)
            (meanwhile_flushing e2 (run after_1 t1) refl)
        ∙ ap (λ (x : Core). run x t3) (meanwhile_flushing e3 (run after_2 t2) refl)

-- What a flush of the batch `pending`, whose writes are at `t1` and `t2`, makes of the state `c`.
pub record IsFlushed (is_open : ℕ → Bool) (step : ℕ) (engines : Engines) (cfg : EtaRuntimeConfig)
    (c c' : Core) (next : Map PendingUpdate) (t1 t2 : ℕ) : Type 0 where
  pub stage : c'.stage ≡ idle
  pub pending : c'.pending_batch ≡ next
  -- The rows of the batch's drivers have the positions; no other row, and no trip, has changed.
  pub rows :
      (d : ℕ)
      → Map.get c'.stores.db.drivers d
        ≡ moved t1 (Map.get c.pending_batch d) (Map.get c.stores.db.drivers d)
  pub trips : c'.stores.db.trips ≡ c.stores.db.trips
  -- So has the geo set, and the live state has the row's status, for the drivers that have a row.
  pub geo :
      (d : ℕ)
      → Map.get c'.stores.live.geo d
        ≡ placed
            (Map.get c.pending_batch d)
            (Map.get c'.stores.db.drivers d)
            (Map.get c.stores.live.geo d)
  pub states :
      (d : ℕ)
      → Map.get c'.stores.live.states d
        ≡ refreshed t2
            (Map.get c.pending_batch d)
            (Map.get c'.stores.db.drivers d)
            (Map.get c.stores.live.states d)
  -- A socket that follows a driver is sent that driver's update, if it is open, as one message, encoded against
  -- what its subscription was last sent; a socket that follows no driver and one without a subscription
  -- are sent nothing.
  pub followers :
      (s j d : ℕ)
      → Map.get c.stores.registry.by_socket s ≡ some j
      → member c.stores.registry.by_driver d j ≡ true
      → seen s j c'.stores.registry
        ≡ heard
            (is_open s)
            step
            d
            (Map.get c.pending_batch d)
            (Map.get c'.stores.db.drivers d)
            (seen s j c.stores.registry)
  pub idlers :
      (s j : ℕ)
      → Map.get c.stores.registry.by_socket s ≡ some j
      → ((d : ℕ) → member c.stores.registry.by_driver d j ≡ false)
      → seen s j c'.stores.registry ≡ seen s j c.stores.registry
  pub strangers :
      (s : ℕ)
      → Map.get c.stores.registry.by_socket s ≡ none
      → sent_to s c'.stores.registry.outbox ≡ sent_to s c.stores.registry.outbox
  -- The object of a subscriber of such a driver keeps what was sent, and no other object has changed.
  pub infos :
      (d j : ℕ)
      → member c.stores.registry.by_driver d j ≡ true
      → Map.get c'.stores.registry.infos j
        ≡ told d
            (Map.get c.pending_batch d)
            (Map.get c'.stores.db.drivers d)
            (Map.get c.stores.registry.infos j)
  pub others :
      (j : ℕ)
      → ((d : ℕ) → member c.stores.registry.by_driver d j ≡ false)
      → Map.get c'.stores.registry.infos j ≡ Map.get c.stores.registry.infos j
  -- The estimates are those of the batched update for the drivers that have a row.
  pub cache :
      c'.stores.cache
      ≡ handle_driver_location_updates_batch engines cfg c'.stores.db c.stores.cache
          (drivers_with_broadcast (driver_by_id c'.stores.db c.pending_batch) c.pending_batch)

module _ (is_open : ℕ → Bool) (byte_length : OutMessage → ℕ) (step : ℕ) (engines : Engines)
    (cfg : EtaRuntimeConfig) (c : Core) (e1 e2 e3 : List Event) (t1 t2 t3 : ℕ)
    (p : ℕ × PendingUpdate) (ps : List (ℕ × PendingUpdate)) (v : Inv c.stores.registry)
    (w : IsSetwise c.stores.registry) (distinct : IsDistinct (p ∷ ps)) where
  abbrev final : Core
  final = ended is_open byte_length step engines cfg c e1 e2 e3 t1 t2 t3 p ps

  abbrev batch : List (ℕ × PendingUpdate)
  batch = p ∷ ps

  abbrev drivers : Map Driver
  drivers = driver_by_id final.stores.db batch

  ended-IsFlushed :
      c.pending_batch ≡ p ∷ ps
      → IsFlushed is_open step engines cfg c final
          (enqueued (enqueued (enqueued [] e1) e2) e3)
          t1
          t2
  unfolding proceed_from
  ended-IsFlushed full = record {
    stage = refl;
    pending = refl;
    rows = λ d. rw full (get-batch_update batch c.stores.db t1 d distinct);
    trips = trips-batch_update (positions_of batch) c.stores.db t1;
    geo = λ d. rw full (
        geo-upsert_batch drivers t2 batch c.stores.live d distinct
        ∙ rw (get-driver_by_id final.stores.db batch d) (
            placed-kept (Map.get batch d) (Map.get final.stores.db.drivers d)
              (Map.get c.stores.live.geo d)));
    states = λ d. rw full (
        states-upsert_batch drivers t2 batch c.stores.live d distinct
        ∙ rw (get-driver_by_id final.stores.db batch d) (
            refreshed-kept t2 (Map.get batch d) (Map.get final.stores.db.drivers d)
              (Map.get c.stores.live.states d)));
    followers = λ s j d mine m. rw full (
        seen-flush is_open byte_length step drivers s j batch c.stores.registry d distinct v w mine
          m
        ∙ rw (get-driver_by_id final.stores.db batch d) (
            heard-kept (is_open s) step d (Map.get batch d) (Map.get final.stores.db.drivers d)
              (seen s j c.stores.registry)));
    idlers = λ s j mine m.
        seen-flush_others is_open byte_length step drivers s j batch c.stores.registry v w mine m;
    strangers = λ s free.
        let j = c.stores.registry.next_info in
        ap (λ x. x.sent)
          (seen-flush_strangers is_open byte_length step drivers s j batch c.stores.registry v w
            free (v.fresh j (omega arith)));
    infos = λ d j m. rw full (
        infos-flush is_open byte_length step drivers batch c.stores.registry d j distinct v m
        ∙ rw (get-driver_by_id final.stores.db batch d) (
            told-kept d (Map.get batch d) (Map.get final.stores.db.drivers d)
              (Map.get c.stores.registry.infos j)));
    others = λ j m. infos-flush_others is_open byte_length step drivers batch c.stores.registry j m;
    cache = rw full refl;
  }

  -- A flush of which no call fails, with an idle service and a batch that is not empty, writes the batch's
  -- positions to the rows of its drivers, then to the geo set and the live states (with the status of the row)
  -- of those that have a row, sends these to exactly the open sockets whose subscription follows the driver, as
  -- one message each, encoded against what the subscription was last sent, and updates the estimates of the drivers'
  -- trips; nothing else of the rows, trips, live states or subscribers changes, and no other socket is sent
  -- anything. It ends idle, and the updates that came in meanwhile, and these alone, are pending. The batch must have
  -- each driver once, the registry keep its invariant and its sets each member once, and the stores change in
  -- no other way meanwhile.
  pub flush-IsFlushed :
      c.stage ≡ idle
      → c.pending_batch ≡ p ∷ ps
      → IsFlushed is_open step engines cfg c
          (flush_amid is_open byte_length step engines cfg c e1 t1 e2 t2 e3 t3)
          (enqueued (enqueued (enqueued [] e1) e2) e3)
          t1
          t2
  flush-IsFlushed at full =
      subst
        (λ x.
          IsFlushed is_open step engines cfg c x (enqueued (enqueued (enqueued [] e1) e2) e3) t1 t2)
        (sym (flush_amid_lem is_open byte_length step engines cfg c e1 e2 e3 t1 t2 t3 p ps at full))
        (ended-IsFlushed full)
