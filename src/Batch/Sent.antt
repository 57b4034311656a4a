-- ===== src/Batch/Sent.antt =====
-- The broadcasts of a flush are calls of the subscription registry (core/src/ws/location-batch.ts,
-- core/src/ws/subscriptions.ts).
use ride_location_tracking_e.Common.{
  ℕ, ◌≡◌, refl, ◌∙◌, ap, Bool, Option, none, some, List, [], ◌∷◌, for_each, Option-cases, inl, inr,
}
use ride_location_tracking_e.Common.Map
use ride_location_tracking_e.Common.Map.{Map, IsDistinct}
use ride_location_tracking_e.Database.{Driver}
use ride_location_tracking_e.Subscriptions.{Registry, OutMessage}
use ride_location_tracking_e.Subscriptions.Calls.{Call, broadcast, perform, perform_all}
use ride_location_tracking_e.Eta.Service.{Engines, EtaRuntimeConfig}
use ride_location_tracking_e.Batch.{
  PendingUpdate, Snapshot, Core, idle, broadcast_one, driver_by_id, proceed_from,
}
use ride_location_tracking_e.Batch.Writes.{moved, get-batch_update, get-driver_by_id, kept}
use ride_location_tracking_e.Batch.Broadcasts.{raw_update}
use ride_location_tracking_e.Batch.Flush.{Event, flush_amid, flush_amid_lem, ended}

-- The call for one update, none if the driver has no row.
abbrev pub then_broadcast : ℕ → PendingUpdate → Option Driver → List Call → List Call
then_broadcast id u none cs = cs
then_broadcast id u (some row) cs = broadcast id (raw_update id u row) ∷ cs

abbrev pub calls_of : Map Driver → Snapshot → List Call
calls_of drivers [] = []
calls_of drivers ((id, u) ∷ rest) = then_broadcast id u (Map.get drivers id) (calls_of drivers rest)

module _ (is_open : ℕ → Bool) (byte_length : OutMessage → ℕ) (step : ℕ) where
  for_each-broadcast_one :
      (drivers : Map Driver) (snapshot : Snapshot) (r : Registry)
      → for_each snapshot (broadcast_one is_open byte_length step drivers) r
        ≡ perform_all is_open byte_length step r (calls_of drivers snapshot)
  unfolding for_each broadcast_one perform_all perform
  for_each-broadcast_one drivers [] r = refl
  for_each-broadcast_one drivers ((id, u) ∷ rest) r = elim (Option-cases (Map.get drivers id)) [
    | inl e ↦ rw (for_each, broadcast_one, e) (for_each-broadcast_one drivers rest r)
    | inr (row, e) ↦ rw (for_each, broadcast_one, e) (for_each-broadcast_one drivers rest _)
  ]

  module _ (engines : Engines) (cfg : EtaRuntimeConfig) (c : Core) (e1 e2 e3 : List Event)
      (t1 t2 t3 : ℕ) (p : ℕ × PendingUpdate) (ps : List (ℕ × PendingUpdate)) where
    -- The rows that the flush's UPDATE returns.
    abbrev pub flushed_rows : Map Driver
    flushed_rows =
        driver_by_id (ended is_open byte_length step engines cfg c e1 e2 e3 t1 t2 t3 p ps).stores.db
          (p ∷ ps)

    pub registry-flush_amid :
        c.stage ≡ idle
        → c.pending_batch ≡ p ∷ ps
        → (flush_amid is_open byte_length step engines cfg c e1 t1 e2 t2 e3 t3).stores.registry
          ≡ perform_all is_open byte_length step c.stores.registry (calls_of flushed_rows (p ∷ ps))
    unfolding proceed_from
    registry-flush_amid at full =
        ap (λ x. x.stores.registry)
          (flush_amid_lem is_open byte_length step engines cfg c e1 e2 e3 t1 t2 t3 p ps at full)
        ∙ for_each-broadcast_one flushed_rows (p ∷ ps) c.stores.registry

    -- A driver of the batch who has a row has it there, with the status that it had.
    pub get-flushed_rows :
        (d : ℕ) (u : PendingUpdate) (row : Driver)
        → IsDistinct (p ∷ ps)
        → Map.get (p ∷ ps) d ≡ some u
        → Map.get c.stores.db.drivers d ≡ some row
        → Map.get flushed_rows d ≡ moved t1 (some u) (some row)
    unfolding proceed_from
    get-flushed_rows d u row distinct e f =
        let db' = (ended is_open byte_length step engines cfg c e1 e2 e3 t1 t2 t3 p ps).stores.db in
        let written : Map.get db'.drivers d ≡ moved t1 (some u) (some row) =
          get-batch_update (p ∷ ps) c.stores.db t1 d distinct ∙ (λ i. moved t1 (e i) (f i)) in
        get-driver_by_id db' (p ∷ ps) d ∙ (λ i. kept (e i) (written i))
