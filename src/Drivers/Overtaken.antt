-- ===== src/Drivers/Overtaken.antt =====
-- A driver whose location update comes while the reconciliation job runs (core/src/services/reconciliation.service.ts,
-- core/src/services/drivers.service.ts).
use ride_location_tracking_e.Common.{
  ℕ, ◌+◌, ◌≤◌, ◌≡◌, refl, ◌∙◌, Bool, true, false, Option, none, some, List, ◌∷◌, ◌++◌, arith, ◌==◌,
  for_each, ap,
}
use ride_location_tracking_e.Common.Map
use ride_location_tracking_e.Common.Map.{Map, get-set}
use ride_location_tracking_e.Common.KeySet
use ride_location_tracking_e.Domain.{LatLng, offline}
use ride_location_tracking_e.Database.{
  Driver, set_location, set_status, update_row, find_driver_by_id,
}
use ride_location_tracking_e.Database.Booking.{get-update_row}
use ride_location_tracking_e.Database
use ride_location_tracking_e.Live.{
  World, DriverState, reconcile_one, find_stale_drivers, is_stale, is_fresh,
}
use ride_location_tracking_e.Live
use ride_location_tracking_e.Live.Reconcile.{loop-IsEvicted, forced}
use ride_location_tracking_e.Drivers.{update_driver_location, ok}

module _ (w : World) (now d : ℕ) (p : LatLng) (row : Driver)
    (known : Map.get w.db.drivers d ≡ some row) where
  updated :
      Map.get (Database.update_driver_location w.db now d p).drivers d
      ≡ some (set_location p now row)
  unfolding Database.update_driver_location
  updated = get-update_row w.db.drivers d d (set_location p now) ∙ ground (arith, known)

  -- What the update of a driver who has a row leaves.
  update_driver_location_lem : update_driver_location w now d p ≡ (
    record {
      db = Database.update_driver_location w.db now d p;
      live = Live.upsert_driver_location w.live now d p row.status;
    },
    ok (set_location p now row),
  )
  unfolding update_driver_location find_driver_by_id set_location
  update_driver_location_lem = rw (update_driver_location, known, updated) refl

abbrev is_offline : Option DriverState → Bool
is_offline none = false
is_offline (some s) = elim s.status [ offline ↦ true | _ ↦ false ]

abbrev is_row_offline : Option Driver → Bool
is_row_offline none = false
is_row_offline (some row) = elim row.status [ offline ↦ true | _ ↦ false ]

-- Is the driver 'offline' in the live state and in Postgres, and not in the geo set?
abbrev pub IsOut : World → ℕ → Type 0
IsOut w d =
    (Map.get w.live.geo d ≡ none)
    × (is_offline (Map.get w.live.states d) ≡ true)
    × (is_row_offline (Map.get w.db.drivers d) ≡ true)

forced_offline : (clock : ℕ) (row : Driver) → is_row_offline (forced clock (some row)) ≡ true
unfolding set_status
forced_offline clock row = ground arith

-- A loop over a driver who has a row puts it out.
loop-IsOut :
    (clock : ℕ) (w : World) (d : ℕ) (row : Driver) (after : List ℕ)
    → Map.get w.db.drivers d ≡ some row
    → IsOut (for_each (d ∷ after) (reconcile_one clock) w) d
unfolding KeySet.has
loop-IsOut clock w d row after known =
    let e = loop-IsEvicted clock (d ∷ after) d w in
    let here : (d == d) ≡ true = ground arith in
    (
      ground (arith, here, e.position),
      ground (arith, here, e.state),
      ground (arith, here, e.row, known, forced_offline clock row),
    )

-- The job took a driver for stale, and before its loop reaches the driver, the driver updates its location, so that
-- its live state is not stale any more when it is evicted: then the run still leaves the driver 'offline' in the live
-- state and in Postgres, and not in the geo set, if it has a row.
pub overtaken :
    (w : World) (stale_ms now d : ℕ) (p : LatLng) (row : Driver) (scan t1 t2 : ℕ)
    (before after : List ℕ)
    → find_stale_drivers stale_ms scan w.live ≡ before ++ d ∷ after
    → KeySet.has before d ≡ false
    → Map.get w.db.drivers d ≡ some row
    → t2 ≤ now + stale_ms
    → let reached = (update_driver_location (for_each before (reconcile_one t1) w) now d p).0 in
      (is_stale stale_ms t2 (Map.get reached.live.states d) ≡ false)
      × IsOut (for_each (d ∷ after) (reconcile_one t2) reached) d
unfolding Live.upsert_driver_location is_stale is_fresh set_location set_status
overtaken w stale_ms now d p row scan t1 t2 before after found later known in_time =
    let w1 = for_each before (reconcile_one t1) w in
    let known1 : Map.get w1.db.drivers d ≡ some row =
      ground (arith, (loop-IsEvicted t1 before d w).row, later, known) in
    let w2 = (update_driver_location w1 now d p).0 in
    let at : w2 ≡ record {
      db = Database.update_driver_location w1.db now d p;
      live = Live.upsert_driver_location w1.live now d p row.status;
    } =
      ap (λ x. x.0) (update_driver_location_lem w1 now d p row known1) in
    (
      ground (
        arith,
        ap (λ x. Map.get x.live.states d) at,
        get-set w1.live.states d d (record {
          status = row.status;
          last_updated_at_ms = now;
          online_since_ms = Live.first_since (Live.since_of (Map.get w1.live.states d)) now;
        }),
        in_time,
      ),
      loop-IsOut t2 w2 d (set_location p now row) after
          (ap (λ x. Map.get x.db.drivers d) at ∙ updated w1 now d p row known1),
    )
