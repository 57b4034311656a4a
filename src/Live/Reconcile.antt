-- ===== src/Live/Reconcile.antt =====
-- What a run of the reconciliation job (core/src/services/reconciliation.service.ts) leaves.
use ride_location_tracking_e.Common.{
  ℕ, ◌≡◌, refl, Bool, Option, none, some, List, [], ◌∷◌, arith, ◌==◌, if◌then◌else◌, for_each,
  Option-cases, inl, inr, ◌&&◌,
}
use ride_location_tracking_e.Common.Map
use ride_location_tracking_e.Common.Map.{get-set, get-delete, Map, has-keys}
use ride_location_tracking_e.Common.KeySet
use ride_location_tracking_e.Domain.{offline}
use ride_location_tracking_e.Database.{Db, Driver, force_offline, update_driver_status, set_status}
use ride_location_tracking_e.Database.Booking.{get-update_row}
use ride_location_tracking_e.Live.{
  World, Live, DriverState, get_driver_state, evict_stale_driver, reconcile_one,
  reconcile_stale_drivers, find_stale_drivers, stale_among, is_stale, hset_state, since_of,
}

-- A driver's row once the driver is forced offline.
abbrev pub forced : ℕ → Option Driver → Option Driver
forced clock none = none
forced clock (some d) = elim d.status [ offline ↦ some d | _ ↦ some (set_status offline clock d) ]

abbrev pub evicted_state : ℕ → Option DriverState → Option DriverState
evicted_state clock s =
    some (record { status = offline; last_updated_at_ms = clock; online_since_ms = since_of s })

get-force_offline :
    (db : Db) (clock id d : ℕ)
    → Map.get (force_offline db clock id).drivers d
      ≡ (if id == d then forced clock (Map.get db.drivers d) else Map.get db.drivers d)
unfolding force_offline update_driver_status set_status
get-force_offline db clock id d = elim (Option-cases (Map.get db.drivers id)) [
  | inl e ↦ rw (e, force_offline) (ground (arith, e))
  | inr (row, e) ↦
      rw (e, force_offline)
        (ground (arith, e, get-update_row db.drivers id d (set_status offline clock)))
]

forced_twice : (clock : ℕ) (o : Option Driver) → forced clock (forced clock o) ≡ forced clock o
unfolding set_status
forced_twice clock none = refl
forced_twice clock (some d) = ground arith

-- The three records of a driver, evicted if the test passed and untouched if not.
pub record IsEvicted (clock d : ℕ) (test : Bool) (w after : World) : Type 0 where
  pub state :
      Map.get after.live.states d
      ≡ (if test then evicted_state clock (Map.get w.live.states d) else Map.get w.live.states d)
  pub position : Map.get after.live.geo d ≡ (if test then none else Map.get w.live.geo d)
  pub row :
      Map.get after.db.drivers d
      ≡ (if test then forced clock (Map.get w.db.drivers d) else Map.get w.db.drivers d)

pub loop-IsEvicted :
    (clock : ℕ) (ids : List ℕ) (d : ℕ) (w : World)
    → IsEvicted clock d (KeySet.has ids d) w (for_each ids (reconcile_one clock) w)
unfolding for_each KeySet.has reconcile_one evict_stale_driver hset_state
loop-IsEvicted clock [] d w = record { state = refl; position = refl; row = refl }
loop-IsEvicted clock (id ∷ ids) d w =
    let rest = loop-IsEvicted clock ids d (reconcile_one clock w id) in
    record {
      state = ground (
        arith,
        rest.state,
        get-set w.live.states id d (record {
          status = offline;
          last_updated_at_ms = clock;
          online_since_ms = since_of (Map.get w.live.states id);
        }),
      );
      position = ground (arith, rest.position, get-delete w.live.geo id d);
      row = ground (
        arith,
        rest.row,
        get-force_offline w.db clock id d,
        forced_twice clock (Map.get w.db.drivers d),
      );
    }

has-stale_among :
    (stale_ms now : ℕ) (live : Live) (ids : List ℕ) (d : ℕ)
    → KeySet.has (stale_among stale_ms now live ids) d
      ≡ (KeySet.has ids d && is_stale stale_ms now (Map.get live.states d))
unfolding stale_among get_driver_state KeySet.has
has-stale_among stale_ms now live [] d = refl
has-stale_among stale_ms now live (id ∷ ids) d =
    ground (arith, has-stale_among stale_ms now live ids d)

has-find_stale_drivers :
    (stale_ms now : ℕ) (live : Live) (d : ℕ)
    → KeySet.has (find_stale_drivers stale_ms now live) d
      ≡ is_stale stale_ms now (Map.get live.states d)
unfolding find_stale_drivers is_stale
has-find_stale_drivers stale_ms now live d =
    rw (has-stale_among stale_ms now live (Map.keys live.states) d)
      (elim (Option-cases (Map.get live.states d)) [
        | inl e ↦ ground (arith, e)
        | inr (s, e) ↦ ground (arith, e, has-keys live.states d s e)
      ])

-- One run of the job changes exactly the drivers whose live state is not 'offline' and was last written
-- longer ago than the limit: each of these becomes 'offline' in the live state and in Postgres (if it
-- was not so there) and leaves the geo set; every other driver keeps its state, position and row.
pub reconciled :
    (stale_ms now clock : ℕ) (w : World) (d : ℕ)
    → IsEvicted clock d
        (is_stale stale_ms now (Map.get w.live.states d))
        w
        (reconcile_stale_drivers stale_ms now clock w)
unfolding reconcile_stale_drivers
reconciled stale_ms now clock w d =
    rw (← has-find_stale_drivers stale_ms now w.live d)
      (loop-IsEvicted clock (find_stale_drivers stale_ms now w.live) d w)
