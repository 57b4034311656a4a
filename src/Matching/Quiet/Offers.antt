-- ===== src/Matching/Quiet/Offers.antt =====
-- One offer of a quiet attempt, to a driver whose lock is held (core/src/services/matching.service.ts).
use ride_location_tracking_e.Common.{
  ℕ, ◌+◌, ◌≡◌, ◌≤◌, refl, Bool, true, false, ◌&&◌, Option, none, some, ◌∷◌, arith, Bool-cases, inl,
  inr,
}
use ride_location_tracking_e.Common.Map
use ride_location_tracking_e.Domain.{busy}
use ride_location_tracking_e.Database.{
  Db, Trip, can_take, can_drive, take_trip, try_finalize_match, update_row, set_status,
}
use ride_location_tracking_e.Live.{World, update_driver_status_in_redis}
use ride_location_tracking_e.Lock.{KeyStore}
use ride_location_tracking_e.Matching.{
  Env, State, say, trip_offer, Attempt, accepted, pause, send_to_driver, confirm, finalize, offer,
}
use ride_location_tracking_e.Matching.Score.{MatchingRuntimeConfig}
use ride_location_tracking_e.Matching.Quiet.{Drivers, IsQuiet, Tried}

row_set :
    {A : Type 0} (m : Map.Map A) (k : ℕ) (a : A) (f : A → A)
    → Map.get m k ≡ some a
    → update_row m k f ≡ Map.set m k (f a)
unfolding update_row
row_set m k a f h = rw (update_row, h) refl

committed :
    (db : Db) (t d now : ℕ) (trip : Trip)
    → Map.get db.trips t ≡ some trip
    → can_take (some trip) ≡ true
    → can_drive (Map.get db.drivers d) ≡ true
    → try_finalize_match db now t d ≡ (
      record {
        trips = Map.set db.trips t (take_trip d now trip);
        drivers = update_row db.drivers d (set_status busy now);
      },
      true,
    )
unfolding try_finalize_match
committed db t d now trip e c g =
    rw (try_finalize_match, e, c, g) (rw (row_set db.trips t trip (take_trip d now) e) refl)

rolled_back :
    (db : Db) (t d now : ℕ) (trip : Trip)
    → Map.get db.trips t ≡ some trip
    → can_take (some trip) ≡ true
    → can_drive (Map.get db.drivers d) ≡ false
    → try_finalize_match db now t d ≡ (db, false)
unfolding try_finalize_match
rolled_back db t d now trip e c g = rw (try_finalize_match, e, c, g) refl

abbrev pub pick : Bool → ℕ → Option ℕ
pick true d = some d
pick false d = none

-- Would the driver take an offer that reaches it?
abbrev pub answer : Drivers → World → ℕ → Bool
answer drivers w d =
    drivers.connected d && (drivers.accepts d && can_drive (Map.get w.db.drivers d))

module _ (redis : KeyStore) (env : Env redis.Store) (config : MatchingRuntimeConfig) (t : ℕ)
    (drivers : Drivers) (q : IsQuiet env config t drivers) where
  open redis use {Store, get, set_nx}

  pub pause_quiet : (s : State Store) → pause env s ≡ record s { tick = s.tick + 1 }
  unfolding pause
  pause_quiet s = rw (q.same_world s.tick s.world, q.same_keys s.tick s.keys) refl

  -- A part of an offer that takes `n` calls at most and leaves the keys alone.
  pub record IsStep (n : ℕ) (s : State Store) (trip : Trip) (o : Option ℕ)
      (r : State Store × Attempt) : Type 0 where
    pub tried : Tried s.world t trip o r
    pub keys : r.0.keys ≡ s.keys
    pub early : s.tick ≤ r.0.tick
    pub late : r.0.tick ≤ s.tick + n

  confirm_quiet :
      (s : State Store) (d : ℕ)
      → (let r = confirm redis env config s t d in
          ((r.0.world ≡ record {
            db = s.world.db;
            live = update_driver_status_in_redis s.world.live (env.clock s.tick) d busy;
          })
            × (r.0.keys ≡ s.keys)
            × (r.0.tick ≡ s.tick + 1)
            × (r.1 ≡ accepted)))
  unfolding confirm send_to_driver
  confirm_quiet s d = elim (Bool-cases (drivers.connected d)) [
    | inl g ↦
        rw (confirm, pause_quiet s, q.no_failure s.tick, q.connects (s.tick + 1) d, g)
          (refl, refl, refl, refl)
    | inr g ↦
        rw (confirm, pause_quiet s, q.no_failure s.tick, q.connects (s.tick + 1) d, g)
          (refl, refl, refl, refl)
  ]

  finalize_quiet :
      (s : State Store) (trip : Trip) (d : ℕ)
      → Map.get s.world.db.trips t ≡ some trip
      → can_take (some trip) ≡ true
      → IsStep 2 s trip
          (pick (can_drive (Map.get s.world.db.drivers d)) d)
          (finalize redis env config s t d)
  unfolding finalize
  finalize_quiet s trip d e c = elim (Bool-cases (can_drive (Map.get s.world.db.drivers d))) [
    | inl g ↦
        rw
          (
            finalize,
            pause_quiet s,
            q.no_failure s.tick,
            committed s.world.db t d (env.clock s.tick) trip e c g,
            g,
          )
          (let r =
              confirm_quiet
                (record s {
                  world = record {
                    db = record {
                      trips = Map.set s.world.db.trips t (take_trip d (env.clock s.tick) trip);
                      drivers =
                          update_row s.world.db.drivers d (set_status busy (env.clock s.tick));
                    };
                    live = s.world.live;
                  };
                  tick = s.tick + 1;
                })
                d in
            record {
              tried = (r.3, (env.clock s.tick, env.clock (s.tick + 1), r.0));
              keys = r.1;
              early = omega (arith, r.2);
              late = omega (arith, r.2);
            })
    | inr g ↦
        rw
          (
            finalize,
            pause_quiet s,
            q.no_failure s.tick,
            rolled_back s.world.db t d (env.clock s.tick) trip e c g,
            g,
          )
          (record { tried = (refl, refl); keys = refl; early = omega arith; late = omega arith })
  ]

  pub offer_quiet :
      (s : State Store) (trip : Trip) (d : ℕ)
      → Map.get s.world.db.trips t ≡ some trip
      → can_take (some trip) ≡ true
      → IsStep 3 s trip (pick (answer drivers s.world d) d) (offer redis env config s t d)
  unfolding offer send_to_driver
  offer_quiet s trip d e c = elim (Bool-cases (drivers.connected d)) [
    | inr g ↦
        rw (offer, send_to_driver, q.connects s.tick d, g)
          (record { tried = (refl, refl); keys = refl; early = omega arith; late = omega arith })
    | inl g ↦ elim (Bool-cases (drivers.accepts d)) [
      | inr h ↦
          rw
            (
              offer,
              send_to_driver,
              q.connects s.tick d,
              g,
              q.answers s.tick d,
              h,
              pause_quiet (say s (trip_offer d t)),
            )
            (record { tried = (refl, refl); keys = refl; early = omega arith; late = omega arith })
      | inl h ↦
          rw
            (
              offer,
              send_to_driver,
              q.connects s.tick d,
              g,
              q.answers s.tick d,
              h,
              pause_quiet (say s (trip_offer d t)),
            )
            (let r =
                finalize_quiet (record s { tick = s.tick + 1; log = trip_offer d t ∷ s.log }) trip d
                  e c in
              record {
                tried = r.tried;
                keys = r.keys;
                early = omega (arith, r.early);
                late = omega (arith, r.late);
              })
    ]
  ]
