-- ===== src/Matching/Quiet/Whole.antt =====
-- A quiet attempt to match a trip, from the row of the trip to the answer
-- (core/src/services/matching.service.ts).
use ride_location_tracking_e.Common.{
  ℕ, ◌+◌, ◌*◌, ◌≤◌, ◌≡◌, length, refl, true, Option, none, some, List, [], ◌∷◌, arith, ==_refl,
}
use ride_location_tracking_e.Common.Map
use ride_location_tracking_e.Common.Map.{get-set}
use ride_location_tracking_e.Database.{
  Db, Trip, CancellationReason, can_take, is_requested, find_trip_by_id, mark_trip_unmatched,
  cancel_trip, take_trip,
}
use ride_location_tracking_e.Database
use ride_location_tracking_e.Live.{World, NearbyDriver, search_nearby}
use ride_location_tracking_e.Lock.{KeyStore}
use ride_location_tracking_e.Matching.{
  Env, State, Attempt, resolve_unmatched, conclude, try_candidates, start_search, match_trip,
}
use ride_location_tracking_e.Matching.Score.{MatchingRuntimeConfig, ranked, ids, sort}
use ride_location_tracking_e.Matching.Quiet.{
  Drivers, IsQuiet, IsSteady, first_willing, Tried, Ended, reason_for,
}
use ride_location_tracking_e.Matching.Quiet.Offers.{pause_quiet}
use ride_location_tracking_e.Matching.Quiet.Attempts.{loop_quiet}

is_requested_of : (trip : Trip) → can_take (some trip) ≡ true → is_requested trip.status ≡ true
unfolding can_take
is_requested_of trip c = ground (arith, c)

given_up :
    (db : Db) (t : ℕ) (trip : Trip) (reason : CancellationReason)
    → Map.get db.trips t ≡ some trip
    → can_take (some trip) ≡ true
    → mark_trip_unmatched db t reason ≡ (
      record db { trips = Map.set db.trips t (cancel_trip reason trip) },
      some (cancel_trip reason trip),
    )
unfolding mark_trip_unmatched
given_up db t trip reason e c = rw (mark_trip_unmatched, e, is_requested_of trip c) refl

module _ (redis : KeyStore) (env : Env redis.Store) (config : MatchingRuntimeConfig) (t : ℕ)
    (drivers : Drivers) (q : IsQuiet env config t drivers) (w : World) (trip : Trip)
    (e : Map.get w.db.trips t ≡ some trip) (c : can_take (some trip) ≡ true) where
  resolve_quiet :
      (s : State redis.Store) (reason : CancellationReason) (fallback : Trip)
      → s.world ≡ w
      → Ended w t trip reason none (resolve_unmatched redis env config s t reason fallback)
  unfolding resolve_unmatched
  resolve_quiet s reason fallback same =
      rw
        (
          resolve_unmatched,
          pause_quiet redis env config t drivers q s,
          q.no_failure s.tick,
          same,
          given_up w.db t trip reason e c,
          pause_quiet redis env config t drivers q s,
          same,
          given_up w.db t trip reason e c,
        )
        (refl, refl)

  conclude_quiet :
      (o : Option ℕ) (r : State redis.Store × Attempt)
      → Tried w t trip o r
      → Ended w t trip Database.all_candidates_declined o (conclude redis env config r t trip)
  unfolding conclude find_trip_by_id
  conclude_quiet none r h =
      rw (conclude, h.0) (resolve_quiet r.0 Database.all_candidates_declined trip h.1)
  conclude_quiet (some d) (s, a) h =
      rw
        (
          h.0,
          conclude,
          pause_quiet redis env config t drivers q s,
          q.no_failure s.tick,
          h.1.2,
          find_trip_by_id,
          get-set w.db.trips t t (take_trip d h.1.0 trip),
          ==_refl t,
        )
        (h.1.0, h.1.1, refl, refl)

  candidates_quiet :
      (s : State redis.Store) (last : ℕ) (cs : List NearbyDriver)
      → s.world ≡ w
      → s.tick + 1 + 5 * length (ranked config (env.clock s.tick) env.id_codes cs) ≤ last
      → IsSteady redis env drivers last s.keys
      → Ended w t trip
          (reason_for cs)
          (first_willing drivers w (ranked config (env.clock s.tick) env.id_codes cs))
          (try_candidates redis env config s t trip cs)
  unfolding try_candidates ranked sort ids
  candidates_quiet s last [] same room h = resolve_quiet s Database.no_drivers_available trip same
  candidates_quiet s last (c' ∷ cs) same room h =
      rw (try_candidates, pause_quiet redis env config t drivers q s)
        (conclude_quiet
          (first_willing drivers w (ranked config (env.clock s.tick) env.id_codes (c' ∷ cs))) _
          (loop_quiet redis env config t drivers q last w trip e c (record s { tick = s.tick + 1 })
            (ranked config (env.clock s.tick) env.id_codes (c' ∷ cs)) same room h))

-- What the search of an attempt that starts at this tick returns.
abbrev pub candidates_at :
    {Store : Type 0} → Env Store → MatchingRuntimeConfig → World → Trip → ℕ → List NearbyDriver
candidates_at env config w trip n =
    search_nearby env.geosearch env.driver_stale_ms (env.clock n) w.live trip.pickup
      config.search_radius_meters config.max_candidates

-- No lock is taken after this call of an attempt that starts at this tick: three calls come before the first
-- offer, and each candidate takes five at most.
abbrev pub last_call : {Store : Type 0} → Env Store → MatchingRuntimeConfig → World → Trip → ℕ → ℕ
last_call env config w trip n =
    n
    + 3
    + 5
      * length (
          ranked config (env.clock (n + 1 + 1)) env.id_codes
            (candidates_at env config w trip (n + 1)))

-- When nothing fails, nobody else changes the stores while it runs, an offer ends before its lock does, and the
-- locks that are held do not expire before the last candidate has had its turn, an attempt to match an open trip gives it to the first driver, in the ranking of the search's candidates, whose lock is
-- free, who is connected, 'online' in Postgres, and accepts: the attempt answers 'matched', the trip's row
-- has the driver, the driver's row and live status are 'busy', and nothing else changes in the stores. If
-- there is no such driver, the trip is cancelled, with 'no_drivers_available' if the search returned
-- nobody and 'all_candidates_declined' otherwise.
pub match_trip-Ended :
    (redis : KeyStore) (env : Env redis.Store) (config : MatchingRuntimeConfig) (drivers : Drivers)
    (s : State redis.Store) (trip_id : ℕ) (trip : Trip)
    → IsQuiet env config trip_id drivers
    → IsSteady redis env drivers (last_call env config s.world trip s.tick) s.keys
    → Map.get s.world.db.trips trip_id ≡ some trip
    → can_take (some trip) ≡ true
    → (let cs = candidates_at env config s.world trip (s.tick + 1) in
        Ended s.world trip_id trip
          (reason_for cs)
          (first_willing drivers s.world
            (ranked config (env.clock (s.tick + 1 + 1)) env.id_codes cs))
          (match_trip redis env config s trip_id))
unfolding match_trip find_trip_by_id start_search
match_trip-Ended redis env config drivers s trip_id trip q h e c =
    rw
      (
        match_trip,
        pause_quiet redis env config trip_id drivers q s,
        q.no_failure s.tick,
        find_trip_by_id,
        e,
        is_requested_of trip c,
        pause_quiet redis env config trip_id drivers q s,
        start_search,
        pause_quiet redis env config trip_id drivers q (record s { tick = s.tick + 1 }),
        q.no_failure (s.tick + 1),
      )
      (candidates_quiet redis env config trip_id drivers q s.world trip e c
        (record s { tick = s.tick + 1 + 1 }) (last_call env config s.world trip s.tick)
        (candidates_at env config s.world trip (s.tick + 1)) refl (omega arith) h)
