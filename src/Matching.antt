-- ===== src/Matching.antt =====
-- core/src/services/matching.service.ts, one attempt to match a trip. At each awaited call the rest of
-- the service may act first: `Env` says how it changes the stores, whether the call fails, and what
-- the socket and the driver answer then. The metric of the attempt's duration is left out.
mod Tests
pub mod Score
pub mod Ranking
pub mod Locks
pub mod Quiet
pub mod Safety
use ride_location_tracking_e.Common.{
  ℕ, ◌+◌, Bool, true, false, Option, none, some, List, [], ◌∷◌, if◌then◌else◌, or_default, map,
}
use ride_location_tracking_e.Common.Map.{Map}
use ride_location_tracking_e.Domain.{LatLng, TripStatus, cancelled, busy}
use ride_location_tracking_e.Database.{
  Db, Trip, CancellationReason, no_drivers_available, all_candidates_declined, find_trip_by_id,
  try_finalize_match, mark_trip_unmatched, is_requested, is_matched,
}
use ride_location_tracking_e.Live.{
  World, GeoRow, NearbyDriver, search_nearby, update_driver_status_in_redis,
}
use ride_location_tracking_e.Lock.{KeyStore, acquire_driver_lock, release_driver_lock}
use ride_location_tracking_e.Matching.Score.{MatchingRuntimeConfig, ranked}

-- What an attempt does to the outside, and its locks.
pub data Effect : Type 0 where
  locked : ℕ → ℕ → Effect
  unlocked : ℕ → ℕ → Effect
  trip_offer : ℕ → ℕ → Effect
  trip_matched : ℕ → ℕ → Effect
  notified_matched : ℕ → ℕ → Effect
  notified_ended : ℕ → TripStatus → Effect

-- `unmatched` is for the two outcomes that are also a trip's cancellation reason.
pub data MatchOutcome : Type 0 where
  matched : MatchOutcome
  unmatched : CancellationReason → MatchOutcome
  already_resolved : MatchOutcome

pub data Result : Type 0 where
  result : MatchOutcome → Trip → Result
  threw : Result

-- What `tryOfferToDriver` does: returns true, returns false, or throws.
pub data Attempt : Type 0 where
  accepted passed failed : Attempt

-- Everything is indexed by the number of awaited calls so far, the time included.
pub record Env (Store : Type 0) : Type 0 where
  pub others : ℕ → World → World
  pub other_keys : ℕ → Store → Store
  pub fails : ℕ → Bool
  pub connected : ℕ → ℕ → Bool
  -- What the wait for the response to a trip's offer to a driver yields.
  pub accepts : ℕ → ℕ → ℕ → Bool
  pub clock : ℕ → ℕ
  pub geosearch : Map LatLng → LatLng → ℕ → ℕ → List GeoRow
  pub driver_stale_ms : ℕ
  -- The UTF-16 codes of an id.
  pub id_codes : ℕ → List ℕ

pub record State (Store : Type 0) : Type 0 where
  pub world : World
  pub keys : Store
  pub tick : ℕ
  -- The last effect first.
  pub log : List Effect

module _ {Store : Type 0} where
  abbrev pub say : State Store → Effect → State Store
  say s e = record s { log = e ∷ s.log }

  module _ (env : Env Store) where
    -- The moment an awaited call takes effect.
    unfoldable pub pause : State Store → State Store
    pause s = record {
      world = env.others s.tick s.world;
      keys = env.other_keys s.tick s.keys;
      tick = s.tick + 1;
      log = s.log;
    }

    unfoldable pub send_to_driver : State Store → ℕ → Effect → State Store × Bool
    send_to_driver s driver_id e =
        if env.connected s.tick driver_id then (say s e, true) else (s, false)

module _ (redis : KeyStore) (env : Env redis.Store) (config : MatchingRuntimeConfig) where
  -- After `tryFinalizeMatch` succeeded.
  unfoldable pub confirm : State redis.Store → ℕ → ℕ → State redis.Store × Attempt
  confirm s trip_id driver_id =
      let s1 = pause env s in
      if env.fails s.tick
      then (s1, failed)
      else let live =
          update_driver_status_in_redis s1.world.live (env.clock s.tick) driver_id busy in
        let s2 = record s1 { world = record { db = s1.world.db; live = live } } in
        (
          say (send_to_driver env s2 driver_id (trip_matched driver_id trip_id)).0
              (notified_matched trip_id driver_id),
          accepted,
        )

  -- After the driver accepted.
  unfoldable pub finalize : State redis.Store → ℕ → ℕ → State redis.Store × Attempt
  finalize s trip_id driver_id =
      let s1 = pause env s in
      if env.fails s.tick
      then (s1, failed)
      else let r = try_finalize_match s1.world.db (env.clock s.tick) trip_id driver_id in
        let s2 = record s1 { world = record { db = r.0; live = s1.world.live } } in
        if r.1 then confirm s2 trip_id driver_id else (s2, passed)

  -- The body of the `try`.
  unfoldable pub offer : State redis.Store → ℕ → ℕ → State redis.Store × Attempt
  offer s trip_id driver_id =
      let sent = send_to_driver env s driver_id (trip_offer driver_id trip_id) in
      if sent.1
      then (let answered = pause env sent.0 in
          if env.accepts s.tick trip_id driver_id
          then finalize answered trip_id driver_id
          else (answered, passed))
      else (s, passed)

  -- The `finally`: an exception of the release itself wins.
  unfoldable pub release_after : State redis.Store × Attempt → ℕ → ℕ → State redis.Store × Attempt
  release_after r trip_id driver_id =
      let s1 = pause env r.0 in
      if env.fails r.0.tick then (s1, failed) else (
        say
            (record s1 {
              keys = release_driver_lock redis s1.keys (env.clock r.0.tick) driver_id trip_id;
            })
            (unlocked driver_id trip_id),
        r.1,
      )

  unfoldable pub try_offer_to_driver : State redis.Store → ℕ → ℕ → State redis.Store × Attempt
  try_offer_to_driver s trip_id driver_id =
      let s1 = pause env s in
      if env.fails s.tick
      then (s1, failed)
      else let r =
          acquire_driver_lock redis s1.keys (env.clock s.tick) driver_id trip_id
            (config.offer_timeout_ms + 5000) in
        let s2 = record s1 { keys = r.0 } in
        if r.1
        then release_after (offer (say s2 (locked driver_id trip_id)) trip_id driver_id) trip_id
            driver_id
        else (s2, passed)

  -- The loop over the ranked candidates.
  unfoldable pub offer_in_turn : State redis.Store → ℕ → List ℕ → State redis.Store × Attempt
  offer_in_turn s trip_id [] = (s, passed)
  offer_in_turn s trip_id (driver_id ∷ rest) =
      let r = try_offer_to_driver s trip_id driver_id in
      elim r.1 [ passed ↦ offer_in_turn r.0 trip_id rest | accepted ↦ r | failed ↦ r ]

  unfoldable pub resolve_unmatched :
      State redis.Store → ℕ → CancellationReason → Trip → State redis.Store × Result
  resolve_unmatched s trip_id reason fallback =
      let s1 = pause env s in
      if env.fails s.tick
      then (s1, threw)
      else let r = mark_trip_unmatched s1.world.db trip_id reason in
        let s2 = record s1 { world = record { db = r.0; live = s1.world.live } } in
        elim r.1 [
          | some updated ↦
              (say s2 (notified_ended trip_id cancelled), result (unmatched reason) updated)
          | none ↦
              let s3 = pause env s2 in
              if env.fails s2.tick
              then (s3, threw)
              else let current = or_default (find_trip_by_id s3.world.db trip_id) fallback in
                (
                  s3,
                  result (if is_matched current.status then matched else unmatched reason) current,
                )
        ]

  -- After the loop.
  unfoldable pub conclude : State redis.Store × Attempt → ℕ → Trip → State redis.Store × Result
  conclude (s, accepted) trip_id trip =
      let s1 = pause env s in
      if env.fails s.tick
      then (s1, threw)
      else (s1, result matched (or_default (find_trip_by_id s1.world.db trip_id) trip))
  conclude (s, passed) trip_id trip = resolve_unmatched s trip_id all_candidates_declined trip
  conclude (s, failed) trip_id trip = (s, threw)

  -- After the search; the ratings are awaited before the candidates are ranked.
  unfoldable pub try_candidates :
      State redis.Store → ℕ → Trip → List NearbyDriver → State redis.Store × Result
  try_candidates s trip_id trip [] = resolve_unmatched s trip_id no_drivers_available trip
  try_candidates s trip_id trip (c ∷ cs) =
      conclude
        (offer_in_turn (pause env s) trip_id
          (ranked config (env.clock s.tick) env.id_codes (c ∷ cs)))
        trip_id trip

  unfoldable pub start_search : State redis.Store → ℕ → Trip → State redis.Store × Result
  start_search s trip_id trip =
      let s1 = pause env s in
      if env.fails s.tick
      then (s1, threw)
      else try_candidates s1 trip_id trip (
          search_nearby env.geosearch env.driver_stale_ms (env.clock s.tick) s1.world.live
            trip.pickup config.search_radius_meters config.max_candidates)

  unfoldable pub match_trip : State redis.Store → ℕ → State redis.Store × Result
  match_trip s trip_id =
      let s1 = pause env s in
      if env.fails s.tick then (s1, threw) else elim (find_trip_by_id s1.world.db trip_id) [
        | none ↦ (s1, threw)
        | some trip ↦
            if is_requested trip.status
            then start_search s1 trip_id trip
            else (s1, result already_resolved trip)
      ]
