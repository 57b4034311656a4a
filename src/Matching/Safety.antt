-- ===== src/Matching/Safety.antt =====
-- An attempt to match a trip (core/src/services/matching.service.ts) keeps what its statements keep, whatever
-- happens between its awaited calls.
use ride_location_tracking_e.Common.{ℕ, ◌+◌, List, [], ◌∷◌, Bool-cases, Option-cases, inl, inr}
use ride_location_tracking_e.Domain.{busy}
use ride_location_tracking_e.Database.{
  CancellationReason, Trip, try_finalize_match, mark_trip_unmatched, find_trip_by_id, is_requested,
  no_drivers_available, all_candidates_declined,
}
use ride_location_tracking_e.Database.Booking.{
  IsBooked, execute, finalize, give_up, execute-IsBooked,
}
use ride_location_tracking_e.Live.{World, NearbyDriver, update_driver_status_in_redis}
use ride_location_tracking_e.Lock.{KeyStore, acquire_driver_lock}
use ride_location_tracking_e.Matching.{
  Env, State, Attempt, accepted, passed, failed, Effect, pause, say, send_to_driver, confirm, offer,
  release_after, try_offer_to_driver, offer_in_turn, resolve_unmatched, conclude, try_candidates,
  start_search, match_trip, locked, trip_offer,
}
use ride_location_tracking_e.Matching
use ride_location_tracking_e.Matching.Score.{MatchingRuntimeConfig}

-- What holds of the stores through the steps of an attempt.
pub record IsKept (others : ℕ → World → World) (P : World → Type 0) : Type 0 where
  pub by_others : (n : ℕ) (w : World) → P w → P (others n w)
  pub by_match :
      (w : World) (now t d : ℕ)
      → P w
      → P (record { db = (try_finalize_match w.db now t d).0; live = w.live })
  pub by_busy :
      (w : World) (now d : ℕ)
      → P w
      → P (record { db = w.db; live = update_driver_status_in_redis w.live now d busy })
  pub by_give_up :
      (w : World) (t : ℕ) (reason : CancellationReason)
      → P w
      → P (record { db = (mark_trip_unmatched w.db t reason).0; live = w.live })

module _ (redis : KeyStore) (env : Env redis.Store) (config : MatchingRuntimeConfig)
    (P : World → Type 0) (kept : IsKept env.others P) where
  pause_keeps : (s : State redis.Store) → P s.world → P (pause env s).world
  unfolding pause
  pause_keeps s h = kept.by_others s.tick s.world h

  send_keeps :
      (s : State redis.Store) (d : ℕ) (e : Effect)
      → P s.world
      → P (send_to_driver env s d e).0.world
  unfolding send_to_driver
  send_keeps s d e h = elim (Bool-cases (env.connected s.tick d)) [
    | inl c ↦ rw (send_to_driver, c) h
    | inr c ↦ rw (send_to_driver, c) h
  ]

  confirm_keeps :
      (s : State redis.Store) (t d : ℕ) → P s.world → P (confirm redis env config s t d).0.world
  unfolding confirm
  confirm_keeps s t d h = elim (Bool-cases (env.fails s.tick)) [
    | inl f ↦ rw (confirm, f) (pause_keeps s h)
    | inr f ↦
        rw (confirm, f)
          (send_keeps _ d (Matching.trip_matched d t)
            (kept.by_busy (pause env s).world (env.clock s.tick) d (pause_keeps s h)))
  ]

  finalize_keeps :
      (s : State redis.Store) (t d : ℕ)
      → P s.world
      → P (Matching.finalize redis env config s t d).0.world
  unfolding Matching.finalize
  finalize_keeps s t d h = elim (Bool-cases (env.fails s.tick)) [
    | inl f ↦ rw (Matching.finalize, f) (pause_keeps s h)
    | inr f ↦
        let done = kept.by_match (pause env s).world (env.clock s.tick) t d (pause_keeps s h) in
        elim (Bool-cases (try_finalize_match (pause env s).world.db (env.clock s.tick) t d).1) [
          | inl g ↦ rw (Matching.finalize, f, g) (confirm_keeps _ t d done)
          | inr g ↦ rw (Matching.finalize, f, g) done
        ]
  ]

  offer_keeps :
      (s : State redis.Store) (t d : ℕ) → P s.world → P (offer redis env config s t d).0.world
  unfolding offer send_to_driver
  offer_keeps s t d h = elim (Bool-cases (env.connected s.tick d)) [
    | inl c ↦ elim (Bool-cases (env.accepts s.tick t d)) [
      | inl a ↦ rw (offer, send_to_driver, c, a) (finalize_keeps _ t d (pause_keeps _ h))
      | inr a ↦ rw (offer, send_to_driver, c, a) (pause_keeps _ h)
    ]
    | inr c ↦ rw (offer, send_to_driver, c) h
  ]

  release_keeps :
      (r : State redis.Store × Attempt) (t d : ℕ)
      → P r.0.world
      → P (release_after redis env config r t d).0.world
  unfolding release_after
  release_keeps r t d h = elim (Bool-cases (env.fails r.0.tick)) [
    | inl f ↦ rw (release_after, f) (pause_keeps r.0 h)
    | inr f ↦ rw (release_after, f) (pause_keeps r.0 h)
  ]

  try_keeps :
      (s : State redis.Store) (t d : ℕ)
      → P s.world
      → P (try_offer_to_driver redis env config s t d).0.world
  unfolding try_offer_to_driver
  try_keeps s t d h = elim (Bool-cases (env.fails s.tick)) [
    | inl f ↦ rw (try_offer_to_driver, f) (pause_keeps s h)
    | inr f ↦
        elim (Bool-cases
          (acquire_driver_lock redis (pause env s).keys (env.clock s.tick) d t
            (config.offer_timeout_ms + 5000)).1) [
              | inl g ↦
                  rw (try_offer_to_driver, f, g)
                    (release_keeps _ t d (offer_keeps _ t d (pause_keeps s h)))
              | inr g ↦ rw (try_offer_to_driver, f, g) (pause_keeps s h)
            ]
  ]

  next_keeps :
      (t : ℕ) (ds : List ℕ)
      → ((s : State redis.Store) → P s.world → P (offer_in_turn redis env config s t ds).0.world)
      → (r : State redis.Store × Attempt) → P r.0.world
      → P
          (elim r.1 as (λ _. State redis.Store × Attempt) [
            | passed ↦ offer_in_turn redis env config r.0 t ds
            | accepted ↦ r
            | failed ↦ r
          ]).0.world
  next_keeps t ds go (s, accepted) k = k
  next_keeps t ds go (s, passed) k = go s k
  next_keeps t ds go (s, failed) k = k

  loop_keeps :
      (s : State redis.Store) (t : ℕ) (ds : List ℕ)
      → P s.world
      → P (offer_in_turn redis env config s t ds).0.world
  unfolding offer_in_turn
  loop_keeps s t [] h = h
  loop_keeps s t (d ∷ ds) h =
      next_keeps t ds (λ s' k. loop_keeps s' t ds k) (try_offer_to_driver redis env config s t d)
        (try_keeps s t d h)

  resolve_keeps :
      (s : State redis.Store) (t : ℕ) (reason : CancellationReason) (trip : Trip)
      → P s.world
      → P (resolve_unmatched redis env config s t reason trip).0.world
  unfolding resolve_unmatched
  resolve_keeps s t reason trip h = elim (Bool-cases (env.fails s.tick)) [
    | inl f ↦ rw (resolve_unmatched, f) (pause_keeps s h)
    | inr f ↦
        let done = kept.by_give_up (pause env s).world t reason (pause_keeps s h) in
        elim (Option-cases (mark_trip_unmatched (pause env s).world.db t reason).1) [
          | inr (u, g) ↦ rw (resolve_unmatched, f, g) done
          | inl g ↦ elim (Bool-cases (env.fails (pause env s).tick)) [
            | inl f' ↦ rw (resolve_unmatched, f, g, f') (pause_keeps _ done)
            | inr f' ↦ rw (resolve_unmatched, f, g, f') (pause_keeps _ done)
          ]
        ]
  ]

  conclude_keeps :
      (r : State redis.Store × Attempt) (t : ℕ) (trip : Trip)
      → P r.0.world
      → P (conclude redis env config r t trip).0.world
  unfolding conclude
  conclude_keeps (s, accepted) t trip h = elim (Bool-cases (env.fails s.tick)) [
    | inl f ↦ rw (conclude, f) (pause_keeps s h)
    | inr f ↦ rw (conclude, f) (pause_keeps s h)
  ]
  conclude_keeps (s, passed) t trip h = resolve_keeps s t all_candidates_declined trip h
  conclude_keeps (s, failed) t trip h = h

  candidates_keep :
      (s : State redis.Store) (t : ℕ) (trip : Trip) (cs : List NearbyDriver)
      → P s.world
      → P (try_candidates redis env config s t trip cs).0.world
  unfolding try_candidates
  candidates_keep s t trip [] h = resolve_keeps s t no_drivers_available trip h
  candidates_keep s t trip (c ∷ cs) h = conclude_keeps _ t trip (loop_keeps _ t _ (pause_keeps s h))

  search_keeps :
      (s : State redis.Store) (t : ℕ) (trip : Trip)
      → P s.world
      → P (start_search redis env config s t trip).0.world
  unfolding start_search
  search_keeps s t trip h = elim (Bool-cases (env.fails s.tick)) [
    | inl f ↦ rw (start_search, f) (pause_keeps s h)
    | inr f ↦ rw (start_search, f) (candidates_keep _ t trip _ (pause_keeps s h))
  ]

  pub match_trip_keeps :
      (s : State redis.Store) (t : ℕ) → P s.world → P (match_trip redis env config s t).0.world
  unfolding match_trip
  match_trip_keeps s t h = elim (Bool-cases (env.fails s.tick)) [
    | inl f ↦ rw (match_trip, f) (pause_keeps s h)
    | inr f ↦ elim (Option-cases (find_trip_by_id (pause env s).world.db t)) [
      | inl g ↦ rw (match_trip, f, g) (pause_keeps s h)
      | inr (trip, g) ↦ elim (Bool-cases (is_requested trip.status)) [
        | inl q ↦ rw (match_trip, f, g, q) (search_keeps _ t trip (pause_keeps s h))
        | inr q ↦ rw (match_trip, f, g, q) (pause_keeps s h)
      ]
    ]
  ]

-- If, at the start, no driver is on two active trips and none on an active trip is 'online', then so it is
-- after an attempt to match a trip, whatever fails, whoever answers what, and whatever happens between its
-- calls, as long as that keeps both: it neither books a driver twice nor puts one on an active trip 'online'.
pub match_trip-IsBooked :
    (redis : KeyStore) (env : Env redis.Store) (config : MatchingRuntimeConfig)
    (s : State redis.Store) (trip_id : ℕ)
    → ((n : ℕ) (w : World) → IsBooked w.db → IsBooked (env.others n w).db)
    → IsBooked s.world.db
    → IsBooked (match_trip redis env config s trip_id).0.world.db
unfolding execute
match_trip-IsBooked redis env config s trip_id others h =
    match_trip_keeps redis env config (λ w. IsBooked w.db)
      (record {
        by_others = others;
        by_match = λ w now t d v. execute-IsBooked w.db (finalize now t d) v tt;
        by_busy = λ w now d v. v;
        by_give_up = λ w t reason v. execute-IsBooked w.db (give_up t reason) v tt;
      })
      s trip_id h
