-- ===== src/Matching/Locks.antt =====
-- The locks that an attempt to match a trip takes and gives back (core/src/services/matching.service.ts).
use ride_location_tracking_e.Common.{
  ℕ, ◌+◌, ◌-◌, ◌≡◌, ◌⊎◌, refl, Bool, true, false, ◌&&◌, List, [], ◌∷◌, arith, ◌==◌, if◌then◌else◌,
  Bool-cases, Option-cases, inl, inr, ◌∙◌, subst,
}
use ride_location_tracking_e.Database.{
  CancellationReason, Trip, try_finalize_match, mark_trip_unmatched, find_trip_by_id, is_requested,
  no_drivers_available, all_candidates_declined,
}
use ride_location_tracking_e.Live.{NearbyDriver}
use ride_location_tracking_e.Lock.{KeyStore, acquire_driver_lock}
use ride_location_tracking_e.Matching.{
  Env, State, Attempt, accepted, passed, failed, Effect, Result, threw, pause, send_to_driver,
  confirm, finalize, offer, release_after, try_offer_to_driver, offer_in_turn, resolve_unmatched,
  conclude, try_candidates, start_search, match_trip, locked, unlocked,
}
use ride_location_tracking_e.Matching.Score.{MatchingRuntimeConfig}

-- Without the first of the pairs that is (d, t).
pub without : ℕ → ℕ → List (ℕ × ℕ) → List (ℕ × ℕ)
without d t [] = []
without d t ((e, u) ∷ xs) =
    let rest = without d t xs in if e == d && u == t then xs else (e, u) ∷ rest

-- The locks (driver and trip) that a log, its last effect first, leaves taken.
pub open_locks : List Effect → List (ℕ × ℕ)
unfolding without
open_locks [] = []
open_locks (locked d t ∷ log) = (d, t) ∷ open_locks log
open_locks (unlocked d t ∷ log) = without d t (open_locks log)
open_locks (_ ∷ log) = open_locks log

module _ (redis : KeyStore) (env : Env redis.Store) (config : MatchingRuntimeConfig) where
  confirm_open :
      (s : State redis.Store) (t d : ℕ)
      → open_locks (confirm redis env config s t d).0.log ≡ open_locks s.log
  unfolding confirm open_locks pause send_to_driver
  confirm_open s t d = ground arith

  finalize_open :
      (s : State redis.Store) (t d : ℕ)
      → open_locks (finalize redis env config s t d).0.log ≡ open_locks s.log
  unfolding finalize pause
  finalize_open s t d = elim (Bool-cases (env.fails s.tick)) [
    | inl f ↦ rw (finalize, f) refl
    | inr f ↦
        elim (Bool-cases (try_finalize_match (pause env s).world.db (env.clock s.tick) t d).1) [
          | inl g ↦ rw (finalize, f, g) (confirm_open _ t d)
          | inr g ↦ rw (finalize, f, g) refl
        ]
  ]

  offer_open :
      (s : State redis.Store) (t d : ℕ)
      → open_locks (offer redis env config s t d).0.log ≡ open_locks s.log
  unfolding offer send_to_driver open_locks pause
  offer_open s t d = elim (Bool-cases (env.connected s.tick d)) [
    | inl c ↦ elim (Bool-cases (env.accepts s.tick t d)) [
      | inl a ↦ rw (offer, send_to_driver, c, a) (finalize_open _ t d)
      | inr a ↦ rw (offer, send_to_driver, c, a) refl
    ]
    | inr c ↦ rw (offer, send_to_driver, c) refl
  ]

  abbrev pub has_failed : Attempt → Bool
  has_failed failed = true
  has_failed _ = false

  -- The locks are those `before`, or the last call was the release of one, and it threw.
  abbrev pub IsReturned : List (ℕ × ℕ) → ℕ → State redis.Store × Bool → Type 0
  IsReturned before t r =
      (open_locks r.0.log ≡ before)
      ⊎ ((d : ℕ) × (open_locks r.0.log ≡ (d, t) ∷ before)
          × (env.fails (r.0.tick - 1) ≡ true)
          × (r.1 ≡ true))

  release_returns :
      (r : State redis.Store × Attempt) (t d : ℕ) (before : List (ℕ × ℕ))
      → open_locks r.0.log ≡ (d, t) ∷ before
      → IsReturned before t (
        (release_after redis env config r t d).0,
        has_failed (release_after redis env config r t d).1,
      )
  unfolding release_after open_locks pause without
  release_returns r t d before h = elim (Bool-cases (env.fails r.0.tick)) [
    | inl f ↦ rw (release_after, f) (inr (d, h, ground (arith, f), refl))
    | inr f ↦ rw (release_after, f) (inl (ground (arith, h)))
  ]

  try_returns :
      (s : State redis.Store) (t d : ℕ)
      → IsReturned (open_locks s.log) t (
        (try_offer_to_driver redis env config s t d).0,
        has_failed (try_offer_to_driver redis env config s t d).1,
      )
  unfolding try_offer_to_driver open_locks pause release_after without
  try_returns s t d = elim (Bool-cases (env.fails s.tick)) [
    | inl f ↦ rw (try_offer_to_driver, f) (inl refl)
    | inr f ↦
        elim (Bool-cases
          (acquire_driver_lock redis (pause env s).keys (env.clock s.tick) d t
            (config.offer_timeout_ms + 5000)).1) [
              | inl g ↦
                  rw (try_offer_to_driver, f, g)
                    (release_returns _ t d (open_locks s.log) (offer_open _ t d))
              | inr g ↦ rw (try_offer_to_driver, f, g) (inl refl)
            ]
  ]

  next_returns :
      (before : List (ℕ × ℕ)) (t : ℕ) (ds : List ℕ)
      → ((s : State redis.Store)
          → open_locks s.log ≡ before
          → IsReturned before t (
            (offer_in_turn redis env config s t ds).0,
            has_failed (offer_in_turn redis env config s t ds).1,
          ))
      → (r : State redis.Store × Attempt) → IsReturned before t (r.0, has_failed r.1)
      → (let q = (elim r.1 as (λ _. State redis.Store × Attempt) [
        | passed ↦ offer_in_turn redis env config r.0 t ds
        | accepted ↦ r
        | failed ↦ r
      ]) in
          IsReturned before t (q.0, has_failed q.1))
  next_returns before t ds go (s, accepted) k = k
  next_returns before t ds go (s, passed) (inl k) = go s k
  next_returns before t ds go (s, passed) (inr k) = absurd (ground (arith, k.3))
  next_returns before t ds go (s, failed) k = k

  loop_returns :
      (s : State redis.Store) (t : ℕ) (ds : List ℕ)
      → IsReturned (open_locks s.log) t (
        (offer_in_turn redis env config s t ds).0,
        has_failed (offer_in_turn redis env config s t ds).1,
      )
  unfolding offer_in_turn
  loop_returns s t [] = inl refl
  loop_returns s t (d ∷ ds) =
      next_returns (open_locks s.log) t ds
        (λ s' k.
          subst
            (λ x. IsReturned x t (
              (offer_in_turn redis env config s' t ds).0,
              has_failed (offer_in_turn redis env config s' t ds).1,
            ))
            k (loop_returns s' t ds))
        (try_offer_to_driver redis env config s t d) (try_returns s t d)

  abbrev pub has_thrown : Result → Bool
  has_thrown threw = true
  has_thrown _ = false

  resolve_open :
      (s : State redis.Store) (t : ℕ) (reason : CancellationReason) (trip : Trip)
      → open_locks (resolve_unmatched redis env config s t reason trip).0.log ≡ open_locks s.log
  unfolding resolve_unmatched pause open_locks
  resolve_open s t reason trip = elim (Bool-cases (env.fails s.tick)) [
    | inl f ↦ rw (resolve_unmatched, f) refl
    | inr f ↦ elim (Option-cases (mark_trip_unmatched (pause env s).world.db t reason).1) [
      | inr (u, g) ↦ rw (resolve_unmatched, f, g) refl
      | inl g ↦ elim (Bool-cases (env.fails (pause env s).tick)) [
        | inl f' ↦ rw (resolve_unmatched, f, g, f') refl
        | inr f' ↦ rw (resolve_unmatched, f, g, f') refl
      ]
    ]
  ]

  conclude_returns :
      (before : List (ℕ × ℕ)) (r : State redis.Store × Attempt) (t : ℕ) (trip : Trip)
      → IsReturned before t (r.0, has_failed r.1)
      → IsReturned before t (
        (conclude redis env config r t trip).0,
        has_thrown (conclude redis env config r t trip).1,
      )
  unfolding conclude pause
  conclude_returns before (s, accepted) t trip (inl k) = elim (Bool-cases (env.fails s.tick)) [
    | inl f ↦ rw (conclude, f) (inl k)
    | inr f ↦ rw (conclude, f) (inl k)
  ]
  conclude_returns before (s, accepted) t trip (inr k) = absurd (ground (arith, k.3))
  conclude_returns before (s, passed) t trip (inl k) =
      inl (resolve_open s t all_candidates_declined trip ∙ k)
  conclude_returns before (s, passed) t trip (inr k) = absurd (ground (arith, k.3))
  conclude_returns before (s, failed) t trip k = k

  candidates_return :
      (s : State redis.Store) (t : ℕ) (trip : Trip) (cs : List NearbyDriver)
      → IsReturned (open_locks s.log) t (
        (try_candidates redis env config s t trip cs).0,
        has_thrown (try_candidates redis env config s t trip cs).1,
      )
  unfolding try_candidates pause
  candidates_return s t trip [] = inl (resolve_open s t no_drivers_available trip)
  candidates_return s t trip (c ∷ cs) =
      conclude_returns (open_locks s.log) _ t trip (loop_returns _ t _)

  search_returns :
      (s : State redis.Store) (t : ℕ) (trip : Trip)
      → IsReturned (open_locks s.log) t (
        (start_search redis env config s t trip).0,
        has_thrown (start_search redis env config s t trip).1,
      )
  unfolding start_search pause
  search_returns s t trip = elim (Bool-cases (env.fails s.tick)) [
    | inl f ↦ rw (start_search, f) (inl refl)
    | inr f ↦ rw (start_search, f) (candidates_return _ t trip _)
  ]

  -- Whatever fails and whoever answers what, an attempt to match a trip has given back every driver's lock
  -- that it took, or its last call was the release of one lock, which failed, and the attempt threw.
  pub match_trip-IsReturned :
      (s : State redis.Store) (trip_id : ℕ)
      → IsReturned (open_locks s.log) trip_id (
        (match_trip redis env config s trip_id).0,
        has_thrown (match_trip redis env config s trip_id).1,
      )
  unfolding match_trip pause
  match_trip-IsReturned s trip_id = elim (Bool-cases (env.fails s.tick)) [
    | inl f ↦ rw (match_trip, f) (inl refl)
    | inr f ↦ elim (Option-cases (find_trip_by_id (pause env s).world.db trip_id)) [
      | inl g ↦ rw (match_trip, f, g) (inl refl)
      | inr (trip, g) ↦ elim (Bool-cases (is_requested trip.status)) [
        | inl q ↦ rw (match_trip, f, g, q) (search_returns _ trip_id trip)
        | inr q ↦ rw (match_trip, f, g, q) (inl refl)
      ]
    ]
  ]
