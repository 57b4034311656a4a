-- ===== src/Matching/Quiet/Attempts.antt =====
-- The offers of a quiet attempt under their locks, and the loop of offers (core/src/services/matching.service.ts).
use ride_location_tracking_e.Common.{
  ℕ, ◌+◌, ◌*◌, ◌≡◌, ◌≤◌, length, refl, sym, ap, ◌∙◌, ==_iff, ==_refl, Bool, true, false, Option,
  none, some, List, [], ◌∷◌, arith, if◌then◌else◌, ◌==◌, Bool-cases, Option-cases, inl, inr,
}
use ride_location_tracking_e.Common.Map
use ride_location_tracking_e.Database.{Trip, can_take}
use ride_location_tracking_e.Live.{World}
use ride_location_tracking_e.Lock.{KeyStore, acquire_driver_lock, release_driver_lock}
use ride_location_tracking_e.Matching.{
  Env, State, locked, Attempt, accepted, passed, failed, offer, release_after, try_offer_to_driver,
  offer_in_turn,
}
use ride_location_tracking_e.Matching.Score.{MatchingRuntimeConfig}
use ride_location_tracking_e.Matching.Quiet.{
  Drivers, IsQuiet, IsSteady, is_willing, first_willing, Tried,
}
use ride_location_tracking_e.Matching.Quiet.Offers.{pick, answer, pause_quiet, offer_quiet}

module _ (redis : KeyStore) (env : Env redis.Store) (config : MatchingRuntimeConfig) (t : ℕ)
    (drivers : Drivers) (q : IsQuiet env config t drivers) (last : ℕ) where
  open redis use {Store, get, set_nx}

  del-IsSteady :
      (k : Store) (d now ttl : ℕ)
      → IsSteady redis env drivers last k
      → drivers.holder d ≡ none
      → IsSteady redis env drivers last (redis.del (set_nx k now d t ttl).0 d)
  del-IsSteady k d now ttl h free j n before =
      let later = env.clock n in
      elim (Bool-cases (d == j)) [
        | inl e ↦
            let same = (==_iff d j).0 e in
            rw (redis.get-del (set_nx k now d t ttl).0 d later j, e)
              (sym free ∙ ap drivers.holder same)
        | inr e ↦
            rw
              (
                redis.get-del (set_nx k now d t ttl).0 d later j,
                e,
                redis.set_other k now d t ttl later j e,
              )
              (h j n before)
      ]

  set_nx-IsSteady :
      (k : Store) (d m ttl u : ℕ)
      → m ≤ last
      → IsSteady redis env drivers last k
      → drivers.holder d ≡ some u
      → IsSteady redis env drivers last (set_nx k (env.clock m) d t ttl).0
  set_nx-IsSteady k d m ttl u in_time h held j n before =
      let now = env.clock m in
      let later = env.clock n in
      elim (Bool-cases (d == j)) [
        | inl e ↦
            let same = (==_iff d j).0 e in
            rw (← same)
              ((redis.set_held k now d t ttl u (h d m in_time ∙ held)).1 later ∙ h d n before)
        | inr e ↦ redis.set_other k now d t ttl later j e ∙ h j n before
      ]

  release_quiet :
      (k : Store) (n : ℕ) (r : State Store × Attempt) (d : ℕ)
      → r.0.keys ≡ (set_nx k (env.clock n) d t (config.offer_timeout_ms + 5000)).0
      → n ≤ r.0.tick
      → r.0.tick ≤ n + 4
      → n ≤ last
      → IsSteady redis env drivers last k
      → drivers.holder d ≡ none
      → (let r' = release_after redis env config r t d in
          ((r'.0.world ≡ r.0.world)
            × (r'.1 ≡ r.1)
            × (r'.0.tick ≡ r.0.tick + 1)
            × IsSteady redis env drivers last r'.0.keys))
  unfolding release_after release_driver_lock
  release_quiet k n r d e early late before h free =
      rw
        (
          release_after,
          pause_quiet redis env config t drivers q r.0,
          q.no_failure r.0.tick,
          release_driver_lock,
          e,
          redis.set_stays k (env.clock n) d t (config.offer_timeout_ms + 5000) (env.clock r.0.tick)
              (h d n before ∙ free) (q.in_time n r.0.tick early late),
          ==_refl t,
        )
        (refl, refl, refl, del-IsSteady k d (env.clock n) (config.offer_timeout_ms + 5000) h free)

  transport-Tried :
      (w : World) (trip : Trip) (o : Option ℕ) (r r' : State Store × Attempt)
      → r'.0.world ≡ r.0.world
      → r'.1 ≡ r.1
      → Tried w t trip o r
      → Tried w t trip o r'
  transport-Tried w trip none r r' a b h = (b ∙ h.0, a ∙ h.1)
  transport-Tried w trip (some d) r r' a b h = (b ∙ h.0, (h.1.0, h.1.1, a ∙ h.1.2))

  -- One try takes five calls at most.
  record IsTried (n : ℕ) (w : World) (trip : Trip) (o : Option ℕ) (r : State Store × Attempt)
      : Type 0 where
    tried : Tried w t trip o r
    late : r.0.tick ≤ n + 5
    steady : IsSteady redis env drivers last r.0.keys

  abbrev under_lock : State Store → ℕ → State Store
  under_lock s d = record {
    world = s.world;
    keys = (set_nx s.keys (env.clock s.tick) d t (config.offer_timeout_ms + 5000)).0;
    tick = s.tick + 1;
    log = locked d t ∷ s.log;
  }

  free_quiet :
      (s : State Store) (trip : Trip) (d : ℕ)
      → Map.get s.world.db.trips t ≡ some trip
      → can_take (some trip) ≡ true
      → s.tick ≤ last
      → IsSteady redis env drivers last s.keys
      → drivers.holder d ≡ none
      → IsTried s.tick s.world trip
          (pick (answer drivers s.world d) d)
          (release_after redis env config (offer redis env config (under_lock s d) t d) t d)
  free_quiet s trip d e c before h g =
      let o = offer_quiet redis env config t drivers q (under_lock s d) trip d e c in
      let r = offer redis env config (under_lock s d) t d in
      let back =
        release_quiet s.keys s.tick r d o.keys (omega (arith, o.early)) (omega (arith, o.late))
          before h g in
      record {
        tried =
            transport-Tried s.world trip (pick (answer drivers s.world d) d) r
              (release_after redis env config r t d) back.0 back.1 o.tried;
        late = omega (arith, o.late, back.2);
        steady = back.3;
      }

  try_quiet :
      (s : State Store) (trip : Trip) (d : ℕ)
      → Map.get s.world.db.trips t ≡ some trip
      → can_take (some trip) ≡ true
      → s.tick ≤ last
      → IsSteady redis env drivers last s.keys
      → IsTried s.tick s.world trip
          (pick (is_willing drivers s.world d) d)
          (try_offer_to_driver redis env config s t d)
  unfolding try_offer_to_driver acquire_driver_lock
  try_quiet s trip d e c before h = elim (Option-cases (drivers.holder d)) [
    | inr (u, g) ↦
        rw
          (
            try_offer_to_driver,
            acquire_driver_lock,
            pause_quiet redis env config t drivers q s,
            q.no_failure s.tick,
            g,
            (redis.set_held s.keys (env.clock s.tick) d t (config.offer_timeout_ms + 5000) u
                (h d s.tick before ∙ g)).0,
          )
          (record {
            tried = (refl, refl);
            late = omega arith;
            steady = set_nx-IsSteady s.keys d s.tick (config.offer_timeout_ms + 5000) u before h g;
          })
    | inl g ↦
        rw
          (
            try_offer_to_driver,
            acquire_driver_lock,
            pause_quiet redis env config t drivers q s,
            q.no_failure s.tick,
            g,
            redis.set_free s.keys (env.clock s.tick) d t (config.offer_timeout_ms + 5000)
                (h d s.tick before ∙ g),
          )
          (free_quiet s trip d e c before h g)
  ]

  next_quiet :
      (w : World) (trip : Trip) (d n : ℕ) (ds : List ℕ) (b : Bool)
      → n + 5 + 5 * length ds ≤ last
      → ((s : State Store)
          → s.world ≡ w
          → s.tick + 5 * length ds ≤ last
          → IsSteady redis env drivers last s.keys
          → Tried w t trip (first_willing drivers w ds) (offer_in_turn redis env config s t ds))
      → (r : State Store × Attempt) → IsTried n w trip (pick b d) r
      → Tried w t trip
          (if b then some d else first_willing drivers w ds)
          (elim r.1 as (λ _. State Store × Attempt) [
            | passed ↦ offer_in_turn redis env config r.0 t ds
            | accepted ↦ r
            | failed ↦ r
          ])
  next_quiet w trip d n ds true room go r h =
      rw (h.tried.0) (transport-Tried w trip (some d) r r refl refl h.tried)
  next_quiet w trip d n ds false room go r h =
      rw (h.tried.0) (go r.0 h.tried.1 (omega (arith, h.late, room)) h.steady)

  -- The trip goes to the first willing driver of the list.
  pub loop_quiet :
      (w : World) (trip : Trip)
      → Map.get w.db.trips t ≡ some trip
      → can_take (some trip) ≡ true
      → (s : State Store) (ds : List ℕ) → s.world ≡ w
      → s.tick + 5 * length ds ≤ last
      → IsSteady redis env drivers last s.keys
      → Tried w t trip (first_willing drivers w ds) (offer_in_turn redis env config s t ds)
  unfolding offer_in_turn
  loop_quiet w trip e c s [] same room h = (refl, same)
  loop_quiet w trip e c s (d ∷ ds) same room h =
      next_quiet w trip d s.tick ds (is_willing drivers w d) (omega (arith, room))
        (λ s' same' room' h'. loop_quiet w trip e c s' ds same' room' h')
        (try_offer_to_driver redis env config s t d)
        (rw (← same) (try_quiet s trip d (rw same e) c (omega (arith, room)) h))
