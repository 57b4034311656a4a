-- ===== src/Matching/Ranking.antt =====
-- The score and the ranking of the candidates (core/src/services/matching-score.ts, matching.service.ts).
use ride_location_tracking_e.Common.{
  ℕ, ◌+◌, ◌*◌, ◌≤◌, ◌≡◌, refl, List, [], ◌∷◌, arith, ltb, mul_mono, ◌==◌, if◌then◌else◌, Bool-cases,
  inl, inr, All, All-mono,
}
use ride_location_tracking_e.Common.Int.{pos_part}
use ride_location_tracking_e.Live.{NearbyDriver}
use ride_location_tracking_e.Matching.Score.{
  MatchingRuntimeConfig, ScoringInput, score_candidate, distance_score, idle_score, rating_part,
  insert, sort,
}

scale_mono : (w x y m n : ℕ) → x ≤ y → w * (x * m * n) ≤ w * (y * m * n)
scale_mono w x y m n h =
    omega
      (arith, mul_mono (x * m * n) (y * m * n) w (mul_mono (x * m) (y * m) n (mul_mono x y m h)))

-- The one is at most as far away, and idle at least as long, and rated at least as high.
pub record IsNoWorse (a b : ScoringInput) : Type 0 where
  pub nearer : a.distance_meters ≤ b.distance_meters
  pub idler : pos_part b.idle_time_ms ≤ pos_part a.idle_time_ms
  pub rated : pos_part b.rating_score ≤ pos_part a.rating_score

weigh_mono :
    (w : MatchingRuntimeConfig) (d d' i i' r r' : ℕ)
    → d ≤ d'
    → i ≤ i'
    → r ≤ r'
    → w.distance_weight * (d * w.max_idle_time_ms * 1000)
        + w.idle_time_weight * (i * w.search_radius_meters * 1000)
        + w.rating_weight * (r * w.search_radius_meters * w.max_idle_time_ms)
      ≤ w.distance_weight * (d' * w.max_idle_time_ms * 1000)
        + w.idle_time_weight * (i' * w.search_radius_meters * 1000)
        + w.rating_weight * (r' * w.search_radius_meters * w.max_idle_time_ms)
weigh_mono w d d' i i' r r' p q t = omega (
  arith,
  scale_mono w.distance_weight d d' w.max_idle_time_ms 1000 p,
  scale_mono w.idle_time_weight i i' w.search_radius_meters 1000 q,
  scale_mono w.rating_weight r r' w.search_radius_meters w.max_idle_time_ms t,
)

-- A candidate who is no farther, no less idle and rated no lower than another scores at least as high,
-- and no score exceeds the sum of the weights (on the score's scale).
pub score-IsNoWorse :
    (a b : ScoringInput) (w : MatchingRuntimeConfig)
    → IsNoWorse a b
    → (score_candidate b w ≤ score_candidate a w)
      × (score_candidate a w
          ≤ (w.distance_weight + w.idle_time_weight + w.rating_weight)
            * (1000 * w.search_radius_meters * w.max_idle_time_ms))
unfolding score_candidate distance_score idle_score rating_part
score-IsNoWorse a b w h = (
  weigh_mono w (distance_score b w) (distance_score a w) (idle_score b w) (idle_score a w)
      (rating_part b) (rating_part a) (ground (arith, h.nearer)) (ground (arith, h.idler))
      (ground (arith, h.rated)),
  grind (
    arith,
    weigh_mono w (distance_score a w) w.search_radius_meters (idle_score a w) w.max_idle_time_ms
        (rating_part a) 1000 (ground arith) (ground arith) (ground arith),
  ),
)

module _ (score : NearbyDriver → ℕ) where
  abbrev pub IsSorted : List NearbyDriver → Type 0
  IsSorted [] = Unit {0}
  IsSorted (c ∷ cs) = All (λ d. score d ≤ score c) cs × IsSorted cs

  -- The candidates of one score, in order.
  abbrev pub scoring : ℕ → List NearbyDriver → List NearbyDriver
  scoring k [] = []
  scoring k (c ∷ cs) = let rest = scoring k cs in if score c == k then c ∷ rest else rest

  All-insert :
      (P : NearbyDriver → Type 0) (c : NearbyDriver) (cs : List NearbyDriver)
      → P c
      → All P cs
      → All P (insert score c cs)
  unfolding insert
  All-insert P c [] p h = (p, tt)
  All-insert P c (d ∷ ds) p h = elim (Bool-cases (ltb (score c) (score d))) [
    | inl e ↦ rw (insert, e) (h.0, All-insert P c ds p h.1)
    | inr e ↦ rw (insert, e) (p, h)
  ]

  insert-IsSorted :
      (c : NearbyDriver) (cs : List NearbyDriver) → IsSorted cs → IsSorted (insert score c cs)
  unfolding insert
  insert-IsSorted c [] h = (tt, tt)
  insert-IsSorted c (d ∷ ds) h = elim (Bool-cases (ltb (score c) (score d))) [
    | inl e ↦
        rw (insert, e)
          (
            All-insert (λ x. score x ≤ score d) c ds (ground (arith, e)) h.0,
            insert-IsSorted c ds h.1,
          )
    | inr e ↦
        let below : score d ≤ score c = ground (arith, e) in
        rw (insert, e)
          (
            (
              below,
              All-mono (λ x. score x ≤ score d) (λ x. score x ≤ score c) ds
                  (λ x g. omega (arith, g, below)) h.0,
            ),
            h,
          )
  ]

  scoring-insert :
      (k : ℕ) (c : NearbyDriver) (cs : List NearbyDriver)
      → scoring k (insert score c cs) ≡ scoring k (c ∷ cs)
  unfolding insert
  scoring-insert k c [] = refl
  scoring-insert k c (d ∷ ds) = ground (arith, scoring-insert k c ds)

  -- The ranking goes from the highest score to the lowest, and keeps every candidate, those of an equal
  -- score in their old order.
  pub sort-IsSorted :
      (cs : List NearbyDriver)
      → IsSorted (sort score cs) × ((k : ℕ) → scoring k (sort score cs) ≡ scoring k cs)
  unfolding sort
  sort-IsSorted [] = (tt, λ k. refl)
  sort-IsSorted (c ∷ cs) =
      let rest = sort-IsSorted cs in
      (
        insert-IsSorted c (sort score cs) rest.0,
        λ k. ground (arith, scoring-insert k c (sort score cs), rest.1 k),
      )
