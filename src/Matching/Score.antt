-- ===== src/Matching/Score.antt =====
-- core/src/services/matching-score.ts, driver-rating.service.ts, matching-config.ts, and the ranking of
-- core/src/services/matching.service.ts. Ratings and weights are fixed-point numbers (ratings in
-- thousandths), and the score is multiplied by 1000, the search radius and the longest idle time, which
-- keeps its order.
use ride_location_tracking_e.Common.{
  ℕ, ◌+◌, ◌-◌, ◌*◌, ◌%◌, ◌^◌, Option, none, some, List, [], ◌∷◌, if◌then◌else◌, min, ltb, ◌==◌,
}
use ride_location_tracking_e.Common.Int.{ℤ, pos, pos_part, ◌-ℤ◌}
use ride_location_tracking_e.Live.{NearbyDriver}

pub record MatchingRuntimeConfig : Type 0 where
  pub search_radius_meters : ℕ
  pub max_candidates : ℕ
  pub offer_timeout_ms : ℕ
  pub distance_weight : ℕ
  pub idle_time_weight : ℕ
  pub rating_weight : ℕ
  pub max_idle_time_ms : ℕ

pub record ScoringInput : Type 0 where
  pub distance_meters : ℕ
  pub idle_time_ms : ℤ
  pub rating_score : ℤ

-- `1 - min(distance / radius, 1)`, times the radius.
unfoldable pub distance_score : ScoringInput → MatchingRuntimeConfig → ℕ
distance_score input weights =
    weights.search_radius_meters - min input.distance_meters weights.search_radius_meters

-- `min(max(idle, 0) / longest, 1)`, times the longest.
unfoldable pub idle_score : ScoringInput → MatchingRuntimeConfig → ℕ
idle_score input weights = min (pos_part input.idle_time_ms) weights.max_idle_time_ms

-- `min(max(rating, 0), 1)`, in thousandths.
unfoldable pub rating_part : ScoringInput → ℕ
rating_part input = min (pos_part input.rating_score) 1000

unfoldable pub score_candidate : ScoringInput → MatchingRuntimeConfig → ℕ
score_candidate input weights =
    weights.distance_weight * (distance_score input weights * weights.max_idle_time_ms * 1000)
    + weights.idle_time_weight * (idle_score input weights * weights.search_radius_meters * 1000)
    + weights.rating_weight
      * (rating_part input * weights.search_radius_meters * weights.max_idle_time_ms)

-- The rolling 32-bit hash of the id's codes.
unfoldable pub hash_codes : ℕ → List ℕ → ℕ
hash_codes hash [] = hash
hash_codes hash (c ∷ cs) = hash_codes ((hash * 31 + c) % 2 ^ 32) cs

unfoldable pub get_driver_rating_score : List ℕ → ℕ
get_driver_rating_score codes = hash_codes 0 codes % 1000

-- `onlineSinceMs ? now - onlineSinceMs : 0`
unfoldable pub idle_time : ℕ → Option ℕ → ℤ
idle_time now none = pos 0
idle_time now (some since) = if since == 0 then pos 0 else pos now -ℤ pos since

unfoldable pub scored : MatchingRuntimeConfig → ℕ → (ℕ → List ℕ) → NearbyDriver → ℕ
scored config now id_codes c =
    score_candidate
      (record {
        distance_meters = c.distance_meters;
        idle_time_ms = idle_time now c.online_since_ms;
        rating_score = pos (get_driver_rating_score (id_codes c.driver_id));
      })
      config

module _ (score : NearbyDriver → ℕ) where
  -- In front of the first element that does not score higher.
  unfoldable pub insert : NearbyDriver → List NearbyDriver → List NearbyDriver
  insert c [] = c ∷ []
  insert c (d ∷ ds) =
      let rest = insert c ds in if ltb (score c) (score d) then d ∷ rest else c ∷ d ∷ ds

  -- `scored.sort((a, b) => b.score - a.score)`, which is stable.
  unfoldable pub sort : List NearbyDriver → List NearbyDriver
  sort [] = []
  sort (c ∷ cs) = insert c (sort cs)

unfoldable pub ids : List NearbyDriver → List ℕ
ids [] = []
ids (c ∷ cs) = c.driver_id ∷ ids cs

unfoldable pub ranked : MatchingRuntimeConfig → ℕ → (ℕ → List ℕ) → List NearbyDriver → List ℕ
ranked config now id_codes cs = ids (sort (scored config now id_codes) cs)
