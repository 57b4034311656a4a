-- ===== src/Sharding/Regions.antt =====
-- Which region owns a point (core/src/geo/regions.ts).
use ride_location_tracking_e.Common.{
  ℕ, ◌+◌, ◌*◌, ◌≤◌, ◌<◌, ◌≡◌, ◌⊎◌, inl, inr, some, arith, Bool-cases, ltb, subst,
}
use ride_location_tracking_e.Common.Int.{pos_part, neg_part, ◌-ℤ◌, ◌≤ℤ◌}
use ride_location_tracking_e.Domain.{LatLng}
use ride_location_tracking_e.Sharding.Entering.{region_cases}
use ride_location_tracking_e.Sharding.{
  BoundingBox, Region, sf, oakland, west, contains, first_containing, region_for_point,
}

-- In the box, its edges included.
abbrev pub IsInside : BoundingBox → LatLng → Type 0
IsInside b p =
    (b.min_lat ≤ℤ p.lat) × (p.lat ≤ℤ b.max_lat) × (b.min_lng ≤ℤ p.lng) × (p.lng ≤ℤ b.max_lng)

-- West of the meridian.
abbrev pub IsWestOf : ℕ → LatLng → Type 0
IsWestOf meridian p = pos_part p.lng + meridian < neg_part p.lng

west_parts : (n : ℕ) → (pos_part (west n) ≡ 0) × (neg_part (west n) ≡ n)
unfolding ◌-ℤ◌
west_parts n = ground arith

module _ (unit : ℕ) (p : LatLng) where
  owner :
      (q r : Region) → region_for_point unit p ≡ some q → region_for_point unit p ≡ some r → q ≡ r
  owner q r c e = cc

  sf-IsInside : region_for_point unit p ≡ some (sf unit) → IsInside (sf unit).bbox p
  unfolding region_for_point first_containing contains
  sf-IsInside c =
      ground (
        arith,
        c,
        west_parts (122514 * unit),
        west_parts (122386 * unit),
        west_parts (122258 * unit),
      )

  oakland-IsInside : region_for_point unit p ≡ some (oakland unit) → IsInside (oakland unit).bbox p
  unfolding region_for_point first_containing contains
  oakland-IsInside c =
      ground (
        arith,
        c,
        west_parts (122514 * unit),
        west_parts (122386 * unit),
        west_parts (122258 * unit),
      )

-- A point in either box, edges included, is owned: by Oakland from the shared meridian on, and by San Francisco
-- to its west; a point that a region owns is in the region's box.
pub region_for_point-IsInside :
    (unit : ℕ) (p : LatLng)
    → ((IsInside (sf unit).bbox p ⊎ IsInside (oakland unit).bbox p)
        → (IsWestOf (122386 * unit) p × (region_for_point unit p ≡ some (sf unit)))
          ⊎ ((neg_part p.lng ≤ pos_part p.lng + 122386 * unit)
              × (region_for_point unit p ≡ some (oakland unit))))
      × ((r : Region) → region_for_point unit p ≡ some r → IsInside r.bbox p)
unfolding region_for_point first_containing contains
region_for_point-IsInside unit p = (
  λ inside. elim (Bool-cases (ltb (pos_part p.lng + 122386 * unit) (neg_part p.lng))) [
    | inl w ↦ inl (
      ground (arith, w),
      ground (
        arith,
        w,
        inside,
        west_parts (122514 * unit),
        west_parts (122386 * unit),
        west_parts (122258 * unit),
      ),
    )
    | inr w ↦ inr (
      ground (arith, w),
      ground (
        arith,
        w,
        inside,
        west_parts (122514 * unit),
        west_parts (122386 * unit),
        west_parts (122258 * unit),
      ),
    )
  ],
  λ r e. elim (region_cases unit p) [
    | inl c ↦ absurd (ground (arith, c, e))
    | inr (inl c) ↦
        subst (λ t. IsInside t.bbox p) (owner unit p (sf unit) r c e) (sf-IsInside unit p c)
    | inr (inr c) ↦
        subst (λ t. IsInside t.bbox p) (owner unit p (oakland unit) r c e)
          (oakland-IsInside unit p c)
  ],
)
