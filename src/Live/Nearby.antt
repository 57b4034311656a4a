-- ===== src/Live/Nearby.antt =====
-- What `searchNearby` (core/src/repositories/drivers.geo.repository.ts) returns.
use ride_location_tracking_e.Common.{
  ℕ, zero, suc, ◌+◌, ◌<◌, ◌≡◌, refl, false, none, some, List, [], ◌∷◌, arith, leb, ◌==◌,
  if◌then◌else◌, take, Option-cases, inl, inr, All, take-zero, All-take, min, ◌*◌,
}
use ride_location_tracking_e.Common.Map
use ride_location_tracking_e.Common.Map.{get-set, Map}
use ride_location_tracking_e.Domain.{LatLng, busy}
use ride_location_tracking_e.Live.{
  Live, GeoRow, NearbyDriver, admit, collect, search_nearby, get_driver_state,
  update_driver_status_in_redis, hset_state, since_of,
}

-- Every row whose driver is online and fresh, in order.
pub available : ℕ → ℕ → Live → List GeoRow → List NearbyDriver
available stale_ms now live [] = []
available stale_ms now live (row ∷ rows) =
    let rest = available stale_ms now live rows in
    elim (admit stale_ms now row (get_driver_state live row.driver_id)) [
      | none ↦ rest
      | some found ↦ found ∷ rest
    ]

-- One admitted row, with room for `left` more after it.
after_found :
    (stale_ms now : ℕ) (live : Live) (limit count left : ℕ) (rows : List GeoRow)
    (found : NearbyDriver)
    → count + suc left ≡ limit
    → ((l : ℕ)
        → count + 1 + suc l ≡ limit
        → collect stale_ms now live limit (count + 1) rows
          ≡ take (available stale_ms now live rows) (suc l))
    → (if leb limit (count + 1)
        then found ∷ []
        else found ∷ collect stale_ms now live limit (count + 1) rows)
      ≡ found ∷ take (available stale_ms now live rows) left
after_found stale_ms now live limit count zero rows found e ih =
    ground (arith, take-zero (available stale_ms now live rows))
after_found stale_ms now live limit count (suc l) rows found e ih =
    ground (arith, ih l (omega arith))

collect-eq-take :
    (stale_ms now : ℕ) (live : Live) (limit count left : ℕ) (rows : List GeoRow)
    → count + suc left ≡ limit
    → collect stale_ms now live limit count rows
      ≡ take (available stale_ms now live rows) (suc left)
unfolding collect available
collect-eq-take stale_ms now live limit count left [] e = refl
collect-eq-take stale_ms now live limit count left (row ∷ rows) e =
    elim (Option-cases (admit stale_ms now row (get_driver_state live row.driver_id))) [
      | inl a ↦
          rw (a, collect, available) (collect-eq-take stale_ms now live limit count left rows e)
      | inr (found, a) ↦
          rw (a, collect, available)
            (after_found stale_ms now live limit count left rows found e
              (λ l q. collect-eq-take stale_ms now live limit (count + 1) l rows q))
    ]

-- A search with a positive limit returns the first `limit` of the rows whose drivers are online and
-- fresh, in the order of the rows: the loop's early exit loses none of them.
pub search_nearby-eq-take :
    (geosearch : Map LatLng → LatLng → ℕ → ℕ → List GeoRow) (stale_ms now : ℕ) (live : Live)
    (center : LatLng) (radius limit : ℕ)
    → 0 < limit
    → search_nearby geosearch stale_ms now live center radius limit
      ≡ take
          (available stale_ms now live (geosearch live.geo center radius (min (limit * 5) 500)))
          limit
unfolding search_nearby
search_nearby-eq-take geosearch stale_ms now live center radius zero h = absurd (omega arith)
search_nearby-eq-take geosearch stale_ms now live center radius (suc l) h =
    collect-eq-take stale_ms now live (suc l) 0 l
      (geosearch live.geo center radius (min (suc l * 5) 500)) (omega arith)

abbrev Not : ℕ → NearbyDriver → Type 0
Not d r = (r.driver_id == d) ≡ false

admit_busy :
    (stale_ms now at : ℕ) (live : Live) (d : ℕ) (row : GeoRow) (found : NearbyDriver)
    → admit stale_ms now row
        (get_driver_state (update_driver_status_in_redis live at d busy) row.driver_id)
      ≡ some found
    → Not d found
unfolding admit get_driver_state update_driver_status_in_redis hset_state
admit_busy stale_ms now at live d row found e = ground (
  arith,
  e,
  get-set live.states d row.driver_id (record {
    status = busy;
    last_updated_at_ms = at;
    online_since_ms = since_of (Map.get live.states d);
  }),
)

hidden_rows :
    (stale_ms now at : ℕ) (live : Live) (d : ℕ) (rows : List GeoRow)
    → All (Not d) (available stale_ms now (update_driver_status_in_redis live at d busy) rows)
unfolding available
hidden_rows stale_ms now at live d [] = tt
hidden_rows stale_ms now at live d (row ∷ rows) =
    let rest = hidden_rows stale_ms now at live d rows in
    elim (Option-cases (
      admit stale_ms now row
        (get_driver_state (update_driver_status_in_redis live at d busy) row.driver_id))) [
          | inl a ↦ rw (a, available) rest
          | inr (found, a) ↦ rw (a, available) (admit_busy stale_ms now at live d row found a, rest)
        ]

-- Right after a driver's live status is set to 'busy', no search with a positive limit returns the driver, whatever rows Redis
-- answers with.
pub busy_driver_hidden :
    (geosearch : Map LatLng → LatLng → ℕ → ℕ → List GeoRow) (stale_ms now at : ℕ) (live : Live)
    (d : ℕ) (center : LatLng) (radius limit : ℕ)
    → 0 < limit
    → All
        (λ r. (r.driver_id == d) ≡ false)
        (search_nearby geosearch stale_ms now
          (update_driver_status_in_redis live at d busy)
          center
          radius
          limit)
busy_driver_hidden geosearch stale_ms now at live d center radius limit h =
    let after = update_driver_status_in_redis live at d busy in
    rw (search_nearby-eq-take geosearch stale_ms now after center radius limit h) (
      All-take (Not d)
        (available stale_ms now after (geosearch after.geo center radius (min (limit * 5) 500)))
        limit
        (hidden_rows stale_ms now at live d
          (geosearch after.geo center radius (min (limit * 5) 500))))
