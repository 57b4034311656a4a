-- ===== src/Eta/Routes.antt =====
-- Which replies count as a route (core/src/services/osrm-client.ts).
use ride_location_tracking_e.Common.{
  ℕ, ◌≡◌, ◌↔◌, refl, ◌∙◌, true, false, Option, none, some, arith, Bool-cases, Option-cases, inl,
  inr,
}
use ride_location_tracking_e.Common.Int.{pos}
use ride_location_tracking_e.Eta.Replies.{
  finite, Json, null, boolean, number, string, array, object, Items, nil, cons, Fields, Reply,
  aborted, refused, responded, is_ok, get_field, measure,
}
use ride_location_tracking_e.Eta.Clients.{
  OsrmRoute, FailureReason, success, failure, route, first_fields, parse_route, is_refusal,
  fetch_osrm_route,
}
use ride_location_tracking_e.Eta.Usable.{measured}

-- A successful reply that is no refusal, with two finite numbers that are not negative in its first route.
pub record IsRoute (reply : Reply) (r : OsrmRoute) : Type 0 where
  pub status : ℕ
  pub fields : Fields
  pub first : Fields
  pub others : Items
  pub replied : reply ≡ responded status (some (object fields))
  pub succeeded : is_ok status ≡ true
  pub accepted : is_refusal (object fields) ≡ false
  pub routes : get_field "routes" fields ≡ some (array (cons (object first) others))
  pub distance : get_field "distance" first ≡ some (number (finite (pos r.distance_meters)))
  pub duration : get_field "duration" first ≡ some (number (finite (pos r.duration_seconds)))

route_inv :
    (d t : Option ℕ) (r : OsrmRoute)
    → route d t ≡ some r
    → (d ≡ some r.distance_meters) × (t ≡ some r.duration_seconds)
unfolding route
route_inv none t r h = absurd (ground (arith, h))
route_inv (some d) none r h = absurd (ground (arith, h))
route_inv (some d) (some t) r h = (ground (arith, h), ground (arith, h))

first_inv :
    (v : Option Json) (first : Fields)
    → first_fields v ≡ some first
    → (others : Items) × (v ≡ some (array (cons (object first) others)))
first_inv none first h = absurd (ground (arith, h))
first_inv (some (array (cons (object fs) rest))) first h = (rest, ground (arith, h))
first_inv (some (array (cons null rest))) first h = absurd (ground (arith, h))
first_inv (some (array (cons (boolean b) rest))) first h = absurd (ground (arith, h))
first_inv (some (array (cons (number x) rest))) first h = absurd (ground (arith, h))
first_inv (some (array (cons (string s) rest))) first h = absurd (ground (arith, h))
first_inv (some (array (cons (array xs) rest))) first h = absurd (ground (arith, h))
first_inv (some (array nil)) first h = absurd (ground (arith, h))
first_inv (some null) first h = absurd (ground (arith, h))
first_inv (some (boolean b)) first h = absurd (ground (arith, h))
first_inv (some (number x)) first h = absurd (ground (arith, h))
first_inv (some (string s)) first h = absurd (ground (arith, h))
first_inv (some (object fs)) first h = absurd (ground (arith, h))

routed :
    (json : Json) (r : OsrmRoute)
    → parse_route json ≡ some r
    → (fields : Fields) × (first : Fields) × (others : Items) × (json ≡ object fields)
      × (get_field "routes" fields ≡ some (array (cons (object first) others)))
      × (get_field "distance" first ≡ some (number (finite (pos r.distance_meters))))
      × (get_field "duration" first ≡ some (number (finite (pos r.duration_seconds))))
unfolding parse_route
routed (object fields) r h = elim (Option-cases (first_fields (get_field "routes" fields))) [
  | inl e ↦ absurd (ground (arith, h, e))
  | inr (first, e) ↦
      let m =
        route_inv (measure (get_field "distance" first)) (measure (get_field "duration" first)) r
          (ground (arith, h, e)) in
      let rest = first_inv (get_field "routes" fields) first e in
      (
        fields,
        first,
        rest.0,
        refl,
        rest.1,
        measured _ r.distance_meters m.0,
        measured _ r.duration_seconds m.1,
      )
]
routed null p h = absurd (ground (arith, h))
routed (boolean b) p h = absurd (ground (arith, h))
routed (number x) p h = absurd (ground (arith, h))
routed (string s) p h = absurd (ground (arith, h))
routed (array xs) p h = absurd (ground (arith, h))

osrm_ok : (reply : Reply) (r : OsrmRoute) → fetch_osrm_route reply ≡ success r → IsRoute reply r
unfolding fetch_osrm_route
osrm_ok aborted r h = absurd (ground (arith, h))
osrm_ok refused r h = absurd (ground (arith, h))
osrm_ok (responded status none) r h = absurd (ground (arith, h))
osrm_ok (responded status (some json)) r h = elim (Bool-cases (is_refusal json)) [
  | inl k ↦ absurd (ground (arith, h, k))
  | inr k ↦ elim (Bool-cases (is_ok status)) [
    | inr g ↦ absurd (ground (arith, h, k, g))
    | inl g ↦ elim (Option-cases (parse_route json)) [
      | inl e ↦ absurd (ground (arith, h, k, g, e))
      | inr (q, e) ↦
          let same : some q ≡ some r = ground (arith, h, k, g, e) in
          let u = routed json r (e ∙ same) in
          record {
            status = status;
            fields = u.0;
            first = u.1;
            others = u.2;
            replied = rw (u.3) refl;
            succeeded = g;
            accepted = rw (← u.3) k;
            routes = u.4;
            distance = u.5;
            duration = u.6;
          }
    ]
  ]
]

-- The routing service's reply counts as a route exactly if it is a successful reply whose body has no text
-- other than "Ok" as its code, and a first route with two finite numbers that are not negative, and the
-- route is what these say; a reply of any status whose body has another code is 'no_route'.
pub fetch_osrm_route-IsRoute :
    (reply : Reply) (r : OsrmRoute)
    → ((fetch_osrm_route reply ≡ success r) ↔ IsRoute reply r)
      × ((status : ℕ) (json : Json)
          → reply ≡ responded status (some json)
          → is_refusal json ≡ true
          → fetch_osrm_route reply ≡ failure FailureReason.no_route)
unfolding fetch_osrm_route parse_route route
fetch_osrm_route-IsRoute reply r = (
  (
    osrm_ok reply r,
    λ u. rw (u.replied, u.accepted, u.succeeded, u.routes, u.distance, u.duration) refl,
  ),
  λ status json e k. rw (e, k) refl,
)
