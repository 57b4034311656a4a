-- ===== src/Eta/Clients.antt =====
-- core/src/services/ml-eta-client.ts and core/src/services/osrm-client.ts, from what `fetch` answers to their
-- result. The `detail` of a failure, a text for the log, is left out.
use ride_location_tracking_e.Common.{
  ◌≡◌, refl, ◌⊎◌, inl, inr, ℕ, Bool, false, not, Option, none, some, if◌then◌else◌,
}
use ride_location_tracking_e.Eta.Replies.{
  Json, array, object, cons, Fields, Reply, aborted, refused, responded, is_ok, get_field, measure,
  text_of,
}
use Prim.Native.String.{String}
use text.Mathlib.Text.{◌==◌}

pub record MlEtaPrediction : Type 0 where
  pub eta_seconds : ℕ
  pub distance_meters : ℕ
  pub model_version : String

pub record OsrmRoute : Type 0 where
  pub distance_meters : ℕ
  pub duration_seconds : ℕ

pub data FailureReason : Type 0 where
  unreachable timeout no_route error_status malformed_response : FailureReason

pub data Outcome (A : Type 0) : Type 0 where
  success : A → Outcome A
  failure : FailureReason → Outcome A

-- `parsePrediction`, once the three fields are read.
unfoldable pub prediction : Option ℕ → Option ℕ → Option String → Option MlEtaPrediction
prediction (some e) (some d) (some v) =
    if v == ""
    then none
    else some (record { eta_seconds = e; distance_meters = d; model_version = v })
prediction _ _ _ = none

unfoldable pub parse_prediction : Json → Option MlEtaPrediction
parse_prediction (object fields) =
    prediction (measure (get_field "predicted_duration_seconds" fields))
      (measure (get_field "distance_meters" fields)) (text_of (get_field "model_version" fields))
parse_prediction _ = none

unfoldable pub fetch_ml_eta : Reply → Outcome MlEtaPrediction
fetch_ml_eta aborted = failure timeout
fetch_ml_eta refused = failure unreachable
fetch_ml_eta (responded status body) =
    if not (is_ok status) then failure error_status else elim body [
      | none ↦ failure malformed_response
      | some json ↦ elim (parse_prediction json) [
        | none ↦ failure malformed_response
        | some p ↦ success p
      ]
    ]

-- `parseRoute`, once the two fields are read.
unfoldable pub route : Option ℕ → Option ℕ → Option OsrmRoute
route (some d) (some t) = some (record { distance_meters = d; duration_seconds = t })
route _ _ = none

-- The first of `body.routes`.
abbrev pub first_fields : Option Json → Option Fields
first_fields (some (array (cons (object fields) rest))) = some fields
first_fields _ = none

unfoldable pub parse_route : Json → Option OsrmRoute
parse_route (object fields) = elim (first_fields (get_field "routes" fields)) [
  | none ↦ none
  | some first ↦ route (measure (get_field "distance" first)) (measure (get_field "duration" first))
]
parse_route _ = none

-- The body has a text as its `code`, other than "Ok".
unfoldable pub is_refusal : Json → Bool
is_refusal (object fields) = elim (text_of (get_field "code" fields)) [
  | none ↦ false
  | some code ↦ not (code == "Ok")
]
is_refusal _ = false

unfoldable pub fetch_osrm_route : Reply → Outcome OsrmRoute
fetch_osrm_route aborted = failure timeout
fetch_osrm_route refused = failure unreachable
fetch_osrm_route (responded status none) =
    if is_ok status then failure malformed_response else failure error_status
fetch_osrm_route (responded status (some json)) =
    if is_refusal json
    then failure no_route
    else if not (is_ok status)
    then failure error_status
    else elim (parse_route json) [ none ↦ failure malformed_response | some r ↦ success r ]

pub Outcome-cases :
    {A : Type 0} (o : Outcome A)
    → ((a : A) × (o ≡ success a)) ⊎ ((f : FailureReason) × (o ≡ failure f))
Outcome-cases (success a) = inl (a, refl)
Outcome-cases (failure f) = inr (f, refl)
