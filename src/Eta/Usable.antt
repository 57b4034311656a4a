-- ===== src/Eta/Usable.antt =====
-- Which replies count as an estimate (core/src/services/ml-eta-client.ts).
use ride_location_tracking_e.Common.{
  ℕ, ◌≡◌, ◌↔◌, refl, ◌∙◌, true, false, Option, none, some, arith, if◌then◌else◌, Bool-cases,
  Option-cases, inl, inr,
}
use ride_location_tracking_e.Common.Int.{pos, negsuc}
use ride_location_tracking_e.Eta.Replies.{
  finite, infinite, Json, null, boolean, number, string, array, object, Fields, Reply, aborted,
  refused, responded, is_ok, get_field, measure, text_of,
}
use ride_location_tracking_e.Eta.Clients.{
  MlEtaPrediction, FailureReason, success, failure, prediction, parse_prediction, fetch_ml_eta,
}
use Prim.Native.String.{String}
use text.Mathlib.Text.{◌==◌}

-- A successful reply with the three fields: two numbers that are finite and not negative, and a text that
-- is not empty.
pub record IsPrediction (reply : Reply) (p : MlEtaPrediction) : Type 0 where
  pub status : ℕ
  pub fields : Fields
  pub replied : reply ≡ responded status (some (object fields))
  pub succeeded : is_ok status ≡ true
  pub eta :
      get_field "predicted_duration_seconds" fields ≡ some (number (finite (pos p.eta_seconds)))
  pub distance : get_field "distance_meters" fields ≡ some (number (finite (pos p.distance_meters)))
  pub version : get_field "model_version" fields ≡ some (string p.model_version)
  pub named : (p.model_version == "") ≡ false

pub measured : (v : Option Json) (n : ℕ) → measure v ≡ some n → v ≡ some (number (finite (pos n)))
measured none n e = absurd (ground (arith, e))
measured (some (number (finite (pos m)))) n e = ground (arith, e)
measured (some (number (finite (negsuc m)))) n e = absurd (ground (arith, e))
measured (some (number infinite)) n e = absurd (ground (arith, e))
measured (some null) n e = absurd (ground (arith, e))
measured (some (boolean b)) n e = absurd (ground (arith, e))
measured (some (string s)) n e = absurd (ground (arith, e))
measured (some (array xs)) n e = absurd (ground (arith, e))
measured (some (object fs)) n e = absurd (ground (arith, e))

worded : (v : Option Json) (s : String) → text_of v ≡ some s → v ≡ some (string s)
worded none s e = absurd (ground (arith, e))
worded (some (string t)) s e = ground (arith, e)
worded (some (number x)) s e = absurd (ground (arith, e))
worded (some null) s e = absurd (ground (arith, e))
worded (some (boolean b)) s e = absurd (ground (arith, e))
worded (some (array xs)) s e = absurd (ground (arith, e))
worded (some (object fs)) s e = absurd (ground (arith, e))

-- The fields of the prediction that was read.
prediction_inv :
    (e d : Option ℕ) (v : Option String) (p : MlEtaPrediction)
    → prediction e d v ≡ some p
    → (e ≡ some p.eta_seconds)
      × (d ≡ some p.distance_meters)
      × (v ≡ some p.model_version)
      × ((p.model_version == "") ≡ false)
unfolding prediction
prediction_inv none d v p h = absurd (ground (arith, h))
prediction_inv (some e) none v p h = absurd (ground (arith, h))
prediction_inv (some e) (some d) none p h = absurd (ground (arith, h))
prediction_inv (some e) (some d) (some v) p h = elim (Bool-cases (v == "")) [
  | inl g ↦ absurd (ground (arith, h, g))
  | inr g ↦ (ground (arith, h, g), ground (arith, h, g), ground (arith, h, g), ground (arith, h, g))
]

parsed :
    (json : Json) (p : MlEtaPrediction)
    → parse_prediction json ≡ some p
    → (fields : Fields) × (json ≡ object fields)
      × (get_field "predicted_duration_seconds" fields ≡ some (number (finite (pos p.eta_seconds))))
      × (get_field "distance_meters" fields ≡ some (number (finite (pos p.distance_meters))))
      × (get_field "model_version" fields ≡ some (string p.model_version))
      × ((p.model_version == "") ≡ false)
unfolding parse_prediction
parsed (object fields) p h =
    let r =
      prediction_inv (measure (get_field "predicted_duration_seconds" fields))
        (measure (get_field "distance_meters" fields)) (text_of (get_field "model_version" fields))
        p h in
    (
      fields,
      refl,
      measured _ p.eta_seconds r.0,
      measured _ p.distance_meters r.1,
      worded _ p.model_version r.2,
      r.3,
    )
parsed null p h = absurd (ground (arith, h))
parsed (boolean b) p h = absurd (ground (arith, h))
parsed (number x) p h = absurd (ground (arith, h))
parsed (string s) p h = absurd (ground (arith, h))
parsed (array xs) p h = absurd (ground (arith, h))

ml_ok :
    (reply : Reply) (p : MlEtaPrediction) → fetch_ml_eta reply ≡ success p → IsPrediction reply p
unfolding fetch_ml_eta
ml_ok aborted p h = absurd (ground (arith, h))
ml_ok refused p h = absurd (ground (arith, h))
ml_ok (responded status none) p h = absurd (ground (arith, h))
ml_ok (responded status (some json)) p h = elim (Bool-cases (is_ok status)) [
  | inr g ↦ absurd (ground (arith, h, g))
  | inl g ↦ elim (Option-cases (parse_prediction json)) [
    | inl e ↦ absurd (ground (arith, h, g, e))
    | inr (q, e) ↦
        let same : some q ≡ some p = ground (arith, h, g, e) in
        let r = parsed json p (e ∙ same) in
        record {
          status = status;
          fields = r.0;
          replied = rw (r.1) refl;
          succeeded = g;
          eta = r.2;
          distance = r.3;
          version = r.4;
          named = r.5;
        }
  ]
]

-- Why a reply is no estimate.
abbrev pub reason_of : Reply → FailureReason
reason_of aborted = FailureReason.timeout
reason_of refused = FailureReason.unreachable
reason_of (responded status body) =
    if is_ok status then FailureReason.malformed_response else FailureReason.error_status

ml_failed :
    (reply : Reply) (f : FailureReason) → fetch_ml_eta reply ≡ failure f → f ≡ reason_of reply
unfolding fetch_ml_eta
ml_failed aborted f h = ground (arith, h)
ml_failed refused f h = ground (arith, h)
ml_failed (responded status none) f h = ground (arith, h)
ml_failed (responded status (some json)) f h = elim (Option-cases (parse_prediction json)) [
  | inl e ↦ ground (arith, h, e)
  | inr (q, e) ↦ ground (arith, h, e)
]

-- The prediction service's reply counts as the estimate exactly if it is a successful reply whose body has
-- two finite numbers that are not negative and a model version that is not empty, and the estimate is
-- what these say; where it fails, an aborted request is a 'timeout', one that throws is 'unreachable', a
-- status outside 200 to 299 is an 'error_status', and any other reply is a 'malformed_response'.
pub fetch_ml_eta-IsPrediction :
    (reply : Reply) (p : MlEtaPrediction)
    → ((fetch_ml_eta reply ≡ success p) ↔ IsPrediction reply p)
      × ((f : FailureReason) → fetch_ml_eta reply ≡ failure f → f ≡ reason_of reply)
unfolding fetch_ml_eta parse_prediction prediction
fetch_ml_eta-IsPrediction reply p = (
  (ml_ok reply p, λ u. rw (u.replied, u.succeeded, u.eta, u.distance, u.version, u.named) refl),
  ml_failed reply,
)
