-- ===== src/TripOffers/Waits.antt =====
-- Every wait for a driver's response ends, once (core/src/ws/trip-offers.ts).
use ride_location_tracking_e.Common.{
  ℕ, ◌≡◌, inl, inr, Bool, true, false, ◌&&◌, not, none, some, List, [], ◌∷◌, if◌then◌else◌,
  Option-cases, arith, is_some, ◌==◌,
}
use ride_location_tracking_e.Common.KeySet
use ride_location_tracking_e.Common.KeySet.{has-add}
use ride_location_tracking_e.Common.Map
use ride_location_tracking_e.Common.Map.{Map, get-set, get-delete, get-empty}
use ride_location_tracking_e.TripOffers.{
  Offers, resolve, wait_for_driver_response, on_timeout, handle_driver_response,
}

pub data Event : Type 0 where
  wait : ℕ → ℕ → Event
  timeout : ℕ → ℕ → Event
  respond : ℕ → Bool → Event

-- The offers, and the waits that were ever started.
pub record History : Type 0 where
  pub offers : Offers
  pub started : List ℕ

unfoldable pub step : History → Event → History
step h (wait w trip) = record {
  offers = wait_for_driver_response h.offers w trip;
  started = KeySet.add h.started w;
}
step h (timeout w trip) = record h { offers = on_timeout h.offers w trip }
step h (respond trip accepted) = record h {
  offers = (handle_driver_response h.offers trip accepted).0;
}

-- A wait is started once, and a timer fires only while it runs.
abbrev pub Allowed : History → Event → Type 0
Allowed h (wait w trip) = KeySet.has h.started w ≡ false
Allowed h (timeout w trip) = Map.get h.offers.timers w ≡ some trip
Allowed h (respond trip accepted) = Unit {0}

pub record IsLive (h : History) : Type 0 where
  -- A started wait has a running timer or a result, never both, and no other wait has either.
  pub one_of :
      (w : ℕ)
      → (is_some (Map.get h.offers.timers w)
          ≡ (KeySet.has h.started w && not (is_some (Map.get h.offers.settled w))))
        × (is_some (Map.get h.offers.settled w) ≡ true → KeySet.has h.started w ≡ true)
  -- The wait that a response resolves has a running timer, for the same trip.
  pub pending_runs :
      (trip w : ℕ) → Map.get h.offers.pending trip ≡ some w → Map.get h.offers.timers w ≡ some trip

get-resolve :
    (m : Map Bool) (w j : ℕ) (b : Bool)
    → Map.get (resolve m w b) j
      ≡ (if w == j then (elim (Map.get m w) [ none ↦ some b | some c ↦ some c ]) else Map.get m j)
unfolding resolve
get-resolve m w j b = elim (Option-cases (Map.get m w)) [
  | inl e ↦ rw (e, resolve) (get-set m w j b)
  | inr (c, e) ↦ rw (e, resolve) (ground (arith, e))
]

wait-IsLive :
    (h : History) (w trip : ℕ)
    → KeySet.has h.started w ≡ false
    → IsLive h
    → IsLive (step h (wait w trip))
unfolding step wait_for_driver_response
wait-IsLive h w trip new v = record {
  one_of = λ x. (
    ground (arith, new, v.one_of x, has-add h.started w x, get-set h.offers.timers w x trip),
    λ e. ground (arith, new, e, v.one_of x, has-add h.started w x),
  );
  pending_runs = λ t x e. ground (
    arith,
    new,
    e,
    v.pending_runs t x,
    v.one_of x,
    v.one_of w,
    get-set h.offers.pending trip t w,
    get-set h.offers.timers w x trip,
  );
}

-- A wait with a running timer gets a result, and its trip's entry is deleted.
settle-IsLive :
    (h : History) (w trip : ℕ) (b : Bool)
    → Map.get h.offers.timers w ≡ some trip
    → IsLive h
    → IsLive (record h {
      offers = record {
        pending = Map.delete h.offers.pending trip;
        timers = Map.delete h.offers.timers w;
        settled = resolve h.offers.settled w b;
      };
    })
settle-IsLive h w trip b runs v = record {
  one_of = λ x. (
    ground (
      arith,
      runs,
      v.one_of x,
      v.one_of w,
      get-delete h.offers.timers w x,
      get-resolve h.offers.settled w x b,
    ),
    λ e. ground (arith, runs, e, v.one_of x, v.one_of w, get-resolve h.offers.settled w x b),
  );
  pending_runs = λ t x e. ground (
    arith,
    runs,
    e,
    v.pending_runs t x,
    get-delete h.offers.pending trip t,
    get-delete h.offers.timers w x,
  );
}

step-IsLive : (h : History) (e : Event) → Allowed h e → IsLive h → IsLive (step h e)
unfolding step on_timeout handle_driver_response
step-IsLive h (wait w trip) a v = wait-IsLive h w trip a v
step-IsLive h (timeout w trip) a v = settle-IsLive h w trip false a v
step-IsLive h (respond trip accepted) a v = elim (Option-cases (Map.get h.offers.pending trip)) [
  | inl e ↦ rw (step, handle_driver_response, e) v
  | inr (w, e) ↦
      rw (step, handle_driver_response, e)
        (settle-IsLive h w trip accepted (v.pending_runs trip w e) v)
]

pub step_all : History → List Event → History
step_all h [] = h
step_all h (e ∷ es) = step_all (step h e) es

abbrev pub AllAllowed : History → List Event → Type 0
AllAllowed h [] = Unit {0}
AllAllowed h (e ∷ es) = Allowed h e × AllAllowed (step h e) es

step_all-keeps :
    (h : History) (es : List Event) → AllAllowed h es → IsLive h → IsLive (step_all h es)
unfolding step_all
step_all-keeps h [] a v = v
step_all-keeps h (e ∷ es) a v = step_all-keeps (step h e) es a.1 (step-IsLive h e a.0 v)

abbrev pub start : History
start = record { offers = record { pending = []; timers = []; settled = [] }; started = [] }

-- Whatever responses come, for whatever trips, and even with two waits for one trip, a wait that was started
-- has a result or else a running timer, never both, no wait has a result without having been started,
-- and the wait that a response would resolve is one whose timer still runs.
pub step_all-IsLive : (es : List Event) → AllAllowed start es → IsLive (step_all start es)
unfolding KeySet.has
step_all-IsLive es a = step_all-keeps start es a (record {
  one_of =
      λ w. (ground (arith, get-empty {V = ℕ} w), λ e. ground (arith, e, get-empty {V = Bool} w));
  pending_runs = λ t w e. absurd (ground (arith, e, get-empty {V = ℕ} t));
})
