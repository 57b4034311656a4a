-- ===== src/DriverOffer/Flow.antt =====
-- Runs of the driver's offer state machine (frontend/src/hooks/driverOfferReducer.ts).
use ride_location_tracking_e.Common.{
  ℕ, ◌≡◌, inl, inr, refl, Bool, true, false, Option, none, some, List, [], ◌∷◌, if◌then◌else◌, ◌==◌,
  Bool-cases, arith, ==_refl, ==_iff,
}
use ride_location_tracking_e.Common.KeySet
use ride_location_tracking_e.Domain.{LatLng}
use ride_location_tracking_e.DriverOffer.{
  DriverOfferPhase, idle, offered, responding, expired, declined, matched, TripResponse, trip_offer,
  trip_matched, other, DriverOfferEvent, message, accept, decline, deadline_elapsed, grace_elapsed,
  details, on_offer, on_matched, apply_driver_offer_event, is_matched,
}

-- A run: the phase, and the trips that were offered, accepted, declined and confirmed so far.
pub record Run : Type 0 where
  pub phase : DriverOfferPhase
  pub offers : List ℕ
  pub accepts : List ℕ
  pub declines : List ℕ
  pub confirms : List ℕ

abbrev pub offer_of : DriverOfferEvent → List ℕ → List ℕ
offer_of (message (trip_offer (some t) ms p d) now) log = t ∷ log
offer_of _ log = log

abbrev pub confirm_of : DriverOfferEvent → List ℕ → List ℕ
confirm_of (message (trip_matched (some t)) now) log = t ∷ log
confirm_of _ log = log

abbrev pub accept_of : Option TripResponse → List ℕ → List ℕ
accept_of none log = log
accept_of (some r) log = if r.accept then r.trip_id ∷ log else log

abbrev pub decline_of : Option TripResponse → List ℕ → List ℕ
decline_of none log = log
decline_of (some r) log = if r.accept then log else r.trip_id ∷ log

unfoldable pub step : Run → DriverOfferEvent → Run
step r e =
    let next = apply_driver_offer_event r.phase e in
    record {
      phase = next.0;
      offers = offer_of e r.offers;
      accepts = accept_of next.1 r.accepts;
      declines = decline_of next.1 r.declines;
      confirms = confirm_of e r.confirms;
    }

pub run : Run → List DriverOfferEvent → Run
run r [] = r
run r (e ∷ es) = run (step r e) es

abbrev pub start : Run
start = record { phase = idle; offers = []; accepts = []; declines = []; confirms = [] }

-- What the screen shows did happen.
abbrev pub Shown : Run → DriverOfferPhase → Type 0
Shown r idle = Unit {0}
Shown r (offered o deadline) = KeySet.has r.offers o.trip_id ≡ true
Shown r (responding o deadline grace) =
    (KeySet.has r.offers o.trip_id ≡ true) × (KeySet.has r.accepts o.trip_id ≡ true)
Shown r (expired t reason) = KeySet.has r.offers t ≡ true
Shown r (declined t) = (KeySet.has r.offers t ≡ true) × (KeySet.has r.declines t ≡ true)
Shown r (matched t p d) = (KeySet.has r.offers t ≡ true) × (KeySet.has r.confirms t ≡ true)

abbrev is_act : DriverOfferEvent → Bool
is_act (message m now) = false
is_act _ = true

-- Nothing that happened is forgotten.
record IsLater (r r' : Run) : Type 0 where
  offers : (t : ℕ) → KeySet.has r.offers t ≡ true → KeySet.has r'.offers t ≡ true
  accepts : (t : ℕ) → KeySet.has r.accepts t ≡ true → KeySet.has r'.accepts t ≡ true
  declines : (t : ℕ) → KeySet.has r.declines t ≡ true → KeySet.has r'.declines t ≡ true
  confirms : (t : ℕ) → KeySet.has r.confirms t ≡ true → KeySet.has r'.confirms t ≡ true

later-Shown : (r r' : Run) (s : DriverOfferPhase) → IsLater r r' → Shown r s → Shown r' s
later-Shown r r' idle l h = tt
later-Shown r r' (offered o deadline) l h = l.offers o.trip_id h
later-Shown r r' (responding o deadline grace) l h =
    (l.offers o.trip_id h.0, l.accepts o.trip_id h.1)
later-Shown r r' (expired t reason) l h = l.offers t h
later-Shown r r' (declined t) l h = (l.offers t h.0, l.declines t h.1)
later-Shown r r' (matched t p d) l h = (l.offers t h.0, l.confirms t h.1)

cons_has : (t : ℕ) (log : List ℕ) → KeySet.has (t ∷ log) t ≡ true
unfolding KeySet.has
cons_has t log = ground (arith, ==_refl t)

has_cons : (u : ℕ) (log : List ℕ) (t : ℕ) → KeySet.has log t ≡ true → KeySet.has (u ∷ log) t ≡ true
unfolding KeySet.has
has_cons u log t h = ground (arith, h)

step-IsLater : (r : Run) (e : DriverOfferEvent) → IsLater r (step r e)
unfolding step
step-IsLater r e = record {
  offers = λ t h. offer_grows e r.offers t h;
  accepts = λ t h. accept_grows (apply_driver_offer_event r.phase e).1 r.accepts t h;
  declines = λ t h. decline_grows (apply_driver_offer_event r.phase e).1 r.declines t h;
  confirms = λ t h. confirm_grows e r.confirms t h;
}
  where
    offer_grows :
        (e : DriverOfferEvent) (log : List ℕ) (t : ℕ)
        → KeySet.has log t ≡ true
        → KeySet.has (offer_of e log) t ≡ true
    offer_grows (message (trip_offer (some u) ms p d) now) log t h = has_cons u log t h
    offer_grows (message (trip_offer none ms p d) now) log t h = h
    offer_grows (message (trip_matched u) now) log t h = h
    offer_grows (message other now) log t h = h
    offer_grows accept log t h = h
    offer_grows decline log t h = h
    offer_grows deadline_elapsed log t h = h
    offer_grows grace_elapsed log t h = h

    confirm_grows :
        (e : DriverOfferEvent) (log : List ℕ) (t : ℕ)
        → KeySet.has log t ≡ true
        → KeySet.has (confirm_of e log) t ≡ true
    confirm_grows (message (trip_matched (some u)) now) log t h = has_cons u log t h
    confirm_grows (message (trip_matched none) now) log t h = h
    confirm_grows (message (trip_offer u ms p d) now) log t h = h
    confirm_grows (message other now) log t h = h
    confirm_grows accept log t h = h
    confirm_grows decline log t h = h
    confirm_grows deadline_elapsed log t h = h
    confirm_grows grace_elapsed log t h = h

    accept_grows :
        (o : Option TripResponse) (log : List ℕ) (t : ℕ)
        → KeySet.has log t ≡ true
        → KeySet.has (accept_of o log) t ≡ true
    accept_grows none log t h = h
    accept_grows (some r) log t h = elim (Bool-cases r.accept) [
      | inl e ↦ rw e (has_cons r.trip_id log t h)
      | inr e ↦ rw e h
    ]

    decline_grows :
        (o : Option TripResponse) (log : List ℕ) (t : ℕ)
        → KeySet.has log t ≡ true
        → KeySet.has (decline_of o log) t ≡ true
    decline_grows none log t h = h
    decline_grows (some r) log t h = elim (Bool-cases r.accept) [
      | inl e ↦ rw e h
      | inr e ↦ rw e (has_cons r.trip_id log t h)
    ]

kept-Shown : (r : Run) (e : DriverOfferEvent) → Shown r r.phase → Shown (step r e) r.phase
kept-Shown r e h = later-Shown r (step r e) r.phase (step-IsLater r e) h

offered-Shown :
    (r : Run) (t ms : Option ℕ) (p d : Option LatLng) (now : ℕ)
    → Shown r r.phase
    → Shown (step r (message (trip_offer t ms p d) now)) (on_offer r.phase (details t ms p d) now)
unfolding step on_offer
offered-Shown r none ms p d now h = kept-Shown r (message (trip_offer none ms p d) now) h
offered-Shown r (some t) none p d now h =
    kept-Shown r (message (trip_offer (some t) none p d) now) h
offered-Shown r (some t) (some ms) none d now h =
    kept-Shown r (message (trip_offer (some t) (some ms) none d) now) h
offered-Shown r (some t) (some ms) (some p) none now h =
    kept-Shown r (message (trip_offer (some t) (some ms) (some p) none) now) h
offered-Shown r (some t) (some ms) (some p) (some d) now h =
    elim (Bool-cases (is_matched r.phase)) [
      | inl m ↦
          rw (on_offer, m)
            (kept-Shown r (message (trip_offer (some t) (some ms) (some p) (some d)) now) h)
      | inr m ↦ rw (on_offer, m) (cons_has t r.offers)
    ]

-- A confirmation in a phase `s`, where the logs are those of `r'`.
confirmed-Shown :
    (r' : Run) (s : DriverOfferPhase) (t : ℕ)
    → KeySet.has r'.confirms t ≡ true
    → Shown r' s
    → Shown r' (on_matched s (some t))
unfolding on_matched
confirmed-Shown r' idle t c h = tt
confirmed-Shown r' (expired u reason) t c h = h
confirmed-Shown r' (declined u) t c h = h
confirmed-Shown r' (matched u p d) t c h = h
confirmed-Shown r' (offered o deadline) t c h = elim (Bool-cases (o.trip_id == t)) [
  | inl e ↦ rw (on_matched, e) (rw (← (==_iff o.trip_id t).0 e) h, c)
  | inr e ↦ rw (on_matched, e) h
]
confirmed-Shown r' (responding o deadline grace) t c h = elim (Bool-cases (o.trip_id == t)) [
  | inl e ↦ rw (on_matched, e) (rw (← (==_iff o.trip_id t).0 e) h.0, c)
  | inr e ↦ rw (on_matched, e) h
]

unnamed : (s : DriverOfferPhase) → on_matched s none ≡ s
unfolding on_matched
unnamed idle = refl
unnamed (offered o deadline) = refl
unnamed (responding o deadline grace) = refl
unnamed (expired u reason) = refl
unnamed (declined u) = refl
unnamed (matched u p d) = refl

-- The driver's own acts, and the timers, in a phase `s` of the run.
act-Shown :
    (r : Run) (s : DriverOfferPhase) (e : DriverOfferEvent)
    → Shown r s
    → is_act e ≡ true
    → (let q = step (record r { phase = s }) e in Shown q q.phase)
unfolding step apply_driver_offer_event
act-Shown r s (message m now) h a = absurd (ground (arith, a))
act-Shown r (offered o deadline) accept h a = (h, cons_has o.trip_id r.accepts)
act-Shown r (offered o deadline) decline h a = (h, cons_has o.trip_id r.declines)
act-Shown r (offered o deadline) deadline_elapsed h a = h
act-Shown r (offered o deadline) grace_elapsed h a = h
act-Shown r (responding o deadline grace) accept h a = h
act-Shown r (responding o deadline grace) decline h a = h
act-Shown r (responding o deadline grace) deadline_elapsed h a = h
act-Shown r (responding o deadline grace) grace_elapsed h a = h.0
act-Shown r idle accept h a = tt
act-Shown r idle decline h a = tt
act-Shown r idle deadline_elapsed h a = tt
act-Shown r idle grace_elapsed h a = tt
act-Shown r (expired u reason) accept h a = h
act-Shown r (expired u reason) decline h a = h
act-Shown r (expired u reason) deadline_elapsed h a = h
act-Shown r (expired u reason) grace_elapsed h a = h
act-Shown r (declined u) accept h a = h
act-Shown r (declined u) decline h a = h
act-Shown r (declined u) deadline_elapsed h a = h
act-Shown r (declined u) grace_elapsed h a = h
act-Shown r (matched u p d) accept h a = h
act-Shown r (matched u p d) decline h a = h
act-Shown r (matched u p d) deadline_elapsed h a = h
act-Shown r (matched u p d) grace_elapsed h a = h

step-Shown : (r : Run) (e : DriverOfferEvent) → Shown r r.phase → Shown (step r e) (step r e).phase
unfolding step apply_driver_offer_event
step-Shown r (message (trip_offer t ms p d) now) h = offered-Shown r t ms p d now h
step-Shown r (message (trip_matched (some t)) now) h =
    confirmed-Shown (step r (message (trip_matched (some t)) now)) r.phase t (cons_has t r.confirms)
      (kept-Shown r (message (trip_matched (some t)) now) h)
step-Shown r (message (trip_matched none) now) h =
    rw (unnamed r.phase) (kept-Shown r (message (trip_matched none) now) h)
step-Shown r (message other now) h = kept-Shown r (message other now) h
step-Shown r accept h = act-Shown r r.phase accept h refl
step-Shown r decline h = act-Shown r r.phase decline h refl
step-Shown r deadline_elapsed h = act-Shown r r.phase deadline_elapsed h refl
step-Shown r grace_elapsed h = act-Shown r r.phase grace_elapsed h refl

run-keeps :
    (r : Run) (es : List DriverOfferEvent) → Shown r r.phase → Shown (run r es) (run r es).phase
unfolding run
run-keeps r [] h = h
run-keeps r (e ∷ es) h = run-keeps (step r e) es (step-Shown r e h)

-- Whatever messages, clicks and timers come, the driver sees 'matched' only for a trip that was offered and
-- confirmed, 'responding' only for one that was offered and accepted, 'declined' only for one that was
-- offered and declined, and 'offered' or 'expired' only for one that was offered.
pub run-Shown : (es : List DriverOfferEvent) → Shown (run start es) (run start es).phase
run-Shown es = run-keeps start es tt
