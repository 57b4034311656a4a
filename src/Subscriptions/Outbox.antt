-- ===== src/Subscriptions/Outbox.antt =====
-- What the registry of core/src/ws/subscriptions.ts sends to one socket, call by call.
pub mod Bodies
pub mod Broadcasts
pub mod Heard
use ride_location_tracking_e.Common.{
  ℕ, ◌≡◌, refl, ◌∙◌, Bool, true, false, ◌&&◌, Option, none, some, List, [], ◌∷◌, ◌++◌, arith, ◌==◌,
  if◌then◌else◌, Option-cases, Bool-cases, inl, inr, for_each, opt_is, ap, sym, subst,
}
use ride_location_tracking_e.Common.Map
use ride_location_tracking_e.Common.Map.{Map, get-set, get-delete}
use ride_location_tracking_e.Common.KeySet
use ride_location_tracking_e.Common.KeySet.{KeySet, IsDistinct}
use ride_location_tracking_e.Delta.{encode_location_message, sent_state}
use ride_location_tracking_e.Subscriptions.Invariant.{Inv, has_socket}
use ride_location_tracking_e.Subscriptions.Effects.{
  infos-broadcast_to, infos-rematch, rematch_keeps,
}
use ride_location_tracking_e.Subscriptions.{
  Registry, SubscriberInfo, OutMessage, Emit, send, close, EndReason, RawDriverLocationUpdate,
  detach, send_json, rematch, end_subscription, broadcast_to, trip_matched, unsubscribed,
  location_update,
}

-- The messages to a socket, the oldest first.
unfoldable pub sent_to : ℕ → List Emit → List OutMessage
sent_to s [] = []
sent_to s (send q m ∷ es) = let rest = sent_to s es in if q == s then m ∷ rest else rest
sent_to s (close q code ∷ es) = sent_to s es

pub sent_to-append :
    (s q : ℕ) (m : OutMessage) (es : List Emit)
    → sent_to s (es ++ send q m ∷ []) ≡ (if q == s then sent_to s es ++ m ∷ [] else sent_to s es)
unfolding sent_to
sent_to-append s q m [] = refl
sent_to-append s q m (send p n ∷ es) = ground (arith, sent_to-append s q m es)
sent_to-append s q m (close p code ∷ es) = sent_to-append s q m es

-- What one socket has of the registry: its current subscription, the object with identity `j`, and
-- the messages to it.
pub record Seen : Type 0 where
  pub current : Option ℕ
  pub info : Option SubscriberInfo
  pub sent : List OutMessage

pub same_seen : (v w : Seen) → v.current ≡ w.current → v.info ≡ w.info → v.sent ≡ w.sent → v ≡ w
same_seen v w p q r = λ i. record { current = p i; info = q i; sent = r i }

module _ (s j : ℕ) where
  abbrev pub seen : Registry → Seen
  seen r = record {
    current = Map.get r.by_socket s;
    info = Map.get r.infos j;
    sent = sent_to s r.outbox;
  }

  -- The object with that identity is the socket's, and no other in the set is.
  abbrev pub IsOnly : Registry → KeySet → Type 0
  IsOnly r [] = Unit {0}
  IsOnly r (x ∷ set) = ((x == j) ≡ has_socket (Map.get r.infos x) s) × IsOnly r set

  module _ (f : Registry → ℕ → Registry) (g : Seen → Seen)
      (keeps : (r : Registry) (x y : ℕ)
        → has_socket (Map.get (f r x).infos y) s ≡ has_socket (Map.get r.infos y) s)
      (quiet : (r : Registry) (x : ℕ)
        → (x == j) ≡ false
        → has_socket (Map.get r.infos x) s ≡ false
        → seen (f r x) ≡ seen r)
      (hit : (r : Registry)
        → has_socket (Map.get r.infos j) s ≡ true
        → seen (f r j) ≡ g (seen r)) where
    IsOnly-kept : (r : Registry) (x : ℕ) (set : KeySet) → IsOnly r set → IsOnly (f r x) set
    IsOnly-kept r x [] h = tt
    IsOnly-kept r x (y ∷ set) h = (h.0 ∙ sym (keeps r x y), IsOnly-kept r x set h.1)

    -- A loop over a set that has no other object of the socket does for it what its body does once.
    pub seen-loop :
        (set : KeySet) (r : Registry)
        → IsDistinct set
        → IsOnly r set
        → seen (for_each set f r) ≡ (if KeySet.has set j then g (seen r) else seen r)
    unfolding for_each KeySet.has
    seen-loop [] r d h = refl
    seen-loop (x ∷ set) r d h = elim (Bool-cases (x == j)) [
      | inl e ↦
          let same : x ≡ j = ground (arith, e) in
          ground (
            arith,
            e,
            d.0,
            h.0,
            same,
            seen-loop set (f r x) d.1 (IsOnly-kept r x set h.1),
            subst (λ y. seen (f r y) ≡ g (seen r)) (sym same)
                (hit r (
                  subst (λ y. has_socket (Map.get r.infos y) s ≡ true) same
                    (ground (arith, e, h.0)))),
          )
      | inr e ↦ ground (
        arith,
        e,
        h.0,
        quiet r x e (ground (arith, e, h.0)),
        seen-loop set (f r x) d.1 (IsOnly-kept r x set h.1),
      )
    ]
