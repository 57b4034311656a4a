-- ===== src/DriverMessages/Received.antt =====
-- The last valid position of a driver is the one that the batch gets (core/src/ws/driver-connections.ts,
-- core/src/ws/location-batch.ts).
use ride_location_tracking_e.Common.{
  ℕ, ◌≡◌, refl, sym, subst, Bool, true, false, Option, none, some, List, [], ◌∷◌, ◌==◌,
  if◌then◌else◌, Bool-cases, Option-cases, inl, inr, arith,
}
use ride_location_tracking_e.Common.Map
use ride_location_tracking_e.Common.Map.{Map, get-set}
use ride_location_tracking_e.Connections.{
  new_throttle, ThrottleState, LocationUpdate, handle_location_message, flush_pending,
}
use ride_location_tracking_e.Batch.{Core, PendingUpdate, enqueue_location_update}
use ride_location_tracking_e.DriverMessages.{
  DriverFrame, DriverError, malformed_payload, refused_message, not_json, typed, untyped, Driving,
  is_valid_location, pending_update, release, on_throttle, refuse, on_driver_frame, on_flush_timer,
}
use ride_location_tracking_e.DriverMessages.Kept.{
  batched_after, IsKept, message-IsKept, timer-IsKept,
}

get-release :
    (c : Core) (x d : ℕ) (o : Option LocationUpdate)
    → Map.get (release c x o).pending_batch d
      ≡ (if x == d then batched_after (Map.get c.pending_batch d) o else Map.get c.pending_batch d)
unfolding release enqueue_location_update
get-release c x d none = ground arith
get-release c x d (some u) = ground (arith, get-set c.pending_batch x d (pending_update u))

either_way : (b : Bool) (last : Option LocationUpdate) → (if b then last else last) ≡ last
either_way true last = refl
either_way false last = refl

pub data Event : Type 0 where
  frame : ℕ → ℕ → ℕ → DriverFrame → Event
  timer : ℕ → ℕ → ℕ → Event

module _ (q d : ℕ) where
  -- The socket is the driver's, and no other socket is.
  abbrev pub IsApart : Event → Type 0
  IsApart (frame socket driver now f) = (socket == q) ≡ (driver == d)
  IsApart (timer socket driver now) = (socket == q) ≡ (driver == d)

  abbrev pub AllApart : List Event → Type 0
  AllApart [] = Unit {0}
  AllApart (e ∷ es) = IsApart e × AllApart es

  -- The last update is kept by the throttle of the socket or by the batch.
  pub record IsReceived (s : Driving) (last : Option LocationUpdate) : Type 0 where
    pub throttle : ThrottleState
    pub found : Map.get s.sockets.throttles q ≡ some throttle
    pub kept : IsKept throttle (Map.get s.core.pending_batch d) last

  own_throttle :
      (s : Driving) (change : ThrottleState → ThrottleState × Option LocationUpdate)
      (last next : Option LocationUpdate)
      → ((t : ThrottleState) (b : Option PendingUpdate)
          → IsKept t b last
          → IsKept (change t).0 (batched_after b (change t).1) next)
      → IsReceived s last
      → IsReceived (on_throttle s q d change) next
  unfolding on_throttle
  own_throttle s change last next good r =
      let t = r.throttle in
      rw (r.found, on_throttle)
        (record {
          throttle = (change t).0;
          found = ground (arith, get-set s.sockets.throttles q q (change t).0);
          kept =
              subst (λ b. IsKept (change t).0 b next) (sym (ground_release t))
                (good t (Map.get s.core.pending_batch d) r.kept);
        })
    where
      ground_release :
          (t : ThrottleState)
          → Map.get (release s.core d (change t).1).pending_batch d
            ≡ batched_after (Map.get s.core.pending_batch d) (change t).1
      ground_release t = ground (arith, get-release s.core d d (change t).1)

  other_throttle :
      (s : Driving) (x y : ℕ) (change : ThrottleState → ThrottleState × Option LocationUpdate)
      (last : Option LocationUpdate)
      → (x == q) ≡ false
      → (y == d) ≡ false
      → IsReceived s last
      → IsReceived (on_throttle s x y change) last
  unfolding on_throttle
  other_throttle s x y change last a b r = elim (Option-cases (Map.get s.sockets.throttles x)) [
    | inl e ↦ rw (e, on_throttle) r
    | inr (t, e) ↦
        rw (e, on_throttle)
          (record {
            throttle = r.throttle;
            found = ground (arith, r.found, a, get-set s.sockets.throttles x q (change t).0);
            kept = subst (λ o. IsKept r.throttle o last) (sym (unmoved t)) r.kept;
          })
  ]
    where
      unmoved :
          (t : ThrottleState)
          → Map.get (release s.core y (change t).1).pending_batch d ≡ Map.get s.core.pending_batch d
      unmoved t = ground (arith, b, get-release s.core y d (change t).1)

  throttle-IsReceived :
      (s : Driving) (x y : ℕ) (change : ThrottleState → ThrottleState × Option LocationUpdate)
      (last next : Option LocationUpdate)
      → (x == q) ≡ (y == d)
      → ((t : ThrottleState) (b : Option PendingUpdate)
          → IsKept t b last
          → IsKept (change t).0 (batched_after b (change t).1) next)
      → IsReceived s last
      → IsReceived (on_throttle s x y change) (if x == q then next else last)
  throttle-IsReceived s x y change last next apart good r = elim (Bool-cases (x == q)) [
    | inl g ↦
        let at_q : q ≡ x = ground (arith, g) in
        let at_d : d ≡ y = ground (arith, apart, g) in
        subst (λ b. IsReceived (on_throttle s x y change) (if b then next else last)) (sym g)
          (subst (λ z. IsReceived (on_throttle s z y change) next) at_q
            (subst (λ z. IsReceived (on_throttle s q z change) next) at_d
              (own_throttle s change last next good r)))
    | inr g ↦
        subst (λ b. IsReceived (on_throttle s x y change) (if b then next else last)) (sym g)
          (other_throttle s x y change last g (ground (arith, apart, g)) r)
  ]

module _ (is_open : ℕ → Bool) (unit tolerance_ms throttle_ms : ℕ) where
  unfoldable pub handle : Driving → Event → Driving
  handle s (frame socket driver now f) =
      on_driver_frame is_open unit tolerance_ms throttle_ms s socket driver now f
  handle s (timer socket driver now) = on_flush_timer s socket driver now

  -- The last valid position that came on the socket.
  abbrev pub noted : ℕ → Option LocationUpdate → Event → Option LocationUpdate
  noted q last (frame socket driver now (untyped (some u))) =
      if is_valid_location unit tolerance_ms now u
      then if socket == q then some u else last
      else last
  noted q last _ = last

  refuse-IsReceived :
      (q d : ℕ) (s : Driving) (socket : ℕ) (e : DriverError) (last : Option LocationUpdate)
      → IsReceived q d s last
      → IsReceived q d (refuse is_open s socket e) last
  unfolding refuse
  refuse-IsReceived q d s socket e last r = elim (Bool-cases (is_open socket)) [
    | inl o ↦ rw (o, refuse) (record { throttle = r.throttle; found = r.found; kept = r.kept })
    | inr o ↦ rw (o, refuse) r
  ]

  frame-IsReceived :
      (q d : ℕ) (s : Driving) (socket driver now : ℕ) (f : DriverFrame)
      (last : Option LocationUpdate)
      → (socket == q) ≡ (driver == d)
      → IsReceived q d s last
      → IsReceived q d
          (handle s (frame socket driver now f))
          (noted q last (frame socket driver now f))
  unfolding handle on_driver_frame
  frame-IsReceived q d s socket driver now not_json last apart r =
      refuse-IsReceived q d s socket malformed_payload last r
  frame-IsReceived q d s socket driver now (typed none) last apart r =
      refuse-IsReceived q d s socket refused_message last r
  frame-IsReceived q d s socket driver now (typed (some x)) last apart r = record {
    throttle = r.throttle;
    found = r.found;
    kept = r.kept;
  }
  frame-IsReceived q d s socket driver now (untyped none) last apart r =
      refuse-IsReceived q d s socket refused_message last r
  frame-IsReceived q d s socket driver now (untyped (some u)) last apart r =
      elim (Bool-cases (is_valid_location unit tolerance_ms now u)) [
        | inl ok ↦
            rw (ok, on_driver_frame)
              (throttle-IsReceived q d s socket driver
                (λ t. handle_location_message throttle_ms now t u) last (some u) apart
                (λ t b h. message-IsKept throttle_ms now t b last u h) r)
        | inr ok ↦ rw (ok, on_driver_frame) (refuse-IsReceived q d s socket refused_message last r)
      ]

  timer-IsReceived :
      (q d : ℕ) (s : Driving) (socket driver now : ℕ) (last : Option LocationUpdate)
      → (socket == q) ≡ (driver == d)
      → IsReceived q d s last
      → IsReceived q d (handle s (timer socket driver now)) last
  unfolding handle on_flush_timer
  timer-IsReceived q d s socket driver now last apart r =
      subst (IsReceived q d (on_throttle s socket driver (λ t. flush_pending now t)))
        (either_way (socket == q) last)
        (throttle-IsReceived q d s socket driver (λ t. flush_pending now t) last last apart
          (λ t b h. timer-IsKept now t b last h) r)

  unfoldable pub handle_all : Driving → List Event → Driving
  handle_all s [] = s
  handle_all s (e ∷ es) = handle_all (handle s e) es

  -- The last valid position that came on the socket, if any did.
  unfoldable pub last_noted : ℕ → Option LocationUpdate → List Event → Option LocationUpdate
  last_noted q last [] = last
  last_noted q last (e ∷ es) = last_noted q (noted q last e) es

  handle_all-IsReceived :
      (q d : ℕ) (es : List Event) (s : Driving) (last : Option LocationUpdate)
      → AllApart q d es
      → IsReceived q d s last
      → IsReceived q d (handle_all s es) (last_noted q last es)
  unfolding handle_all last_noted
  handle_all-IsReceived q d [] s last apart r = r
  handle_all-IsReceived q d (frame socket driver now f ∷ es) s last apart r =
      handle_all-IsReceived q d es (handle s (frame socket driver now f))
        (noted q last (frame socket driver now f)) apart.1
        (frame-IsReceived q d s socket driver now f last apart.0 r)
  handle_all-IsReceived q d (timer socket driver now ∷ es) s last apart r =
      handle_all-IsReceived q d es (handle s (timer socket driver now)) last apart.1
        (timer-IsReceived q d s socket driver now last apart.0 r)

  -- Whatever frames drivers send and whenever the timers fire, until the batch is flushed, the batch holds the last
  -- valid position that came on a driver's socket, or the socket's throttle holds it with a timer set to release it;
  -- before, the throttle must be new and the batch hold nothing of the driver, and the driver must have no other socket.
  pub frames-IsReceived :
      (q d : ℕ) (es : List Event) (s : Driving)
      → AllApart q d es
      → Map.get s.sockets.throttles q ≡ some new_throttle
      → Map.get s.core.pending_batch d ≡ none
      → IsReceived q d (handle_all s es) (last_noted q none es)
  unfolding new_throttle
  frames-IsReceived q d es s apart found empty = handle_all-IsReceived q d es s none apart (record {
    throttle = new_throttle;
    found = found;
    kept = record { none_pending = λ f. empty; some_pending = λ f. absurd (ground (arith, f)) };
  })
