-- ===== src/Sockets/Recovery.antt =====
-- Failed attempts in turn, and the attempt that succeeds (frontend/src/ws/reconnectingSocket.ts).
use ride_location_tracking_e.Common.{
  ℕ, zero, suc, ◌*◌, ◌^◌, ◌≡◌, refl, ◌∙◌, ap, true, List, for_each, Option, none, some, min, arith,
  Bool-cases, inl, inr, leb, mul_mono,
}
use native.Mathlib.Nat.{pow-suc, one-le-pow}
use ride_location_tracking_e.Common.Map
use ride_location_tracking_e.Common.Map.{Map, get-set}
use ride_location_tracking_e.Sockets.{
  ReconnectingSocket, ClientMessage, ReadyState, ready_connecting, ready_open, notify, connected,
  SubscriberSocket, is_open, resend, send,
}
use ride_location_tracking_e.Sockets.Lifecycle.{IsLive, connected_new, is_live, asked_on}
use ride_location_tracking_e.Sockets.Lifecycle.Openings.{opened_at}
use ride_location_tracking_e.Sockets.Liveness.{
  Event, socket_opens, socket_goes, handle, handle-IsLive, run-IsLive,
}
use ride_location_tracking_e.Sockets.Retries.{
  retry, retries, lost_timer, retry_socket, retry_ready, retry_backoff, retry_message, retry-IsLive,
}

capped_twice : (b n : ℕ) → min (min (b * 2) 10000 * 2 ^ n) 10000 ≡ min (b * 2 ^ suc n) 10000
capped_twice b n =
    let p = one-le-pow n 2 (omega arith) in
    let q : b * 2 ^ suc n ≡ b * 2 * 2 ^ n = ap (λ (t : ℕ). b * t) (pow-suc 2 n) ∙ grind arith in
    rw q (elim (Bool-cases (leb (b * 2) 10000)) [
      | inl e ↦ let m : min (b * 2) 10000 ≡ b * 2 = ground (arith, e) in rw m refl
      | inr e ↦
          let m : min (b * 2) 10000 ≡ 10000 = ground (arith, e) in
          let big = mul_mono 10000 (b * 2) (2 ^ n) (ground (arith, e)) in
          rw m (ground (arith, p, big))
    ])

-- Where `n` failed attempts lead: a socket that connects, and the doubled backoff.
record IsRetried (n : ℕ) (s s' : SubscriberSocket) : Type 0 where
  alive : IsLive s'
  socket : (j : ℕ) × (s'.base.socket ≡ some j) × (is_live (Map.get s'.base.ready j) ≡ true)
  backoff : s'.base.backoff_ms ≡ min (s.base.backoff_ms * 2 ^ n) 10000
  message : s'.subscribe_message ≡ s.subscribe_message

retries-IsRetried :
    (n : ℕ) (s : SubscriberSocket) (id : ℕ)
    → IsLive s
    → s.base.socket ≡ some id
    → is_live (Map.get s.base.ready id) ≡ true
    → IsRetried n s (retries n s)
unfolding retries
retries-IsRetried zero s id v at up = record {
  alive = v;
  socket = (id, at, up);
  backoff = ground (arith, v.capped);
  message = refl;
}
retries-IsRetried (suc n) s id v at up =
    let next =
      retries-IsRetried n (retry s) s.base.next_socket (retry-IsLive s v id at up)
        (retry_socket s v id at up) (ground (arith, retry_ready s v id at up)) in
    record {
      alive = next.alive;
      socket = next.socket;
      backoff =
          next.backoff
          ∙ ap (λ (b : ℕ). min (b * 2 ^ n) 10000) (retry_backoff s v id at up)
          ∙ capped_twice s.base.backoff_ms n;
      message = next.message ∙ retry_message s v id at up;
    }

resend_keeps :
    (o : Option ClientMessage) (b : ReconnectingSocket)
    → ((resend o b).socket ≡ b.socket)
      × ((resend o b).ready ≡ b.ready)
      × ((resend o b).backoff_ms ≡ b.backoff_ms)
unfolding resend send
resend_keeps none b = (refl, refl, refl)
resend_keeps (some m) b = ground arith

module _ (s : SubscriberSocket) (v : IsLive s) (id : ℕ) (at : s.base.socket ≡ some id)
    (begun : Map.get s.base.ready id ≡ some ready_connecting) where
  abbrev reopened : SubscriberSocket
  reopened = handle s (socket_opens id)

  reopened_base :
      reopened.base
      ≡ resend s.subscribe_message (
          notify
            (record s.base { backoff_ms = 500; ready = Map.set s.base.ready id ready_open })
            connected)
  unfolding handle
  reopened_base = opened_at (resend s.subscribe_message) s.base id (ground (arith, begun))

  abbrev answered : ReconnectingSocket
  answered =
      notify (record s.base { backoff_ms = 500; ready = Map.set s.base.ready id ready_open })
        connected

  reopened_socket : reopened.base.socket ≡ some id
  reopened_socket =
      ap (λ (b : ReconnectingSocket). b.socket) reopened_base
      ∙ (resend_keeps s.subscribe_message answered).0
      ∙ at

  reopened_ready : Map.get reopened.base.ready id ≡ some ready_open
  reopened_ready =
      ap (λ (b : ReconnectingSocket). Map.get b.ready id) reopened_base
      ∙ ap (λ (r : Map ReadyState). Map.get r id) (resend_keeps s.subscribe_message answered).1
      ∙ ground (arith, get-set s.base.ready id id ready_open)

  reopened_backoff : reopened.base.backoff_ms ≡ 500
  reopened_backoff =
      ap (λ (b : ReconnectingSocket). b.backoff_ms) reopened_base
      ∙ (resend_keeps s.subscribe_message answered).2

  reopened_message : reopened.subscribe_message ≡ s.subscribe_message
  unfolding handle
  reopened_message = refl

  reopened-IsLive : IsLive reopened
  reopened-IsLive = handle-IsLive s (socket_opens id) v

  reopened_asked : asked_on reopened.base id ≡ s.subscribe_message
  reopened_asked =
      reopened-IsLive.asked_for id reopened_socket (ground (arith, reopened_ready))
      ∙ ground (arith, reopened_ready, reopened_message)

  reopened_timers : (t : ℕ) → Map.get reopened.base.timers t ≡ none
  reopened_timers t = ground (arith, reopened-IsLive.timers t, reopened_socket, reopened_ready)

-- Every failed attempt is followed by another, and one that succeeds restores everything: after any history from
-- `connect`, if the current socket lives and then `n` attempts fail in turn, the next loss sets a timer whose delay is
-- the first one doubled `n` times, at most 10000 ms; and if the attempt that this timer starts succeeds, its socket is
-- the current one and open, what the subscriber wants was the last thing asked for on it, no timer runs, and the
-- backoff is 500 ms again.
pub recovered :
    (events : List Event) (id n : ℕ)
    → let s = for_each events handle connected_new in
      s.base.socket ≡ some id
      → is_live (Map.get s.base.ready id) ≡ true
      → (j : ℕ) × ((retries n s).base.socket ≡ some j)
        × (Map.get (handle (retries n s) (socket_goes j)).base.timers (retries n s).base.next_timer
            ≡ some (min (s.base.backoff_ms * 2 ^ n) 10000))
        × (let k = (retries n s).base.next_socket in
            let t = handle (retry (retries n s)) (socket_opens k) in
            (t.base.socket ≡ some k)
            × (is_open (Map.get t.base.ready k) ≡ true)
            × (asked_on t.base k ≡ s.subscribe_message)
            × ((u : ℕ) → Map.get t.base.timers u ≡ none)
            × (t.base.backoff_ms ≡ 500))
recovered events id n at up =
    let s = for_each events handle connected_new in
    let r = retries-IsRetried n s id (run-IsLive events) at up in
    let (j, sock, live) = r.socket in
    let k = (retries n s).base.next_socket in
    let again = retry-IsLive (retries n s) r.alive j sock live in
    let sock' = retry_socket (retries n s) r.alive j sock live in
    let ready' = retry_ready (retries n s) r.alive j sock live in
    (
      j,
      sock,
      lost_timer (retries n s) r.alive j sock live ∙ ap some r.backoff,
      (
        reopened_socket (retry (retries n s)) again k sock' ready',
        ground (arith, reopened_ready (retry (retries n s)) again k sock' ready'),
        reopened_asked (retry (retries n s)) again k sock' ready'
            ∙ retry_message (retries n s) r.alive j sock live
            ∙ r.message,
        reopened_timers (retry (retries n s)) again k sock' ready',
        reopened_backoff (retry (retries n s)) again k sock' ready',
      ),
    )
