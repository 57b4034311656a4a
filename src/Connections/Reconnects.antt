-- ===== src/Connections/Reconnects.antt =====
-- The registry of the drivers' sockets through reconnects, late 'close' events and heartbeat sweeps
-- (core/src/ws/driver-connections.ts, core/src/ws/heartbeat.ts).
use ride_location_tracking_e.Common.{
  ℕ, ◌≡◌, inl, inr, refl, Bool, true, false, ◌&&◌, ◌||◌, not, Option, none, some, List, [], ◌∷◌,
  ◌++◌, Bool-cases, Option-cases, arith, is_some, opt_is, ◌==◌, ==_refl,
}
use ride_location_tracking_e.Common.KeySet
use ride_location_tracking_e.Common.Map
use ride_location_tracking_e.Common.Map.{
  Map, get-set, get-delete, get-empty, IsDistinct, set-IsDistinct, delete-IsDistinct,
}
use ride_location_tracking_e.Connections.{
  Sockets, register_heartbeat, unregister_heartbeat, on_pong, sweep_marks, sweep_dead,
  run_heartbeat_sweep, replace_connection, handle_driver_connection, on_close,
}

pub data Event : Type 0 where
  connect : ℕ → ℕ → Event
  closed : ℕ → ℕ → Event
  pong : ℕ → Event
  sweep : Event

unfoldable pub step : Sockets → Event → Sockets
step s (connect socket driver) = handle_driver_connection s socket driver
step s (closed socket driver) = on_close s socket driver
step s (pong socket) = on_pong s socket
step s sweep = run_heartbeat_sweep s

-- A socket that connects is new, and a socket closes for the driver it connected for.
abbrev pub Allowed : Sockets → Event → Type 0
Allowed s (connect socket driver) = (e : ℕ) → opt_is (Map.get s.connections e) socket ≡ false
Allowed s (closed socket driver) =
    (e : ℕ) → opt_is (Map.get s.connections e) socket ≡ true → e ≡ driver
Allowed s (pong socket) = Unit {0}
Allowed s sweep = Unit {0}

-- The heartbeat watches the socket, or the service has ended it.
abbrev pub is_watched : Sockets → ℕ → Bool
is_watched s socket = is_some (Map.get s.tracked socket) || KeySet.has s.ended socket

pub record IsWatched (s : Sockets) : Type 0 where
  pub distinct : IsDistinct s.tracked
  pub watched :
      (d socket : ℕ) → opt_is (Map.get s.connections d) socket ≡ true → is_watched s socket ≡ true

has-append :
    (xs ys : List ℕ) (x : ℕ) → KeySet.has (xs ++ ys) x ≡ (KeySet.has xs x || KeySet.has ys x)
unfolding KeySet.has
has-append [] ys x = refl
has-append (y ∷ xs) ys x = ground (arith, has-append xs ys x)

abbrev pub swept : Option Bool → Option Bool
swept (some true) = some false
swept _ = none

get-sweep_marks :
    (m : Map Bool) (socket : ℕ)
    → IsDistinct m
    → Map.get (sweep_marks m) socket ≡ swept (Map.get m socket)
unfolding sweep_marks Map.get
get-sweep_marks [] socket h = refl
get-sweep_marks ((k, alive) ∷ m) socket h = ground (arith, h.0, get-sweep_marks m socket h.1)

has-sweep_dead :
    (m : Map Bool) (socket : ℕ)
    → IsDistinct m
    → KeySet.has (sweep_dead m) socket
      ≡ (is_some (Map.get m socket) && not (is_some (swept (Map.get m socket))))
unfolding sweep_dead Map.get KeySet.has
has-sweep_dead [] socket h = refl
has-sweep_dead ((k, alive) ∷ m) socket h = ground (arith, h.0, has-sweep_dead m socket h.1)

sweep_marks-IsDistinct : (m : Map Bool) → IsDistinct m → IsDistinct (sweep_marks m)
unfolding sweep_marks
sweep_marks-IsDistinct [] h = tt
sweep_marks-IsDistinct ((k, true) ∷ m) h =
    (ground (arith, h.0, get-sweep_marks m k h.1), sweep_marks-IsDistinct m h.1)
sweep_marks-IsDistinct ((k, false) ∷ m) h = sweep_marks-IsDistinct m h.1

-- A sweep ends exactly the watched sockets that have not answered since the last one, and waits for an answer
-- of every other watched socket; no socket is tracked twice.
pub swept_marks :
    (s : Sockets) (socket : ℕ)
    → IsDistinct s.tracked
    → (Map.get (run_heartbeat_sweep s).tracked socket ≡ swept (Map.get s.tracked socket))
      × (KeySet.has (run_heartbeat_sweep s).ended socket ≡ (
          (is_some (Map.get s.tracked socket) && not (is_some (swept (Map.get s.tracked socket))))
          || KeySet.has s.ended socket))
unfolding run_heartbeat_sweep
swept_marks s socket h = (
  get-sweep_marks s.tracked socket h,
  ground
      (arith, has-append (sweep_dead s.tracked) s.ended socket, has-sweep_dead s.tracked socket h),
)

connect-IsWatched :
    (s : Sockets) (socket driver : ℕ)
    → ((e : ℕ) → opt_is (Map.get s.connections e) socket ≡ false)
    → IsWatched s
    → IsWatched (handle_driver_connection s socket driver)
unfolding handle_driver_connection replace_connection register_heartbeat unregister_heartbeat
    KeySet.has
connect-IsWatched s socket driver new h = elim (Option-cases (Map.get s.connections driver)) [
  | inl e ↦
      rw (handle_driver_connection, replace_connection, e)
        (record {
          distinct = set-IsDistinct s.tracked socket true h.distinct;
          watched = λ d x k. ground (
            arith,
            k,
            e,
            h.watched d x,
            get-set s.connections driver d socket,
            get-set s.tracked socket x true,
          );
        })
  | inr (old, e) ↦
      rw (handle_driver_connection, replace_connection, e)
        (record {
          distinct =
              set-IsDistinct (Map.delete s.tracked old) socket true
                (delete-IsDistinct s.tracked old h.distinct);
          watched = λ d x k. ground (
            arith,
            k,
            e,
            h.watched d x,
            get-set s.connections driver d socket,
            get-set (Map.delete s.tracked old) socket x true,
            get-delete s.tracked old x,
          );
        })
]

closed-IsWatched :
    (s : Sockets) (socket driver : ℕ)
    → ((e : ℕ) → opt_is (Map.get s.connections e) socket ≡ true → e ≡ driver)
    → IsWatched s
    → IsWatched (on_close s socket driver)
unfolding on_close unregister_heartbeat
closed-IsWatched s socket driver own h =
    elim (Bool-cases (opt_is (Map.get s.connections driver) socket)) [
      | inl e ↦
          rw (on_close, e)
            (record {
              distinct = delete-IsDistinct s.tracked socket h.distinct;
              watched = λ d x k. ground (
                arith,
                k,
                e,
                own d,
                h.watched d x,
                get-delete s.connections driver d,
                get-delete s.tracked socket x,
              );
            })
      | inr e ↦
          rw (on_close, e)
            (record {
              distinct = delete-IsDistinct s.tracked socket h.distinct;
              watched = λ d x k.
                  ground (arith, k, e, own d, h.watched d x, get-delete s.tracked socket x);
            })
    ]

pong-IsWatched : (s : Sockets) (socket : ℕ) → IsWatched s → IsWatched (on_pong s socket)
unfolding on_pong
pong-IsWatched s socket h = elim (Option-cases (Map.get s.tracked socket)) [
  | inl e ↦ rw (on_pong, e) h
  | inr (alive, e) ↦
      rw (on_pong, e)
        (record {
          distinct = set-IsDistinct s.tracked socket true h.distinct;
          watched = λ d x k. ground (arith, k, e, h.watched d x, get-set s.tracked socket x true);
        })
]

sweep-IsWatched : (s : Sockets) → IsWatched s → IsWatched (run_heartbeat_sweep s)
unfolding run_heartbeat_sweep
sweep-IsWatched s h = record {
  distinct = sweep_marks-IsDistinct s.tracked h.distinct;
  watched = λ d x k. ground (
    arith,
    k,
    h.watched d x,
    get-sweep_marks s.tracked x h.distinct,
    has-append (sweep_dead s.tracked) s.ended x,
    has-sweep_dead s.tracked x h.distinct,
  );
}

step-IsWatched : (s : Sockets) (e : Event) → Allowed s e → IsWatched s → IsWatched (step s e)
unfolding step
step-IsWatched s (connect socket driver) a h = connect-IsWatched s socket driver a h
step-IsWatched s (closed socket driver) a h = closed-IsWatched s socket driver a h
step-IsWatched s (pong socket) a h = pong-IsWatched s socket h
step-IsWatched s sweep a h = sweep-IsWatched s h

pub step_all : Sockets → List Event → Sockets
step_all s [] = s
step_all s (e ∷ es) = step_all (step s e) es

abbrev pub AllAllowed : Sockets → List Event → Type 0
AllAllowed s [] = Unit {0}
AllAllowed s (e ∷ es) = Allowed s e × AllAllowed (step s e) es

step_all-keeps :
    (s : Sockets) (es : List Event) → AllAllowed s es → IsWatched s → IsWatched (step_all s es)
unfolding step_all
step_all-keeps s [] a h = h
step_all-keeps s (e ∷ es) a h = step_all-keeps (step s e) es a.1 (step-IsWatched s e a.0 h)

abbrev pub no_sockets : Sockets
no_sockets = record { connections = []; throttles = []; tracked = []; ended = [] }

-- Through any connects of new sockets, late closes, answers and sweeps, the registered socket of a driver is
-- watched by the heartbeat, or the service has ended it.
pub step_all-IsWatched :
    (es : List Event) → AllAllowed no_sockets es → IsWatched (step_all no_sockets es)
step_all-IsWatched es a =
    step_all-keeps no_sockets es a
      (record { distinct = tt; watched = λ d x k. absurd (ground (arith, k, get-empty {V = ℕ} d)) })

-- After a driver has reconnected, the old socket is ended, and its late 'close' leaves the driver registered
-- with the new socket, which the heartbeat watches.
pub reconnected :
    (s : Sockets) (old socket driver : ℕ)
    → Map.get s.connections driver ≡ some old
    → (old == socket) ≡ false
    → (let r = on_close (handle_driver_connection s socket driver) old driver in
        ((Map.get r.connections driver ≡ some socket)
          × (Map.get r.tracked socket ≡ some true)
          × (Map.get r.tracked old ≡ none)
          × (KeySet.has r.ended old ≡ true)))
unfolding on_close handle_driver_connection replace_connection register_heartbeat
    unregister_heartbeat KeySet.has
reconnected s old socket driver e n =
    let stays : opt_is (Map.get (Map.set s.connections driver socket) driver) old ≡ false =
      ground (arith, n, get-set s.connections driver driver socket) in
    rw (on_close, handle_driver_connection, replace_connection, e, stays)
      (
        ground (arith, get-set s.connections driver driver socket),
        ground (
          arith,
          n,
          get-delete (Map.set (Map.delete s.tracked old) socket true) old socket,
          get-set (Map.delete s.tracked old) socket socket true,
        ),
        ground (arith, get-delete (Map.set (Map.delete s.tracked old) socket true) old old),
        ground (arith, ==_refl old),
      )
