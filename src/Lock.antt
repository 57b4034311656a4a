-- ===== src/Lock.antt =====
-- core/src/repositories/driver-lock.repository.ts. The key store is Redis, a parameter: SET with PX and NX,
-- GET and DEL on keys of drivers, at a time in ms, with what its documentation says of them.
mod Tests
pub mod Memory
pub mod Exclusion
use ride_location_tracking_e.Common.{
  ℕ, ◌+◌, ◌<◌, ◌≤◌, ◌≡◌, Bool, true, false, Option, none, some, ◌==◌, if◌then◌else◌, opt_is,
}

pub record KeyStore : Type 1 where
  pub Store : Type 0
  pub get : Store → ℕ → ℕ → Option ℕ
  pub set_nx : Store → ℕ → ℕ → ℕ → ℕ → Store × Bool
  pub del : Store → ℕ → Store
  -- A key that is not there is set, and stays until its time is up.
  pub set_free :
      (s : Store) (now key value ttl : ℕ)
      → get s now key ≡ none
      → (set_nx s now key value ttl).1 ≡ true
  pub set_stays :
      (s : Store) (now key value ttl later : ℕ)
      → get s now key ≡ none
      → later < now + ttl
      → get (set_nx s now key value ttl).0 later key ≡ some value
  -- A key that is there is not set.
  pub set_held :
      (s : Store) (now key value ttl u : ℕ)
      → get s now key ≡ some u
      → ((set_nx s now key value ttl).1 ≡ false)
        × ((later : ℕ) → get (set_nx s now key value ttl).0 later key ≡ get s later key)
  -- Another key is left alone.
  pub set_other :
      (s : Store) (now key value ttl later j : ℕ)
      → (key == j) ≡ false
      → get (set_nx s now key value ttl).0 later j ≡ get s later j
  pub get-del :
      (s : Store) (key later j : ℕ)
      → get (del s key) later j ≡ (if key == j then none else get s later j)

module _ (redis : KeyStore) where
  open redis use {Store, get, set_nx, del}

  unfoldable pub acquire_driver_lock : Store → ℕ → ℕ → ℕ → ℕ → Store × Bool
  acquire_driver_lock s now driver_id trip_id ttl_ms = set_nx s now driver_id trip_id ttl_ms

  -- The Lua script: delete the key if it still holds this trip.
  unfoldable pub release_driver_lock : Store → ℕ → ℕ → ℕ → Store
  release_driver_lock s now driver_id trip_id =
      if opt_is (get s now driver_id) trip_id then del s driver_id else s

pub data LockCall : Type 0 where
  acquire : ℕ → ℕ → ℕ → ℕ → LockCall
  release : ℕ → ℕ → ℕ → LockCall

abbrev pub time_of : LockCall → ℕ
time_of (acquire now driver trip ttl) = now
time_of (release now driver trip) = now

-- The call releases the trip's lock on the driver.
abbrev pub releases : ℕ → ℕ → LockCall → Bool
releases driver trip (acquire now d t ttl) = false
releases driver trip (release now d t) = if d == driver then t == trip else false

-- The call is an attempt to lock the driver.
abbrev pub attempts : ℕ → LockCall → Bool
attempts driver (acquire now d t ttl) = d == driver
attempts driver (release now d t) = false

module _ (redis : KeyStore) where
  open redis use {Store}

  -- The store after a call, and whether an `acquire` succeeded.
  pub perform : Store → LockCall → Store × Bool
  unfolding acquire_driver_lock release_driver_lock
  perform s (acquire now driver trip ttl) = acquire_driver_lock redis s now driver trip ttl
  perform s (release now driver trip) = (release_driver_lock redis s now driver trip, false)
