-- ===== src/Lock/Tests.antt =====
-- The lock's theorem at a run of two trips after one driver (core/src/repositories/driver-lock.repository.ts).
use ride_location_tracking_e.Common.{◌≡◌, refl, true, List, [], ◌∷◌, arith}
use ride_location_tracking_e.Lock.{LockCall, acquire, release, acquire_driver_lock}
use ride_location_tracking_e.Lock.Memory.{memory, no_keys}
use ride_location_tracking_e.Lock.Exclusion.{AllRefused, IsHeld, perform_all, lock_excludes}

-- Trip 8 tries for driver 3 twice, and releases a lock that is not its own.
abbrev rivals : List LockCall
rivals = acquire 110 3 8 20000 ∷ release 120 3 8 ∷ acquire 130 3 8 20000 ∷ []

lock_excludes_example :
    ((acquire_driver_lock memory no_keys 100 3 7 20000).1 ≡ true)
    × AllRefused memory 3 (acquire_driver_lock memory no_keys 100 3 7 20000).0 rivals
    × IsHeld memory
        (perform_all memory (acquire_driver_lock memory no_keys 100 3 7 20000).0 rivals)
        3
        7
        20100
lock_excludes_example =
    lock_excludes memory no_keys 100 3 7 20000 rivals refl
      (omega arith, refl, (omega arith, refl, (omega arith, refl, tt)))
