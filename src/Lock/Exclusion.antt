-- ===== src/Lock/Exclusion.antt =====
-- While a trip's lock on a driver lasts, nobody else gets it (core/src/repositories/driver-lock.repository.ts).
use ride_location_tracking_e.Common.{
  ℕ, ◌+◌, ◌<◌, ◌≡◌, refl, true, false, none, some, List, [], ◌∷◌, arith, ◌==◌, Bool-cases, inl, inr,
  ==_iff, ◌∙◌,
}
use ride_location_tracking_e.Lock.{
  KeyStore, LockCall, acquire, release, acquire_driver_lock, release_driver_lock, perform, time_of,
  releases, attempts,
}

module _ (redis : KeyStore) where
  open redis use {Store, get, set_nx, del, set_free, set_stays, set_held, set_other, get-del}

  -- Until that time the driver's key holds the trip.
  abbrev pub IsHeld : Store → ℕ → ℕ → ℕ → Type 0
  IsHeld s driver trip until = (later : ℕ) → later < until → get s later driver ≡ some trip

  pub perform_all : Store → List LockCall → Store
  perform_all s [] = s
  perform_all s (c ∷ cs) = perform_all (perform redis s c).0 cs

  -- The calls come before the lock's end, and none of them is the holder's own release.
  abbrev pub AllOthers : ℕ → ℕ → ℕ → List LockCall → Type 0
  AllOthers driver trip until [] = Unit {0}
  AllOthers driver trip until (c ∷ cs) =
      (time_of c < until) × (releases driver trip c ≡ false) × AllOthers driver trip until cs

  -- No attempt at the driver succeeds.
  abbrev pub AllRefused : ℕ → Store → List LockCall → Type 0
  AllRefused driver s [] = Unit {0}
  AllRefused driver s (c ∷ cs) =
      (attempts driver c ≡ true → (perform redis s c).1 ≡ false)
      × AllRefused driver (perform redis s c).0 cs

  perform-IsHeld :
      (s : Store) (driver trip until : ℕ) (c : LockCall)
      → IsHeld s driver trip until
      → time_of c < until
      → releases driver trip c ≡ false
      → IsHeld (perform redis s c).0 driver trip until
  unfolding perform acquire_driver_lock release_driver_lock
  perform-IsHeld s driver trip until (acquire now d t ttl) h before r later l =
      elim (Bool-cases (d == driver)) [
        | inl same ↦
            let e = (==_iff d driver).0 same in
            rw e ((set_held s now driver t ttl trip (h now before)).1 later ∙ h later l)
        | inr other ↦ ground (arith, h later l, set_other s now d t ttl later driver other)
      ]
  perform-IsHeld s driver trip until (release now d t) h before r later l =
      ground (arith, h later l, h now before, r, get-del s d later driver)

  refused :
      (s : Store) (driver trip until : ℕ) (c : LockCall)
      → IsHeld s driver trip until
      → time_of c < until
      → attempts driver c ≡ true
      → (perform redis s c).1 ≡ false
  unfolding perform acquire_driver_lock
  refused s driver trip until (acquire now d t ttl) h before a =
      let e = (==_iff d driver).0 a in rw e (set_held s now driver t ttl trip (h now before)).0
  refused s driver trip until (release now d t) h before a = refl

  during :
      (driver trip until : ℕ) (s : Store) (cs : List LockCall)
      → IsHeld s driver trip until
      → AllOthers driver trip until cs
      → AllRefused driver s cs × IsHeld (perform_all s cs) driver trip until
  unfolding perform_all
  during driver trip until s [] h a = (tt, h)
  during driver trip until s (c ∷ cs) h a =
      let rest =
        during driver trip until (perform redis s c).0 cs
          (perform-IsHeld s driver trip until c h a.0 a.1) a.2 in
      ((refused s driver trip until c h a.0, rest.0), rest.1)

  -- An `acquire` of a driver whose key is free succeeds, and until its time is up, whatever is called in
  -- between except the holder's own release, every attempt at the driver fails and the lock stays the
  -- trip's.
  pub lock_excludes :
      (s : Store) (now driver trip ttl : ℕ) (cs : List LockCall)
      → get s now driver ≡ none
      → AllOthers driver trip (now + ttl) cs
      → ((acquire_driver_lock redis s now driver trip ttl).1 ≡ true)
        × AllRefused driver (acquire_driver_lock redis s now driver trip ttl).0 cs
        × IsHeld
            (perform_all (acquire_driver_lock redis s now driver trip ttl).0 cs)
            driver
            trip
            (now + ttl)
  unfolding acquire_driver_lock
  lock_excludes s now driver trip ttl cs free o =
      let kept =
        during driver trip (now + ttl) (set_nx s now driver trip ttl).0 cs
          (λ later l. set_stays s now driver trip ttl later free l) o in
      (set_free s now driver trip ttl free, kept.0, kept.1)
