-- ===== src/Lock/Memory.antt =====
-- A key store for examples (core/src/repositories/driver-lock.repository.ts): a key's value and the time
-- at which it expires.
use ride_location_tracking_e.Common.{
  ℕ, ◌+◌, ◌<◌, ◌≡◌, refl, Bool, true, false, Option, none, some, arith, ◌==◌, ltb, if◌then◌else◌,
}
use ride_location_tracking_e.Lock.{KeyStore}

abbrev pub Keys : Type 0
Keys = ℕ → Option (ℕ × ℕ)

abbrev pub live_value : Option (ℕ × ℕ) → ℕ → Option ℕ
live_value none now = none
live_value (some (v, ends)) now = if ltb now ends then some v else none

abbrev pub put : Option ℕ → Keys → ℕ → ℕ × ℕ → Keys × Bool
put none s key v = (λ j. if key == j then some v else s j, true)
put (some u) s key v = (s, false)

module _ (s : Keys) (key : ℕ) (v : ℕ × ℕ) where
  pub put_free : (o : Option ℕ) → o ≡ none → (put o s key v).1 ≡ true
  put_free none e = refl
  put_free (some u) e = ground (arith, e)

  pub put_stays :
      (o : Option ℕ) (later : ℕ)
      → o ≡ none
      → later < v.1
      → live_value ((put o s key v).0 key) later ≡ some v.0
  put_stays none later e l = ground arith
  put_stays (some u) later e l = ground (arith, e)

  pub put_held :
      (o : Option ℕ) (u : ℕ)
      → o ≡ some u
      → ((put o s key v).1 ≡ false)
        × ((later : ℕ) → live_value ((put o s key v).0 key) later ≡ live_value (s key) later)
  put_held none u e = cc
  put_held (some w) u e = (refl, λ later. refl)

  pub put_other :
      (o : Option ℕ) (later j : ℕ)
      → (key == j) ≡ false
      → live_value ((put o s key v).0 j) later ≡ live_value (s j) later
  put_other none later j e = ground arith
  put_other (some u) later j e = refl

pub remove_law :
    (s : Keys) (key later j : ℕ)
    → live_value (if key == j then none else s j) later
      ≡ (if key == j then none else live_value (s j) later)
remove_law s key later j = ground arith

abbrev pub memory : KeyStore
memory = record {
  Store = Keys;
  get = λ s now key. live_value (s key) now;
  set_nx = λ s now key value ttl. put (live_value (s key) now) s key (value, now + ttl);
  del = λ s key j. if key == j then none else s j;
  set_free = λ s now key value ttl e. put_free s key (value, now + ttl) (live_value (s key) now) e;
  set_stays = λ s now key value ttl later e l.
      put_stays s key (value, now + ttl) (live_value (s key) now) later e l;
  set_held =
      λ s now key value ttl u e. put_held s key (value, now + ttl) (live_value (s key) now) u e;
  set_other = λ s now key value ttl later j e.
      put_other s key (value, now + ttl) (live_value (s key) now) later j e;
  get-del = remove_law;
}

abbrev pub no_keys : Keys
no_keys j = none
