-- ===== src/Common/Map.antt =====
-- A JavaScript `Map` whose keys are ids, in insertion order.
use Prim.Native.Nat.{ℕ}
use mathlib.Core.Path.{◌≡◌, refl, ◌∙◌}
use mathlib.Core.Bool.{Bool, true, false}
use mathlib.Core.Option.{Option, none, some}
use mathlib.Core.List.{List, [], ◌∷◌}
use native.Mathlib.Omega.{arith}
use ride_location_tracking_e.Common.Tests.{◌==◌, if◌then◌else◌, is_some, Option-cases, Bool-cases}
use mathlib.Core.Logic.{inl, inr}
use ride_location_tracking_e.Common.KeySet
use ride_location_tracking_e.Common.Lists.{length, All, for_each, for_each_inv}

abbrev pub Map {ℓ} : Type ℓ → Type ℓ
Map V = List (ℕ × V)

module _ {ℓ} {V : Type ℓ} where
  -- `m.get(k)`
  unfoldable pub get : Map V → ℕ → Option V
  get [] k = none
  get ((j, v) ∷ m) k = if j == k then some v else get m k

  -- `m.set(k, v)`: a key that is there keeps its place.
  unfoldable pub set : Map V → ℕ → V → Map V
  set [] k v = (k, v) ∷ []
  set ((j, w) ∷ m) k v = if j == k then (k, v) ∷ m else (j, w) ∷ set m k v

  -- `m.delete(k)`
  unfoldable pub delete : Map V → ℕ → Map V
  delete [] k = []
  delete ((j, w) ∷ m) k = let rest = delete m k in if j == k then rest else (j, w) ∷ rest

  -- `m.has(k)`
  unfoldable pub has : Map V → ℕ → Bool
  has m k = is_some (get m k)

  -- `m.size`
  unfoldable pub size : Map V → ℕ
  size m = length m

  -- `Array.from(m.keys())`
  unfoldable pub keys : Map V → List ℕ
  keys [] = []
  keys ((k, v) ∷ m) = k ∷ keys m

  -- The value at each key, in the order of the keys.
  values_at : Map V → List ℕ → List V
  values_at m [] = []
  values_at m (k ∷ ks) =
      let rest = values_at m ks in elim (get m k) [ none ↦ rest | some v ↦ v ∷ rest ]

  -- `Array.from(m.values())`
  unfoldable pub values : Map V → List V
  unfolding values_at
  values m = values_at m (keys m)

  pub get-set :
      (m : Map V) (k j : ℕ) (v : V) → get (set m k v) j ≡ (if k == j then some v else get m j)
  unfolding get set
  get-set [] k j v = refl
  get-set ((i, w) ∷ m) k j v = ground (arith, get-set m k j v)

  pub get-delete : (m : Map V) (k j : ℕ) → get (delete m k) j ≡ (if k == j then none else get m j)
  unfolding get delete
  get-delete [] k j = ground arith
  get-delete ((i, w) ∷ m) k j = ground (arith, get-delete m k j)

-- No key occurs twice.
abbrev pub IsDistinct {ℓ} : {V : Type ℓ} → Map V → Type 0
IsDistinct [] = Unit {0}
IsDistinct ((k, v) ∷ m) = (is_some (get m k) ≡ false) × IsDistinct m

pub set-IsDistinct {ℓ} :
    {V : Type ℓ} (m : Map V) (k : ℕ) (v : V) → IsDistinct m → IsDistinct (set m k v)
unfolding set get
set-IsDistinct [] k v h = (refl, tt)
set-IsDistinct ((j, w) ∷ m) k v h = elim (Bool-cases (j == k)) [
  | inl e ↦ rw (set, e) (ground (arith, h.0, e), h.1)
  | inr e ↦ rw (set, e) (ground (arith, h.0, e, get-set m k j v), set-IsDistinct m k v h.1)
]

pub delete-IsDistinct {ℓ} :
    {V : Type ℓ} (m : Map V) (k : ℕ) → IsDistinct m → IsDistinct (delete m k)
unfolding delete
delete-IsDistinct [] k h = tt
delete-IsDistinct ((j, w) ∷ m) k h = elim (Bool-cases (j == k)) [
  | inl e ↦ rw (delete, e) (delete-IsDistinct m k h.1)
  | inr e ↦ rw (delete, e) (ground (arith, h.0, e, get-delete m k j), delete-IsDistinct m k h.1)
]

-- A key with a value is among the keys.
pub has-keys {ℓ} :
    {V : Type ℓ} (m : Map V) (k : ℕ) (v : V) → get m k ≡ some v → KeySet.has (keys m) k ≡ true
unfolding get keys KeySet.has
has-keys [] k v e = cc
has-keys ((j, w) ∷ m) k v e = ground (arith, e, has-keys m k v)

module _ {ℓ κ} {V : Type ℓ} (P : V → Type κ) (m : Map V)
    (f : (k : ℕ) (v : V) → get m k ≡ some v → P v) where
  All-values_at : (ks : List ℕ) → All P (values_at m ks)
  unfolding values_at
  All-values_at [] = tt
  All-values_at (k ∷ ks) = elim (Option-cases (get m k)) [
    | inl e ↦ rw (e, values_at) (All-values_at ks)
    | inr (v, e) ↦ rw (e, values_at) (f k v e, All-values_at ks)
  ]

  -- What holds of the value at every key holds of all values.
  pub All-values : All P (values m)
  unfolding values
  All-values = All-values_at (keys m)

pub get-empty {ℓ} : {V : Type ℓ} (k : ℕ) → get {V = V} [] k ≡ none
unfolding get
get-empty k = refl

pub ruleset map_laws = (get-set, get-delete, get-empty)

-- The keys are those with a value.
pub has-keys_iff {ℓ} : {V : Type ℓ} (m : Map V) (k : ℕ) → KeySet.has (keys m) k ≡ is_some (get m k)
unfolding get keys KeySet.has
has-keys_iff [] k = refl
has-keys_iff ((j, w) ∷ m) k = ground (arith, has-keys_iff m k)

module _ {ℓ} {V : Type ℓ} where
  -- A value set at each of some keys, one after the other.
  pub get-set_each :
      (ks : List ℕ) (f : ℕ → V) (m : Map V) (k : ℕ)
      → get (for_each ks (λ m' j. set m' j (f j)) m) k
        ≡ (if KeySet.has ks k then some (f k) else get m k)
  unfolding for_each KeySet.has
  get-set_each [] f m k = refl
  get-set_each (j ∷ ks) f m k =
      get-set_each ks f (set m j (f j)) k ∙ ground (arith, get-set m j k (f j))

  pub set_each-IsDistinct :
      (ks : List ℕ) (f : ℕ → V) (m : Map V)
      → IsDistinct m
      → IsDistinct (for_each ks (λ m' j. set m' j (f j)) m)
  set_each-IsDistinct ks f m h =
      for_each_inv IsDistinct ks (λ m' j. set m' j (f j)) (λ m' j. set-IsDistinct m' j (f j)) m h

  -- The entries of one map written over another.
  pub get-set_all :
      (es m : Map V) (k : ℕ)
      → IsDistinct es
      → get (for_each es (λ m' e. set m' e.0 e.1) m) k
        ≡ elim (get es k) as (λ _. Option V) [ none ↦ get m k | some v ↦ some v ]
  unfolding for_each get
  get-set_all [] m k h = refl
  get-set_all ((j, v) ∷ es) m k h =
      get-set_all es (set m j v) k h.1 ∙ ground (arith, h.0, get-set m j k v)
