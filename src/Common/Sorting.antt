-- ===== src/Common/Sorting.antt =====
-- `.sort((a, b) => key(a) - key(b))`, which is stable, and what it keeps.
use Prim.Native.Nat.{ℕ, zero, suc, ◌≤◌}
use mathlib.Core.Path.{◌≡◌, refl, ◌∙◌}
use mathlib.Core.Logic.{◌⊎◌, inl, inr}
use mathlib.Core.Bool.{Bool, true, false, ◌||◌}
use mathlib.Core.List.{List, [], ◌∷◌}
use native.Mathlib.Omega.{arith}
use ride_location_tracking_e.Common.Lists.{All, All-mono, All-take, take, length}
use ride_location_tracking_e.Common.Tests.{ltb, if◌then◌else◌, Bool-cases}

-- Is the test true of an element?
unfoldable pub any {ℓ} : {A : Type ℓ} → (A → Bool) → List A → Bool
any p [] = false
any p (x ∷ xs) = p x || any p xs

-- How many elements the test is true of.
unfoldable pub count {ℓ} : {A : Type ℓ} → (A → Bool) → List A → ℕ
count p [] = 0
count p (x ∷ xs) = let rest = count p xs in if p x then suc rest else rest

pub count-take-le {ℓ} :
    {A : Type ℓ} (p : A → Bool) (xs : List A) (n : ℕ) → count p (take xs n) ≤ count p xs
unfolding count
count-take-le p [] n = omega arith
count-take-le p (x ∷ xs) zero = omega arith
count-take-le p (x ∷ xs) (suc n) = ground (arith, count-take-le p xs n)

module _ {A : Type 0} (key : A → ℕ) where
  -- In front of the first element that is not smaller.
  unfoldable pub insert_by : A → List A → List A
  insert_by x [] = x ∷ []
  insert_by x (y ∷ ys) =
      let rest = insert_by x ys in if ltb (key y) (key x) then y ∷ rest else x ∷ y ∷ ys

  unfoldable pub sort_by : List A → List A
  sort_by [] = []
  sort_by (x ∷ xs) = insert_by x (sort_by xs)

  -- Each element is at most every later one.
  abbrev pub IsSortedBy : List A → Type 0
  IsSortedBy [] = Unit {0}
  IsSortedBy (x ∷ xs) = All (λ y. key x ≤ key y) xs × IsSortedBy xs

  All-insert_by : (P : A → Type 0) (x : A) (ys : List A) → P x → All P ys → All P (insert_by x ys)
  unfolding insert_by
  All-insert_by P x [] p h = (p, tt)
  All-insert_by P x (y ∷ ys) p h = elim (Bool-cases (ltb (key y) (key x))) [
    | inl g ↦ rw (g, insert_by) (h.0, All-insert_by P x ys p h.1)
    | inr g ↦ rw (g, insert_by) (p, h)
  ]

  pub All-sort_by : (P : A → Type 0) (xs : List A) → All P xs → All P (sort_by xs)
  unfolding sort_by
  All-sort_by P [] h = tt
  All-sort_by P (x ∷ xs) h = All-insert_by P x (sort_by xs) h.0 (All-sort_by P xs h.1)

  insert_by-IsSortedBy : (x : A) (ys : List A) → IsSortedBy ys → IsSortedBy (insert_by x ys)
  unfolding insert_by
  insert_by-IsSortedBy x [] h = (tt, tt)
  insert_by-IsSortedBy x (y ∷ ys) h = elim (Bool-cases (ltb (key y) (key x))) [
    | inl g ↦
        rw (g, insert_by)
          (
            All-insert_by (λ z. key y ≤ key z) x ys (ground (arith, g)) h.0,
            insert_by-IsSortedBy x ys h.1,
          )
    | inr g ↦
        let below : key x ≤ key y = ground (arith, g) in
        rw (g, insert_by)
          (
            (
              below,
              All-mono (λ z. key y ≤ key z) (λ z. key x ≤ key z) ys (λ z k. omega (arith, below))
                  h.0,
            ),
            h,
          )
  ]

  pub sort_by-IsSortedBy : (xs : List A) → IsSortedBy (sort_by xs)
  unfolding sort_by
  sort_by-IsSortedBy [] = tt
  sort_by-IsSortedBy (x ∷ xs) = insert_by-IsSortedBy x (sort_by xs) (sort_by-IsSortedBy xs)

  any-insert_by : (p : A → Bool) (x : A) (ys : List A) → any p (insert_by x ys) ≡ (p x || any p ys)
  unfolding insert_by any
  any-insert_by p x [] = refl
  any-insert_by p x (y ∷ ys) = ground (arith, any-insert_by p x ys)

  pub any-sort_by : (p : A → Bool) (xs : List A) → any p (sort_by xs) ≡ any p xs
  unfolding sort_by any
  any-sort_by p [] = refl
  any-sort_by p (x ∷ xs) = ground (arith, any-insert_by p x (sort_by xs), any-sort_by p xs)

  count-insert_by :
      (p : A → Bool) (x : A) (ys : List A) → count p (insert_by x ys) ≡ count p (x ∷ ys)
  unfolding insert_by count
  count-insert_by p x [] = refl
  count-insert_by p x (y ∷ ys) = ground (arith, count-insert_by p x ys)

  pub count-sort_by : (p : A → Bool) (xs : List A) → count p (sort_by xs) ≡ count p xs
  unfolding sort_by count
  count-sort_by p [] = refl
  count-sort_by p (x ∷ xs) = count-insert_by p x (sort_by xs) ∙ ground (arith, count-sort_by p xs)

  -- What is at most every element is at most one with the property.
  at_most :
      (p : A → Bool) (n d : ℕ) (xs : List A)
      → any p xs ≡ true
      → All (λ y. p y ≡ true → key y ≡ d) xs
      → All (λ y. n ≤ key y) xs
      → n ≤ d
  unfolding any
  at_most p n d [] e h below = ground (arith, e)
  at_most p n d (x ∷ xs) e h below = elim (Bool-cases (p x)) [
    | inl g ↦ let q : key x ≡ d = h.0 g in omega (arith, q, below.0)
    | inr g ↦ at_most p n d xs (ground (arith, e, g)) h.1 below.1
  ]

  -- An element with the property is among the first `k` of a sorted list, or these are `k`, and none is greater.
  pub first-or_at_most :
      (p : A → Bool) (d : ℕ) (xs : List A) (k : ℕ)
      → any p xs ≡ true
      → All (λ y. p y ≡ true → key y ≡ d) xs
      → IsSortedBy xs
      → (any p (take xs k) ≡ true) ⊎ (All (λ y. key y ≤ d) (take xs k) × (length (take xs k) ≡ k))
  unfolding any
  first-or_at_most p d [] k e h s = inl e
  first-or_at_most p d (x ∷ xs) zero e h s = inr (tt, refl)
  first-or_at_most p d (x ∷ xs) (suc k) e h s = elim (Bool-cases (p x)) [
    | inl g ↦ inl (ground (arith, g))
    | inr g ↦
        let later : any p xs ≡ true = ground (arith, e, g) in
        elim (first-or_at_most p d xs k later h.1 s.1) [
          | inl f ↦ inl (ground (arith, f))
          | inr f ↦ inr ((at_most p (key x) d xs later h.1 s.0, f.0), omega (arith, f.1))
        ]
  ]

  pub take-IsSortedBy : (xs : List A) (n : ℕ) → IsSortedBy xs → IsSortedBy (take xs n)
  take-IsSortedBy [] n h = tt
  take-IsSortedBy (x ∷ xs) zero h = tt
  take-IsSortedBy (x ∷ xs) (suc n) h =
      (All-take (λ y. key x ≤ key y) xs n h.0, take-IsSortedBy xs n h.1)
