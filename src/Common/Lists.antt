-- ===== src/Common/Lists.antt =====
-- Lists over the native numbers.
use Prim.Native.Nat.{ℕ, zero, suc, ◌+◌, ◌≤◌}
use mathlib.Core.Path.{◌≡◌, refl}
use mathlib.Core.List.{List, [], ◌∷◌, ◌++◌}
use native.Mathlib.Omega.{arith}

module _ {ℓ} {A : Type ℓ} where
  abbrev pub length : List A → ℕ
  length [] = 0
  length (x ∷ xs) = suc (length xs)

  pub length-append : (xs ys : List A) → length (xs ++ ys) ≡ length xs + length ys
  length-append [] ys = omega arith
  length-append (x ∷ xs) ys = omega (arith, length-append xs ys)

  -- `for (const x of xs) s = f(s, x)`
  unfoldable pub for_each {κ} : {S : Type κ} → List A → (S → A → S) → S → S
  for_each [] f s = s
  for_each (x ∷ xs) f s = for_each xs f (f s x)

  -- An invariant of the body is one of the loop.
  pub for_each_inv {κ μ} :
      {S : Type κ} (P : S → Type μ) (xs : List A) (f : S → A → S)
      → ((s : S) (x : A) → P s → P (f s x))
      → (s : S) → P s
      → P (for_each xs f s)
  unfolding for_each
  for_each_inv P [] f keep s h = h
  for_each_inv P (x ∷ xs) f keep s h = for_each_inv P xs f keep (f s x) (keep s x h)

  -- `xs.slice(0, n)`
  abbrev pub take : List A → ℕ → List A
  take [] n = []
  take (x ∷ xs) zero = []
  take (x ∷ xs) (suc n) = x ∷ take xs n

  pub take-zero : (xs : List A) → take xs 0 ≡ []
  take-zero [] = refl
  take-zero (x ∷ xs) = refl

  pub length-take-le : (xs : List A) (n : ℕ) → length (take xs n) ≤ n
  length-take-le [] n = omega arith
  length-take-le (x ∷ xs) zero = omega arith
  length-take-le (x ∷ xs) (suc n) = omega (arith, length-take-le xs n)

  pub length-take-full : (xs : List A) (n : ℕ) → n ≤ length xs → length (take xs n) ≡ n
  length-take-full [] n h = omega arith
  length-take-full (x ∷ xs) zero h = refl
  length-take-full (x ∷ xs) (suc n) h = omega (arith, length-take-full xs n)

module _ {ℓ κ} {A : Type ℓ} where
  abbrev pub All : (A → Type κ) → List A → Type κ
  All P [] = Unit
  All P (x ∷ xs) = P x × All P xs

  pub All-mono : (P Q : A → Type κ) (xs : List A) → ((x : A) → P x → Q x) → All P xs → All Q xs
  All-mono P Q [] f h = tt
  All-mono P Q (x ∷ xs) f h = (f x h.0, All-mono P Q xs f h.1)

module _ {ℓ κ} {A : Type ℓ} (P : A → Type κ) where
  pub All-take : (xs : List A) (n : ℕ) → All P xs → All P (take xs n)
  All-take [] n h = tt
  All-take (x ∷ xs) zero h = tt
  All-take (x ∷ xs) (suc n) h = (h.0, All-take xs n h.1)

-- The loop rule where each element has a precondition, which the rounds before it keep.
pub for_each_all {ℓ κ μ ν} :
    {A : Type ℓ} {S : Type κ} (P : S → Type μ) (Q : S → A → Type ν) (f : S → A → S)
    → ((s : S) (x : A) → P s → Q s x → P (f s x))
    → ((s : S) (x y : A) → P s → Q s x → Q s y → Q (f s x) y)
    → (xs : List A) (s : S) → P s
    → All (Q s) xs
    → P (for_each xs f s)
unfolding for_each
for_each_all P Q f step keep [] s p h = p
for_each_all P Q f step keep (x ∷ xs) s p h =
    for_each_all P Q f step keep xs (f s x) (step s x p h.0)
      (All-mono (Q s) (Q (f s x)) xs (λ y q. keep s x y p h.0 q) h.1)
