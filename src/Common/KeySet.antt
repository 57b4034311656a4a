-- ===== src/Common/KeySet.antt =====
-- A JavaScript `Set` of ids, in insertion order.
use Prim.Native.Nat.{ℕ}
use mathlib.Core.Path.{◌≡◌, refl}
use mathlib.Core.Bool.{Bool, true, false, not, ◌&&◌, ◌||◌}
use mathlib.Core.List.{List, [], ◌∷◌}
use native.Mathlib.Omega.{arith}
use ride_location_tracking_e.Common.Tests.{◌==◌, if◌then◌else◌, Bool-cases}
use mathlib.Core.Logic.{inl, inr}
use ride_location_tracking_e.Common.Lists.{All}

abbrev pub KeySet : Type 0
KeySet = List ℕ

-- `s.has(x)`
unfoldable pub has : KeySet → ℕ → Bool
has [] x = false
has (y ∷ s) x = y == x || has s x

-- `s.add(x)`
unfoldable pub add : KeySet → ℕ → KeySet
add [] x = x ∷ []
add (y ∷ s) x = if y == x then y ∷ s else y ∷ add s x

-- `s.delete(x)`
unfoldable pub delete : KeySet → ℕ → KeySet
delete [] x = []
delete (y ∷ s) x = let rest = delete s x in if y == x then rest else y ∷ rest

-- `s.size === 0`
unfoldable pub is_empty : KeySet → Bool
is_empty [] = true
is_empty (y ∷ s) = false

pub has-add : (s : KeySet) (x y : ℕ) → has (add s x) y ≡ (x == y || has s y)
unfolding has add
has-add [] x y = ground arith
has-add (z ∷ s) x y = ground (arith, has-add s x y)

pub has-delete : (s : KeySet) (x y : ℕ) → has (delete s x) y ≡ (not (x == y) && has s y)
unfolding has delete
has-delete [] x y = ground arith
has-delete (z ∷ s) x y = ground (arith, has-delete s x y)

pub has-empty : (s : KeySet) (x : ℕ) → is_empty s ≡ true → has s x ≡ false
unfolding has is_empty
has-empty [] x e = refl
has-empty (y ∷ s) x e = ground arith

pub has-nil : (x : ℕ) → has [] x ≡ false
unfolding has
has-nil x = refl

-- What holds of every member holds along the list.
pub All-has {ℓ} : (P : ℕ → Type ℓ) (s : KeySet) → ((x : ℕ) → has s x ≡ true → P x) → All P s
unfolding has
All-has P [] f = tt
All-has P (y ∷ s) f = (f y (ground arith), All-has P s (λ x h. f x (ground (arith, h))))

-- No member occurs twice.
abbrev pub IsDistinct : KeySet → Type 0
IsDistinct [] = Unit {0}
IsDistinct (y ∷ s) = (has s y ≡ false) × IsDistinct s

pub add-IsDistinct : (s : KeySet) (x : ℕ) → IsDistinct s → IsDistinct (add s x)
unfolding add has
add-IsDistinct [] x h = (refl, tt)
add-IsDistinct (y ∷ s) x h = elim (Bool-cases (y == x)) [
  | inl e ↦ rw (add, e) h
  | inr e ↦ rw (add, e) (ground (arith, h.0, e, has-add s x y), add-IsDistinct s x h.1)
]

pub delete-IsDistinct : (s : KeySet) (x : ℕ) → IsDistinct s → IsDistinct (delete s x)
unfolding delete
delete-IsDistinct [] x h = tt
delete-IsDistinct (y ∷ s) x h = elim (Bool-cases (y == x)) [
  | inl e ↦ rw (delete, e) (delete-IsDistinct s x h.1)
  | inr e ↦ rw (delete, e) (ground (arith, h.0, e, has-delete s x y), delete-IsDistinct s x h.1)
]
