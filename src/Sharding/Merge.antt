-- ===== src/Sharding/Merge.antt =====
-- Sorting the answers of several shards, each of which is sorted (`searchNearby` of
-- core/src/repositories/sharded-driver-geo.repository.ts).
use ride_location_tracking_e.Common.{
  ℕ, zero, suc, ◌≤◌, ◌≡◌, refl, sym, ap, ◌∙◌, List, [], ◌∷◌, ◌++◌, ltb, if◌then◌else◌, All, take,
  Bool-cases, inl, inr, arith, take-zero,
}
use ride_location_tracking_e.Common.Sorting.{sort_by, insert_by, IsSortedBy, take-IsSortedBy}
use ride_location_tracking_e.Sharding.{ShardedNearbyResult, distance, sort_near, flat}

abbrev pub IsSorted : List ShardedNearbyResult → Type 0
IsSorted = IsSortedBy distance

-- Two sorted lists in one, the first list's elements first among equals.
merge : List ShardedNearbyResult → List ShardedNearbyResult → List ShardedNearbyResult
merge [] ys = ys
merge (x ∷ xs) [] = x ∷ xs
merge (x ∷ xs) (y ∷ ys) =
    let later = merge (x ∷ xs) ys in
    let sooner = merge xs (y ∷ ys) in
    if ltb (distance y) (distance x) then y ∷ later else x ∷ sooner

merge-nil : (xs : List ShardedNearbyResult) → merge xs [] ≡ xs
unfolding merge
merge-nil [] = refl
merge-nil (x ∷ xs) = refl

take-take : (xs : List ShardedNearbyResult) (n i : ℕ) → n ≤ i → take (take xs i) n ≡ take xs n
take-take [] n i h = refl
take-take (x ∷ xs) zero i h = take-zero (take (x ∷ xs) i)
take-take (x ∷ xs) (suc n) zero h = absurd (omega arith)
take-take (x ∷ xs) (suc n) (suc i) h = ap (λ l. x ∷ l) (take-take xs n i (omega arith))

-- The first elements of the merged list come from the first elements of the two.
take-merge :
    (xs ys : List ShardedNearbyResult) (n i j : ℕ)
    → n ≤ i
    → n ≤ j
    → take (merge (take xs i) (take ys j)) n ≡ take (merge xs ys) n
unfolding merge
take-merge [] ys n i j h k = take-take ys n j k
take-merge (x ∷ xs) [] n i j h k =
    ap (λ l. take l n) (merge-nil (take (x ∷ xs) i)) ∙ take-take (x ∷ xs) n i h
take-merge (x ∷ xs) (y ∷ ys) zero i j h k =
    take-zero (merge (take (x ∷ xs) i) (take (y ∷ ys) j))
    ∙ sym (take-zero (merge (x ∷ xs) (y ∷ ys)))
take-merge (x ∷ xs) (y ∷ ys) (suc n) zero j h k = absurd (omega arith)
take-merge (x ∷ xs) (y ∷ ys) (suc n) (suc i) zero h k = absurd (omega arith)
take-merge (x ∷ xs) (y ∷ ys) (suc n) (suc i) (suc j) h k =
    let later = take-merge (x ∷ xs) ys n (suc i) j (omega arith) (omega arith) in
    let sooner = take-merge xs (y ∷ ys) n i (suc j) (omega arith) (omega arith) in
    elim (Bool-cases (ltb (distance y) (distance x))) [
      | inl e ↦ rw (merge, e) (ap (λ l. y ∷ l) later)
      | inr e ↦ rw (merge, e) (ap (λ l. x ∷ l) sooner)
    ]

-- The new element comes first among those that are as far away.
insert-merge :
    (x : ShardedNearbyResult) (xs m : List ShardedNearbyResult)
    → IsSorted (x ∷ xs)
    → insert_by distance x (merge xs m) ≡ merge (x ∷ xs) m
unfolding merge insert_by
insert-merge x [] [] h = refl
insert-merge x (z ∷ zs) [] h = ground (arith, h.0.0)
insert-merge x [] (y ∷ ys) h = ground (arith, insert-merge x [] ys h)
insert-merge x (z ∷ zs) (y ∷ ys) h = ground (arith, h.0.0, insert-merge x (z ∷ zs) ys h)

sort-append :
    (xs ys : List ShardedNearbyResult)
    → IsSorted xs
    → sort_near (xs ++ ys) ≡ merge xs (sort_near ys)
unfolding sort_by merge
sort-append [] ys h = refl
sort-append (x ∷ xs) ys h =
    ap (insert_by distance x) (sort-append xs ys h.1) ∙ insert-merge x xs (sort_near ys) h

-- The lists cut to `n` elements.
abbrev pub cut : ℕ → List (List ShardedNearbyResult) → List (List ShardedNearbyResult)
cut n [] = []
cut n (xs ∷ xss) = take xs n ∷ cut n xss

-- The first `n` of the sorted answers are the same if each answer is cut to `n` elements before.
pub sort-cut :
    (xss : List (List ShardedNearbyResult)) (n : ℕ)
    → All IsSorted xss
    → take (sort_near (flat (cut n xss))) n ≡ take (sort_near (flat xss)) n
unfolding flat
sort-cut [] n h = refl
sort-cut (xs ∷ xss) n h =
    ap (λ l. take l n)
      (sort-append (take xs n) (flat (cut n xss)) (take-IsSortedBy distance xs n h.0))
    ∙ sym (take-merge (take xs n) (sort_near (flat (cut n xss))) n n n (omega arith) (omega arith))
    ∙ ap (λ l. take (merge (take (take xs n) n) l) n) (sort-cut xss n h.1)
    ∙ ap (λ l. take (merge l (take (sort_near (flat xss)) n)) n) (take-take xs n n (omega arith))
    ∙ take-merge xs (sort_near (flat xss)) n n n (omega arith) (omega arith)
    ∙ ap (λ l. take l n) (sym (sort-append xs (flat xss) h.0))
