-- ===== src/Geohash/Bits.antt =====
-- `deinterleave` undoes `interleave` (core/src/geo/geohash.ts).
use ride_location_tracking_e.Common.{
  ℕ, zero, suc, ◌+◌, ◌-◌, ◌*◌, ◌/◌, ◌%◌, ◌^◌, ◌≡◌, ◌<◌, refl, sym, ap, ◌∙◌, Bool, if◌then◌else◌,
  ◌==◌, Bool-cases, inl, inr, arith,
}
use native.Mathlib.Nat.{div-add-mod', div-div-eq-div-mul, pow-suc, mod-eq_of_lt}
use ride_location_tracking_e.Geohash.{
  GridCell, bit_split, bit_at, interleave_loop, interleave, deinterleave_loop, deinterleave,
  cell_hash,
}

split_core : (q b r m k : ℕ) → (q * 2 + b) * k + r ≡ q * (k * 2) + m → m ≡ b * k + r
split_core q b r m k h = omega arith

mod_split : (x k : ℕ) → x % (k * 2) ≡ x / k % 2 * k + x % k
mod_split x k =
    let quotient : x / (k * 2) * 2 + x / k % 2 ≡ x / k =
      ap (λ z. z * 2 + x / k % 2) (sym (div-div-eq-div-mul x k 2)) ∙ div-add-mod' (x / k) 2 in
    split_core (x / (k * 2)) (x / k % 2) (x % k) (x % (k * 2)) k
      (ap (λ z. z * k + x % k) quotient ∙ div-add-mod' x k ∙ sym (div-add-mod' x (k * 2)))

-- The rounds for a column bit among `n` from `i` on, and those for a row bit.
pub evens : ℕ → ℕ → ℕ
evens zero i = 0
evens (suc n) i = if i % 2 == 0 then suc (evens n (i + 1)) else evens n (i + 1)

pub odds : ℕ → ℕ → ℕ
odds zero i = 0
odds (suc n) i = if i % 2 == 0 then odds n (i + 1) else suc (odds n (i + 1))

module _ (row col : ℕ) where
  abbrev woven : ℕ → ℕ → ℕ → ℕ
  woven n i result = interleave_loop n i result col (evens n i) row (odds n i)

  abbrev next_bit : ℕ → ℕ → ℕ
  next_bit n i = if i % 2 == 0 then bit_at col (evens n (i + 1)) else bit_at row (odds n (i + 1))

  less_one : (m : ℕ) → suc m - 1 ≡ m
  less_one m = omega arith

  woven_step :
      (n i result : ℕ) → woven (suc n) i result ≡ woven n (i + 1) (2 * result + next_bit n i)
  unfolding interleave_loop evens odds
  woven_step n i result = elim (Bool-cases (i % 2 == 0)) [
    | inl g ↦ rw (interleave_loop, evens, odds, g, less_one (evens n (i + 1))) refl
    | inr g ↦ rw (interleave_loop, evens, odds, g, less_one (odds n (i + 1))) refl
  ]

  halved : (r b : ℕ) → b < 2 → (2 * r + b) / 2 ≡ r
  halved r b h = omega arith

  next_bit_small : (n i : ℕ) → next_bit n i < 2
  unfolding bit_at
  next_bit_small n i = ground arith

  -- The bits that are still to come stand below the result.
  prefix : (n i result : ℕ) → woven n i result / 2 ^ n ≡ result
  unfolding interleave_loop
  prefix zero i result = omega arith
  prefix (suc n) i result =
      let up = prefix n (i + 1) (2 * result + next_bit n i) in
      let h = woven n (i + 1) (2 * result + next_bit n i) in
      rw (woven_step n i result, pow-suc 2 n, ← div-div-eq-div-mul h (2 ^ n) 2, up)
        (halved result (next_bit n i) (next_bit_small n i))

  next_bit_read : (n i result : ℕ) → bit_at (woven (suc n) i result) n ≡ next_bit n i
  unfolding bit_at
  next_bit_read n i result =
      let up = prefix n (i + 1) (2 * result + next_bit n i) in
      rw (woven_step n i result, up) (parity result (next_bit n i) (next_bit_small n i))
    where
      parity : (r b : ℕ) → b < 2 → (2 * r + b) % 2 ≡ b
      parity r b h = omega arith

  pushed : (c k x : ℕ) → (2 * c + x / k % 2) * k + x % k ≡ c * (k * 2) + x % (k * 2)
  pushed c k x = rw (mod_split x k) (omega arith)

  abbrev below : ℕ → ℕ → GridCell → GridCell
  below n i cell = record {
    row = cell.row * 2 ^ odds n i + row % 2 ^ odds n i;
    col = cell.col * 2 ^ evens n i + col % 2 ^ evens n i;
  }

  same_cell : (a b : GridCell) → a.row ≡ b.row → a.col ≡ b.col → a ≡ b
  same_cell a b p q = ground (arith, p, q)

  abbrev put : Bool → GridCell → ℕ → GridCell
  put even cell b =
      if even
      then record { row = cell.row; col = 2 * cell.col + b }
      else record { row = 2 * cell.row + b; col = cell.col }

  deinterleave_step :
      (n i h : ℕ) (cell : GridCell)
      → deinterleave_loop (suc n) i h cell
        ≡ deinterleave_loop n (i + 1) h (put (i % 2 == 0) cell (bit_at h n))
  unfolding deinterleave_loop
  deinterleave_step n i h cell = refl

  below_step :
      (n i : ℕ) (cell : GridCell)
      → below n (i + 1) (put (i % 2 == 0) cell (next_bit n i)) ≡ below (suc n) i cell
  unfolding evens odds bit_at
  below_step n i cell = elim (Bool-cases (i % 2 == 0)) [
    | inl g ↦
        rw (evens, odds, g, pow-suc 2 (evens n (i + 1)))
          (same_cell _ _ refl (pushed cell.col (2 ^ evens n (i + 1)) col))
    | inr g ↦
        rw (evens, odds, g, pow-suc 2 (odds n (i + 1)))
          (same_cell _ _ (pushed cell.row (2 ^ odds n (i + 1)) row) refl)
  ]

  unwoven_start : (i : ℕ) (cell : GridCell) → cell ≡ below 0 i cell
  unfolding evens odds
  unwoven_start i cell = same_cell cell (below 0 i cell) (omega arith) (omega arith)

  unwoven :
      (n i result : ℕ) (cell : GridCell)
      → deinterleave_loop n i (woven n i result) cell ≡ below n i cell
  unfolding deinterleave_loop
  unwoven zero i result cell = unwoven_start i cell
  unwoven (suc n) i result cell =
      let even = i % 2 == 0 in
      let bit = next_bit n i in
      let h = woven (suc n) i result in
      ap (λ b. deinterleave_loop n (i + 1) h (put even cell b)) (next_bit_read n i result)
      ∙ ap (λ x. deinterleave_loop n (i + 1) x (put even cell bit)) (woven_step n i result)
      ∙ unwoven n (i + 1) (2 * result + bit) (put even cell bit)
      ∙ below_step n i cell

counts : (n i : ℕ) → (evens n i ≡ (n + 1 - i % 2) / 2) × (odds n i ≡ (n + i % 2) / 2)
unfolding evens odds
counts zero i = (omega arith, omega arith)
counts (suc n) i = let h = counts n (i + 1) in (ground (arith, h.0, h.1), ground (arith, h.0, h.1))

total : (bits : ℕ) → (bits + 1) / 2 + bits / 2 ≡ bits
total bits = omega arith

read_back : (x k : ℕ) → x < 2 ^ k → 0 * 2 ^ k + x % 2 ^ k ≡ x
read_back x k h = rw (mod-eq_of_lt h) (omega arith)

-- The hash of a grid cell, taken apart at the same precision, is that cell; the cell's row and column must
-- be on the grid.
pub deinterleave-cell_hash :
    (cell : GridCell) (bits : ℕ)
    → cell.row < 2 ^ (bit_split bits).lat_bits
    → cell.col < 2 ^ (bit_split bits).lng_bits
    → deinterleave (cell_hash cell bits) bits ≡ cell
unfolding deinterleave cell_hash interleave bit_split
deinterleave-cell_hash cell bits p q =
    let lng : evens bits 0 ≡ (bits + 1) / 2 = (counts bits 0).0 ∙ ap (λ z. z / 2) (omega arith) in
    let lat : odds bits 0 ≡ bits / 2 = (counts bits 0).1 ∙ ap (λ z. z / 2) (omega arith) in
    rw (total bits, ← lng, ← lat)
      (unwoven cell.row cell.col bits 0 0 (record { row = 0; col = 0 })
        ∙ same_cell cell.row cell.col (below cell.row cell.col bits 0 (record { row = 0; col = 0 }))
            cell (read_back cell.row (odds bits 0) (rw lat p))
            (read_back cell.col (evens bits 0) (rw lng q)))
