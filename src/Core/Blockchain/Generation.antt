-- ===== src/Core/Blockchain/Generation.antt =====
-- neo/Core/Blockchain.py: the gas of an interval of heights is the sum of what its blocks generate.
use neo_python.Core.Blockchain.{
  add_amounts, decrement_interval, generated_by, generated_from, generation_amount, times_amount,
}
use neo_python.Prelude.{
  List, Option, [], ap, arith, get_elem?, get_elem?-some, length, none, refl, some, suc, sym, zero,
  ℕ, ◌*◌, ◌+◌, ◌-◌, ◌/◌, ◌<◌, ◌∙◌, ◌∷◌, ◌≡◌, ◌≤◌,
}
use neo_python.Prelude.Int.{pos, ◌*ℤ◌, ◌+ℤ◌, ◌-ℤ◌}

abbrev or_zero : Option ℕ → ℕ
or_zero none = 0
or_zero (some amount) = amount

-- What one block generates.
unfoldable pub generated_at : ℕ → ℕ
generated_at height = or_zero (get_elem? generation_amount (height / decrement_interval))

-- What a number of blocks generate, from a height on.
unfoldable pub sum_blocks : ℕ → ℕ → ℕ
sum_blocks start zero = 0
sum_blocks start (suc blocks) = generated_at start + sum_blocks (suc start) blocks

pub sum_blocks-add : (s m n : ℕ) → sum_blocks s (m + n) ≡ sum_blocks s m + sum_blocks (s + m) n
unfolding sum_blocks
sum_blocks-add s zero n =
    let front : 0 + n ≡ n = omega arith in
    let start : s + 0 ≡ s = omega arith in rw (front, start) (omega arith)
sum_blocks-add s (suc m) n =
    let front : suc m + n ≡ suc (m + n) = omega arith in
    let next : s + suc m ≡ suc s + m = omega arith in
    rw (front, next) (omega (arith, sum_blocks-add (suc s) m n))

generated_at_lem :
    (u amount height : ℕ)
    → get_elem? generation_amount u ≡ some amount
    → 2000000 * u ≤ height
    → height < 2000000 * u + 2000000
    → generated_at height ≡ amount
unfolding generated_at
generated_at_lem u amount height h low high =
    let here : height / 2000000 ≡ u = omega (arith, low, high) in
    ap (λ i. or_zero (get_elem? generation_amount i)) here ∙ ap or_zero h

-- The blocks of one interval generate the same.
sum_blocks-same :
    (u amount s n : ℕ)
    → get_elem? generation_amount u ≡ some amount
    → 2000000 * u ≤ s
    → s + n ≤ 2000000 * u + 2000000
    → sum_blocks s n ≡ n * amount
unfolding sum_blocks
sum_blocks-same u amount s zero h low high = omega arith
sum_blocks-same u amount s (suc n) h low high =
    let here = generated_at_lem u amount s h low (omega (arith, high)) in
    let rest = sum_blocks-same u amount (suc s) n h (omega (arith, low)) (omega (arith, high)) in
    rw (here, rest) (omega arith)

pub get_elem?_beyond : (xs : List ℕ) (i : ℕ) → length xs ≤ i → get_elem? xs i ≡ none
get_elem?_beyond [] i h = refl
get_elem?_beyond (x ∷ xs) zero h = absurd (omega (arith, h))
get_elem?_beyond (x ∷ xs) (suc i) h = get_elem?_beyond xs i (omega (arith, h))

-- Behind the last interval nothing is generated.
generated_at_beyond : (height : ℕ) → 44000000 ≤ height → generated_at height ≡ 0
unfolding generated_at
generated_at_beyond height h =
    let late : 22 ≤ height / 2000000 = omega (arith, h) in
    ap or_zero (get_elem?_beyond generation_amount (height / 2000000) late)

pub sum_blocks_beyond : (s n : ℕ) → 44000000 ≤ s → sum_blocks s n ≡ 0
unfolding sum_blocks
sum_blocks_beyond s zero h = refl
sum_blocks_beyond s (suc n) h =
    rw (generated_at_beyond s h, sum_blocks_beyond (suc s) n (omega (arith, h))) refl

minus_pos : (a b : ℕ) → b ≤ a → pos a -ℤ pos b ≡ pos (a - b)
unfolding ◌-ℤ◌
minus_pos a b h = ground (arith, h)

times_pos : (m n : ℕ) → pos m *ℤ pos n ≡ pos (m * n)
unfolding ◌*ℤ◌
times_pos m n = ground arith

plus_pos : (m n : ℕ) → pos m +ℤ pos n ≡ pos (m + n)
unfolding ◌+ℤ◌
plus_pos m n = ground arith

-- One pass adds what the blocks of its interval generate.
generated_by-sum_blocks :
    (ustart from to : ℕ)
    → ustart < 22
    → from ≤ to
    → to ≤ 2000000
    → generated_by (pos to -ℤ pos from) ustart
      ≡ some (pos (sum_blocks (2000000 * ustart + from) (to - from)))
unfolding generated_by
generated_by-sum_blocks ustart from to few ordered inside =
    let (amount, known) = get_elem?-some generation_amount ustart few in
    let same =
      sum_blocks-same ustart amount (2000000 * ustart + from) (to - from) known (omega arith)
        (omega (arith, ordered, inside)) in
    ap (times_amount (pos to -ℤ pos from)) known
    ∙ ap (λ z. some (z *ℤ pos amount)) (minus_pos to from ordered)
    ∙ ap (λ z. some z) (times_pos (to - from) amount)
    ∙ ap (λ m. some (pos m)) (sym same)

-- What the loop adds up.
pub generated_from-sum_blocks :
    (passes ustart istart iend : ℕ)
    → ustart + passes < 22
    → istart ≤ 2000000
    → iend ≤ 2000000
    → 2000000 * ustart + istart ≤ 2000000 * (ustart + passes) + iend
    → generated_from passes ustart istart iend
      ≡ some (pos (sum_blocks (2000000 * ustart + istart) (2000000 * passes + iend - istart)))
unfolding generated_from
generated_from-sum_blocks zero ustart istart iend few si ei ordered =
    let size : 2000000 * 0 + iend - istart ≡ iend - istart = omega arith in
    rw size
      (generated_by-sum_blocks ustart istart iend (omega (arith, few)) (omega (arith, ordered)) ei)
generated_from-sum_blocks (suc passes) ustart istart iend few si ei ordered =
    let first =
      generated_by-sum_blocks ustart istart 2000000 (omega (arith, few)) si (omega arith) in
    let rest =
      generated_from-sum_blocks passes (suc ustart) 0 iend (omega (arith, few)) (omega arith) ei
        (omega arith) in
    let s = 2000000 * ustart + istart in
    let m = 2000000 - istart in
    let size : 2000000 * suc passes + iend - istart ≡ m + (2000000 * passes + iend - 0) =
      omega (arith, si) in
    let next : 2000000 * suc ustart + 0 ≡ s + m = omega (arith, si) in
    ap (λ o. add_amounts o (generated_from passes (suc ustart) 0 iend)) first
    ∙ ap (λ o. add_amounts (some (pos (sum_blocks s m))) o) rest
    ∙ ap (λ z. some z)
        (plus_pos (sum_blocks s m)
          (sum_blocks (2000000 * suc ustart + 0) (2000000 * passes + iend - 0)))
    ∙ ap (λ n. some (pos n))
        (ap (λ t. sum_blocks s m + sum_blocks t (2000000 * passes + iend - 0)) next
          ∙ sym (sum_blocks-add s m (2000000 * passes + iend - 0))
          ∙ ap (sum_blocks s) (sym size))
