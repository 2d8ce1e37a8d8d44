-- ===== src/Core/Blockchain/Claims.antt =====
-- neo/Core/Blockchain.py: the amount that CalculateBonusInternal takes for the heights of a coin.
use neo_python.Core.Blockchain.{
  add_amounts, decrement_interval, generated_amount, generated_by, generated_from,
  generation_amount, times_amount,
}
use neo_python.Core.Blockchain.Generation.{
  generated_from-sum_blocks, get_elem?_beyond, sum_blocks, sum_blocks-add, sum_blocks_beyond,
}
use neo_python.Prelude.{
  Bool-cases, Option, ap, arith, false, inl, inr, leb, ltb, none, refl, some, suc, sym, true, zero,
  ℕ, ◌%◌, ◌*◌, ◌+◌, ◌-◌, ◌/◌, ◌<◌, ◌==◌, ◌∙◌, ◌≡◌, ◌≤◌,
}
use neo_python.Prelude.Int.{pos, ℤ, ◌-ℤ◌}

-- The branches of generated_amount, from its tests.
branch_late : (start end : ℕ) → 44000000 ≤ start → generated_amount start end ≡ some (pos 0)
unfolding generated_amount
branch_late start end late =
    let test : ltb (start / 2000000) 22 ≡ false = ground (arith, late) in rw test refl

branch_last :
    (start end : ℕ)
    → start < 44000000
    → 44000000 ≤ end
    → generated_amount start end
      ≡ generated_from
          (end / 2000000 - 1 - start / 2000000)
          (start / 2000000)
          (start % 2000000)
          2000000
unfolding generated_amount
branch_last start end soon last =
    let test : ltb (start / 2000000) 22 ≡ true = ground (arith, soon) in
    let beyond : leb 22 (end / 2000000) ≡ true = ground (arith, last) in rw (test, beyond) refl

branch_border :
    (start end : ℕ)
    → start < 44000000
    → end < 44000000
    → end % 2000000 ≡ 0
    → generated_amount start end
      ≡ generated_from
          (end / 2000000 - 1 - start / 2000000)
          (start / 2000000)
          (start % 2000000)
          2000000
unfolding generated_amount
branch_border start end soon before border =
    let test : ltb (start / 2000000) 22 ≡ true = ground (arith, soon) in
    let inside : leb 22 (end / 2000000) ≡ false = ground (arith, before) in
    let zero_rest : (end % 2000000 == 0) ≡ true = ground (arith, border) in
    rw (test, inside, zero_rest) refl

branch_inside :
    (start end : ℕ)
    → start < 44000000
    → end < 44000000
    → 0 < end % 2000000
    → generated_amount start end
      ≡ generated_from
          (end / 2000000 - start / 2000000)
          (start / 2000000)
          (start % 2000000)
          (end % 2000000)
unfolding generated_amount
branch_inside start end soon before within =
    let test : ltb (start / 2000000) 22 ≡ true = ground (arith, soon) in
    let inside : leb 22 (end / 2000000) ≡ false = ground (arith, before) in
    let some_rest : (end % 2000000 == 0) ≡ false = ground (arith, within) in
    rw (test, inside, some_rest) refl

-- The loop from the interval of a height to an end, given by its number of passes and its last rest.
loop_lem :
    (start end passes iend : ℕ)
    → start ≤ end
    → start / 2000000 + passes < 22
    → iend ≤ 2000000
    → end ≡ 2000000 * (start / 2000000 + passes) + iend
    → generated_from passes (start / 2000000) (start % 2000000) iend
      ≡ some (pos (sum_blocks start (end - start)))
loop_lem start end passes iend ordered few ei ends =
    let from : 2000000 * (start / 2000000) + start % 2000000 ≡ start = omega arith in
    let size : 2000000 * passes + iend - start % 2000000 ≡ end - start =
      omega (arith, ordered, ends) in
    generated_from-sum_blocks passes (start / 2000000) (start % 2000000) iend few (omega arith) ei
      (omega (arith, ordered, ends))
    ∙ ap (λ n. some (pos n))
        (ap (λ t. sum_blocks t (2000000 * passes + iend - start % 2000000)) from
          ∙ ap (sum_blocks start) size)

-- A sum up to the last interval and beyond it.
sum_blocks-last :
    (start end : ℕ)
    → start ≤ 44000000
    → 44000000 ≤ end
    → sum_blocks start (44000000 - start) ≡ sum_blocks start (end - start)
sum_blocks-last start end soon last =
    let size : end - start ≡ (44000000 - start) + (end - 44000000) = omega (arith, soon, last) in
    let border : start + (44000000 - start) ≡ 44000000 = omega (arith, soon) in
    let none_left : sum_blocks (start + (44000000 - start)) (end - 44000000) ≡ 0 =
      sum_blocks_beyond (start + (44000000 - start)) (end - 44000000) (omega (arith, border)) in
    rw (size, sum_blocks-add start (44000000 - start) (end - 44000000), none_left) (omega arith)

-- An end in one of the intervals that have an amount.
up_to_last :
    (start end : ℕ)
    → start < end
    → start < 44000000
    → end < 44000000
    → generated_amount start end ≡ some (pos (sum_blocks start (end - start)))
up_to_last start end ordered soon before = elim (Bool-cases (end % 2000000 == 0)) [
  | inl border ↦
      let no_rest : end % 2000000 ≡ 0 = ground (arith, border) in
      branch_border start end soon before no_rest
      ∙ loop_lem start end (end / 2000000 - 1 - start / 2000000) 2000000 (omega (arith, ordered))
          (omega (arith, ordered, before, no_rest)) (omega arith) (omega (arith, ordered, no_rest))
  | inr within ↦
      let some_rest : 0 < end % 2000000 = ground (arith, within) in
      branch_inside start end soon before some_rest
      ∙ loop_lem start end (end / 2000000 - start / 2000000) (end % 2000000)
          (omega (arith, ordered)) (omega (arith, ordered, before)) (omega arith)
          (omega (arith, ordered))
]

-- The amount that the calculation of a bonus takes for a coin from one height to a later one is
-- the sum of what each block generates, from the first height on, the last one not counted.
-- Condition: the end is below 46000000, the second border behind the last interval that has an
-- amount of its own.
pub generated_amount-sum_blocks :
    (start end : ℕ)
    → start < end
    → end < 46000000
    → generated_amount start end ≡ some (pos (sum_blocks start (end - start)))
generated_amount-sum_blocks start end ordered near = elim (Bool-cases (ltb start 44000000)) [
  | inr late ↦
      let behind : 44000000 ≤ start = ground (arith, late) in
      branch_late start end behind
      ∙ ap (λ n. some (pos n)) (sym (sum_blocks_beyond start (end - start) behind))
  | inl soon ↦
      let from : start < 44000000 = ground (arith, soon) in
      elim (Bool-cases (ltb end 44000000)) [
        | inl before ↦ up_to_last start end ordered from (ground (arith, before))
        | inr after ↦
            let last : 44000000 ≤ end = ground (arith, after) in
            branch_last start end from last
            ∙ loop_lem start 44000000 (end / 2000000 - 1 - start / 2000000) 2000000
                (omega (arith, from)) (omega (arith, from, last, near)) (omega arith)
                (omega (arith, from, last, near))
            ∙ ap (λ n. some (pos n)) (sum_blocks-last start end (omega (arith, from)) last)
      ]
]

add_amounts-none : (a : Option ℤ) → add_amounts a none ≡ none
add_amounts-none none = refl
add_amounts-none (some a) = refl

generated_from_beyond :
    (passes ustart istart iend : ℕ)
    → 22 ≤ ustart + passes
    → generated_from passes ustart istart iend ≡ none
unfolding generated_from generated_by
generated_from_beyond zero ustart istart iend h =
    ap (times_amount (pos iend -ℤ pos istart))
      (get_elem?_beyond generation_amount ustart (omega (arith, h)))
generated_from_beyond (suc passes) ustart istart iend h =
    ap (add_amounts (generated_by (pos decrement_interval -ℤ pos istart) ustart))
      (generated_from_beyond passes (suc ustart) 0 iend (omega (arith, h)))
    ∙ add_amounts-none (generated_by (pos decrement_interval -ℤ pos istart) ustart)

-- For a coin from a height below 44000000 to one of 46000000 or more, the calculation of a bonus
-- raises IndexError.
pub generated_amount-raises :
    (start end : ℕ) → start < 44000000 → 46000000 ≤ end → generated_amount start end ≡ none
generated_amount-raises start end soon late =
    branch_last start end soon (omega (arith, late))
    ∙ generated_from_beyond (end / 2000000 - 1 - start / 2000000) (start / 2000000)
        (start % 2000000) 2000000 (omega (arith, late, soon))
