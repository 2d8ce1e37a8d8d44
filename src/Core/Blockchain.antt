-- ===== src/Core/Blockchain.antt =====
-- neo/Core/Blockchain.py: the gas that the blocks generated, which the holders of NEO claim.
pub mod Generation
pub mod Claims
use neo_python.Prelude.{
  List, Option, get_elem?, if◌then◌else◌, leb, length, ltb, none, replicate, some, suc, zero, ℕ,
  ◌%◌, ◌-◌, ◌/◌, ◌==◌, ◌∷◌,
}
use neo_python.Prelude.Int.{pos, ℤ, ◌*ℤ◌, ◌+ℤ◌, ◌-ℤ◌}

-- DECREMENT_INTERVAL
abbrev pub decrement_interval : ℕ
decrement_interval = 2000000

-- GENERATION_AMOUNT
abbrev pub generation_amount : List ℕ
generation_amount = 8 ∷ 7 ∷ 6 ∷ 5 ∷ 4 ∷ 3 ∷ 2 ∷ 1 ∷ replicate 14 1

abbrev pub times_amount : ℤ → Option ℕ → Option ℤ
times_amount blocks none = none
times_amount blocks (some amount) = some (blocks *ℤ pos amount)

-- `blocks * genAmount[ustart]`: `none` is IndexError.
unfoldable pub generated_by : ℤ → ℕ → Option ℤ
generated_by blocks ustart = times_amount blocks (get_elem? generation_amount ustart)

abbrev pub add_amounts : Option ℤ → Option ℤ → Option ℤ
add_amounts (some a) (some b) = some (a +ℤ b)
add_amounts _ _ = none

-- The loop of CalculateBonusInternal over the intervals and the line after it, with the number of its
-- passes, uend - ustart.
unfoldable pub generated_from : ℕ → ℕ → ℕ → ℕ → Option ℤ
generated_from zero ustart istart iend = generated_by (pos iend -ℤ pos istart) ustart
generated_from (suc passes) ustart istart iend =
    add_amounts (generated_by (pos decrement_interval -ℤ pos istart) ustart)
      (generated_from passes (suc ustart) 0 iend)

-- The amount of CalculateBonusInternal for the heights of a coin, before the fees. The quotients are exact
-- below 2^53. Where uend becomes -1 the loop has no pass, as with 0.
unfoldable pub generated_amount : ℕ → ℕ → Option ℤ
generated_amount start end =
    let ustart = start / decrement_interval in
    let istart = start % decrement_interval in
    let uend = end / decrement_interval in
    let iend = if leb (length generation_amount) uend then 0 else end % decrement_interval in
    if ltb ustart (length generation_amount)
    then if iend == 0
      then generated_from (uend - 1 - ustart) ustart istart decrement_interval
      else generated_from (uend - ustart) ustart istart iend
    else some (pos 0)
