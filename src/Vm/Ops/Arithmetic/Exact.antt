-- ===== src/Vm/Ops/Arithmetic/Exact.antt =====
-- ADD, SUB, MUL, DIV, MOD, SHL and SHR compute what they are to compute.
use neo_python.Core.BigInteger.{lshift, mod_big, rshift, truediv}
use neo_python.Core.BigInteger.Operators.{
  IsFloor, IsRemainder, IsScaled, lshift-IsScaled, mod_big-IsRemainder, rshift-IsScaled,
  truediv-IsFloor,
}
use neo_python.Prelude.{
  Bool, List, Option, ap, arith, false, if◌then◌else◌, inl, inr, none, refl, some, subst, suc, true,
  zero, ℕ, ◌&&◌, ◌∙◌, ◌≡◌, ◌⊎◌,
}
use neo_python.Prelude.Int.{neg_ℤ, negsuc, pos, ℤ, ◌*ℤ◌, ◌+ℤ◌, ◌-ℤ◌, ◌≤ℤ◌}
use neo_python.Vm.Engine.Limits.{check_shift}
use neo_python.Vm.Execute.{branches, dispatch}
use neo_python.Vm.Ops.Arithmetic.{Shows, value_of}
use neo_python.Vm.Ops.Arithmetic.Results.{
  Arithmetic, arithmetic, code_of, difference, dispatch-Shows, left_shift, product, quotient,
  remainder, right_shift, sum,
}
use neo_python.Vm.Ops.Numeric.{fits}
use neo_python.Vm.RandomAccessStack.{RandomAccessStack, push_t}
use neo_python.Vm.RandomAccessStack.Laws.{IsSized}
use neo_python.Vm.StackItem.{StackItem, integer}
use neo_python.Vm.State.{Engine, Host}

-- The numbers that an instruction may give, and the only one.
abbrev pub IsResult : Arithmetic → ℤ → ℤ → ℤ → Type 0
IsResult sum x y z = z ≡ x +ℤ y
IsResult difference x y z = z ≡ x -ℤ y
IsResult product x y z = z ≡ x *ℤ y
IsResult quotient x y z = IsFloor x y z
IsResult remainder x y z = IsRemainder x y z
IsResult left_shift x y z = IsScaled x y z
IsResult right_shift x y z = IsScaled x (neg_ℤ y) z

-- The tests of an instruction on the lower and the upper number and on its result.
abbrev pub passes : Arithmetic → ℤ → ℤ → ℤ → Bool
passes sum x y z = fits x && fits y && fits z
passes difference x y z = fits x && fits y && fits z
passes product x y z = fits x && fits y && fits z
passes quotient x y z = fits x && fits y
passes remainder x y z = fits x && fits y
passes left_shift x y z = fits x && check_shift y && fits z
passes right_shift x y z = fits x && check_shift y

-- The division of a negative number, which goes through floats, is left out.
abbrev pub IsExact : Arithmetic → ℤ → Type 0
IsExact quotient x = pos 0 ≤ℤ x
IsExact _ x = Unit

-- The instructions that raise for an upper number of zero.
abbrev pub divides : Arithmetic → Bool
divides quotient = true
divides remainder = true
divides _ = false

zero-or_not : (y : ℤ) → (y ≡ pos 0) ⊎ (¬ (y ≡ pos 0))
zero-or_not (pos zero) = inl refl
zero-or_not (pos (suc n)) = inr (λ p. ground (arith, p))
zero-or_not (negsuc n) = inr (λ p. ground (arith, p))

abbrev passed : Arithmetic → ℤ → ℤ → ℤ → Option ℤ
passed op x y z = if passes op x y z then some z else none

guards-joined :
    (a b d : Bool) (z : ℤ)
    → value_of (a && b) (if d then some z else none) ≡ (if a && b && d then some z else none)
guards-joined true true d z = refl
guards-joined true false d z = refl
guards-joined false b d z = refl

value_none : (b : Bool) → value_of b none ≡ none
value_none true = refl
value_none false = refl

by_zero : (op : Arithmetic) (x y : ℤ) → divides op ≡ true → y ≡ pos 0 → arithmetic op x y ≡ none
unfolding truediv mod_big
by_zero quotient x y d p =
    ap (λ v. value_of (fits x && fits v) (truediv x v)) p ∙ value_none (fits x && fits (pos 0))
by_zero remainder x y d p =
    ap (λ v. value_of (fits x && fits v) (mod_big x v)) p ∙ value_none (fits x && fits (pos 0))
by_zero sum x y d p = absurd (ground (arith, d))
by_zero difference x y d p = absurd (ground (arith, d))
by_zero product x y d p = absurd (ground (arith, d))
by_zero left_shift x y d p = absurd (ground (arith, d))
by_zero right_shift x y d p = absurd (ground (arith, d))

-- What the operators of the source give is a result, or there is none by zero.
arithmetic-IsResult :
    (op : Arithmetic) (x y : ℤ)
    → IsExact op x
    → ((divides op ≡ true) × (y ≡ pos 0) × (arithmetic op x y ≡ none))
      ⊎ ((z : ℤ) × IsResult op x y z × (arithmetic op x y ≡ passed op x y z))
arithmetic-IsResult sum x y exact =
    inr (x +ℤ y, refl, guards-joined (fits x) (fits y) (fits (x +ℤ y)) (x +ℤ y))
arithmetic-IsResult difference x y exact =
    inr (x -ℤ y, refl, guards-joined (fits x) (fits y) (fits (x -ℤ y)) (x -ℤ y))
arithmetic-IsResult product x y exact =
    inr (x *ℤ y, refl, guards-joined (fits x) (fits y) (fits (x *ℤ y)) (x *ℤ y))
arithmetic-IsResult left_shift x y exact = inr (
  lshift x y,
  lshift-IsScaled x y,
  guards-joined (fits x) (check_shift y) (fits (lshift x y)) (lshift x y),
)
arithmetic-IsResult right_shift x y exact = inr (rshift x y, rshift-IsScaled x y, refl)
arithmetic-IsResult quotient (negsuc a) y exact = absurd (omega (arith, exact))
arithmetic-IsResult quotient (pos a) y exact = elim (zero-or_not y) [
  | inl p ↦ inl (refl, p, by_zero quotient (pos a) y refl p)
  | inr n ↦
      let (z, p, q) = truediv-IsFloor a y n in
      inr (z, q, ap (λ o. value_of (fits (pos a) && fits y) o) p)
]
arithmetic-IsResult remainder x y exact = elim (zero-or_not y) [
  | inl p ↦ inl (refl, p, by_zero remainder x y refl p)
  | inr n ↦
      let (z, p, q) = mod_big-IsRemainder x y n in
      inr (z, q, ap (λ o. value_of (fits x && fits y) o) p)
]

-- ADD, SUB, MUL, DIV, MOD, SHL and SHR, dispatched by their opcode with two integers on top of an
-- evaluation stack whose count is right. DIV and MOD by zero return False or raise. Otherwise
-- there is a number z, the sum, difference or product of the lower number x and the upper number
-- y, the quotient rounded down, the remainder with the sign of x, or x times 2^y (for SHR 2^-y)
-- rounded down: where the tests pass (x fits 32 bytes, y does too or for the shifts lies between
-- -256 and 256, and for ADD, SUB, MUL and SHL z fits as well), the evaluation stack is afterwards
-- z on the rest of the stack; where one fails, the branch returns False or raises. Condition: the
-- dividend of DIV is not negative.
pub dispatch-IsResult :
    (op : Arithmetic) (operand : List ℕ) (h : Host) (c : ℕ) (s : RandomAccessStack StackItem)
    (x y : ℤ) (e : Engine)
    → IsExact op x
    → IsSized s
    → (e.contexts c).evaluation_stack ≡ push_t (integer y) (push_t (integer x) s)
    → ((divides op ≡ true)
        × (y ≡ pos 0)
        × Shows c s none
            (dispatch branches h c (record { op_code = code_of op; operand = operand }) e))
      ⊎ ((z : ℤ) × IsResult op x y z
          × Shows c s
              (if passes op x y z then some z else none)
              (dispatch branches h c (record { op_code = code_of op; operand = operand }) e))
dispatch-IsResult op operand h c s x y e exact sized two =
    let shows = dispatch-Shows op operand h c s x y e sized two in
    elim (arithmetic-IsResult op x y exact) [
      | inl (divided, zero_below, p) ↦ inl (
        divided,
        zero_below,
        subst
            (λ o.
              Shows c s o
                (dispatch branches h c (record { op_code = code_of op; operand = operand }) e))
            p shows,
      )
      | inr (z, r, p) ↦ inr (
        z,
        r,
        subst
            (λ o.
              Shows c s o
                (dispatch branches h c (record { op_code = code_of op; operand = operand }) e))
            p shows,
      )
    ]
