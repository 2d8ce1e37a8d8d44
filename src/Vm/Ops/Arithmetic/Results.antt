-- ===== src/Vm/Ops/Arithmetic/Results.antt =====
-- ADD, SUB, MUL, DIV, MOD, SHL and SHR on two integers, by the operators of BigInteger.
use neo_python.Core.BigInteger.{lshift, mod_big, rshift, truediv}
use neo_python.Prelude.{List, Option, some, ℕ, ◌&&◌, ◌≡◌}
use neo_python.Prelude.Int.{ℤ, ◌*ℤ◌, ◌+ℤ◌, ◌-ℤ◌}
use neo_python.Vm.Engine.Limits.{check_shift}
use neo_python.Vm.Execute.{branches, dispatch}
use neo_python.Vm.Instruction.{Instruction}
use neo_python.Vm.Ops.Arithmetic.{
  Shows, Shows-value, after_first, after_second, guarded, none_left, one_left, pushed,
  pushed_or_raised, small, tests_again, tests_in_turn, three_tests, two_tests, value_of,
}
use neo_python.Vm.Ops.Numeric.{fits, op_add, op_div, op_mod, op_mul, op_shl, op_shr, op_sub}
use neo_python.Vm.RandomAccessStack.{RandomAccessStack, push_t}
use neo_python.Vm.RandomAccessStack.Laws.{IsSized}
use neo_python.Vm.StackItem.{StackItem, integer}
use neo_python.Vm.State.{Engine, Host}
use neo_python.Vm.OpCode

module _ (h : Host) (c : ℕ) (s : RandomAccessStack StackItem) (sized : IsSized s) (x y : ℤ)
    (e : Engine)
    (two : (e.contexts c).evaluation_stack ≡ push_t (integer y) (push_t (integer x) s)) where
  op_add-Shows :
      (ins : Instruction)
      → Shows c s (value_of (fits x && fits y) (small (x +ℤ y))) (op_add h c ins e)
  unfolding op_add
  op_add-Shows ins =
      Shows-value h c s sized x y e two _ _ _
        (three_tests (fits x) (fits y) (fits (x +ℤ y)) (x +ℤ y))
        (after_first h c s sized x y e two _ _ (
          after_second h c s sized x y e two _ _ (
            guarded h c s sized x y e two _ _ _ (none_left h c s sized x y e two) _
              (pushed h c s sized x y e two (x +ℤ y)))))

  op_sub-Shows :
      (ins : Instruction)
      → Shows c s (value_of (fits x && fits y) (small (x -ℤ y))) (op_sub h c ins e)
  unfolding op_sub
  op_sub-Shows ins =
      Shows-value h c s sized x y e two _ _ _
        (three_tests (fits x) (fits y) (fits (x -ℤ y)) (x -ℤ y))
        (after_first h c s sized x y e two _ _ (
          after_second h c s sized x y e two _ _ (
            guarded h c s sized x y e two _ _ _ (none_left h c s sized x y e two) _
              (pushed h c s sized x y e two (x -ℤ y)))))

  op_mul-Shows :
      (ins : Instruction)
      → Shows c s (value_of (fits x && fits y) (small (x *ℤ y))) (op_mul h c ins e)
  unfolding op_mul
  op_mul-Shows ins =
      Shows-value h c s sized x y e two _ _ _
        (tests_in_turn (fits y) (fits x) (fits (x *ℤ y)) (x *ℤ y))
        (after_first h c s sized x y e two _ _ (
          guarded h c s sized x y e two _ _ _ (one_left h c s sized x y e two) _ (
            after_second h c s sized x y e two _ _ (
              guarded h c s sized x y e two _ _ _ (none_left h c s sized x y e two) _ (
                guarded h c s sized x y e two _ _ _ (none_left h c s sized x y e two) _
                  (pushed h c s sized x y e two (x *ℤ y)))))))

  op_div-Shows :
      (ins : Instruction) → Shows c s (value_of (fits x && fits y) (truediv x y)) (op_div h c ins e)
  unfolding op_div
  op_div-Shows ins =
      Shows-value h c s sized x y e two _ _ _ (tests_again (fits y) (fits x) (truediv x y)) (
        after_first h c s sized x y e two _ _ (
          guarded h c s sized x y e two _ _ _ (one_left h c s sized x y e two) _ (
            after_second h c s sized x y e two _ _ (
              guarded h c s sized x y e two _ _ _ (none_left h c s sized x y e two) _
                (pushed_or_raised h c s sized x y e two (truediv x y))))))

  op_mod-Shows :
      (ins : Instruction) → Shows c s (value_of (fits x && fits y) (mod_big x y)) (op_mod h c ins e)
  unfolding op_mod
  op_mod-Shows ins =
      Shows-value h c s sized x y e two _ _ _ (two_tests (fits y) (fits x) (mod_big x y)) (
        after_first h c s sized x y e two _ _ (
          guarded h c s sized x y e two _ _ _ (one_left h c s sized x y e two) _ (
            after_second h c s sized x y e two _ _ (
              guarded h c s sized x y e two _ _ _ (none_left h c s sized x y e two) _
                (pushed_or_raised h c s sized x y e two (mod_big x y))))))

  op_shl-Shows :
      (ins : Instruction)
      → Shows c s (value_of (fits x && check_shift y) (small (lshift x y))) (op_shl h c ins e)
  unfolding op_shl
  op_shl-Shows ins =
      Shows-value h c s sized x y e two _ _ _
        (tests_in_turn (check_shift y) (fits x) (fits (lshift x y)) (lshift x y))
        (after_first h c s sized x y e two _ _ (
          guarded h c s sized x y e two _ _ _ (one_left h c s sized x y e two) _ (
            after_second h c s sized x y e two _ _ (
              guarded h c s sized x y e two _ _ _ (none_left h c s sized x y e two) _ (
                guarded h c s sized x y e two _ _ _ (none_left h c s sized x y e two) _
                  (pushed h c s sized x y e two (lshift x y)))))))

  op_shr-Shows :
      (ins : Instruction)
      → Shows c s (value_of (fits x && check_shift y) (some (rshift x y))) (op_shr h c ins e)
  unfolding op_shr
  op_shr-Shows ins =
      Shows-value h c s sized x y e two _ _ _
        (two_tests (check_shift y) (fits x) (some (rshift x y)))
        (after_first h c s sized x y e two _ _ (
          guarded h c s sized x y e two _ _ _ (one_left h c s sized x y e two) _ (
            after_second h c s sized x y e two _ _ (
              guarded h c s sized x y e two _ _ _ (none_left h c s sized x y e two) _
                (pushed h c s sized x y e two (rshift x y))))))

-- The arithmetic instructions, and their opcodes.
pub data Arithmetic : Type 0 where
  sum difference product quotient remainder left_shift right_shift : Arithmetic

abbrev pub code_of : Arithmetic → ℕ
code_of sum = OpCode.add
code_of difference = OpCode.sub
code_of product = OpCode.mul
code_of quotient = OpCode.div
code_of remainder = OpCode.modulo
code_of left_shift = OpCode.shl
code_of right_shift = OpCode.shr

-- The operators of the source, with their tests.
abbrev pub arithmetic : Arithmetic → ℤ → ℤ → Option ℤ
arithmetic sum x y = value_of (fits x && fits y) (small (x +ℤ y))
arithmetic difference x y = value_of (fits x && fits y) (small (x -ℤ y))
arithmetic product x y = value_of (fits x && fits y) (small (x *ℤ y))
arithmetic quotient x y = value_of (fits x && fits y) (truediv x y)
arithmetic remainder x y = value_of (fits x && fits y) (mod_big x y)
arithmetic left_shift x y = value_of (fits x && check_shift y) (small (lshift x y))
arithmetic right_shift x y = value_of (fits x && check_shift y) (some (rshift x y))

-- What each instruction shows is what its operator gives.
pub dispatch-Shows :
    (op : Arithmetic) (operand : List ℕ) (h : Host) (c : ℕ) (s : RandomAccessStack StackItem)
    (x y : ℤ) (e : Engine)
    → IsSized s
    → (e.contexts c).evaluation_stack ≡ push_t (integer y) (push_t (integer x) s)
    → Shows c s
        (arithmetic op x y)
        (dispatch branches h c (record { op_code = code_of op; operand = operand }) e)
unfolding dispatch
dispatch-Shows sum operand h c s x y e sized two = op_add-Shows h c s sized x y e two _
dispatch-Shows difference operand h c s x y e sized two = op_sub-Shows h c s sized x y e two _
dispatch-Shows product operand h c s x y e sized two = op_mul-Shows h c s sized x y e two _
dispatch-Shows quotient operand h c s x y e sized two = op_div-Shows h c s sized x y e two _
dispatch-Shows remainder operand h c s x y e sized two = op_mod-Shows h c s sized x y e two _
dispatch-Shows left_shift operand h c s x y e sized two = op_shl-Shows h c s sized x y e two _
dispatch-Shows right_shift operand h c s x y e sized two = op_shr-Shows h c s sized x y e two _
