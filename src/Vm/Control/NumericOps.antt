-- ===== src/Vm/Control/NumericOps.antt =====
-- The instructions that leave the control state alone: byte strings, bits and numbers.
use neo_python.Prelude.{Bool, ℕ}
use neo_python.Prelude.Int.{ℤ}
use neo_python.Vm.Control.{IsLocal}
use neo_python.Vm.Control.Primitives.{op_rules}
use neo_python.Vm.Instruction.{Instruction}
use neo_python.Vm.Ops.Numeric.{
  compare_ints, op_abs, op_add, op_booland, op_boolor, op_dec, op_div, op_gt, op_gte, op_inc, op_lt,
  op_lte, op_max, op_min, op_mod, op_mul, op_negate, op_not, op_numequal, op_numnotequal, op_nz,
  op_shl, op_shr, op_sign, op_sub, op_within,
}
use neo_python.Vm.Ops.Splice.{
  binary_int, op_and, op_cat, op_equal, op_invert, op_left, op_or, op_right, op_size, op_substr,
  op_xor,
}
use neo_python.Vm.State.{Host}
use neo_python.Vm.Ops.Splice
use neo_python.Vm.Ops.Numeric

pub IsLocal-binary_int : (f : ℤ → ℤ → ℤ) (h : Host) (c : ℕ) → IsLocal (Splice.binary_int f h c)
unfolding Splice.binary_int
IsLocal-binary_int f h c = search op_rules depth 20

IsLocal-compare_ints : (f : ℤ → ℤ → Bool) (h : Host) (c : ℕ) → IsLocal (Numeric.compare_ints f h c)
unfolding Numeric.compare_ints
IsLocal-compare_ints f h c = search op_rules depth 20

ruleset numeric_rules = (op_rules, IsLocal-binary_int, IsLocal-compare_ints)

pub IsLocal-op_cat : (h : Host) (c : ℕ) (ins : Instruction) → IsLocal (Splice.op_cat h c ins)
unfolding Splice.op_cat
IsLocal-op_cat h c ins = search numeric_rules depth 20

pub IsLocal-op_substr : (h : Host) (c : ℕ) (ins : Instruction) → IsLocal (Splice.op_substr h c ins)
unfolding Splice.op_substr
IsLocal-op_substr h c ins = search numeric_rules depth 20

pub IsLocal-op_left : (h : Host) (c : ℕ) (ins : Instruction) → IsLocal (Splice.op_left h c ins)
unfolding Splice.op_left
IsLocal-op_left h c ins = search numeric_rules depth 20

pub IsLocal-op_right : (h : Host) (c : ℕ) (ins : Instruction) → IsLocal (Splice.op_right h c ins)
unfolding Splice.op_right
IsLocal-op_right h c ins = search numeric_rules depth 20

pub IsLocal-op_size : (h : Host) (c : ℕ) (ins : Instruction) → IsLocal (Splice.op_size h c ins)
unfolding Splice.op_size
IsLocal-op_size h c ins = search numeric_rules depth 20

pub IsLocal-op_invert : (h : Host) (c : ℕ) (ins : Instruction) → IsLocal (Splice.op_invert h c ins)
unfolding Splice.op_invert
IsLocal-op_invert h c ins = search numeric_rules depth 20

pub IsLocal-op_and : (h : Host) (c : ℕ) (ins : Instruction) → IsLocal (Splice.op_and h c ins)
unfolding Splice.op_and
IsLocal-op_and h c ins = search numeric_rules depth 20

pub IsLocal-op_or : (h : Host) (c : ℕ) (ins : Instruction) → IsLocal (Splice.op_or h c ins)
unfolding Splice.op_or
IsLocal-op_or h c ins = search numeric_rules depth 20

pub IsLocal-op_xor : (h : Host) (c : ℕ) (ins : Instruction) → IsLocal (Splice.op_xor h c ins)
unfolding Splice.op_xor
IsLocal-op_xor h c ins = search numeric_rules depth 20

pub IsLocal-op_equal : (h : Host) (c : ℕ) (ins : Instruction) → IsLocal (Splice.op_equal h c ins)
unfolding Splice.op_equal
IsLocal-op_equal h c ins = search numeric_rules depth 20

pub IsLocal-op_inc : (h : Host) (c : ℕ) (ins : Instruction) → IsLocal (Numeric.op_inc h c ins)
unfolding Numeric.op_inc
IsLocal-op_inc h c ins = search numeric_rules depth 20

pub IsLocal-op_dec : (h : Host) (c : ℕ) (ins : Instruction) → IsLocal (Numeric.op_dec h c ins)
unfolding Numeric.op_dec
IsLocal-op_dec h c ins = search numeric_rules depth 20

pub IsLocal-op_sign : (h : Host) (c : ℕ) (ins : Instruction) → IsLocal (Numeric.op_sign h c ins)
unfolding Numeric.op_sign
IsLocal-op_sign h c ins = search numeric_rules depth 20

pub IsLocal-op_negate : (h : Host) (c : ℕ) (ins : Instruction) → IsLocal (Numeric.op_negate h c ins)
unfolding Numeric.op_negate
IsLocal-op_negate h c ins = search numeric_rules depth 20

pub IsLocal-op_abs : (h : Host) (c : ℕ) (ins : Instruction) → IsLocal (Numeric.op_abs h c ins)
unfolding Numeric.op_abs
IsLocal-op_abs h c ins = search numeric_rules depth 20

pub IsLocal-op_not : (h : Host) (c : ℕ) (ins : Instruction) → IsLocal (Numeric.op_not h c ins)
unfolding Numeric.op_not
IsLocal-op_not h c ins = search numeric_rules depth 20

pub IsLocal-op_nz : (h : Host) (c : ℕ) (ins : Instruction) → IsLocal (Numeric.op_nz h c ins)
unfolding Numeric.op_nz
IsLocal-op_nz h c ins = search numeric_rules depth 20

pub IsLocal-op_add : (h : Host) (c : ℕ) (ins : Instruction) → IsLocal (Numeric.op_add h c ins)
unfolding Numeric.op_add
IsLocal-op_add h c ins = search numeric_rules depth 20

pub IsLocal-op_sub : (h : Host) (c : ℕ) (ins : Instruction) → IsLocal (Numeric.op_sub h c ins)
unfolding Numeric.op_sub
IsLocal-op_sub h c ins = search numeric_rules depth 20

pub IsLocal-op_mul : (h : Host) (c : ℕ) (ins : Instruction) → IsLocal (Numeric.op_mul h c ins)
unfolding Numeric.op_mul
IsLocal-op_mul h c ins = search numeric_rules depth 20

pub IsLocal-op_div : (h : Host) (c : ℕ) (ins : Instruction) → IsLocal (Numeric.op_div h c ins)
unfolding Numeric.op_div
IsLocal-op_div h c ins = search numeric_rules depth 20

pub IsLocal-op_mod : (h : Host) (c : ℕ) (ins : Instruction) → IsLocal (Numeric.op_mod h c ins)
unfolding Numeric.op_mod
IsLocal-op_mod h c ins = search numeric_rules depth 20

pub IsLocal-op_shl : (h : Host) (c : ℕ) (ins : Instruction) → IsLocal (Numeric.op_shl h c ins)
unfolding Numeric.op_shl
IsLocal-op_shl h c ins = search numeric_rules depth 20

pub IsLocal-op_shr : (h : Host) (c : ℕ) (ins : Instruction) → IsLocal (Numeric.op_shr h c ins)
unfolding Numeric.op_shr
IsLocal-op_shr h c ins = search numeric_rules depth 20

pub IsLocal-op_booland :
    (h : Host) (c : ℕ) (ins : Instruction) → IsLocal (Numeric.op_booland h c ins)
unfolding Numeric.op_booland
IsLocal-op_booland h c ins = search numeric_rules depth 20

pub IsLocal-op_boolor : (h : Host) (c : ℕ) (ins : Instruction) → IsLocal (Numeric.op_boolor h c ins)
unfolding Numeric.op_boolor
IsLocal-op_boolor h c ins = search numeric_rules depth 20

pub IsLocal-op_numequal :
    (h : Host) (c : ℕ) (ins : Instruction) → IsLocal (Numeric.op_numequal h c ins)
unfolding Numeric.op_numequal
IsLocal-op_numequal h c ins = search numeric_rules depth 20

pub IsLocal-op_numnotequal :
    (h : Host) (c : ℕ) (ins : Instruction) → IsLocal (Numeric.op_numnotequal h c ins)
unfolding Numeric.op_numnotequal
IsLocal-op_numnotequal h c ins = search numeric_rules depth 20

pub IsLocal-op_lt : (h : Host) (c : ℕ) (ins : Instruction) → IsLocal (Numeric.op_lt h c ins)
unfolding Numeric.op_lt
IsLocal-op_lt h c ins = search numeric_rules depth 20

pub IsLocal-op_gt : (h : Host) (c : ℕ) (ins : Instruction) → IsLocal (Numeric.op_gt h c ins)
unfolding Numeric.op_gt
IsLocal-op_gt h c ins = search numeric_rules depth 20

pub IsLocal-op_lte : (h : Host) (c : ℕ) (ins : Instruction) → IsLocal (Numeric.op_lte h c ins)
unfolding Numeric.op_lte
IsLocal-op_lte h c ins = search numeric_rules depth 20

pub IsLocal-op_gte : (h : Host) (c : ℕ) (ins : Instruction) → IsLocal (Numeric.op_gte h c ins)
unfolding Numeric.op_gte
IsLocal-op_gte h c ins = search numeric_rules depth 20

pub IsLocal-op_min : (h : Host) (c : ℕ) (ins : Instruction) → IsLocal (Numeric.op_min h c ins)
unfolding Numeric.op_min
IsLocal-op_min h c ins = search numeric_rules depth 20

pub IsLocal-op_max : (h : Host) (c : ℕ) (ins : Instruction) → IsLocal (Numeric.op_max h c ins)
unfolding Numeric.op_max
IsLocal-op_max h c ins = search numeric_rules depth 20

pub IsLocal-op_within : (h : Host) (c : ℕ) (ins : Instruction) → IsLocal (Numeric.op_within h c ins)
unfolding Numeric.op_within
IsLocal-op_within h c ins = search numeric_rules depth 20
