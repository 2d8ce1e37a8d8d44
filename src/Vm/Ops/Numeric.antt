-- ===== src/Vm/Ops/Numeric.antt =====
-- ExecuteInstruction: the numeric operations.
use neo_python.Core.BigInteger.{lshift, mod_big, rshift, sign, truediv}
use neo_python.Prelude.{Bool, false, if◌then◌else◌, not, true, ℕ, ◌&&◌, ◌||◌}
use neo_python.Prelude.Int.{abs_ℤ, eqb_ℤ, leb_ℤ, ltb_ℤ, neg_ℤ, negsuc, pos, ℤ, ◌*ℤ◌, ◌+ℤ◌, ◌-ℤ◌}
use neo_python.Vm.Engine.Limits.{check_big_integer, check_shift, note_stack_size}
use neo_python.Vm.Engine.Monad.{fail_if, or_raise, ◌>>=◌, ◌>>◌}
use neo_python.Vm.Engine.Stacks.{pop_bool, pop_int, push_bool, push_int}
use neo_python.Vm.Instruction.{Instruction}
use neo_python.Vm.Ops.Splice.{binary_int}
use neo_python.Vm.State.{Action, Host, biginteger_exceed_limit, invalid_shift}

abbrev pub fits : ℤ → Bool
fits x = check_big_integer x

-- INC
unfoldable pub op_inc : Host → ℕ → Instruction → Action (Unit {0})
op_inc h c ins = do
  x ← pop_int c
  fail_if (not (fits x) || not (fits (x +ℤ pos 1))) biginteger_exceed_limit
  push_int c (x +ℤ pos 1)

-- DEC
unfoldable pub op_dec : Host → ℕ → Instruction → Action (Unit {0})
op_dec h c ins = do
  x ← pop_int c
  fail_if (not (fits x) || (leb_ℤ (sign x) (pos 0) && not (fits (x -ℤ pos 1))))
      biginteger_exceed_limit
  push_int c (x -ℤ pos 1)

-- SIGN
unfoldable pub op_sign : Host → ℕ → Instruction → Action (Unit {0})
op_sign h c ins = do x ← pop_int c; push_int c (sign x)

-- NEGATE
unfoldable pub op_negate : Host → ℕ → Instruction → Action (Unit {0})
op_negate h c ins = do x ← pop_int c; push_int c (neg_ℤ x)

-- ABS
unfoldable pub op_abs : Host → ℕ → Instruction → Action (Unit {0})
op_abs h c ins = do x ← pop_int c; push_int c (pos (abs_ℤ x))

-- NOT
unfoldable pub op_not : Host → ℕ → Instruction → Action (Unit {0})
op_not h c ins = do x ← pop_bool c; push_bool c (not x); note_stack_size h false (pos 0)

-- NZ: `x is not 0` compares identities, and a BigInteger is never the object 0.
unfoldable pub op_nz : Host → ℕ → Instruction → Action (Unit {0})
op_nz h c ins = do pop_int c; push_bool c true

-- ADD, SUB: the operands and the result are held to the limit.
unfoldable pub op_add : Host → ℕ → Instruction → Action (Unit {0})
op_add h c ins = do
  x2 ← pop_int c
  x1 ← pop_int c
  fail_if (not (fits x1) || (not (fits x2) || not (fits (x1 +ℤ x2)))) biginteger_exceed_limit
  push_int c (x1 +ℤ x2)
  note_stack_size h true (negsuc 0)

unfoldable pub op_sub : Host → ℕ → Instruction → Action (Unit {0})
op_sub h c ins = do
  x2 ← pop_int c
  x1 ← pop_int c
  fail_if (not (fits x1) || (not (fits x2) || not (fits (x1 -ℤ x2)))) biginteger_exceed_limit
  push_int c (x1 -ℤ x2)
  note_stack_size h true (negsuc 0)

-- MUL
unfoldable pub op_mul : Host → ℕ → Instruction → Action (Unit {0})
op_mul h c ins = do
  x2 ← pop_int c
  fail_if (not (fits x2)) biginteger_exceed_limit
  x1 ← pop_int c
  fail_if (not (fits x1)) biginteger_exceed_limit
  fail_if (not (fits (x1 *ℤ x2))) biginteger_exceed_limit
  push_int c (x1 *ℤ x2)
  note_stack_size h true (negsuc 0)

-- DIV
unfoldable pub op_div : Host → ℕ → Instruction → Action (Unit {0})
op_div h c ins = do
  x2 ← pop_int c
  fail_if (not (fits x2)) biginteger_exceed_limit
  x1 ← pop_int c
  fail_if (not (fits x1) || not (fits x2)) biginteger_exceed_limit
  q ← or_raise (truediv x1 x2)
  push_int c q
  note_stack_size h true (negsuc 0)

-- MOD
unfoldable pub op_mod : Host → ℕ → Instruction → Action (Unit {0})
op_mod h c ins = do
  x2 ← pop_int c
  fail_if (not (fits x2)) biginteger_exceed_limit
  x1 ← pop_int c
  fail_if (not (fits x1)) biginteger_exceed_limit
  r ← or_raise (mod_big x1 x2)
  push_int c r
  note_stack_size h true (negsuc 0)

-- SHL
unfoldable pub op_shl : Host → ℕ → Instruction → Action (Unit {0})
op_shl h c ins = do
  shift ← pop_int c
  fail_if (not (check_shift shift)) invalid_shift
  x ← pop_int c
  fail_if (not (fits x)) biginteger_exceed_limit
  fail_if (not (fits (lshift x shift))) biginteger_exceed_limit
  push_int c (lshift x shift)
  note_stack_size h true (negsuc 0)

-- SHR
unfoldable pub op_shr : Host → ℕ → Instruction → Action (Unit {0})
op_shr h c ins = do
  shift ← pop_int c
  fail_if (not (check_shift shift)) invalid_shift
  x ← pop_int c
  fail_if (not (fits x)) biginteger_exceed_limit
  push_int c (rshift x shift)
  note_stack_size h true (negsuc 0)

-- BOOLAND
unfoldable pub op_booland : Host → ℕ → Instruction → Action (Unit {0})
op_booland h c ins = do
  x2 ← pop_bool c
  x1 ← pop_bool c
  push_bool c (x1 && x2)
  note_stack_size h false (negsuc 0)

-- BOOLOR
unfoldable pub op_boolor : Host → ℕ → Instruction → Action (Unit {0})
op_boolor h c ins = do
  x2 ← pop_bool c
  x1 ← pop_bool c
  push_bool c (x1 || x2)
  note_stack_size h false (negsuc 0)

-- The common shape of the comparisons of two integers.
unfoldable pub compare_ints : (ℤ → ℤ → Bool) → Host → ℕ → Action (Unit {0})
compare_ints test h c = do
  x2 ← pop_int c
  x1 ← pop_int c
  push_bool c (test x1 x2)
  note_stack_size h true (negsuc 0)

unfoldable pub op_numequal : Host → ℕ → Instruction → Action (Unit {0})
op_numequal h c ins = compare_ints (λ x1 x2. eqb_ℤ x2 x1) h c

unfoldable pub op_numnotequal : Host → ℕ → Instruction → Action (Unit {0})
op_numnotequal h c ins = compare_ints (λ x1 x2. not (eqb_ℤ x1 x2)) h c

unfoldable pub op_lt : Host → ℕ → Instruction → Action (Unit {0})
op_lt h c ins = compare_ints (λ x1 x2. ltb_ℤ x1 x2) h c

unfoldable pub op_gt : Host → ℕ → Instruction → Action (Unit {0})
op_gt h c ins = compare_ints (λ x1 x2. ltb_ℤ x2 x1) h c

unfoldable pub op_lte : Host → ℕ → Instruction → Action (Unit {0})
op_lte h c ins = compare_ints (λ x1 x2. leb_ℤ x1 x2) h c

unfoldable pub op_gte : Host → ℕ → Instruction → Action (Unit {0})
op_gte h c ins = compare_ints (λ x1 x2. leb_ℤ x2 x1) h c

-- MIN and MAX: Python's functions keep the first of two equals.
unfoldable pub op_min : Host → ℕ → Instruction → Action (Unit {0})
op_min h c ins = binary_int (λ x1 x2. if ltb_ℤ x2 x1 then x2 else x1) h c

unfoldable pub op_max : Host → ℕ → Instruction → Action (Unit {0})
op_max h c ins = binary_int (λ x1 x2. if ltb_ℤ x1 x2 then x2 else x1) h c

-- WITHIN
unfoldable pub op_within : Host → ℕ → Instruction → Action (Unit {0})
op_within h c ins = do
  b ← pop_int c
  a ← pop_int c
  x ← pop_int c
  push_bool c (leb_ℤ a x && ltb_ℤ x b)
  note_stack_size h true (negsuc 1)
