-- ===== src/Vm/Ops/Splice.antt =====
-- ExecuteInstruction: byte strings, the bitwise operations and EQUAL.
use neo_python.Prelude.{
  List, drop, false, if◌then◌else◌, leb, length, ltb, not, take, true, ℕ, ◌++◌, ◌+◌, ◌-◌, ◌==◌,
}
use neo_python.Prelude.Int.{and_ℤ, invert, ltb_ℤ, negsuc, or_ℤ, pos, pos_part, xor_ℤ, ℤ}
use neo_python.Vm.Engine.Limits.{check_max_item_size, note_stack_size}
use neo_python.Vm.Engine.Monad.{fail_if, gets, or_raise, ◌>>=◌, ◌>>◌}
use neo_python.Vm.Engine.Stacks.{pop_bytes, pop_int, pop_item, push_bool, push_bytes, push_int}
use neo_python.Vm.Instruction.{Instruction}
use neo_python.Vm.StackItem.{get_byte_length}
use neo_python.Vm.StackItem.Equality.{equals}
use neo_python.Vm.State.{
  Action, Host, cat_exceed_maxitemsize, left_invalid_count, right_invalid_count, right_unknown,
  substr_invalid_index, substr_invalid_length,
}

-- CAT
unfoldable pub op_cat : Host → ℕ → Instruction → Action (Unit {0})
op_cat h c ins = do
  x2 ← pop_bytes c
  x1 ← pop_bytes c
  fail_if (not (check_max_item_size (length x1 + length x2))) cat_exceed_maxitemsize
  push_bytes c (x1 ++ x2)
  note_stack_size h true (negsuc 0)

-- `x[start:stop]` for numbers that are not negative
abbrev pub slice : ℕ → ℕ → List ℕ → List ℕ
slice start stop x = take (stop - start) (drop start x)

-- SUBSTR
unfoldable pub op_substr : Host → ℕ → Instruction → Action (Unit {0})
op_substr h c ins = do
  count ← pop_int c
  fail_if (ltb_ℤ count (pos 0)) substr_invalid_length
  index ← pop_int c
  fail_if (ltb_ℤ index (pos 0)) substr_invalid_index
  x ← pop_bytes c
  push_bytes c (slice (pos_part index) (pos_part count + pos_part index) x)
  note_stack_size h true (negsuc 1)

-- LEFT
unfoldable pub op_left : Host → ℕ → Instruction → Action (Unit {0})
op_left h c ins = do
  count ← pop_int c
  fail_if (ltb_ℤ count (pos 0)) left_invalid_count
  x ← pop_bytes c
  push_bytes c (if leb (length x) (pos_part count) then x else take (pos_part count) x)
  note_stack_size h true (negsuc 0)

-- RIGHT
unfoldable pub op_right : Host → ℕ → Instruction → Action (Unit {0})
op_right h c ins = do
  count ← pop_int c
  fail_if (ltb_ℤ count (pos 0)) right_invalid_count
  x ← pop_bytes c
  fail_if (ltb (length x) (pos_part count)) right_unknown
  let offset = length x - pos_part count
  push_bytes c (if pos_part count == length x then x else slice offset (offset + pos_part count) x)
  note_stack_size h true (negsuc 0)

-- SIZE
unfoldable pub op_size : Host → ℕ → Instruction → Action (Unit {0})
op_size h c ins = do x ← pop_item c; n ← or_raise (get_byte_length x); push_int c (pos n)

-- INVERT
unfoldable pub op_invert : Host → ℕ → Instruction → Action (Unit {0})
op_invert h c ins = do x ← pop_int c; push_int c (invert x)

-- The common shape of the operations on two integers that check nothing.
unfoldable pub binary_int : (ℤ → ℤ → ℤ) → Host → ℕ → Action (Unit {0})
binary_int f h c = do
  x2 ← pop_int c
  x1 ← pop_int c
  push_int c (f x1 x2)
  note_stack_size h true (negsuc 0)

-- AND
unfoldable pub op_and : Host → ℕ → Instruction → Action (Unit {0})
op_and h c ins = binary_int and_ℤ h c

-- OR
unfoldable pub op_or : Host → ℕ → Instruction → Action (Unit {0})
op_or h c ins = binary_int or_ℤ h c

-- XOR
unfoldable pub op_xor : Host → ℕ → Instruction → Action (Unit {0})
op_xor h c ins = binary_int xor_ℤ h c

-- EQUAL
unfoldable pub op_equal : Host → ℕ → Instruction → Action (Unit {0})
op_equal h c ins = do
  x2 ← pop_item c
  x1 ← pop_item c
  heap ← gets (λ e. e.heap)
  same ← or_raise (equals h.object_eq h.recursion_limit heap x1 x2)
  push_bool c same
  note_stack_size h false (negsuc 0)
