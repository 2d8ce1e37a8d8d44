-- ===== src/Vm/Ops/Stack.antt =====
-- ExecuteInstruction: the stack operations.
use neo_python.Prelude.{false, if◌then◌else◌, true, ℕ}
use neo_python.Prelude.Int.{leb_ℤ, ltb_ℤ, negsuc, pos, pos_part}
use neo_python.Vm.Engine.Limits.{note_stack_size, require_stack_size}
use neo_python.Vm.Engine.Monad.{fail_if, return_early, set_fault, skip, ◌>>=◌, ◌>>◌}
use neo_python.Vm.Engine.Stacks.{
  alternative, count_of, evaluation, insert_into, peek_at, pop_from, pop_int, pop_item, push_int,
  push_item, push_on, remove_from, set_at,
}
use neo_python.Vm.Instruction.{Instruction}
use neo_python.Vm.State.{Action, Host, unknown3, unknown4, unknown5, unknown6}

-- DUPFROMALTSTACK
unfoldable pub op_dupfromaltstack : Host → ℕ → Instruction → Action (Unit {0})
op_dupfromaltstack h c ins = do
  push_item c (← peek_at c alternative (pos 0))
  require_stack_size h true (pos 1)

-- TOALTSTACK
unfoldable pub op_toaltstack : Host → ℕ → Instruction → Action (Unit {0})
op_toaltstack h c ins = do push_on c alternative (← pop_item c)

-- FROMALTSTACK
unfoldable pub op_fromaltstack : Host → ℕ → Instruction → Action (Unit {0})
op_fromaltstack h c ins = do push_item c (← pop_from c alternative)

-- XDROP
unfoldable pub op_xdrop : Host → ℕ → Instruction → Action (Unit {0})
op_xdrop h c ins = do
  n ← pop_int c
  if ltb_ℤ n (pos 0) then (do set_fault; return_early false) else skip
  remove_from c n
  note_stack_size h false (negsuc 1)

-- XSWAP
unfoldable pub op_xswap : Host → ℕ → Instruction → Action (Unit {0})
op_xswap h c ins = do
  n ← pop_int c
  fail_if (ltb_ℤ n (pos 0)) unknown3
  note_stack_size h true (negsuc 0)
  if ltb_ℤ (pos 0) n
      then (do
        item ← peek_at c evaluation n
        top ← peek_at c evaluation (pos 0)
        set_at c n top
        set_at c (pos 0) item)
      else skip

-- XTUCK
unfoldable pub op_xtuck : Host → ℕ → Instruction → Action (Unit {0})
op_xtuck h c ins = do
  n ← pop_int c
  fail_if (leb_ℤ n (pos 0)) unknown4
  top ← peek_at c evaluation (pos 0)
  insert_into c (pos_part n) top

-- DEPTH
unfoldable pub op_depth : Host → ℕ → Instruction → Action (Unit {0})
op_depth h c ins = do count ← count_of c; push_int c (pos count); require_stack_size h true (pos 1)

-- DROP
unfoldable pub op_drop : Host → ℕ → Instruction → Action (Unit {0})
op_drop h c ins = do pop_item c; note_stack_size h false (negsuc 0)

-- DUP
unfoldable pub op_dup : Host → ℕ → Instruction → Action (Unit {0})
op_dup h c ins = do push_item c (← peek_at c evaluation (pos 0)); require_stack_size h true (pos 1)

-- NIP
unfoldable pub op_nip : Host → ℕ → Instruction → Action (Unit {0})
op_nip h c ins = do remove_from c (pos 1); note_stack_size h false (negsuc 0)

-- OVER
unfoldable pub op_over : Host → ℕ → Instruction → Action (Unit {0})
op_over h c ins = do push_item c (← peek_at c evaluation (pos 1)); require_stack_size h true (pos 1)

-- PICK
unfoldable pub op_pick : Host → ℕ → Instruction → Action (Unit {0})
op_pick h c ins = do
  n ← pop_int c
  fail_if (ltb_ℤ n (pos 0)) unknown5
  push_item c (← peek_at c evaluation n)

-- ROLL
unfoldable pub op_roll : Host → ℕ → Instruction → Action (Unit {0})
op_roll h c ins = do
  n ← pop_int c
  fail_if (ltb_ℤ n (pos 0)) unknown6
  note_stack_size h true (negsuc 0)
  if ltb_ℤ (pos 0) n then (do push_item c (← remove_from c n)) else skip

-- ROT
unfoldable pub op_rot : Host → ℕ → Instruction → Action (Unit {0})
op_rot h c ins = do push_item c (← remove_from c (pos 2))

-- SWAP
unfoldable pub op_swap : Host → ℕ → Instruction → Action (Unit {0})
op_swap h c ins = do push_item c (← remove_from c (pos 1))

-- TUCK
unfoldable pub op_tuck : Host → ℕ → Instruction → Action (Unit {0})
op_tuck h c ins = do
  top ← peek_at c evaluation (pos 0)
  insert_into c 2 top
  require_stack_size h true (pos 1)
