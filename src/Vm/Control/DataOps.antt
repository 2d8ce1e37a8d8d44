-- ===== src/Vm/Control/DataOps.antt =====
-- The instructions that leave the control state alone: constants and the stack.
use neo_python.Prelude.{ℕ}
use neo_python.Vm.Control.{IsLocal}
use neo_python.Vm.Control.Primitives.{op_rules}
use neo_python.Vm.Instruction.{Instruction}
use neo_python.Vm.Ops.Push.{op_push0, op_pushdata, op_pushint}
use neo_python.Vm.Ops.Stack.{
  op_depth, op_drop, op_dup, op_dupfromaltstack, op_fromaltstack, op_nip, op_over, op_pick, op_roll,
  op_rot, op_swap, op_toaltstack, op_tuck, op_xdrop, op_xswap, op_xtuck,
}
use neo_python.Vm.State.{Host}
use neo_python.Vm.Ops.Push
use neo_python.Vm.Ops.Stack

pub IsLocal-op_pushdata :
    (h : Host) (c : ℕ) (ins : Instruction) → IsLocal (Push.op_pushdata h c ins)
unfolding Push.op_pushdata
IsLocal-op_pushdata h c ins = search (op_rules) depth 20

pub IsLocal-op_pushint : (h : Host) (c : ℕ) (ins : Instruction) → IsLocal (Push.op_pushint h c ins)
unfolding Push.op_pushint
IsLocal-op_pushint h c ins = search (op_rules) depth 20

pub IsLocal-op_push0 : (h : Host) (c : ℕ) (ins : Instruction) → IsLocal (Push.op_push0 h c ins)
unfolding Push.op_push0
IsLocal-op_push0 h c ins = search (op_rules) depth 20

pub IsLocal-op_dupfromaltstack :
    (h : Host) (c : ℕ) (ins : Instruction) → IsLocal (Stack.op_dupfromaltstack h c ins)
unfolding Stack.op_dupfromaltstack
IsLocal-op_dupfromaltstack h c ins = search (op_rules) depth 20

pub IsLocal-op_toaltstack :
    (h : Host) (c : ℕ) (ins : Instruction) → IsLocal (Stack.op_toaltstack h c ins)
unfolding Stack.op_toaltstack
IsLocal-op_toaltstack h c ins = search (op_rules) depth 20

pub IsLocal-op_fromaltstack :
    (h : Host) (c : ℕ) (ins : Instruction) → IsLocal (Stack.op_fromaltstack h c ins)
unfolding Stack.op_fromaltstack
IsLocal-op_fromaltstack h c ins = search (op_rules) depth 20

pub IsLocal-op_xdrop : (h : Host) (c : ℕ) (ins : Instruction) → IsLocal (Stack.op_xdrop h c ins)
unfolding Stack.op_xdrop
IsLocal-op_xdrop h c ins = search (op_rules) depth 20

pub IsLocal-op_xswap : (h : Host) (c : ℕ) (ins : Instruction) → IsLocal (Stack.op_xswap h c ins)
unfolding Stack.op_xswap
IsLocal-op_xswap h c ins = search (op_rules) depth 20

pub IsLocal-op_xtuck : (h : Host) (c : ℕ) (ins : Instruction) → IsLocal (Stack.op_xtuck h c ins)
unfolding Stack.op_xtuck
IsLocal-op_xtuck h c ins = search (op_rules) depth 20

pub IsLocal-op_depth : (h : Host) (c : ℕ) (ins : Instruction) → IsLocal (Stack.op_depth h c ins)
unfolding Stack.op_depth
IsLocal-op_depth h c ins = search (op_rules) depth 20

pub IsLocal-op_drop : (h : Host) (c : ℕ) (ins : Instruction) → IsLocal (Stack.op_drop h c ins)
unfolding Stack.op_drop
IsLocal-op_drop h c ins = search (op_rules) depth 20

pub IsLocal-op_dup : (h : Host) (c : ℕ) (ins : Instruction) → IsLocal (Stack.op_dup h c ins)
unfolding Stack.op_dup
IsLocal-op_dup h c ins = search (op_rules) depth 20

pub IsLocal-op_nip : (h : Host) (c : ℕ) (ins : Instruction) → IsLocal (Stack.op_nip h c ins)
unfolding Stack.op_nip
IsLocal-op_nip h c ins = search (op_rules) depth 20

pub IsLocal-op_over : (h : Host) (c : ℕ) (ins : Instruction) → IsLocal (Stack.op_over h c ins)
unfolding Stack.op_over
IsLocal-op_over h c ins = search (op_rules) depth 20

pub IsLocal-op_pick : (h : Host) (c : ℕ) (ins : Instruction) → IsLocal (Stack.op_pick h c ins)
unfolding Stack.op_pick
IsLocal-op_pick h c ins = search (op_rules) depth 20

pub IsLocal-op_roll : (h : Host) (c : ℕ) (ins : Instruction) → IsLocal (Stack.op_roll h c ins)
unfolding Stack.op_roll
IsLocal-op_roll h c ins = search (op_rules) depth 20

pub IsLocal-op_rot : (h : Host) (c : ℕ) (ins : Instruction) → IsLocal (Stack.op_rot h c ins)
unfolding Stack.op_rot
IsLocal-op_rot h c ins = search (op_rules) depth 20

pub IsLocal-op_swap : (h : Host) (c : ℕ) (ins : Instruction) → IsLocal (Stack.op_swap h c ins)
unfolding Stack.op_swap
IsLocal-op_swap h c ins = search (op_rules) depth 20

pub IsLocal-op_tuck : (h : Host) (c : ℕ) (ins : Instruction) → IsLocal (Stack.op_tuck h c ins)
unfolding Stack.op_tuck
IsLocal-op_tuck h c ins = search (op_rules) depth 20
