-- ===== src/Vm/Ops/Push.antt =====
-- ExecuteInstruction: the opcodes that push a constant.
use neo_python.Prelude.{[], false, if◌then◌else◌, length, true, ℕ}
use neo_python.Prelude.Int.{pos, ◌+ℤ◌, ◌-ℤ◌}
use neo_python.Vm.Engine.Limits.{check_max_item_size, require_stack_size}
use neo_python.Vm.Engine.Monad.{return_early, skip, ◌>>◌}
use neo_python.Vm.Engine.Stacks.{push_bytes, push_int}
use neo_python.Vm.Instruction.{Instruction}
use neo_python.Vm.State.{Action, Host}
use neo_python.Vm.OpCode

-- PUSHBYTES1 to PUSHDATA4
unfoldable pub op_pushdata : Host → ℕ → Instruction → Action (Unit {0})
op_pushdata h c ins = do
  if check_max_item_size (length ins.operand) then skip else return_early false
  push_bytes c ins.operand
  require_stack_size h true (pos 1)

-- PUSHM1 and PUSH1 to PUSH16
unfoldable pub op_pushint : Host → ℕ → Instruction → Action (Unit {0})
op_pushint h c ins = do
  push_int c (pos ins.op_code -ℤ pos OpCode.push1 +ℤ pos 1)
  require_stack_size h true (pos 1)

-- PUSH0
unfoldable pub op_push0 : Host → ℕ → Instruction → Action (Unit {0})
op_push0 h c ins = do push_bytes c []; require_stack_size h true (pos 1)
