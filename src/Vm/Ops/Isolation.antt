-- ===== src/Vm/Ops/Isolation.antt =====
-- ExecuteInstruction: stack isolation (CALL_I, CALL_E, CALL_ED, CALL_ET, CALL_EDT).
use neo_python.Prelude.{
  Bool, List, get_elem?, if◌then◌else◌, ltb, not, suc, true, zero, ℕ, ◌==◌, ◌||◌,
}
use neo_python.Prelude.Int.{eqb_ℤ, negsuc, pos, ◌+ℤ◌}
use neo_python.Vm.Engine.Contexts.{
  is_missing, load_script_by_hash, load_script_internal, loaded_or_fail, remove_context,
}
use neo_python.Vm.Engine.Limits.{check_max_invocation_stack, note_stack_size}
use neo_python.Vm.Engine.Monad.{fail_if, gets, or_raise, pure, skip, ◌>>=◌, ◌>>◌}
use neo_python.Vm.Engine.Stacks.{count_of, pop_bytes, pop_item}
use neo_python.Vm.Instruction.{Instruction, read_bytes, token_i16_1}
use neo_python.Vm.Ops.Flow.{copy_stack, start_at, target}
use neo_python.Vm.State.{
  Action, Host, call_i_exceed_max_invocationstack_size, invalid_contract,
  unknown_exceed_max_invocationstack_size, unknown_stackisolation, unknown_stackisolation2,
  unknown_stackisolation3,
}
use neo_python.Vm.OpCode

-- `for i in range(0, pcount, 1): estack.Pop()`
unfoldable pub drop_times : ℕ → ℕ → Action (Unit {0})
drop_times zero c = skip
drop_times (suc n) c = do pop_item c; drop_times n c

-- CALL_I. The offset of the target counts from the counts of the operand, two bytes on.
unfoldable pub op_call_i : Host → ℕ → Instruction → Action (Unit {0})
op_call_i h c ins = do
  room ← check_max_invocation_stack
  fail_if (not room) call_i_exceed_max_invocationstack_size
  rvcount ← or_raise (get_elem? ins.operand 0)
  pcount ← or_raise (get_elem? ins.operand 1)
  count ← count_of c
  fail_if (ltb count pcount) unknown_stackisolation
  context ← gets (λ e. e.contexts c)
  context_call ← load_script_internal context.script (pos rvcount)
  start_at context_call (pos context.instruction_pointer +ℤ (token_i16_1 ins +ℤ pos 2))
      (target context (token_i16_1 ins +ℤ pos 2))
  copy_stack c context_call pcount
  drop_times pcount c

-- CALL_ET and CALL_EDT replace the context that calls.
abbrev pub is_tail : ℕ → Bool
is_tail op = op == OpCode.call_et || op == OpCode.call_edt

-- CALL_ED and CALL_EDT take the script hash from the stack.
abbrev pub is_dynamic : ℕ → Bool
is_dynamic op = op == OpCode.call_ed || op == OpCode.call_edt

unfoldable pub isolated_hash : Host → ℕ → Instruction → Action (List ℕ)
isolated_hash h c ins =
    if is_dynamic ins.op_code
    then (do script_hash ← pop_bytes c; note_stack_size h true (negsuc 0); pure script_hash)
    else or_raise (read_bytes ins 2 20)

-- CALL_E, CALL_ED, CALL_ET, CALL_EDT
unfoldable pub op_call_e : Host → ℕ → Instruction → Action (Unit {0})
op_call_e h c ins = do
  fail_if (is_missing h.table) unknown_stackisolation2
  rvcount ← or_raise (get_elem? ins.operand 0)
  pcount ← or_raise (get_elem? ins.operand 1)
  count ← count_of c
  fail_if (ltb count pcount) unknown_stackisolation
  context ← gets (λ e. e.contexts c)
  room ← check_max_invocation_stack
  if is_tail ins.op_code
      then fail_if (not (eqb_ℤ context.rv_count (pos rvcount))) unknown_stackisolation3
      else fail_if (not room) unknown_exceed_max_invocationstack_size
  script_hash ← isolated_hash h c ins
  loaded ← load_script_by_hash h script_hash (pos rvcount)
  context_new ← loaded_or_fail loaded invalid_contract
  copy_stack c context_new pcount
  if is_tail ins.op_code then remove_context (pos 1) else drop_times pcount c
