-- ===== src/Vm/Ops/Flow.antt =====
-- ExecuteInstruction: control flow.
use neo_python.Prelude.{
  Bool, List, Option, false, if◌then◌else◌, length, ltb, none, not, some, suc, true, ℕ, ◌&&◌, ◌+◌,
  ◌==◌,
}
use neo_python.Prelude.Int.{eqb_ℤ, negsuc, pos, ℤ, ◌+ℤ◌}
use neo_python.Vm.Engine.Contexts.{
  current_context, is_missing, jump_to, load_script_by_hash, load_script_internal, loaded_or_fail,
  pop_context, remove_context,
}
use neo_python.Vm.Engine.Limits.{
  check_max_invocation_stack, int_max_value, note_stack_size, require_stack_size,
}
use neo_python.Vm.Engine.Monad.{
  fail_if, fail_with, gets, modify, pure, return_early, skip, ◌>>=◌, ◌>>◌,
}
use neo_python.Vm.Engine.Stacks.{
  StackName, alternative, count_of, evaluation, pop_bool, pop_bytes, put_stack, stack_of,
}
use neo_python.Vm.Instruction.{Instruction, Script, script_length, token_i16}
use neo_python.Vm.RandomAccessStack.{copy_all_to, copy_to, empty}
use neo_python.Vm.StackItem.{some_byte, update}
use neo_python.Vm.State.{
  Action, ExecutionContext, Host, appcall_exceed_max_invocationstack_size,
  call_exceed_max_invocationstack_size, invalid_contract, invalid_jump, state_halt, syscall_error,
  throw, throwifnot, unknown1, unknown2,
}
use neo_python.Vm.OpCode

unfoldable pub within_script : Script → ℤ → Option ℕ
within_script script (pos p) = if ltb (script_length script) p then none else some p
within_script script (negsuc _) = none

-- `context.InstructionPointer + offset`, unless it lies outside of the script (its end is inside).
unfoldable pub target : ExecutionContext → ℤ → Option ℕ
target context offset = within_script context.script (pos context.instruction_pointer +ℤ offset)

-- Whether the jump is taken: JMP always, the other two by the top item.
unfoldable pub jump_condition : Host → ℕ → ℕ → Action Bool
jump_condition h c op =
    if ltb OpCode.jmp op
    then (do
      note_stack_size h false (negsuc 0)
      value ← pop_bool c
      pure (if op == OpCode.jmpifnot then not value else value))
    else pure true

-- `return self.VM_FAULT_and_report(INVALID_JUMP)` for a target outside of the script.
abbrev pub offset_or_fail : Option ℕ → Action ℕ
offset_or_fail none = fail_with invalid_jump
offset_or_fail (some offset) = pure offset

-- JMP, JMPIF, JMPIFNOT
unfoldable pub op_jmp : Host → ℕ → Instruction → Action (Unit {0})
op_jmp h c ins = do
  context ← gets (λ e. e.contexts c)
  offset ← offset_or_fail (target context (token_i16 ins))
  jump ← jump_condition h c ins.op_code
  jump_to c (if jump then offset else context.instruction_pointer + 3)
  return_early true

-- `source.EvaluationStack.CopyTo(target.EvaluationStack)`
unfoldable pub copy_all_stack : ℕ → StackName → ℕ → Action (Unit {0})
copy_all_stack from w to = modify (λ e.
    put_stack to w (copy_all_to (stack_of w (e.contexts from)) (stack_of w (e.contexts to))) e)

unfoldable pub copy_stack : ℕ → ℕ → ℕ → Action (Unit {0})
copy_stack from to count = modify (λ e.
    put_stack to evaluation
      (copy_to count (e.contexts from).evaluation_stack (e.contexts to).evaluation_stack) e)

unfoldable pub clear_stack : ℕ → Action (Unit {0})
clear_stack c = modify (put_stack c evaluation empty)

abbrev pub set_pointer : ℕ → ℕ → Action (Unit {0})
set_pointer c p = modify (λ e. record e {
  contexts = update e.contexts c (record (e.contexts c) { instruction_pointer = p; astray = none });
})

abbrev pub set_astray : ℕ → ℤ → Action (Unit {0})
set_astray c z =
    modify
      (λ e. record e { contexts = update e.contexts c (record (e.contexts c) { astray = some z }) })

-- `context_call.InstructionPointer = z`, and `return False` if that lies outside of the script, by the
-- target that is left otherwise.
unfoldable pub start_at : ℕ → ℤ → Option ℕ → Action (Unit {0})
start_at c z none = do set_astray c z; return_early false
start_at c z (some p) = set_pointer c p

-- CALL
unfoldable pub op_call : Host → ℕ → Instruction → Action (Unit {0})
op_call h c ins = do
  room ← check_max_invocation_stack
  fail_if (not room) call_exceed_max_invocationstack_size
  context ← gets (λ e. e.contexts c)
  context_call ← load_script_internal context.script (negsuc 0)
  start_at context_call (pos context.instruction_pointer +ℤ token_i16 ins)
      (target context (token_i16 ins))
  copy_all_stack c evaluation context_call
  clear_stack c

-- Where RET copies the results: the result stack once no context is left.
unfoldable pub copy_results : ℕ → ℕ → Action (Unit {0})
copy_results from count = do
  left ← gets (λ e. e.invocation_stack.size)
  if left == 0
      then modify (λ e. record e {
        result_stack = copy_to count (e.contexts from).evaluation_stack e.result_stack;
      })
      else (do to ← current_context; copy_stack from to count)

-- The values that RET returns: the whole stack for an `_RVCount` of -1.
abbrev pub returned_count : ExecutionContext → ℤ
returned_count context =
    if eqb_ℤ context.rv_count (negsuc 0)
    then pos context.evaluation_stack.size
    else context.rv_count

unfoldable pub return_values : ℕ → ℤ → Action (Unit {0})
return_values from (pos (suc n)) = do
  available ← count_of from
  if ltb available (suc n) then fail_with unknown1 else copy_results from (suc n)
return_values from rvcount = skip

unfoldable pub halt_if_empty : Action (Unit {0})
halt_if_empty =
    modify (λ e. if e.invocation_stack.size == 0 then record e { vm_state = state_halt } else e)

-- RET
unfoldable pub op_ret : Host → ℕ → Instruction → Action (Unit {0})
op_ret h c ins = do
  from ← pop_context
  context_pop ← gets (λ e. e.contexts from)
  return_values from (returned_count context_pop)
  left ← gets (λ e. e.invocation_stack.size)
  if eqb_ℤ context_pop.rv_count (negsuc 0) && not (left == 0)
      then (do to ← current_context; copy_all_stack from alternative to)
      else skip
  note_stack_size h false (pos 0)
  halt_if_empty
  return_early true

-- The script hash of a call: the operand, or for one of zeros the top item.
unfoldable pub called_hash : ℕ → List ℕ → Action (List ℕ)
called_hash c operand = if some_byte operand then pure operand else pop_bytes c

-- APPCALL, TAILCALL
unfoldable pub op_appcall : Host → ℕ → Instruction → Action (Unit {0})
op_appcall h c ins = do
  fail_if (is_missing h.table) unknown2
  room ← check_max_invocation_stack
  fail_if (ins.op_code == OpCode.appcall && not room) appcall_exceed_max_invocationstack_size
  script_hash ← called_hash c ins.operand
  loaded ← load_script_by_hash h script_hash (negsuc 0)
  context_new ← loaded_or_fail loaded invalid_contract
  copy_all_stack c evaluation context_new
  if ins.op_code == OpCode.tailcall then remove_context (pos 1) else clear_stack c
  note_stack_size h false (pos 0)

-- SYSCALL
unfoldable pub op_syscall : Host → ℕ → Instruction → Action (Unit {0})
op_syscall h c ins = do
  if ltb 252 (length ins.operand) then return_early false else skip
  done ← h.service_invoke ins.operand
  fail_if (not done) syscall_error
  require_stack_size h false (pos int_max_value)

-- NOP
unfoldable pub op_nop : Host → ℕ → Instruction → Action (Unit {0})
op_nop h c ins = skip

-- THROW, THROWIFNOT
unfoldable pub op_throw : Host → ℕ → Instruction → Action (Unit {0})
op_throw h c ins = fail_with throw

unfoldable pub op_throwifnot : Host → ℕ → Instruction → Action (Unit {0})
op_throwifnot h c ins = do
  value ← pop_bool c
  fail_if (not value) throwifnot
  note_stack_size h false (negsuc 0)
