-- ===== src/Vm/Engine/Contexts.antt =====
-- neo/VM/ExecutionContext.py, and the loading of scripts in ExecutionEngine.py.
use neo_python.Prelude.{
  Bool, List, Option, [], false, if◌then◌else◌, leb, length, none, some, true, ℕ, ◌++◌, ◌+◌, ◌==◌,
  ◌∷◌,
}
use neo_python.Prelude.Int.{pos, ℤ}
use neo_python.Vm.Engine.Monad.{
  commit, fail_with, gets, modify, or_raise, pure, raise, skip, ◌>>=◌, ◌>>◌,
}
use neo_python.Vm.Instruction.{
  Instruction, Script, from_script_and_ip, instruction_size, ret_instruction, script_length,
}
use neo_python.Vm.RandomAccessStack.{RandomAccessStack, empty, peek, pop, push_t, remove}
use neo_python.Vm.StackItem.{update}
use neo_python.Vm.State.{Action, Engine, ExecutionContext, Host, VmFault, ok}

-- ExecutionContext.GetInstruction
unfoldable pub get_instruction : Script → ℕ → Option Instruction
get_instruction script ip =
    if leb (script_length script) ip then some ret_instruction else from_script_and_ip script ip

-- ExecutionContext.CurrentInstruction
unfoldable pub current_instruction : ExecutionContext → Option Instruction
current_instruction c = elim c.ins [
  | none ↦ get_instruction c.script c.instruction_pointer
  | some i ↦ some i
]

-- `context.InstructionPointer = offset; context.ins = context.GetInstruction(offset)`
unfoldable pub jump_to : ℕ → ℕ → Action (Unit {0})
jump_to c offset = do
  modify (λ e. record e {
    contexts =
        update e.contexts c (record (e.contexts c) { instruction_pointer = offset; astray = none });
  })
  script ← gets (λ e. (e.contexts c).script)
  i ← or_raise (get_instruction script offset)
  modify (λ e. record e { contexts = update e.contexts c (record (e.contexts c) { ins = some i }) })

-- ExecutionContext.MoveNext
unfoldable pub move_next : ℕ → Action (Unit {0})
move_next c = do
  context ← gets (λ e. e.contexts c)
  i ← or_raise (current_instruction context)
  jump_to c (context.instruction_pointer + instruction_size i)

-- CurrentContext
unfoldable pub current_context : Action ℕ
current_context = do s ← gets (λ e. e.invocation_stack); or_raise (peek (pos 0) s)

-- `istack.Pop()` and `istack.Remove(1)`
abbrev pub put_invocation_stack : RandomAccessStack ℕ → Engine → Engine
put_invocation_stack s e = record e { invocation_stack = s }

unfoldable pub pop_context : Action ℕ
pop_context e = commit (pop e.invocation_stack) put_invocation_stack e

unfoldable pub commit_remove : ℤ → Action ℕ
commit_remove index e = commit (remove index e.invocation_stack) put_invocation_stack e

unfoldable pub remove_context : ℤ → Action (Unit {0})
remove_context index = do commit_remove index; skip

abbrev pub new_execution_context : Script → ℤ → ExecutionContext
new_execution_context script rvcount = record {
  script = script;
  evaluation_stack = empty;
  alt_stack = empty;
  instruction_pointer = 0;
  astray = none;
  rv_count = rvcount;
  ins = none;
}

-- _LoadScriptInternal
unfoldable pub load_script_internal : Script → ℤ → Action ℕ
load_script_internal script rvcount e = (
  ok e.next_context,
  record e {
    contexts = update e.contexts e.next_context (new_execution_context script rvcount);
    next_context = e.next_context + 1;
    invocation_stack = push_t e.next_context e.invocation_stack;
    executed_script_hashes = e.executed_script_hashes ++ (script.script_hash ∷ []);
  },
)

-- LoadScript
unfoldable pub load_script : Host → List ℕ → ℤ → Action ℕ
load_script h script rvcount =
    load_script_internal (record { value = script; script_hash = h.hash160 script }) rvcount

unfoldable pub load_found : List ℕ → ℤ → Option (List ℕ) → Action (Option ℕ)
load_found script_hash rvcount none = pure none
load_found script_hash rvcount (some script) = do
  c ← load_script_internal (record { value = script; script_hash = script_hash }) rvcount
  pure (some c)

-- `self._Table is None`
abbrev pub is_missing : {A : Type 0} → Option A → Bool
is_missing none = true
is_missing (some _) = false

-- _LoadScriptByHash with its table. UInt160 raises unless it is given 20 bytes.
unfoldable pub load_from_table : List ℕ → ℤ → Option (List ℕ → Option (List ℕ)) → Action (Option ℕ)
load_from_table script_hash rvcount none = pure none
load_from_table script_hash rvcount (some get_script) =
    if length script_hash == 20
    then load_found script_hash rvcount (get_script script_hash)
    else raise

abbrev pub load_script_by_hash : Host → List ℕ → ℤ → Action (Option ℕ)
load_script_by_hash h script_hash rvcount = load_from_table script_hash rvcount h.table

-- The context that was loaded, or the fault for none.
unfoldable pub loaded_or_fail : Option ℕ → VmFault → Action ℕ
loaded_or_fail none id = fail_with id
loaded_or_fail (some c) id = pure c
