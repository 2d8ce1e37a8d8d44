-- ===== src/Vm/Tests.antt =====
-- Runs of small scripts.
use neo_python.Core.BigInteger.{from_bytes, to_byte_array}
use neo_python.Core.BigInteger.Limits.{FitsBytes}
use neo_python.Prelude.{
  Bool, List, Option, [], arith, bytes_eq, false, if◌then◌else◌, insert_at, leb, none, refl, some,
  suc, true, zero, ℕ, ◌++◌, ◌-◌, ◌==◌, ◌↔◌, ◌∷◌, ◌≡◌, ◌⊎◌,
}
use neo_python.Prelude.Int.{negsuc, pos, ℤ, ◌+ℤ◌, ◌-ℤ◌}
use neo_python.Vm.Control.{IsLocal, IsLocal-pure}
use neo_python.Vm.Control.Branches.{IsLocal-dispatch, is_data}
use neo_python.Vm.Engine.Bounds.{check_big_integer_iff}
use neo_python.Vm.Engine.Contexts.{
  commit_remove, current_context, current_instruction, get_instruction, jump_to, load_found,
  load_from_table, load_script, load_script_internal, loaded_or_fail, move_next,
  new_execution_context, pop_context, remove_context,
}
use neo_python.Vm.Engine.ItemCount.{get_item_count-ends}
use neo_python.Vm.Engine.ItemCount.Unseen.{IsClosed}
use neo_python.Vm.Engine.Limits.{
  add_count, cells_below, check_array_size, check_big_integer, check_max_invocation_stack,
  check_max_item_size, check_shift, check_stack_size, children, contained, get_item_count, held,
  item_count_loop, note_stack_size, recount, report_stack_size, require_stack_size, stack_items,
  stuck,
}
use neo_python.Vm.Engine.Monad.{
  fail_if, fail_with, gets, modify, pure, raise, return_early, set_fault, skip, vm_fault_and_report,
  ◌>>=◌,
}
use neo_python.Vm.Engine.Stacks.{
  insert_into, new_dict, new_identity, new_list, peek_at, pop_bool, pop_bytes, pop_from, pop_int,
  push_bool, push_bytes, push_int, push_list, push_on, remove_from, run_stack, set_at, write_stack,
}
use neo_python.Vm.Execute.{
  branches, dispatch, execute, execute_guarded, execute_instruction, execute_next, fault_unless,
  new_engine, recover, run_loop,
}
use neo_python.Vm.Instruction.{
  Instruction, Script, from_script_and_ip, instruction_size, read_bytes, token_i16, token_i16_1,
  token_u32,
}
use neo_python.Vm.Instruction.Bounds.{IsAt, from_script_and_ip-IsAt}
use neo_python.Vm.Ops.Arithmetic.{Shows}
use neo_python.Vm.Ops.Arithmetic.Exact.{IsResult, dispatch-IsResult, divides, passes}
use neo_python.Vm.Ops.Arithmetic.Results.{code_of, product}
use neo_python.Vm.Ops.Crypto.{multisig_loop}
use neo_python.Vm.Ops.Flow.{
  clear_stack, copy_all_stack, copy_results, copy_stack, halt_if_empty, op_call, op_ret,
  return_values, start_at, target, within_script,
}
use neo_python.Vm.Ops.Multisig.{Matches, NeverRaises, multisig_loop_iff}
use neo_python.Vm.Ops.Numeric.{op_add}
use neo_python.Vm.Ops.Push.{op_push0, op_pushdata, op_pushint}
use neo_python.Vm.RandomAccessStack.{
  RandomAccessStack, clear, copy_all_to, copy_to, empty, insert, peek, pop, push_t, remove,
  set_item,
}
use neo_python.Vm.RandomAccessStack.Laws.{
  Built-IsSized, IsSized, built_empty, built_push, pop-push_t, top_index,
}
use neo_python.Vm.RandomAccessStack.TopDown.{
  from_top, insert-from_top, peek-from_top, peek_list, remove-from_top, remove_list, seen,
  seen_stack, set_item-from_top, set_list,
}
use neo_python.Vm.Safety.Reachable.{
  Guarded-true, IsSound, IsTame, Reached-IsSound, after_next, run_start,
}
use neo_python.Vm.ScriptBuilder.{push_buffer}
use neo_python.Vm.ScriptBuilder.RoundTrip.{from_script_and_ip-push_buffer}
use neo_python.Vm.StackItem.{Heap, StackItem, array, get_big_integer, integer}
use neo_python.Vm.StackItem.Equality.{dict_values}
use neo_python.Vm.State.{Engine, state_break}
use neo_python.Vm.TestHost.{test_host}
use neo_python.Vm.OpCode

abbrev run_script : List ℕ → Option (Bool × List StackItem)
run_script script =
    elim (execute test_host 40 (load_script test_host script (negsuc 0) new_engine).1) [
      | none ↦ none
      | some (b, e) ↦ some (b, e.result_stack.items)
    ]

abbrev add_script : List ℕ
add_script = 0x52 ∷ 0x53 ∷ 0x93 ∷ []

-- 2 + 3
run_add : run_script add_script ≡ some (true, integer (pos 5) ∷ [])
unfolding dispatch execute_instruction fault_unless execute_guarded recover execute_next run_loop
    execute ◌>>=◌ pure raise return_early gets modify skip set_fault vm_fault_and_report fail_with
    fail_if get_instruction current_instruction jump_to move_next current_context pop_context
    commit_remove remove_context load_script_internal load_script load_found load_from_table
    loaded_or_fail run_stack write_stack pop_from push_on peek_at remove_from insert_into set_at
    pop_int pop_bytes pop_bool new_identity new_list new_dict push_int push_bytes push_bool
    push_list check_array_size check_max_item_size check_max_invocation_stack check_big_integer
    check_shift contained children item_count_loop cells_below get_item_count stack_items add_count
    recount check_stack_size require_stack_size report_stack_size note_stack_size push_t peek remove
    pop set_item insert clear copy_to copy_all_to from_script_and_ip instruction_size token_i16
    token_i16_1 token_u32 read_bytes op_pushdata op_pushint op_push0 op_add op_ret return_values
    copy_results copy_all_stack halt_if_empty ◌+ℤ◌ get_big_integer to_byte_array from_bytes
    clear_stack ◌-ℤ◌
run_add = refl

-- Whether the run of a script faults, and where the context that was loaded last was left outside its
-- script.
abbrev left_astray : List ℕ → Option (Bool × Option ℤ)
left_astray script =
    elim (execute test_host 40 (load_script test_host script (negsuc 0) new_engine).1) [
      | none ↦ none
      | some (b, e) ↦ some (b, (e.contexts (e.next_context - 1)).astray)
    ]

abbrev stray_script : List ℕ
stray_script = 0x65 ∷ 0x00 ∷ 0x40 ∷ []

-- CALL by an offset that leaves the script
run_stray : left_astray stray_script ≡ some (false, some (pos 0x4000))
unfolding dispatch execute_instruction fault_unless execute_guarded recover execute_next run_loop
    execute ◌>>=◌ pure raise return_early gets modify skip set_fault vm_fault_and_report fail_with
    fail_if get_instruction current_instruction jump_to move_next current_context pop_context
    commit_remove remove_context load_script_internal load_script load_found load_from_table
    loaded_or_fail run_stack write_stack pop_from push_on peek_at remove_from insert_into set_at
    pop_int pop_bytes pop_bool new_identity new_list new_dict push_int push_bytes push_bool
    push_list check_array_size check_max_item_size check_max_invocation_stack check_big_integer
    check_shift contained children item_count_loop cells_below get_item_count stack_items add_count
    recount check_stack_size require_stack_size report_stack_size note_stack_size push_t peek remove
    pop set_item insert clear copy_to copy_all_to from_script_and_ip instruction_size token_i16
    token_i16_1 token_u32 read_bytes op_pushdata op_pushint op_push0 op_call start_at target
    within_script copy_stack clear_stack op_ret return_values copy_results copy_all_stack
    halt_if_empty ◌+ℤ◌ get_big_integer to_byte_array from_bytes ◌-ℤ◌
run_stray = refl

-- The theorems at concrete inputs.
test_host-IsTame : IsTame test_host
test_host-IsTame = record {
  service_local = λ bs. IsLocal-pure false;
  pre_kept = Guarded-true _;
  post_kept = Guarded-true _;
  exits = refl;
}

abbrev start : Engine
start = record ((load_script test_host add_script (negsuc 0) new_engine).1) {
  vm_state = record state_break { break = false };
}

Reached-IsSound_example : IsSound (execute_next test_host start)
Reached-IsSound_example =
    Reached-IsSound test_host add_script (negsuc 0) (execute_next test_host start) test_host-IsTame
      (after_next start run_start refl)

abbrev add_instruction : Instruction
add_instruction = record { op_code = OpCode.add; operand = [] }

IsLocal-dispatch_example : IsLocal (dispatch branches test_host 0 add_instruction)
IsLocal-dispatch_example = IsLocal-dispatch test_host 0 add_instruction (unfold is_data in refl)

abbrev push_data : Script
push_data = record { value = OpCode.pushdata1 ∷ 2 ∷ 7 ∷ 8 ∷ []; script_hash = [] }

abbrev push_data_instruction : Instruction
push_data_instruction = record { op_code = OpCode.pushdata1; operand = 7 ∷ 8 ∷ [] }

from_script_and_ip-IsAt_example : IsAt push_data 0 push_data_instruction
from_script_and_ip-IsAt_example =
    from_script_and_ip-IsAt push_data 0 push_data_instruction
      (unfold from_script_and_ip from_bytes in refl)

abbrev same_bytes_verify : List ℕ → List ℕ → Option Bool
same_bytes_verify s p = some (bytes_eq s p)

abbrev two_keys : List (List ℕ)
two_keys = (1 ∷ []) ∷ (2 ∷ []) ∷ []

abbrev one_signature : List (List ℕ)
one_signature = (2 ∷ []) ∷ []

no_raise : NeverRaises same_bytes_verify one_signature two_keys
unfolding NeverRaises
no_raise = ((λ e. absurd (ground (arith, e))), ((λ e. absurd (ground (arith, e))), tt, tt), tt)

multisig_loop_iff_example :
    (multisig_loop same_bytes_verify one_signature two_keys ≡ true)
    ↔ Matches same_bytes_verify one_signature two_keys
multisig_loop_iff_example =
    multisig_loop_iff same_bytes_verify one_signature two_keys (omega arith) no_raise

abbrev stack_of_two : RandomAccessStack ℕ
stack_of_two = record { items = 4 ∷ 5 ∷ []; size = 2 }

stack_of_two-IsSized : IsSized stack_of_two
unfolding IsSized
stack_of_two-IsSized = refl

abbrev two_pushed : RandomAccessStack ℕ
two_pushed = push_t 5 (push_t 4 empty)

Built-IsSized_example : IsSized two_pushed
Built-IsSized_example =
    Built-IsSized two_pushed (built_push 5 (push_t 4 empty) (built_push 4 empty built_empty))

pop-push_t_example : pop (push_t 6 stack_of_two) ≡ some (6, stack_of_two)
pop-push_t_example = pop-push_t 6 stack_of_two stack_of_two-IsSized

peek-from_top_example :
    peek (pos 1) stack_of_two ≡ peek_list (from_top stack_of_two) (top_index (pos 1) 2)
peek-from_top_example = peek-from_top (pos 1) stack_of_two stack_of_two-IsSized

remove-from_top_example :
    seen (remove (negsuc 0) stack_of_two)
    ≡ remove_list (from_top stack_of_two) (top_index (negsuc 0) 2)
remove-from_top_example = remove-from_top (negsuc 0) stack_of_two stack_of_two-IsSized

set_item-from_top_example :
    seen_stack (set_item (pos 1) 9 stack_of_two)
    ≡ set_list (from_top stack_of_two) (top_index (pos 1) 2) 9
set_item-from_top_example = set_item-from_top (pos 1) 9 stack_of_two stack_of_two-IsSized

insert-from_top_example :
    seen_stack (insert 1 9 stack_of_two)
    ≡ (if leb 1 2 then some (insert_at (from_top stack_of_two) 1 9) else none)
insert-from_top_example = insert-from_top 1 9 stack_of_two stack_of_two-IsSized

check_big_integer_iff_example : (check_big_integer (pos 7) ≡ true) ↔ FitsBytes 31 (pos 7)
check_big_integer_iff_example = check_big_integer_iff (pos 7)

-- A list that holds itself and a number.
abbrev knot : Heap
knot = record {
  next = 1;
  arrays = λ r. if r == 0 then array 0 ∷ integer (pos 1) ∷ [] else [];
  maps = λ r. [];
}

knot-IsClosed : IsClosed knot
unfolding IsClosed held children dict_values
knot-IsClosed (suc r) h = (ground arith, ground arith, refl)
knot-IsClosed zero h = absurd (omega (arith, h))

get_item_count-ends_example : ¬ (get_item_count test_host knot (array 0 ∷ array 0 ∷ []) ≡ stuck)
get_item_count-ends_example =
    get_item_count-ends test_host knot (array 0 ∷ array 0 ∷ []) knot-IsClosed

abbrev two_numbers : Engine
two_numbers = record new_engine {
  contexts = λ c. record (new_execution_context push_data (negsuc 0)) {
    evaluation_stack = push_t (integer (pos 4)) (push_t (integer (pos 3)) empty);
  };
}

empty-IsSized : IsSized (empty {A = StackItem})
unfolding IsSized
empty-IsSized = refl

dispatch-IsResult_example :
    ((divides product ≡ true)
      × (pos 4 ≡ pos 0)
      × Shows 0 empty none (
          dispatch branches test_host 0
            (record { op_code = code_of product; operand = [] })
            two_numbers))
    ⊎ ((z : ℤ) × IsResult product (pos 3) (pos 4) z
        × Shows 0 empty (if passes product (pos 3) (pos 4) z then some z else none) (
            dispatch branches test_host 0
              (record { op_code = code_of product; operand = [] })
              two_numbers))
dispatch-IsResult_example =
    dispatch-IsResult product [] test_host 0 empty (pos 3) (pos 4) two_numbers tt empty-IsSized refl

from_script_and_ip-push_buffer_example :
    from_script_and_ip
      (record {
        value = OpCode.nop ∷ (push_buffer (7 ∷ 8 ∷ []) ++ (OpCode.ret ∷ []));
        script_hash = [];
      })
      1
    ≡ some (record { op_code = 2; operand = 7 ∷ 8 ∷ [] })
from_script_and_ip-push_buffer_example =
    from_script_and_ip-push_buffer (OpCode.nop ∷ []) (7 ∷ 8 ∷ []) (OpCode.ret ∷ []) (omega arith)
