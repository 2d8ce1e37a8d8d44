-- ===== src/SmartContract/Tests.antt =====
-- The theorems on application engines at concrete inputs.
use mathlib.Core.List.{reverse}
use neo_python.Core.BigInteger.{from_bytes, from_le, to_byte_array}
use neo_python.Prelude.{
  Bool, List, Option, [], arith, false, leb, none, refl, some, take, true, ℕ, ◌%◌, ◌*◌, ◌+◌, ◌-◌,
  ◌/◌, ◌<◌, ◌∷◌, ◌≡◌, ◌≤◌, ◌⊎◌,
}
use neo_python.Prelude.Int.{negsuc, pos, ℤ, ◌*ℤ◌, ◌+ℤ◌, ◌-ℤ◌, ◌<ℤ◌, ◌≤ℤ◌}
use neo_python.Prelude.Text.{encode}
use neo_python.SmartContract.ApplicationEngine.{
  ApplicationEngine, application_engine, application_host, charge, check_dynamic_invoke, consume,
  get_price, is_refused, pre_execute_at, pre_execute_instruction, run, storage_fee,
}
use neo_python.SmartContract.ApplicationEngine.Gas.{Reached-gas}
use neo_python.SmartContract.ApplicationEngine.Prices.{
  IsUnpriced, get_price-contract, get_price-positive, method_name, neo_migrate, storage_fee-covers,
}
use neo_python.SmartContract.ApplicationEngine.Termination.{IsTameApplication, run-returns}
use neo_python.SmartContract.InteropService.{
  InteropService, find, interop_hash, invoke, service_price, state_machine, token,
}
use neo_python.SmartContract.InteropService.Services.{invoke-hash, state_machine-methods}
use neo_python.Vm.Control.{IsLocal, IsLocal-pure}
use neo_python.Vm.Engine.Contexts.{
  commit_remove, current_context, current_instruction, get_instruction, jump_to, load_found,
  load_from_table, load_script, load_script_internal, loaded_or_fail, move_next, pop_context,
  remove_context,
}
use neo_python.Vm.Engine.Limits.{
  add_count, cells_below, check_array_size, check_big_integer, check_max_invocation_stack,
  check_max_item_size, check_shift, check_stack_size, children, contained, get_item_count,
  item_count_loop, note_stack_size, recount, report_stack_size, require_stack_size, stack_items,
}
use neo_python.Vm.Engine.Monad.{
  fail_if, fail_with, gets, modify, pure, raise, return_early, set_fault, skip, vm_fault_and_report,
  ◌>>=◌,
}
use neo_python.Vm.Engine.Stacks.{
  insert_into, new_dict, new_identity, new_list, peek_at, pop_bool, pop_bytes, pop_from, pop_int,
  push_bool, push_bytes, push_int, push_list, push_on, remove_from, run_stack, set_at, write_stack,
}
use neo_python.Vm.Execute.{
  dispatch, execute, execute_guarded, execute_instruction, execute_next, fault_unless, new_engine,
  recover, run_loop,
}
use neo_python.Vm.Instruction.{
  Instruction, from_script_and_ip, instruction_size, read_bytes, token_i16, token_i16_1, token_u32,
}
use neo_python.Vm.Ops.Flow.{
  clear_stack, copy_all_stack, copy_results, halt_if_empty, op_ret, return_values,
}
use neo_python.Vm.Ops.Numeric.{op_add}
use neo_python.Vm.Ops.Push.{op_push0, op_pushdata, op_pushint}
use neo_python.Vm.RandomAccessStack.{
  clear, copy_all_to, copy_to, insert, peek, pop, push_t, remove, set_item,
}
use neo_python.Vm.Safety.Reachable.{run_start}
use neo_python.Vm.StackItem.{get_big_integer, integer}
use neo_python.Vm.State.{Action, Engine, ExecutionContext, Host, state_break}
use neo_python.Vm.TestHost.{test_host}
use neo_python.Vm.OpCode

abbrev test_service : InteropService
test_service = state_machine test_host (λ name. pure true)

-- A test invocation, and a run with the free amount of gas.
abbrev test_app : ApplicationEngine
test_app = application_engine test_service (pos 0) true

abbrev real_app : ApplicationEngine
real_app = application_engine test_service (pos 0) false

test_service-IsLocal :
    (k : ℕ) (m : Action Bool) → find k test_service.dictionary ≡ some m → IsLocal m
test_service-IsLocal k m f =
    state_machine-methods IsLocal test_host (λ name. pure true) k m (λ name. IsLocal-pure true) f

test_app-IsTame : IsTameApplication test_app test_host
test_app-IsTame = record { services = record { each_local = test_service-IsLocal }; faults = refl }

-- A jump to itself.
abbrev endless : List ℕ
endless = 0x62 ∷ 0 ∷ 0 ∷ []

run-returns_example :
    (b : Bool) × ((e : Engine) × (run test_app test_host endless 501025 ≡ some (b, e)))
run-returns_example =
    run-returns test_app test_host endless 501025 test_app-IsTame refl (omega arith)

abbrev real_start : Engine
real_start =
    record ((load_script (application_host real_app test_host) endless (negsuc 0) new_engine).1) {
      vm_state = record state_break { break = false };
    }

Reached-gas_example : real_start.gas_consumed ≤ℤ real_app.gas_amount
unfolding ◌+ℤ◌
Reached-gas_example =
    Reached-gas real_app test_host endless (negsuc 0) real_start
      (record { each_local = test_service-IsLocal }) refl refl (omega arith) run_start refl

storage_fee-covers_example :
    (n : ℕ) × (storage_fee 1000 25 ≡ 1000 * n)
    × (1 ≤ n)
    × (1000 + 25 ≤ 1024 * n)
    × ((n ≡ 1) ⊎ (1024 * (n - 1) < 1000 + 25))
storage_fee-covers_example = storage_fee-covers 1000 25

-- A host whose hash of a name is its letters in reverse, and a service without prices.
abbrev reversing : Host
reversing = record test_host { sha256 = reverse }

abbrev no_service : InteropService
no_service = record { dictionary = []; prices = [] }

-- A context with four numbers, 3 at the bottom.
abbrev with_properties : ExecutionContext
with_properties = record (new_engine.contexts 0) {
  evaluation_stack = record {
    items = integer (pos 3) ∷ integer (pos 0) ∷ integer (pos 0) ∷ integer (pos 0) ∷ [];
    size = 4;
  };
}

no_service-IsUnpriced :
    IsUnpriced reversing no_service (interop_hash reversing (encode (method_name neo_migrate)))
unfolding interop_hash token from_le service_price
no_service-IsUnpriced = record { free = refl; no_asset_create = refl; no_asset_renew = refl }

properties_at_three : peek (pos 3) with_properties.evaluation_stack ≡ some (integer (pos 3))
unfolding peek
properties_at_three = refl

get_price-contract_example :
    ((get_price reversing no_service new_engine.heap with_properties
          (record { op_code = OpCode.syscall; operand = encode (method_name neo_migrate) })
        ≡ none)
      × ((pos 3 <ℤ pos 0) ⊎ (pos 255 <ℤ pos 3)))
    ⊎ ((p : ℕ) × (pos 3 ≡ pos p)
        × (p ≤ 255)
        × (get_price reversing no_service new_engine.heap with_properties
              (record { op_code = OpCode.syscall; operand = encode (method_name neo_migrate) })
            ≡ some (pos (100000 + 400000 * (p % 2) + 500000 * (p / 2 % 2)))))
unfolding get_big_integer
get_price-contract_example =
    get_price-contract reversing no_service new_engine.heap neo_migrate with_properties
      (integer (pos 3)) (pos 3) no_service-IsUnpriced properties_at_three refl

abbrev some_name : List ℕ
some_name = encode "System.Runtime.Platform"

invoke-hash_example :
    invoke test_host test_service (take 4 some_name) ≡ invoke test_host test_service some_name
invoke-hash_example = invoke-hash test_host test_service some_name refl (omega arith)

abbrev add_instruction : Instruction
add_instruction = record { op_code = OpCode.add; operand = [] }

get_price-positive_example : (leb OpCode.add OpCode.nop ≡ true) ⊎ (pos 1 ≤ℤ pos 1)
unfolding get_price
get_price-positive_example =
    get_price-positive test_host test_service real_start.heap (real_start.contexts 0)
      add_instruction (pos 1) add_price refl
  where
    add_price :
        get_price test_host test_service real_start.heap (real_start.contexts 0) add_instruction
        ≡ some (pos 1)
    add_price = refl

-- The RET of the last context halts an engine that PreExecuteInstruction has refused.
abbrev poor_app : ApplicationEngine
poor_app = record { service = test_service; gas_amount = pos 0; test_mode = false }

abbrev summary : Option (Bool × Engine) → Option (Bool × ℤ)
summary none = none
summary (some (b, e)) = some (b, e.gas_consumed)

abbrev ret_script : List ℕ
ret_script = 0x66 ∷ []

run_poor : summary (run poor_app test_host ret_script 10) ≡ some (true, pos 100000)
unfolding dispatch execute_instruction fault_unless execute_guarded recover execute_next run_loop
    execute ◌>>=◌ pure raise return_early gets modify skip set_fault vm_fault_and_report fail_with
    fail_if get_instruction current_instruction jump_to move_next current_context pop_context
    commit_remove remove_context load_script_internal load_script load_found load_from_table
    loaded_or_fail run_stack write_stack pop_from push_on peek_at remove_from insert_into set_at
    pop_int pop_bytes pop_bool new_identity new_list new_dict push_int push_bytes push_bool
    push_list check_array_size check_max_item_size check_max_invocation_stack check_big_integer
    check_shift contained children item_count_loop cells_below get_item_count stack_items add_count
    recount check_stack_size require_stack_size report_stack_size note_stack_size push_t peek remove
    pop set_item insert clear copy_to copy_all_to from_script_and_ip instruction_size token_i16
    token_i16_1 token_u32 read_bytes op_pushdata op_pushint op_push0 op_add op_ret return_values
    copy_results copy_all_stack halt_if_empty ◌+ℤ◌ get_big_integer to_byte_array from_bytes
    clear_stack ◌-ℤ◌ run application_host pre_execute_instruction pre_execute_at charge consume
    is_refused get_price check_dynamic_invoke ◌*ℤ◌
run_poor = refl
