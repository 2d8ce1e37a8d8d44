-- ===== src/Vm/State.antt =====
-- neo/VM/ExecutionEngine.py, ExecutionContext.py, VMState.py and VMFault.py: the state of the engine,
-- and what it takes from outside.
use neo_python.Prelude.{Bool, List, Option, false, not, true, ℕ, ◌&&◌}
use neo_python.Prelude.Int.{ℤ}
use neo_python.Vm.Instruction.{Instruction, Script}
use neo_python.Vm.RandomAccessStack.{RandomAccessStack}
use neo_python.Vm.StackItem.{Heap, StackItem}

-- VmState: an integer of three bits. NONE has none of them.
pub record VmState : Type 0 where
  pub halt : Bool
  pub fault : Bool
  pub break : Bool

abbrev pub is_running : VmState → Bool
is_running s = not s.halt && (not s.fault && not s.break)

abbrev pub state_break : VmState
state_break = record { halt = false; fault = false; break = true }

abbrev pub state_halt : VmState
state_halt = record { halt = true; fault = false; break = false }

abbrev pub state_fault : VmState
state_fault = record { halt = false; fault = true; break = false }

-- VmFault: what is reported to the log when an instruction fails.
pub data VmFault : Type 0 where
  unknown1 invalid_jump unknown2 invalid_contract syscall_error syscall_insufficient_data : VmFault
  unknown3 unknown4 unknown5 unknown6 substr_invalid_length substr_invalid_index : VmFault
  left_invalid_count right_invalid_count right_unknown : VmFault
  checkmultisig_invalid_publickey_count checkmultisig_signature_error unknown7 unknown8 : VmFault
  unpack_invalid_type pickitem_negative_index pickitem_invalid_type pickitem_invalid_index : VmFault
  setitem_invalid_type setitem_invalid_index append_invalid_type reverse_invalid_type : VmFault
  remove_invalid_type remove_invalid_index pop_item_not_array dict_key_not_found : VmFault
  dict_key_error key_is_collection throw throwifnot unknown_opcode : VmFault
  unknown_stackisolation unknown_stackisolation2 unknown_stackisolation3 : VmFault
  setitem_invalid_map newarray_exceed_arraylimit newarray_negative_count : VmFault
  newstruct_exceed_arraylimit newstruct_negative_count append_exceed_arraylimit : VmFault
  pushdata_exceed_maxitemsize cat_exceed_maxitemsize : VmFault
  call_exceed_max_invocationstack_size call_i_exceed_max_invocationstack_size : VmFault
  appcall_exceed_max_invocationstack_size unknown_exceed_max_invocationstack_size : VmFault
  biginteger_exceed_limit invalid_shift invalid_stacksize : VmFault

-- ExecutionContext. The cache of decoded instructions is left out: an instruction depends on the
-- script and the pointer alone. `ins` is None until the context has moved. InstructionPointer is
-- `instruction_pointer`, or what `astray` holds: the place outside of the script to which CALL or CALL_I
-- set it before they failed. The engine has then faulted and decodes no more.
pub record ExecutionContext : Type 0 where
  pub script : Script
  pub evaluation_stack : RandomAccessStack StackItem
  pub alt_stack : RandomAccessStack StackItem
  pub instruction_pointer : ℕ
  pub astray : Option ℤ
  pub rv_count : ℤ
  pub ins : Option Instruction

-- ExecutionEngine. Contexts are objects that outlive the invocation stack for the rest of an
-- instruction, so the stack holds references to them. `gas_consumed` is the counter of ApplicationEngine, and `contract_properties` the contracts of its snapshot.
pub record Engine : Type 0 where
  pub vm_state : VmState
  pub invocation_stack : RandomAccessStack ℕ
  pub result_stack : RandomAccessStack StackItem
  pub executed_script_hashes : List (List ℕ)
  pub ops_processed : ℕ
  pub gas_consumed : ℤ
  pub contract_properties : List ℕ → Option ℕ
  pub is_stackitem_count_strict : Bool
  pub stackitem_count : ℕ
  pub contexts : ℕ → ExecutionContext
  pub next_context : ℕ
  pub heap : Heap

-- What an action gives: a value, the result of a `return` in the middle of an instruction, or an
-- exception. The state comes back in each case, since what was written stays written.
pub data Result (A : Type 0) : Type 0 where
  ok : A → Result A
  early : Bool → Result A
  raised : Result A

abbrev pub Action : Type 0 → Type 0
Action A = Engine → Result A × Engine

-- What the engine is given: the crypto functions (`verify_signature` is told by `unhex` whether the
-- message may be hexadecimal text, and is `none` where it raises), the script table or None, the
-- message of the script container or None, the interop service, the methods that a subclass
-- overrides, `==` of the wrapped objects, and Python's recursion limit.
pub record Host : Type 0 where
  pub hash160 : List ℕ → List ℕ
  pub hash256 : List ℕ → List ℕ
  pub sha1 : List ℕ → List ℕ
  pub sha256 : List ℕ → List ℕ
  pub verify_signature : Bool → List ℕ → List ℕ → List ℕ → Option Bool
  pub message : Option (List ℕ)
  pub table : Option (List ℕ → Option (List ℕ))
  pub service_invoke : List ℕ → Action Bool
  pub pre_execute_instruction : Action Bool
  pub post_execute_instruction : Action Bool
  pub object_eq : ℕ → ℕ → Bool
  pub recursion_limit : ℕ
  pub exit_on_error : Bool
