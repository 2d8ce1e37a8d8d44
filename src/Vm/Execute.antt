-- ===== src/Vm/Execute.antt =====
-- neo/VM/ExecutionEngine.py: ExecuteInstruction, ExecuteNext and Execute.
pub mod Runs
use neo_python.Prelude.{
  Bool, List, Option, [], false, if◌then◌else◌, leb, none, not, some, suc, true, zero, ℕ, ◌&&◌,
  ◌++◌, ◌+◌, ◌==◌, ◌∷◌,
}
use neo_python.Prelude.Int.{negsuc, pos}
use neo_python.Vm.Engine.Contexts.{
  current_context, current_instruction, move_next, new_execution_context,
}
use neo_python.Vm.Engine.Monad.{fail_with, gets, or_raise, pure, ◌>>=◌, ◌>>◌}
use neo_python.Vm.Instruction.{Instruction}
use neo_python.Vm.Ops.Collections.{
  op_append, op_arraysize, op_haskey, op_keys, op_newarray, op_newmap, op_pack, op_pickitem,
  op_remove, op_reverse, op_setitem, op_unpack, op_values,
}
use neo_python.Vm.Ops.Crypto.{
  op_checkmultisig, op_checksig, op_hash160, op_hash256, op_sha1, op_sha256, op_verify,
}
use neo_python.Vm.Ops.Flow.{
  op_appcall, op_call, op_jmp, op_nop, op_ret, op_syscall, op_throw, op_throwifnot,
}
use neo_python.Vm.Ops.Isolation.{op_call_e, op_call_i}
use neo_python.Vm.Ops.Numeric.{
  op_abs, op_add, op_booland, op_boolor, op_dec, op_div, op_gt, op_gte, op_inc, op_lt, op_lte,
  op_max, op_min, op_mod, op_mul, op_negate, op_not, op_numequal, op_numnotequal, op_nz, op_shl,
  op_shr, op_sign, op_sub, op_within,
}
use neo_python.Vm.Ops.Push.{op_push0, op_pushdata, op_pushint}
use neo_python.Vm.Ops.Splice.{
  op_and, op_cat, op_equal, op_invert, op_left, op_or, op_right, op_size, op_substr, op_xor,
}
use neo_python.Vm.Ops.Stack.{
  op_depth, op_drop, op_dup, op_dupfromaltstack, op_fromaltstack, op_nip, op_over, op_pick, op_roll,
  op_rot, op_swap, op_toaltstack, op_tuck, op_xdrop, op_xswap, op_xtuck,
}
use neo_python.Vm.RandomAccessStack.{empty}
use neo_python.Vm.State.{
  Action, Engine, Host, Result, early, is_running, ok, raised, state_break, state_fault, state_halt,
  unknown_opcode,
}
use neo_python.Vm.OpCode
use neo_python.Vm.Ops.Push
use neo_python.Vm.Ops.Flow
use neo_python.Vm.Ops.Stack
use neo_python.Vm.Ops.Splice
use neo_python.Vm.Ops.Numeric
use neo_python.Vm.Ops.Crypto
use neo_python.Vm.Ops.Collections
use neo_python.Vm.Ops.Isolation

abbrev pub Handler : Type 0
Handler = Host → ℕ → Instruction → Action (Unit {0})

-- A branch of the chain: the opcodes from the first number to the second, and what they do.
pub record Branch : Type 0 where
  pub first : ℕ
  pub last : ℕ
  pub handler : Handler

abbrev one : ℕ → Handler → Branch
one op f = record { first = op; last = op; handler = f }

abbrev span : ℕ → ℕ → Handler → Branch
span a b f = record { first = a; last = b; handler = f }

-- The branches of ExecuteInstruction, in the order of the source.
abbrev pub push_branches : List Branch
push_branches =
    span OpCode.pushbytes1 OpCode.pushdata4 Push.op_pushdata
    ∷ one OpCode.pushm1 Push.op_pushint
    ∷ span OpCode.push1 OpCode.push16 Push.op_pushint
    ∷ one OpCode.push0 Push.op_push0
    ∷ []

abbrev pub flow_branches : List Branch
flow_branches =
    one OpCode.nop Flow.op_nop
    ∷ span OpCode.jmp OpCode.jmpifnot Flow.op_jmp
    ∷ one OpCode.call Flow.op_call
    ∷ one OpCode.ret Flow.op_ret
    ∷ one OpCode.appcall Flow.op_appcall
    ∷ one OpCode.tailcall Flow.op_appcall
    ∷ one OpCode.syscall Flow.op_syscall
    ∷ []

abbrev pub stack_branches : List Branch
stack_branches =
    one OpCode.dupfromaltstack Stack.op_dupfromaltstack
    ∷ one OpCode.toaltstack Stack.op_toaltstack
    ∷ one OpCode.fromaltstack Stack.op_fromaltstack
    ∷ one OpCode.xdrop Stack.op_xdrop
    ∷ one OpCode.xswap Stack.op_xswap
    ∷ one OpCode.xtuck Stack.op_xtuck
    ∷ one OpCode.depth Stack.op_depth
    ∷ one OpCode.drop Stack.op_drop
    ∷ one OpCode.dup Stack.op_dup
    ∷ one OpCode.nip Stack.op_nip
    ∷ one OpCode.over Stack.op_over
    ∷ one OpCode.pick Stack.op_pick
    ∷ one OpCode.roll Stack.op_roll
    ∷ one OpCode.rot Stack.op_rot
    ∷ one OpCode.swap Stack.op_swap
    ∷ one OpCode.tuck Stack.op_tuck
    ∷ []

abbrev pub splice_branches : List Branch
splice_branches =
    one OpCode.cat Splice.op_cat
    ∷ one OpCode.substr Splice.op_substr
    ∷ one OpCode.left Splice.op_left
    ∷ one OpCode.right Splice.op_right
    ∷ one OpCode.size Splice.op_size
    ∷ one OpCode.invert Splice.op_invert
    ∷ one OpCode.and Splice.op_and
    ∷ one OpCode.or Splice.op_or
    ∷ one OpCode.xor Splice.op_xor
    ∷ one OpCode.equal Splice.op_equal
    ∷ []

abbrev pub numeric_branches : List Branch
numeric_branches =
    one OpCode.inc Numeric.op_inc
    ∷ one OpCode.dec Numeric.op_dec
    ∷ one OpCode.sign Numeric.op_sign
    ∷ one OpCode.negate Numeric.op_negate
    ∷ one OpCode.abs Numeric.op_abs
    ∷ one OpCode.not Numeric.op_not
    ∷ one OpCode.nz Numeric.op_nz
    ∷ one OpCode.add Numeric.op_add
    ∷ one OpCode.sub Numeric.op_sub
    ∷ one OpCode.mul Numeric.op_mul
    ∷ one OpCode.div Numeric.op_div
    ∷ one OpCode.modulo Numeric.op_mod
    ∷ one OpCode.shl Numeric.op_shl
    ∷ one OpCode.shr Numeric.op_shr
    ∷ one OpCode.booland Numeric.op_booland
    ∷ one OpCode.boolor Numeric.op_boolor
    ∷ one OpCode.numequal Numeric.op_numequal
    ∷ one OpCode.numnotequal Numeric.op_numnotequal
    ∷ one OpCode.lt Numeric.op_lt
    ∷ one OpCode.gt Numeric.op_gt
    ∷ one OpCode.lte Numeric.op_lte
    ∷ one OpCode.gte Numeric.op_gte
    ∷ one OpCode.min Numeric.op_min
    ∷ one OpCode.max Numeric.op_max
    ∷ one OpCode.within Numeric.op_within
    ∷ []

abbrev pub crypto_branches : List Branch
crypto_branches =
    one OpCode.sha1 Crypto.op_sha1
    ∷ one OpCode.sha256 Crypto.op_sha256
    ∷ one OpCode.hash160 Crypto.op_hash160
    ∷ one OpCode.hash256 Crypto.op_hash256
    ∷ one OpCode.checksig Crypto.op_checksig
    ∷ one OpCode.verify Crypto.op_verify
    ∷ one OpCode.checkmultisig Crypto.op_checkmultisig
    ∷ []

abbrev pub collection_branches : List Branch
collection_branches =
    one OpCode.arraysize Collections.op_arraysize
    ∷ one OpCode.pack Collections.op_pack
    ∷ one OpCode.unpack Collections.op_unpack
    ∷ one OpCode.pickitem Collections.op_pickitem
    ∷ one OpCode.setitem Collections.op_setitem
    ∷ one OpCode.newarray Collections.op_newarray
    ∷ one OpCode.newstruct Collections.op_newarray
    ∷ one OpCode.newmap Collections.op_newmap
    ∷ one OpCode.append Collections.op_append
    ∷ one OpCode.reverse Collections.op_reverse
    ∷ one OpCode.remove Collections.op_remove
    ∷ one OpCode.haskey Collections.op_haskey
    ∷ one OpCode.keys Collections.op_keys
    ∷ one OpCode.values Collections.op_values
    ∷ []

abbrev pub isolation_branches : List Branch
isolation_branches =
    one OpCode.call_i Isolation.op_call_i
    ∷ span OpCode.call_e OpCode.call_edt Isolation.op_call_e
    ∷ one OpCode.throw Flow.op_throw
    ∷ one OpCode.throwifnot Flow.op_throwifnot
    ∷ []

abbrev pub branches : List Branch
branches =
    push_branches
    ++ (flow_branches
        ++ (stack_branches
            ++ (splice_branches
                ++ (numeric_branches
                    ++ (crypto_branches ++ (collection_branches ++ isolation_branches))))))

-- The first branch that takes the opcode; none is UNKNOWN_OPCODE.
unfoldable pub dispatch : List Branch → Handler
dispatch [] h c ins = fail_with unknown_opcode
dispatch (b ∷ bs) h c ins =
    if leb b.first ins.op_code && leb ins.op_code b.last
    then b.handler h c ins
    else dispatch bs h c ins

-- ExecuteInstruction
unfoldable pub execute_instruction : Host → Action Bool
execute_instruction h = do
  c ← current_context
  ins ← or_raise (← gets (λ e. current_instruction (e.contexts c)))
  dispatch branches h c ins
  move_next c
  pure true

-- The result of a method, where an early return is its result too.
abbrev pub settle : Result Bool → Action (Unit {0})
settle (ok true) e = (ok tt, e)
settle (ok false) e = (ok tt, record e { vm_state = state_fault })
settle (early true) e = (ok tt, e)
settle (early false) e = (ok tt, record e { vm_state = state_fault })
settle raised e = (raised, e)

-- `if not self.m(): self._VMState = VmState.FAULT`
unfoldable pub fault_unless : Action Bool → Action (Unit {0})
fault_unless m e = let (r, e') = m e in settle r e'

-- The body of the `try` of ExecuteNext, without its lines for the log.
unfoldable pub execute_guarded : Host → Action (Unit {0})
execute_guarded h = do
  c ← current_context
  ins ← or_raise (← gets (λ e. current_instruction (e.contexts c)))
  fault_unless h.pre_execute_instruction
  fault_unless (execute_instruction h)
  fault_unless h.post_execute_instruction

-- `except Exception`: the state that the exception left, and FAULT if the engine exits on errors.
unfoldable pub recover : Host → Result (Unit {0}) × Engine → Engine
recover h (ok _, e) = e
recover h (early _, e) = e
recover h (raised, e) = if h.exit_on_error then record e { vm_state = state_fault } else e

-- ExecuteNext
unfoldable pub execute_next : Host → Engine → Engine
execute_next h e =
    if e.invocation_stack.size == 0
    then record e { vm_state = state_halt }
    else recover h (execute_guarded h (record e { ops_processed = e.ops_processed + 1 }))

-- The loop of Execute with fuel: none when it runs out.
unfoldable pub run_loop : Host → ℕ → Engine → Option Engine
run_loop h zero e = if is_running e.vm_state then none else some e
run_loop h (suc fuel) e =
    let rest = run_loop h fuel (execute_next h e) in if is_running e.vm_state then rest else some e

-- Execute: clears BREAK and loops; True unless the engine faulted.
unfoldable pub execute : Host → ℕ → Engine → Option (Bool × Engine)
execute h fuel e =
    elim (run_loop h fuel (record e { vm_state = record e.vm_state { break = false } })) [
      | none ↦ none
      | some e' ↦ some (not e'.vm_state.fault, e')
    ]

-- ExecutionEngine.__init__
abbrev pub new_engine : Engine
new_engine = record {
  vm_state = state_break;
  invocation_stack = empty;
  result_stack = empty;
  executed_script_hashes = [];
  ops_processed = 0;
  gas_consumed = pos 0;
  contract_properties = λ _. none;
  is_stackitem_count_strict = true;
  stackitem_count = 0;
  contexts = λ _. new_execution_context (record { value = []; script_hash = [] }) (negsuc 0);
  next_context = 0;
  heap = record { next = 0; arrays = λ _. []; maps = λ _. [] };
}
