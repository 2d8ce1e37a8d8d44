-- ===== src/Vm/Safety/Quiet.antt =====
-- neo/VM/ExecutionEngine.py, ExecuteInstruction: the counters, and the state of the engine once it has
-- stopped.
use neo_python.Prelude.{
  Bool, Bool-cases, List, Option, [], false, if◌then◌else◌, inl, inr, none, refl, some, true, ℕ,
  ◌++◌, ◌∷◌, ◌≡◌,
}
use neo_python.Prelude.Int.{ℤ}
use neo_python.Vm.Control.{IsLocal, IsQuiet, IsQuiet-bind, Quiet, Quiet-commit, Quiet-trans}
use neo_python.Vm.Control.Branches.{
  IsLocal-op_nop, IsLocal-op_throw, IsLocal-op_throwifnot, LocalBranches, collection_branches-local,
  crypto_branches-local, no_branch, numeric_branches-local, push_branches-local,
  splice_branches-local, stack_branches-local, takes, ◌◁◌,
}
use neo_python.Vm.Control.Primitives.{IsLocal-fail_with, Quiet-data, Quiet-fault, op_rules}
use neo_python.Vm.Engine.Contexts.{
  commit_remove, jump_to, load_found, load_from_table, load_script_internal, loaded_or_fail,
  move_next, pop_context, put_invocation_stack, remove_context,
}
use neo_python.Vm.Engine.Limits.{check_max_invocation_stack}
use neo_python.Vm.Engine.Monad.{modify}
use neo_python.Vm.Execute.{
  Branch, branches, collection_branches, crypto_branches, dispatch, execute_instruction,
  fault_unless, flow_branches, isolation_branches, numeric_branches, push_branches, settle,
  splice_branches, stack_branches,
}
use neo_python.Vm.Instruction.{Instruction, Script}
use neo_python.Vm.Ops.Flow.{
  offset_or_fail, op_appcall, op_call, op_jmp, op_ret, op_syscall, set_astray, set_pointer,
  start_at,
}
use neo_python.Vm.Ops.Isolation.{op_call_e, op_call_i}
use neo_python.Vm.RandomAccessStack.{pop, remove}
use neo_python.Vm.Safety.LocalParts.{
  IsLocal-called_hash, IsLocal-clear_stack, IsLocal-copy_all_stack, IsLocal-copy_stack,
  IsLocal-current_context, IsLocal-drop_times, IsLocal-halt_if_empty, IsLocal-isolated_hash,
  IsLocal-jump_condition, IsLocal-return_values,
}
use neo_python.Vm.State.{
  Action, Engine, ExecutionContext, Host, Result, VmFault, early, ok, raised, unknown_opcode,
}

pub IsQuiet-local : {A : Type 0} (m : Action A) → IsLocal m → IsQuiet m
IsQuiet-local m l = l.quiet

pub IsQuiet-if :
    {A : Type 0} (b : Bool) (m n : Action A) → IsQuiet m → IsQuiet n → IsQuiet (if b then m else n)
IsQuiet-if true m n km kn = km
IsQuiet-if false m n km kn = kn

pub ruleset quiet_rules = (IsQuiet-bind, IsQuiet-if, IsQuiet-local, op_rules)

IsQuiet-set_decoded :
    (f : Engine → ℕ → ExecutionContext) → IsQuiet (modify (λ e. record e { contexts = f e }))
unfolding modify
IsQuiet-set_decoded f = record { calm = λ e. Quiet-data e _ refl refl refl }

IsQuiet-set_pointer : (c p : ℕ) → IsQuiet (set_pointer c p)
IsQuiet-set_pointer c p = IsQuiet-set_decoded _

IsQuiet-jump_to : (c offset : ℕ) → IsQuiet (jump_to c offset)
unfolding jump_to
IsQuiet-jump_to c offset = search (quiet_rules, IsQuiet-set_decoded) depth 20

pub IsQuiet-move_next : (c : ℕ) → IsQuiet (move_next c)
unfolding move_next
IsQuiet-move_next c = search (quiet_rules, IsQuiet-jump_to) depth 20

IsQuiet-pop_context : IsQuiet pop_context
unfolding pop_context
IsQuiet-pop_context = record {
  calm = λ e.
      Quiet-commit (pop e.invocation_stack) put_invocation_stack e
        (λ s. Quiet-data e _ refl refl refl);
}

IsQuiet-commit_remove : (index : ℤ) → IsQuiet (commit_remove index)
unfolding commit_remove
IsQuiet-commit_remove index = record {
  calm = λ e.
      Quiet-commit (remove index e.invocation_stack) put_invocation_stack e
        (λ s. Quiet-data e _ refl refl refl);
}

IsQuiet-remove_context : (index : ℤ) → IsQuiet (remove_context index)
unfolding remove_context
IsQuiet-remove_context index = search (quiet_rules, IsQuiet-commit_remove)

IsQuiet-load_script_internal :
    (script : Script) (rvcount : ℤ) → IsQuiet (load_script_internal script rvcount)
unfolding load_script_internal
IsQuiet-load_script_internal script rvcount = record { calm = λ e. Quiet-data e _ refl refl refl }

IsQuiet-load_found :
    (script_hash : List ℕ) (rvcount : ℤ) (o : Option (List ℕ))
    → IsQuiet (load_found script_hash rvcount o)
unfolding load_found
IsQuiet-load_found script_hash rvcount none = search quiet_rules
IsQuiet-load_found script_hash rvcount (some script) =
    search (quiet_rules, IsQuiet-load_script_internal)

IsQuiet-load_from_table :
    (script_hash : List ℕ) (rvcount : ℤ) (t : Option (List ℕ → Option (List ℕ)))
    → IsQuiet (load_from_table script_hash rvcount t)
unfolding load_from_table
IsQuiet-load_from_table script_hash rvcount none = search quiet_rules
IsQuiet-load_from_table script_hash rvcount (some get_script) =
    search (quiet_rules, IsQuiet-load_found)

IsQuiet-loaded_or_fail : (o : Option ℕ) (id : VmFault) → IsQuiet (loaded_or_fail o id)
unfolding loaded_or_fail
IsQuiet-loaded_or_fail none id = search quiet_rules
IsQuiet-loaded_or_fail (some c) id = search quiet_rules

IsQuiet-offset_or_fail : (o : Option ℕ) → IsQuiet (offset_or_fail o)
IsQuiet-offset_or_fail none = search quiet_rules
IsQuiet-offset_or_fail (some p) = search quiet_rules

IsQuiet-set_astray : (c : ℕ) (z : ℤ) → IsQuiet (set_astray c z)
IsQuiet-set_astray c z = IsQuiet-set_decoded _

IsQuiet-start_at : (c : ℕ) (z : ℤ) (o : Option ℕ) → IsQuiet (start_at c z o)
unfolding start_at
IsQuiet-start_at c z none = search (quiet_rules, IsQuiet-set_astray)
IsQuiet-start_at c z (some p) = IsQuiet-set_pointer c p

IsQuiet-check_room : IsQuiet check_max_invocation_stack
unfolding check_max_invocation_stack
IsQuiet-check_room = search quiet_rules

ruleset flow_rules = (
  quiet_rules, IsQuiet-set_pointer, IsQuiet-jump_to, IsQuiet-pop_context, IsQuiet-remove_context,
  IsQuiet-load_script_internal, IsQuiet-load_from_table, IsQuiet-loaded_or_fail,
  IsQuiet-offset_or_fail, IsQuiet-start_at, IsQuiet-check_room, IsLocal-copy_all_stack,
  IsLocal-copy_stack, IsLocal-clear_stack, IsLocal-current_context, IsLocal-jump_condition,
  IsLocal-called_hash, IsLocal-isolated_hash, IsLocal-drop_times, IsLocal-return_values,
  IsLocal-halt_if_empty,
)

module _ (h : Host) (c : ℕ) (ins : Instruction) where
  IsQuiet-op_jmp : IsQuiet (op_jmp h c ins)
  unfolding op_jmp
  IsQuiet-op_jmp = search flow_rules depth 30

  IsQuiet-op_call : IsQuiet (op_call h c ins)
  unfolding op_call
  IsQuiet-op_call = search flow_rules depth 30

  IsQuiet-op_ret : IsQuiet (op_ret h c ins)
  unfolding op_ret
  IsQuiet-op_ret = search flow_rules depth 30

  IsQuiet-op_appcall : IsQuiet (op_appcall h c ins)
  unfolding op_appcall
  IsQuiet-op_appcall = search flow_rules depth 30

  IsQuiet-op_call_i : IsQuiet (op_call_i h c ins)
  unfolding op_call_i
  IsQuiet-op_call_i = search flow_rules depth 30

  IsQuiet-op_call_e : IsQuiet (op_call_e h c ins)
  unfolding op_call_e
  IsQuiet-op_call_e = search flow_rules depth 30

  module _ (l : (bs : List ℕ) → IsLocal (h.service_invoke bs)) where
    IsQuiet-op_syscall : IsQuiet (op_syscall h c ins)
    unfolding op_syscall
    IsQuiet-op_syscall = search (flow_rules, l) depth 30

  -- Each branch of a list that takes the opcode is quiet.
  QuietBranches : List Branch → Type 0
  QuietBranches [] = Unit
  QuietBranches (b ∷ bs) =
      (takes b ins.op_code ≡ true → IsQuiet (b.handler h c ins)) × QuietBranches bs

  QuietBranches-local : (bs : List Branch) → LocalBranches ins.op_code bs → QuietBranches bs
  unfolding QuietBranches
  QuietBranches-local _ no_branch = tt
  QuietBranches-local (b ∷ bs) (k ◁ ks) = (λ t. (k t h c ins).quiet, QuietBranches-local bs ks)

  QuietBranches-append :
      (xs ys : List Branch) → QuietBranches xs → QuietBranches ys → QuietBranches (xs ++ ys)
  unfolding QuietBranches
  QuietBranches-append [] ys p q = q
  QuietBranches-append (x ∷ xs) ys (t, p) q = (t, QuietBranches-append xs ys p q)

  IsQuiet-dispatch_all : (bs : List Branch) → QuietBranches bs → IsQuiet (dispatch bs h c ins)
  unfolding dispatch QuietBranches
  IsQuiet-dispatch_all [] p = (IsLocal-fail_with unknown_opcode).quiet
  IsQuiet-dispatch_all (b ∷ bs) (t, p) = elim (Bool-cases (takes b ins.op_code)) [
    | inl taken ↦ rw taken (t taken)
    | inr passed ↦ rw passed (IsQuiet-dispatch_all bs p)
  ]

  module _ (l : (bs : List ℕ) → IsLocal (h.service_invoke bs)) where
    flow_quiet : QuietBranches flow_branches
    unfolding QuietBranches
    flow_quiet = (
      λ _. (IsLocal-op_nop h c ins).quiet,
      (
        λ _. IsQuiet-op_jmp,
        (
          λ _. IsQuiet-op_call,
          (
            λ _. IsQuiet-op_ret,
            (λ _. IsQuiet-op_appcall, (λ _. IsQuiet-op_appcall, (λ _. IsQuiet-op_syscall l, tt))),
          ),
        ),
      ),
    )

    isolation_quiet : QuietBranches isolation_branches
    unfolding QuietBranches
    isolation_quiet = (
      λ _. IsQuiet-op_call_i,
      (
        λ _. IsQuiet-op_call_e,
        (λ _. (IsLocal-op_throw h c ins).quiet, (λ _. (IsLocal-op_throwifnot h c ins).quiet, tt)),
      ),
    )

    pub IsQuiet-dispatch : IsQuiet (dispatch branches h c ins)
    IsQuiet-dispatch =
        let op = ins.op_code in
        IsQuiet-dispatch_all branches (
          QuietBranches-append push_branches _ (QuietBranches-local _ (push_branches-local op)) (
            QuietBranches-append flow_branches _ flow_quiet (
              QuietBranches-append stack_branches _
                (QuietBranches-local _ (stack_branches-local op))
                (QuietBranches-append splice_branches _
                  (QuietBranches-local _ (splice_branches-local op))
                  (QuietBranches-append numeric_branches _
                    (QuietBranches-local _ (numeric_branches-local op))
                    (QuietBranches-append crypto_branches _
                      (QuietBranches-local _ (crypto_branches-local op))
                      (QuietBranches-append collection_branches _
                        (QuietBranches-local _ (collection_branches-local op))
                        isolation_quiet)))))))

-- Whatever the instruction and however it ends, ExecuteInstruction leaves the counters of operations
-- and of gas alone, and an engine that had stopped does not run again.
pub IsQuiet-execute_instruction :
    (h : Host) → ((bs : List ℕ) → IsLocal (h.service_invoke bs)) → IsQuiet (execute_instruction h)
unfolding execute_instruction
IsQuiet-execute_instruction h l =
    search (quiet_rules, IsLocal-current_context, IsQuiet-dispatch, IsQuiet-move_next, l) depth 20

Quiet-settle : (r : Result Bool) (d e : Engine) → Quiet d e → Quiet d (settle r e).1
Quiet-settle (ok true) d e q = q
Quiet-settle (ok false) d e q = Quiet-trans q (Quiet-fault e)
Quiet-settle (early true) d e q = q
Quiet-settle (early false) d e q = Quiet-trans q (Quiet-fault e)
Quiet-settle raised d e q = q

pub IsQuiet-fault_unless : (m : Action Bool) → IsQuiet m → IsQuiet (fault_unless m)
unfolding fault_unless
IsQuiet-fault_unless m k = record { calm = λ e. Quiet-settle (m e).0 e (m e).1 (k.calm e) }
