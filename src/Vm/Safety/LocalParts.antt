-- ===== src/Vm/Safety/LocalParts.antt =====
-- The parts of the jumps, calls and returns that leave the control state alone.
use neo_python.Prelude.{Bool, List, arith, false, if◌then◌else◌, refl, suc, true, zero, ℕ, ◌==◌}
use neo_python.Prelude.Int.{negsuc, pos, ℤ}
use neo_python.Vm.Control.{IsLocal, IsLocal-bind, IsLocal-skip, Quiet, Quiet-refl, Same, Same-refl}
use neo_python.Vm.Control.Primitives.{
  IsLocal-pop_from, Quiet-data, Quiet-put_stack, Same-data, Same-put_stack, op_rules,
}
use neo_python.Vm.Engine.Contexts.{current_context}
use neo_python.Vm.Engine.Monad.{modify}
use neo_python.Vm.Engine.Stacks.{StackName, evaluation}
use neo_python.Vm.Instruction.{Instruction}
use neo_python.Vm.Ops.Flow.{
  called_hash, clear_stack, copy_all_stack, copy_results, copy_stack, halt_if_empty, jump_condition,
  return_values,
}
use neo_python.Vm.Ops.Isolation.{drop_times, isolated_hash}
use neo_python.Vm.RandomAccessStack.{copy_to, empty}
use neo_python.Vm.State.{Engine, Host, state_halt}

module _ (from to : ℕ) where
  pub IsLocal-copy_all_stack : (w : StackName) → IsLocal (copy_all_stack from w to)
  unfolding copy_all_stack modify
  IsLocal-copy_all_stack w = record {
    at = λ e. Same-put_stack to w _ e;
    quiet = record { calm = λ e. Quiet-put_stack to w _ e };
  }

  pub IsLocal-copy_stack : (count : ℕ) → IsLocal (copy_stack from to count)
  unfolding copy_stack modify
  IsLocal-copy_stack count = record {
    at = λ e. Same-put_stack to evaluation _ e;
    quiet = record { calm = λ e. Quiet-put_stack to evaluation _ e };
  }

pub IsLocal-clear_stack : (c : ℕ) → IsLocal (clear_stack c)
unfolding clear_stack modify
IsLocal-clear_stack c = record {
  at = λ e. Same-put_stack c evaluation empty e;
  quiet = record { calm = λ e. Quiet-put_stack c evaluation empty e };
}

pub IsLocal-current_context : IsLocal current_context
unfolding current_context
IsLocal-current_context = search op_rules depth 20

pub IsLocal-jump_condition : (h : Host) (c op : ℕ) → IsLocal (jump_condition h c op)
unfolding jump_condition
IsLocal-jump_condition h c op = search op_rules depth 20

pub IsLocal-called_hash : (c : ℕ) (operand : List ℕ) → IsLocal (called_hash c operand)
unfolding called_hash
IsLocal-called_hash c operand = search op_rules depth 20

pub IsLocal-isolated_hash : (h : Host) (c : ℕ) (ins : Instruction) → IsLocal (isolated_hash h c ins)
unfolding isolated_hash
IsLocal-isolated_hash h c ins = search op_rules depth 20

pub IsLocal-drop_times : (n c : ℕ) → IsLocal (drop_times n c)
unfolding drop_times
IsLocal-drop_times zero c = IsLocal-skip
IsLocal-drop_times (suc n) c =
    IsLocal-bind _ _ (IsLocal-pop_from c evaluation) (λ _. IsLocal-drop_times n c)

IsLocal-to_results :
    (from count : ℕ)
    → IsLocal (
        modify (λ e. record e {
          result_stack = copy_to count (e.contexts from).evaluation_stack e.result_stack;
        }))
unfolding modify
IsLocal-to_results from count = record {
  at = λ e. Same-data e _ refl refl refl;
  quiet = record { calm = λ e. Quiet-data e _ refl refl refl };
}

IsLocal-copy_results : (from count : ℕ) → IsLocal (copy_results from count)
unfolding copy_results
IsLocal-copy_results from count =
    search (op_rules, IsLocal-to_results, IsLocal-current_context, IsLocal-copy_stack) depth 20

pub IsLocal-return_values : (from : ℕ) (rvcount : ℤ) → IsLocal (return_values from rvcount)
unfolding return_values
IsLocal-return_values from (pos zero) = IsLocal-skip
IsLocal-return_values from (pos (suc n)) = search (op_rules, IsLocal-copy_results) depth 20
IsLocal-return_values from (negsuc n) = IsLocal-skip

pub IsLocal-halt_if_empty : IsLocal halt_if_empty
unfolding halt_if_empty modify
IsLocal-halt_if_empty = record {
  at = λ e. go e (e.invocation_stack.size == 0);
  quiet = record { calm = λ e. calm_go e (e.invocation_stack.size == 0) };
}
  where
    go : (e : Engine) (b : Bool) → Same e (if b then record e { vm_state = state_halt } else e)
    go e true = Same-data e _ refl refl refl
    go e false = Same-refl e

    calm_go :
        (e : Engine) (b : Bool) → Quiet e (if b then record e { vm_state = state_halt } else e)
    calm_go e true = record {
      same_ops = refl;
      same_gas = refl;
      no_restart = λ r. absurd (ground (arith, r));
    }
    calm_go e false = Quiet-refl e
