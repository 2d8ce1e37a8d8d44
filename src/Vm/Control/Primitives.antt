-- ===== src/Vm/Control/Primitives.antt =====
-- The primitive actions on stacks, heap and counters leave the control state alone.
use neo_python.Prelude.{
  Bool, Bool-cases, List, Option, arith, inl, inr, none, refl, some, sym, ℕ, ◌==◌, ◌≡◌,
}
use neo_python.Prelude.Int.{ℤ}
use neo_python.Vm.Control.{
  IsLocal, IsLocal-still, Quiet, Quiet-commit, Quiet-refl, Same, Same-refl, SameControl,
  SameControl-refl, local_rules,
}
use neo_python.Vm.Engine.Limits.{
  ItemCount, check_stack_size, count_raised, counted_items, note_count, note_stack_size, recount,
  report_stack_size, require_stack_size, stuck,
}
use neo_python.Vm.Engine.Monad.{
  commit, commit_unit, fail_if, fail_with, modify, set_fault, vm_fault_and_report,
}
use neo_python.Vm.Engine.Stacks.{
  StackName, alternative, evaluation, insert_into, new_dict, new_identity, new_list, peek_at,
  pop_bool, pop_bytes, pop_from, pop_int, push_bool, push_bytes, push_int, push_list, push_on,
  put_stack, remove_from, run_stack, set_at, stack_of, with_stack, write_dict, write_list,
  write_stack,
}
use neo_python.Vm.RandomAccessStack.{RandomAccessStack}
use neo_python.Vm.StackItem.{StackItem, update}
use neo_python.Vm.State.{Engine, ExecutionContext, Host, VmFault, state_fault}

SameControl-with_stack :
    (w : StackName) (s : RandomAccessStack StackItem) (a : ExecutionContext)
    → SameControl a (with_stack w s a)
SameControl-with_stack evaluation s a = record {
  same_script = refl;
  same_pointer = refl;
  same_astray = refl;
  same_ins = refl;
  same_rv_count = refl;
}
SameControl-with_stack alternative s a = record {
  same_script = refl;
  same_pointer = refl;
  same_astray = refl;
  same_ins = refl;
  same_rv_count = refl;
}

SameControl-update :
    (f : ℕ → ExecutionContext) (c : ℕ) (b : ExecutionContext)
    → SameControl (f c) b
    → (i : ℕ) → SameControl (f i) (update f c b i)
SameControl-update f c b h i = elim (Bool-cases (i == c)) [
  | inl same ↦ let e : i ≡ c = ground arith in rw (same, e) h
  | inr other ↦ rw other (SameControl-refl (f i))
]

pub Same-put_stack :
    (c : ℕ) (w : StackName) (s : RandomAccessStack StackItem) (e : Engine)
    → Same e (put_stack c w s e)
Same-put_stack c w s e = record {
  same_stack = refl;
  same_next = refl;
  same_context = SameControl-update e.contexts c _ (SameControl-with_stack w s (e.contexts c));
}

-- An engine that differs in the parts that are no control state.
pub Same-data :
    (e d : Engine)
    → d.invocation_stack ≡ e.invocation_stack
    → d.next_context ≡ e.next_context
    → d.contexts ≡ e.contexts
    → Same e d
Same-data e d p q r = record {
  same_stack = p;
  same_next = q;
  same_context = λ c. rw r (SameControl-refl (e.contexts c));
}

pub Quiet-data :
    (e d : Engine)
    → d.ops_processed ≡ e.ops_processed
    → d.gas_consumed ≡ e.gas_consumed
    → d.vm_state ≡ e.vm_state
    → Quiet e d
Quiet-data e d p q s = record { same_ops = p; same_gas = q; no_restart = λ r. rw (sym s) r }

pub Quiet-fault : (e : Engine) → Quiet e (record e { vm_state = state_fault })
Quiet-fault e = record {
  same_ops = refl;
  same_gas = refl;
  no_restart = λ r. absurd (ground (arith, r));
}

pub Quiet-put_stack :
    (c : ℕ) (w : StackName) (s : RandomAccessStack StackItem) (e : Engine)
    → Quiet e (put_stack c w s e)
Quiet-put_stack c w s e = Quiet-data e _ refl refl refl

pub IsLocal-run_stack :
    {A : Type 0} (c : ℕ) (w : StackName)
    (f : RandomAccessStack StackItem → Option (A × RandomAccessStack StackItem))
    → IsLocal (run_stack c w f)
unfolding run_stack
IsLocal-run_stack {A} c w f = record {
  at = λ e. go e (f (stack_of w (e.contexts c)));
  quiet = record {
    calm = λ e.
        Quiet-commit (f (stack_of w (e.contexts c))) (put_stack c w) e
          (λ s. Quiet-put_stack c w s e);
  };
}
  where
    go :
        (e : Engine) (o : Option (A × RandomAccessStack StackItem))
        → Same e (commit o (put_stack c w) e).1
    go e none = Same-refl e
    go e (some (a, s)) = Same-put_stack c w s e

pub IsLocal-write_stack :
    (c : ℕ) (w : StackName) (f : RandomAccessStack StackItem → Option (RandomAccessStack StackItem))
    → IsLocal (write_stack c w f)
unfolding write_stack
IsLocal-write_stack c w f = record {
  at = λ e. go e (f (stack_of w (e.contexts c)));
  quiet = record { calm = λ e. calm_go e (f (stack_of w (e.contexts c))) };
}
  where
    go :
        (e : Engine) (o : Option (RandomAccessStack StackItem))
        → Same e (commit_unit o (put_stack c w) e).1
    go e none = Same-refl e
    go e (some s) = Same-put_stack c w s e

    calm_go :
        (e : Engine) (o : Option (RandomAccessStack StackItem))
        → Quiet e (commit_unit o (put_stack c w) e).1
    calm_go e none = Quiet-refl e
    calm_go e (some s) = Quiet-put_stack c w s e

pub IsLocal-vm_fault_and_report : (id : VmFault) → IsLocal (vm_fault_and_report id)
unfolding vm_fault_and_report
IsLocal-vm_fault_and_report id = record {
  at = λ e. Same-data e _ refl refl refl;
  quiet = record { calm = Quiet-fault };
}

pub IsLocal-set_fault : IsLocal set_fault
unfolding set_fault
IsLocal-set_fault = record {
  at = λ e. Same-data e _ refl refl refl;
  quiet = record { calm = Quiet-fault };
}

pub IsLocal-new_identity : IsLocal new_identity
unfolding new_identity
IsLocal-new_identity = record {
  at = λ e. Same-data e _ refl refl refl;
  quiet = record { calm = λ e. Quiet-data e _ refl refl refl };
}

pub IsLocal-new_list : (xs : List StackItem) → IsLocal (new_list xs)
unfolding new_list
IsLocal-new_list xs = record {
  at = λ e. Same-data e _ refl refl refl;
  quiet = record { calm = λ e. Quiet-data e _ refl refl refl };
}

pub IsLocal-new_dict : (d : List (StackItem × StackItem)) → IsLocal (new_dict d)
unfolding new_dict
IsLocal-new_dict d = record {
  at = λ e. Same-data e _ refl refl refl;
  quiet = record { calm = λ e. Quiet-data e _ refl refl refl };
}

pub IsLocal-write_list : (r : ℕ) (xs : List StackItem) → IsLocal (write_list r xs)
unfolding modify
IsLocal-write_list r xs = record {
  at = λ e. Same-data e _ refl refl refl;
  quiet = record { calm = λ e. Quiet-data e _ refl refl refl };
}

pub IsLocal-write_dict : (r : ℕ) (d : List (StackItem × StackItem)) → IsLocal (write_dict r d)
unfolding modify
IsLocal-write_dict r d = record {
  at = λ e. Same-data e _ refl refl refl;
  quiet = record { calm = λ e. Quiet-data e _ refl refl refl };
}

IsLocal-recount : (n : ItemCount) → IsLocal (recount n)
unfolding recount
IsLocal-recount (counted_items n) = record {
  at = λ e. Same-data e _ refl refl refl;
  quiet = record { calm = λ e. Quiet-data e _ refl refl refl };
}
IsLocal-recount count_raised = IsLocal-still _ (λ e. refl)
IsLocal-recount stuck = IsLocal-still _ (λ e. refl)

IsLocal-note_count : (strict : Bool) (count : ℤ) → IsLocal (modify (note_count strict count))
unfolding modify
IsLocal-note_count strict count = record {
  at = λ e. Same-data e _ refl refl refl;
  quiet = record { calm = λ e. Quiet-data e _ refl refl refl };
}

pub IsLocal-check_stack_size :
    (h : Host) (strict : Bool) (count : ℤ) → IsLocal (check_stack_size h strict count)
unfolding check_stack_size
IsLocal-check_stack_size h strict count =
    search (local_rules, IsLocal-note_count, IsLocal-recount) depth 20

pub ruleset primitive_rules = (
  local_rules, IsLocal-run_stack, IsLocal-write_stack, IsLocal-vm_fault_and_report,
  IsLocal-set_fault, IsLocal-new_identity, IsLocal-new_list, IsLocal-new_dict, IsLocal-write_list,
  IsLocal-write_dict, IsLocal-check_stack_size,
)

pub IsLocal-fail_with : {A : Type 0} (id : VmFault) → IsLocal (fail_with {A = A} id)
unfolding fail_with
IsLocal-fail_with id = search primitive_rules

pub IsLocal-fail_if : (b : Bool) (id : VmFault) → IsLocal (fail_if b id)
unfolding fail_if
IsLocal-fail_if b id = search (primitive_rules, IsLocal-fail_with)

pub IsLocal-require_stack_size :
    (h : Host) (strict : Bool) (count : ℤ) → IsLocal (require_stack_size h strict count)
unfolding require_stack_size
IsLocal-require_stack_size h strict count = search (primitive_rules, IsLocal-fail_if)

pub IsLocal-report_stack_size :
    (h : Host) (strict : Bool) (count : ℤ) → IsLocal (report_stack_size h strict count)
unfolding report_stack_size
IsLocal-report_stack_size h strict count = search primitive_rules depth 10

pub IsLocal-note_stack_size :
    (h : Host) (strict : Bool) (count : ℤ) → IsLocal (note_stack_size h strict count)
unfolding note_stack_size
IsLocal-note_stack_size h strict count = search primitive_rules

pub IsLocal-pop_from : (c : ℕ) (w : StackName) → IsLocal (pop_from c w)
unfolding pop_from
IsLocal-pop_from c w = search primitive_rules

pub IsLocal-push_on : (c : ℕ) (w : StackName) (x : StackItem) → IsLocal (push_on c w x)
unfolding push_on
IsLocal-push_on c w x = search primitive_rules

pub IsLocal-peek_at : (c : ℕ) (w : StackName) (i : ℤ) → IsLocal (peek_at c w i)
unfolding peek_at
IsLocal-peek_at c w i = search primitive_rules

pub IsLocal-remove_from : (c : ℕ) (i : ℤ) → IsLocal (remove_from c i)
unfolding remove_from
IsLocal-remove_from c i = search primitive_rules

pub IsLocal-insert_into : (c i : ℕ) (x : StackItem) → IsLocal (insert_into c i x)
unfolding insert_into
IsLocal-insert_into c i x = search primitive_rules

pub IsLocal-set_at : (c : ℕ) (i : ℤ) (x : StackItem) → IsLocal (set_at c i x)
unfolding set_at
IsLocal-set_at c i x = search primitive_rules

pub IsLocal-pop_int : (c : ℕ) → IsLocal (pop_int c)
unfolding pop_int
IsLocal-pop_int c = search (primitive_rules, IsLocal-pop_from)

pub IsLocal-pop_bytes : (c : ℕ) → IsLocal (pop_bytes c)
unfolding pop_bytes
IsLocal-pop_bytes c = search (primitive_rules, IsLocal-pop_from)

pub IsLocal-pop_bool : (c : ℕ) → IsLocal (pop_bool c)
unfolding pop_bool
IsLocal-pop_bool c = search (primitive_rules, IsLocal-pop_from)

pub IsLocal-push_int : (c : ℕ) (n : ℤ) → IsLocal (push_int c n)
unfolding push_int
IsLocal-push_int c n = search IsLocal-push_on

pub IsLocal-push_bytes : (c : ℕ) (bs : List ℕ) → IsLocal (push_bytes c bs)
unfolding push_bytes
IsLocal-push_bytes c bs = search IsLocal-push_on

pub IsLocal-push_bool : (c : ℕ) (b : Bool) → IsLocal (push_bool c b)
unfolding push_bool
IsLocal-push_bool c b = search (primitive_rules, IsLocal-push_on)

pub IsLocal-push_list : (c : ℕ) (xs : List StackItem) → IsLocal (push_list c xs)
unfolding push_list
IsLocal-push_list c xs = search (primitive_rules, IsLocal-push_on)

pub ruleset op_rules = (
  primitive_rules, IsLocal-fail_with, IsLocal-fail_if, IsLocal-require_stack_size,
  IsLocal-report_stack_size, IsLocal-note_stack_size, IsLocal-pop_from, IsLocal-push_on,
  IsLocal-peek_at, IsLocal-remove_from, IsLocal-insert_into, IsLocal-set_at, IsLocal-pop_int,
  IsLocal-pop_bytes, IsLocal-pop_bool, IsLocal-push_int, IsLocal-push_bytes, IsLocal-push_bool,
  IsLocal-push_list,
)
