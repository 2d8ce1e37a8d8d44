-- ===== src/Vm/Safety/Handlers.antt =====
-- Every branch of ExecuteInstruction that touches the control state keeps the invariant.
use neo_python.Prelude.{
  Bool, List, Option, arith, false, if◌then◌else◌, length-erase_at, none, not, refl, some, true, ℕ,
  ◌==◌, ◌≡◌,
}
use neo_python.Prelude.Int.{negsuc, pos}
use neo_python.Vm.Control.{
  IsLocal, IsLocal-bind, IsLocal-gets, IsLocal-if, IsLocal-or_raise, IsLocal-skip,
}
use neo_python.Vm.Control.Primitives.{IsLocal-fail_if, IsLocal-note_stack_size, op_rules}
use neo_python.Vm.Engine.Contexts.{pop_context, put_invocation_stack}
use neo_python.Vm.Engine.Limits.{max_invocation_stack_size}
use neo_python.Vm.Engine.Monad.{commit, fail_if}
use neo_python.Vm.Engine.Stacks.{alternative}
use neo_python.Vm.Instruction.{Instruction}
use neo_python.Vm.Ops.Flow.{op_appcall, op_ret, op_syscall}
use neo_python.Vm.Ops.Isolation.{is_tail, op_call_e}
use neo_python.Vm.RandomAccessStack.{RandomAccessStack, pop, remove}
use neo_python.Vm.RandomAccessStack.Laws.{IsSized, remove-rest}
use neo_python.Vm.Safety.{
  IsControlled, IsControlled-IsBounded, IsControlled-Same, Post, Triple, Triple-bind,
}
use neo_python.Vm.Safety.Calls.{
  Asked, Kept, Kept-IsStable, Triple-copy_all_stack, Triple-copy_stack, Triple-leave, Triple-load,
  Triple-need_room, Triple-need_room_unless, limit_of, limit_of-IsStable, limit_of-le,
}
use neo_python.Vm.Safety.Loading.{AllBelow-erase_at, During}
use neo_python.Vm.Safety.LocalParts.{
  IsLocal-called_hash, IsLocal-clear_stack, IsLocal-copy_all_stack, IsLocal-current_context,
  IsLocal-drop_times, IsLocal-halt_if_empty, IsLocal-isolated_hash, IsLocal-return_values,
}
use neo_python.Vm.Safety.Steps.{
  IsStable, Triple-check_room, Triple-loaded_or_fail, Triple-pre, Triple-return_early,
  Triple-stable,
}
use neo_python.Vm.State.{Action, Engine, ExecutionContext, Host, VmFault}
use neo_python.Vm.OpCode

pub plain-IsStable : IsStable (IsControlled max_invocation_stack_size)
plain-IsStable = record {
  stable = λ d e s p. IsControlled-Same max_invocation_stack_size d e s p;
  safe = λ e p. p;
}

pub Triple-plain :
    {A : Type 0} (m : Action A)
    → IsLocal m
    → Triple
        (IsControlled max_invocation_stack_size)
        m
        (λ _. IsControlled max_invocation_stack_size)
Triple-plain m l = Triple-stable (IsControlled max_invocation_stack_size) plain-IsStable m l

-- What holds after an action that gives no value: nothing does.
abbrev pub Never : Engine → Type 0
Never e = false ≡ true

Triple-pop_context :
    (c : ℕ) (k : ExecutionContext)
    → Triple (Kept c k) pop_context (λ _. IsControlled max_invocation_stack_size)
unfolding pop_context pop
Triple-pop_context c k = record { run = λ e p. go e p.0 (remove (pos 0) e.invocation_stack) refl }
  where
    go :
        (e : Engine)
        → IsControlled max_invocation_stack_size e
        → (o : Option (ℕ × RandomAccessStack ℕ)) → remove (pos 0) e.invocation_stack ≡ o
        → Post (λ _. IsControlled max_invocation_stack_size) (commit o put_invocation_stack e)
    go e x none r = IsControlled-IsBounded e x
    go e x (some (a, s)) r =
        let (i, lt, _, t) =
          remove-rest (pos 0) a e.invocation_stack s (unfold IsSized in x.sized) r in
        rw t record {
          upper = omega (arith, x.upper);
          sized = omega (arith, lt, x.sized, length-erase_at e.invocation_stack.items i);
          below = AllBelow-erase_at e.next_context i e.invocation_stack.items x.below;
          placed = x.placed;
        }

module _ (c : ℕ) (k : ExecutionContext) where
  -- A local step of an instruction.
  pub Triple-Kept : {A : Type 0} (m : Action A) → IsLocal m → Triple (Kept c k) m (λ _. Kept c k)
  Triple-Kept m l = Triple-stable (Kept c k) (Kept-IsStable c k) m l

  -- A local step below the limit of a call.
  Triple-limited :
      {A : Type 0} (tail : Bool) (m : Action A)
      → IsLocal m
      → Triple (During 1 (limit_of c k tail) c k) m (λ _. During 1 (limit_of c k tail) c k)
  Triple-limited tail m l =
      Triple-stable (During 1 (limit_of c k tail) c k) (limit_of-IsStable c k tail) m l

  -- CALL_ET and CALL_EDT test the counts of return values, the others the room.
  Triple-tail_or_room :
      (tail room b : Bool) (id id' : VmFault)
      → Triple
          (Asked c k room)
          (if tail then fail_if b id else fail_if (not room) id')
          (λ _. During 1 (limit_of c k tail) c k)
  Triple-tail_or_room true room b id id' =
      Triple-pre _ _ _ _ (λ e p. p.0) (Triple-Kept _ (IsLocal-fail_if b id))
  Triple-tail_or_room false room b id id' = Triple-need_room c k room id'

  pub Triple-op_appcall :
      (h : Host) (ins : Instruction)
      → (ins.op_code == OpCode.appcall) ≡ not (ins.op_code == OpCode.tailcall)
      → Triple (Kept c k) (op_appcall h c ins) (λ _. Kept c k)
  unfolding op_appcall
  Triple-op_appcall h ins t =
      let tail = ins.op_code == OpCode.tailcall in
      Triple-bind _ _ _ _ _ (Triple-Kept _ (IsLocal-fail_if _ _)) (λ _.
        Triple-bind _ _ _ _ _ (Triple-check_room 1 c k) (λ room.
          Triple-bind _ _ _ _ _ (rw t (Triple-need_room_unless c k tail room _)) (λ _.
            Triple-bind _ _ _ _ _ (Triple-limited tail _ (IsLocal-called_hash c ins.operand))
              (λ script_hash.
                Triple-bind _ _ _ _ _ (Triple-load c k tail h script_hash (negsuc 0)) (λ loaded.
                  Triple-bind _ _ _ _ _
                    (Triple-loaded_or_fail 1 (limit_of c k tail) c k (limit_of-le c k tail)
                      (negsuc 0) loaded _)
                    (λ c'.
                      Triple-bind _ _ _ _ _ (Triple-copy_all_stack c k tail (negsuc 0) c') (λ _.
                        Triple-bind _ _ _ _ _ (Triple-leave c k tail _ (IsLocal-clear_stack c))
                          (λ _. Triple-Kept _ (IsLocal-note_stack_size h false (pos 0))))))))))

  pub Triple-op_call_e :
      (h : Host) (ins : Instruction) → Triple (Kept c k) (op_call_e h c ins) (λ _. Kept c k)
  unfolding op_call_e
  Triple-op_call_e h ins =
      let tail = is_tail ins.op_code in
      Triple-bind _ _ _ _ _ (Triple-Kept _ (IsLocal-fail_if _ _)) (λ _.
        Triple-bind _ _ _ _ _ (Triple-Kept _ (IsLocal-or_raise _)) (λ rvcount.
          Triple-bind _ _ _ _ _ (Triple-Kept _ (IsLocal-or_raise _)) (λ pcount.
            Triple-bind _ _ _ _ _ (Triple-Kept _ (IsLocal-gets _)) (λ count.
              Triple-bind _ _ _ _ _ (Triple-Kept _ (IsLocal-fail_if _ _)) (λ _.
                Triple-bind _ _ _ _ _ (Triple-Kept _ (IsLocal-gets _)) (λ context.
                  Triple-bind _ _ _ _ _ (Triple-check_room 1 c k) (λ room.
                    Triple-bind _ _ _ _ _ (Triple-tail_or_room tail room _ _ _) (λ _.
                      Triple-bind _ _ _ _ _ (Triple-limited tail _ (IsLocal-isolated_hash h c ins))
                        (λ script_hash.
                          Triple-bind _ _ _ _ _ (Triple-load c k tail h script_hash (pos rvcount))
                            (λ loaded.
                              Triple-bind _ _ _ _ _
                                (Triple-loaded_or_fail 1 (limit_of c k tail) c k
                                  (limit_of-le c k tail) (pos rvcount) loaded _)
                                (λ c'.
                                  Triple-bind _ _ _ _ _
                                    (Triple-copy_stack c k tail (pos rvcount) c' pcount)
                                    (λ _.
                                      Triple-leave c k tail _
                                        (IsLocal-drop_times pcount c)))))))))))))

  pub Triple-op_syscall :
      (h : Host) (ins : Instruction)
      → ((bs : List ℕ) → IsLocal (h.service_invoke bs))
      → Triple (Kept c k) (op_syscall h c ins) (λ _. Kept c k)
  unfolding op_syscall
  Triple-op_syscall h ins l = Triple-Kept _ (search (op_rules, l) depth 20)

  -- RET ends the instruction early, and pops the context.
  pub Triple-op_ret :
      (h : Host) (ins : Instruction) → Triple (Kept c k) (op_ret h c ins) (λ _. Never)
  unfolding op_ret
  Triple-op_ret h ins = Triple-bind _ _ _ _ _ (Triple-pop_context c k) (λ from.
      Triple-bind _ _ _ _ _ (Triple-plain _ (IsLocal-gets _)) (λ context_pop.
        Triple-bind _ _ _ _ _ (Triple-plain _ (IsLocal-return_values from _)) (λ _.
          Triple-bind _ _ _ _ _ (Triple-plain _ (IsLocal-gets _)) (λ left.
            Triple-bind _ _ _ _ _
              (Triple-plain _ (
                IsLocal-if _ _ _
                  (IsLocal-bind _ _ IsLocal-current_context
                    (λ to. IsLocal-copy_all_stack from to alternative))
                  IsLocal-skip))
              (λ _.
                Triple-bind _ _ _ _ _ (Triple-plain _ (IsLocal-note_stack_size h false (pos 0)))
                  (λ _.
                    Triple-bind _ _ _ _ _ (Triple-plain _ IsLocal-halt_if_empty)
                      (λ _. Triple-return_early _ plain-IsStable _ true)))))))
