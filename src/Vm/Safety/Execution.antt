-- ===== src/Vm/Safety/Execution.antt =====
-- ExecuteInstruction, ExecuteNext and the states that Execute passes through.
use neo_python.Prelude.{
  Bool-cases, List, Option-cases, arith, false, inl, inr, leb, some, sym, true, ℕ, ◌+◌, ◌==◌, ◌∙◌,
  ◌≡◌, ◌≤◌,
}
use neo_python.Prelude.Int.{pos}
use neo_python.Vm.Control.{IsLocal, SameControl-refl}
use neo_python.Vm.Engine.Contexts.{current_context, current_instruction, get_instruction, move_next}
use neo_python.Vm.Engine.Limits.{max_invocation_stack_size}
use neo_python.Vm.Engine.Monad.{gets, or_raise, pure, ◌>>=◌, ◌>>◌}
use neo_python.Vm.Execute.{branches, dispatch, execute_instruction}
use neo_python.Vm.Instruction.{Instruction, instruction_size, script_length}
use neo_python.Vm.Instruction.Bounds.{from_script_and_ip-inside}
use neo_python.Vm.RandomAccessStack.{RandomAccessStack, peek}
use neo_python.Vm.RandomAccessStack.Laws.{peek-item}
use neo_python.Vm.Safety.{
  IsControlled, IsControlled-Same, IsPlaced, Triple, Triple-bind, Triple-pure, Triple-weaken,
}
use neo_python.Vm.Safety.Calls.{Kept, Kept-IsStable}
use neo_python.Vm.Safety.Handlers.{Never, Triple-op_ret}
use neo_python.Vm.Safety.Jumps.{IsStable-with, Triple-move_next, current_instruction-same}
use neo_python.Vm.Safety.Loading.{AllBelow-get_elem?}
use neo_python.Vm.Safety.Run.{Triple-dispatch, dispatch-ret}
use neo_python.Vm.Safety.Steps.{IsStable, Triple-gets, Triple-or_raise}
use neo_python.Vm.State.{ExecutionContext, Host}
use neo_python.Vm.OpCode

-- An instruction that is not RET ends inside the script.
placed-next :
    (k : ExecutionContext) (ins : Instruction)
    → IsPlaced k
    → current_instruction k ≡ some ins
    → (ins.op_code == OpCode.ret) ≡ false
    → k.instruction_pointer + instruction_size ins ≤ script_length k.script
unfolding current_instruction get_instruction
placed-next k ins p h n = elim (Bool-cases (leb (script_length k.script) k.instruction_pointer)) [
  | inl past ↦ absurd (ground (arith, n, here, past))
  | inr inside ↦
      from_script_and_ip-inside k.script k.instruction_pointer ins (ground (arith, here, inside))
]
  where
    here : get_instruction k.script k.instruction_pointer ≡ some ins
    here = elim (Option-cases k.ins) [
      | inl e ↦ ground (arith, h, e)
      | inr (i, e) ↦ p.decoded i e ∙ ground (arith, h, e)
    ]

top-IsStable :
    (s : RandomAccessStack ℕ)
    → IsStable (λ e. IsControlled max_invocation_stack_size e × (s ≡ e.invocation_stack))
top-IsStable s = record {
  stable = λ d e same (x, t).
      (IsControlled-Same max_invocation_stack_size d e same x, t ∙ sym same.same_stack);
  safe = λ e p. p.0;
}

Triple-top :
    (s : RandomAccessStack ℕ)
    → Triple
        (λ e. IsControlled max_invocation_stack_size e × (s ≡ e.invocation_stack))
        (or_raise (peek (pos 0) s))
        (λ c e. Kept c (e.contexts c) e)
Triple-top s =
    Triple-weaken _ _ _ _
      (λ c e ((x, t), found).
        let (i, lt, at_i) = peek-item (pos 0) c s found in
        (
          x,
          record {
            lower = rw (sym t) omega (arith, lt);
            here = AllBelow-get_elem? e.next_context i c s.items (rw t x.below) at_i;
            same = SameControl-refl (e.contexts c);
          },
        ))
      (Triple-or_raise _ (top-IsStable s) (peek (pos 0) s))

module _ (h : Host) (l : (bs : List ℕ) → IsLocal (h.service_invoke bs)) where
  Triple-dispatch-ret :
      (c : ℕ) (k : ExecutionContext) (ins : Instruction)
      → ins.op_code ≡ OpCode.ret
      → Triple (Kept c k) (dispatch branches h c ins) (λ _. Never)
  Triple-dispatch-ret c k ins e = rw (dispatch-ret h c ins e) (Triple-op_ret c k h ins)

  -- The instruction at the pointer, read from the engine.
  Triple-read :
      (c : ℕ) (k : ExecutionContext)
      → Triple
          (Kept c k)
          (gets (λ e. current_instruction (e.contexts c)))
          (λ o e. Kept c k e × (o ≡ current_instruction k))
  Triple-read c k =
      Triple-weaken _ _ _ _
        (λ o e (p, r). (p, r ∙ current_instruction-same k (e.contexts c) p.1.same))
        (Triple-gets (Kept c k) (λ e. current_instruction (e.contexts c)))

  -- The instruction and the move behind it.
  Triple-instruction :
      (c : ℕ) (k : ExecutionContext) (ins : Instruction)
      → IsPlaced k
      → current_instruction k ≡ some ins
      → Triple
          (Kept c k)
          (do dispatch branches h c ins; move_next c; pure true)
          (λ _. IsControlled max_invocation_stack_size)
  Triple-instruction c k ins p s = elim (Bool-cases (ins.op_code == OpCode.ret)) [
    | inl ret ↦
        Triple-bind _ _ _ _ _ (Triple-dispatch-ret c k ins (ground (arith, ret)))
          (λ _. record { run = λ e f. absurd (ground (arith, f)) })
    | inr other ↦
        let le = placed-next k ins p s other in
        Triple-bind _ _ _ _ _ (Triple-dispatch c k h ins l le) (λ _.
          Triple-bind _ _ _ _ _ (Triple-move_next c k ins s le)
            (λ _. Triple-pure (λ _. IsControlled max_invocation_stack_size) true))
  ]

  -- The context on top of the invocation stack, which exists.
  pub Triple-current_context :
      Triple
        (IsControlled max_invocation_stack_size)
        current_context
        (λ c e. Kept c (e.contexts c) e)
  unfolding current_context
  Triple-current_context =
      Triple-bind _ _ _ _ _
        (Triple-gets (IsControlled max_invocation_stack_size) (λ e. e.invocation_stack))
        (λ s. Triple-top s)

  pub Triple-execute_instruction :
      Triple
        (IsControlled max_invocation_stack_size)
        (execute_instruction h)
        (λ _. IsControlled max_invocation_stack_size)
  unfolding execute_instruction
  Triple-execute_instruction =
      Triple-bind _ _ _ _ _ Triple-current_context
        (λ c. record { run = λ e p. (go c (e.contexts c) (p.0.placed c)).run e p })
    where
      go :
          (c : ℕ) (k : ExecutionContext)
          → IsPlaced k
          → Triple
              (Kept c k)
              (do
                ins ← or_raise (← gets (λ e. current_instruction (e.contexts c)))
                dispatch branches h c ins
                move_next c
                pure true)
              (λ _. IsControlled max_invocation_stack_size)
      go c k p = Triple-bind _ _ _ _ _ (Triple-read c k) (λ o.
          Triple-bind _ _ _ _ _
            (Triple-or_raise _
              (IsStable-with (Kept c k) (o ≡ current_instruction k) (Kept-IsStable c k)) o)
            (λ ins. record {
              run = λ e ((q, r), found). (Triple-instruction c k ins p (sym r ∙ found)).run e q;
            }))
