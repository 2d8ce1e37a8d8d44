-- ===== src/SmartContract/ApplicationEngine/Returns.antt =====
-- neo/VM/ExecutionEngine.py: the RET at the end of a script ends its context.
use neo_python.Prelude.{
  List, Option, arith, false, if◌then◌else◌, inl, inr, none, not, refl, some, subst, sym, true, ℕ,
  ◌&&◌, ◌-◌, ◌==◌, ◌∙◌, ◌≡◌, ◌≤◌, ◌⊎◌,
}
use neo_python.Prelude.Int.{eqb_ℤ, negsuc, pos}
use neo_python.Vm.Control.{IsLocal}
use neo_python.Vm.Control.Primitives.{op_rules}
use neo_python.Vm.Engine.Contexts.{
  current_context, current_instruction, get_instruction, move_next, pop_context,
  put_invocation_stack,
}
use neo_python.Vm.Engine.Limits.{max_invocation_stack_size, note_stack_size}
use neo_python.Vm.Engine.Monad.{continue, gets, pure, return_early, skip, ◌>>=◌, ◌>>◌}
use neo_python.Vm.Engine.Stacks.{alternative}
use neo_python.Vm.Execute.{execute_instruction}
use neo_python.Vm.Instruction.{Instruction, ret_instruction, script_length}
use neo_python.Vm.Ops.Flow.{copy_all_stack, halt_if_empty, op_ret, return_values, returned_count}
use neo_python.Vm.RandomAccessStack.{RandomAccessStack, peek, pop, remove}
use neo_python.Vm.RandomAccessStack.Laws.{IsSized, remove-rest}
use neo_python.Vm.Safety.{IsControlled, IsPlaced, Post}
use neo_python.Vm.Safety.Calls.{Kept}
use neo_python.Vm.Safety.Execution.{Triple-current_context}
use neo_python.Vm.Safety.Handlers.{Never, Triple-op_ret}
use neo_python.Vm.Safety.LocalParts.{
  IsLocal-copy_all_stack, IsLocal-current_context, IsLocal-halt_if_empty, IsLocal-return_values,
}
use neo_python.Vm.Safety.Run.{dispatch-ret}
use neo_python.Vm.State.{Engine, ExecutionContext, Host, Result, early, ok, raised}

-- The result is an exception, or the invocation stack has at most `n` contexts.
unfoldable pub Shrunk : {A : Type 0} → ℕ → Result A × Engine → Type 0
Shrunk n x = (x.0 ≡ raised) ⊎ (x.1.invocation_stack.size ≤ n)

-- The values are copied, and the engine halts, once the context has been popped.
IsLocal-after_pop :
    (h : Host) (from : ℕ)
    → IsLocal {A = Unit {0}} (do
      context_pop ← gets (λ e. e.contexts from)
      return_values from (returned_count context_pop)
      left ← gets (λ e. e.invocation_stack.size)
      if eqb_ℤ context_pop.rv_count (negsuc 0) && not (left == 0)
          then (do to ← current_context; copy_all_stack from alternative to)
          else skip
      note_stack_size h false (pos 0)
      halt_if_empty
      return_early true)
IsLocal-after_pop h from =
    search
      (
        op_rules, IsLocal-return_values, IsLocal-current_context, IsLocal-copy_all_stack,
        IsLocal-halt_if_empty,
      )
      depth 30

op_ret-Shrunk :
    (h : Host) (c : ℕ) (ins : Instruction) (e : Engine)
    → IsSized e.invocation_stack
    → Shrunk (e.invocation_stack.size - 1) (op_ret h c ins e)
unfolding op_ret pop_context Shrunk pop ◌>>=◌
op_ret-Shrunk h c ins e s = go (remove (pos 0) e.invocation_stack) refl
  where
    go :
        (o : Option (ℕ × RandomAccessStack ℕ))
        → remove (pos 0) e.invocation_stack ≡ o
        → Shrunk (e.invocation_stack.size - 1) (op_ret h c ins e)
    go none p = rw p (inl refl)
    go (some (from, t)) p =
        let (i, lt, _, r) = remove-rest (pos 0) from e.invocation_stack t s p in
        let popped = put_invocation_stack t e in
        rw p (inr (rw ((IsLocal-after_pop h from).at popped).same_stack (rw r (omega arith))))

-- At the end of its script, a context whose instruction is the one at its pointer runs RET.
current_instruction-end :
    (cx : ExecutionContext)
    → IsPlaced cx
    → script_length cx.script ≤ cx.instruction_pointer
    → current_instruction cx ≡ some ret_instruction
unfolding current_instruction
current_instruction-end cx p le = go cx.ins refl
  where
    at_end : get_instruction cx.script cx.instruction_pointer ≡ some ret_instruction
    at_end = unfold get_instruction in ground (arith, le)

    go :
        (o : Option Instruction)
        → cx.ins ≡ o
        → elim o [ none ↦ get_instruction cx.script cx.instruction_pointer | some i ↦ some i ]
          ≡ some ret_instruction
    go none q = at_end
    go (some i) q = sym (p.decoded i q) ∙ at_end

module _ (h : Host) (l : (bs : List ℕ) → IsLocal (h.service_invoke bs)) (c : ℕ) (e : Engine)
    (k : IsControlled max_invocation_stack_size e) (top : peek (pos 0) e.invocation_stack ≡ some c)
    (le : script_length (e.contexts c).script ≤ (e.contexts c).instruction_pointer) where
  current_context-top : current_context e ≡ (ok c, e)
  unfolding current_context gets pure ◌>>=◌
  current_context-top = rw top refl

  top-Kept : Kept c (e.contexts c) e
  top-Kept =
      subst (λ x. Post (λ c' e'. Kept c' (e'.contexts c') e') x) current_context-top
        ((Triple-current_context h l).run e k)

  instruction-ret :
      execute_instruction h e ≡ (do op_ret h c ret_instruction; move_next c; pure true) e
  unfolding execute_instruction gets pure ◌>>=◌
  instruction-ret =
      rw
        (
          current_context-top,
          current_instruction-end (e.contexts c) (k.placed c) le,
          dispatch-ret h c ret_instruction refl,
        )
        refl

  -- RET never comes to its end: it returns, or it raises.
  continue-Shrunk :
      (x : Result (Unit {0}) × Engine)
      → Post (λ _. Never) x
      → Shrunk {A = Unit {0}} (e.invocation_stack.size - 1) x
      → Shrunk (e.invocation_stack.size - 1) (continue x.0 (λ _. do move_next c; pure true) x.1)
  unfolding Shrunk
  continue-Shrunk (ok a, d) n s = absurd (ground (arith, n))
  continue-Shrunk (early b, d) n (inl p) = absurd (ground (arith, p))
  continue-Shrunk (early b, d) n (inr p) = inr p
  continue-Shrunk (raised, d) n s = inl refl

  -- The instruction that ends a script pops its context, unless it raises.
  pub execute_instruction-Shrunk : Shrunk (e.invocation_stack.size - 1) (execute_instruction h e)
  unfolding ◌>>=◌
  execute_instruction-Shrunk =
      subst (λ x. Shrunk (e.invocation_stack.size - 1) x) (sym instruction-ret)
        (continue-Shrunk (op_ret h c ret_instruction e)
          ((Triple-op_ret c (e.contexts c) h ret_instruction).run e top-Kept)
          (op_ret-Shrunk h c ret_instruction e (unfold IsSized in k.sized)))
