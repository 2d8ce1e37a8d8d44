-- ===== src/SmartContract/ApplicationEngine/Passes.antt =====
-- neo/SmartContract/ApplicationEngine.py: how an ExecuteNext passes PreExecuteInstruction.
use neo_python.Prelude.{
  Bool, Option, ap, arith, false, if◌then◌else◌, inl, inr, leb, none, not, refl, some, subst, sym,
  true, ℕ, ◌&&◌, ◌+◌, ◌==◌, ◌∙◌, ◌≡◌, ◌≢◌, ◌≤◌, ◌⊎◌,
}
use neo_python.Prelude.Int.{pos, ℤ}
use neo_python.SmartContract.ApplicationEngine.{
  ApplicationEngine, application_host, charge, consume, get_price, is_refused, pre_execute_at,
  pre_execute_instruction,
}
use neo_python.SmartContract.ApplicationEngine.Steps.{
  HasLocalService, IsLocal-invoke, Steady, Steady-pre_at,
}
use neo_python.Vm.Control.{IsLocal-pure, IsQuiet, IsQuiet-bind}
use neo_python.Vm.Engine.Contexts.{current_context, current_instruction}
use neo_python.Vm.Engine.Monad.{continue, gets, modify, or_raise, pure, raise, ◌>>=◌, ◌>>◌}
use neo_python.Vm.Execute.{
  execute_guarded, execute_instruction, execute_next, fault_unless, recover, settle,
}
use neo_python.Vm.Instruction.{Instruction, script_length}
use neo_python.Vm.RandomAccessStack.{peek}
use neo_python.Vm.Safety.Quiet.{IsQuiet-execute_instruction, IsQuiet-fault_unless}
use neo_python.Vm.State.{
  Action, Engine, ExecutionContext, Host, Result, early, is_running, ok, raised,
}

-- What PreExecuteInstruction gives.
data Outcome (app : ApplicationEngine) (cx : ExecutionContext) (e : Engine)
    : Result Bool × Engine → Type 0 where
  price_raised : (d : Engine) → Outcome app cx e (raised, d)
  refused : (d : Engine) → Outcome app cx e (ok false, d)
  free : script_length cx.script ≤ cx.instruction_pointer → Outcome app cx e (ok true, e)
  charged : (d : Engine) → is_refused app d ≡ false → Outcome app cx e (ok true, d)

Outcome-charge :
    (app : ApplicationEngine) (h : Host) (cx : ExecutionContext) (ins : Instruction) (e : Engine)
    → Outcome app cx e (charge app h cx ins e)
unfolding charge consume modify gets pure raise ◌>>=◌
Outcome-charge app h cx ins e = go (get_price h app.service e.heap cx ins) refl
  where
    tested :
        (d : Engine) (b a : Bool) → is_refused app d ≡ b → Outcome app cx e (ok (not b && a), d)
    tested d true a r = refused d
    tested d false true r = charged d r
    tested d false false r = refused d

    go :
        (o : Option ℤ)
        → get_price h app.service e.heap cx ins ≡ o
        → Outcome app cx e (charge app h cx ins e)
    go none p = rw p (price_raised e)
    go (some price) p = rw p (tested _ _ _ refl)

Outcome-pre_at :
    (app : ApplicationEngine) (h : Host) (cx : ExecutionContext) (e : Engine)
    → Outcome app cx e (pre_execute_at app h cx e)
unfolding pre_execute_at pure raise ◌>>=◌
Outcome-pre_at app h cx e =
    go (leb (script_length cx.script) cx.instruction_pointer) refl (current_instruction cx)
  where
    go :
        (b : Bool)
        → leb (script_length cx.script) cx.instruction_pointer ≡ b
        → (o : Option Instruction)
        → Outcome app cx e ((if b then pure true else (or_raise o >>= charge app h cx)) e)
    go true p o = free (ground (arith, p))
    go false p none = price_raised e
    go false p (some ins) = Outcome-charge app h cx ins e

module _ (app : ApplicationEngine) (h : Host) where
  abbrev pub Next : Host
  Next = application_host app h

  -- `self.ops_processed += 1`
  abbrev pub counted : Engine → Engine
  counted e = record e { ops_processed = e.ops_processed + 1 }

  -- The instruction and what follows it.
  unfoldable pub rest_of_next : Action (Unit {0})
  rest_of_next = do
    fault_unless (execute_instruction Next)
    fault_unless Next.post_execute_instruction

  -- An ExecuteNext that comes to the instruction in the state `d`: free of charge at the end of the
  -- script, or charged and not refused.
  pub record Passed (e d : Engine) : Type 0 where
    pub top : ℕ
    pub is_top : peek (pos 0) e.invocation_stack ≡ some top
    pub went : execute_next Next e ≡ recover Next (rest_of_next d)
    pub steady : Steady (counted e) d
    pub paid :
        ((d ≡ counted e)
          × (script_length (e.contexts top).script ≤ (e.contexts top).instruction_pointer))
        ⊎ (is_refused app d ≡ false)

  module _ (l : HasLocalService app) (exits : h.exit_on_error ≡ true) where
    pub IsQuiet-rest_of_next : IsQuiet rest_of_next
    unfolding rest_of_next application_host
    IsQuiet-rest_of_next =
        IsQuiet-bind _ _
          (IsQuiet-fault_unless _ (IsQuiet-execute_instruction Next (IsLocal-invoke app h l)))
          (λ _. IsQuiet-fault_unless _ (IsLocal-pure true).quiet)

    -- An engine that runs after ExecuteNext has not met an exception.
    pub recover-running :
        (x : Result (Unit {0}) × Engine)
        → is_running (recover Next x).vm_state ≡ true
        → ((x.0 ≢ raised) × (recover Next x ≡ x.1))
    unfolding recover application_host
    recover-running (ok _, e) r = (λ p. ground (arith, p), refl)
    recover-running (early b, e) r = (λ p. ground (arith, p), refl)
    recover-running (raised, e) r = absurd (ground (arith, exits, r))

    pub running-before_rest :
        (d : Engine)
        → is_running (recover Next (rest_of_next d)).vm_state ≡ true
        → is_running d.vm_state ≡ true
    running-before_rest d r =
        let (_, p) = recover-running (rest_of_next d) r in
        (IsQuiet-rest_of_next.calm d).no_restart
          (subst (λ (x : Engine). is_running x.vm_state ≡ true) p r)

    running-went :
        (e : Engine) (x : Result (Unit {0}) × Engine)
        → execute_next Next e ≡ recover Next x
        → is_running (execute_next Next e).vm_state ≡ true
        → is_running (recover Next x).vm_state ≡ true
    running-went e x went r = subst (λ (d : Engine). is_running d.vm_state ≡ true) went r

    -- From the outcome of PreExecuteInstruction to the state before the instruction.
    settle-Passed :
        (c : ℕ) (e e1 : Engine) (y : Result Bool × Engine)
        → e1 ≡ counted e
        → peek (pos 0) e.invocation_stack ≡ some c
        → Outcome app (e.contexts c) e1 y
        → Steady e1 y.1
        → execute_next Next e
          ≡ recover Next (continue (settle y.0 y.1).0 (λ _. rest_of_next) (settle y.0 y.1).1)
        → is_running (execute_next Next e).vm_state ≡ true
        → (d : Engine) × (Passed e d × (is_running d.vm_state ≡ true))
    settle-Passed c e e1 _ same p (price_raised d) s went r =
        let (n, _) = recover-running _ (running-went e _ went r) in absurd (n refl)
    settle-Passed c e e1 _ same p (refused d) s went r =
        absurd (ground (arith, running-before_rest _ (running-went e _ went r)))
    settle-Passed c e e1 _ same p (free outside) s went r = (
      e1,
      (
        record {
          top = c;
          is_top = p;
          went = went;
          steady = rw (sym same) s;
          paid = inl (same, outside);
        },
        running-before_rest _ (running-went e _ went r),
      ),
    )
    settle-Passed c e e1 _ same p (charged d q) s went r = (
      d,
      (
        record { top = c; is_top = p; went = went; steady = rw (sym same) s; paid = inr q },
        running-before_rest _ (running-went e _ went r),
      ),
    )

    -- The steps of an ExecuteNext up to PreExecuteInstruction.
    next-guarded :
        (e : Engine)
        → (e.invocation_stack.size == 0) ≡ false
        → execute_next Next e ≡ recover Next (execute_guarded Next (counted e))
    unfolding execute_next
    next-guarded e some_left = rw some_left refl

    guarded-no_context :
        (e : Engine) → peek (pos 0) e.invocation_stack ≡ none → execute_guarded Next e ≡ (raised, e)
    unfolding execute_guarded current_context gets raise ◌>>=◌
    guarded-no_context e p = rw p refl

    guarded-no_instruction :
        (c : ℕ) (e : Engine)
        → peek (pos 0) e.invocation_stack ≡ some c
        → current_instruction (e.contexts c) ≡ none
        → execute_guarded Next e ≡ (raised, e)
    unfolding execute_guarded current_context gets pure raise ◌>>=◌
    guarded-no_instruction c e p q = rw (p, q) refl

    guarded-instruction :
        (c : ℕ) (ins : Instruction) (e : Engine)
        → peek (pos 0) e.invocation_stack ≡ some c
        → current_instruction (e.contexts c) ≡ some ins
        → execute_guarded Next e ≡ (do fault_unless Next.pre_execute_instruction; rest_of_next) e
    unfolding execute_guarded current_context gets pure ◌>>=◌ rest_of_next
    guarded-instruction c ins e p q = rw (p, q) refl

    pre-at :
        (c : ℕ) (e : Engine)
        → peek (pos 0) e.invocation_stack ≡ some c
        → pre_execute_instruction app h e ≡ pre_execute_at app h (e.contexts c) e
    unfolding pre_execute_instruction current_context gets pure ◌>>=◌
    pre-at c e p = rw p refl

    guarded-at :
        (c : ℕ) (ins : Instruction) (e : Engine)
        → peek (pos 0) e.invocation_stack ≡ some c
        → current_instruction (e.contexts c) ≡ some ins
        → execute_guarded Next e ≡ (
            let (r, d) = pre_execute_at app h (e.contexts c) e in
            continue (settle r d).0 (λ _. rest_of_next) (settle r d).1)
    unfolding application_host ◌>>=◌ fault_unless
    guarded-at c ins e p q =
        guarded-instruction c ins e p q
        ∙ ap
            (λ (x : Result Bool × Engine).
              continue (settle x.0 x.1).0 (λ _. rest_of_next) (settle x.0 x.1).1)
            (pre-at c e p)

    -- An engine that runs after an ExecuteNext has come to its instruction, and had not stopped there.
    pub next-Passed :
        (e : Engine)
        → (e.invocation_stack.size == 0) ≡ false
        → is_running (execute_next Next e).vm_state ≡ true
        → (d : Engine) × (Passed e d × (is_running d.vm_state ≡ true))
    next-Passed e some_left r = go (peek (pos 0) e.invocation_stack) refl
      where
        went :
            (x : Result (Unit {0}) × Engine)
            → execute_guarded Next (counted e) ≡ x
            → execute_next Next e ≡ recover Next x
        went x p = next-guarded e some_left ∙ ap (λ y. recover Next y) p

        stopped :
            execute_guarded Next (counted e) ≡ (raised, counted e)
            → (d : Engine) × (Passed e d × (is_running d.vm_state ≡ true))
        stopped p =
            let (n, _) = recover-running (raised, counted e) (running-went e _ (went _ p) r) in
            absurd (n refl)

        at_instruction :
            (c : ℕ)
            → peek (pos 0) e.invocation_stack ≡ some c
            → (o : Option Instruction) → current_instruction (e.contexts c) ≡ o
            → (d : Engine) × (Passed e d × (is_running d.vm_state ≡ true))
        at_instruction c p none q = stopped (guarded-no_instruction c (counted e) p q)
        at_instruction c p (some ins) q =
            settle-Passed c e (counted e) (pre_execute_at app h (e.contexts c) (counted e)) refl p
              (Outcome-pre_at app h (e.contexts c) (counted e))
              (Steady-pre_at app h (e.contexts c) (counted e))
              (went _ (guarded-at c ins (counted e) p q)) r

        go :
            (o : Option ℕ)
            → peek (pos 0) e.invocation_stack ≡ o
            → (d : Engine) × (Passed e d × (is_running d.vm_state ≡ true))
        go none p = stopped (guarded-no_context (counted e) p)
        go (some c) p = at_instruction c p (current_instruction (e.contexts c)) refl
