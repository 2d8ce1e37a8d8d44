-- ===== src/SmartContract/ApplicationEngine/Termination.antt =====
-- neo/SmartContract/ApplicationEngine.py: a test invocation ends.
use neo_python.Prelude.{
  Bool, Bool-cases, List, arith, false, inl, inr, refl, some, subst, suc, sym, true, zero, ℕ, ◌+◌,
  ◌-◌, ◌==◌, ◌∙◌, ◌≡◌, ◌≤◌,
}
use neo_python.Prelude.Int.{negsuc, pos}
use neo_python.SmartContract.ApplicationEngine.{
  ApplicationEngine, application_host, is_refused, max_free_ops, pre_execute_instruction, run,
}
use neo_python.SmartContract.ApplicationEngine.Passes.{
  IsQuiet-rest_of_next, Passed, counted, next-Passed, recover-running, rest_of_next,
}
use neo_python.SmartContract.ApplicationEngine.Returns.{Shrunk, execute_instruction-Shrunk}
use neo_python.SmartContract.ApplicationEngine.Steps.{
  HasLocalService, IsLocal-invoke, Steady, Steady-pre, next-empty,
}
use neo_python.Vm.Control.{Same}
use neo_python.Vm.Control.Primitives.{Same-data}
use neo_python.Vm.Engine.Contexts.{load_script, load_script_internal}
use neo_python.Vm.Engine.Limits.{max_invocation_stack_size}
use neo_python.Vm.Engine.Monad.{continue, pure, ◌>>=◌}
use neo_python.Vm.Execute.{execute_instruction, execute_next, fault_unless, run_loop, settle}
use neo_python.Vm.Execute.Runs.{execute-returns, first_state, run_loop-running, run_loop-stopped}
use neo_python.Vm.Instruction.{script_length}
use neo_python.Vm.RandomAccessStack.{peek}
use neo_python.Vm.Safety.{IsControlled-IsBounded, IsControlled-Same}
use neo_python.Vm.Safety.Reachable.{
  Controlled, Controlled-fault, Controlled-start, Guarded-true, GuardedPost, IsTame,
  next-Controlled,
}
use neo_python.Vm.State.{Engine, Host, Result, early, is_running, ok, raised}

-- What an application engine relies on: its services leave the control state and the counters alone,
-- and exceptions fault.
pub record IsTameApplication (app : ApplicationEngine) (h : Host) : Type 0 where
  pub services : HasLocalService app
  pub faults : h.exit_on_error ≡ true

module _ (app : ApplicationEngine) (h : Host) (t : IsTameApplication app h) where
  pub IsTame-application_host : IsTame (application_host app h)
  unfolding application_host
  IsTame-application_host = record {
    service_local = IsLocal-invoke app h t.services;
    pre_kept =
        unfold fault_unless in
        record { step = λ e x. go e x (pre_execute_instruction app h e) (Steady-pre app h e) };
    post_kept = Guarded-true _;
    exits = t.faults;
  }
    where
      kept : (d e : Engine) → Controlled d → Same d e → Controlled e
      kept d e k s = IsControlled-Same max_invocation_stack_size d e s k

      go :
          (d : Engine)
          → Controlled d
          → (x : Result Bool × Engine) → Steady d x.1
          → GuardedPost Controlled (settle x.0 x.1)
      go d k (ok true, e) s = kept d e k s.control
      go d k (ok false, e) s = Controlled-fault e (kept d e k s.control)
      go d k (early true, e) s = kept d e k s.control
      go d k (early false, e) s = Controlled-fault e (kept d e k s.control)
      go d k (raised, e) s = IsControlled-IsBounded e (kept d e k s.control)

  rest_of-Shrunk :
      (n : ℕ) (x : Result Bool × Engine)
      → Shrunk n x
      → Shrunk n (continue (settle x.0 x.1).0 (λ _. fault_unless (pure true)) (settle x.0 x.1).1)
  unfolding Shrunk fault_unless pure
  rest_of-Shrunk n (ok true, e) s = elim s [ inl p ↦ absurd (ground (arith, p)) | inr q ↦ inr q ]
  rest_of-Shrunk n (ok false, e) s = elim s [ inl p ↦ absurd (ground (arith, p)) | inr q ↦ inr q ]
  rest_of-Shrunk n (early true, e) s = elim s [ inl p ↦ absurd (ground (arith, p)) | inr q ↦ inr q ]
  rest_of-Shrunk n (early false, e) s = elim s [
    | inl p ↦ absurd (ground (arith, p))
    | inr q ↦ inr q
  ]
  rest_of-Shrunk n (raised, e) s = inl refl

  rest_of_next-Shrunk :
      (n : ℕ) (e : Engine)
      → Shrunk n (execute_instruction (application_host app h) e)
      → Shrunk n (rest_of_next app h e)
  unfolding rest_of_next ◌>>=◌ fault_unless application_host
  rest_of_next-Shrunk n e s = rest_of-Shrunk n (execute_instruction (application_host app h) e) s

  Controlled-counted : (e : Engine) → Controlled e → Controlled (counted app h e)
  Controlled-counted e k =
      IsControlled-Same max_invocation_stack_size e _ (Same-data e _ refl refl refl) k

  -- Where the operations are spent, only the end of a script is passed.
  spent-free :
      (e d : Engine)
      → app.test_mode ≡ true
      → max_free_ops ≤ e.ops_processed
      → Passed app h e d
      → (c : ℕ) × (d ≡ counted app h e)
        × (peek (pos 0) e.invocation_stack ≡ some c)
        × (script_length (e.contexts c).script ≤ (e.contexts c).instruction_pointer)
  spent-free e d test spent p = elim p.paid [
    | inl (free, outside) ↦ (p.top, free, p.is_top, outside)
    | inr tested ↦ absurd (unfold is_refused in ground (arith, test, spent, p.steady.ops, tested))
  ]

  -- With the operations spent, an engine that still runs has ended a context.
  spent-shrinks :
      (e : Engine)
      → app.test_mode ≡ true
      → max_free_ops ≤ e.ops_processed
      → Controlled e
      → is_running (execute_next (application_host app h) e).vm_state ≡ true
      → suc (execute_next (application_host app h) e).invocation_stack.size
        ≤ e.invocation_stack.size
  unfolding Shrunk
  spent-shrinks e test spent k r = elim (Bool-cases (e.invocation_stack.size == 0)) [
    | inl no_context ↦ absurd (next-empty (application_host app h) e no_context r)
    | inr some_left ↦
        let (d, (p, _)) = next-Passed app h t.services t.faults e some_left r in
        let (c, same, top, outside) = spent-free e d test spent p in
        let (n, q) =
          recover-running app h t.services t.faults (rest_of_next app h d)
            (subst (λ (x : Engine). is_running x.vm_state ≡ true) p.went r) in
        let ended =
          execute_instruction-Shrunk (application_host app h) IsTame-application_host.service_local
            c (counted app h e) (Controlled-counted e k) top outside in
        let shrunk : Shrunk (e.invocation_stack.size - 1) (rest_of_next app h d) =
          rw same (rest_of_next-Shrunk (e.invocation_stack.size - 1) (counted app h e) ended) in
        elim shrunk [
          | inl threw ↦ absurd (n threw)
          | inr le ↦
              subst (λ (x : Engine). suc x.invocation_stack.size ≤ e.invocation_stack.size)
                (sym (p.went ∙ q)) (ground (arith, le, some_left))
        ]
  ]

  next-ops :
      (e : Engine)
      → is_running (execute_next (application_host app h) e).vm_state ≡ true
      → (execute_next (application_host app h) e).ops_processed ≡ suc e.ops_processed
  next-ops e r = elim (Bool-cases (e.invocation_stack.size == 0)) [
    | inl no_context ↦ absurd (next-empty (application_host app h) e no_context r)
    | inr some_left ↦
        let (d, (p, _)) = next-Passed app h t.services t.faults e some_left r in
        let (_, q) =
          recover-running app h t.services t.faults (rest_of_next app h d)
            (subst (λ (x : Engine). is_running x.vm_state ≡ true) p.went r) in
        let same = (IsQuiet-rest_of_next app h t.services t.faults).calm d in
        subst (λ (x : Engine). x.ops_processed ≡ suc e.ops_processed) (sym (p.went ∙ q))
          (omega (arith, same.same_ops, p.steady.ops))
  ]

  -- The loop from a state, by the state after one more call.
  Returns : ℕ → Engine → Type 0
  Returns fuel e = (e' : Engine) × (run_loop (application_host app h) fuel e ≡ some e')

  Returns-next :
      (fuel : ℕ) (e : Engine)
      → (is_running e.vm_state ≡ true
          → is_running (execute_next (application_host app h) e).vm_state ≡ true
          → Returns fuel (execute_next (application_host app h) e))
      → Returns (suc fuel) e
  unfolding Returns
  Returns-next fuel e f = elim (Bool-cases (is_running e.vm_state)) [
    | inr stopped ↦ (e, run_loop-stopped (application_host app h) (suc fuel) e stopped)
    | inl running ↦
        let first = run_loop-running (application_host app h) fuel e running in
        elim (Bool-cases (is_running (execute_next (application_host app h) e).vm_state)) [
          | inr stopped ↦ (_, first ∙ run_loop-stopped (application_host app h) fuel _ stopped)
          | inl still ↦ let (e', r) = f running still in (e', first ∙ r)
        ]
  ]

  module _ (test : app.test_mode ≡ true) where
    -- With the operations spent, a context is ended at each step.
    spent-Returns :
        (n : ℕ) (e : Engine)
        → max_free_ops ≤ e.ops_processed
        → Controlled e
        → e.invocation_stack.size ≤ n
        → Returns (suc n) e
    spent-Returns zero e spent k le =
        Returns-next zero e
          (λ _ still. absurd (omega (arith, le, spent-shrinks e test spent k still)))
    spent-Returns (suc n) e spent k le = Returns-next (suc n) e (λ _ still.
        spent-Returns n _ (omega (arith, spent, next-ops e still))
          (next-Controlled (application_host app h) e IsTame-application_host k still)
          (omega (arith, le, spent-shrinks e test spent k still)))

    -- Each step spends an operation.
    run-Returns :
        (n : ℕ) (e : Engine)
        → max_free_ops ≤ n + e.ops_processed
        → Controlled e
        → Returns (n + suc max_invocation_stack_size) e
    run-Returns zero e spent k =
        spent-Returns max_invocation_stack_size e (omega (arith, spent)) k k.upper
    run-Returns (suc n) e le k =
        let p : suc n + suc max_invocation_stack_size ≡ suc (n + suc max_invocation_stack_size) =
          omega arith in
        subst (λ fuel. Returns fuel e) (sym p)
          (Returns-next (n + suc max_invocation_stack_size) e (λ _ still.
            run-Returns n _ (omega (arith, le, next-ops e still))
              (next-Controlled (application_host app h) e IsTame-application_host k still)))

    pub first-returns :
        (script : List ℕ) (fuel : ℕ)
        → max_free_ops + max_invocation_stack_size + 1 ≤ fuel
        → (e : Engine) × (run_loop
              (application_host app h)
              fuel
              (first_state (application_host app h) script (negsuc 0))
            ≡ some e)
    unfolding Returns load_script load_script_internal
    first-returns script fuel le =
        let n = fuel - suc max_invocation_stack_size in
        let p : n + suc max_invocation_stack_size ≡ fuel = omega (arith, le) in
        subst (λ f. Returns f (first_state (application_host app h) script (negsuc 0))) p
          (run-Returns n _ (omega (arith, le))
            (Controlled-start (application_host app h) script (negsuc 0)))

-- A test invocation of any script ends: Run gives an answer with fuel for 501025 steps or more,
-- one for each of the 500000 free operations, one for each of the 1024 contexts that may then be
-- open, and the halt. Condition: the services leave the control state and the counters alone, and
-- exceptions fault.
pub run-returns :
    (app : ApplicationEngine) (h : Host) (script : List ℕ) (fuel : ℕ)
    → IsTameApplication app h
    → app.test_mode ≡ true
    → max_free_ops + max_invocation_stack_size + 1 ≤ fuel
    → (b : Bool) × ((e : Engine) × (run app h script fuel ≡ some (b, e)))
unfolding run
run-returns app h script fuel t test le =
    let (e, r) = first-returns app h t test script fuel le in
    (_, (e, execute-returns (application_host app h) script (negsuc 0) fuel e r))
