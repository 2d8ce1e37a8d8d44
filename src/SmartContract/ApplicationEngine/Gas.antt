-- ===== src/SmartContract/ApplicationEngine/Gas.antt =====
-- neo/SmartContract/ApplicationEngine.py: the gas that a run consumes.
use neo_python.Prelude.{
  Bool-cases, List, arith, false, inl, inr, subst, sym, true, ℕ, ◌==◌, ◌∙◌, ◌≡◌,
}
use neo_python.Prelude.Int.{pos, ℤ, ◌≤ℤ◌}
use neo_python.SmartContract.ApplicationEngine.{ApplicationEngine, application_host, is_refused}
use neo_python.SmartContract.ApplicationEngine.Passes.{
  IsQuiet-rest_of_next, Passed, next-Passed, recover-running, rest_of_next,
}
use neo_python.SmartContract.ApplicationEngine.Steps.{HasLocalService, next-empty}
use neo_python.Vm.Engine.Contexts.{load_script, load_script_internal}
use neo_python.Vm.Execute.{execute_next}
use neo_python.Vm.Safety.Reachable.{Reached, after_next, run_start}
use neo_python.Vm.State.{Engine, Host, is_running}

module _ (app : ApplicationEngine) (h : Host) where
  -- With the test of the gas behind it, an engine that was not refused is within its amount.
  not_refused-gas :
      (d : Engine)
      → app.test_mode ≡ false
      → is_refused app d ≡ false
      → d.gas_consumed ≤ℤ app.gas_amount
  unfolding is_refused
  not_refused-gas d real r = ground (arith, real, r)

  next-gas :
      (e d : Engine)
      → HasLocalService app
      → h.exit_on_error ≡ true
      → app.test_mode ≡ false
      → e.gas_consumed ≤ℤ app.gas_amount
      → Passed app h e d
      → is_running (execute_next (application_host app h) e).vm_state ≡ true
      → (execute_next (application_host app h) e).gas_consumed ≤ℤ app.gas_amount
  next-gas e d l exits real le p r =
      let (_, q) =
        recover-running app h l exits (rest_of_next app h d)
          (subst (λ (x : Engine). is_running x.vm_state ≡ true) p.went r) in
      let same = (IsQuiet-rest_of_next app h l exits).calm d in
      let before : d.gas_consumed ≤ℤ app.gas_amount = elim p.paid [
        | inl (free, _) ↦ rw free le
        | inr tested ↦ not_refused-gas d real tested
      ] in
      subst (λ (x : Engine). x.gas_consumed ≤ℤ app.gas_amount) (sym (p.went ∙ q))
        (rw same.same_gas before)

-- Outside of test mode, the gas that an engine has consumed is at most the amount that it was
-- given, in every state of its run in which it is running. Condition: the amount is not negative,
-- the services leave the control state and the counters alone, and exceptions fault.
pub Reached-gas :
    (app : ApplicationEngine) (h : Host) (script : List ℕ) (rvcount : ℤ) (e : Engine)
    → HasLocalService app
    → h.exit_on_error ≡ true
    → app.test_mode ≡ false
    → pos 0 ≤ℤ app.gas_amount
    → Reached (application_host app h) script rvcount e
    → is_running e.vm_state ≡ true
    → e.gas_consumed ≤ℤ app.gas_amount
unfolding load_script load_script_internal execute_next
Reached-gas app h script rvcount _ l exits real le run_start r = le
Reached-gas app h script rvcount _ l exits real le (after_next e reached before) r =
    elim (Bool-cases (e.invocation_stack.size == 0)) [
      | inl no_context ↦ absurd (next-empty (application_host app h) e no_context r)
      | inr some_left ↦
          let (d, (p, _)) = next-Passed app h l exits e some_left r in
          next-gas app h e d l exits real
            (Reached-gas app h script rvcount e l exits real le reached before) p r
    ]
