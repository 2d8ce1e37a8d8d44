-- ===== src/Vm/Execute/Runs.antt =====
-- neo/VM/ExecutionEngine.py: the loop of Execute, step by step, and the answer after it.
use neo_python.Prelude.{
  Bool, List, Option, ap, false, none, not, refl, some, suc, true, zero, ℕ, ◌∙◌, ◌≡◌,
}
use neo_python.Prelude.Int.{ℤ}
use neo_python.Vm.Engine.Contexts.{load_script, load_script_internal}
use neo_python.Vm.Execute.{execute, execute_next, new_engine, run_loop}
use neo_python.Vm.State.{Engine, Host, is_running, state_break}

pub run_loop-stopped :
    (h : Host) (fuel : ℕ) (e : Engine) → is_running e.vm_state ≡ false → run_loop h fuel e ≡ some e
unfolding run_loop
run_loop-stopped h zero e s = rw s refl
run_loop-stopped h (suc fuel) e s = rw s refl

pub run_loop-running :
    (h : Host) (fuel : ℕ) (e : Engine)
    → is_running e.vm_state ≡ true
    → run_loop h (suc fuel) e ≡ run_loop h fuel (execute_next h e)
unfolding run_loop
run_loop-running h fuel e s = rw s refl

executed : Option Engine → Option (Bool × Engine)
executed none = none
executed (some e) = some (not e.vm_state.fault, e)

execute_lem :
    (h : Host) (fuel : ℕ) (e : Engine)
    → execute h fuel e
      ≡ executed (run_loop h fuel (record e { vm_state = record e.vm_state { break = false } }))
unfolding execute executed
execute_lem h fuel e =
    go (run_loop h fuel (record e { vm_state = record e.vm_state { break = false } }))
  where
    go :
        (o : Option Engine)
        → elim o [ none ↦ none | some e' ↦ some (not e'.vm_state.fault, e') ] ≡ executed o
    go none = refl
    go (some e) = refl

abbrev pub first_state : Host → List ℕ → ℤ → Engine
first_state h script rvcount = record ((load_script h script rvcount new_engine).1) {
  vm_state = record state_break { break = false };
}

execute-start :
    (h : Host) (script : List ℕ) (rvcount : ℤ) (fuel : ℕ)
    → execute h fuel (load_script h script rvcount new_engine).1
      ≡ executed (run_loop h fuel (first_state h script rvcount))
unfolding load_script load_script_internal
execute-start h script rvcount fuel = execute_lem h fuel (load_script h script rvcount new_engine).1

-- Execute gives an answer where its loop ends.
pub execute-returns :
    (h : Host) (script : List ℕ) (rvcount : ℤ) (fuel : ℕ) (e : Engine)
    → run_loop h fuel (first_state h script rvcount) ≡ some e
    → execute h fuel (load_script h script rvcount new_engine).1 ≡ some (not e.vm_state.fault, e)
unfolding executed
execute-returns h script rvcount fuel e r = execute-start h script rvcount fuel ∙ ap executed r
