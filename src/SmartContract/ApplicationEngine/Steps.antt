-- ===== src/SmartContract/ApplicationEngine/Steps.antt =====
-- neo/SmartContract/ApplicationEngine.py: what one ExecuteNext of an application engine changes.
use neo_python.Prelude.{
  Bool, List, Option, arith, false, if◌then◌else◌, leb, none, refl, some, true, ℕ, ◌==◌, ◌≡◌,
}
use neo_python.Prelude.Int.{pos, ℤ}
use neo_python.SmartContract.ApplicationEngine.{
  ApplicationEngine, charge, consume, get_price, pre_execute_at, pre_execute_instruction,
}
use neo_python.SmartContract.InteropService.{find, invoke, method_hash}
use neo_python.Vm.Control.{IsLocal, IsLocal-pure, Same, Same-refl}
use neo_python.Vm.Control.Primitives.{Same-data}
use neo_python.Vm.Engine.Contexts.{current_context, current_instruction}
use neo_python.Vm.Engine.Monad.{gets, modify, or_raise, pure, raise, ◌>>=◌}
use neo_python.Vm.Execute.{execute_next}
use neo_python.Vm.Instruction.{Instruction, script_length}
use neo_python.Vm.RandomAccessStack.{empty, peek}
use neo_python.Vm.State.{Action, Engine, ExecutionContext, Host, is_running}

-- The services leave the control state and the counters alone.
pub record HasLocalService (app : ApplicationEngine) : Type 0 where
  pub each_local : (k : ℕ) (m : Action Bool) → find k app.service.dictionary ≡ some m → IsLocal m

module _ (app : ApplicationEngine) (h : Host) (l : HasLocalService app) where
  pub IsLocal-invoke : (bs : List ℕ) → IsLocal (invoke h app.service bs)
  unfolding invoke
  IsLocal-invoke bs = go (find (method_hash h bs) app.service.dictionary) refl
    where
      go :
          (o : Option (Action Bool))
          → find (method_hash h bs) app.service.dictionary ≡ o
          → IsLocal (elim o [ none ↦ pure false | some func ↦ func ])
      go none f = IsLocal-pure false
      go (some m) f = l.each_local (method_hash h bs) m f

-- PreExecuteInstruction leaves all but the gas alone.
pub record Steady (d e : Engine) : Type 0 where
  pub control : Same d e
  pub ops : e.ops_processed ≡ d.ops_processed
  pub state : e.vm_state ≡ d.vm_state

Steady-refl : (e : Engine) → Steady e e
Steady-refl e = record { control = Same-refl e; ops = refl; state = refl }

Steady-charge :
    (app : ApplicationEngine) (h : Host) (cx : ExecutionContext) (ins : Instruction) (e : Engine)
    → Steady e (charge app h cx ins e).1
unfolding charge consume modify gets pure raise ◌>>=◌
Steady-charge app h cx ins e = go (get_price h app.service e.heap cx ins) refl
  where
    go :
        (o : Option ℤ)
        → get_price h app.service e.heap cx ins ≡ o
        → Steady e (charge app h cx ins e).1
    go none p = rw p (Steady-refl e)
    go (some price) p =
        rw p record { control = Same-data e _ refl refl refl; ops = refl; state = refl }

pub Steady-pre_at :
    (app : ApplicationEngine) (h : Host) (cx : ExecutionContext) (e : Engine)
    → Steady e (pre_execute_at app h cx e).1
unfolding pre_execute_at pure raise ◌>>=◌
Steady-pre_at app h cx e =
    go (leb (script_length cx.script) cx.instruction_pointer) (current_instruction cx)
  where
    go :
        (b : Bool) (o : Option Instruction)
        → Steady e ((if b then pure true else (or_raise o >>= charge app h cx)) e).1
    go true o = Steady-refl e
    go false none = Steady-refl e
    go false (some ins) = Steady-charge app h cx ins e

-- PreExecuteInstruction changes no more than the gas.
pub Steady-pre :
    (app : ApplicationEngine) (h : Host) (e : Engine) → Steady e (pre_execute_instruction app h e).1
unfolding pre_execute_instruction current_context gets pure raise ◌>>=◌
Steady-pre app h e = go (peek (pos 0) e.invocation_stack) refl
  where
    go :
        (o : Option ℕ)
        → peek (pos 0) e.invocation_stack ≡ o
        → Steady e (pre_execute_instruction app h e).1
    go none p = rw p (Steady-refl e)
    go (some c) p = rw p (Steady-pre_at app h (e.contexts c) e)

-- ExecuteNext halts an engine that has no context left.
pub next-empty :
    (h : Host) (e : Engine)
    → (e.invocation_stack.size == 0) ≡ true
    → ¬ (is_running (execute_next h e).vm_state ≡ true)
unfolding execute_next
next-empty h e empty = rw empty (λ r. ground (arith, r))
