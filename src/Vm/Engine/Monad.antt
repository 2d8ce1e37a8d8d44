-- ===== src/Vm/Engine/Monad.antt =====
-- Actions on the engine: sequencing, exceptions and returns.
use neo_python.Prelude.{Bool, Option, false, if◌then◌else◌, none, some}
use neo_python.Vm.State.{Action, Engine, Result, VmFault, early, ok, raised, state_fault}

abbrev pub continue : {A B : Type 0} → Result A → (A → Action B) → Action B
continue (ok a) f e = f a e
continue (early b) f e = (early b, e)
continue raised f e = (raised, e)

infixl 5 ◌>>=◌ ◌>>◌
unfoldable pub ◌>>=◌ : {A B : Type 0} → Action A → (A → Action B) → Action B
◌>>=◌ m f e = let (r, e') = m e in continue r f e'

abbrev pub ◌>>◌ : {A B : Type 0} → Action A → Action B → Action B
m >> k = m >>= λ _. k

module _ {A : Type 0} where
  unfoldable pub pure : A → Action A
  pure a e = (ok a, e)

  -- `raise`
  unfoldable pub raise : Action A
  raise e = (raised, e)

  -- `return b` of ExecuteInstruction; `return` alone gives None, which is tested like False.
  unfoldable pub return_early : Bool → Action A
  return_early b e = (early b, e)

  unfoldable pub gets : (Engine → A) → Action A
  gets f e = (ok (f e), e)

  abbrev pub or_raise : Option A → Action A
  or_raise none = raise
  or_raise (some a) = pure a

unfoldable pub modify : (Engine → Engine) → Action (Unit {0})
modify f e = (ok tt, f e)

unfoldable pub skip : Action (Unit {0})
skip e = (ok tt, e)

-- The value and the new container that a method gave, written back, or the exception.
abbrev pub commit : {A S : Type 0} → Option (A × S) → (S → Engine → Engine) → Action A
commit none put e = (raised, e)
commit (some (a, s)) put e = (ok a, put s e)

abbrev pub commit_unit : {S : Type 0} → Option S → (S → Engine → Engine) → Action (Unit {0})
commit_unit none put e = (raised, e)
commit_unit (some s) put e = (ok tt, put s e)

-- `self._VMState = VmState.FAULT`
unfoldable pub set_fault : Action (Unit {0})
set_fault e = (ok tt, record e { vm_state = state_fault })

-- VM_FAULT_and_report, without its lines for the log. It returns False.
unfoldable pub vm_fault_and_report : VmFault → Action Bool
vm_fault_and_report id e = (ok false, record e { vm_state = state_fault })

-- `return self.VM_FAULT_and_report(id)`
unfoldable pub fail_with : {A : Type 0} → VmFault → Action A
fail_with id = do b ← vm_fault_and_report id; return_early b

-- `if c: return self.VM_FAULT_and_report(id)`
unfoldable pub fail_if : Bool → VmFault → Action (Unit {0})
fail_if c id = if c then fail_with id else skip
