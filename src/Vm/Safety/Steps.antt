-- ===== src/Vm/Safety/Steps.antt =====
-- Triples for the tests, the loading of scripts and the removal of contexts that calls are made of.
use neo_python.Prelude.{
  Bool, List, Option, arith, false, length-erase_at, ltb, none, not, refl, some, suc, true, ℕ, ◌-◌,
  ◌≡◌, ◌≤◌,
}
use neo_python.Prelude.Int.{pos, ℤ}
use neo_python.Vm.Control.{IsLocal, Same}
use neo_python.Vm.Control.Primitives.{IsLocal-vm_fault_and_report}
use neo_python.Vm.Engine.Contexts.{
  commit_remove, load_found, load_from_table, loaded_or_fail, remove_context,
}
use neo_python.Vm.Engine.Limits.{check_max_invocation_stack, max_invocation_stack_size}
use neo_python.Vm.Engine.Monad.{
  fail_if, fail_with, gets, modify, or_raise, pure, raise, return_early, skip, ◌>>=◌,
}
use neo_python.Vm.Instruction.{Script}
use neo_python.Vm.RandomAccessStack.Laws.{IsSized, remove-below_top}
use neo_python.Vm.Safety.{
  Controlled-Returned, IsControlled, IsControlled-IsBounded, IsControlled-weaken, Triple,
  Triple-bind, Triple-if, Triple-local, Triple-pure,
}
use neo_python.Vm.Safety.Loading.{
  AllBelow-erase_at, During, During-Same, IsNew, Triple-load_script_internal,
}
use neo_python.Vm.State.{Action, Engine, ExecutionContext, VmFault}

module _ {A : Type 0} where
  pub Triple-pre :
      (P R : Engine → Type 0) (m : Action A) (Q : A → Engine → Type 0)
      → ((e : Engine) → R e → P e)
      → Triple P m Q
      → Triple R m Q
  Triple-pre P R m Q imp t = record { run = λ e r. t.run e (imp e r) }

  pub Triple-gets :
      (P : Engine → Type 0) (f : Engine → A) → Triple P (gets f) (λ a e. P e × (a ≡ f e))
  unfolding gets
  Triple-gets P f = record { run = λ e p. (p, refl) }

-- Predicates that the control state decides and that imply the invariant.
pub record IsStable (P : Engine → Type 0) : Type 0 where
  pub stable : (d e : Engine) → Same d e → P d → P e
  pub safe : (e : Engine) → P e → IsControlled max_invocation_stack_size e

pub During-IsStable :
    (lo hi c : ℕ) (k : ExecutionContext)
    → hi ≤ max_invocation_stack_size
    → IsStable (During lo hi c k)
During-IsStable lo hi c k le = record {
  stable = During-Same lo hi c k;
  safe = λ e p. IsControlled-weaken hi max_invocation_stack_size e le p.0;
}

module _ (P : Engine → Type 0) (s : IsStable P) where
  pub Triple-stable : {A : Type 0} (m : Action A) → IsLocal m → Triple P m (λ _. P)
  Triple-stable m l = Triple-local P m s.stable s.safe l

  pub Triple-raise : {A : Type 0} (Q : A → Engine → Type 0) → Triple P raise Q
  unfolding raise
  Triple-raise Q = record { run = λ e p. IsControlled-IsBounded e (s.safe e p) }

  pub Triple-return_early :
      {A : Type 0} (Q : A → Engine → Type 0) (b : Bool) → Triple P (return_early b) Q
  unfolding return_early
  Triple-return_early Q b = record { run = λ e p. Controlled-Returned b e (s.safe e p) }

  pub Triple-fail_with :
      {A : Type 0} (Q : A → Engine → Type 0) (id : VmFault) → Triple P (fail_with id) Q
  unfolding fail_with
  Triple-fail_with Q id =
      Triple-bind _ _ _ _ _ (Triple-stable _ (IsLocal-vm_fault_and_report id))
        (λ b. Triple-return_early Q b)

  pub Triple-fail_if :
      (b : Bool) (id : VmFault) → Triple P (fail_if b id) (λ _ e. P e × (b ≡ false))
  unfolding fail_if skip
  Triple-fail_if true id = Triple-fail_with _ id
  Triple-fail_if false id = record { run = λ e p. (p, refl) }

  pub Triple-or_raise :
      {A : Type 0} (o : Option A) → Triple P (or_raise o) (λ a e. P e × (o ≡ some a))
  unfolding pure
  Triple-or_raise none = Triple-raise _
  Triple-or_raise (some a) = record { run = λ e p. (p, refl) }

-- A change of stacks alone never raises, so it may run above the limit.
pub Triple-modify :
    (P : Engine → Type 0) (f : Engine → Engine)
    → ((d e : Engine) → Same d e → P d → P e)
    → ((e : Engine) → Same e (f e))
    → Triple P (modify f) (λ _. P)
unfolding modify
Triple-modify P f stable same = record { run = λ e p. stable e (f e) (same e) p }

-- CheckMaxInvocationStack with the fault that follows it.
pub Triple-check_room :
    (lo c : ℕ) (k : ExecutionContext)
    → Triple (During lo max_invocation_stack_size c k) check_max_invocation_stack (λ room e.
      During lo max_invocation_stack_size c k e
      × (room ≡ ltb e.invocation_stack.size max_invocation_stack_size))
unfolding check_max_invocation_stack
Triple-check_room lo c k = Triple-gets _ _

-- A number of contexts below the limit, once the test has passed.
pub During-room :
    (lo c : ℕ) (k : ExecutionContext) (room : Bool) (e : Engine)
    → During lo max_invocation_stack_size c k e
    → room ≡ ltb e.invocation_stack.size max_invocation_stack_size
    → not room ≡ false
    → During lo 1023 c k e
During-room lo c k room e (x, y) r n = (
  record { upper = ground (arith, r, n); sized = x.sized; below = x.below; placed = x.placed },
  y,
)

-- What the loading by a hash gives.
abbrev pub Loaded : ℕ → ℕ → ℕ → ExecutionContext → ℤ → Option ℕ → Engine → Type 0
Loaded lo hi c k rvcount none e = During lo hi c k e
Loaded lo hi c k rvcount (some c') e =
    During (suc lo) (suc hi) c k e × ((script : Script) × IsNew c c' script rvcount e)

module _ (lo hi c : ℕ) (k : ExecutionContext) (le : hi ≤ max_invocation_stack_size) where
  Triple-load_found :
      (script_hash : List ℕ) (rvcount : ℤ) (o : Option (List ℕ))
      → Triple (During lo hi c k) (load_found script_hash rvcount o) (Loaded lo hi c k rvcount)
  unfolding load_found
  Triple-load_found script_hash rvcount none = Triple-pure (Loaded lo hi c k rvcount) none
  Triple-load_found script_hash rvcount (some script) =
      Triple-bind _ _ _ _ _ (Triple-load_script_internal lo hi c k _ rvcount)
        (λ c'. unfold pure in record { run = λ e (d, n). (d, (_, n)) })

  pub Triple-load_from_table :
      (script_hash : List ℕ) (rvcount : ℤ) (t : Option (List ℕ → Option (List ℕ)))
      → Triple (During lo hi c k) (load_from_table script_hash rvcount t) (Loaded lo hi c k rvcount)
  unfolding load_from_table
  Triple-load_from_table script_hash rvcount none = Triple-pure (Loaded lo hi c k rvcount) none
  Triple-load_from_table script_hash rvcount (some get_script) =
      Triple-if _ _ _ _ _ (Triple-load_found script_hash rvcount (get_script script_hash))
        (Triple-raise _ (During-IsStable lo hi c k le) _)

  pub Triple-loaded_or_fail :
      (rvcount : ℤ) (o : Option ℕ) (id : VmFault)
      → Triple
          (Loaded lo hi c k rvcount o)
          (loaded_or_fail o id)
          (λ c'. Loaded lo hi c k rvcount (some c'))
  unfolding loaded_or_fail
  Triple-loaded_or_fail rvcount none id = Triple-fail_with _ (During-IsStable lo hi c k le) _ id
  Triple-loaded_or_fail rvcount (some c') id =
      Triple-pure (λ c'. Loaded lo hi c k rvcount (some c')) c'

-- `istack.Remove(1)` removes the context below the one that was loaded last.
pub Triple-remove_context :
    (lo c : ℕ) (k : ExecutionContext)
    → Triple
        (During (suc (suc lo)) 1025 c k)
        (remove_context (pos 1))
        (λ _. During (suc lo) max_invocation_stack_size c k)
unfolding remove_context commit_remove ◌>>=◌ skip
Triple-remove_context lo c k = record {
  run = λ e (x, y).
      let (a, r) =
        remove-below_top e.invocation_stack (unfold IsSized in x.sized) (omega (arith, y.lower)) in
      rw r (
        record {
          upper = omega (arith, x.upper);
          sized = omega (
            arith,
            x.sized,
            y.lower,
            length-erase_at e.invocation_stack.items (e.invocation_stack.size - 2),
          );
          below = AllBelow-erase_at e.next_context (e.invocation_stack.size - 2) _ x.below;
          placed = x.placed;
        },
        record { lower = omega (arith, y.lower); here = y.here; same = y.same },
      );
}
