-- ===== src/Vm/Control.antt =====
-- The control state of the engine (the invocation stack, and of each context the script, the pointer
-- and the decoded instruction), and the actions that leave it alone.
pub mod Primitives
pub mod DataOps
pub mod NumericOps
pub mod CryptoOps
pub mod CollectionParts
pub mod CollectionOps
pub mod Branches
use neo_python.Prelude.{Bool, Option, false, if◌then◌else◌, none, refl, some, true, ℕ, ◌∙◌, ◌≡◌}
use neo_python.Vm.Engine.Monad.{
  commit, continue, gets, or_raise, pure, raise, return_early, skip, ◌>>=◌,
}
use neo_python.Vm.State.{Action, Engine, ExecutionContext, Result, early, is_running, ok, raised}

-- Two contexts agree on all but their stacks.
pub record SameControl (a b : ExecutionContext) : Type 0 where
  pub same_script : b.script ≡ a.script
  pub same_pointer : b.instruction_pointer ≡ a.instruction_pointer
  pub same_astray : b.astray ≡ a.astray
  pub same_ins : b.ins ≡ a.ins
  pub same_rv_count : b.rv_count ≡ a.rv_count

-- Two engines agree on the invocation stack and on the control part of every context.
pub record Same (d e : Engine) : Type 0 where
  pub same_stack : e.invocation_stack ≡ d.invocation_stack
  pub same_next : e.next_context ≡ d.next_context
  pub same_context : (c : ℕ) → SameControl (d.contexts c) (e.contexts c)

-- The counters of operations and of gas are the same, and an engine that had stopped has not started
-- again.
pub record Quiet (d e : Engine) : Type 0 where
  pub same_ops : e.ops_processed ≡ d.ops_processed
  pub same_gas : e.gas_consumed ≡ d.gas_consumed
  pub no_restart : is_running e.vm_state ≡ true → is_running d.vm_state ≡ true

-- An action that leaves the counters alone and starts no engine that has stopped.
pub record IsQuiet {A : Type 0} (m : Action A) : Type 0 where
  pub calm : (e : Engine) → Quiet e (m e).1

-- A quiet action that leaves the control state alone, however it ends.
pub record IsLocal {A : Type 0} (m : Action A) : Type 0 where
  pub at : (e : Engine) → Same e (m e).1
  pub quiet : IsQuiet m

pub SameControl-refl : (a : ExecutionContext) → SameControl a a
SameControl-refl a = record {
  same_script = refl;
  same_pointer = refl;
  same_astray = refl;
  same_ins = refl;
  same_rv_count = refl;
}

pub SameControl-trans :
    {a b c : ExecutionContext} → SameControl a b → SameControl b c → SameControl a c
SameControl-trans p q = record {
  same_script = q.same_script ∙ p.same_script;
  same_pointer = q.same_pointer ∙ p.same_pointer;
  same_astray = q.same_astray ∙ p.same_astray;
  same_ins = q.same_ins ∙ p.same_ins;
  same_rv_count = q.same_rv_count ∙ p.same_rv_count;
}

pub Same-refl : (e : Engine) → Same e e
Same-refl e = record {
  same_stack = refl;
  same_next = refl;
  same_context = λ c. SameControl-refl (e.contexts c);
}

pub Same-trans : {d e f : Engine} → Same d e → Same e f → Same d f
Same-trans p q = record {
  same_stack = q.same_stack ∙ p.same_stack;
  same_next = q.same_next ∙ p.same_next;
  same_context = λ c. SameControl-trans (p.same_context c) (q.same_context c);
}

pub Quiet-refl : (e : Engine) → Quiet e e
Quiet-refl e = record { same_ops = refl; same_gas = refl; no_restart = λ r. r }

pub Quiet-trans : {d e f : Engine} → Quiet d e → Quiet e f → Quiet d f
Quiet-trans p q = record {
  same_ops = q.same_ops ∙ p.same_ops;
  same_gas = q.same_gas ∙ p.same_gas;
  no_restart = λ r. p.no_restart (q.no_restart r);
}

pub Quiet-commit :
    {A S : Type 0} (o : Option (A × S)) (put : S → Engine → Engine) (e : Engine)
    → ((s : S) → Quiet e (put s e))
    → Quiet e (commit o put e).1
Quiet-commit none put e q = Quiet-refl e
Quiet-commit (some (a, s)) put e q = q s

-- An action that gives the engine back as it was.
pub IsQuiet-still : {A : Type 0} (m : Action A) → ((e : Engine) → (m e).1 ≡ e) → IsQuiet m
IsQuiet-still m same = record { calm = λ e. rw (same e) (Quiet-refl e) }

pub IsLocal-still : {A : Type 0} (m : Action A) → ((e : Engine) → (m e).1 ≡ e) → IsLocal m
IsLocal-still m same = record { at = λ e. rw (same e) (Same-refl e); quiet = IsQuiet-still m same }

module _ {A B : Type 0} where
  pub IsQuiet-bind :
      (m : Action A) (f : A → Action B) → IsQuiet m → ((a : A) → IsQuiet (f a)) → IsQuiet (m >>= f)
  unfolding ◌>>=◌
  IsQuiet-bind m f km kf = record {
    calm = λ e. let (r, e') = m e in Quiet-trans (km.calm e) (rest r e');
  }
    where
      rest : (r : Result A) (e : Engine) → Quiet e (continue r f e).1
      rest (ok a) e = (kf a).calm e
      rest (early b) e = Quiet-refl e
      rest raised e = Quiet-refl e

module _ {A : Type 0} where
  pub IsLocal-pure : (a : A) → IsLocal (pure a)
  unfolding pure
  IsLocal-pure a = IsLocal-still _ (λ e. refl)

  pub IsLocal-raise : IsLocal (raise {A = A})
  unfolding raise
  IsLocal-raise = IsLocal-still _ (λ e. refl)

  pub IsLocal-return_early : (b : Bool) → IsLocal (return_early {A = A} b)
  unfolding return_early
  IsLocal-return_early b = IsLocal-still _ (λ e. refl)

  pub IsLocal-gets : (f : Engine → A) → IsLocal (gets f)
  unfolding gets
  IsLocal-gets f = IsLocal-still _ (λ e. refl)

  pub IsLocal-or_raise : (o : Option A) → IsLocal (or_raise o)
  IsLocal-or_raise none = IsLocal-raise
  IsLocal-or_raise (some a) = IsLocal-pure a

  pub IsLocal-if :
      (b : Bool) (m n : Action A) → IsLocal m → IsLocal n → IsLocal (if b then m else n)
  IsLocal-if true m n km kn = km
  IsLocal-if false m n km kn = kn

pub IsLocal-skip : IsLocal skip
unfolding skip
IsLocal-skip = IsLocal-still _ (λ e. refl)

module _ {A B : Type 0} where
  pub IsLocal-bind :
      (m : Action A) (f : A → Action B) → IsLocal m → ((a : A) → IsLocal (f a)) → IsLocal (m >>= f)
  unfolding ◌>>=◌
  IsLocal-bind m f km kf = record {
    at = λ e. let (r, e') = m e in Same-trans (km.at e) (rest r e');
    quiet = IsQuiet-bind m f km.quiet (λ a. (kf a).quiet);
  }
    where
      rest : (r : Result A) (e : Engine) → Same e (continue r f e).1
      rest (ok a) e = (kf a).at e
      rest (early b) e = Same-refl e
      rest raised e = Same-refl e

  pub IsLocal-elim :
      (o : Option A) (m : Action B) (f : A → Action B)
      → IsLocal m
      → ((a : A) → IsLocal (f a))
      → IsLocal (elim o [ none ↦ m | some a ↦ f a ])
  IsLocal-elim none m f km kf = km
  IsLocal-elim (some a) m f km kf = kf a

pub ruleset local_rules = (
  IsLocal-pure, IsLocal-raise, IsLocal-return_early, IsLocal-gets, IsLocal-or_raise, IsLocal-if,
  IsLocal-skip, IsLocal-bind, IsLocal-elim,
)
