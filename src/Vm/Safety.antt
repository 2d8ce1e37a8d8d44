-- ===== src/Vm/Safety.antt =====
-- The control state of the engine stays within bounds: the invariant, and triples for actions.
pub mod LocalParts
pub mod Loading
pub mod Steps
pub mod Calls
pub mod Handlers
pub mod Jumps
pub mod Run
pub mod Execution
pub mod Reachable
pub mod Quiet
use neo_python.Prelude.{
  Bool, List, [], arith, false, if◌then◌else◌, length, none, some, suc, sym, true, ℕ, ◌<◌, ◌==◌,
  ◌∙◌, ◌∷◌, ◌≡◌, ◌≤◌,
}
use neo_python.Vm.Control.{IsLocal, Same, SameControl, SameControl-trans}
use neo_python.Vm.Engine.Contexts.{get_instruction}
use neo_python.Vm.Engine.Limits.{max_invocation_stack_size}
use neo_python.Vm.Engine.Monad.{continue, pure, ◌>>=◌}
use neo_python.Vm.Instruction.{Instruction, script_length}
use neo_python.Vm.State.{Action, Engine, ExecutionContext, Result, early, ok, raised}

-- Every reference of a list is smaller than a bound.
abbrev pub AllBelow : ℕ → List ℕ → Type 0
AllBelow n [] = Unit
AllBelow n (c ∷ cs) = (c < n) × AllBelow n cs

-- The pointer of a context lies in its script or at its end.
abbrev pub IsInside : ExecutionContext → Type 0
IsInside c = (c.astray ≡ none) × (c.instruction_pointer ≤ script_length c.script)

-- The pointer lies inside, and the instruction that the context has decoded is the one at the pointer.
pub record IsPlaced (c : ExecutionContext) : Type 0 where
  pub inside : IsInside c
  pub decoded :
      (i : Instruction) → c.ins ≡ some i → get_instruction c.script c.instruction_pointer ≡ some i

-- The invocation stack has at most `hi` contexts, its count is right, each of its references is
-- to a context that exists, and every context is placed.
pub record IsControlled (hi : ℕ) (e : Engine) : Type 0 where
  pub upper : e.invocation_stack.size ≤ hi
  pub sized : e.invocation_stack.size ≡ length e.invocation_stack.items
  pub below : AllBelow e.next_context e.invocation_stack.items
  pub placed : (c : ℕ) → IsPlaced (e.contexts c)

-- The context of the running instruction exists and has the control part of `k`, and at least `lo`
-- contexts are on the stack.
pub record IsAmid (lo c : ℕ) (k : ExecutionContext) (e : Engine) : Type 0 where
  pub lower : lo ≤ e.invocation_stack.size
  pub here : c < e.next_context
  pub same : SameControl k (e.contexts c)

IsPlaced-Same : (a b : ExecutionContext) → SameControl a b → IsPlaced a → IsPlaced b
IsPlaced-Same a b s p = record {
  inside = rw (s.same_script, s.same_pointer, s.same_astray) p.inside;
  decoded = λ i h. rw (s.same_script, s.same_pointer) (p.decoded i (sym s.same_ins ∙ h));
}

pub IsControlled-Same : (hi : ℕ) (d e : Engine) → Same d e → IsControlled hi d → IsControlled hi e
IsControlled-Same hi d e s k = record {
  upper = rw s.same_stack k.upper;
  sized = rw s.same_stack k.sized;
  below = rw (s.same_stack, s.same_next) k.below;
  placed = λ c. IsPlaced-Same (d.contexts c) (e.contexts c) (s.same_context c) (k.placed c);
}

pub IsAmid-Same :
    (lo c : ℕ) (k : ExecutionContext) (d e : Engine) → Same d e → IsAmid lo c k d → IsAmid lo c k e
IsAmid-Same lo c k d e s a = record {
  lower = rw s.same_stack a.lower;
  here = rw s.same_next a.here;
  same = SameControl-trans a.same (s.same_context c);
}

pub IsControlled-weaken : (lo hi : ℕ) (e : Engine) → lo ≤ hi → IsControlled lo e → IsControlled hi e
IsControlled-weaken lo hi e le k = record {
  upper = omega (arith, le, k.upper);
  sized = k.sized;
  below = k.below;
  placed = k.placed;
}

-- What is left of the invariant where an instruction failed: a context may hold an instruction that is not
-- the one at its pointer, and the pointer of the context that was loaded last may lie outside of its script.
pub record IsBounded (e : Engine) : Type 0 where
  pub at_most : e.invocation_stack.size ≤ max_invocation_stack_size
  pub counted : e.invocation_stack.size ≡ length e.invocation_stack.items
  pub known : AllBelow e.next_context e.invocation_stack.items
  pub in_script : (c : ℕ) → (suc c == e.next_context) ≡ false → IsInside (e.contexts c)

pub IsControlled-IsBounded : (e : Engine) → IsControlled max_invocation_stack_size e → IsBounded e
IsControlled-IsBounded e k = record {
  at_most = k.upper;
  counted = k.sized;
  known = k.below;
  in_script = λ c older. (k.placed c).inside;
}

-- What holds after a `return` of a truth value.
abbrev pub Returned : Bool → Engine → Type 0
Returned true e = IsControlled max_invocation_stack_size e
Returned false e = IsBounded e

pub Controlled-Returned :
    (b : Bool) (e : Engine) → IsControlled max_invocation_stack_size e → Returned b e
Controlled-Returned true e k = k
Controlled-Returned false e k = IsControlled-IsBounded e k

-- What holds after an action: `Q` of a value, the invariant after `return True`, and its bounds after
-- `return False` or an exception.
abbrev pub Post : {A : Type 0} → (A → Engine → Type 0) → Result A × Engine → Type 0
Post Q (ok a, e) = Q a e
Post Q (early b, e) = Returned b e
Post Q (raised, e) = IsBounded e

pub record Triple {A : Type 0} (P : Engine → Type 0) (m : Action A) (Q : A → Engine → Type 0)
    : Type 0 where
  pub run : (e : Engine) → P e → Post Q (m e)

module _ {A B : Type 0} where
  pub Triple-bind :
      (P : Engine → Type 0) (m : Action A) (Q : A → Engine → Type 0) (f : A → Action B)
      (R : B → Engine → Type 0)
      → Triple P m Q
      → ((a : A) → Triple (Q a) (f a) R)
      → Triple P (m >>= f) R
  unfolding ◌>>=◌
  Triple-bind P m Q f R tm tf = record { run = λ e p. go (m e) (tm.run e p) }
    where
      go : (x : Result A × Engine) → Post Q x → Post R (continue x.0 f x.1)
      go (ok a, e) q = (tf a).run e q
      go (early b, e) q = q
      go (raised, e) q = q

module _ {A : Type 0} where
  -- An action that leaves the control state alone keeps what depends on that state only.
  pub Triple-local :
      (P : Engine → Type 0) (m : Action A)
      → ((d e : Engine) → Same d e → P d → P e)
      → ((e : Engine) → P e → IsControlled max_invocation_stack_size e)
      → IsLocal m
      → Triple P m (λ _. P)
  Triple-local P m stable keeps l = record { run = λ e p. go e p (m e) (l.at e) }
    where
      go : (d : Engine) → P d → (x : Result A × Engine) → Same d x.1 → Post (λ _. P) x
      go d p (ok a, e) s = stable d e s p
      go d p (early b, e) s = Controlled-Returned b e (keeps e (stable d e s p))
      go d p (raised, e) s = IsControlled-IsBounded e (keeps e (stable d e s p))

  pub Triple-weaken :
      (P : Engine → Type 0) (m : Action A) (Q R : A → Engine → Type 0)
      → ((a : A) (e : Engine) → Q a e → R a e)
      → Triple P m Q
      → Triple P m R
  Triple-weaken P m Q R imp t = record { run = λ e p. go (m e) (t.run e p) }
    where
      go : (x : Result A × Engine) → Post Q x → Post R x
      go (ok a, e) q = imp a e q
      go (early b, e) q = q
      go (raised, e) q = q

  pub Triple-pure : (Q : A → Engine → Type 0) (a : A) → Triple (Q a) (pure a) Q
  unfolding pure
  Triple-pure Q a = record { run = λ e p. p }

  pub Triple-if :
      (P : Engine → Type 0) (b : Bool) (m n : Action A) (Q : A → Engine → Type 0)
      → Triple P m Q
      → Triple P n Q
      → Triple P (if b then m else n) Q
  Triple-if P true m n Q tm tn = tm
  Triple-if P false m n Q tm tn = tn
