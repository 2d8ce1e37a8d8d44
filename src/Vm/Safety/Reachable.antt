-- ===== src/Vm/Safety/Reachable.antt =====
-- ExecuteNext, and the states that Execute passes through.
-- The engine faulted, with its bounds intact, or the invariant holds.
use neo_python.Prelude.{
  Bool, Bool-cases, List, Option, arith, false, inl, inr, none, refl, some, true, ℕ, ◌==◌, ◌≡◌, ◌⊎◌,
}
use neo_python.Prelude.Int.{negsuc, pos, ℤ}
use neo_python.Vm.Control.{IsLocal}
use neo_python.Vm.Control.Primitives.{Same-data}
use neo_python.Vm.Engine.Contexts.{
  current_context, current_instruction, load_script, load_script_internal,
}
use neo_python.Vm.Engine.Limits.{max_invocation_stack_size}
use neo_python.Vm.Engine.Monad.{continue, gets, or_raise, pure, raise, ◌>>=◌, ◌>>◌}
use neo_python.Vm.Execute.{
  execute_guarded, execute_instruction, execute_next, fault_unless, new_engine, recover, settle,
}
use neo_python.Vm.Instruction.{Instruction}
use neo_python.Vm.Ops.Arithmetic.{none_left}
use neo_python.Vm.RandomAccessStack.{peek, push_t}
use neo_python.Vm.Safety.{
  IsBounded, IsControlled, IsControlled-IsBounded, IsControlled-Same, Post, Triple,
}
use neo_python.Vm.Safety.Execution.{Triple-execute_instruction}
use neo_python.Vm.Safety.Handlers.{Never}
use neo_python.Vm.Safety.Loading.{IsPlaced-new, IsPlaced-update}
use neo_python.Vm.State.{
  Action, Engine, Host, Result, early, is_running, ok, raised, state_break, state_fault,
}

unfoldable pub IsSound : Engine → Type 0
IsSound e = ((e.vm_state.fault ≡ true) × IsBounded e) ⊎ IsControlled max_invocation_stack_size e

abbrev pub Controlled : Engine → Type 0
Controlled = IsControlled max_invocation_stack_size

-- What holds after a step of the `try` of ExecuteNext, which gives a value or raises.
abbrev pub GuardedPost : (Engine → Type 0) → Result (Unit {0}) × Engine → Type 0
GuardedPost Q (ok _, e) = Q e
GuardedPost Q (early b, e) = Never e
GuardedPost Q (raised, e) = IsBounded e

pub record Guarded (P : Engine → Type 0) (m : Action (Unit {0})) (Q : Engine → Type 0)
    : Type 0 where
  pub step : (e : Engine) → P e → GuardedPost Q (m e)

Guarded-then :
    (P Q R : Engine → Type 0) (m n : Action (Unit {0}))
    → Guarded P m Q
    → Guarded Q n R
    → Guarded P (m >> n) R
unfolding ◌>>=◌
Guarded-then P Q R m n g k = record { step = λ e p. go (m e) (g.step e p) }
  where
    go :
        (x : Result (Unit {0}) × Engine)
        → GuardedPost Q x
        → GuardedPost R (continue x.0 (λ _. n) x.1)
    go (ok _, e) q = k.step e q
    go (early b, e) q = q
    go (raised, e) q = q

-- What the outer methods rely on: the interop service leaves the control state and the counters
-- alone, the overridden methods keep the invariant, whatever they return, the one behind an instruction
-- also what is left of it, and exceptions fault.
pub record IsTame (h : Host) : Type 0 where
  pub service_local : (bs : List ℕ) → IsLocal (h.service_invoke bs)
  pub pre_kept : Guarded Controlled (fault_unless h.pre_execute_instruction) Controlled
  pub post_kept : Guarded IsSound (fault_unless h.post_execute_instruction) IsSound
  pub exits : h.exit_on_error ≡ true

pub Controlled-fault :
    (e : Engine) → Controlled e → Controlled (record e { vm_state = state_fault })
Controlled-fault e x =
    IsControlled-Same max_invocation_stack_size e _ (Same-data e _ refl refl refl) x

IsBounded-fault : (e : Engine) → IsBounded e → IsBounded (record e { vm_state = state_fault })
IsBounded-fault e p = record {
  at_most = p.at_most;
  counted = p.counted;
  known = p.known;
  in_script = p.in_script;
}

-- The method of the engine itself, which does nothing.
pub Guarded-true : (P : Engine → Type 0) → Guarded P (fault_unless (pure true)) P
unfolding fault_unless pure
Guarded-true P = record { step = λ e p. p }

Guarded-instruction :
    (m : Action Bool)
    → Triple Controlled m (λ _. Controlled)
    → Guarded Controlled (fault_unless m) IsSound
unfolding fault_unless IsSound
Guarded-instruction m t = record { step = λ e x. go (m e) (t.run e x) }
  where
    go :
        (x : Result Bool × Engine) → Post (λ _. Controlled) x → GuardedPost IsSound (settle x.0 x.1)
    go (ok true, e) p = inr p
    go (ok false, e) p = inr (Controlled-fault e p)
    go (early true, e) p = inr p
    go (early false, e) p = inl (refl, IsBounded-fault e p)
    go (raised, e) p = p

module _ (h : Host) (tame : IsTame h) where
  -- The three methods behind the decoding.
  methods : Action (Unit {0})
  methods = do
    fault_unless h.pre_execute_instruction
    fault_unless (execute_instruction h)
    fault_unless h.post_execute_instruction

  Guarded-methods : Guarded Controlled methods IsSound
  unfolding methods
  Guarded-methods = Guarded-then _ _ _ _ _ tame.pre_kept (
      Guarded-then _ _ _ _ _
        (Guarded-instruction _ (Triple-execute_instruction h tame.service_local)) tame.post_kept)

  Guarded-decoded : (o : Option Instruction) → Guarded Controlled (do or_raise o; methods) IsSound
  unfolding ◌>>=◌ pure raise
  Guarded-decoded none = record { step = λ e x. IsControlled-IsBounded e x }
  Guarded-decoded (some ins) = record { step = λ e x. Guarded-methods.step e x }

  Guarded-context :
      (o : Option ℕ)
      → Guarded Controlled
          (do
            c ← or_raise o
            ins ← or_raise (← gets (λ e. current_instruction (e.contexts c)))
            methods)
          IsSound
  unfolding ◌>>=◌ pure raise gets
  Guarded-context none = record { step = λ e x. IsControlled-IsBounded e x }
  Guarded-context (some c) = record {
    step = λ e x. (Guarded-decoded (current_instruction (e.contexts c))).step e x;
  }

  Guarded-execute_guarded : Guarded Controlled (execute_guarded h) IsSound
  unfolding execute_guarded current_context ◌>>=◌ gets methods
  Guarded-execute_guarded = record {
    step = λ e x. (Guarded-context (peek (pos 0) e.invocation_stack)).step e x;
  }

  recover-IsSound : (x : Result (Unit {0}) × Engine) → GuardedPost IsSound x → IsSound (recover h x)
  unfolding recover
  recover-IsSound (ok _, e) p = p
  recover-IsSound (early b, e) p = absurd (ground (arith, p))
  recover-IsSound (raised, e) p = rw tame.exits (unfold IsSound in inl (refl, IsBounded-fault e p))

  -- ExecuteNext, from a state that satisfies the invariant: the next state satisfies it too, or the
  -- engine has faulted and at least its bounds hold.
  pub execute_next-IsSound : (e : Engine) → Controlled e → IsSound (execute_next h e)
  unfolding execute_next
  execute_next-IsSound e x = elim (Bool-cases (e.invocation_stack.size == 0)) [
    | inl none_left ↦ rw none_left (
        unfold IsSound in
        inr (IsControlled-Same max_invocation_stack_size e _ (Same-data e _ refl refl refl) x))
    | inr some_left ↦ rw some_left (
        recover-IsSound _ (
          Guarded-execute_guarded.step _
            (IsControlled-Same max_invocation_stack_size e _ (Same-data e _ refl refl refl) x)))
  ]

-- An engine that still runs has not faulted.
pub next-Controlled :
    (h : Host) (e : Engine)
    → IsTame h
    → Controlled e
    → is_running (execute_next h e).vm_state ≡ true
    → Controlled (execute_next h e)
unfolding IsSound
next-Controlled h e tame k r = elim (execute_next-IsSound h tame e k) [
  | inl (fault, _) ↦ absurd (ground (arith, fault, r))
  | inr x ↦ x
]

-- The states of an engine that was given one script and runs: the start of the loop of Execute, and
-- one call of ExecuteNext after another while the engine is neither halted nor faulted nor broken.
pub data Reached (h : Host) (script : List ℕ) (rvcount : ℤ) : Engine → Type 0 where
  run_start : Reached h script rvcount (record ((load_script h script rvcount new_engine).1) {
    vm_state = record state_break { break = false };
  })
  after_next :
      (e : Engine)
      → Reached h script rvcount e
      → is_running e.vm_state ≡ true
      → Reached h script rvcount (execute_next h e)

pub Controlled-start :
    (h : Host) (script : List ℕ) (rvcount : ℤ)
    → Controlled (record ((load_script h script rvcount new_engine).1) {
      vm_state = record state_break { break = false };
    })
unfolding load_script load_script_internal push_t
Controlled-start h script rvcount = record {
  upper = omega arith;
  sized = refl;
  below = (omega arith, tt);
  placed =
      IsPlaced-update new_engine.contexts 0 _ (λ c. IsPlaced-new _ (negsuc 0))
        (IsPlaced-new _ rvcount);
}

-- Whatever script an engine is given, in every state of its run at most 1024 contexts are on the
-- invocation stack, the count of the stack is right, each of its references is to a loaded
-- context, and the pointer of every context but the one that was loaded last lies inside its
-- script or at its end; and unless the engine has faulted, so does that of the last one, and the
-- decoded instruction of every context is the one at its pointer. Condition: the interop service
-- leaves the control state and the counters alone, the methods around an instruction keep the
-- invariant, and exceptions fault.
pub Reached-IsSound :
    (h : Host) (script : List ℕ) (rvcount : ℤ) (e : Engine)
    → IsTame h
    → Reached h script rvcount e
    → IsSound e
unfolding IsSound
Reached-IsSound h script rvcount _ tame run_start = inr (Controlled-start h script rvcount)
Reached-IsSound h script rvcount _ tame (after_next e r running) =
    elim (Reached-IsSound h script rvcount e tame r) [
      | inl (fault, _) ↦ absurd (ground (arith, fault, running))
      | inr x ↦ execute_next-IsSound h tame e x
    ]
