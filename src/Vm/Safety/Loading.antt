-- ===== src/Vm/Safety/Loading.antt =====
-- The invariant across the loading of a script, the removal of a context and a move of the pointer.
use neo_python.Prelude.{
  Bool-cases, List, [], arith, erase_at, false, get_elem?, inl, inr, length-append, refl, some, suc,
  true, zero, ℕ, ◌++◌, ◌+◌, ◌<◌, ◌==◌, ◌∷◌, ◌≡◌, ◌≤◌,
}
use neo_python.Prelude.Int.{ℤ}
use neo_python.Vm.Control.{IsLocal, Same, SameControl, SameControl-refl, SameControl-trans}
use neo_python.Vm.Engine.Contexts.{load_script_internal, new_execution_context}
use neo_python.Vm.Engine.Limits.{max_invocation_stack_size}
use neo_python.Vm.Instruction.{Script}
use neo_python.Vm.RandomAccessStack.{push_t}
use neo_python.Vm.Safety.{
  AllBelow, IsAmid, IsAmid-Same, IsControlled, IsControlled-Same, IsPlaced, Triple, Triple-local,
}
use neo_python.Vm.StackItem.{update}
use neo_python.Vm.State.{Action, Engine, ExecutionContext}

AllBelow-mono : (m n : ℕ) (cs : List ℕ) → m ≤ n → AllBelow m cs → AllBelow n cs
AllBelow-mono m n [] le b = tt
AllBelow-mono m n (c ∷ cs) le (h, b) = (omega (arith, le, h), AllBelow-mono m n cs le b)

AllBelow-snoc : (n c : ℕ) (cs : List ℕ) → AllBelow n cs → c < n → AllBelow n (cs ++ (c ∷ []))
AllBelow-snoc n c [] b h = (h, tt)
AllBelow-snoc n c (d ∷ cs) (k, b) h = (k, AllBelow-snoc n c cs b h)

pub AllBelow-erase_at : (n i : ℕ) (cs : List ℕ) → AllBelow n cs → AllBelow n (erase_at cs i)
AllBelow-erase_at n i [] b = tt
AllBelow-erase_at n zero (c ∷ cs) (h, b) = b
AllBelow-erase_at n (suc i) (c ∷ cs) (h, b) = (h, AllBelow-erase_at n i cs b)

pub AllBelow-get_elem? : (n i c : ℕ) (cs : List ℕ) → AllBelow n cs → get_elem? cs i ≡ some c → c < n
AllBelow-get_elem? n i c [] b h = absurd (ground arith)
AllBelow-get_elem? n zero c (d ∷ cs) (k, b) h = ground (arith, h, k)
AllBelow-get_elem? n (suc i) c (d ∷ cs) (k, b) h = AllBelow-get_elem? n i c cs b h

-- What holds while an instruction of the context `c` runs.
abbrev pub During : ℕ → ℕ → ℕ → ExecutionContext → Engine → Type 0
During lo hi c k e = IsControlled hi e × IsAmid lo c k e

pub During-Same :
    (lo hi c : ℕ) (k : ExecutionContext) (d e : Engine)
    → Same d e
    → During lo hi c k d
    → During lo hi c k e
During-Same lo hi c k d e s (x, y) = (IsControlled-Same hi d e s x, IsAmid-Same lo c k d e s y)

-- A local action within the limit.
pub During-local :
    {A : Type 0} (lo c : ℕ) (k : ExecutionContext) (m : Action A)
    → IsLocal m
    → Triple
        (During lo max_invocation_stack_size c k)
        m
        (λ _. During lo max_invocation_stack_size c k)
During-local lo c k m l =
    Triple-local (During lo max_invocation_stack_size c k) m
      (During-Same lo max_invocation_stack_size c k) (λ e p. p.0) l

pub IsPlaced-new : (script : Script) (rvcount : ℤ) → IsPlaced (new_execution_context script rvcount)
IsPlaced-new script rvcount = record {
  inside = (refl, ground arith);
  decoded = λ i h. absurd (ground arith);
}

pub IsPlaced-update :
    (f : ℕ → ExecutionContext) (c : ℕ) (b : ExecutionContext)
    → ((i : ℕ) → IsPlaced (f i))
    → IsPlaced b
    → (i : ℕ) → IsPlaced (update f c b i)
IsPlaced-update f c b p q i = elim (Bool-cases (i == c)) [
  | inl same ↦ rw same q
  | inr other ↦ rw other (p i)
]

-- The context that was loaded: it exists, is another than the one that runs, and is at its start.
pub record IsNew (c c' : ℕ) (script : Script) (rvcount : ℤ) (e : Engine) : Type 0 where
  pub exists : c' < e.next_context
  pub newest : suc c' ≡ e.next_context
  pub other : (c == c') ≡ false
  pub at_start : SameControl (new_execution_context script rvcount) (e.contexts c')

pub IsNew-Same :
    (c c' : ℕ) (script : Script) (rvcount : ℤ) (d e : Engine)
    → Same d e
    → IsNew c c' script rvcount d
    → IsNew c c' script rvcount e
IsNew-Same c c' script rvcount d e s n = record {
  exists = rw s.same_next n.exists;
  newest = rw s.same_next n.newest;
  other = n.other;
  at_start = SameControl-trans n.at_start (s.same_context c');
}

pub Triple-load_script_internal :
    (lo hi c : ℕ) (k : ExecutionContext) (script : Script) (rvcount : ℤ)
    → Triple
        (During lo hi c k)
        (load_script_internal script rvcount)
        (λ c' e. During (suc lo) (suc hi) c k e × IsNew c c' script rvcount e)
unfolding load_script_internal push_t
Triple-load_script_internal lo hi c k script rvcount = record {
  run = λ e (x, y).
      let other : (c == e.next_context) ≡ false = ground (arith, y.here) in
      let self : (e.next_context == e.next_context) ≡ true = ground arith in
      (
        (
          record {
            upper = omega (arith, x.upper);
            sized =
                omega
                  (arith, x.sized, length-append e.invocation_stack.items (e.next_context ∷ []));
            below =
                AllBelow-snoc (e.next_context + 1) e.next_context e.invocation_stack.items
                  (AllBelow-mono e.next_context (e.next_context + 1) _ (omega arith) x.below)
                  (omega arith);
            placed =
                IsPlaced-update e.contexts e.next_context _ x.placed (IsPlaced-new script rvcount);
          },
          record {
            lower = omega (arith, y.lower);
            here = omega (arith, y.here);
            same = rw other y.same;
          },
        ),
        record {
          exists = omega arith;
          newest = omega arith;
          other = other;
          at_start = rw self (SameControl-refl _);
        },
      );
}
