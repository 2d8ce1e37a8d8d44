-- ===== src/Vm/Safety/Jumps.antt =====
-- The moves of the pointer: the jumps and MoveNext.
-- The pointer of a context was moved, and its decoded instruction not yet.
use neo_python.Prelude.{
  Bool, Bool-cases, Option, ap, arith, false, if◌then◌else◌, inl, inr, none, refl, some, subst, sym,
  true, ℕ, ◌+◌, ◌==◌, ◌∙◌, ◌≡◌, ◌≤◌,
}
use neo_python.Prelude.Int.{ℤ}
use neo_python.Vm.Control.{SameControl}
use neo_python.Vm.Engine.Contexts.{current_instruction, get_instruction, jump_to, move_next}
use neo_python.Vm.Engine.Limits.{max_invocation_stack_size}
use neo_python.Vm.Engine.Monad.{gets, modify, or_raise, pure, raise}
use neo_python.Vm.Instruction.{Instruction, Script, instruction_size, script_length, token_i16}
use neo_python.Vm.Ops.Flow.{offset_or_fail, op_jmp, target}
use neo_python.Vm.Safety.{IsBounded, IsControlled, IsInside, IsPlaced, Triple, Triple-bind}
use neo_python.Vm.Safety.Calls.{Kept, Kept-IsStable, target-inside}
use neo_python.Vm.Safety.Handlers.{Never, plain-IsStable}
use neo_python.Vm.Safety.LocalParts.{IsLocal-jump_condition}
use neo_python.Vm.Safety.Steps.{
  IsStable, Triple-fail_with, Triple-gets, Triple-or_raise, Triple-pre, Triple-return_early,
  Triple-stable,
}
use neo_python.Vm.StackItem.{update}
use neo_python.Vm.State.{Engine, ExecutionContext, Host, invalid_jump}

record IsMoved (c offset : ℕ) (e : Engine) : Type 0 where
  bounds : IsBounded e
  inside_now : IsInside (e.contexts c)
  others : (i : ℕ) → (i == c) ≡ false → IsPlaced (e.contexts i)
  moved : (e.contexts c).instruction_pointer ≡ offset

-- The invariant, and a place in the script of a context to move to.
abbrev Ready : ℕ → ℕ → Engine → Type 0
Ready c offset e =
    IsControlled max_invocation_stack_size e × (offset ≤ script_length (e.contexts c).script)

IsInside-update :
    (f : ℕ → ExecutionContext) (c offset : ℕ)
    → ((i : ℕ) → IsPlaced (f i))
    → offset ≤ script_length (f c).script
    → (i : ℕ)
    → IsInside (update f c (record (f c) { instruction_pointer = offset; astray = none }) i)
IsInside-update f c offset h le i = elim (Bool-cases (i == c)) [
  | inl same ↦ rw same (refl, le)
  | inr other ↦ rw other (h i).inside
]

Triple-move :
    (c offset : ℕ)
    → Triple
        (Ready c offset)
        (modify (λ e. record e {
          contexts =
              update e.contexts c
                (record (e.contexts c) { instruction_pointer = offset; astray = none });
        }))
        (λ _. IsMoved c offset)
unfolding modify
Triple-move c offset = record {
  run = λ e (x, le).
      let self : (c == c) ≡ true = ground arith in
      record {
        bounds = record {
          at_most = x.upper;
          counted = x.sized;
          known = x.below;
          in_script = λ i older. IsInside-update e.contexts c offset x.placed le i;
        };
        inside_now = IsInside-update e.contexts c offset x.placed le c;
        others = λ i other. rw other (x.placed i);
        moved = rw self refl;
      };
}

-- Every context is placed if all but one were and it is now.
IsPlaced-at :
    (f : ℕ → ExecutionContext) (c : ℕ) (b : ExecutionContext)
    → ((i : ℕ) → (i == c) ≡ false → IsPlaced (f i))
    → IsPlaced b
    → (i : ℕ) → IsPlaced (update f c b i)
IsPlaced-at f c b p q i = elim (Bool-cases (i == c)) [
  | inl same ↦ rw same q
  | inr other ↦ rw other (p i other)
]

-- Decoding where the pointer is now. Where it raises, the old instruction stays.
Triple-decode :
    (c offset : ℕ) (script : Script) (o : Option Instruction)
    → Triple
        (λ e. IsMoved c offset e × (script ≡ (e.contexts c).script))
        (or_raise o)
        (λ i e. (IsMoved c offset e × (script ≡ (e.contexts c).script)) × (o ≡ some i))
unfolding pure raise
Triple-decode c offset script none = record { run = λ e (m, s). m.bounds }
Triple-decode c offset script (some i) = record { run = λ e p. (p, refl) }

Triple-decoded :
    (c offset : ℕ) (script : Script) (i : Instruction)
    → Triple
        (λ e.
          (IsMoved c offset e × (script ≡ (e.contexts c).script))
          × (get_instruction script offset ≡ some i))
        (modify (λ e. record e {
          contexts = update e.contexts c (record (e.contexts c) { ins = some i });
        }))
        (λ _. IsControlled max_invocation_stack_size)
unfolding modify
Triple-decoded c offset script i = record {
  run = λ e ((m, s), g). record {
    upper = m.bounds.at_most;
    sized = m.bounds.counted;
    below = m.bounds.known;
    placed =
        IsPlaced-at e.contexts c _ m.others
          (record { inside = m.inside_now; decoded = λ j h. rw (sym s, m.moved) (g ∙ h) });
  };
}

pub Triple-jump_to :
    (c offset : ℕ)
    → Triple (Ready c offset) (jump_to c offset) (λ _. IsControlled max_invocation_stack_size)
unfolding jump_to
Triple-jump_to c offset = Triple-bind _ _ _ _ _ (Triple-move c offset) (λ _.
    Triple-bind _ _ _ _ _ (Triple-gets (IsMoved c offset) (λ e. (e.contexts c).script)) (λ script.
      Triple-bind _ _ _ _ _ (Triple-decode c offset script _)
        (λ i. Triple-decoded c offset script i)))

-- A predicate with a fact that no state decides.
pub IsStable-with : (P : Engine → Type 0) (X : Type 0) → IsStable P → IsStable (λ e. P e × X)
IsStable-with P X s = record {
  stable = λ d e same (p, x). (s.stable d e same p, x);
  safe = λ e p. s.safe e p.0;
}

Triple-offset_or_fail :
    (P : Engine → Type 0) (s : IsStable P) (o : Option ℕ)
    → Triple P (offset_or_fail o) (λ p e. P e × (o ≡ some p))
unfolding pure
Triple-offset_or_fail P s none = Triple-fail_with P s _ invalid_jump
Triple-offset_or_fail P s (some p) = record { run = λ e x. (x, refl) }

-- The context that runs, read from the engine.
Triple-context :
    (c : ℕ) (k : ExecutionContext)
    → Triple (Kept c k) (gets (λ e. e.contexts c)) (λ context e. Kept c k e × SameControl k context)
unfolding gets
Triple-context c k = record { run = λ e p. (p, p.1.same) }

Ready-of :
    (c offset : ℕ) (k : ExecutionContext) (e : Engine)
    → Kept c k e
    → offset ≤ script_length k.script
    → Ready c offset e
Ready-of c offset k e (x, y) le = (x, rw y.same.same_script le)

jump-inside :
    (k context : ExecutionContext) (z : ℤ) (p : ℕ) (jump : Bool)
    → SameControl k context
    → target context z ≡ some p
    → k.instruction_pointer + 3 ≤ script_length k.script
    → (if jump then p else context.instruction_pointer + 3) ≤ script_length k.script
jump-inside k context z p true s t le =
    subst (λ x. p ≤ script_length x) s.same_script (target-inside context z p t)
jump-inside k context z p false s t le = rw s.same_pointer le

-- JMP, JMPIF and JMPIFNOT end the instruction early, with a pointer inside the script.
pub Triple-op_jmp :
    (c : ℕ) (k : ExecutionContext) (h : Host) (ins : Instruction)
    → k.instruction_pointer + 3 ≤ script_length k.script
    → Triple (Kept c k) (op_jmp h c ins) (λ _. Never)
unfolding op_jmp
Triple-op_jmp c k h ins le = Triple-bind _ _ _ _ _ (Triple-context c k) (λ context.
    let s = IsStable-with (Kept c k) (SameControl k context) (Kept-IsStable c k) in
    Triple-bind _ _ _ _ _ (Triple-offset_or_fail _ s _) (λ offset.
      Triple-bind _ _ _ _ _
        (Triple-stable _ (IsStable-with _ _ s) _ (IsLocal-jump_condition h c ins.op_code))
        (λ jump.
          Triple-bind _ _ _ _ _
            (Triple-pre (Ready c (if jump then offset else context.instruction_pointer + 3)) _ _ _
              (λ e ((p, s), t).
                Ready-of c _ k e p (jump-inside k context (token_i16 ins) offset jump s t le))
              (Triple-jump_to c _))
            (λ _. Triple-return_early _ plain-IsStable _ true))))

abbrev instruction_of : Option Instruction → Script → ℕ → Option Instruction
instruction_of o script ip = elim o [ none ↦ get_instruction script ip | some i ↦ some i ]

some_injective : {A : Type 0} (a b : A) → some a ≡ some b → a ≡ b
some_injective a b h = ground (arith, h)

pub current_instruction-same :
    (k context : ExecutionContext)
    → SameControl k context
    → current_instruction context ≡ current_instruction k
unfolding current_instruction
current_instruction-same k context s =
    ap (λ i. instruction_of i context.script context.instruction_pointer) s.same_ins
    ∙ ap (λ x. instruction_of k.ins x context.instruction_pointer) s.same_script
    ∙ ap (λ p. instruction_of k.ins k.script p) s.same_pointer

-- MoveNext behind an instruction that ends inside the script.
pub Triple-move_next :
    (c : ℕ) (k : ExecutionContext) (ins : Instruction)
    → current_instruction k ≡ some ins
    → k.instruction_pointer + instruction_size ins ≤ script_length k.script
    → Triple (Kept c k) (move_next c) (λ _. IsControlled max_invocation_stack_size)
unfolding move_next
Triple-move_next c k ins h le = Triple-bind _ _ _ _ _ (Triple-context c k) (λ context.
    let s = IsStable-with (Kept c k) (SameControl k context) (Kept-IsStable c k) in
    Triple-bind _ _ _ _ _ (Triple-or_raise _ s (current_instruction context)) (λ i.
      Triple-pre (Ready c (context.instruction_pointer + instruction_size i)) _ _ _
        (λ e ((p, s), t). Ready-of c _ k e p (
          let i_ins : i ≡ ins =
            some_injective i ins (sym t ∙ current_instruction-same k context s ∙ h) in
          rw (s.same_pointer, i_ins) le))
        (Triple-jump_to c _)))
