-- ===== src/Vm/Safety/Calls.antt =====
-- The calls (CALL, CALL_I, APPCALL, TAILCALL, CALL_E, CALL_ED, CALL_ET, CALL_EDT) keep the invariant.
use neo_python.Prelude.{
  Bool, List, Option, arith, false, if◌then◌else◌, ltb, none, not, refl, some, suc, true, ℕ, ◌&&◌,
  ◌==◌, ◌≡◌, ◌≤◌,
}
use neo_python.Prelude.Int.{negsuc, pos, ℤ, ◌+ℤ◌}
use neo_python.Vm.Control.{IsLocal, IsLocal-bind, IsLocal-gets, IsLocal-or_raise, Same, SameControl}
use neo_python.Vm.Control.Primitives.{IsLocal-fail_if, Same-put_stack}
use neo_python.Vm.Engine.Contexts.{load_script_by_hash, new_execution_context, remove_context}
use neo_python.Vm.Engine.Limits.{max_invocation_stack_size}
use neo_python.Vm.Engine.Monad.{fail_if, modify, return_early, ◌>>◌}
use neo_python.Vm.Engine.Stacks.{evaluation}
use neo_python.Vm.Instruction.{Instruction, Script, script_length, token_i16, token_i16_1}
use neo_python.Vm.Ops.Flow.{
  copy_all_stack, copy_stack, op_call, set_astray, set_pointer, start_at, target, within_script,
}
use neo_python.Vm.Ops.Isolation.{op_call_i}
use neo_python.Vm.Safety.{
  IsBounded, IsControlled-weaken, IsPlaced, Triple, Triple-bind, Triple-weaken,
}
use neo_python.Vm.Safety.Loading.{
  During, During-Same, IsNew, IsPlaced-update, Triple-load_script_internal,
}
use neo_python.Vm.Safety.LocalParts.{
  IsLocal-clear_stack, IsLocal-copy_all_stack, IsLocal-copy_stack, IsLocal-drop_times,
}
use neo_python.Vm.Safety.Steps.{
  During-IsStable, During-room, IsStable, Loaded, Triple-check_room, Triple-fail_if,
  Triple-load_from_table, Triple-modify, Triple-pre, Triple-remove_context, Triple-stable,
}
use neo_python.Vm.State.{Action, Engine, ExecutionContext, Host, VmFault}

pub target-inside :
    (k : ExecutionContext) (z : ℤ) (p : ℕ) → target k z ≡ some p → p ≤ script_length k.script
unfolding target within_script
target-inside k z p h = ground (arith, h)

IsPlaced-start :
    (script : Script) (rvcount : ℤ) (p : ℕ) (b : ExecutionContext)
    → p ≤ script_length script
    → SameControl (new_execution_context script rvcount) b
    → IsPlaced (record b { instruction_pointer = p; astray = none })
IsPlaced-start script rvcount p b h s = record {
  inside = (refl, rw s.same_script h);
  decoded = λ i e. absurd (ground (arith, e, s.same_ins));
}

-- The pointer of a new context is moved to a place in its script.
Triple-set_pointer :
    (lo hi c c' : ℕ) (k : ExecutionContext) (script : Script) (rvcount : ℤ) (p : ℕ)
    → p ≤ script_length script
    → Triple
        (λ e. During lo hi c k e × IsNew c c' script rvcount e)
        (set_pointer c' p)
        (λ _. During lo hi c k)
unfolding modify
Triple-set_pointer lo hi c c' k script rvcount p le = record {
  run = λ e ((x, y), n). (
    record {
      upper = x.upper;
      sized = x.sized;
      below = x.below;
      placed =
          IsPlaced-update e.contexts c' _ x.placed
            (IsPlaced-start script rvcount p (e.contexts c') le n.at_start);
    },
    record { lower = y.lower; here = y.here; same = rw n.other y.same },
  );
}

older-other : (i c' n : ℕ) → suc c' ≡ n → (suc i == n) ≡ false → (i == c') ≡ false
older-other i c' n newest older = ground (arith, newest, older)

-- The pointer of a new context is put outside of its script.
Triple-set_astray :
    (lo c c' : ℕ) (k : ExecutionContext) (script : Script) (rvcount z : ℤ)
    → Triple
        (λ e. During lo max_invocation_stack_size c k e × IsNew c c' script rvcount e)
        (set_astray c' z)
        (λ _. IsBounded)
unfolding modify
Triple-set_astray lo c c' k script rvcount z = record {
  run = λ e ((x, y), n). record {
    at_most = x.upper;
    counted = x.sized;
    known = x.below;
    in_script = λ i older. rw (older-other i c' e.next_context n.newest older) (x.placed i).inside;
  };
}

During-lower :
    (lo hi c : ℕ) (k : ExecutionContext) (e : Engine)
    → During (suc lo) hi c k e
    → During lo hi c k e
During-lower lo hi c k e (x, y) =
    (x, record { lower = omega (arith, y.lower); here = y.here; same = y.same })

During-raise :
    (lo hi ho c : ℕ) (k : ExecutionContext) (e : Engine)
    → hi ≤ ho
    → During lo hi c k e
    → During lo ho c k e
During-raise lo hi ho c k e le (x, y) = (IsControlled-weaken hi ho e le x, y)

-- What an instruction of the context `c` keeps, if it does not end the instruction early.
abbrev pub Kept : ℕ → ExecutionContext → Engine → Type 0
Kept c k = During 1 max_invocation_stack_size c k

module _ (c : ℕ) (k : ExecutionContext) where
  pub Kept-IsStable : IsStable (Kept c k)
  Kept-IsStable = During-IsStable 1 max_invocation_stack_size c k (omega arith)

  room-IsStable : IsStable (During 1 1023 c k)
  room-IsStable = During-IsStable 1 1023 c k (omega arith)

  called-IsStable : IsStable (During 2 max_invocation_stack_size c k)
  called-IsStable = During-IsStable 2 max_invocation_stack_size c k (omega arith)

  -- The result of CheckMaxInvocationStack is `room`.
  abbrev pub Asked : Bool → Engine → Type 0
  Asked room e = Kept c k e × (room ≡ ltb e.invocation_stack.size max_invocation_stack_size)

  Asked-IsStable : (room : Bool) → IsStable (Asked room)
  Asked-IsStable room = record {
    stable = λ d e s (p, r). (Kept-IsStable.stable d e s p, rw s.same_stack r);
    safe = λ e p. Kept-IsStable.safe e p.0;
  }

  -- The fault where there is no room.
  pub Triple-need_room :
      (room : Bool) (id : VmFault)
      → Triple (Asked room) (fail_if (not room) id) (λ _. During 1 1023 c k)
  Triple-need_room room id =
      Triple-weaken _ _ _ _ (λ _ e ((d, r), n). During-room 1 c k room e d r n)
        (Triple-fail_if (Asked room) (Asked-IsStable room) (not room) id)

  -- The context `c'` was loaded and is at its start.
  abbrev Called : Script → ℤ → ℕ → Engine → Type 0
  Called script rvcount c' e =
      During 2 max_invocation_stack_size c k e × IsNew c c' script rvcount e

  Triple-place :
      (context : ExecutionContext) (rvcount z offset : ℤ) (c' : ℕ) (o : Option ℕ)
      → target context offset ≡ o
      → Triple
          (Called context.script rvcount c')
          (start_at c' z o)
          (λ _. During 2 max_invocation_stack_size c k)
  unfolding start_at return_early
  Triple-place context rvcount z offset c' none found =
      Triple-bind _ _ _ _ _ (Triple-set_astray 2 c c' k context.script rvcount z)
        (λ _. record { run = λ e b. b })
  Triple-place context rvcount z offset c' (some p) found =
      Triple-set_pointer 2 max_invocation_stack_size c c' k context.script rvcount p
        (target-inside context offset p found)

  -- The loading of the running script at another pointer, as CALL and CALL_I do it.
  Triple-start_at :
      (context : ExecutionContext) (rvcount z offset : ℤ) (c' : ℕ) (m : Action (Unit {0}))
      → Triple (During 2 max_invocation_stack_size c k) m (λ _. Kept c k)
      → Triple
          (Called context.script rvcount c')
          (do start_at c' z (target context offset); m)
          (λ _. Kept c k)
  Triple-start_at context rvcount z offset c' m t =
      Triple-bind _ _ _ _ _ (Triple-place context rvcount z offset c' (target context offset) refl)
        (λ _. t)

  Triple-finish :
      (m : Action (Unit {0}))
      → IsLocal m
      → Triple (During 2 max_invocation_stack_size c k) m (λ _. Kept c k)
  Triple-finish m l =
      Triple-weaken _ _ _ _ (λ _ e d. During-lower 1 max_invocation_stack_size c k e d)
        (Triple-stable _ called-IsStable m l)

  -- A local step below the limit.
  Triple-below :
      {A : Type 0} (m : Action A)
      → IsLocal m
      → Triple (During 1 1023 c k) m (λ _. During 1 1023 c k)
  Triple-below m l = Triple-stable (During 1 1023 c k) room-IsStable m l

  pub Triple-op_call :
      (h : Host) (ins : Instruction) → Triple (Kept c k) (op_call h c ins) (λ _. Kept c k)
  unfolding op_call
  Triple-op_call h ins = Triple-bind _ _ _ _ _ (Triple-check_room 1 c k) (λ room.
      Triple-bind _ _ _ _ _ (Triple-need_room room _) (λ _.
        Triple-bind _ _ _ _ _ (Triple-below _ (IsLocal-gets _)) (λ context.
          Triple-bind _ _ _ _ _ (Triple-load_script_internal 1 1023 c k context.script (negsuc 0))
            (λ c'. Triple-start_at context (negsuc 0) _ (token_i16 ins) c' _ (
              Triple-finish _ (
                IsLocal-bind _ _ (IsLocal-copy_all_stack c c' evaluation)
                  (λ _. IsLocal-clear_stack c)))))))

  pub Triple-op_call_i :
      (h : Host) (ins : Instruction) → Triple (Kept c k) (op_call_i h c ins) (λ _. Kept c k)
  unfolding op_call_i
  Triple-op_call_i h ins = Triple-bind _ _ _ _ _ (Triple-check_room 1 c k) (λ room.
      Triple-bind _ _ _ _ _ (Triple-need_room room _) (λ _.
        Triple-bind _ _ _ _ _ (Triple-below _ (IsLocal-or_raise _)) (λ rvcount.
          Triple-bind _ _ _ _ _ (Triple-below _ (IsLocal-or_raise _)) (λ pcount.
            Triple-bind _ _ _ _ _ (Triple-below _ (IsLocal-gets _)) (λ count.
              Triple-bind _ _ _ _ _ (Triple-below _ (IsLocal-fail_if _ _)) (λ _.
                Triple-bind _ _ _ _ _ (Triple-below _ (IsLocal-gets _)) (λ context.
                  Triple-bind _ _ _ _ _
                    (Triple-load_script_internal 1 1023 c k context.script (pos rvcount))
                    (λ c'. Triple-start_at context (pos rvcount) _ (token_i16_1 ins +ℤ pos 2) c' _ (
                      Triple-finish _ (
                        IsLocal-bind _ _ (IsLocal-copy_stack c c' pcount)
                          (λ _. IsLocal-drop_times pcount c)))))))))))

  -- The limit before a call: a tail call needs no room, since it replaces the context that calls.
  abbrev pub limit_of : Bool → ℕ
  limit_of tail = if tail then max_invocation_stack_size else 1023

  pub limit_of-IsStable : (tail : Bool) → IsStable (During 1 (limit_of tail) c k)
  limit_of-IsStable true = Kept-IsStable
  limit_of-IsStable false = room-IsStable

  pub limit_of-le : (tail : Bool) → limit_of tail ≤ max_invocation_stack_size
  limit_of-le true = omega arith
  limit_of-le false = omega arith

  -- The end of a call: the items are copied, and the caller is replaced or loses them.
  Triple-copy :
      (tail : Bool) (rvcount : ℤ) (c' : ℕ) (f : Engine → Engine)
      → ((e : Engine) → Same e (f e))
      → Triple
          (Loaded 1 (limit_of tail) c k rvcount (some c'))
          (modify f)
          (λ _. During 2 (suc (limit_of tail)) c k)
  Triple-copy tail rvcount c' f s =
      Triple-pre _ _ _ _ (λ e p. p.0)
        (Triple-modify (During 2 (suc (limit_of tail)) c k) f
          (During-Same 2 (suc (limit_of tail)) c k) s)

  pub Triple-copy_all_stack :
      (tail : Bool) (rvcount : ℤ) (c' : ℕ)
      → Triple
          (Loaded 1 (limit_of tail) c k rvcount (some c'))
          (copy_all_stack c evaluation c')
          (λ _. During 2 (suc (limit_of tail)) c k)
  unfolding copy_all_stack
  Triple-copy_all_stack tail rvcount c' =
      Triple-copy tail rvcount c' _ (λ e. Same-put_stack c' evaluation _ e)

  pub Triple-copy_stack :
      (tail : Bool) (rvcount : ℤ) (c' count : ℕ)
      → Triple
          (Loaded 1 (limit_of tail) c k rvcount (some c'))
          (copy_stack c c' count)
          (λ _. During 2 (suc (limit_of tail)) c k)
  unfolding copy_stack
  Triple-copy_stack tail rvcount c' count =
      Triple-copy tail rvcount c' _ (λ e. Same-put_stack c' evaluation _ e)

  pub Triple-leave :
      (tail : Bool) (m : Action (Unit {0}))
      → IsLocal m
      → Triple
          (During 2 (suc (limit_of tail)) c k)
          (if tail then remove_context (pos 1) else m)
          (λ _. Kept c k)
  Triple-leave true m l = Triple-remove_context 0 c k
  Triple-leave false m l = Triple-finish m l

  -- The fault where a call that is no tail call finds no room.
  pub Triple-need_room_unless :
      (tail room : Bool) (id : VmFault)
      → Triple (Asked room) (fail_if (not tail && not room) id) (λ _. During 1 (limit_of tail) c k)
  Triple-need_room_unless true room id =
      Triple-pre _ _ _ _ (λ e p. p.0) (Triple-stable _ Kept-IsStable _ (IsLocal-fail_if false id))
  Triple-need_room_unless false room id = Triple-need_room room id

  pub Triple-load :
      (tail : Bool) (h : Host) (script_hash : List ℕ) (rvcount : ℤ)
      → Triple
          (During 1 (limit_of tail) c k)
          (load_script_by_hash h script_hash rvcount)
          (Loaded 1 (limit_of tail) c k rvcount)
  Triple-load tail h script_hash rvcount =
      Triple-load_from_table 1 (limit_of tail) c k (limit_of-le tail) script_hash rvcount h.table
