-- ===== src/Vm/Ops/Arithmetic.antt =====
-- The results of the arithmetic branches that take two integers from the stack.
pub mod Results
pub mod Exact
use neo_python.Prelude.{
  Bool, Option, ap, arith, false, if◌then◌else◌, inl, inr, leb, none, not, refl, some, subst, sym,
  true, ℕ, ◌&&◌, ◌==◌, ◌||◌, ◌∙◌, ◌≡◌, ◌⊎◌,
}
use neo_python.Prelude.Int.{negsuc, ℤ}
use neo_python.Vm.Engine.Limits.{
  ItemCount, check_stack_size, count_raised, counted_items, get_item_count, max_stack_size,
  note_count, note_stack_size, recount, stack_items, stuck,
}
use neo_python.Vm.Engine.Monad.{
  fail_if, fail_with, gets, modify, or_raise, pure, raise, return_early, skip, vm_fault_and_report,
  ◌>>=◌, ◌>>◌,
}
use neo_python.Vm.Engine.Stacks.{
  evaluation, pop_from, pop_int, push_int, push_on, put_stack, run_stack, write_stack,
}
use neo_python.Vm.Ops.Numeric.{fits}
use neo_python.Vm.RandomAccessStack.{RandomAccessStack, push_t}
use neo_python.Vm.RandomAccessStack.Laws.{IsSized, pop-push_t, push_t-IsSized}
use neo_python.Vm.StackItem.{StackItem, get_big_integer, integer}
use neo_python.Vm.State.{Action, Engine, ExecutionContext, Host, Result, VmFault, early, raised}
use neo_python.Vm.Ops.Numeric

pub stack-put :
    (c : ℕ) (s : RandomAccessStack StackItem) (e : Engine)
    → ((put_stack c evaluation s e).contexts c).evaluation_stack ≡ s
stack-put c s e = let self : (c == c) ≡ true = ground arith in rw self refl

module _ {B : Type 0} (c : ℕ) (s : RandomAccessStack StackItem) (sized : IsSized s) where
  pop_int-then :
      (y : ℤ) (f : ℤ → Action B) (e : Engine)
      → (e.contexts c).evaluation_stack ≡ push_t (integer y) s
      → (pop_int c >>= f) e ≡ f y (put_stack c evaluation s e)
  unfolding pop_int pop_from run_stack ◌>>=◌ pure get_big_integer
  pop_int-then y f e h = rw (h, pop-push_t (integer y) s sized) refl

fail_if-passed :
    {B : Type 0} (b : Bool) (id : VmFault) (m : Action B) (e : Engine)
    → b ≡ false
    → (fail_if b id >> m) e ≡ m e
unfolding fail_if skip ◌>>=◌
fail_if-passed b id m e h = rw h refl

-- The branch failed.
abbrev pub IsFailure : {B : Type 0} → Result B → Type 0
IsFailure r = (r ≡ early false) ⊎ (r ≡ raised)

abbrev pub Ends : ℕ → RandomAccessStack StackItem → Option ℤ → Result (Unit {0}) × Engine → Type 0
Ends c s none x = IsFailure x.0
Ends c s (some z) x = ((x.1).contexts c).evaluation_stack ≡ push_t (integer z) s

-- What a branch shows: the number on top of the rest of the stack, or a failure.
pub record Shows (c : ℕ) (s : RandomAccessStack StackItem) (o : Option ℤ)
    (x : Result (Unit {0}) × Engine) : Type 0 where
  pub shown : Ends c s o x

fail_if-failed :
    {B : Type 0} (b : Bool) (id : VmFault) (m : Action B) (e : Engine)
    → b ≡ true
    → IsFailure ((fail_if b id >> m) e).0
unfolding fail_if fail_with vm_fault_and_report return_early ◌>>=◌
fail_if-failed b id m e h = rw h (inl refl)

same_contexts-note_stack_size :
    (h : Host) (strict : Bool) (n : ℤ) (e : Engine)
    → (note_stack_size h strict n e).1.contexts ≡ e.contexts
unfolding note_stack_size check_stack_size modify gets pure skip recount ◌>>=◌
same_contexts-note_stack_size h strict n e =
    go (leb (note_count strict n e).stackitem_count max_stack_size)
      (note_count strict n e).is_stackitem_count_strict (note_count strict n e)
      (get_item_count h e.heap (stack_items e.contexts e.invocation_stack.items))
  where
    go :
        (small strictly : Bool) (d : Engine) (n : ItemCount)
        → (((if small then pure true else if strictly then pure false else recount n) >>= λ _. skip)
            d).1.contexts
          ≡ d.contexts
    go true strictly d n = refl
    go false true d n = refl
    go false false d (counted_items n) = refl
    go false false d count_raised = refl
    go false false d stuck = refl

stack-push_int :
    (c : ℕ) (s : RandomAccessStack StackItem) (z : ℤ) (m : Action (Unit {0})) (e : Engine)
    → ((d : Engine) → (m d).1.contexts ≡ d.contexts)
    → (e.contexts c).evaluation_stack ≡ s
    → Shows c s (some z) ((push_int c z >> m) e)
unfolding push_int push_on write_stack ◌>>=◌
stack-push_int c s z m e same h = record {
  shown =
      ap (λ (f : ℕ → ExecutionContext). (f c).evaluation_stack)
        (same (put_stack c evaluation (push_t (integer z) (e.contexts c).evaluation_stack) e))
      ∙ stack-put c (push_t (integer z) (e.contexts c).evaluation_stack) e
      ∙ ap (push_t (integer z)) h;
}

-- A value behind a test.
abbrev pub value_of : Bool → Option ℤ → Option ℤ
value_of b o = if b then o else none

-- A number that fits 32 bytes.
abbrev pub small : ℤ → Option ℤ
small z = if fits z then some z else none

pub three_tests :
    (a b d : Bool) (z : ℤ)
    → (if not a || (not b || not d) then none else some z)
      ≡ (if a && b then (if d then some z else none) else none)
three_tests true true true z = refl
three_tests true true false z = refl
three_tests true false d z = refl
three_tests false b d z = refl

pub two_tests :
    (a b : Bool) (o : Option ℤ)
    → (if not a then none else if not b then none else o) ≡ value_of (b && a) o
two_tests true true o = refl
two_tests true false o = refl
two_tests false true o = refl
two_tests false false o = refl

pub tests_again :
    (a b : Bool) (o : Option ℤ)
    → (if not a then none else if not b || not a then none else o) ≡ value_of (b && a) o
tests_again true true o = refl
tests_again true false o = refl
tests_again false true o = refl
tests_again false false o = refl

pub tests_in_turn :
    (a b d : Bool) (z : ℤ)
    → (if not a then none else if not b then none else if not d then none else some z)
      ≡ value_of (b && a) (if d then some z else none)
tests_in_turn true true true z = refl
tests_in_turn true true false z = refl
tests_in_turn true false d z = refl
tests_in_turn false true d z = refl
tests_in_turn false false d z = refl

module _ (h : Host) (c : ℕ) (s : RandomAccessStack StackItem) (sized : IsSized s) (x y : ℤ)
    (e : Engine)
    (two : (e.contexts c).evaluation_stack ≡ push_t (integer y) (push_t (integer x) s)) where
  -- The state behind the first and the second number.
  abbrev pub one_left : Engine
  one_left = put_stack c evaluation (push_t (integer x) s) e

  abbrev pub none_left : Engine
  none_left = put_stack c evaluation s one_left

  pub first-then : {B : Type 0} (f : ℤ → Action B) → (pop_int c >>= f) e ≡ f y one_left
  first-then f =
      pop_int-then c (push_t (integer x) s) (push_t-IsSized (integer x) s sized) y f e two

  pub second-then : {B : Type 0} (f : ℤ → Action B) → (pop_int c >>= f) one_left ≡ f x none_left
  second-then f = pop_int-then c s sized x f one_left (stack-put c (push_t (integer x) s) e)

  -- The end of a branch.
  pub pushed :
      (z : ℤ) → Shows c s (some z) ((push_int c z >> note_stack_size h true (negsuc 0)) none_left)
  pushed z =
      stack-push_int c s z _ none_left (same_contexts-note_stack_size h true (negsuc 0))
        (stack-put c s one_left)

  -- A test, and what is shown behind it.
  pub guarded :
      (b : Bool) (id : VmFault) (m : Action (Unit {0})) (d : Engine) (o : Option ℤ)
      → Shows c s o (m d)
      → Shows c s (if b then none else o) ((fail_if b id >> m) d)
  guarded true id m d o t = record { shown = fail_if-failed true id m d refl }
  guarded false id m d o t = subst (λ r. Shows c s o r) (sym (fail_if-passed false id m d refl)) t

  -- The end of a branch whose operation may raise.
  pub pushed_or_raised :
      (o : Option ℤ)
      → Shows c s o
          ((or_raise o >>= λ z. push_int c z >> note_stack_size h true (negsuc 0)) none_left)
  unfolding raise pure ◌>>=◌
  pushed_or_raised none = record { shown = inr refl }
  pushed_or_raised (some z) = pushed z

  pub after_first :
      (o : Option ℤ) (f : ℤ → Action (Unit {0}))
      → Shows c s o (f y one_left)
      → Shows c s o ((pop_int c >>= f) e)
  after_first o f t = subst (λ r. Shows c s o r) (sym (first-then f)) t

  pub after_second :
      (o : Option ℤ) (f : ℤ → Action (Unit {0}))
      → Shows c s o (f x none_left)
      → Shows c s o ((pop_int c >>= f) one_left)
  after_second o f t = subst (λ r. Shows c s o r) (sym (second-then f)) t

  -- The push that ends a branch.
  abbrev last_push : ℤ → Action (Unit {0})
  last_push z = push_int c z >> note_stack_size h true (negsuc 0)

  abbrev last_pushed : Option ℤ → Action (Unit {0})
  last_pushed o = or_raise o >>= last_push

  pub Shows-value :
      (o o' : Option ℤ) (r : Result (Unit {0}) × Engine) → o ≡ o' → Shows c s o r → Shows c s o' r
  Shows-value o o' r p t = record { shown = subst (λ v. Ends c s v r) p t.shown }
