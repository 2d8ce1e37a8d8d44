-- ===== src/Vm/RandomAccessStack/Laws.antt =====
-- neo/VM/RandomAccessStack.py: the count that the class keeps.
use neo_python.Prelude.{
  Bool-cases, Option, [], arith, drop, erase_at, erase_at-append_last, get_elem?,
  get_elem?-append_last, get_elem?-some, if◌then◌else◌, inl, inr, length, length-append,
  length-drop, length-erase_at, length-insert_at, length-set, ltb, none, refl, some, suc, zero, ℕ,
  ◌-◌, ◌<◌, ◌∷◌, ◌≡◌, ◌≤◌, ◌⊎◌,
}
use neo_python.Prelude.Int.{negsuc, pos, ℤ}
use neo_python.Vm.RandomAccessStack.{
  RandomAccessStack, at_position, clear, copy_all_to, copy_to, empty, insert, peek, pop, position,
  push_t, remove, set_item, suffix,
}

-- The position from the top that an index means in a stack of a size: a negative index counts from
-- the bottom, and one that points below it is refused.
unfoldable pub top_index : ℤ → ℕ → Option ℕ
top_index (pos i) n = if ltb i n then some i else none
top_index (negsuc i) n = if ltb i n then some (n - i - 1) else none

pub position_cases :
    (z : ℤ) (n : ℕ)
    → ((position z n ≡ none) × (top_index z n ≡ none))
      ⊎ ((i : ℕ) × (i < n) × (position z n ≡ some (n - i - 1)) × (top_index z n ≡ some i))
unfolding position top_index
position_cases (pos i) n = elim (Bool-cases (ltb i n)) [
  | inl inside ↦ inr (i, ground arith, ground arith, ground arith)
  | inr outside ↦ inl (ground arith, ground arith)
]
position_cases (negsuc i) n = elim (Bool-cases (ltb i n)) [
  | inl inside ↦ inr (n - i - 1, ground arith, ground arith, ground arith)
  | inr outside ↦ inl (ground arith, ground arith)
]

module _ {A : Type 0} where
  -- `_size` is the length of `_list`.
  unfoldable pub IsSized : RandomAccessStack A → Type 0
  IsSized s = s.size ≡ length s.items

  pub push_t-IsSized : (a : A) (s : RandomAccessStack A) → IsSized s → IsSized (push_t a s)
  unfolding IsSized push_t
  push_t-IsSized a s h = omega (arith, length-append s.items (a ∷ []))

  -- On a stack whose count is right, Pop after PushT gives the item back and the stack as it
  -- was.
  pub pop-push_t : (a : A) (s : RandomAccessStack A) → IsSized s → pop (push_t a s) ≡ some (a, s)
  unfolding pop remove push_t IsSized position at_position
  pop-push_t a s h =
      ground (arith, h, get_elem?-append_last s.items a, erase_at-append_last s.items a)

  pub remove-IsSized :
      (z : ℤ) (a : A) (s t : RandomAccessStack A) → IsSized s → remove z s ≡ some (a, t) → IsSized t
  unfolding IsSized remove at_position
  remove-IsSized z a s t h r = elim (position_cases z s.size) [
    | inl (p, _) ↦ ground (arith, p, r)
    | inr (i, lt, p, _) ↦
        ground (arith, h, r, lt, p, length-erase_at s.items (length s.items - i - 1))
  ]

  pub set_item-IsSized :
      (z : ℤ) (a : A) (s t : RandomAccessStack A) → IsSized s → set_item z a s ≡ some t → IsSized t
  unfolding IsSized set_item at_position
  set_item-IsSized z a s t h r = elim (position_cases z s.size) [
    | inl (p, _) ↦ ground (arith, p, r)
    | inr (i, lt, p, _) ↦ ground (arith, h, r, lt, p, length-set s.items (length s.items - i - 1) a)
  ]

  pub insert-IsSized :
      (i : ℕ) (a : A) (s t : RandomAccessStack A) → IsSized s → insert i a s ≡ some t → IsSized t
  unfolding IsSized insert
  insert-IsSized i a s t h r = ground (arith, h, r, length-insert_at s.items (length s.items - i) a)

  -- `CopyTo` of as many items as the stack has, or fewer. With a greater count `_size` leaves the
  -- length of the list.
  pub copy_to-IsSized :
      (n : ℕ) (s t : RandomAccessStack A)
      → IsSized s
      → IsSized t
      → n ≤ s.size
      → IsSized (copy_to n s t)
  unfolding IsSized copy_to suffix
  copy_to-IsSized zero s t h k le = k
  copy_to-IsSized (suc n) s t h k le = ground (
    arith,
    h,
    k,
    le,
    length-append t.items (drop (s.size - suc n) s.items),
    length-drop (s.size - suc n) s.items,
  )

  -- The stacks that the methods build from the empty one. A copy asks for no more items than its
  -- source has.
  pub data Built : RandomAccessStack A → Type 0 where
    built_empty : Built empty
    built_push : (a : A) (s : RandomAccessStack A) → Built s → Built (push_t a s)
    built_pop : (a : A) (s t : RandomAccessStack A) → Built s → pop s ≡ some (a, t) → Built t
    built_remove :
        (z : ℤ) (a : A) (s t : RandomAccessStack A) → Built s → remove z s ≡ some (a, t) → Built t
    built_set :
        (z : ℤ) (a : A) (s t : RandomAccessStack A) → Built s → set_item z a s ≡ some t → Built t
    built_insert :
        (i : ℕ) (a : A) (s t : RandomAccessStack A) → Built s → insert i a s ≡ some t → Built t
    built_clear : (s : RandomAccessStack A) → Built s → Built (clear s)
    built_copy :
        (n : ℕ) (s t : RandomAccessStack A) → Built s → Built t → n ≤ s.size → Built (copy_to n s t)
    built_copy_all : (s t : RandomAccessStack A) → Built s → Built t → Built (copy_all_to s t)

  copy_all_to-IsSized :
      (s t : RandomAccessStack A) → IsSized s → IsSized t → IsSized (copy_all_to s t)
  unfolding IsSized copy_all_to
  copy_all_to-IsSized s t h k = omega (arith, h, k, length-append t.items s.items)

  pop-IsSized : (a : A) (s t : RandomAccessStack A) → IsSized s → pop s ≡ some (a, t) → IsSized t
  unfolding pop
  pop-IsSized a s t h r = remove-IsSized (pos 0) a s t h r

  clear-IsSized : (s : RandomAccessStack A) → IsSized (clear s)
  unfolding IsSized clear
  clear-IsSized s = refl

  -- The count that RandomAccessStack keeps is the length of its list after any sequence of its
  -- methods, if no copy asks for more items than its source has.
  pub Built-IsSized : (s : RandomAccessStack A) → Built s → IsSized s
  Built-IsSized _ built_empty = unfold IsSized in refl
  Built-IsSized _ (built_push a s b) = push_t-IsSized a s (Built-IsSized s b)
  Built-IsSized _ (built_pop a s t b r) = pop-IsSized a s t (Built-IsSized s b) r
  Built-IsSized _ (built_remove z a s t b r) = remove-IsSized z a s t (Built-IsSized s b) r
  Built-IsSized _ (built_set z a s t b r) = set_item-IsSized z a s t (Built-IsSized s b) r
  Built-IsSized _ (built_insert i a s t b r) = insert-IsSized i a s t (Built-IsSized s b) r
  Built-IsSized _ (built_clear s b) = clear-IsSized s
  Built-IsSized _ (built_copy n s t b c le) =
      copy_to-IsSized n s t (Built-IsSized s b) (Built-IsSized t c) le
  Built-IsSized _ (built_copy_all s t b c) =
      copy_all_to-IsSized s t (Built-IsSized s b) (Built-IsSized t c)

  -- `Remove(1)` takes the item below the top.
  pub remove-below_top :
      (s : RandomAccessStack A)
      → IsSized s
      → 2 ≤ s.size
      → (a : A) × (remove (pos 1) s
          ≡ some (a, record { items = erase_at s.items (s.size - 2); size = s.size - 1 }))
  unfolding remove at_position position IsSized
  remove-below_top s h le =
      let (a, found) = get_elem?-some s.items (s.size - 2) (omega (arith, h, le)) in
      (a, ground (arith, h, le, found))

  -- What `Remove` leaves.
  pub remove-rest :
      (z : ℤ) (a : A) (s t : RandomAccessStack A)
      → IsSized s
      → remove z s ≡ some (a, t)
      → (i : ℕ) × (i < s.size)
        × (get_elem? s.items i ≡ some a)
        × (t ≡ record { items = erase_at s.items i; size = s.size - 1 })
  unfolding remove at_position
  remove-rest z a s t h r = elim (position_cases z s.size) [
    | inl (p, _) ↦ absurd (ground (arith, p, r))
    | inr (i, lt, p, _) ↦
        (s.size - i - 1, omega (arith, lt), ground (arith, p, r), ground (arith, p, r))
  ]

  -- What `Peek` gives.
  pub peek-item :
      (z : ℤ) (a : A) (s : RandomAccessStack A)
      → peek z s ≡ some a
      → (i : ℕ) × (i < s.size) × (get_elem? s.items i ≡ some a)
  unfolding peek at_position
  peek-item z a s r = elim (position_cases z s.size) [
    | inl (p, _) ↦ absurd (ground (arith, p, r))
    | inr (i, lt, p, _) ↦ (s.size - i - 1, omega (arith, lt), ground (arith, p, r))
  ]
