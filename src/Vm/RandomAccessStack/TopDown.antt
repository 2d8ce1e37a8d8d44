-- ===== src/Vm/RandomAccessStack/TopDown.antt =====
-- neo/VM/RandomAccessStack.py: a stack as the list of its items from the top, which is what an index
-- counts from.
use neo_python.Prelude.{
  Bool-cases, List, Option, [], ap, arith, erase_at, erase_at-append_last, get_elem?,
  get_elem?-append_last, get_elem?-append_left, get_elem?-some, if◌then◌else◌, inl, inr, insert_at,
  leb, length, length-reverse, none, refl, set, some, suc, sym, zero, ℕ, ◌++◌, ◌-◌, ◌<◌, ◌∷◌, ◌≡◌,
  ◌≤◌,
}
use neo_python.Prelude.Int.{ℤ}
use neo_python.Vm.RandomAccessStack.{RandomAccessStack, at_position, insert, peek, remove, set_item}
use neo_python.Vm.RandomAccessStack.Laws.{IsSized, position_cases, top_index}
use mathlib.Core.List.{reverse, reverse-cons}

module _ {A : Type 0} where
  erase_at-append_left :
      (xs ys : List A) (i : ℕ) → i < length xs → erase_at (xs ++ ys) i ≡ erase_at xs i ++ ys
  erase_at-append_left [] ys i h = elim h [ ]
  erase_at-append_left (x ∷ xs) ys zero h = refl
  erase_at-append_left (x ∷ xs) ys (suc i) h =
      ap (λ t. x ∷ t) (erase_at-append_left xs ys i (omega arith))

  set-append_left :
      (xs ys : List A) (i : ℕ) (v : A) → i < length xs → set (xs ++ ys) i v ≡ set xs i v ++ ys
  set-append_left [] ys i v h = elim h [ ]
  set-append_left (x ∷ xs) ys zero v h = refl
  set-append_left (x ∷ xs) ys (suc i) v h =
      ap (λ t. x ∷ t) (set-append_left xs ys i v (omega arith))

  set-append_last : (xs : List A) (x v : A) → set (xs ++ (x ∷ [])) (length xs) v ≡ xs ++ (v ∷ [])
  set-append_last [] x v = refl
  set-append_last (y ∷ xs) x v = ap (λ t. y ∷ t) (set-append_last xs x v)

  insert_at-append_left :
      (xs ys : List A) (i : ℕ) (v : A)
      → i ≤ length xs
      → insert_at (xs ++ ys) i v ≡ insert_at xs i v ++ ys
  insert_at-append_left xs ys zero v h = refl
  insert_at-append_left [] ys (suc i) v h = elim h [ ]
  insert_at-append_left (x ∷ xs) ys (suc i) v h =
      ap (λ t. x ∷ t) (insert_at-append_left xs ys i v (omega arith))

  insert_at-length : (xs : List A) (v : A) → insert_at xs (length xs) v ≡ xs ++ (v ∷ [])
  insert_at-length [] v = refl
  insert_at-length (x ∷ xs) v = ap (λ t. x ∷ t) (insert_at-length xs v)

  -- A position from the end of a list is one from the start of its reverse.
  get_elem?-reverse :
      (xs : List A) (i : ℕ)
      → i < length xs
      → get_elem? (reverse xs) i ≡ get_elem? xs (length xs - i - 1)
  get_elem?-reverse [] i h = elim h [ ]
  get_elem?-reverse (x ∷ xs) i h = rw (reverse-cons x xs) ground (
    arith,
    h,
    length-reverse xs,
    get_elem?-reverse xs i,
    get_elem?-append_left (reverse xs) (x ∷ []) i,
    get_elem?-append_last (reverse xs) x,
  )

  erase_at-reverse :
      (xs : List A) (i : ℕ)
      → i < length xs
      → erase_at (reverse xs) i ≡ reverse (erase_at xs (length xs - i - 1))
  erase_at-reverse [] i h = elim h [ ]
  erase_at-reverse (x ∷ xs) i h = rw (reverse-cons x xs) ground (
    arith,
    h,
    length-reverse xs,
    erase_at-reverse xs i,
    erase_at-append_left (reverse xs) (x ∷ []) i,
    erase_at-append_last (reverse xs) x,
    reverse-cons x (erase_at xs (length xs - i - 1)),
  )

  set-reverse :
      (xs : List A) (i : ℕ) (v : A)
      → i < length xs
      → set (reverse xs) i v ≡ reverse (set xs (length xs - i - 1) v)
  set-reverse [] i v h = elim h [ ]
  set-reverse (x ∷ xs) i v h = rw (reverse-cons x xs) ground (
    arith,
    h,
    length-reverse xs,
    set-reverse xs i v,
    set-append_left (reverse xs) (x ∷ []) i v,
    set-append_last (reverse xs) x v,
    reverse-cons x (set xs (length xs - i - 1) v),
    reverse-cons v xs,
  )

  insert_at-reverse :
      (xs : List A) (i : ℕ) (v : A)
      → i ≤ length xs
      → insert_at (reverse xs) i v ≡ reverse (insert_at xs (length xs - i) v)
  insert_at-reverse [] zero v h = refl
  insert_at-reverse [] (suc i) v h = elim h [ ]
  insert_at-reverse (x ∷ xs) i v h = elim (Bool-cases (leb i (length xs))) [
    | inl inside ↦
        let e : suc (length xs) - i ≡ suc (length xs - i) = ground arith in
        rw
          (
            e,
            reverse-cons x xs,
            reverse-cons x (insert_at xs (length xs - i) v),
            sym (insert_at-reverse xs i v (ground arith)),
          )
          (insert_at-append_left (reverse xs) (x ∷ []) i v (ground (arith, length-reverse xs)))
    | inr past ↦
        let e : i ≡ length (reverse (x ∷ xs)) = ground (arith, length-reverse (x ∷ xs)) in
        let d : suc (length xs) - i ≡ 0 = ground (arith, length-reverse (x ∷ xs)) in
        rw (d, e, reverse-cons v (x ∷ xs)) (insert_at-length (reverse (x ∷ xs)) v)
  ]

  -- The items from the top.
  unfoldable pub from_top : RandomAccessStack A → List A
  from_top s = reverse s.items

  abbrev pub peek_list : List A → Option ℕ → Option A
  peek_list xs none = none
  peek_list xs (some i) = get_elem? xs i

  abbrev pub remove_list : List A → Option ℕ → Option (A × List A)
  remove_list xs none = none
  remove_list xs (some i) = elim (get_elem? xs i) [ none ↦ none | some a ↦ some (a, erase_at xs i) ]

  abbrev pub set_list : List A → Option ℕ → A → Option (List A)
  set_list xs none v = none
  set_list xs (some i) v = some (set xs i v)

  abbrev pub seen : Option (A × RandomAccessStack A) → Option (A × List A)
  seen none = none
  seen (some (a, s)) = some (a, from_top s)

  abbrev pub seen_stack : Option (RandomAccessStack A) → Option (List A)
  seen_stack none = none
  seen_stack (some s) = some (from_top s)

  -- On a stack whose count is right, Peek reads the item at the index from the top, where a
  -- negative index counts from the bottom, and raises exactly where the index leaves the stack.
  pub peek-from_top :
      (z : ℤ) (s : RandomAccessStack A)
      → IsSized s
      → peek z s ≡ peek_list (from_top s) (top_index z s.size)
  unfolding peek at_position from_top IsSized
  peek-from_top z s h = elim (position_cases z s.size) [
    | inl (p, q) ↦ ground (arith, p, q)
    | inr (i, lt, p, q) ↦ ground (arith, h, lt, p, q, get_elem?-reverse s.items i)
  ]

  -- On a stack whose count is right, Remove takes the item at the index from the top out of the
  -- stack, where a negative index counts from the bottom, and raises where the index leaves the
  -- stack.
  pub remove-from_top :
      (z : ℤ) (s : RandomAccessStack A)
      → IsSized s
      → seen (remove z s) ≡ remove_list (from_top s) (top_index z s.size)
  unfolding remove at_position from_top IsSized
  remove-from_top z s h = elim (position_cases z s.size) [
    | inl (p, q) ↦ ground (arith, p, q)
    | inr (i, lt, p, q) ↦
        ground (arith, h, lt, p, q, get_elem?-reverse s.items i, erase_at-reverse s.items i)
  ]

  -- On a stack whose count is right, Set replaces the item at the index from the top, where a
  -- negative index counts from the bottom, and raises where the index leaves the stack.
  pub set_item-from_top :
      (z : ℤ) (v : A) (s : RandomAccessStack A)
      → IsSized s
      → seen_stack (set_item z v s) ≡ set_list (from_top s) (top_index z s.size) v
  unfolding set_item at_position from_top IsSized
  set_item-from_top z v s h = elim (position_cases z s.size) [
    | inl (p, q) ↦ ground (arith, p, q)
    | inr (i, lt, p, q) ↦ ground (
      arith,
      h,
      lt,
      p,
      q,
      set-reverse s.items i v,
      get_elem?-some s.items (length s.items - i - 1),
    )
  ]

  -- On a stack whose count is right, Insert puts the item at the index from the top, and raises
  -- for an index above the count.
  pub insert-from_top :
      (i : ℕ) (v : A) (s : RandomAccessStack A)
      → IsSized s
      → seen_stack (insert i v s)
        ≡ (if leb i s.size then some (insert_at (from_top s) i v) else none)
  unfolding insert from_top IsSized
  insert-from_top i v s h = ground (arith, h, insert_at-reverse s.items i v)
