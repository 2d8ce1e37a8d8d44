-- ===== src/Vm/RandomAccessStack.antt =====
-- neo/VM/RandomAccessStack.py. The top is the end of `items`; `size` is the count that the class
-- keeps beside the list. An operation that raises gives `none`.
pub mod Laws
pub mod TopDown
use neo_python.Prelude.{
  List, Option, [], drop, erase_at, get_elem?, if◌then◌else◌, insert_at, leb, length, ltb, none,
  set, some, suc, zero, ℕ, ◌++◌, ◌+◌, ◌-◌, ◌∷◌,
}
use neo_python.Prelude.Int.{negsuc, pos, ℤ}

pub record RandomAccessStack (A : Type 0) : Type 0 where
  pub items : List A
  pub size : ℕ

-- The tests that Peek, Remove and Set share, and the position in the list that they reach.
pub position : ℤ → ℕ → Option ℕ
position (pos index) size = if leb size index then none else some (size - index - 1)
position (negsuc index) size =
    if ltb size (suc index) then none else some (size - (size - suc index) - 1)

module _ {A : Type 0} where
  abbrev pub empty : RandomAccessStack A
  empty = record { items = []; size = 0 }

  -- RandomAccessStack.PushT
  unfoldable pub push_t : A → RandomAccessStack A → RandomAccessStack A
  push_t item s = record { items = s.items ++ (item ∷ []); size = s.size + 1 }

  -- Python's list indexing at a number that is not negative.
  at_position : Option ℕ → List A → Option (A × ℕ)
  at_position none xs = none
  at_position (some i) xs = elim (get_elem? xs i) [ none ↦ none | some a ↦ some (a, i) ]

  -- RandomAccessStack.Peek
  unfoldable pub peek : ℤ → RandomAccessStack A → Option A
  unfolding position at_position
  peek index s = elim (at_position (position index s.size) s.items) [
    | none ↦ none
    | some (a, i) ↦ some a
  ]

  -- RandomAccessStack.Remove
  unfoldable pub remove : ℤ → RandomAccessStack A → Option (A × RandomAccessStack A)
  unfolding position at_position
  remove index s = elim (at_position (position index s.size) s.items) [
    | none ↦ none
    | some (a, i) ↦ some (a, record { items = erase_at s.items i; size = s.size - 1 })
  ]

  -- RandomAccessStack.Pop
  unfoldable pub pop : RandomAccessStack A → Option (A × RandomAccessStack A)
  unfolding remove
  pop s = remove (pos 0) s

  -- RandomAccessStack.Set
  unfoldable pub set_item : ℤ → A → RandomAccessStack A → Option (RandomAccessStack A)
  unfolding position at_position
  set_item index item s = elim (at_position (position index s.size) s.items) [
    | none ↦ none
    | some (a, i) ↦ some (record s { items = set s.items i item })
  ]

  -- RandomAccessStack.Insert, at an index that is not negative.
  unfoldable pub insert : ℕ → A → RandomAccessStack A → Option (RandomAccessStack A)
  insert index item s =
      if ltb s.size index
      then none
      else some (record { items = insert_at s.items (s.size - index) item; size = s.size + 1 })

  -- RandomAccessStack.Clear
  unfoldable pub clear : RandomAccessStack A → RandomAccessStack A
  clear s = empty

  -- `self._list[skip_count:]` for `skip_count = size - count`: a negative start counts from the end.
  suffix : ℕ → ℕ → List A → List A
  suffix size count xs =
      if leb count size then drop (size - count) xs else drop (length xs - (count - size)) xs

  -- RandomAccessStack.CopyTo, with a count, and with the default -1.
  unfoldable pub copy_to : ℕ → RandomAccessStack A → RandomAccessStack A → RandomAccessStack A
  unfolding suffix
  copy_to zero s stack = stack
  copy_to (suc n) s stack = record {
    items = stack.items ++ suffix s.size (suc n) s.items;
    size = stack.size + suc n;
  }

  unfoldable pub copy_all_to : RandomAccessStack A → RandomAccessStack A → RandomAccessStack A
  copy_all_to s stack = record { items = stack.items ++ s.items; size = stack.size + s.size }
