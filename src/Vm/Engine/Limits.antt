-- ===== src/Vm/Engine/Limits.antt =====
-- neo/VM/ExecutionEngine.py: the limits of the engine, and the count of stack items.
use neo_python.Core.BigInteger.{to_byte_array}
use neo_python.Prelude.{
  Bool, List, Option, [], false, if◌then◌else◌, leb, length, ltb, none, not, some, suc, true, zero,
  ℕ, ◌&&◌, ◌*◌, ◌++◌, ◌+◌, ◌||◌, ◌∷◌,
}
use neo_python.Prelude.Int.{leb_ℤ, ltb_ℤ, neg_ℕ, pos, pos_part, ℤ, ◌+ℤ◌}
use neo_python.Vm.Engine.Monad.{fail_if, gets, modify, pure, skip, vm_fault_and_report, ◌>>=◌, ◌>>◌}
use neo_python.Vm.StackItem.{Heap, StackItem, array, map, struct}
use neo_python.Vm.StackItem.Equality.{dict_values, item_eq}
use neo_python.Vm.State.{Action, Engine, ExecutionContext, Host, invalid_stacksize, ok, raised}
use mathlib.Core.List.{reverse}

abbrev pub int_max_value : ℕ
int_max_value = 2147483647

abbrev pub max_size_for_big_integer : ℕ
max_size_for_big_integer = 32

abbrev pub max_shl_shr : ℕ
max_shl_shr = 256

abbrev pub max_item_size : ℕ
max_item_size = 1024 * 1024

abbrev pub max_array_size : ℕ
max_array_size = 1024

abbrev pub max_stack_size : ℕ
max_stack_size = 2048

abbrev pub max_invocation_stack_size : ℕ
max_invocation_stack_size = 1024

-- CheckArraySize
unfoldable pub check_array_size : ℕ → Bool
check_array_size length = leb length max_array_size

-- CheckMaxItemSize
unfoldable pub check_max_item_size : ℕ → Bool
check_max_item_size length = leb length max_item_size

-- CheckMaxInvocationStack
unfoldable pub check_max_invocation_stack : Action Bool
check_max_invocation_stack = gets (λ e. ltb e.invocation_stack.size max_invocation_stack_size)

-- CheckBigInteger
unfoldable pub check_big_integer : ℤ → Bool
check_big_integer value = leb (length (to_byte_array value)) max_size_for_big_integer

-- CheckShift
unfoldable pub check_shift : ℤ → Bool
check_shift shift = leb_ℤ shift (pos max_shl_shr) && leb_ℤ (neg_ℕ max_shl_shr) shift

-- `stackitem in counted`
unfoldable pub contained :
    (StackItem → StackItem → Option Bool) → StackItem → List StackItem → Option Bool
contained eq x [] = some false
contained eq x (y ∷ ys) = elim (eq x y) [
  | none ↦ none
  | some true ↦ some true
  | some false ↦ contained eq x ys
]

-- How GetItemCount ends. `stuck` is no Python value: the loop of the model ran out of fuel.
pub data ItemCount : Type 0 where
  counted_items : ℕ → ItemCount
  count_raised : ItemCount
  stuck : ItemCount

-- The items that a collection holds, and nothing for another item.
unfoldable pub children : Heap → StackItem → Option (List StackItem)
children heap (array r) = some (heap.arrays r)
children heap (struct r) = some (heap.arrays r)
children heap (map r) = some (dict_values (heap.maps r))
children heap _ = none

-- The loop of GetItemCount. The first item is the right end of the deque.
unfoldable pub item_count_loop :
    (StackItem → StackItem → Option Bool)
    → Heap
    → ℕ
    → List StackItem
    → List StackItem
    → ℕ
    → ItemCount
item_count_loop eq heap fuel [] counted count = counted_items count
item_count_loop eq heap zero (x ∷ items) counted count = stuck
item_count_loop eq heap (suc fuel) (x ∷ items) counted count = elim (children heap x) [
  | none ↦ item_count_loop eq heap fuel items counted (count + 1)
  | some xs ↦ elim (contained eq x counted) [
    | none ↦ count_raised
    | some true ↦ item_count_loop eq heap fuel items counted count
    | some false ↦ item_count_loop eq heap fuel (reverse xs ++ items) (counted ++ (x ∷ [])) count
  ]
]

-- How many items a collection holds.
unfoldable pub held : Heap → StackItem → ℕ
unfolding children
held heap x = elim (children heap x) [ none ↦ 0 | some xs ↦ length xs ]

-- All that the collections with an identity below `n` hold. Each is expanded once at most.
unfoldable pub cells_below : Heap → ℕ → ℕ
cells_below heap zero = 0
cells_below heap (suc n) =
    cells_below heap n + (held heap (array n) + (held heap (struct n) + held heap (map n)))

-- GetItemCount
unfoldable pub get_item_count : Host → Heap → List StackItem → ItemCount
get_item_count h heap items =
    item_count_loop (item_eq h.object_eq h.recursion_limit heap) heap
      (length items + cells_below heap heap.next) (reverse items) [] 0

-- The items on the two stacks of each context.
unfoldable pub stack_items : (ℕ → ExecutionContext) → List ℕ → List StackItem
stack_items contexts [] = []
stack_items contexts (c ∷ cs) =
    (contexts c).evaluation_stack.items ++ ((contexts c).alt_stack.items ++ stack_items contexts cs)

-- `self._stackitem_count += count`, with what leaves the range of a C# int set to its maximum.
unfoldable pub add_count : ℕ → ℤ → ℕ
add_count n count =
    let total = pos n +ℤ count in
    if ltb_ℤ total (pos 0) || ltb_ℤ (pos int_max_value) total then int_max_value else pos_part total

unfoldable pub recount : ItemCount → Action Bool
recount (counted_items n) e = (
  ok (leb n max_stack_size),
  record e {
    stackitem_count = n;
    is_stackitem_count_strict = leb n max_stack_size || e.is_stackitem_count_strict;
  },
)
recount count_raised e = (raised, e)
recount stuck e = (raised, e)

-- `self._is_stackitem_count_strict &= strict` and the addition to the count
abbrev pub note_count : Bool → ℤ → Engine → Engine
note_count strict count e = record e {
  is_stackitem_count_strict = e.is_stackitem_count_strict && strict;
  stackitem_count = add_count e.stackitem_count count;
}

-- CheckStackSize. What `items` binds is counted only where it is used.
unfoldable pub check_stack_size : Host → Bool → ℤ → Action Bool
check_stack_size h strict count = do
  modify (note_count strict count)
  n ← gets (λ e. e.stackitem_count)
  strictly ← gets (λ e. e.is_stackitem_count_strict)
  items ← gets (λ e. get_item_count h e.heap (stack_items e.contexts e.invocation_stack.items))
  if leb n max_stack_size then pure true else if strictly then pure false else recount items

-- `if not self.CheckStackSize(strict, count): return self.VM_FAULT_and_report(INVALID_STACKSIZE)`
unfoldable pub require_stack_size : Host → Bool → ℤ → Action (Unit {0})
require_stack_size h strict count = do
  small ← check_stack_size h strict count
  fail_if (not small) invalid_stacksize

-- The same where the source reports the fault and goes on.
unfoldable pub report_stack_size : Host → Bool → ℤ → Action (Unit {0})
report_stack_size h strict count = do
  small ← check_stack_size h strict count
  if small then skip else (do vm_fault_and_report invalid_stacksize; skip)

-- `self.CheckStackSize(strict, count)` as a statement
unfoldable pub note_stack_size : Host → Bool → ℤ → Action (Unit {0})
note_stack_size h strict count = do check_stack_size h strict count; skip
