-- ===== src/Vm/Ops/Collections.antt =====
-- ExecuteInstruction: arrays, structs and maps. An index that passes its test lies in the list.
use neo_python.Prelude.{
  Bool, List, Option, [], erase_at, false, get_elem?, if◌then◌else◌, length, none, not, set, some,
  suc, true, zero, ℕ, ◌&&◌, ◌++◌, ◌+◌, ◌==◌, ◌||◌, ◌∷◌,
}
use neo_python.Prelude.Int.{leb_ℤ, ltb_ℤ, negsuc, pos, pos_part}
use neo_python.Vm.Engine.Limits.{
  check_array_size, int_max_value, note_stack_size, report_stack_size,
}
use neo_python.Vm.Engine.Monad.{
  commit, fail_if, fail_with, or_raise, pure, raise, skip, ◌>>=◌, ◌>>◌,
}
use neo_python.Vm.Engine.Stacks.{
  count_of, dict_at, list_at, new_dict, new_identity, new_list, pop_int, pop_item, push_bool,
  push_int, push_item, push_list, write_dict, write_list,
}
use neo_python.Vm.Instruction.{Instruction}
use neo_python.Vm.StackItem.{
  Heap, StackItem, array, boolean, get_big_integer, get_byte_array, is_array, is_collection, map,
  struct,
}
use neo_python.Vm.StackItem.Equality.{
  clone, dict_get, dict_keys, dict_remove, dict_set, dict_values,
}
use neo_python.Vm.State.{
  Action, Host, VmFault, append_exceed_arraylimit, append_invalid_type, dict_key_error,
  dict_key_not_found, key_is_collection, newarray_exceed_arraylimit, newarray_negative_count, ok,
  pickitem_invalid_index, pickitem_invalid_type, remove_invalid_index, remove_invalid_type,
  reverse_invalid_type, setitem_invalid_index, setitem_invalid_map, setitem_invalid_type, unknown1,
  unknown8, unpack_invalid_type,
}
use neo_python.Vm.OpCode
use mathlib.Core.List.{reverse}

abbrev pub cloned : Option (ℕ × Heap) → Option (StackItem × Heap)
cloned none = none
cloned (some (r, heap)) = some (struct r, heap)

-- `value.Clone()` of a struct, and the item itself otherwise.
unfoldable pub clone_struct : Host → StackItem → Action StackItem
clone_struct h (struct r) e =
    commit (cloned (clone h.recursion_limit r e.heap)) (λ heap e. record e { heap = heap }) e
clone_struct h item e = (ok item, e)

-- The list of an item that is an Array, or the fault.
unfoldable pub array_or_fail : Option ℕ → VmFault → Action ℕ
array_or_fail none id = fail_with id
array_or_fail (some r) id = pure r

-- `index = key.GetBigInteger()`, tested against the length of the list.
unfoldable pub index_or_fail : StackItem → ℕ → VmFault → Action ℕ
index_or_fail key count id = do
  index ← or_raise (get_big_integer key)
  fail_if (ltb_ℤ index (pos 0) || leb_ℤ (pos count) index) id
  pure (pos_part index)

unfoldable pub count_item : Host → ℕ → StackItem → Action (Unit {0})
count_item h c (array r) = do
  xs ← list_at r
  push_int c (pos (length xs))
  note_stack_size h false (pos 0)
count_item h c (struct r) = do
  xs ← list_at r
  push_int c (pos (length xs))
  note_stack_size h false (pos 0)
count_item h c (map r) = do
  d ← dict_at r
  push_int c (pos (length d))
  note_stack_size h false (pos 0)
count_item h c item = do
  bs ← or_raise (get_byte_array item)
  push_int c (pos (length bs))
  note_stack_size h true (pos 0)

-- ARRAYSIZE
unfoldable pub op_arraysize : Host → ℕ → Instruction → Action (Unit {0})
op_arraysize h c ins = do count_item h c (← pop_item c)

-- `n` times `estack.Pop()`
unfoldable pub pop_times : ℕ → ℕ → Action (List StackItem)
pop_times zero c = pure []
pop_times (suc n) c = do x ← pop_item c; xs ← pop_times n c; pure (x ∷ xs)

-- PACK
unfoldable pub op_pack : Host → ℕ → Instruction → Action (Unit {0})
op_pack h c ins = do
  size ← pop_int c
  count ← count_of c
  fail_if (ltb_ℤ size (pos 0) || (ltb_ℤ (pos count) size || not (check_array_size (pos_part size))))
      unknown8
  items ← pop_times (pos_part size) c
  push_list c items

-- `[estack.PushT(i) for i in items]`
unfoldable pub push_all : ℕ → List StackItem → Action (Unit {0})
push_all c [] = skip
push_all c (x ∷ xs) = do push_item c x; push_all c xs

-- UNPACK: `items.reverse()` is in place, so the array itself is reversed.
unfoldable pub op_unpack : Host → ℕ → Instruction → Action (Unit {0})
op_unpack h c ins = do
  item ← pop_item c
  r ← array_or_fail (is_array item) unpack_invalid_type
  items ← list_at r
  write_list r (reverse items)
  push_all c (reverse items)
  push_int c (pos (length items))
  report_stack_size h false (pos (length items))

-- The value of a key, or the fault.
unfoldable pub value_or_fail : Host → ℕ → Option StackItem → Action (Unit {0})
value_or_fail h c none = fail_with dict_key_not_found
value_or_fail h c (some value) = do push_item c value; report_stack_size h false (negsuc 0)

unfoldable pub pick_from : Host → ℕ → StackItem → StackItem → Action (Unit {0})
pick_from h c key (array r) = do
  items ← list_at r
  index ← index_or_fail key (length items) pickitem_invalid_index
  to_pick ← or_raise (get_elem? items index)
  push_item c to_pick
  report_stack_size h false (negsuc 0)
pick_from h c key (struct r) = do
  items ← list_at r
  index ← index_or_fail key (length items) pickitem_invalid_index
  to_pick ← or_raise (get_elem? items index)
  push_item c to_pick
  report_stack_size h false (negsuc 0)
pick_from h c key (map r) = do d ← dict_at r; value_or_fail h c (dict_get key d)
pick_from h c key _ = fail_with pickitem_invalid_type

-- PICKITEM
unfoldable pub op_pickitem : Host → ℕ → Instruction → Action (Unit {0})
op_pickitem h c ins = do
  key ← pop_item c
  fail_if (is_collection key) key_is_collection
  collection ← pop_item c
  pick_from h c key collection

abbrev pub missing : Option StackItem → Bool
missing none = true
missing (some _) = false

unfoldable pub store_into : Host → StackItem → StackItem → StackItem → Action (Unit {0})
store_into h key value (array r) = do
  items ← list_at r
  index ← index_or_fail key (length items) setitem_invalid_index
  write_list r (set items index value)
store_into h key value (struct r) = do
  items ← list_at r
  index ← index_or_fail key (length items) setitem_invalid_index
  write_list r (set items index value)
store_into h key value (map r) = do
  d ← dict_at r
  fail_if (missing (dict_get key d) && not (check_array_size (length d + 1))) setitem_invalid_map
  write_dict r (dict_set key value d)
store_into h key value _ = fail_with setitem_invalid_type

-- SETITEM
unfoldable pub op_setitem : Host → ℕ → Instruction → Action (Unit {0})
op_setitem h c ins = do
  value ← clone_struct h (← pop_item c)
  key ← pop_item c
  fail_if (is_collection key) key_is_collection
  collection ← pop_item c
  store_into h key value collection
  report_stack_size h false (pos int_max_value)

-- `[Boolean(False) for i in range(0, count)]`: each is an object of its own.
unfoldable pub new_falses : ℕ → Action (List StackItem)
new_falses zero = pure []
new_falses (suc n) = do i ← new_identity; rest ← new_falses n; pure (boolean i false ∷ rest)

-- An Array or Struct over a list, by the opcode.
abbrev pub collection_of : Instruction → ℕ → StackItem
collection_of ins r = if ins.op_code == OpCode.newarray then array r else struct r

-- NEWARRAY, NEWSTRUCT: over the list of an array or struct, or with a count of new items.
unfoldable pub new_collection : Host → ℕ → Instruction → StackItem → Option ℕ → Action (Unit {0})
new_collection h c ins item (some r) = push_item c (collection_of ins r)
new_collection h c ins item none = do
  count ← or_raise (get_big_integer item)
  fail_if (ltb_ℤ count (pos 0)) newarray_negative_count
  fail_if (not (check_array_size (pos_part count))) newarray_exceed_arraylimit
  items ← new_falses (pos_part count)
  r ← new_list items
  push_item c (collection_of ins r)
  report_stack_size h true count

unfoldable pub op_newarray : Host → ℕ → Instruction → Action (Unit {0})
op_newarray h c ins = do item ← pop_item c; new_collection h c ins item (is_array item)

-- NEWMAP
unfoldable pub op_newmap : Host → ℕ → Instruction → Action (Unit {0})
op_newmap h c ins = do r ← new_dict []; push_item c (map r); report_stack_size h true (pos 1)

-- APPEND
unfoldable pub op_append : Host → ℕ → Instruction → Action (Unit {0})
op_append h c ins = do
  new_item ← clone_struct h (← pop_item c)
  arr_item ← pop_item c
  r ← array_or_fail (is_array arr_item) append_invalid_type
  arr ← list_at r
  fail_if (not (check_array_size (length arr + 1))) append_exceed_arraylimit
  write_list r (arr ++ (new_item ∷ []))
  report_stack_size h false (pos int_max_value)

-- REVERSE
unfoldable pub op_reverse : Host → ℕ → Instruction → Action (Unit {0})
op_reverse h c ins = do
  item ← pop_item c
  note_stack_size h false (negsuc 0)
  r ← array_or_fail (is_array item) reverse_invalid_type
  items ← list_at r
  write_list r (reverse items)

unfoldable pub remove_key : StackItem → StackItem → Action (Unit {0})
remove_key key (array r) = do
  items ← list_at r
  index ← index_or_fail key (length items) remove_invalid_index
  write_list r (erase_at items index)
remove_key key (struct r) = do
  items ← list_at r
  index ← index_or_fail key (length items) remove_invalid_index
  write_list r (erase_at items index)
remove_key key (map r) = do d ← dict_at r; write_dict r (dict_remove key d)
remove_key key _ = fail_with remove_invalid_type

-- REMOVE
unfoldable pub op_remove : Host → ℕ → Instruction → Action (Unit {0})
op_remove h c ins = do
  key ← pop_item c
  fail_if (is_collection key) unknown1
  collection ← pop_item c
  note_stack_size h false (negsuc 1)
  remove_key key collection

unfoldable pub has_index : StackItem → ℕ → Action Bool
has_index key r = do
  index ← or_raise (get_big_integer key)
  fail_if (ltb_ℤ index (pos 0)) dict_key_error
  items ← list_at r
  pure (ltb_ℤ index (pos (length items)))

unfoldable pub has_key : StackItem → StackItem → Action Bool
has_key key (array r) = has_index key r
has_key key (struct r) = has_index key r
has_key key (map r) = do
  d ← dict_at r
  pure (elim (dict_get key d) [ none ↦ false | some _ ↦ true ])
has_key key _ = fail_with dict_key_error

-- HASKEY
unfoldable pub op_haskey : Host → ℕ → Instruction → Action (Unit {0})
op_haskey h c ins = do
  key ← pop_item c
  fail_if (is_collection key) dict_key_error
  collection ← pop_item c
  found ← has_key key collection
  push_bool c found
  note_stack_size h false (negsuc 0)

unfoldable pub keys_of : Host → ℕ → StackItem → Action (Unit {0})
keys_of h c (map r) = do
  d ← dict_at r
  push_list c (dict_keys d)
  report_stack_size h false (pos (length d))
keys_of h c _ = fail_with dict_key_error

-- KEYS
unfoldable pub op_keys : Host → ℕ → Instruction → Action (Unit {0})
op_keys h c ins = do keys_of h c (← pop_item c)

-- The items of VALUES, structs cloned.
unfoldable pub clone_all : Host → List StackItem → Action (List StackItem)
clone_all h [] = pure []
clone_all h (x ∷ xs) = do y ← clone_struct h x; ys ← clone_all h xs; pure (y ∷ ys)

unfoldable pub values_of : Host → ℕ → StackItem → Action (Unit {0})
values_of h c (map r) = do
  d ← dict_at r
  items ← clone_all h (dict_values d)
  push_list c items
  report_stack_size h false (pos int_max_value)
values_of h c (array r) = raise
values_of h c (struct r) = raise
values_of h c _ = fail_with dict_key_error

-- VALUES: of an array the loop runs over the Array object, which Python cannot iterate, and raises.
unfoldable pub op_values : Host → ℕ → Instruction → Action (Unit {0})
op_values h c ins = do values_of h c (← pop_item c)
