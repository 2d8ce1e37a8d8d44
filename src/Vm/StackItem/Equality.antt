-- ===== src/Vm/StackItem/Equality.antt =====
-- neo/VM/InteropService.py: `Equals`, `==` and `hash` of stack items, the lookup of a dict, and
-- `Struct.Clone`. The recursion goes as deep as Python's limit lets it; past that RecursionError is
-- raised, which is `none`.
use neo_python.Core.BigInteger.{to_byte_array}
use neo_python.Core.MerkleTree.{depth}
use neo_python.Prelude.{
  Bool, List, Option, [], bytes_eq, false, if◌then◌else◌, length, none, not, some, suc, true, zero,
  ℕ, ◌*◌, ◌+◌, ◌==◌, ◌||◌, ◌∷◌,
}
use neo_python.Prelude.Int.{eqb_ℤ}
use neo_python.Vm.StackItem.{
  Heap, StackItem, array, boolean, byte_array, get_byte_array, integer, interop, map, struct,
  update,
}

-- StackItem.__hash__ of the bytes of an item: `hash * 31 + b` from 17.
hash_from : ℕ → List ℕ → ℕ
hash_from h [] = h
hash_from h (b ∷ bs) = hash_from (h * 31 + b) bs

-- The hash that ByteArray and Integer inherit. The others hash their identity (`none`), which equals
-- no such number.
unfoldable pub hash : StackItem → Option ℕ
unfolding hash_from
hash (byte_array bs) = some (hash_from 17 bs)
hash (integer x) = some (hash_from 17 (to_byte_array x))
hash _ = none

hash_eq : Option ℕ → Option ℕ → Bool
hash_eq none b = false
hash_eq (some a) none = false
hash_eq (some a) (some b) = a == b

-- `other.GetByteArray()` against bytes, where the other item may raise.
same_bytes : List ℕ → Option (List ℕ) → Option Bool
same_bytes bs none = none
same_bytes bs (some cs) = some (bytes_eq bs cs)

same_object : Option ℕ → Option ℕ → (ℕ → ℕ → Bool) → Bool
same_object none none eq = true
same_object none (some b) eq = false
same_object (some a) none eq = false
same_object (some a) (some b) eq = eq a b

-- How a key is found in a dict: equal hashes, then identity or `==`.
unfoldable pub same_key : StackItem → StackItem → Bool
unfolding hash hash_eq
same_key (boolean i _) (boolean j _) = i == j
same_key (interop i _) (interop j _) = i == j
same_key (array i) (array j) = i == j
same_key (struct i) (struct j) = i == j
same_key (map i) (map j) = i == j
same_key a b = hash_eq (hash a) (hash b)

-- `self._dict[key]`
unfoldable pub dict_get : StackItem → List (StackItem × StackItem) → Option StackItem
unfolding same_key
dict_get key [] = none
dict_get key ((k, v) ∷ d) = if same_key k key then some v else dict_get key d

-- `self._dict[key] = value`: an equal key keeps its place and its object.
unfoldable pub dict_set :
    StackItem → StackItem → List (StackItem × StackItem) → List (StackItem × StackItem)
unfolding same_key
dict_set key value [] = (key, value) ∷ []
dict_set key value ((k, v) ∷ d) =
    if same_key k key then (k, value) ∷ d else (k, v) ∷ dict_set key value d

-- `del self._dict[key]`, and nothing where the key is missing.
unfoldable pub dict_remove : StackItem → List (StackItem × StackItem) → List (StackItem × StackItem)
unfolding same_key
dict_remove key [] = []
dict_remove key ((k, v) ∷ d) = if same_key k key then d else (k, v) ∷ dict_remove key d

unfoldable pub dict_keys : List (StackItem × StackItem) → List StackItem
dict_keys [] = []
dict_keys ((k, v) ∷ d) = k ∷ dict_keys d

unfoldable pub dict_values : List (StackItem × StackItem) → List StackItem
dict_values [] = []
dict_values ((k, v) ∷ d) = v ∷ dict_values d

-- `and` of two answers, the second asked for only if the first is True.
and_then : Option Bool → Option Bool → Option Bool
and_then none _ = none
and_then (some false) _ = some false
and_then (some true) b = b

elements_eq : (StackItem → StackItem → Option Bool) → List StackItem → List StackItem → Option Bool
unfolding and_then
elements_eq eq [] ys = some true
elements_eq eq (x ∷ xs) [] = some true
elements_eq eq (x ∷ xs) (y ∷ ys) = and_then (eq x y) (elements_eq eq xs ys)

-- `==` of two lists: the lengths, then the elements in order.
list_eq : (StackItem → StackItem → Option Bool) → List StackItem → List StackItem → Option Bool
unfolding elements_eq
list_eq eq xs ys = if length xs == length ys then elements_eq eq xs ys else some false

-- `==` of two dicts: the sizes, then each key of the first with its value in the second.
entries_eq :
    (StackItem → StackItem → Option Bool)
    → List (StackItem × StackItem)
    → List (StackItem × StackItem)
    → Option Bool
unfolding and_then
entries_eq eq [] e = some true
entries_eq eq ((k, v) ∷ d) e =
    let rest = entries_eq eq d e in
    elim (dict_get k e) [ none ↦ some false | some w ↦ and_then (eq v w) rest ]

dict_eq :
    (StackItem → StackItem → Option Bool)
    → List (StackItem × StackItem)
    → List (StackItem × StackItem)
    → Option Bool
unfolding entries_eq
dict_eq eq d e = if length d == length e then entries_eq eq d e else some false

-- Identity or `==` of two items, with the depth of recursion that is left. `objects` is `==` of the
-- objects that InteropInterface wraps.
unfoldable pub item_eq : (ℕ → ℕ → Bool) → ℕ → Heap → StackItem → StackItem → Option Bool
unfolding hash_eq hash same_bytes same_object list_eq dict_eq
item_eq objects zero heap a b = none
item_eq objects (suc depth) heap (byte_array bs) b = some (hash_eq (hash (byte_array bs)) (hash b))
item_eq objects (suc depth) heap (integer x) b = some (hash_eq (hash (integer x)) (hash b))
item_eq objects (suc depth) heap (boolean i false) (boolean j c) = some (not c)
item_eq objects (suc depth) heap (boolean i true) (boolean j c) = some c
item_eq objects (suc depth) heap (boolean i false) b = same_bytes [] (get_byte_array b)
item_eq objects (suc depth) heap (boolean i true) b = same_bytes (1 ∷ []) (get_byte_array b)
item_eq objects (suc depth) heap (interop i o) (interop j p) =
    some (i == j || same_object o p objects)
item_eq objects (suc depth) heap (array r) (array q) =
    let rest = list_eq (item_eq objects depth heap) (heap.arrays r) (heap.arrays q) in
    if r == q then some true else rest
item_eq objects (suc depth) heap (struct r) (struct q) =
    let rest = list_eq (item_eq objects depth heap) (heap.arrays r) (heap.arrays q) in
    if r == q then some true else rest
item_eq objects (suc depth) heap (map r) (map q) =
    let rest = dict_eq (item_eq objects depth heap) (heap.maps r) (heap.maps q) in
    if r == q then some true else rest
item_eq objects (suc depth) heap _ b = some false

-- `x1.Equals(x2)`: ByteArray and Integer compare their bytes and value here, the others as under `==`.
unfoldable pub equals : (ℕ → ℕ → Bool) → ℕ → Heap → StackItem → StackItem → Option Bool
unfolding item_eq same_bytes
equals objects depth heap (byte_array bs) b = elim (get_byte_array b) [
  | none ↦ some false
  | some cs ↦ some (bytes_eq bs cs)
]
equals objects depth heap (integer x) (integer y) = some (eqb_ℤ x y)
equals objects depth heap (integer x) b = same_bytes (to_byte_array x) (get_byte_array b)
equals objects depth heap a b = item_eq objects depth heap a b

-- Struct.Clone: a fresh list in which the structs are cloned and all else is shared.
clone_items :
    (ℕ → Heap → Option (ℕ × Heap)) → List StackItem → Heap → Option (List StackItem × Heap)
clone_items clone [] heap = some ([], heap)
clone_items clone (struct r ∷ xs) heap = elim (clone r heap) [
  | none ↦ none
  | some (q, heap') ↦ elim (clone_items clone xs heap') [
    | none ↦ none
    | some (ys, heap'') ↦ some (struct q ∷ ys, heap'')
  ]
]
clone_items clone (x ∷ xs) heap = elim (clone_items clone xs heap) [
  | none ↦ none
  | some (ys, heap') ↦ some (x ∷ ys, heap')
]

unfoldable pub clone : ℕ → ℕ → Heap → Option (ℕ × Heap)
unfolding clone_items
clone zero r heap = none
clone (suc depth) r heap = elim (clone_items (clone depth) (heap.arrays r) heap) [
  | none ↦ none
  | some (ys, heap') ↦ some (
    heap'.next,
    record heap' { next = heap'.next + 1; arrays = update heap'.arrays heap'.next ys },
  )
]
