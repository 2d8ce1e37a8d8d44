-- ===== src/Vm/StackItem.antt =====
-- neo/VM/InteropService.py: the stack items. A list (of Array and Struct) and a dict (of Map) are
-- shared by the items that refer to them, and stand in a heap. Boolean and InteropInterface are
-- compared by identity where they are keys of a dict, and carry a number for it.
pub mod Equality
use neo_python.Core.BigInteger.{from_bytes, from_le, to_byte_array}
use neo_python.Prelude.{
  Bool, List, Option, [], false, if◌then◌else◌, length, ltb, none, not, some, true, ℕ, ◌==◌, ◌∷◌,
}
use neo_python.Prelude.Int.{eqb_ℤ, pos, ℤ}

pub data StackItem : Type 0 where
  byte_array : List ℕ → StackItem
  boolean : ℕ → Bool → StackItem
  integer : ℤ → StackItem
  -- the identity, and the wrapped object or None
  interop : ℕ → Option ℕ → StackItem
  array : ℕ → StackItem
  struct : ℕ → StackItem
  map : ℕ → StackItem

-- `next` is the next identity to be given.
pub record Heap : Type 0 where
  pub next : ℕ
  pub arrays : ℕ → List StackItem
  pub maps : ℕ → List (StackItem × StackItem)

abbrev pub update {ℓ} : {A : Type ℓ} → (ℕ → A) → ℕ → A → ℕ → A
update f p v q = if q == p then v else f q

-- isinstance(item, CollectionMixin)
abbrev pub is_collection : StackItem → Bool
is_collection (array r) = true
is_collection (struct r) = true
is_collection (map r) = true
is_collection _ = false

-- isinstance(item, Array), with the list that it refers to
abbrev pub is_array : StackItem → Option ℕ
is_array (array r) = some r
is_array (struct r) = some r
is_array _ = none

-- GetByteArray: Array, Map and InteropInterface raise.
unfoldable pub get_byte_array : StackItem → Option (List ℕ)
get_byte_array (byte_array bs) = some bs
get_byte_array (boolean _ true) = some (1 ∷ [])
get_byte_array (boolean _ false) = some []
get_byte_array (integer x) = some (to_byte_array x)
get_byte_array (interop _ _) = none
get_byte_array (array _) = none
get_byte_array (struct _) = none
get_byte_array (map _) = none

-- GetBigInteger
unfoldable pub get_big_integer : StackItem → Option ℤ
get_big_integer (byte_array bs) = some (from_bytes bs true)
get_big_integer (boolean _ true) = some (pos 1)
get_big_integer (boolean _ false) = some (pos 0)
get_big_integer (integer x) = some x
get_big_integer (interop _ _) = none
get_big_integer (array _) = none
get_big_integer (struct _) = none
get_big_integer (map _) = none

-- ByteArray.GetBoolean: a number above 32, or else a byte that is not zero.
pub some_byte : List ℕ → Bool
some_byte [] = false
some_byte (b ∷ bs) = if ltb 0 b then true else some_byte bs

unfoldable pub bytes_boolean : List ℕ → Bool
unfolding some_byte
bytes_boolean bs = if ltb 32 (from_le bs) then true else some_byte bs

-- GetBoolean
unfoldable pub get_boolean : StackItem → Bool
unfolding bytes_boolean
get_boolean (byte_array bs) = bytes_boolean bs
get_boolean (boolean _ b) = b
get_boolean (integer x) = not (eqb_ℤ x (pos 0))
get_boolean (interop _ none) = false
get_boolean (interop _ (some _)) = true
get_boolean (array _) = true
get_boolean (struct _) = true
get_boolean (map _) = true

-- GetByteLength
unfoldable pub get_byte_length : StackItem → Option ℕ
unfolding get_byte_array
get_byte_length item = elim (get_byte_array item) [ none ↦ none | some bs ↦ some (length bs) ]
