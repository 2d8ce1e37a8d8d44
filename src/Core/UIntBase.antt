-- ===== src/Core/UIntBase.antt =====
-- neo/Core/UIntBase.py, UInt160.py and UInt256.py. A value is its bytes.
pub mod Order
pub mod Text
use mathlib.Core.List.{reverse}
use neo_python.Core.BigInteger.{from_le}
use neo_python.Core.Io.Hex.{hexlify, unhexlify}
use neo_python.Prelude.{
  Bool, List, Option, get_elem?, if◌then◌else◌, length, ltb, none, replicate, some, suc, take, zero,
  ℕ, ◌&&◌, ◌-◌, ◌/◌, ◌==◌, ◌∷◌,
}
use neo_python.Prelude.Int.{leb_ℤ, ltb_ℤ, negsuc, pos, ℤ}

-- UIntBase.__init__: `none` is ValueError for data of another length.
unfoldable pub new_uint : ℕ → Option (List ℕ) → Option (List ℕ)
new_uint num_bytes none = some (replicate num_bytes 0)
new_uint num_bytes (some bytes) = if length bytes == num_bytes then some bytes else none

-- GetHashCode
unfoldable pub get_hash_code : List ℕ → ℕ
get_hash_code bytes = from_le (take 4 bytes)

-- ToString: the bytes from the last to the first, as hexadecimal.
unfoldable pub to_string : List ℕ → List ℕ
to_string bytes = hexlify (reverse bytes)

-- To0xString
abbrev pub to_0x_string : List ℕ → List ℕ
to_0x_string bytes = 48 ∷ 120 ∷ to_string bytes

-- `if value[0:2] == '0x': value = value[2:]`
abbrev pub strip_0x : List ℕ → List ℕ
strip_0x (a ∷ b ∷ value) = if a == 48 && b == 120 then value else a ∷ b ∷ value
strip_0x value = value

-- ParseString of UInt160 and UInt256, with the number of digits: `none` is ValueError. bytearray.fromhex
-- also takes spaces between bytes, which are left out: of a text of the right number of characters
-- with spaces, the constructor raises.
unfoldable pub parse_string : ℕ → List ℕ → Option (List ℕ)
parse_string digits value =
    if length (strip_0x value) == digits
    then elim (unhexlify (strip_0x value)) [
      | none ↦ none
      | some bytes ↦ new_uint (digits / 2) (some (reverse bytes))
    ]
    else none

-- `x[i]`, for an index inside.
abbrev pub byte_at : List ℕ → ℕ → ℕ
byte_at x i = elim (get_elem? x i) [ none ↦ 0 | some b ↦ b ]

-- The loop of CompareTo, from an index down to 1.
unfoldable pub compare_from : ℕ → List ℕ → List ℕ → ℤ
compare_from zero x y = pos 0
compare_from (suc i) x y =
    let rest = compare_from i x y in
    if ltb (byte_at y (suc i)) (byte_at x (suc i))
    then pos 1
    else if ltb (byte_at x (suc i)) (byte_at y (suc i))
    then negsuc 0
    else rest

-- CompareTo: `none` is the exception for another length.
unfoldable pub compare_to : List ℕ → List ℕ → Option ℤ
compare_to x y = if length x == length y then some (compare_from (length x - 1) x y) else none

-- __lt__, __gt__, __le__ and __ge__
abbrev pub by_order : (ℤ → Bool) → List ℕ → List ℕ → Option Bool
by_order f x y = elim (compare_to x y) [ none ↦ none | some z ↦ some (f z) ]

abbrev pub uint_lt : List ℕ → List ℕ → Option Bool
uint_lt = by_order (λ z. ltb_ℤ z (pos 0))

abbrev pub uint_gt : List ℕ → List ℕ → Option Bool
uint_gt = by_order (λ z. ltb_ℤ (pos 0) z)

abbrev pub uint_le : List ℕ → List ℕ → Option Bool
uint_le = by_order (λ z. leb_ℤ z (pos 0))

abbrev pub uint_ge : List ℕ → List ℕ → Option Bool
uint_ge = by_order (λ z. leb_ℤ (pos 0) z)
