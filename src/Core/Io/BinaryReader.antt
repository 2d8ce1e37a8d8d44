-- ===== src/Core/Io/BinaryReader.antt =====
-- neo/Core/IO/BinaryReader.py: what each method reads from the rest of the stream. `none` is an
-- exception, behind which nothing is read.
use neo_python.Core.BigInteger.{from_bytes, from_le}
use neo_python.Prelude.{
  Bool, List, Option, [], drop, if◌then◌else◌, length, ltb, none, not, some, take, true, ℕ, ◌==◌,
  ◌∷◌,
}
use neo_python.Prelude.Int.{ℤ}

-- ReadBytes gives what there is.
abbrev pub read_bytes_of : ℕ → List ℕ → List ℕ × List ℕ
read_bytes_of size s = (take size s, drop size s)

-- SafeReadBytes
unfoldable pub safe_read_bytes : ℕ → List ℕ → Option (List ℕ × List ℕ)
safe_read_bytes size s =
    if ltb (length (take size s)) size then none else some (take size s, drop size s)

-- `self.unpack` of an unsigned or a signed number: struct.unpack raises for less bytes.
unfoldable pub unpack_uint : ℕ → List ℕ → Option (ℕ × List ℕ)
unpack_uint size s =
    if length (take size s) == size then some (from_le (take size s), drop size s) else none

unfoldable pub unpack_int : ℕ → List ℕ → Option (ℤ × List ℕ)
unpack_int size s =
    if length (take size s) == size then some (from_bytes (take size s) true, drop size s) else none

-- ReadBool
unfoldable pub read_bool : List ℕ → Option (Bool × List ℕ)
read_bool [] = none
read_bool (b ∷ s) = some (not (b == 0), s)

-- The number behind a first byte.
unfoldable pub read_var_value : ℕ → List ℕ → Option (ℕ × List ℕ)
read_var_value fb s =
    if fb == 0xfd
    then unpack_uint 2 s
    else if fb == 0xfe
    then unpack_uint 4 s
    else if fb == 0xff
    then unpack_uint 8 s
    else some (fb, s)

-- `if value > max: raise ValueError`
abbrev pub at_most_max : ℕ → Option (ℕ × List ℕ) → Option (ℕ × List ℕ)
at_most_max max none = none
at_most_max max (some (value, s)) = if ltb max value then none else some (value, s)

-- ReadVarInt: 0 at the end of the stream.
unfoldable pub read_var_int : ℕ → List ℕ → Option (ℕ × List ℕ)
read_var_int max [] = some (0, [])
read_var_int max (fb ∷ s) = at_most_max max (read_var_value fb s)

-- ReadVarBytes
unfoldable pub read_var_bytes : ℕ → List ℕ → Option (List ℕ × List ℕ)
read_var_bytes max s = elim (read_var_int max s) [
  | none ↦ none
  | some (size, rest) ↦ safe_read_bytes size rest
]

-- ReadVarString: struct.unpack raises for less bytes.
unfoldable pub read_var_string : ℕ → List ℕ → Option (List ℕ × List ℕ)
read_var_string max s = elim (read_var_int max s) [
  | none ↦ none
  | some (size, rest) ↦
      if length (take size rest) == size then some (take size rest, drop size rest) else none
]

-- ReadString, with a length of one byte.
unfoldable pub read_string : List ℕ → Option (List ℕ × List ℕ)
read_string s = elim (unpack_uint 1 s) [
  | none ↦ none
  | some (size, rest) ↦
      if length (take size rest) == size then some (take size rest, drop size rest) else none
]

-- `rstrip(b'\x00')`
abbrev pub strip_before : ℕ → List ℕ → List ℕ
strip_before b [] = if b == 0 then [] else b ∷ []
strip_before b (c ∷ cs) = b ∷ c ∷ cs

abbrev pub strip_zeros : List ℕ → List ℕ
strip_zeros [] = []
strip_zeros (b ∷ bs) = strip_before b (strip_zeros bs)

-- ReadFixedString
abbrev pub read_fixed_string : ℕ → List ℕ → List ℕ × List ℕ
read_fixed_string size s = (strip_zeros (take size s), drop size s)

-- ReadUInt256 and ReadUInt160, with the number of bytes: the constructor raises for less.
unfoldable pub read_uint_base : ℕ → List ℕ → Option (List ℕ × List ℕ)
read_uint_base size s =
    if length (take size s) == size then some (take size s, drop size s) else none

-- ReadFixed8
abbrev pub read_fixed8 : List ℕ → Option (ℤ × List ℕ)
read_fixed8 s = unpack_int 8 s
