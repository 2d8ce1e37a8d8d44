-- ===== src/Core/Io/BinaryWriter.antt =====
-- neo/Core/IO/BinaryWriter.py: what each method appends to the stream. `none` is an exception.
use neo_python.Core.BigInteger.{le_bytes}
use neo_python.Core.Io.Hex.{hexlify, unhexlify}
use neo_python.Prelude.{
  Bool, List, Option, [], false, if◌then◌else◌, leb, length, ltb, none, replicate, some, suc, true,
  ℕ, ◌*◌, ◌++◌, ◌-◌, ◌^◌, ◌∷◌,
}
use neo_python.Prelude.Int.{negsuc, pos, ℤ}

-- WriteByte of an int: bytes([value])
abbrev pub write_byte : ℕ → Option (List ℕ)
write_byte value = if ltb value 256 then some (value ∷ []) else none

-- WriteBytes: text that is no hexadecimal is written as it is.
unfoldable pub write_bytes : List ℕ → Bool → List ℕ
write_bytes value unhex =
    if unhex then elim (unhexlify value) [ none ↦ value | some bytes ↦ bytes ] else value

-- WriteUInt8, WriteUInt16, WriteUInt32, WriteUInt64, with the number of bytes: struct.pack raises for a
-- number that does not fit.
unfoldable pub write_uint : ℕ → ℕ → Option (List ℕ)
write_uint size value = if ltb value (256 ^ size) then some (le_bytes size value) else none

-- WriteInt8, WriteInt16, WriteInt32, WriteInt64, with the number of bytes: two's complement.
unfoldable pub write_int : ℕ → ℤ → Option (List ℕ)
write_int size (pos n) = if ltb (2 * n) (256 ^ size) then some (le_bytes size n) else none
write_int size (negsuc n) =
    if leb (2 * suc n) (256 ^ size) then some (le_bytes size (256 ^ size - suc n)) else none

-- WriteBool
abbrev pub write_bool : Bool → List ℕ
write_bool true = 1 ∷ []
write_bool false = 0 ∷ []

-- A prefix byte before what a method writes.
abbrev pub prefixed : ℕ → Option (List ℕ) → Option (List ℕ)
prefixed b none = none
prefixed b (some bytes) = some (b ∷ bytes)

-- WriteVarInt: a negative number raises, and so does one of more than 8 bytes.
unfoldable pub write_var_int : ℤ → Option (List ℕ)
write_var_int (negsuc _) = none
write_var_int (pos value) =
    if ltb value 0xfd
    then write_byte value
    else if leb value 0xffff
    then prefixed 0xfd (write_uint 2 value)
    else if leb value 0xffffffff
    then prefixed 0xfe (write_uint 4 value)
    else prefixed 0xff (write_uint 8 value)

abbrev pub followed : Option (List ℕ) → List ℕ → Option (List ℕ)
followed none bytes = none
followed (some length_bytes) bytes = some (length_bytes ++ bytes)

-- WriteVarBytes
unfoldable pub write_var_bytes : List ℕ → Option (List ℕ)
write_var_bytes value = followed (write_var_int (pos (length value))) (write_bytes value false)

-- WriteVarString, of the encoded string: it is written as hexadecimal, and read back from it.
unfoldable pub write_var_string : List ℕ → Option (List ℕ)
write_var_string value =
    followed (write_var_int (pos (length value))) (write_bytes (hexlify value) true)

-- WriteFixedString, of the encoded string, padded with zeros. Text that is hexadecimal is not written as
-- it is.
unfoldable pub write_fixed_string : List ℕ → ℕ → Option (List ℕ)
write_fixed_string value size =
    if ltb size (length value)
    then none
    else some (write_bytes value true ++ replicate (size - length value) 0)
