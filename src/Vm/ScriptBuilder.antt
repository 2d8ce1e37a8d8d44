-- ===== src/Vm/ScriptBuilder.antt =====
-- neo/VM/ScriptBuilder.py: the instructions that push data. What is written stands for the bytes
-- that are added to the stream; `x & 0xff` and `x >> 8` of a length are written `x % 256` and `x / 256`.
pub mod RoundTrip
use neo_python.Core.BigInteger.{to_byte_array}
use neo_python.Prelude.{List, [], if◌then◌else◌, leb, length, ltb, ℕ, ◌%◌, ◌&&◌, ◌+◌, ◌-◌, ◌/◌, ◌∷◌}
use neo_python.Prelude.Int.{eqb_ℤ, leb_ℤ, ltb_ℤ, negsuc, pos, pos_part, ℤ}
use neo_python.Vm.OpCode

-- ScriptBuilder.push of a buffer. Nothing is written for 2^32 bytes and more.
unfoldable pub push_buffer : List ℕ → List ℕ
push_buffer buf =
    let n = length buf in
    if leb n OpCode.pushbytes75
    then n ∷ buf
    else if ltb n 0x100
    then OpCode.pushdata1 ∷ n ∷ buf
    else if ltb n 0x10000
    then OpCode.pushdata2 ∷ (n % 256) ∷ (n / 256) ∷ buf
    else if ltb n 0x100000000
    then OpCode.pushdata4 ∷ n % 256 ∷ n / 256 % 256 ∷ n / 65536 % 256 ∷ n / 16777216 ∷ buf
    else []

-- ScriptBuilder.push of an integer.
unfoldable pub push_integer : ℤ → List ℕ
push_integer value =
    if eqb_ℤ value (negsuc 0)
    then OpCode.pushm1 ∷ []
    else if eqb_ℤ value (pos 0)
    then OpCode.push0 ∷ []
    else if ltb_ℤ (pos 0) value && leb_ℤ value (pos 16)
    then (OpCode.push1 - 1 + pos_part value) ∷ []
    else push_buffer (to_byte_array value)
