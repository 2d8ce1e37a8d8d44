-- ===== src/Vm/ScriptBuilder/RoundTrip.antt =====
-- What ScriptBuilder pushes is what FromScriptAndIP decodes.
use neo_python.Core.BigInteger.{from_bytes, from_le}
use neo_python.Core.BigInteger.Bytes.{from_bytes_unsigned}
use neo_python.Prelude.{
  Bool-cases, List, [], ap, arith, false, if◌then◌else◌, inl, inr, leb, length, ltb, refl, some,
  true, ℕ, ◌%◌, ◌++◌, ◌/◌, ◌<◌, ◌∙◌, ◌∷◌, ◌≡◌,
}
use neo_python.Prelude.Int.{pos}
use neo_python.Vm.Instruction.{from_script_and_ip}
use neo_python.Vm.Instruction.Decoding.{decode_direct, decode_long, decode_prefixed}
use neo_python.Vm.ScriptBuilder.{push_buffer}
use neo_python.Vm.OpCode

-- The opcode under which a buffer is pushed.
abbrev pub push_code : ℕ → ℕ
push_code n =
    if leb n 75
    then n
    else if ltb n 0x100
    then OpCode.pushdata1
    else if ltb n 0x10000
    then OpCode.pushdata2
    else OpCode.pushdata4

from_bytes-one : (n : ℕ) → from_bytes (n ∷ []) false ≡ pos n
unfolding from_bytes from_le
from_bytes-one n = ap pos (omega arith)

from_bytes-two : (n : ℕ) → from_bytes ((n % 256) ∷ (n / 256) ∷ []) false ≡ pos n
unfolding from_bytes from_le
from_bytes-two n = ap pos (omega arith)

from_bytes-four :
    (n : ℕ)
    → n < 2147483648
    → from_bytes ((n % 256) ∷ (n / 256 % 256) ∷ (n / 65536 % 256) ∷ (n / 16777216) ∷ []) true
      ≡ pos n
unfolding from_le
from_bytes-four n h =
    from_bytes_unsigned ((n % 256) ∷ (n / 256 % 256) ∷ (n / 65536 % 256) ∷ (n / 16777216) ∷ [])
      (omega (arith, h))
    ∙ ap pos (omega arith)

-- What ScriptBuilder writes to push a buffer of less than 2^31 bytes, anywhere in a script,
-- FromScriptAndIP decodes to the opcode that pushes it (the length up to 75, then PUSHDATA1,
-- PUSHDATA2 or PUSHDATA4) with the buffer as its operand.
pub from_script_and_ip-push_buffer :
    (before buf after : List ℕ)
    → length buf < 2147483648
    → from_script_and_ip
        (record { value = before ++ (push_buffer buf ++ after); script_hash = [] })
        (length before)
      ≡ some (record { op_code = push_code (length buf); operand = buf })
unfolding push_buffer
from_script_and_ip-push_buffer before buf after h =
    let n = length buf in
    elim (Bool-cases (leb n 75)) [
      | inl direct ↦ rw direct (decode_direct before buf after (ground (arith, direct)))
      | inr indirect ↦ elim (Bool-cases (ltb n 0x100)) [
        | inl one ↦
            rw (indirect, one)
              (decode_prefixed before buf after OpCode.pushdata1 (n ∷ []) (inl (refl, refl))
                (from_bytes-one n))
        | inr more ↦ elim (Bool-cases (ltb n 0x10000)) [
          | inl two ↦
              rw (indirect, more, two)
                (decode_prefixed before buf after OpCode.pushdata2 ((n % 256) ∷ (n / 256) ∷ [])
                  (inr (refl, refl)) (from_bytes-two n))
          | inr long ↦
              let below : ltb n 0x100000000 ≡ true = ground (arith, h) in
              rw (indirect, more, long, below)
                (decode_long before buf after
                  ((n % 256) ∷ (n / 256 % 256) ∷ (n / 65536 % 256) ∷ (n / 16777216) ∷ []) refl
                  (from_bytes-four n h))
        ]
      ]
    ]
