-- ===== src/Vm/Instruction.antt =====
-- neo/VM/Instruction.py and neo/VM/Script.py: decoding of one instruction of a script. A read past
-- the end of the script raises, which is `none`.
pub mod Bounds
pub mod Decoding
use neo_python.Core.BigInteger.{from_bytes}
use neo_python.Prelude.{
  List, Option, [], drop, false, get_elem?, if◌then◌else◌, leb, length, ltb, none, some, suc, take,
  true, ℕ, ◌&&◌, ◌+◌, ◌==◌, ◌||◌,
}
use neo_python.Prelude.Int.{pos, ℤ}
use neo_python.Vm.OpCode

-- Script: its bytes, and the hash that ScriptHash returns.
pub record Script : Type 0 where
  pub value : List ℕ
  pub script_hash : List ℕ

-- Script.Length
abbrev pub script_length : Script → ℕ
script_length s = length s.value

pub record Instruction : Type 0 where
  pub op_code : ℕ
  pub operand : List ℕ

-- _OperandSizeTable
operand_size_table : ℕ → ℕ
operand_size_table op =
    if leb OpCode.pushbytes1 op && leb op OpCode.pushbytes75
    then op
    else if op == OpCode.jmp || op == OpCode.jmpif || op == OpCode.jmpifnot || op == OpCode.call
    then 2
    else if op == OpCode.appcall || op == OpCode.tailcall
    then 20
    else if op == OpCode.call_i
    then 4
    else if op == OpCode.call_e || op == OpCode.call_et
    then 22
    else if op == OpCode.call_ed || op == OpCode.call_edt
    then 2
    else 0

-- Instruction.OperandSizePrefixTable
operand_size_prefix_table : ℕ → ℕ
operand_size_prefix_table op =
    if op == OpCode.pushdata1
    then 1
    else if op == OpCode.pushdata2
    then 2
    else if op == OpCode.pushdata4
    then 4
    else if op == OpCode.syscall
    then 1
    else 0

-- Instruction.ReadExactBytes
read_exact_bytes : Script → ℕ → ℕ → Option (List ℕ)
read_exact_bytes script ip count =
    if ltb (script_length script) (ip + count)
    then none
    else some (take count (drop ip script.value))

-- Instruction.ReadByte, ReadUint16 and ReadInt32: the pointer behind what was read, and the value.
read_uint : ℕ → Script → ℕ → Option (ℕ × ℤ)
unfolding read_exact_bytes
read_uint width script ip = elim (read_exact_bytes script ip width) [
  | none ↦ none
  | some bs ↦ some (ip + width, from_bytes bs false)
]

read_int32 : Script → ℕ → Option (ℕ × ℤ)
unfolding read_exact_bytes
read_int32 script ip = elim (read_exact_bytes script ip 4) [
  | none ↦ none
  | some bs ↦ some (ip + 4, from_bytes bs true)
]

-- The size of the operand by the prefix that the opcode calls for, and where the operand begins.
read_operand_size : ℕ → Script → ℕ → Option (ℕ × ℤ)
unfolding operand_size_table operand_size_prefix_table read_uint read_int32
read_operand_size op script ip =
    let prefix = operand_size_prefix_table op in
    if prefix == 0
    then some (ip, pos (operand_size_table op))
    else if prefix == 4
    then read_int32 script ip
    else read_uint prefix script ip

read_operand : Script → Option (ℕ × ℤ) → Option (List ℕ)
unfolding read_exact_bytes
read_operand script none = none
read_operand script (some (ip, pos (suc size))) = read_exact_bytes script ip (suc size)
read_operand script (some (ip, _)) = some []

-- Instruction.FromScriptAndIP
unfoldable pub from_script_and_ip : Script → ℕ → Option Instruction
unfolding read_operand read_operand_size
from_script_and_ip script ip = elim (get_elem? script.value ip) [
  | none ↦ none
  | some op ↦ elim (read_operand script (read_operand_size op script (ip + 1))) [
    | none ↦ none
    | some operand ↦ some (record { op_code = op; operand = operand })
  ]
]

-- Instruction.RET
abbrev pub ret_instruction : Instruction
ret_instruction = record { op_code = 0x66; operand = [] }

-- Instruction.Size
unfoldable pub instruction_size : Instruction → ℕ
unfolding operand_size_table operand_size_prefix_table
instruction_size ins =
    let prefix = operand_size_prefix_table ins.op_code in
    if ltb 0 prefix then 1 + prefix + length ins.operand else 1 + operand_size_table ins.op_code

-- Instruction.TokenI16, TokenI16_1 and TokenU32
unfoldable pub token_i16 : Instruction → ℤ
token_i16 ins = from_bytes ins.operand true

unfoldable pub token_i16_1 : Instruction → ℤ
token_i16_1 ins = from_bytes (drop 2 ins.operand) true

unfoldable pub token_u32 : Instruction → ℤ
token_u32 ins = from_bytes ins.operand false

-- Instruction.ReadBytes
unfoldable pub read_bytes : Instruction → ℕ → ℕ → Option (List ℕ)
read_bytes ins offset count =
    if ltb (length ins.operand) (offset + count)
    then none
    else some (take count (drop offset ins.operand))
