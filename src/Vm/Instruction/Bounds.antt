-- ===== src/Vm/Instruction/Bounds.antt =====
-- neo/VM/Instruction.py: a decoded instruction lies inside the script.
use neo_python.Vm.OpCode
use neo_python.Prelude.{
  List, Option, Option-cases, ap, arith, drop, get_elem?, get_elem?_lt, if◌then◌else◌, inl, inr,
  leb, length, length-drop, length-take, ltb, none, refl, some, subst, suc, take, true, zero, ℕ,
  ◌&&◌, ◌+◌, ◌-◌, ◌==◌, ◌∙◌, ◌≡◌, ◌≤◌,
}
use neo_python.Prelude.Int.{negsuc, pos, pos_part, ℤ}
use neo_python.Vm.Instruction.{
  Instruction, Script, from_script_and_ip, instruction_size, operand_size_prefix_table,
  operand_size_table, read_exact_bytes, read_int32, read_operand, read_operand_size, read_uint,
  script_length,
}
use neo_python.Vm.Ops.Splice.{slice}

read_exact_bytes-length :
    (script : Script) (ip count : ℕ) (bs : List ℕ)
    → read_exact_bytes script ip count ≡ some bs
    → (ip + count ≤ script_length script)
      × (length bs ≡ count)
      × (bs ≡ take count (drop ip script.value))
unfolding read_exact_bytes
read_exact_bytes-length script ip count bs h =
    ground (arith, h, length-take count (drop ip script.value), length-drop ip script.value)

read_uint-start :
    (width : ℕ) (script : Script) (ip q : ℕ) (size : ℤ)
    → read_uint width script ip ≡ some (q, size)
    → (q ≡ ip + width) × (q ≤ script_length script)
unfolding read_uint
read_uint-start width script ip q size h = elim (Option-cases (read_exact_bytes script ip width)) [
  | inl e ↦ absurd (ground (arith, h, e))
  | inr (bs, e) ↦ ground (arith, h, e, read_exact_bytes-length script ip width bs e)
]

read_int32-start :
    (script : Script) (ip q : ℕ) (size : ℤ)
    → read_int32 script ip ≡ some (q, size)
    → (q ≡ ip + 4) × (q ≤ script_length script)
unfolding read_int32
read_int32-start script ip q size h = elim (Option-cases (read_exact_bytes script ip 4)) [
  | inl e ↦ absurd (ground (arith, h, e))
  | inr (bs, e) ↦ ground (arith, h, e, read_exact_bytes-length script ip 4 bs e)
]

-- Where the operand begins, behind the opcode and the prefix of `n` bytes.
operand_start :
    (n t : ℕ) (script : Script) (ip q : ℕ) (size : ℤ)
    → ip ≤ script_length script
    → (if n == 0
        then some (ip, pos t)
        else if n == 4
        then read_int32 script ip
        else read_uint n script ip)
      ≡ some (q, size)
    → (q ≡ ip + n) × (q ≤ script_length script) × (n ≡ 0 → size ≡ pos t)
operand_start n t script ip q size le h =
    let small = read_uint-start n script ip q size in
    let long = read_int32-start script ip q size in
    (
      ground (arith, le, h, small, long),
      ground (arith, le, h, small, long),
      λ z. ground (arith, le, h, z),
    )

read_operand_size-start :
    (op : ℕ) (script : Script) (ip q : ℕ) (size : ℤ)
    → ip ≤ script_length script
    → read_operand_size op script ip ≡ some (q, size)
    → (q ≡ ip + operand_size_prefix_table op)
      × (q ≤ script_length script)
      × (operand_size_prefix_table op ≡ 0 → size ≡ pos (operand_size_table op))
unfolding read_operand_size
read_operand_size-start op script ip q size le h =
    operand_start (operand_size_prefix_table op) (operand_size_table op) script ip q size le h

read_operand-slice :
    (script : Script) (q : ℕ) (size : ℤ) (bs : List ℕ)
    → q ≤ script_length script
    → read_operand script (some (q, size)) ≡ some bs
    → (q + length bs ≤ script_length script)
      × (length bs ≡ pos_part size)
      × (bs ≡ take (length bs) (drop q script.value))
unfolding read_operand
read_operand-slice script q (pos zero) bs le h = ground (arith, le, h)
read_operand-slice script q (pos (suc n)) bs le h =
    ground (arith, le, h, read_exact_bytes-length script q (suc n) bs h)
read_operand-slice script q (negsuc n) bs le h = ground (arith, le, h)

-- The size of an instruction by its operand.
instruction_size-operand :
    (ins : Instruction)
    → (operand_size_prefix_table ins.op_code ≡ 0
        → length ins.operand ≡ operand_size_table ins.op_code)
    → instruction_size ins ≡ 1 + operand_size_prefix_table ins.op_code + length ins.operand
unfolding instruction_size
instruction_size-operand ins h =
    go (operand_size_prefix_table ins.op_code) (operand_size_table ins.op_code) h
  where
    go :
        (n t : ℕ)
        → (n ≡ 0 → length ins.operand ≡ t)
        → (if ltb 0 n then 1 + n + length ins.operand else 1 + t) ≡ 1 + n + length ins.operand
    go zero t h = omega (arith, h refl)
    go (suc n) t h = ground arith

-- A decoded instruction: its opcode stands at the pointer, and its operand ends where it ends.
unfoldable pub IsAt : Script → ℕ → Instruction → Type 0
IsAt script ip ins =
    (get_elem? script.value ip ≡ some ins.op_code)
    × (ip + instruction_size ins ≤ script_length script)
    × (ins.operand
        ≡ take (length ins.operand)
            (drop (ip + instruction_size ins - length ins.operand) script.value))

decoded :
    (script : Script) (ip op : ℕ) (bs : List ℕ) (o : Option (ℕ × ℤ))
    → get_elem? script.value ip ≡ some op
    → read_operand_size op script (ip + 1) ≡ o
    → read_operand script o ≡ some bs
    → IsAt script ip (record { op_code = op; operand = bs })
unfolding IsAt
decoded script ip op bs none e h r = absurd (unfold read_operand in ground (arith, r))
decoded script ip op bs (some (q, size)) e h r =
    let (start, le, table) =
      read_operand_size-start op script (ip + 1) q size
        (omega (arith, get_elem?_lt script.value ip op e)) h in
    let (inside, count, slice) = read_operand-slice script q size bs le r in
    let total =
      instruction_size-operand (record { op_code = op; operand = bs })
        (λ z. count ∙ ap pos_part (table z)) in
    let place : ip + instruction_size (record { op_code = op; operand = bs }) - length bs ≡ q =
      omega (arith, start, total) in
    (e, omega (arith, start, total, inside), rw place slice)

-- Decoding an instruction at a pointer gives the opcode that stands there, the bytes of the
-- script up to the end of the instruction as its operand, and an end that lies inside the script,
-- whatever the prefix of the operand says.
pub from_script_and_ip-IsAt :
    (script : Script) (ip : ℕ) (ins : Instruction)
    → from_script_and_ip script ip ≡ some ins
    → IsAt script ip ins
unfolding from_script_and_ip
from_script_and_ip-IsAt script ip ins h = elim (Option-cases (get_elem? script.value ip)) [
  | inl e ↦ absurd (ground (arith, h, e))
  | inr (op, e) ↦ elim (Option-cases (read_operand script (read_operand_size op script (ip + 1)))) [
    | inl f ↦ absurd (ground (arith, h, e, f))
    | inr (bs, f) ↦
        let made : record { op_code = op; operand = bs } ≡ ins = ground (arith, h, e, f) in
        subst (λ i. IsAt script ip i) made (decoded script ip op bs _ e refl f)
  ]
]

-- The jumps take three bytes.
pub instruction_size-jump :
    (ins : Instruction)
    → leb OpCode.jmp ins.op_code && leb ins.op_code OpCode.jmpifnot ≡ true
    → instruction_size ins ≡ 3
unfolding instruction_size operand_size_table operand_size_prefix_table
instruction_size-jump ins t = ground (arith, t)

pub from_script_and_ip-inside :
    (script : Script) (ip : ℕ) (ins : Instruction)
    → from_script_and_ip script ip ≡ some ins
    → ip + instruction_size ins ≤ script_length script
unfolding IsAt
from_script_and_ip-inside script ip ins h = (from_script_and_ip-IsAt script ip ins h).1
