-- ===== src/Vm/Instruction/Decoding.antt =====
-- neo/VM/ScriptBuilder.py and neo/VM/Instruction.py: what is pushed is what is decoded.
use neo_python.Core.BigInteger.{from_bytes}
use neo_python.Prelude.{
  List, [], ap, arith, drop, false, get_elem?, inl, inr, length, length-append, ltb, refl, some,
  subst, suc, sym, take, true, zero, ℕ, ◌++◌, ◌+◌, ◌∙◌, ◌∷◌, ◌≡◌, ◌≤◌, ◌⊎◌,
}
use neo_python.Prelude.Int.{pos}
use neo_python.Vm.Instruction.{
  Script, from_script_and_ip, operand_size_prefix_table, operand_size_table, read_exact_bytes,
  read_int32, read_operand, read_operand_size, read_uint,
}
use neo_python.Vm.OpCode

module _ {A : Type 0} where
  get_elem?-append_right :
      (xs ys : List A) (n i : ℕ) → n ≡ length xs + i → get_elem? (xs ++ ys) n ≡ get_elem? ys i
  get_elem?-append_right [] ys n i h = let p : n ≡ i = omega (arith, h) in rw p refl
  get_elem?-append_right (x ∷ xs) ys zero i h = absurd (ground (arith, h))
  get_elem?-append_right (x ∷ xs) ys (suc n) i h =
      get_elem?-append_right xs ys n i (omega (arith, h))

  drop-append_right : (xs ys : List A) (n i : ℕ) → n ≡ length xs + i → drop n (xs ++ ys) ≡ drop i ys
  drop-append_right [] ys n i h = let p : n ≡ i = omega (arith, h) in rw p refl
  drop-append_right (x ∷ xs) ys zero i h = absurd (ground (arith, h))
  drop-append_right (x ∷ xs) ys (suc n) i h = drop-append_right xs ys n i (omega (arith, h))

  take-append : (xs ys : List A) → take (length xs) (xs ++ ys) ≡ xs
  take-append [] ys = refl
  take-append (x ∷ xs) ys = ap (λ t. x ∷ t) (take-append xs ys)

-- A read of the part of a script that stands between two others.
read_exact_bytes-part :
    (before part after h160 : List ℕ) (ip n : ℕ)
    → ip ≡ length before
    → n ≡ length part
    → read_exact_bytes (record { value = before ++ (part ++ after); script_hash = h160 }) ip n
      ≡ some part
unfolding read_exact_bytes
read_exact_bytes-part before part after h160 ip n p q =
    let inside : ltb (length (before ++ (part ++ after))) (ip + n) ≡ false =
      ground (arith, p, q, length-append before (part ++ after), length-append part after) in
    rw (inside, drop-append_right before (part ++ after) ip 0 (omega (arith, p)), q)
      (ap (λ (t : List ℕ). some t) (take-append part after))

-- The operand behind an opcode and its prefix.
read_operand-part :
    (before operand after h160 : List ℕ) (q : ℕ)
    → q ≡ length before
    → read_operand
        (record { value = before ++ (operand ++ after); script_hash = h160 })
        (some (q, pos (length operand)))
      ≡ some operand
unfolding read_operand
read_operand-part before [] after h160 q h = refl
read_operand-part before (b ∷ operand) after h160 q h =
    read_exact_bytes-part before (b ∷ operand) after h160 q _ h refl

append_assoc₃ : (a b d : List ℕ) → (a ++ b) ++ d ≡ a ++ (b ++ d)
append_assoc₃ [] b d = refl
append_assoc₃ (x ∷ a) b d = ap (λ t. x ∷ t) (append_assoc₃ a b d)

from_script_and_ip-of :
    (script : Script) (ip op : ℕ) (bs : List ℕ)
    → get_elem? script.value ip ≡ some op
    → read_operand script (read_operand_size op script (ip + 1)) ≡ some bs
    → from_script_and_ip script ip ≡ some (record { op_code = op; operand = bs })
unfolding from_script_and_ip
from_script_and_ip-of script ip op bs e r = ground (arith, e, r)

-- A script with an instruction of an opcode, a prefix and an operand in it.
abbrev pub script_around : List ℕ → List ℕ → List ℕ → List ℕ → Script
script_around before head operand after = record {
  value = before ++ (head ++ (operand ++ after));
  script_hash = [];
}

-- An instruction whose prefix says the length of its operand.
decode :
    (before pre operand after : List ℕ) (op : ℕ)
    → read_operand_size op (script_around before (op ∷ pre) operand after) (length before + 1)
      ≡ some (length before + 1 + length pre, pos (length operand))
    → from_script_and_ip (script_around before (op ∷ pre) operand after) (length before)
      ≡ some (record { op_code = op; operand = operand })
decode before pre operand after op h =
    from_script_and_ip-of (script_around before (op ∷ pre) operand after) (length before) op operand
      (get_elem?-append_right before ((op ∷ pre) ++ (operand ++ after)) (length before) 0
        (omega arith))
      (ap (read_operand (script_around before (op ∷ pre) operand after)) h
        ∙ subst
            (λ v.
              read_operand (record { value = v; script_hash = [] })
                (some (length before + 1 + length pre, pos (length operand)))
              ≡ some operand)
            (append_assoc₃ before (op ∷ pre) (operand ++ after))
            (read_operand-part (before ++ (op ∷ pre)) operand after [] _
              (omega (arith, length-append before (op ∷ pre)))))

-- The prefix that is read.
read_exact_bytes-prefix :
    (before pre operand after : List ℕ) (op : ℕ)
    → read_exact_bytes
        (script_around before (op ∷ pre) operand after)
        (length before + 1)
        (length pre)
      ≡ some pre
read_exact_bytes-prefix before pre operand after op =
    subst
      (λ v.
        read_exact_bytes (record { value = v; script_hash = [] }) (length before + 1) (length pre)
        ≡ some pre)
      (append_assoc₃ before (op ∷ []) (pre ++ (operand ++ after)))
      (read_exact_bytes-part (before ++ (op ∷ [])) pre (operand ++ after) [] (length before + 1)
        (length pre) (omega (arith, length-append before (op ∷ []))) refl)

-- The opcodes up to PUSHBYTES75 say the length themselves.
size_direct :
    (n : ℕ) (script : Script) (ip : ℕ) → n ≤ 75 → read_operand_size n script ip ≡ some (ip, pos n)
unfolding read_operand_size operand_size_prefix_table operand_size_table
size_direct n script ip le = ground (arith, le)

size_prefixed :
    (op w : ℕ) (script : Script) (ip : ℕ)
    → ((op ≡ OpCode.pushdata1) × (w ≡ 1)) ⊎ ((op ≡ OpCode.pushdata2) × (w ≡ 2))
    → read_operand_size op script ip ≡ read_uint w script ip
unfolding read_operand_size operand_size_prefix_table
size_prefixed op w script ip (inl (p, q)) = rw (p, q) refl
size_prefixed op w script ip (inr (p, q)) = rw (p, q) refl

size_long :
    (script : Script) (ip : ℕ) → read_operand_size OpCode.pushdata4 script ip ≡ read_int32 script ip
unfolding read_operand_size operand_size_prefix_table
size_long script ip = refl

read_uint-of :
    (w : ℕ) (script : Script) (ip : ℕ) (bs : List ℕ)
    → read_exact_bytes script ip w ≡ some bs
    → read_uint w script ip ≡ some (ip + w, from_bytes bs false)
unfolding read_uint
read_uint-of w script ip bs h = ground (arith, h)

read_int32-of :
    (script : Script) (ip : ℕ) (bs : List ℕ)
    → read_exact_bytes script ip 4 ≡ some bs
    → read_int32 script ip ≡ some (ip + 4, from_bytes bs true)
unfolding read_int32
read_int32-of script ip bs h = ground (arith, h)

module _ (before operand after : List ℕ) where
  pub decode_direct :
      length operand ≤ 75
      → from_script_and_ip
          (script_around before (length operand ∷ []) operand after)
          (length before)
        ≡ some (record { op_code = length operand; operand = operand })
  decode_direct le = decode before [] operand after (length operand) (
      size_direct (length operand) (script_around before (length operand ∷ []) operand after)
        (length before + 1) le
      ∙ ap (λ q. some (q, pos (length operand))) (omega arith))

  -- PUSHDATA1 and PUSHDATA2.
  pub decode_prefixed :
      (op : ℕ) (pre : List ℕ)
      → ((op ≡ OpCode.pushdata1) × (length pre ≡ 1)) ⊎ ((op ≡ OpCode.pushdata2) × (length pre ≡ 2))
      → from_bytes pre false ≡ pos (length operand)
      → from_script_and_ip (script_around before (op ∷ pre) operand after) (length before)
        ≡ some (record { op_code = op; operand = operand })
  decode_prefixed op pre which value = decode before pre operand after op (
      size_prefixed op (length pre) (script_around before (op ∷ pre) operand after)
        (length before + 1) which
      ∙ read_uint-of (length pre) _ _ pre (read_exact_bytes-prefix before pre operand after op)
      ∙ ap (λ z. some (length before + 1 + length pre, z)) value)

  pub decode_long :
      (pre : List ℕ)
      → length pre ≡ 4
      → from_bytes pre true ≡ pos (length operand)
      → from_script_and_ip
          (script_around before (OpCode.pushdata4 ∷ pre) operand after)
          (length before)
        ≡ some (record { op_code = OpCode.pushdata4; operand = operand })
  decode_long pre four value = decode before pre operand after OpCode.pushdata4 (
      size_long (script_around before (OpCode.pushdata4 ∷ pre) operand after) (length before + 1)
      ∙ read_int32-of _ _ pre (
          subst
            (λ n.
              read_exact_bytes (script_around before (OpCode.pushdata4 ∷ pre) operand after)
                (length before + 1) n
              ≡ some pre)
            four (read_exact_bytes-prefix before pre operand after OpCode.pushdata4))
      ∙ ap (λ z. some (length before + 1 + 4, z)) value
      ∙ ap (λ n. some (length before + 1 + n, pos (length operand))) (sym four))
