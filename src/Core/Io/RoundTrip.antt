-- ===== src/Core/Io/RoundTrip.antt =====
-- neo/Core/IO: what a writer wrote, a reader reads.
use mathlib.Core.List.{append_assoc}
use neo_python.Core.BigInteger.{le_bytes}
use neo_python.Core.BigInteger.Bytes.{from_le-le_bytes, length-le_bytes}
use neo_python.Core.Io.BinaryReader.{
  at_most_max, read_var_bytes, read_var_int, read_var_string, read_var_value, safe_read_bytes,
  unpack_uint,
}
use neo_python.Core.Io.BinaryWriter.{
  followed, write_bytes, write_uint, write_var_bytes, write_var_int, write_var_string,
}
use neo_python.Core.Io.Hex.{AllBytes, hexlify, unhexlify-hexlify}
use neo_python.Prelude.{
  Bool-cases, List, [], ap, arith, drop, false, if◌then◌else◌, inl, inr, leb, length, ltb, none,
  refl, some, suc, take, true, zero, ℕ, ◌++◌, ◌<◌, ◌==◌, ◌^◌, ◌∙◌, ◌∷◌, ◌≡◌, ◌≤◌,
}
use neo_python.Prelude.Int.{pos}

pub take_exact :
    (n : ℕ) (xs ys : List ℕ) → length xs ≡ n → (take n (xs ++ ys) ≡ xs) × (drop n (xs ++ ys) ≡ ys)
take_exact zero [] ys h = (refl, refl)
take_exact zero (x ∷ xs) ys h = absurd (omega (arith, h))
take_exact (suc n) [] ys h = absurd (omega (arith, h))
take_exact (suc n) (x ∷ xs) ys h =
    let (p, q) = take_exact n xs ys (omega (arith, h)) in (ap (λ t. x ∷ t) p, q)

pub unpack_uint-le_bytes :
    (size n : ℕ) (rest : List ℕ)
    → n < 256 ^ size
    → unpack_uint size (le_bytes size n ++ rest) ≡ some (n, rest)
unfolding unpack_uint
unpack_uint-le_bytes size n rest h =
    let (p, q) = take_exact size (le_bytes size n) rest (length-le_bytes size n) in
    let whole : (length (le_bytes size n) == size) ≡ true =
      ground (arith, length-le_bytes size n) in
    rw (p, q, whole, from_le-le_bytes size n h) refl

-- What is read of a number that was written with a size.
written :
    (size n max : ℕ) (rest : List ℕ)
    → n < 256 ^ size
    → n ≤ max
    → at_most_max max (unpack_uint size (le_bytes size n ++ rest)) ≡ some (n, rest)
written size n max rest h le =
    let room : ltb max n ≡ false = ground (arith, le) in
    rw (unpack_uint-le_bytes size n rest h) (rw room refl)

-- A number that WriteVarInt wrote, ReadVarInt reads, and nothing more of the stream. Condition:
-- it is below 2^64, and no more than the maximum of the reader.
pub read_var_int-write_var_int :
    (n max : ℕ)
    → n < 256 ^ 8
    → n ≤ max
    → (bytes : List ℕ) × (write_var_int (pos n) ≡ some bytes)
      × ((rest : List ℕ) → read_var_int max (bytes ++ rest) ≡ some (n, rest))
unfolding write_var_int read_var_int read_var_value write_uint
read_var_int-write_var_int n max room le = elim (Bool-cases (ltb n 0xfd)) [
  | inl one ↦ (n ∷ [], ground (arith, one), λ rest. ground (arith, one, le))
  | inr more ↦ elim (Bool-cases (leb n 0xffff)) [
    | inl two ↦ (
      0xfd ∷ le_bytes 2 n,
      ground (arith, more, two),
      λ rest. written 2 n max rest (ground (arith, two)) le,
    )
    | inr more2 ↦ elim (Bool-cases (leb n 0xffffffff)) [
      | inl four ↦ (
        0xfe ∷ le_bytes 4 n,
        ground (arith, more, more2, four),
        λ rest. written 4 n max rest (ground (arith, four)) le,
      )
      | inr more4 ↦ (
        0xff ∷ le_bytes 8 n,
        ground (arith, more, more2, more4, room),
        λ rest. written 8 n max rest room le,
      )
    ]
  ]
]

-- Bytes that WriteVarBytes wrote, ReadVarBytes reads, and nothing more of the stream. Condition:
-- there are fewer than 2^64 of them, and no more than the maximum of the reader.
pub read_var_bytes-write_var_bytes :
    (value : List ℕ) (max : ℕ) (rest : List ℕ)
    → length value < 256 ^ 8
    → length value ≤ max
    → (bytes : List ℕ) × (write_var_bytes value ≡ some bytes)
      × (read_var_bytes max (bytes ++ rest) ≡ some (value, rest))
unfolding write_var_bytes read_var_bytes write_bytes safe_read_bytes
read_var_bytes-write_var_bytes value max rest room le =
    let (bytes, p, q) = read_var_int-write_var_int (length value) max room le in
    let (r, s) = take_exact (length value) value rest refl in
    let enough : ltb (length value) (length value) ≡ false = ground arith in
    (
      bytes ++ value,
      ap (λ o. followed o value) p,
      ap (λ t. read_var_bytes max t) (append_assoc bytes value rest)
          ∙ (ap (λ o. elim o [ none ↦ none | some (size, t) ↦ safe_read_bytes size t ])
                (q (value ++ rest))
              ∙ rw (r, s, enough) refl),
    )

-- WriteVarString writes the bytes of the string as WriteVarBytes does.
pub write_var_string_lem :
    (value : List ℕ) → AllBytes value → write_var_string value ≡ write_var_bytes value
unfolding write_var_string write_var_bytes write_bytes
write_var_string_lem value a =
    ap
      (λ o.
        followed (write_var_int (pos (length value)))
          (elim o [ none ↦ hexlify value | some bytes ↦ bytes ]))
      (unhexlify-hexlify value a)

-- A string that WriteVarString wrote, ReadVarString reads, and nothing more of the stream.
-- Condition: its bytes are below 256, there are fewer than 2^64 of them, and no more than the
-- maximum of the reader.
pub read_var_string-write_var_string :
    (value : List ℕ) (max : ℕ) (rest : List ℕ)
    → AllBytes value
    → length value < 256 ^ 8
    → length value ≤ max
    → (bytes : List ℕ) × (write_var_string value ≡ some bytes)
      × (read_var_string max (bytes ++ rest) ≡ some (value, rest))
unfolding write_var_bytes read_var_string write_bytes
read_var_string-write_var_string value max rest a room le =
    let (bytes, p, q) = read_var_int-write_var_int (length value) max room le in
    let (r, s) = take_exact (length value) value rest refl in
    let enough : (length value == length value) ≡ true = ground arith in
    (
      bytes ++ value,
      write_var_string_lem value a ∙ ap (λ o. followed o value) p,
      ap (λ t. read_var_string max t) (append_assoc bytes value rest)
          ∙ (ap
                (λ o. elim o [
                  | none ↦ none
                  | some (size, t) ↦
                      if length (take size t) == size then some (take size t, drop size t) else none
                ])
                (q (value ++ rest))
              ∙ rw (r, s, enough) refl),
    )
