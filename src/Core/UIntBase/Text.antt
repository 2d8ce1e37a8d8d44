-- ===== src/Core/UIntBase/Text.antt =====
-- neo/Core/UIntBase.py, UInt160.py and UInt256.py: printing and parsing.
use mathlib.Core.List.{reverse, reverse-reverse, reverse_aux}
use neo_python.Core.Io.Hex.{AllBytes, hex_digit, hexlify, unhexlify-hexlify}
use neo_python.Core.UIntBase.{new_uint, parse_string, strip_0x, to_0x_string, to_string}
use neo_python.Prelude.{
  List, [], ap, arith, false, length, refl, some, true, ℕ, ◌%◌, ◌*◌, ◌+◌, ◌/◌, ◌<◌, ◌==◌, ◌∙◌, ◌∷◌,
  ◌≡◌,
}

length-reverse_aux : (xs ys : List ℕ) → length (reverse_aux xs ys) ≡ length xs + length ys
length-reverse_aux [] ys = omega arith
length-reverse_aux (x ∷ xs) ys = omega (arith, length-reverse_aux xs (x ∷ ys))

reverse_aux-AllBytes : (xs ys : List ℕ) → AllBytes xs → AllBytes ys → AllBytes (reverse_aux xs ys)
reverse_aux-AllBytes [] ys ax ay = ay
reverse_aux-AllBytes (x ∷ xs) ys (h, ax) ay = reverse_aux-AllBytes xs (x ∷ ys) ax (h, ay)

length-hexlify : (bs : List ℕ) → length (hexlify bs) ≡ 2 * length bs
unfolding hexlify
length-hexlify [] = omega arith
length-hexlify (b ∷ bs) = omega (arith, length-hexlify bs)

-- No digit is the letter x.
hex_digit-other : (n : ℕ) → n < 16 → (hex_digit n == 120) ≡ false
hex_digit-other n h = ground (arith, h)

strip_0x-hexlify : (bs : List ℕ) → strip_0x (hexlify bs) ≡ hexlify bs
unfolding hexlify
strip_0x-hexlify [] = refl
strip_0x-hexlify (b ∷ bs) =
    let other = hex_digit-other (b % 16) (omega arith) in ground (arith, other)

-- Digits of as many bytes as are asked for are read as these bytes, from the last to the first.
parse_string-digits :
    (n : ℕ) (value bs : List ℕ)
    → AllBytes bs
    → length bs ≡ n
    → strip_0x value ≡ hexlify bs
    → parse_string (2 * n) value ≡ some (reverse bs)
unfolding parse_string new_uint
parse_string-digits n value bs a h digits =
    let whole : (length (hexlify bs) == 2 * n) ≡ true = ground (arith, length-hexlify bs, h) in
    let half : 2 * n / 2 ≡ n = omega arith in
    let same : (length (reverse_aux bs []) == n) ≡ true =
      ground (arith, length-reverse_aux bs [], h) in
    rw (digits, whole, unhexlify-hexlify bs a, half, same) refl

-- ParseString of what ToString prints of a value gives the value, and so does it of what
-- To0xString prints. Condition: the value has the right number of bytes, each below 256.
pub parse_string-to_string :
    (n : ℕ) (bytes : List ℕ)
    → AllBytes bytes
    → length bytes ≡ n
    → (parse_string (2 * n) (to_string bytes) ≡ some bytes)
      × (parse_string (2 * n) (to_0x_string bytes) ≡ some bytes)
unfolding to_string
parse_string-to_string n bytes a h =
    let a2 = reverse_aux-AllBytes bytes [] a tt in
    let h2 : length (reverse_aux bytes []) ≡ n = omega (arith, length-reverse_aux bytes [], h) in
    let back = ap (λ v. some v) (reverse-reverse bytes) in
    (
      parse_string-digits n (to_string bytes) (reverse bytes) a2 h2
            (strip_0x-hexlify (reverse bytes))
          ∙ back,
      parse_string-digits n (to_0x_string bytes) (reverse bytes) a2 h2 refl ∙ back,
    )
