-- ===== src/Core/Io/Hex.antt =====
-- Python's binascii: hexlify and unhexlify, over bytes.
use neo_python.Prelude.{
  List, Option, [], ap, arith, if◌then◌else◌, leb, ltb, none, refl, some, ℕ, ◌%◌, ◌&&◌, ◌*◌, ◌+◌,
  ◌-◌, ◌/◌, ◌<◌, ◌∷◌, ◌≡◌,
}

-- The digit of a number below 16, in lower case.
abbrev pub hex_digit : ℕ → ℕ
hex_digit n = if ltb n 10 then 48 + n else 87 + n

-- The number of a digit, of either case.
abbrev pub digit_value : ℕ → Option ℕ
digit_value c =
    if leb 48 c && leb c 57
    then some (c - 48)
    else if leb 97 c && leb c 102
    then some (c - 87)
    else if leb 65 c && leb c 70
    then some (c - 55)
    else none

unfoldable pub hexlify : List ℕ → List ℕ
hexlify [] = []
hexlify (b ∷ bs) = hex_digit (b / 16) ∷ hex_digit (b % 16) ∷ hexlify bs

-- The byte of two digits before the bytes of the rest.
abbrev pub join_digits : Option ℕ → Option ℕ → Option (List ℕ) → Option (List ℕ)
join_digits (some a) (some b) (some bs) = some ((16 * a + b) ∷ bs)
join_digits _ _ _ = none

-- `none` is binascii.Error: an odd length, or a character that is no digit.
unfoldable pub unhexlify : List ℕ → Option (List ℕ)
unhexlify [] = some []
unhexlify (a ∷ []) = none
unhexlify (a ∷ b ∷ s) = join_digits (digit_value a) (digit_value b) (unhexlify s)

abbrev pub AllBytes : List ℕ → Type 0
AllBytes [] = Unit
AllBytes (b ∷ bs) = (b < 256) × AllBytes bs

digit_value-hex_digit : (n : ℕ) → n < 16 → digit_value (hex_digit n) ≡ some n
digit_value-hex_digit n h = ground (arith, h)

pub unhexlify-hexlify : (bs : List ℕ) → AllBytes bs → unhexlify (hexlify bs) ≡ some bs
unfolding unhexlify hexlify
unhexlify-hexlify [] a = refl
unhexlify-hexlify (b ∷ bs) (h, a) =
    let hi = digit_value-hex_digit (b / 16) (omega (arith, h)) in
    let lo = digit_value-hex_digit (b % 16) (omega arith) in
    let same : 16 * (b / 16) + b % 16 ≡ b = omega arith in
    rw (hi, lo, unhexlify-hexlify bs a) (ap (λ x. some (x ∷ bs)) same)
