-- ===== src/Core/BigInteger.antt =====
-- neo/Core/BigInteger.py: Python's `int` with the byte encoding of the chain.
-- `int.bit_length`, `int.to_bytes` and `int.from_bytes` are the language's and are written out.
pub mod Bytes
pub mod RoundTrip
pub mod Operators
pub mod Limits
use neo_python.Prelude.{
  Bool, List, Option, [], false, if◌then◌else◌, leb, length, ltb, none, not, some, suc, true, take,
  zero, ℕ, ◌%◌, ◌&&◌, ◌*◌, ◌+◌, ◌-◌, ◌/◌, ◌==◌, ◌^◌, ◌∷◌,
}
use neo_python.Prelude.Int.{
  eqb_ℤ, floordiv, ltb_ℤ, neg_ℕ, negsuc, pos, shift_left, shift_right, trunc_mod, ℤ,
}
use mathlib.Core.List.{reverse}

-- `int.bit_length` of a number: halvings until zero.
bit_length_fuel : ℕ → ℕ → ℕ
bit_length_fuel zero n = 0
bit_length_fuel (suc f) n = elim (n == 0) [ true ↦ 0 | false ↦ suc (bit_length_fuel f (n / 2)) ]

-- A number has no more bits than its value.
pub bit_length : ℕ → ℕ
unfolding bit_length_fuel
bit_length n = bit_length_fuel n n

-- The low `k` bytes of a number, the least significant first.
pub le_bytes : ℕ → ℕ → List ℕ
le_bytes zero n = []
le_bytes (suc k) n = (n % 256) ∷ le_bytes k (n / 256)

-- `int.from_bytes(data, 'little')`.
unfoldable pub from_le : List ℕ → ℕ
from_le [] = 0
from_le (b ∷ bs) = b + 256 * from_le bs

-- `int.from_bytes(data, 'little', signed=True)`.
pub from_le_signed : List ℕ → ℤ
unfolding from_le
from_le_signed bs =
    let n = from_le bs in
    let k = length bs in
    if leb (256 ^ k) (2 * n) && not (k == 0) then neg_ℕ (256 ^ k - n) else pos n

-- BigInteger.FromBytes
unfoldable pub from_bytes : List ℕ → Bool → ℤ
unfolding from_le_signed
from_bytes bs signed = if signed then from_le_signed bs else pos (from_le bs)

-- The loop of `ToByteArray` over the bytes from the top one down: the first that is not 0xff. With
-- none found the index stays at the top byte, which is 0xff.
pub first_not_ff : List ℕ → ℕ
first_not_ff [] = 255
first_not_ff (b ∷ bs) = if b == 255 then first_not_ff bs else b

-- `(self.bit_length() + 7) // 8`
pub byte_count : ℕ → ℕ
byte_count n = (bit_length n + 7) / 8

-- BigInteger.ToByteArray. For a positive number `to_bytes` overflows when the top bit is in use, and
-- the handler takes one byte more.
unfoldable pub to_byte_array : ℤ → List ℕ
unfolding first_not_ff byte_count bit_length le_bytes
to_byte_array (pos zero) = 0 ∷ []
to_byte_array (pos (suc n)) =
    let size = byte_count (suc n) in
    if leb (256 ^ size) (2 * suc n) then le_bytes (suc size) (suc n) else le_bytes size (suc n)
to_byte_array (negsuc n) =
    let size = byte_count (suc n) in
    let data_bytes = le_bytes (suc size) (256 ^ (suc size) - suc n) in
    let needs_extra_byte = ltb (first_not_ff (reverse data_bytes)) 128 in
    if needs_extra_byte then data_bytes else take size data_bytes

-- BigInteger.Sign
unfoldable pub sign : ℤ → ℤ
sign x = if ltb_ℤ (pos 0) x then pos 1 else if eqb_ℤ x (pos 0) then pos 0 else negsuc 0

-- `int / int` of Python for two numbers: the quotient as a double (53 bits, ties to even).
-- The exponent is `bit_length (a / b) - 53`; the value is then cut to an integer by `int`.
round_half_even : ℕ → ℕ → ℕ
round_half_even n d =
    let q = n / d in
    let r = n % d in if ltb (2 * r) d then q else if ltb d (2 * r) then q + 1 else q + q % 2

unfoldable pub float_div : ℕ → ℕ → ℕ
unfolding round_half_even bit_length
float_div a b =
    let bits = bit_length (a / b) in
    if leb 53 bits
    then round_half_even a (b * 2 ^ (bits - 53)) * 2 ^ (bits - 53)
    else round_half_even (a * 2 ^ (53 - bits)) b / 2 ^ (53 - bits)

-- BigInteger.__truediv__: a negative dividend is divided in floating point and cut towards zero,
-- any other by `//`. `none` is ZeroDivisionError. Doubles reach past 2 ^ 1023, and no quotient of
-- operands of 32 bytes does.
unfoldable pub truediv : ℤ → ℤ → Option ℤ
unfolding float_div floordiv
truediv x (pos zero) = none
truediv (pos a) y = some (floordiv (pos a) y)
truediv (negsuc a) (pos b) = some (neg_ℕ (float_div (suc a) b))
truediv (negsuc a) (negsuc b) = some (pos (float_div (suc a) (suc b)))

-- BigInteger.__mod__: `%` of Decimal, exact at its 100 digits, with the sign of the dividend.
unfoldable pub mod_big : ℤ → ℤ → Option ℤ
unfolding trunc_mod
mod_big x (pos zero) = none
mod_big x y = some (trunc_mod x y)

-- BigInteger.__lshift__ and __rshift__: a negative shift goes the other way.
unfoldable pub lshift : ℤ → ℤ → ℤ
unfolding shift_left shift_right
lshift x (pos s) = shift_left x s
lshift x (negsuc s) = shift_right x (suc s)

unfoldable pub rshift : ℤ → ℤ → ℤ
unfolding shift_left shift_right
rshift x (pos s) = shift_right x s
rshift x (negsuc s) = shift_left x (suc s)
