-- ===== src/Core/BigInteger/Bytes.antt =====
-- The byte encoding of numbers: how many bytes a number takes, and reading back what was written.
use neo_python.Core.BigInteger.{
  bit_length, bit_length_fuel, byte_count, from_bytes, from_le, from_le_signed, le_bytes,
}
use neo_python.Prelude.{
  List, [], ap, arith, false, if◌then◌else◌, leb, length, not, refl, suc, take, true, zero, ℕ, ◌%◌,
  ◌&&◌, ◌*◌, ◌++◌, ◌+◌, ◌-◌, ◌/◌, ◌<◌, ◌==◌, ◌^◌, ◌↔◌, ◌∷◌, ◌≡◌, ◌≤◌, ◌⊎◌,
}
use neo_python.Prelude.Int.{neg_ℕ, pos}
use neo_python.Vm.StackItem.{some_byte}
use native.Mathlib.Nat.{pow-suc}

bit_length_fuel-eq : (f g n : ℕ) → n ≤ f → n ≤ g → bit_length_fuel f n ≡ bit_length_fuel g n
unfolding bit_length_fuel
bit_length_fuel-eq zero zero n p q = refl
bit_length_fuel-eq zero (suc g) n p q = ground arith
bit_length_fuel-eq (suc f) zero n p q = ground arith
bit_length_fuel-eq (suc f) (suc g) n p q = ground (arith, bit_length_fuel-eq f g (n / 2))

bit_length_step : (n : ℕ) → bit_length n ≡ (if n == 0 then 0 else suc (bit_length (n / 2)))
unfolding bit_length bit_length_fuel
bit_length_step zero = refl
bit_length_step (suc n) = ground (arith, bit_length_fuel-eq n (suc n / 2) (suc n / 2))

bit_length_byte :
    (n : ℕ)
    → ((n < 256) × (bit_length n ≤ 8)) ⊎ ((256 ≤ n) × (bit_length n ≡ 8 + bit_length (n / 256)))
bit_length_byte n = ground (
  arith,
  bit_length_step n,
  bit_length_step (n / 2),
  bit_length_step (n / 4),
  bit_length_step (n / 8),
  bit_length_step (n / 16),
  bit_length_step (n / 32),
  bit_length_step (n / 64),
  bit_length_step (n / 128),
  bit_length_step (n / 256),
)

pub pow256_pos : (k : ℕ) → 0 < 256 ^ k
pow256_pos zero = omega arith
pow256_pos (suc k) = omega (arith, pow-suc 256 k, pow256_pos k)

-- A number fits `k` bytes when its bits do.
pub lt-pow_iff : (k n : ℕ) → ((n < 256 ^ k) ↔ (bit_length n ≤ 8 * k))
lt-pow_iff zero n = (λ h. ground (arith, bit_length_step n), λ h. ground (arith, bit_length_step n))
lt-pow_iff (suc k) n = (
  λ h. ground (arith, bit_length_byte n, pow-suc 256 k, (lt-pow_iff k (n / 256)).0),
  λ h. ground (arith, bit_length_byte n, pow-suc 256 k, pow256_pos k, (lt-pow_iff k (n / 256)).1),
)

-- `byte_count` is the least number of bytes that holds a number.
pub byte_count-le_iff : (k n : ℕ) → ((byte_count n ≤ k) ↔ (n < 256 ^ k))
unfolding byte_count
byte_count-le_iff k n =
    (λ h. (lt-pow_iff k n).1 (omega arith), λ h. omega (arith, (lt-pow_iff k n).0 h))

pub byte_count_fits : (n : ℕ) → n < 256 ^ byte_count n
byte_count_fits n = (byte_count-le_iff (byte_count n) n).0 (omega arith)

-- A number above zero fills its last byte.
pub byte_count_least : (n k : ℕ) → byte_count n ≡ suc k → 256 ^ k ≤ n
byte_count_least n k e = ground (arith, (byte_count-le_iff k n).1)

pub byte_count_pos : (n : ℕ) → 0 < n → (k : ℕ) × (byte_count n ≡ suc k)
byte_count_pos n h = go (byte_count n) refl
  where
    go : (c : ℕ) → byte_count n ≡ c → (k : ℕ) × (byte_count n ≡ suc k)
    go zero e = absurd (ground (arith, (byte_count-le_iff 0 n).0))
    go (suc k) e = (k, e)

pub length-le_bytes : (k n : ℕ) → length (le_bytes k n) ≡ k
unfolding le_bytes
length-le_bytes zero n = refl
length-le_bytes (suc k) n = ap suc (length-le_bytes k (n / 256))

-- What `le_bytes` writes is read back, when the bytes suffice.
pub from_le-le_bytes : (k n : ℕ) → n < 256 ^ k → from_le (le_bytes k n) ≡ n
unfolding le_bytes from_le
from_le-le_bytes zero n h = omega arith
from_le-le_bytes (suc k) n h =
    omega (arith, pow-suc 256 k, from_le-le_bytes k (n / 256) (omega (arith, pow-suc 256 k)))

-- Bytes above the `k` that are written do not matter.
pub le_bytes-add_mul : (k c w : ℕ) → le_bytes k (c * 256 ^ k + w) ≡ le_bytes k w
unfolding le_bytes
le_bytes-add_mul zero c w = refl
le_bytes-add_mul (suc k) c w =
    ground (arith, ap (λ (t : ℕ). c * t) (pow-suc 256 k), quotient, le_bytes-add_mul k c (w / 256))
  where
    quotient : (c * 256 ^ suc k + w) / 256 ≡ c * 256 ^ k + w / 256
    quotient = omega (arith, ap (λ (t : ℕ). c * t) (pow-suc 256 k))

pub le_bytes-take : (k n : ℕ) → take k (le_bytes (suc k) n) ≡ le_bytes k n
unfolding le_bytes
le_bytes-take zero n = refl
le_bytes-take (suc k) n = ap (λ t. (n % 256) ∷ t) (le_bytes-take k (n / 256))

-- The last byte written is the most significant one.
pub le_bytes_top :
    (k c w : ℕ)
    → c < 256
    → w < 256 ^ k
    → le_bytes (suc k) (c * 256 ^ k + w) ≡ le_bytes k w ++ (c ∷ [])
unfolding le_bytes
le_bytes_top zero c w hc hw = ground arith
le_bytes_top (suc k) c w hc hw = ground (
  arith,
  ap (λ (t : ℕ). c * t) (pow-suc 256 k),
  pow-suc 256 k,
  quotient,
  le_bytes_top k c (w / 256),
)
  where
    quotient : (c * 256 ^ suc k + w) / 256 ≡ c * 256 ^ k + w / 256
    quotient = omega (arith, ap (λ (t : ℕ). c * t) (pow-suc 256 k))

-- Bytes whose top bit is not set mean the same with and without a sign.
pub from_bytes_unsigned :
    (bs : List ℕ) → 2 * from_le bs < 256 ^ length bs → from_bytes bs true ≡ pos (from_le bs)
unfolding from_bytes from_le_signed
from_bytes_unsigned bs h =
    let test : leb (256 ^ length bs) (2 * from_le bs) ≡ false = ground (arith, h) in rw test refl

-- Bytes whose top bit is set mean a negative number.
pub from_bytes_negative :
    (bs : List ℕ)
    → 1 ≤ length bs
    → 256 ^ length bs ≤ 2 * from_le bs
    → from_bytes bs true ≡ neg_ℕ (256 ^ length bs - from_le bs)
unfolding from_bytes from_le_signed
from_bytes_negative bs some_byte h =
    let test : (leb (256 ^ length bs) (2 * from_le bs) && not (length bs == 0)) ≡ true =
      ground (arith, h, some_byte) in
    rw test refl
