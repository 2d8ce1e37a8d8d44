-- ===== src/Core/BigInteger/RoundTrip.antt =====
-- `ToByteArray` on both signs, and reading back with `FromBytes`.
use neo_python.Core.BigInteger.{byte_count, first_not_ff, from_bytes, le_bytes, to_byte_array}
use neo_python.Core.BigInteger.Bytes.{
  byte_count-le_iff, byte_count_least, byte_count_pos, from_le-le_bytes, le_bytes-add_mul,
  le_bytes-take, le_bytes_top, length-le_bytes, pow256_pos,
}
use neo_python.Prelude.{
  Bool, Bool-cases, [], ap, arith, false, if◌then◌else◌, inl, inr, leb, ltb, refl, suc, true, zero,
  ℕ, ◌%◌, ◌&&◌, ◌*◌, ◌+◌, ◌-◌, ◌/◌, ◌<◌, ◌==◌, ◌^◌, ◌||◌, ◌∷◌, ◌≡◌, ◌≢◌, ◌≤◌, ◌⊎◌,
}
use neo_python.Prelude.Int.{neg_ℕ, negsuc, pos, ℤ}
use native.Mathlib.Nat.{pow-suc}
use mathlib.Core.List.{reverse, reverse-append}

reverse_top :
    (k c w : ℕ)
    → c < 256
    → w < 256 ^ k
    → reverse (le_bytes (suc k) (c * 256 ^ k + w)) ≡ c ∷ reverse (le_bytes k w)
reverse_top k c w hc hw = rw (le_bytes_top k c w hc hw) (reverse-append (le_bytes k w) (c ∷ []))

reverse_zero : (k : ℕ) → reverse (le_bytes (suc k) 0) ≡ 0 ∷ reverse (le_bytes k 0)
reverse_zero k = rw nothing at (reverse_top k 0 0 (omega arith) (pow256_pos k))
  where
    nothing : 0 * 256 ^ k + 0 ≡ 0
    nothing = omega arith

zero_bytes : (k : ℕ) → first_not_ff (reverse (le_bytes k 0)) ≡ (if k == 0 then 255 else 0)
unfolding first_not_ff
zero_bytes zero = unfold le_bytes in refl
zero_bytes (suc k) = rw (reverse_zero k) (ground arith)

-- Below the top byte, which is 0xff, the search sees the number `w` byte by byte.
search_below :
    (k w : ℕ)
    → w < 256 ^ suc k
    → first_not_ff (reverse (le_bytes (suc (suc k)) (255 * 256 ^ suc k + w))) ≡ (
        if w / 256 ^ k == 255
        then first_not_ff (reverse (le_bytes k (w % 256 ^ k)))
        else w / 256 ^ k)
unfolding first_not_ff
search_below k w h = rw (reverse_top (suc k) 255 w (omega arith) h, inner) refl
  where
    top_lt : w / 256 ^ k < 256
    top_lt = grind (arith, pow-suc 256 k, pow256_pos k)

    parts : w / 256 ^ k * 256 ^ k + w % 256 ^ k ≡ w
    parts = grind arith

    low_lt : w % 256 ^ k < 256 ^ k
    low_lt = grind (arith, pow256_pos k)

    inner : reverse (le_bytes (suc k) w) ≡ w / 256 ^ k ∷ reverse (le_bytes k (w % 256 ^ k))
    inner = rw parts at (reverse_top k (w / 256 ^ k) (w % 256 ^ k) top_lt low_lt)

top_bit_of_sum : (c q r : ℕ) → r < q → ltb c 128 ≡ ltb (c * q + r) (128 * q)
top_bit_of_sum c q r h = elim (Bool-cases (ltb c 128)) [
  | inl small ↦ let e : c * q ≤ 127 * q = grind arith in ground arith
  | inr large ↦ let e : 128 * q ≤ c * q = grind arith in ground arith
]

top_not_full : (c q r : ℕ) → r < q → (c == 255) ≡ false → c * q + r ≢ 255 * q
top_not_full c q r h e p = elim (Bool-cases (ltb c 255)) [
  | inl small ↦ let f : c * q ≤ 254 * q = grind arith in omega arith
  | inr large ↦ let f : 256 * q ≤ c * q = grind arith in omega arith
]

-- When the search finds a byte with a clear top bit.
search_clear :
    (k m : ℕ)
    → 256 ^ k ≤ m
    → m < 256 ^ suc k
    → ltb (first_not_ff (reverse (le_bytes (suc (suc k)) (256 ^ suc (suc k) - m)))) 128
      ≡ (ltb (128 * 256 ^ k) m || (m == 256 ^ k && ltb 0 k))
search_clear k m lo hi = elim (Bool-cases (c == 255)) [
  | inl full ↦
      let empty : w % q ≡ 0 = ground (arith, parts, ap (λ (t : ℕ). t * q) (eq_of_test full)) in
      rw (whole, search_below k w below, full, empty, zero_bytes k)
        (ground (arith, parts, pow-suc 256 k, ap (λ (t : ℕ). t * q) (eq_of_test full)))
  | inr other ↦
      rw (whole, search_below k w below, other)
        (ground (
          arith,
          top_bit_of_sum c q (w % q) low,
          top_not_full c q (w % q) low other,
          parts,
          low,
          pow-suc 256 k,
        ))
]
  where
    q : ℕ
    q = 256 ^ k

    w : ℕ
    w = 256 ^ suc k - m

    c : ℕ
    c = w / q

    below : w < 256 ^ suc k
    below = omega (arith, pow256_pos k)

    whole : 256 ^ suc (suc k) - m ≡ 255 * 256 ^ suc k + w
    whole = omega (arith, hi, pow-suc 256 (suc k))

    low : w % q < q
    low = grind (arith, pow256_pos k)

    parts : c * q + w % q ≡ w
    parts = grind arith

    eq_of_test : (c == 255) ≡ true → c ≡ 255
    eq_of_test h = ground arith

abbrev pub IsLong : ℕ → ℕ → Type 0
IsLong k m = (128 * 256 ^ k < m) ⊎ ((m ≡ 256 ^ k) × (0 < k))

-- How a negative number is written: with one byte more than its size when the top bit of the last
-- byte is clear, and also, though there is no need, at the powers of 256.
pub negative_bytes :
    (n k : ℕ)
    → byte_count (suc n) ≡ suc k
    → ((to_byte_array (negsuc n) ≡ le_bytes (suc (suc k)) (256 ^ suc (suc k) - suc n))
        × IsLong k (suc n))
      ⊎ ((to_byte_array (negsuc n) ≡ le_bytes (suc k) (256 ^ suc k - suc n)) × ¬ IsLong k (suc n))
unfolding to_byte_array
negative_bytes n k e = elim (Bool-cases needs) [
  | inl long ↦ inl (rw (e, long), ground (arith, clear, long))
  | inr short ↦ inr (
    rw (e, short) (rw (le_bytes-take (suc k) _, whole, le_bytes-add_mul (suc k) 255 w) refl),
    λ h. ground (arith, clear, short),
  )
]
  where
    needs : Bool
    needs = ltb (first_not_ff (reverse (le_bytes (suc (suc k)) (256 ^ suc (suc k) - suc n)))) 128

    lo : 256 ^ k ≤ suc n
    lo = byte_count_least (suc n) k e

    hi : suc n < 256 ^ suc k
    hi = (byte_count-le_iff (suc k) (suc n)).0 (omega arith)

    w : ℕ
    w = 256 ^ suc k - suc n

    whole : 256 ^ suc (suc k) - suc n ≡ 255 * 256 ^ suc k + w
    whole = omega (arith, hi, pow-suc 256 (suc k))

    clear : needs ≡ (ltb (128 * 256 ^ k) (suc n) || (suc n == 256 ^ k && ltb 0 k))
    clear = search_clear k (suc n) lo hi

-- How a positive number is written.
pub positive_bytes :
    (n k : ℕ)
    → byte_count (suc n) ≡ suc k
    → ((to_byte_array (pos (suc n)) ≡ le_bytes (suc (suc k)) (suc n)) × (128 * 256 ^ k ≤ suc n))
      ⊎ ((to_byte_array (pos (suc n)) ≡ le_bytes (suc k) (suc n)) × (suc n < 128 * 256 ^ k))
unfolding to_byte_array
positive_bytes n k e = elim (Bool-cases (leb (256 ^ suc k) (2 * suc n))) [
  | inl long ↦ inl (rw (e, long), ground (arith, long, pow-suc 256 k))
  | inr short ↦ inr (rw (e, short), ground (arith, short, pow-suc 256 k))
]

-- `from_bytes` of `k + 1` bytes that hold the number `n`.
signed_value :
    (k n : ℕ)
    → n < 256 ^ suc k
    → from_bytes (le_bytes (suc k) n) true
      ≡ (if leb (256 ^ suc k) (2 * n) then neg_ℕ (256 ^ suc k - n) else pos n)
unfolding from_bytes
signed_value k n h = rw (from_le-le_bytes (suc k) n h, length-le_bytes (suc k) n) (ground arith)

from_bytes-positive : (n : ℕ) → from_bytes (to_byte_array (pos (suc n))) true ≡ pos (suc n)
from_bytes-positive n = go (byte_count_pos (suc n) (omega arith))
  where
    go :
        (k : ℕ) × (byte_count (suc n) ≡ suc k)
        → from_bytes (to_byte_array (pos (suc n))) true ≡ pos (suc n)
    go (k, e) =
        let hi : suc n < 256 ^ suc k = (byte_count-le_iff (suc k) (suc n)).0 (omega arith) in
        elim (positive_bytes n k e) [
          | inl (bs, long) ↦
              rw (bs, signed_value (suc k) (suc n) (omega (arith, pow-suc 256 (suc k))))
                (ground (arith, pow-suc 256 (suc k)))
          | inr (bs, short) ↦ rw (bs, signed_value k (suc n) hi) (ground (arith, pow-suc 256 k))
        ]

from_bytes-negative : (n : ℕ) → from_bytes (to_byte_array (negsuc n)) true ≡ negsuc n
from_bytes-negative n = go (byte_count_pos (suc n) (omega arith))
  where
    go :
        (k : ℕ) × (byte_count (suc n) ≡ suc k)
        → from_bytes (to_byte_array (negsuc n)) true ≡ negsuc n
    go (k, e) =
        let hi : suc n < 256 ^ suc k = (byte_count-le_iff (suc k) (suc n)).0 (omega arith) in
        elim (negative_bytes n k e) [
          | inl (bs, long) ↦
              rw
                (
                  bs,
                  signed_value (suc k) (256 ^ suc (suc k) - suc n)
                      (omega (arith, pow256_pos (suc (suc k)))),
                )
                (ground (arith, pow-suc 256 (suc k)))
          | inr (bs, short) ↦
              rw (bs, signed_value k (256 ^ suc k - suc n) (omega arith))
                (ground (arith, pow-suc 256 k, short))
        ]

-- FromBytes, signed, gives back every integer from what ToByteArray made of it.
pub from_bytes-to_byte_array : (x : ℤ) → from_bytes (to_byte_array x) true ≡ x
from_bytes-to_byte_array (pos zero) = unfold from_bytes to_byte_array in refl
from_bytes-to_byte_array (pos (suc n)) = from_bytes-positive n
from_bytes-to_byte_array (negsuc n) = from_bytes-negative n
