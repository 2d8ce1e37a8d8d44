-- ===== src/Core/BigInteger/Limits.antt =====
-- Which integers `ToByteArray` writes in at most a given number of bytes.
use neo_python.Core.BigInteger.{byte_count, to_byte_array}
use neo_python.Core.BigInteger.Bytes.{
  byte_count-le_iff, byte_count_pos, length-le_bytes, pow256_pos,
}
use neo_python.Core.BigInteger.RoundTrip.{negative_bytes, positive_bytes}
use neo_python.Prelude.{
  arith, inl, inr, length, refl, suc, zero, ℕ, ◌*◌, ◌-◌, ◌<◌, ◌^◌, ◌↔◌, ◌≡◌, ◌≢◌, ◌≤◌, ◌⊎◌,
}
use neo_python.Prelude.Int.{neg_part, neg_ℕ, negsuc, pos, pos_part, ℤ, ◌<ℤ◌, ◌≤ℤ◌}
use native.Mathlib.Nat.{pow-suc}

-- The integers that fit `k + 1` bytes in two's complement, less the one that is written too long.
abbrev pub FitsBytes : ℕ → ℤ → Type 0
FitsBytes k x =
    (neg_ℕ (128 * 256 ^ k) ≤ℤ x) × (x <ℤ pos (128 * 256 ^ k)) × ((x ≢ neg_ℕ (256 ^ k)) ⊎ (k ≡ 0))

-- The same, of the size of a number.
abbrev FitsPositive : ℕ → ℕ → Type 0
FitsPositive k m = m < 128 * 256 ^ k

length_positive :
    (k n : ℕ) → (length (to_byte_array (pos (suc n))) ≤ suc k) ↔ FitsPositive k (suc n)
length_positive k n = go (byte_count_pos (suc n) (omega arith))
  where
    go :
        (j : ℕ) × (byte_count (suc n) ≡ suc j)
        → (length (to_byte_array (pos (suc n))) ≤ suc k) ↔ FitsPositive k (suc n)
    go (j, e) = elim (positive_bytes n j e) [
      | inl (bs, long) ↦
          rw (bs, length-le_bytes (suc (suc j)) (suc n))
            (ground (
              arith,
              long,
              byte_count-le_iff k (suc n),
              byte_count-le_iff (suc k) (suc n),
              pow-suc 256 k,
              pow256_pos k,
            ))
      | inr (bs, short) ↦
          rw (bs, length-le_bytes (suc j) (suc n))
            (ground (
              arith,
              short,
              byte_count-le_iff k (suc n),
              byte_count-le_iff (suc k) (suc n),
              pow-suc 256 k,
              pow256_pos k,
            ))
    ]

abbrev FitsNegative : ℕ → ℕ → Type 0
FitsNegative k m = (m ≤ 128 * 256 ^ k) × ((m ≢ 256 ^ k) ⊎ (k ≡ 0))

length_negative : (k n : ℕ) → (length (to_byte_array (negsuc n)) ≤ suc k) ↔ FitsNegative k (suc n)
length_negative k n = go (byte_count_pos (suc n) (omega arith))
  where
    go :
        (j : ℕ) × (byte_count (suc n) ≡ suc j)
        → (length (to_byte_array (negsuc n)) ≤ suc k) ↔ FitsNegative k (suc n)
    go (j, e) = elim (negative_bytes n j e) [
      | inl (bs, long) ↦
          rw (bs, length-le_bytes (suc (suc j)) (256 ^ suc (suc j) - suc n))
            (ground (
              arith,
              long,
              byte_count-le_iff k (suc n),
              byte_count-le_iff (suc k) (suc n),
              pow-suc 256 k,
              pow256_pos k,
            ))
      | inr (bs, short) ↦
          rw (bs, length-le_bytes (suc j) (256 ^ suc j - suc n))
            (ground (
              arith,
              short,
              byte_count-le_iff k (suc n),
              byte_count-le_iff (suc k) (suc n),
              pow-suc 256 k,
              pow256_pos k,
            ))
    ]

neg_ℕ_parts : (m : ℕ) → (pos_part (neg_ℕ m) ≡ 0) × (neg_part (neg_ℕ m) ≡ m)
neg_ℕ_parts zero = (refl, refl)
neg_ℕ_parts (suc m) = (refl, refl)

neg_ℕ_negsuc_iff : (n m : ℕ) → (negsuc n ≡ neg_ℕ m) ↔ (suc n ≡ m)
neg_ℕ_negsuc_iff n zero = ground arith
neg_ℕ_negsuc_iff n (suc m) = ground arith

neg_ℕ-ne-pos : (n m : ℕ) → 0 < m → pos n ≢ neg_ℕ m
neg_ℕ-ne-pos n zero h = absurd (omega arith)
neg_ℕ-ne-pos n (suc m) h = λ e. ground arith

-- ToByteArray takes at most k + 1 bytes exactly for the integers from -2^(8k+7) up to 2^(8k+7) -
-- 1, except that for k > 0 it takes one more for -2^(8k).
pub length-to_byte_array_iff : (k : ℕ) (x : ℤ) → (length (to_byte_array x) ≤ suc k) ↔ FitsBytes k x
length-to_byte_array_iff k (pos zero) = (
  λ h. (
    ground (arith, neg_ℕ_parts (128 * 256 ^ k)),
    ground (arith, pow256_pos k),
    inl (neg_ℕ-ne-pos 0 (256 ^ k) (pow256_pos k)),
  ),
  λ h. unfold to_byte_array in omega arith,
)
length-to_byte_array_iff k (pos (suc n)) = (
  λ h. (
    ground (arith, neg_ℕ_parts (128 * 256 ^ k)),
    ground (arith, (length_positive k n).0 h),
    inl (neg_ℕ-ne-pos (suc n) (256 ^ k) (pow256_pos k)),
  ),
  λ h. (length_positive k n).1 (ground (arith, h)),
)
length-to_byte_array_iff k (negsuc n) = (
  λ h.
      ground (
        arith,
        neg_ℕ_parts (128 * 256 ^ k),
        neg_ℕ_negsuc_iff n (256 ^ k),
        (length_negative k n).0 h,
      ),
  λ h.
      (length_negative k n).1
        (ground (arith, neg_ℕ_parts (128 * 256 ^ k), neg_ℕ_negsuc_iff n (256 ^ k), h)),
)
