-- ===== src/Core/UIntBase/Order.antt =====
-- neo/Core/UIntBase.py: what CompareTo compares.
use neo_python.Core.BigInteger.{from_le}
use neo_python.Core.Io.Hex.{AllBytes}
use neo_python.Core.UIntBase.{byte_at, compare_from, compare_to}
use neo_python.Prelude.{
  List, [], ap, arith, if◌then◌else◌, length, ltb, refl, some, suc, true, zero, ℕ, ◌*◌, ◌+◌, ◌-◌,
  ◌<◌, ◌==◌, ◌∙◌, ◌∷◌, ◌≡◌,
}
use neo_python.Prelude.Int.{negsuc, pos, ℤ}

-- What one index decides, before the indices below it.
decide : ℕ → ℕ → ℤ → ℤ
decide a b rest = if ltb b a then pos 1 else if ltb a b then negsuc 0 else rest

-- The loop over all indices below a number, with what stands below them.
compare_below : ℕ → List ℕ → List ℕ → ℤ → ℤ
compare_below zero x y rest = rest
compare_below (suc i) x y rest = decide (byte_at x i) (byte_at y i) (compare_below i x y rest)

compare_below-cons :
    (i a b : ℕ) (x y : List ℕ) (rest : ℤ)
    → compare_below (suc i) (a ∷ x) (b ∷ y) rest ≡ compare_below i x y (decide a b rest)
unfolding compare_below
compare_below-cons zero a b x y rest = refl
compare_below-cons (suc i) a b x y rest =
    ap (decide (byte_at x i) (byte_at y i)) (compare_below-cons i a b x y rest)

-- All indices together compare the numbers of the bytes.
decide-number :
    (a b m n : ℕ) (rest : ℤ)
    → a < 256
    → b < 256
    → decide m n (decide a b rest) ≡ decide (a + 256 * m) (b + 256 * n) rest
unfolding decide
decide-number a b m n rest ha hb = ground (arith, ha, hb)

compare_below-from_le :
    (x y : List ℕ) (rest : ℤ)
    → length x ≡ length y
    → AllBytes x
    → AllBytes y
    → compare_below (length x) x y rest ≡ decide (from_le x) (from_le y) rest
unfolding compare_below from_le decide
compare_below-from_le [] [] rest h ax ay = refl
compare_below-from_le [] (b ∷ y) rest h ax ay = absurd (omega (arith, h))
compare_below-from_le (a ∷ x) [] rest h ax ay = absurd (omega (arith, h))
compare_below-from_le (a ∷ x) (b ∷ y) rest h (ha, ax) (hb, ay) =
    compare_below-cons (length x) a b x y rest
    ∙ compare_below-from_le x y (decide a b rest) (omega (arith, h)) ax ay
    ∙ decide-number a b (from_le x) (from_le y) rest ha hb

compare_from-compare_below :
    (i a b : ℕ) (x y : List ℕ) → compare_from i (a ∷ x) (b ∷ y) ≡ compare_below i x y (pos 0)
unfolding compare_from compare_below decide
compare_from-compare_below zero a b x y = refl
compare_from-compare_below (suc i) a b x y =
    ap (decide (byte_at x i) (byte_at y i)) (compare_from-compare_below i a b x y)

-- The order of two numbers, as CompareTo gives it.
unfoldable pub sign_of : ℕ → ℕ → ℤ
sign_of m n = if ltb n m then pos 1 else if ltb m n then negsuc 0 else pos 0

-- CompareTo of two values of one length gives the order of the little-endian numbers of their
-- bytes without the first. Condition: the bytes are below 256.
pub compare_to_lem :
    (a b : ℕ) (x y : List ℕ)
    → length x ≡ length y
    → AllBytes x
    → AllBytes y
    → compare_to (a ∷ x) (b ∷ y) ≡ some (sign_of (from_le x) (from_le y))
unfolding compare_to sign_of decide
compare_to_lem a b x y h ax ay =
    let whole : (length (a ∷ x) == length (b ∷ y)) ≡ true = ground (arith, h) in
    let one_less : length (a ∷ x) - 1 ≡ length x = ground arith in
    rw (whole, one_less)
      (ap some
        (compare_from-compare_below (length x) a b x y ∙ compare_below-from_le x y (pos 0) h ax ay))
