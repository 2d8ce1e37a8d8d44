-- ===== src/Core/BigInteger/Operators.antt =====
-- neo/Core/BigInteger.py: what the division, the remainder and the shifts compute.
use neo_python.Core.BigInteger.{lshift, mod_big, rshift, truediv}
use neo_python.Prelude.{
  ap, arith, inl, inr, refl, some, subst, suc, sym, zero, ℕ, ◌%◌, ◌*◌, ◌+◌, ◌-◌, ◌/◌, ◌<◌, ◌^◌, ◌∙◌,
  ◌≡◌, ◌⊎◌,
}
use neo_python.Prelude.Int.{
  abs_ℤ, floordiv, neg_ℕ, neg_ℤ, negsuc, pos, shift_left, shift_right, trunc_mod, ℤ, ◌*ℤ◌, ◌+ℤ◌,
  ◌-ℤ◌, ◌<ℤ◌, ◌≤ℤ◌,
}
use native.Mathlib.Nat.{div-add-mod', mod-lt, pow-suc}

-- The quotient rounded down: what is left of the dividend lies between zero and the divisor.
unfoldable pub IsFloor : ℤ → ℤ → ℤ → Type 0
IsFloor x y q =
    (r : ℤ) × (x ≡ q *ℤ y +ℤ r) × (((pos 0 ≤ℤ r) × (r <ℤ y)) ⊎ ((y <ℤ r) × (r ≤ℤ pos 0)))

-- The remainder has the sign of the dividend and is closer to zero than the divisor.
unfoldable pub IsRemainder : ℤ → ℤ → ℤ → Type 0
IsRemainder x y r =
    (q : ℤ) × (x ≡ q *ℤ y +ℤ r)
    × (abs_ℤ r < abs_ℤ y)
    × (((pos 0 ≤ℤ x) × (pos 0 ≤ℤ r)) ⊎ ((x ≤ℤ pos 0) × (r ≤ℤ pos 0)))

-- The product with a power of two, or for a negative exponent the quotient by it, rounded down.
unfoldable pub IsScaled : ℤ → ℤ → ℤ → Type 0
IsScaled x (pos s) z = z ≡ x *ℤ pos (2 ^ s)
IsScaled x (negsuc s) z = (r : ℕ) × (r < 2 ^ suc s) × (x ≡ z *ℤ pos (2 ^ suc s) +ℤ pos r)

times_pos_pos : (m n : ℕ) → pos m *ℤ pos n ≡ pos (m * n)
unfolding ◌*ℤ◌
times_pos_pos m n = ground arith

times_neg_pos : (m n : ℕ) → neg_ℕ m *ℤ pos n ≡ neg_ℕ (m * n)
unfolding ◌*ℤ◌
times_neg_pos zero n = ground arith
times_neg_pos (suc m) n = ground arith

times_pos_neg : (m n : ℕ) → pos m *ℤ negsuc n ≡ neg_ℕ (m * suc n)
unfolding ◌*ℤ◌
times_pos_neg m n = ground arith

times_neg_neg : (m n : ℕ) → neg_ℕ m *ℤ negsuc n ≡ pos (m * suc n)
unfolding ◌*ℤ◌
times_neg_neg zero n = ground arith
times_neg_neg (suc m) n = ground arith

plus_neg : (m n : ℕ) → neg_ℕ m +ℤ neg_ℕ n ≡ neg_ℕ (m + n)
unfolding ◌+ℤ◌
plus_neg zero zero = ground arith
plus_neg zero (suc n) = ground arith
plus_neg (suc m) zero = ground arith
plus_neg (suc m) (suc n) = ground arith

plus_pos : (m n : ℕ) → pos m +ℤ pos n ≡ pos (m + n)
unfolding ◌+ℤ◌
plus_pos m n = ground arith

abs-neg_ℕ : (t : ℕ) → abs_ℤ (neg_ℕ t) ≡ t
abs-neg_ℕ zero = refl
abs-neg_ℕ (suc t) = refl

neg_ℕ-below : (t : ℕ) → neg_ℕ t ≤ℤ pos 0
neg_ℕ-below zero = omega arith
neg_ℕ-below (suc t) = omega arith

two_pow_pos : (k : ℕ) → 0 < 2 ^ k
two_pow_pos zero = omega arith
two_pow_pos (suc k) = omega (arith, pow-suc 2 k, two_pow_pos k)

-- Two parts of a number, and of its negation.
sum_of_parts : (w t a : ℕ) → w + t ≡ a → pos a ≡ pos w +ℤ pos t
sum_of_parts w t a d = ap (λ n. pos n) (sym d) ∙ sym (plus_pos w t)

sum_of_negated : (w t a : ℕ) → w + t ≡ a → neg_ℕ a ≡ neg_ℕ w +ℤ neg_ℕ t
sum_of_negated w t a d = ap neg_ℕ (sym d) ∙ sym (plus_neg w t)

sum_with_less : (w t a b : ℕ) → w + t ≡ a + b → pos a ≡ pos w +ℤ (pos t -ℤ pos b)
unfolding ◌+ℤ◌ ◌-ℤ◌
sum_with_less w t a b d = ground (arith, d)

sum_below : (w r n : ℕ) → w ≡ r + suc n → negsuc n ≡ neg_ℕ w +ℤ pos r
unfolding ◌+ℤ◌
sum_below zero r n d = absurd (omega (arith, d))
sum_below (suc w) r n d = ground (arith, d)

less-bounds : (t b : ℕ) → t < suc b → (negsuc b <ℤ (pos t -ℤ pos b)) × ((pos t -ℤ pos b) ≤ℤ pos 0)
unfolding ◌-ℤ◌
less-bounds t b h = (ground (arith, h), ground (arith, h))

-- A dividend that is not negative is divided exactly.
pub truediv-IsFloor :
    (a : ℕ) (y : ℤ) → ¬ (y ≡ pos 0) → (q : ℤ) × (truediv (pos a) y ≡ some q) × IsFloor (pos a) y q
unfolding truediv IsFloor floordiv
truediv-IsFloor a (pos zero) n = absurd (n refl)
truediv-IsFloor a (pos (suc b)) n =
    let below : a % suc b < suc b = mod-lt a (omega arith) in
    (
      pos (a / suc b),
      refl,
      (
        pos (a % suc b),
        sum_of_parts _ _ _ (div-add-mod' a (suc b))
            ∙ ap (λ z. z +ℤ pos (a % suc b)) (sym (times_pos_pos (a / suc b) (suc b))),
        inl (omega arith, omega (arith, below)),
      ),
    )
truediv-IsFloor a (negsuc b) n =
    let m = (a + b) / suc b in
    let t = (a + b) % suc b in
    (
      neg_ℕ m,
      refl,
      (
        pos t -ℤ pos b,
        sum_with_less _ _ _ _ (div-add-mod' (a + b) (suc b))
            ∙ ap (λ z. z +ℤ (pos t -ℤ pos b)) (sym (times_neg_neg m b)),
        inr (less-bounds t b (mod-lt (a + b) (omega arith))),
      ),
    )

pub mod_big-IsRemainder :
    (x y : ℤ) → ¬ (y ≡ pos 0) → (r : ℤ) × (mod_big x y ≡ some r) × IsRemainder x y r
unfolding mod_big IsRemainder trunc_mod
mod_big-IsRemainder x (pos zero) n = absurd (n refl)
mod_big-IsRemainder (pos a) (pos (suc b)) n =
    let below : a % suc b < suc b = mod-lt a (omega arith) in
    (
      pos (a % suc b),
      refl,
      (
        pos (a / suc b),
        sum_of_parts _ _ _ (div-add-mod' a (suc b))
            ∙ ap (λ z. z +ℤ pos (a % suc b)) (sym (times_pos_pos (a / suc b) (suc b))),
        below,
        inl (omega arith, omega arith),
      ),
    )
mod_big-IsRemainder (pos a) (negsuc b) n =
    let below : a % suc b < suc b = mod-lt a (omega arith) in
    (
      pos (a % suc b),
      refl,
      (
        neg_ℕ (a / suc b),
        sum_of_parts _ _ _ (div-add-mod' a (suc b))
            ∙ ap (λ z. z +ℤ pos (a % suc b)) (sym (times_neg_neg (a / suc b) b)),
        below,
        inl (omega arith, omega arith),
      ),
    )
mod_big-IsRemainder (negsuc a) (pos (suc b)) n =
    let t = suc a % suc b in
    let below : t < suc b = mod-lt (suc a) (omega arith) in
    (
      neg_ℕ t,
      refl,
      (
        neg_ℕ (suc a / suc b),
        sum_of_negated _ _ _ (div-add-mod' (suc a) (suc b))
            ∙ ap (λ z. z +ℤ neg_ℕ t) (sym (times_neg_pos (suc a / suc b) (suc b))),
        subst (λ k. k < suc b) (sym (abs-neg_ℕ t)) below,
        inr (omega arith, neg_ℕ-below t),
      ),
    )
mod_big-IsRemainder (negsuc a) (negsuc b) n =
    let t = suc a % suc b in
    let below : t < suc b = mod-lt (suc a) (omega arith) in
    (
      neg_ℕ t,
      refl,
      (
        pos (suc a / suc b),
        sum_of_negated _ _ _ (div-add-mod' (suc a) (suc b))
            ∙ ap (λ z. z +ℤ neg_ℕ t) (sym (times_pos_neg (suc a / suc b) b)),
        subst (λ k. k < suc b) (sym (abs-neg_ℕ t)) below,
        inr (omega arith, neg_ℕ-below t),
      ),
    )

shift_left-IsScaled : (x : ℤ) (s : ℕ) → IsScaled x (pos s) (shift_left x s)
unfolding IsScaled shift_left
shift_left-IsScaled (pos n) s = sym (times_pos_pos n (2 ^ s))
shift_left-IsScaled (negsuc n) s = sym (times_neg_pos (suc n) (2 ^ s))

rounded-down : (n p : ℕ) → 0 < p → suc (n / p) * p ≡ (p - 1 - n % p) + suc n
rounded-down n p h = let below : n % p < p = mod-lt n h in omega (arith, div-add-mod' n p, below, h)

shift_right-IsScaled : (x : ℤ) (s : ℕ) → IsScaled x (negsuc s) (shift_right x (suc s))
unfolding IsScaled shift_right
shift_right-IsScaled (pos n) s =
    let some_power = two_pow_pos (suc s) in
    (
      n % 2 ^ suc s,
      mod-lt n some_power,
      sum_of_parts _ _ _ (div-add-mod' n (2 ^ suc s))
          ∙ ap (λ z. z +ℤ pos (n % 2 ^ suc s)) (sym (times_pos_pos (n / 2 ^ suc s) (2 ^ suc s))),
    )
shift_right-IsScaled (negsuc n) s =
    let some_power = two_pow_pos (suc s) in
    let r = 2 ^ suc s - 1 - n % 2 ^ suc s in
    (
      r,
      omega (arith, some_power),
      sum_below _ r n (rounded-down n (2 ^ suc s) some_power)
          ∙ ap (λ z. z +ℤ pos r) (sym (times_neg_pos (suc (n / 2 ^ suc s)) (2 ^ suc s))),
    )

pub lshift-IsScaled : (x y : ℤ) → IsScaled x y (lshift x y)
unfolding lshift
lshift-IsScaled x (pos s) = shift_left-IsScaled x s
lshift-IsScaled x (negsuc s) = shift_right-IsScaled x s

not_shifted : (x : ℤ) → IsScaled x (pos 0) (shift_right x 0)
unfolding IsScaled shift_right
not_shifted (pos n) =
    let whole : n / 2 ^ 0 ≡ n * 2 ^ 0 = omega arith in
    ap (λ m. pos m) whole ∙ sym (times_pos_pos n (2 ^ 0))
not_shifted (negsuc n) =
    let whole : suc (n / 2 ^ 0) ≡ suc n * 2 ^ 0 = omega arith in
    ap neg_ℕ whole ∙ sym (times_neg_pos (suc n) (2 ^ 0))

pub rshift-IsScaled : (x y : ℤ) → IsScaled x (neg_ℤ y) (rshift x y)
unfolding rshift
rshift-IsScaled x (pos zero) = not_shifted x
rshift-IsScaled x (pos (suc s)) = shift_right-IsScaled x s
rshift-IsScaled x (negsuc s) = shift_left-IsScaled x (suc s)
