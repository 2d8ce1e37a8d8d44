-- ===== src/Vm/Engine/ItemCount/Unseen.antt =====
-- neo/VM/ExecutionEngine.py: what the loop of GetItemCount has still to expand.
use neo_python.Prelude.{
  Bool, Bool-cases, List, Option, [], ap, arith, false, if◌then◌else◌, inl, inr, ltb, none, refl,
  some, subst, suc, sym, true, zero, ℕ, ◌++◌, ◌+◌, ◌<◌, ◌==◌, ◌||◌, ◌∷◌, ◌≡◌, ◌≤◌,
}
use neo_python.Vm.Engine.Limits.{cells_below, contained, held}
use neo_python.Vm.StackItem.{Heap, StackItem, array, map, struct}

-- No list or dict has an identity that was not given yet.
unfoldable pub IsClosed : Heap → Type 0
unfolding held
IsClosed heap =
    (r : ℕ)
    → heap.next ≤ r
    → (held heap (array r) ≡ 0) × (held heap (struct r) ≡ 0) × (held heap (map r) ≡ 0)

-- Two collections that are one object.
same_collection : StackItem → StackItem → Bool
same_collection (array r) (array q) = r == q
same_collection (struct r) (struct q) = r == q
same_collection (map r) (map q) = r == q
same_collection _ _ = false

pub was_seen : StackItem → List StackItem → Bool
was_seen x [] = false
was_seen x (y ∷ ys) = same_collection x y || was_seen x ys

-- An equality that holds of an object and itself, where it does not raise.
unfoldable pub IsReflexive : (StackItem → StackItem → Option Bool) → Type 0
unfolding same_collection
IsReflexive eq = (x y : StackItem) → same_collection x y ≡ true → ¬ (eq x y ≡ some false)

pub contained-was_seen :
    (eq : StackItem → StackItem → Option Bool) (x : StackItem) (ys : List StackItem)
    → IsReflexive eq
    → contained eq x ys ≡ some false
    → was_seen x ys ≡ false
unfolding contained was_seen IsReflexive
contained-was_seen eq x [] is h = refl
contained-was_seen eq x (y ∷ ys) is h = elim (Bool-cases (same_collection x y)) [
  | inl t ↦ absurd (go (eq x y) (is x y t) h)
  | inr f ↦ rw f (contained-was_seen eq x ys is (rest (eq x y) h))
]
  where
    go :
        (o : Option Bool)
        → ¬ (o ≡ some false)
        → ¬ (
            elim o [ none ↦ none | some true ↦ some true | some false ↦ contained eq x ys ]
            ≡ some false)
    go none n h = absurd (ground (arith, h))
    go (some true) n h = absurd (ground (arith, h))
    go (some false) n h = n refl

    rest :
        (o : Option Bool)
        → elim o [ none ↦ none | some true ↦ some true | some false ↦ contained eq x ys ]
          ≡ some false
        → contained eq x ys ≡ some false
    rest none h = absurd (ground (arith, h))
    rest (some true) h = absurd (ground (arith, h))
    rest (some false) h = h

was_seen-append :
    (y x : StackItem) (c : List StackItem)
    → was_seen y (c ++ (x ∷ [])) ≡ (was_seen y c || same_collection y x)
unfolding was_seen
was_seen-append y x [] = go (same_collection y x)
  where
    go : (b : Bool) → (b || false) ≡ b
    go true = refl
    go false = refl
was_seen-append y x (z ∷ c) = rw (was_seen-append y x c) (go (same_collection y z))
  where
    go :
        (b : Bool)
        → (b || (was_seen y c || same_collection y x))
          ≡ ((b || was_seen y c) || same_collection y x)
    go true = refl
    go false = refl

one_object : (x y : StackItem) → same_collection x y ≡ true → x ≡ y
unfolding same_collection
one_object (array r) (array q) h = ap array (ground (arith, h))
one_object (struct r) (struct q) h = ap struct (ground (arith, h))
one_object (map r) (map q) h = ap map (ground (arith, h))
one_object x y h = absurd (ground (arith, h))

-- What a collection holds, where it was not seen yet.
left_in : Heap → List StackItem → StackItem → ℕ
left_in heap counted x = if was_seen x counted then 0 else held heap x

-- What the collections with an identity below `n` hold that were not seen yet.
pub left_below : Heap → List StackItem → ℕ → ℕ
left_below heap counted zero = 0
left_below heap counted (suc n) =
    left_below heap counted n
    + (left_in heap counted (array n)
        + (left_in heap counted (struct n) + left_in heap counted (map n)))

-- What an item holds, where it is the one that is asked for.
taken_in : Heap → StackItem → StackItem → ℕ
taken_in heap x y = if same_collection y x then held heap x else 0

pub taken_below : Heap → StackItem → ℕ → ℕ
taken_below heap x zero = 0
taken_below heap x (suc n) =
    taken_below heap x n
    + (taken_in heap x (array n) + (taken_in heap x (struct n) + taken_in heap x (map n)))

left_in-taken :
    (heap : Heap) (x : StackItem) (c : List StackItem) (y : StackItem)
    → was_seen x c ≡ false
    → left_in heap (c ++ (x ∷ [])) y + taken_in heap x y ≡ left_in heap c y
unfolding left_in taken_in
left_in-taken heap x c y h = elim (Bool-cases (same_collection y x)) [
  | inl t ↦
      subst Kept (sym (one_object y x t))
        (kept (subst (λ z. same_collection z x ≡ true) (one_object y x t) t))
  | inr f ↦ rw (was_seen-append y x c) (rw f (go (was_seen y c)))
]
  where
    Kept : StackItem → Type 0
    Kept z =
        (if was_seen z (c ++ (x ∷ [])) then 0 else held heap z)
          + (if same_collection z x then held heap x else 0)
        ≡ (if was_seen z c then 0 else held heap z)

    kept : same_collection x x ≡ true → Kept x
    kept same = rw (was_seen-append x x c) (rw (h, same) (omega arith))

    go : (b : Bool) → (if b || false then 0 else held heap y) + 0 ≡ (if b then 0 else held heap y)
    go true = refl
    go false = omega arith

pub left_below-taken :
    (heap : Heap) (x : StackItem) (c : List StackItem) (n : ℕ)
    → was_seen x c ≡ false
    → left_below heap (c ++ (x ∷ [])) n + taken_below heap x n ≡ left_below heap c n
unfolding left_below taken_below
left_below-taken heap x c zero h = refl
left_below-taken heap x c (suc n) h = omega (
  arith,
  left_below-taken heap x c n h,
  left_in-taken heap x c (array n) h,
  left_in-taken heap x c (struct n) h,
  left_in-taken heap x c (map n) h,
)

-- A collection with the identity r.
stands_at : StackItem → ℕ → Bool
stands_at x r =
    same_collection (array r) x || (same_collection (struct r) x || same_collection (map r) x)

taken_below-stands_at :
    (heap : Heap) (x : StackItem) (r n : ℕ)
    → stands_at x r ≡ true
    → r < n
    → held heap x ≤ taken_below heap x n
unfolding taken_below taken_in stands_at
taken_below-stands_at heap x r zero at h = absurd (omega (arith, h))
taken_below-stands_at heap x r (suc n) at h = elim (Bool-cases (ltb r n)) [
  | inl below ↦ omega (arith, taken_below-stands_at heap x r n at (ground (arith, below)))
  | inr above ↦
      let p : r ≡ n = ground (arith, above, h) in
      omega (arith, here n (subst (λ m. stands_at x m ≡ true) p at))
]
  where
    here :
        (n : ℕ)
        → stands_at x n ≡ true
        → held heap x
          ≤ taken_in heap x (array n) + (taken_in heap x (struct n) + taken_in heap x (map n))
    here n at =
        go (same_collection (array n) x) (same_collection (struct n) x) (same_collection (map n) x)
          at
      where
        go :
            (a b c : Bool)
            → (a || (b || c)) ≡ true
            → held heap x
              ≤ (if a then held heap x else 0)
                + ((if b then held heap x else 0) + (if c then held heap x else 0))
        go true b c h = omega arith
        go false true c h = omega arith
        go false false true h = omega arith
        go false false false h = absurd (ground (arith, h))

below_or_given :
    (heap : Heap) (x : StackItem) (r : ℕ)
    → stands_at x r ≡ true
    → (heap.next ≤ r → held heap x ≡ 0)
    → held heap x ≤ taken_below heap x heap.next
below_or_given heap x r at closed = elim (Bool-cases (ltb r heap.next)) [
  | inl below ↦ taken_below-stands_at heap x r heap.next at (ground (arith, below))
  | inr above ↦ omega (arith, closed (ground (arith, above)))
]

pub taken_below-held :
    (heap : Heap) (x : StackItem) → IsClosed heap → held heap x ≤ taken_below heap x heap.next
unfolding IsClosed stands_at same_collection
taken_below-held heap (array r) closed =
    below_or_given heap (array r) r (ground arith) (λ h. (closed r h).0)
taken_below-held heap (struct r) closed =
    below_or_given heap (struct r) r (ground arith) (λ h. (closed r h).1)
taken_below-held heap (map r) closed =
    below_or_given heap (map r) r (ground arith) (λ h. (closed r h).2)
taken_below-held heap x closed = omega arith

pub left_below-cells : (heap : Heap) (n : ℕ) → left_below heap [] n ≡ cells_below heap n
unfolding left_below left_in was_seen cells_below
left_below-cells heap zero = refl
left_below-cells heap (suc n) = rw (left_below-cells heap n) refl
