-- ===== src/Prelude/Dict.antt =====
-- Python's dict with byte strings as keys: an association list in the order of insertion.
use Prim.Native.Nat.{ℕ}
use mathlib.Core.Path.{◌≡◌, refl, ap}
use mathlib.Core.Bool.{true}
use mathlib.Core.Logic.{inl, inr}
use mathlib.Core.List.{List, [], ◌∷◌}
use mathlib.Core.Option.{Option, none, some}
use native.Mathlib.Omega.{arith}
use neo_python.Prelude.Tests.{bytes_eq, if◌then◌else◌, Bool-cases}

pub bytes_eq_refl : (xs : List ℕ) → bytes_eq xs xs ≡ true
bytes_eq_refl [] = refl
bytes_eq_refl (x ∷ xs) = ground (arith, bytes_eq_refl xs)

pub bytes_eq_same : (xs ys : List ℕ) → bytes_eq xs ys ≡ true → xs ≡ ys
bytes_eq_same [] [] h = refl
bytes_eq_same [] (y ∷ ys) h = absurd (ground (arith, h))
bytes_eq_same (x ∷ xs) [] h = absurd (ground (arith, h))
bytes_eq_same (x ∷ xs) (y ∷ ys) h =
    let p : x ≡ y = ground (arith, h) in
    let q : xs ≡ ys = bytes_eq_same xs ys (ground (arith, h)) in rw (p, q) refl

pub bytes_eq_other : (xs ys zs : List ℕ) → bytes_eq xs ys ≡ true → bytes_eq xs zs ≡ bytes_eq ys zs
bytes_eq_other xs ys zs h = ap (λ k. bytes_eq k zs) (bytes_eq_same xs ys h)

pub bytes_eq_sym : (xs ys : List ℕ) → bytes_eq xs ys ≡ bytes_eq ys xs
bytes_eq_sym [] [] = refl
bytes_eq_sym [] (y ∷ ys) = refl
bytes_eq_sym (x ∷ xs) [] = refl
bytes_eq_sym (x ∷ xs) (y ∷ ys) = ground (arith, bytes_eq_sym xs ys)

module _ {V : Type 0} where
  -- `d.get(k, None)`
  unfoldable pub lookup : List ℕ → List (List ℕ × V) → Option V
  lookup k [] = none
  lookup k ((j, v) ∷ d) = if bytes_eq j k then some v else lookup k d

  -- `d.update({k: v})`
  unfoldable pub insert_key : List ℕ → V → List (List ℕ × V) → List (List ℕ × V)
  insert_key k v [] = (k, v) ∷ []
  insert_key k v ((j, w) ∷ d) = if bytes_eq j k then (j, v) ∷ d else (j, w) ∷ insert_key k v d

  -- `d.pop(k)` of a key that is there
  unfoldable pub remove_key : List ℕ → List (List ℕ × V) → List (List ℕ × V)
  remove_key k [] = []
  remove_key k ((j, w) ∷ d) = if bytes_eq j k then d else (j, w) ∷ remove_key k d

  -- Every key occurs once.
  unfoldable pub HasUniqueKeys : List (List ℕ × V) → Type 0
  HasUniqueKeys [] = Unit
  HasUniqueKeys ((k, v) ∷ d) = (lookup k d ≡ none) × HasUniqueKeys d

  pub lookup-insert_key :
      (j k : List ℕ) (v : V) (d : List (List ℕ × V))
      → lookup j (insert_key k v d) ≡ (if bytes_eq k j then some v else lookup j d)
  unfolding lookup insert_key
  lookup-insert_key j k v [] = refl
  lookup-insert_key j k v ((i, w) ∷ d) = ground (
    arith,
    bytes_eq_other i k j,
    bytes_eq_other i j k,
    bytes_eq_sym j k,
    lookup-insert_key j k v d,
  )

  pub lookup-same_key :
      (i j : List ℕ) (d : List (List ℕ × V)) → bytes_eq i j ≡ true → lookup i d ≡ lookup j d
  lookup-same_key i j d h = ap (λ k. lookup k d) (bytes_eq_same i j h)

  pub insert_key-HasUniqueKeys :
      (k : List ℕ) (v : V) (d : List (List ℕ × V))
      → HasUniqueKeys d
      → HasUniqueKeys (insert_key k v d)
  unfolding lookup insert_key HasUniqueKeys
  insert_key-HasUniqueKeys k v [] u = (refl, tt)
  insert_key-HasUniqueKeys k v ((i, w) ∷ d) (n, u) = elim (Bool-cases (bytes_eq i k)) [
    | inl same ↦ rw same (n, u)
    | inr other ↦
        let kept = insert_key-HasUniqueKeys k v d u in
        rw other (ground (arith, other, n, bytes_eq_sym i k, lookup-insert_key i k v d), kept)
  ]

  pub lookup-remove_key :
      (j k : List ℕ) (d : List (List ℕ × V))
      → HasUniqueKeys d
      → lookup j (remove_key k d) ≡ (if bytes_eq k j then none else lookup j d)
  unfolding lookup remove_key HasUniqueKeys
  lookup-remove_key j k [] u = ground arith
  lookup-remove_key j k ((i, w) ∷ d) (n, u) = ground (
    arith,
    n,
    bytes_eq_other i k j,
    bytes_eq_other i j k,
    bytes_eq_sym j k,
    lookup-same_key i j d,
    lookup-remove_key j k d u,
  )

  pub remove_key-HasUniqueKeys :
      (k : List ℕ) (d : List (List ℕ × V)) → HasUniqueKeys d → HasUniqueKeys (remove_key k d)
  unfolding lookup remove_key HasUniqueKeys
  remove_key-HasUniqueKeys k [] u = tt
  remove_key-HasUniqueKeys k ((i, w) ∷ d) (n, u) = elim (Bool-cases (bytes_eq i k)) [
    | inl same ↦ rw same u
    | inr other ↦
        let kept = remove_key-HasUniqueKeys k d u in
        rw other (ground (arith, other, n, lookup-remove_key i k d u), kept)
  ]
