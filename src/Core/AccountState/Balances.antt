-- ===== src/Core/AccountState/Balances.antt =====
-- neo/Core/State/AccountState.py: what changing the balance of one asset does to the balances.
use neo_python.Core.AccountState.{AccountState, add_to_balance, balance_for, subtract_from_balance}
use neo_python.Prelude.{
  Bool, List, Option, ap, arith, bytes_eq, false, if◌then◌else◌, none, refl, some, sym, true, ℕ,
  ◌∙◌, ◌≡◌,
}
use neo_python.Prelude.Dict.{insert_key, lookup, lookup-insert_key}
use neo_python.Prelude.Int.{int_laws, negsuc, pos, ℤ, ◌*ℤ◌, ◌+ℤ◌, ◌-ℤ◌}

-- A balance after an asset's was changed.
balance-insert :
    (j k : List ℕ) (v : ℤ) (a : AccountState)
    → balance_for j (record a { balances = insert_key k v a.balances })
      ≡ (if bytes_eq k j then v else balance_for j a)
unfolding balance_for
balance-insert j k v a =
    ap (λ o. elim o [ none ↦ pos 0 | some w ↦ w ]) (lookup-insert_key j k v a.balances)
    ∙ go (bytes_eq k j)
  where
    go :
        (b : Bool)
        → elim (if b then some v else lookup j a.balances) [ none ↦ pos 0 | some w ↦ w ]
          ≡ (if b then v else elim (lookup j a.balances) [ none ↦ pos 0 | some w ↦ w ])
    go true = refl
    go false = refl

pub zero_add : (v : ℤ) → pos 0 +ℤ v ≡ v
zero_add v = omega int_laws

pub times_minus_one : (v : ℤ) → v *ℤ negsuc 0 ≡ pos 0 -ℤ v
unfolding ◌*ℤ◌ ◌-ℤ◌ ◌+ℤ◌
times_minus_one (pos n) = ground arith
times_minus_one (negsuc n) = ground arith

-- AddToBalance adds the value to the balance of the asset, an absent one counting as 0, and
-- leaves the balances of the others.
pub add_to_balance_lem :
    (j k : List ℕ) (v : ℤ) (a : AccountState)
    → balance_for j (add_to_balance k v a)
      ≡ (if bytes_eq k j then balance_for k a +ℤ v else balance_for j a)
unfolding add_to_balance balance_for
add_to_balance_lem j k v a = go (lookup k a.balances)
  where
    changed : Option ℤ → AccountState
    changed o = elim o [
      | none ↦ record a { balances = insert_key k v a.balances }
      | some old ↦ record a { balances = insert_key k (old +ℤ v) a.balances }
    ]

    go :
        (o : Option ℤ)
        → balance_for j (changed o) ≡ (
            if bytes_eq k j then elim o [ none ↦ pos 0 | some old ↦ old ] +ℤ v else balance_for j a)
    go none =
        balance-insert j k v a
        ∙ ap (λ z. if bytes_eq k j then z else balance_for j a) (sym (zero_add v))
    go (some old) = balance-insert j k (old +ℤ v) a

-- SubtractFromBalance takes the value from the balance of the asset, an absent one counting as 0, and
-- leaves the balances of the others.
pub subtract_from_balance_lem :
    (j k : List ℕ) (v : ℤ) (a : AccountState)
    → balance_for j (subtract_from_balance k v a)
      ≡ (if bytes_eq k j then balance_for k a -ℤ v else balance_for j a)
unfolding subtract_from_balance balance_for
subtract_from_balance_lem j k v a = go (lookup k a.balances)
  where
    changed : Option ℤ → AccountState
    changed o = elim o [
      | none ↦ record a { balances = insert_key k (v *ℤ negsuc 0) a.balances }
      | some old ↦ record a { balances = insert_key k (old -ℤ v) a.balances }
    ]

    go :
        (o : Option ℤ)
        → balance_for j (changed o) ≡ (
            if bytes_eq k j then elim o [ none ↦ pos 0 | some old ↦ old ] -ℤ v else balance_for j a)
    go none =
        balance-insert j k (v *ℤ negsuc 0) a
        ∙ ap (λ z. if bytes_eq k j then z else balance_for j a) (times_minus_one v)
    go (some old) = balance-insert j k (old -ℤ v) a
