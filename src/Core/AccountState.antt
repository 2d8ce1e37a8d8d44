-- ===== src/Core/AccountState.antt =====
-- neo/Core/State/AccountState.py: the balances of an account, by the bytes of the asset's id. A Fixed8 is
-- its value.
pub mod Balances
pub mod Serial
pub mod RoundTrip
use neo_python.Prelude.{Bool, List, [], false, if◌then◌else◌, none, some, true, ℕ, ◌∷◌}
use neo_python.Prelude.Dict.{insert_key, lookup}
use neo_python.Prelude.Int.{ltb_ℤ, negsuc, pos, ℤ, ◌*ℤ◌, ◌+ℤ◌, ◌-ℤ◌}

-- AccountState. The votes are encoded points.
pub record AccountState : Type 0 where
  pub script_hash : List ℕ
  pub is_frozen : Bool
  pub votes : List (List ℕ)
  pub balances : List (List ℕ × ℤ)

-- HasBalance
unfoldable pub has_balance : List ℕ → AccountState → Bool
has_balance asset a = elim (lookup asset a.balances) [ none ↦ false | some v ↦ true ]

-- BalanceFor
unfoldable pub balance_for : List ℕ → AccountState → ℤ
balance_for asset a = elim (lookup asset a.balances) [ none ↦ pos 0 | some v ↦ v ]

-- SetBalanceFor
unfoldable pub set_balance_for : List ℕ → ℤ → AccountState → AccountState
set_balance_for asset v a = record a { balances = insert_key asset v a.balances }

-- AddToBalance
unfoldable pub add_to_balance : List ℕ → ℤ → AccountState → AccountState
add_to_balance asset v a = elim (lookup asset a.balances) [
  | none ↦ record a { balances = insert_key asset v a.balances }
  | some old ↦ record a { balances = insert_key asset (old +ℤ v) a.balances }
]

-- SubtractFromBalance
unfoldable pub subtract_from_balance : List ℕ → ℤ → AccountState → AccountState
subtract_from_balance asset v a = elim (lookup asset a.balances) [
  | none ↦ record a { balances = insert_key asset (v *ℤ negsuc 0) a.balances }
  | some old ↦ record a { balances = insert_key asset (old -ℤ v) a.balances }
]

-- AllBalancesZeroOrLess
abbrev pub none_positive : List (List ℕ × ℤ) → Bool
none_positive [] = true
none_positive ((asset, v) ∷ d) = if ltb_ℤ (pos 0) v then false else none_positive d

unfoldable pub all_balances_zero_or_less : AccountState → Bool
all_balances_zero_or_less a = none_positive a.balances

-- Clone: the new account has the votes and the balances of this one.
abbrev pub clone_account : AccountState → AccountState
clone_account a = record {
  script_hash = a.script_hash;
  is_frozen = a.is_frozen;
  votes = a.votes;
  balances = a.balances;
}

-- FromReplica: what the account is after the call, which makes a new one.
abbrev pub from_replica : AccountState → AccountState → AccountState
from_replica a replica = a
