-- ===== src/Core/Transaction.antt =====
-- neo/Core/TX/Transaction.py: the coins that a transaction takes and makes. A hash is its bytes, a Fixed8
-- its value.
pub mod Results
use neo_python.Prelude.{
  List, Option, [], bytes_eq, false, if◌then◌else◌, none, some, true, ℕ, ◌++◌, ◌∷◌,
}
use neo_python.Prelude.Int.{eqb_ℤ, negsuc, pos, ℤ, ◌*ℤ◌, ◌+ℤ◌, ◌-ℤ◌}

-- TransactionOutput
pub record TransactionOutput : Type 0 where
  pub asset_id : List ℕ
  pub value : ℤ
  pub output_script_hash : List ℕ

-- A TransactionResult, as its asset and its amount.
abbrev pub TransactionResult : Type 0
TransactionResult = List ℕ × ℤ

-- The results of the outputs that the inputs refer to, and those of the outputs of the transaction.
abbrev pub results_of : (ℤ → ℤ) → List TransactionOutput → List TransactionResult
results_of f [] = []
results_of f (output ∷ outputs) = (output.asset_id, f output.value) ∷ results_of f outputs

-- `if sum != Fixed8.Zero()`
abbrev pub add_result : List ℕ → ℤ → List TransactionResult → List TransactionResult
add_result key group_sum realresults =
    if eqb_ℤ group_sum (pos 0) then realresults else (key, group_sum) ∷ realresults

-- The loop over `groupby`, whose groups are the runs of neighbours of one asset: the asset of the open
-- group, its sum so far, and the results that are left.
unfoldable pub sum_groups : List ℕ → ℤ → List TransactionResult → List TransactionResult
sum_groups key group_sum [] = add_result key group_sum []
sum_groups key group_sum ((asset, amount) ∷ results) = elim (bytes_eq key asset) [
  | true ↦ sum_groups key (group_sum +ℤ amount) results
  | false ↦ add_result key group_sum (sum_groups asset (pos 0 +ℤ amount) results)
]

unfoldable pub group_results : List TransactionResult → List TransactionResult
group_results [] = []
group_results ((asset, amount) ∷ results) = sum_groups asset (pos 0 +ℤ amount) results

-- GetTransactionResults, of the values of References.
unfoldable pub get_transaction_results :
    Option (List TransactionOutput) → List TransactionOutput → Option (List TransactionResult)
get_transaction_results none outputs = none
get_transaction_results (some references) outputs =
    some (group_results (results_of (λ v. v) references ++ results_of (λ v. v *ℤ negsuc 0) outputs))

-- A loop of NetworkFee: the values of the system coin, added to a sum.
unfoldable pub add_values : List ℕ → ℤ → List TransactionOutput → ℤ
add_values system_coin so_far [] = so_far
add_values system_coin so_far (output ∷ outputs) =
    add_values system_coin
      (if bytes_eq output.asset_id system_coin then so_far +ℤ output.value else so_far) outputs

-- NetworkFee, of the values of References, the hash of the system coin and the system fee.
unfoldable pub network_fee : List ℕ → ℤ → List TransactionOutput → List TransactionOutput → ℤ
network_fee system_coin system_fee references outputs =
    add_values system_coin (pos 0) references
    -ℤ add_values system_coin (pos 0) outputs
    -ℤ system_fee
