-- ===== src/Core/Transaction/Results.antt =====
-- neo/Core/TX/Transaction.py: what the results of a transaction add up to.
use neo_python.Core.AccountState.Balances.{times_minus_one, zero_add}
use neo_python.Core.Transaction.{
  TransactionOutput, TransactionResult, add_result, get_transaction_results, group_results,
  results_of, sum_groups,
}
use neo_python.Prelude.{
  Bool, Bool-cases, List, [], ap, arith, bytes_eq, false, if◌then◌else◌, inl, inr, refl, some, sym,
  true, ℕ, ◌++◌, ◌∙◌, ◌∷◌, ◌≡◌,
}
use neo_python.Prelude.Dict.{bytes_eq_other}
use neo_python.Prelude.Int.{eq_of_parts, eqb_ℤ, int_laws, negsuc, pos, ℤ, ◌*ℤ◌, ◌+ℤ◌, ◌-ℤ◌}

-- The amount of one asset in some results.
unfoldable pub total_results : List ℕ → List TransactionResult → ℤ
total_results asset [] = pos 0
total_results asset ((key, amount) ∷ results) =
    (if bytes_eq key asset then amount else pos 0) +ℤ total_results asset results

-- The value of one asset in some outputs.
unfoldable pub total_outputs : List ℕ → List TransactionOutput → ℤ
total_outputs asset [] = pos 0
total_outputs asset (output ∷ outputs) =
    (if bytes_eq output.asset_id asset then output.value else pos 0) +ℤ total_outputs asset outputs

total_results-add_result :
    (asset key : List ℕ) (group_sum : ℤ) (results : List TransactionResult)
    → total_results asset (add_result key group_sum results)
      ≡ (if bytes_eq key asset then group_sum else pos 0) +ℤ total_results asset results
unfolding total_results
total_results-add_result asset key group_sum results = elim (Bool-cases (eqb_ℤ group_sum (pos 0))) [
  | inl nothing ↦
      let zero_sum : group_sum ≡ pos 0 = eq_of_parts group_sum (pos 0) (ground (arith, nothing)) in
      rw nothing (no_amount (bytes_eq key asset) group_sum (total_results asset results) zero_sum)
  | inr other ↦ rw other refl
]
  where
    no_amount : (b : Bool) (v t : ℤ) → v ≡ pos 0 → t ≡ (if b then v else pos 0) +ℤ t
    no_amount true v t h = sym (zero_add t) ∙ ap (λ z. z +ℤ t) (sym h)
    no_amount false v t h = sym (zero_add t)

total_results-sum_groups :
    (asset key : List ℕ) (group_sum : ℤ) (results : List TransactionResult)
    → total_results asset (sum_groups key group_sum results)
      ≡ (if bytes_eq key asset then group_sum else pos 0) +ℤ total_results asset results
unfolding total_results sum_groups
total_results-sum_groups asset key group_sum [] = total_results-add_result asset key group_sum []
total_results-sum_groups asset key group_sum ((k, v) ∷ results) =
    elim (Bool-cases (bytes_eq key k)) [
      | inl same ↦
          ap (λ b. total_results asset (step b)) same
          ∙ total_results-sum_groups asset key (group_sum +ℤ v) results
          ∙ joined (bytes_eq key asset) group_sum v (total_results asset results)
          ∙ ap
              (λ b.
                (if bytes_eq key asset then group_sum else pos 0)
                +ℤ ((if b then v else pos 0) +ℤ total_results asset results))
              (bytes_eq_other key k asset same)
      | inr other ↦
          ap (λ b. total_results asset (step b)) other
          ∙ total_results-add_result asset key group_sum (sum_groups k (pos 0 +ℤ v) results)
          ∙ ap (λ t. (if bytes_eq key asset then group_sum else pos 0) +ℤ t)
              (total_results-sum_groups asset k (pos 0 +ℤ v) results
                ∙ opened (bytes_eq k asset) v (total_results asset results))
    ]
  where
    step : Bool → List TransactionResult
    step b = elim b [
      | true ↦ sum_groups key (group_sum +ℤ v) results
      | false ↦ add_result key group_sum (sum_groups k (pos 0 +ℤ v) results)
    ]

    joined :
        (b : Bool) (x y t : ℤ)
        → (if b then x +ℤ y else pos 0) +ℤ t
          ≡ (if b then x else pos 0) +ℤ ((if b then y else pos 0) +ℤ t)
    joined true x y t = omega int_laws
    joined false x y t = omega int_laws

    opened :
        (b : Bool) (y t : ℤ)
        → (if b then pos 0 +ℤ y else pos 0) +ℤ t ≡ (if b then y else pos 0) +ℤ t
    opened true y t = omega int_laws
    opened false y t = refl

total_results-group_results :
    (asset : List ℕ) (results : List TransactionResult)
    → total_results asset (group_results results) ≡ total_results asset results
unfolding total_results group_results
total_results-group_results asset [] = refl
total_results-group_results asset ((k, v) ∷ results) =
    total_results-sum_groups asset k (pos 0 +ℤ v) results
    ∙ ap (λ w. (if bytes_eq k asset then w else pos 0) +ℤ total_results asset results) (zero_add v)

total_results-results_of :
    (asset : List ℕ) (references outputs : List TransactionOutput)
    → total_results asset
        (results_of (λ v. v) references ++ results_of (λ v. v *ℤ negsuc 0) outputs)
      ≡ total_outputs asset references -ℤ total_outputs asset outputs
unfolding total_results total_outputs
total_results-results_of asset [] [] = omega int_laws
total_results-results_of asset [] (o ∷ outputs) =
    rw (total_results-results_of asset [] outputs, times_minus_one o.value)
      (made (bytes_eq o.asset_id asset) o.value (total_outputs asset outputs))
  where
    made :
        (b : Bool) (y t : ℤ)
        → (if b then pos 0 -ℤ y else pos 0) +ℤ (pos 0 -ℤ t)
          ≡ pos 0 -ℤ ((if b then y else pos 0) +ℤ t)
    made true y t = omega int_laws
    made false y t = omega int_laws
total_results-results_of asset (r ∷ references) outputs =
    rw (total_results-results_of asset references outputs) (
      taken (if bytes_eq r.asset_id asset then r.value else pos 0) (total_outputs asset references)
        (total_outputs asset outputs))
  where
    taken : (x s t : ℤ) → x +ℤ (s -ℤ t) ≡ (x +ℤ s) -ℤ t
    taken x s t = omega int_laws

-- The results of a transaction add up, for every asset, to what its inputs refer to less what its
-- outputs make.
pub get_transaction_results-total :
    (asset : List ℕ) (references outputs : List TransactionOutput)
    → (results : List TransactionResult) × (get_transaction_results (some references) outputs
        ≡ some results)
      × (total_results asset results
          ≡ total_outputs asset references -ℤ total_outputs asset outputs)
unfolding get_transaction_results
get_transaction_results-total asset references outputs =
    let all = results_of (λ v. v) references ++ results_of (λ v. v *ℤ negsuc 0) outputs in
    (
      group_results all,
      refl,
      total_results-group_results asset all ∙ total_results-results_of asset references outputs,
    )
