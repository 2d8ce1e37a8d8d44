-- ===== src/Core/Tests.antt =====
-- neo/Core: the theorems on its parts at concrete inputs.
use neo_python.Core.AccountState.{AccountState}
use neo_python.Core.AccountState.RoundTrip.{
  AllAmounts, AllPoints, deserialize_account-serialize_account,
}
use neo_python.Core.AccountState.Serial.{deserialize_account, serialize_account}
use neo_python.Core.BigInteger.{from_bytes, from_le, to_byte_array, truediv}
use neo_python.Core.BigInteger.Limits.{FitsBytes, length-to_byte_array_iff}
use neo_python.Core.BigInteger.RoundTrip.{from_bytes-to_byte_array}
use neo_python.Core.Blockchain.{generated_amount, generated_by, generated_from}
use neo_python.Core.Blockchain.Claims.{generated_amount-raises, generated_amount-sum_blocks}
use neo_python.Core.Blockchain.Generation.{sum_blocks}
use neo_python.Core.Io.BinaryReader.{read_var_string}
use neo_python.Core.Io.BinaryWriter.{write_bytes, write_fixed_string, write_var_string}
use neo_python.Core.Io.Hex.{AllBytes, unhexlify}
use neo_python.Core.Io.RoundTrip.{read_var_string-write_var_string}
use neo_python.Core.MerkleTree.{
  MerkleTreeNode, build, depth, depth_first_search, inner, leaf, parents, root_of,
}
use neo_python.Core.MerkleTree.Depth.{root_of-depth}
use neo_python.Core.MerkleTree.Leaves.{contains, root_of-hashes}
use neo_python.Core.SpentCoinState.{SpentCoinState, deserialize_spent, serialize_spent}
use neo_python.Core.SpentCoinState.RoundTrip.{deserialize_spent-serialize_spent}
use neo_python.Core.Transaction.{
  TransactionOutput, TransactionResult, get_transaction_results, group_results, sum_groups,
}
use neo_python.Core.Transaction.Results.{
  get_transaction_results-total, total_outputs, total_results,
}
use neo_python.Core.UIntBase.{compare_to, parse_string, to_0x_string, to_string}
use neo_python.Core.UIntBase.Order.{compare_to_lem, sign_of}
use neo_python.Core.UIntBase.Text.{parse_string-to_string}
use neo_python.Prelude.{
  List, [], arith, length, none, refl, replicate, some, true, ℕ, ◌*◌, ◌++◌, ◌+◌, ◌-◌, ◌<◌, ◌^◌, ◌↔◌,
  ◌∷◌, ◌≡◌, ◌≤◌,
}
use neo_python.Prelude.Dict.{HasUniqueKeys, lookup}
use neo_python.Prelude.Int.{negsuc, pos, ◌*ℤ◌, ◌+ℤ◌, ◌-ℤ◌}

from_bytes-to_byte_array_example : from_bytes (to_byte_array (negsuc 255)) true ≡ negsuc 255
from_bytes-to_byte_array_example = from_bytes-to_byte_array (negsuc 255)

-- A negative dividend is rounded to a float.
negative_quotient : truediv (negsuc (2 ^ 60)) (pos 1) ≡ some (negsuc (2 ^ 60 - 1))
unfolding truediv
negative_quotient = refl

length-to_byte_array_iff_example : (length (to_byte_array (pos 200)) ≤ 2) ↔ FitsBytes 1 (pos 200)
length-to_byte_array_iff_example = length-to_byte_array_iff 1 (pos 200)

abbrev three_bytes : List ℕ
three_bytes = 7 ∷ 255 ∷ 48 ∷ []

three_bytes-AllBytes : AllBytes three_bytes
three_bytes-AllBytes = (omega arith, (omega arith, (omega arith, tt)))

read_var_string-write_var_string_example :
    (bytes : List ℕ) × (write_var_string three_bytes ≡ some bytes)
    × (read_var_string 16 (bytes ++ (1 ∷ [])) ≡ some (three_bytes, 1 ∷ []))
read_var_string-write_var_string_example =
    read_var_string-write_var_string three_bytes 16 (1 ∷ []) three_bytes-AllBytes (ground arith)
      (omega arith)

-- The string "ab" as fixed text is taken for hexadecimal.
write_fixed_string_ab : write_fixed_string (97 ∷ 98 ∷ []) 4 ≡ some (171 ∷ 0 ∷ 0 ∷ [])
unfolding write_fixed_string write_bytes unhexlify
write_fixed_string_ab = refl

parse_string-to_string_example :
    (parse_string 6 (to_string three_bytes) ≡ some three_bytes)
    × (parse_string 6 (to_0x_string three_bytes) ≡ some three_bytes)
parse_string-to_string_example = parse_string-to_string 3 three_bytes three_bytes-AllBytes refl

compare_to_lem_example :
    compare_to (9 ∷ three_bytes) (5 ∷ three_bytes)
    ≡ some (sign_of (from_le three_bytes) (from_le three_bytes))
compare_to_lem_example =
    compare_to_lem 9 5 three_bytes three_bytes refl three_bytes-AllBytes three_bytes-AllBytes

-- A stand-in for the hash: the first byte.
abbrev first_byte : List ℕ → List ℕ
first_byte [] = []
first_byte (b ∷ bs) = b ∷ []

abbrev three_hashes : List (List ℕ)
three_hashes = (1 ∷ []) ∷ (2 ∷ []) ∷ (3 ∷ []) ∷ []

root_of-hashes_example :
    (root : MerkleTreeNode) × (root_of first_byte three_hashes ≡ some root)
    × ((h : List ℕ) → contains h (depth_first_search root) ≡ contains h three_hashes)
root_of-hashes_example = root_of-hashes first_byte three_hashes (omega arith)

abbrev three_root : MerkleTreeNode
three_root =
    inner (1 ∷ []) (inner (1 ∷ []) (leaf (1 ∷ [])) (leaf (2 ∷ [])))
      (inner (3 ∷ []) (leaf (3 ∷ [])) (leaf (3 ∷ [])))

three_root-root_of : root_of first_byte three_hashes ≡ some three_root
unfolding root_of build parents
three_root-root_of = refl

root_of-depth_example : (k : ℕ) × (depth three_root ≡ k + 2) × (3 ≤ 2 * 2 ^ k) × (2 ^ k < 3)
root_of-depth_example =
    root_of-depth first_byte three_hashes three_root three_root-root_of (omega arith)

abbrev some_account : AccountState
some_account = record {
  script_hash = replicate 20 200;
  is_frozen = true;
  votes = replicate 33 2 ∷ [];
  balances = (replicate 32 199, pos 50) ∷ (replicate 32 201, negsuc 6) ∷ [];
}

some_account-AllPoints : AllPoints some_account.votes
some_account-AllPoints = (refl, tt)

some_account-AllAmounts : AllAmounts some_account.balances
unfolding unhexlify
some_account-AllAmounts = (refl, refl, ground arith, (refl, refl, ground arith, tt))

some_account-HasUniqueKeys : HasUniqueKeys some_account.balances
unfolding HasUniqueKeys lookup
some_account-HasUniqueKeys = (refl, (refl, tt))

some_account-raw : unhexlify some_account.script_hash ≡ none
unfolding unhexlify
some_account-raw = refl

deserialize_account-serialize_account_example :
    (bytes : List ℕ) × (serialize_account some_account ≡ some bytes)
    × (deserialize_account (bytes ++ (1 ∷ [])) ≡ some (some_account, 1 ∷ []))
deserialize_account-serialize_account_example =
    deserialize_account-serialize_account some_account (1 ∷ []) refl some_account-raw (omega arith)
      some_account-AllPoints (omega arith) some_account-AllAmounts some_account-HasUniqueKeys

generated_amount-sum_blocks_example :
    generated_amount 1999990 4000010 ≡ some (pos (sum_blocks 1999990 (4000010 - 1999990)))
generated_amount-sum_blocks_example =
    generated_amount-sum_blocks 1999990 4000010 (omega arith) (omega arith)

-- 10 blocks of 8, a whole interval of 7, and 10 blocks of 6.
generated_amount_run : generated_amount 1999990 4000010 ≡ some (pos 14000140)
unfolding generated_amount generated_from generated_by ◌*ℤ◌ ◌-ℤ◌ ◌+ℤ◌
generated_amount_run = refl

generated_amount-raises_example : generated_amount 5 46000000 ≡ none
generated_amount-raises_example = generated_amount-raises 5 46000000 (omega arith) (omega arith)

abbrev coin : ℕ → ℕ → TransactionOutput
coin asset value = record {
  asset_id = asset ∷ [];
  value = pos value;
  output_script_hash = replicate 20 0;
}

abbrev two_coins : List TransactionOutput
two_coins = coin 1 10 ∷ coin 2 5 ∷ []

get_transaction_results-total_example :
    (results : List TransactionResult) × (get_transaction_results (some two_coins) (coin 1 8 ∷ [])
      ≡ some results)
    × (total_results (1 ∷ []) results
        ≡ total_outputs (1 ∷ []) two_coins -ℤ total_outputs (1 ∷ []) (coin 1 8 ∷ []))
get_transaction_results-total_example =
    get_transaction_results-total (1 ∷ []) two_coins (coin 1 8 ∷ [])

-- The coins of one asset that are no neighbours give two results, where one of 0 would be left out.
results_apart :
    get_transaction_results (some two_coins) (coin 1 10 ∷ [])
    ≡ some ((1 ∷ [], pos 10) ∷ (2 ∷ [], pos 5) ∷ (1 ∷ [], negsuc 9) ∷ [])
unfolding get_transaction_results group_results sum_groups ◌+ℤ◌ ◌*ℤ◌
results_apart = refl

abbrev spent_state : SpentCoinState
spent_state = record {
  transaction_hash = replicate 32 0;
  transaction_height = 1000;
  coin_items = record { index = 1; height = 2000 } ∷ record { index = 3; height = 70000 } ∷ [];
}

spent_hash-raw : unhexlify spent_state.transaction_hash ≡ none
unfolding unhexlify
spent_hash-raw = refl

deserialize_spent-serialize_spent_example :
    (bytes : List ℕ) × (serialize_spent spent_state ≡ some bytes)
    × (deserialize_spent (bytes ++ (7 ∷ [])) ≡ some (spent_state, 7 ∷ []))
deserialize_spent-serialize_spent_example =
    deserialize_spent-serialize_spent spent_state (7 ∷ []) refl spent_hash-raw (omega arith)
      (ground arith) (omega arith, omega arith, (omega arith, omega arith, tt))
