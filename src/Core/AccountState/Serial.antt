-- ===== src/Core/AccountState/Serial.antt =====
-- neo/Core/State/AccountState.py: Serialize and Deserialize.
use neo_python.Core.AccountState.{AccountState}
use neo_python.Core.Io.BinaryReader.{
  read_bool, read_bytes_of, read_fixed8, read_uint_base, read_var_int,
}
use neo_python.Core.Io.BinaryWriter.{write_bool, write_bytes, write_int, write_var_int}
use neo_python.Core.Io.Streams.{
  Reader, maxsize, read_many, read_version, result, write_all, write_version, ◌&◌, ◌▷◌,
}
use neo_python.Prelude.{List, Option, [], length, some, true, ℕ, ◌∷◌}
use neo_python.Prelude.Dict.{insert_key}
use neo_python.Prelude.Int.{pos, ℤ}

-- A vote is an encoded point.
abbrev pub write_vote : List ℕ → Option (List ℕ)
write_vote vote = some (write_bytes vote true)

abbrev pub read_vote : Reader (List ℕ)
read_vote s = some (read_bytes_of 33 s)

-- WriteUInt256 of the asset's id, and WriteFixed8.
abbrev pub write_balance : List ℕ × ℤ → Option (List ℕ)
write_balance (asset, v) = some (write_bytes asset true) & write_int 8 v

abbrev pub read_balance : Reader (List ℕ × ℤ)
read_balance = read_uint_base 32 ▷ λ asset. read_fixed8 ▷ λ amount. result (asset, amount)

-- Serialize
unfoldable pub serialize_account : AccountState → Option (List ℕ)
serialize_account a =
    write_version
    & some (write_bytes a.script_hash true)
    & some (write_bool a.is_frozen)
    & write_var_int (pos (length a.votes))
    & write_all write_vote a.votes
    & write_var_int (pos (length a.balances))
    & write_all write_balance a.balances

-- `self.Balances[assetid] = amount`, for what was read.
unfoldable pub set_balances : List (List ℕ × ℤ) → List (List ℕ × ℤ) → List (List ℕ × ℤ)
set_balances [] d = d
set_balances ((asset, amount) ∷ items) d = set_balances items (insert_key asset amount d)

-- Deserialize, of a new account.
unfoldable pub deserialize_account : Reader AccountState
deserialize_account = read_version ▷ λ version. read_uint_base 20 ▷ λ script_hash.
    read_bool ▷ λ is_frozen. read_var_int maxsize ▷ λ num_votes.
    read_many read_vote num_votes ▷ λ votes. read_var_int maxsize ▷ λ num_balances.
    read_many read_balance num_balances ▷ λ items. result (record {
      script_hash = script_hash;
      is_frozen = is_frozen;
      votes = votes;
      balances = set_balances items [];
    })
