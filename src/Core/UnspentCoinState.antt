-- ===== src/Core/UnspentCoinState.antt =====
-- neo/Core/State/UnspentCoinState.py: the states of a transaction's outputs, as flags of CoinState.
pub mod Marks
use neo_python.Core.Io.BinaryReader.{read_var_int, unpack_uint}
use neo_python.Core.Io.BinaryWriter.{write_byte, write_var_int}
use neo_python.Core.Io.Streams.{
  Reader, maxsize, read_many, read_version, write_all, write_version, ◌&◌, ◌▷◌,
}
use neo_python.Prelude.{
  Bool, List, Option, [], false, if◌then◌else◌, length, replicate, suc, true, zero, ℕ, ◌==◌, ◌∷◌,
}
use neo_python.Prelude.Int.{pos}
use Prim.Native.Nat.{bit_or}

-- CoinState.Confirmed
abbrev pub confirmed : ℕ
confirmed = 1

-- FromTXOutputsConfirmed, of the number of outputs.
abbrev pub from_tx_outputs_confirmed : ℕ → List ℕ
from_tx_outputs_confirmed outputs = replicate outputs confirmed

-- IsAllSpent
unfoldable pub is_all_spent : List ℕ → Bool
is_all_spent [] = true
is_all_spent (item ∷ items) = if item == confirmed then false else is_all_spent items

-- OrEqValueForItemAt: the list is filled up with zeros to the index.
unfoldable pub or_eq_value_for_item_at : ℕ → ℕ → List ℕ → List ℕ
or_eq_value_for_item_at zero value [] = bit_or 0 value ∷ []
or_eq_value_for_item_at zero value (item ∷ items) = bit_or item value ∷ items
or_eq_value_for_item_at (suc index) value [] = 0 ∷ or_eq_value_for_item_at index value []
or_eq_value_for_item_at (suc index) value (item ∷ items) =
    item ∷ or_eq_value_for_item_at index value items

-- Serialize: to_bytes raises for an item of more than one byte.
unfoldable pub serialize_unspent : List ℕ → Option (List ℕ)
serialize_unspent items =
    write_version & write_var_int (pos (length items)) & write_all write_byte items

-- Deserialize. SafeReadBytes of one byte and struct.unpack raise for the end of the stream alike.
unfoldable pub deserialize_unspent : Reader (List ℕ)
deserialize_unspent =
    read_version ▷ λ version. read_var_int maxsize ▷ λ blen. read_many (unpack_uint 1) blen
