-- ===== src/Core/SpentCoinState.antt =====
-- neo/Core/State/SpentCoinState.py: the outputs of a transaction that were spent. A hash is its bytes.
pub mod Indices
pub mod RoundTrip
use neo_python.Core.Io.BinaryReader.{read_uint_base, read_var_int, unpack_uint}
use neo_python.Core.Io.BinaryWriter.{write_bytes, write_uint, write_var_int}
use neo_python.Core.Io.Streams.{
  Reader, maxsize, read_many, read_version, result, write_all, write_version, ◌&◌, ◌▷◌,
}
use neo_python.Prelude.{
  Bool, List, Option, [], false, if◌then◌else◌, length, some, true, ℕ, ◌==◌, ◌||◌, ◌∷◌,
}
use neo_python.Prelude.Int.{pos}
use neo_python.Vm.StackItem.Equality.{hash}

-- SpentCoinItem
pub record SpentCoinItem : Type 0 where
  pub index : ℕ
  pub height : ℕ

-- SpentCoinState. The fields Output, StartHeight and EndHeight, which nothing sets, are left out.
pub record SpentCoinState : Type 0 where
  pub transaction_hash : List ℕ
  pub transaction_height : ℕ
  pub coin_items : List SpentCoinItem

-- HasIndex
unfoldable pub coin_has_index : ℕ → List SpentCoinItem → Bool
coin_has_index index [] = false
coin_has_index index (i ∷ items) = i.index == index || coin_has_index index items

-- DeleteIndex takes the last item of the index away. `remove` looks for the item itself; no item stands in
-- the list twice.
unfoldable pub delete_last : ℕ → List SpentCoinItem → List SpentCoinItem
delete_last index [] = []
delete_last index (i ∷ items) =
    let rest = delete_last index items in
    if coin_has_index index items then i ∷ rest else if i.index == index then items else i ∷ items

unfoldable pub delete_index : ℕ → SpentCoinState → SpentCoinState
delete_index index state = record state { coin_items = delete_last index state.coin_items }

-- The items that Serialize writes and Deserialize reads.
abbrev pub write_coin_item : SpentCoinItem → Option (List ℕ)
write_coin_item item = write_uint 2 item.index & write_uint 4 item.height

abbrev pub read_coin_item : Reader SpentCoinItem
read_coin_item = unpack_uint 2 ▷ λ index.
    unpack_uint 4 ▷ λ height. result (record { index = index; height = height })

-- Serialize. UIntBase.Serialize writes by WriteBytes, which takes text of hexadecimal digits for hexadecimal.
unfoldable pub serialize_spent : SpentCoinState → Option (List ℕ)
serialize_spent state =
    write_version
    & some (write_bytes state.transaction_hash true)
    & write_uint 4 state.transaction_height
    & write_var_int (pos (length state.coin_items))
    & write_all write_coin_item state.coin_items

-- Deserialize
unfoldable pub deserialize_spent : Reader SpentCoinState
deserialize_spent = read_version ▷ λ version. read_uint_base 32 ▷ λ hash. unpack_uint 4 ▷ λ height.
    read_var_int maxsize ▷ λ count. read_many read_coin_item count ▷ λ items.
    result (record { transaction_hash = hash; transaction_height = height; coin_items = items })
