-- ===== src/Core/SpentCoinState/RoundTrip.antt =====
-- neo/Core/State/SpentCoinState.py: what Serialize wrote, Deserialize reads.
use neo_python.Core.Io.Hex.{unhexlify}
use neo_python.Core.Io.Streams.{maxsize}
use neo_python.Core.Io.Trips.{AllTrips, Trips-all, Trips-last, Trips-next}
use neo_python.Core.Io.Trips.Values.{Trips-hash, Trips-length, Trips-uint, Trips-version}
use neo_python.Core.SpentCoinState.{
  SpentCoinItem, SpentCoinState, deserialize_spent, read_coin_item, serialize_spent,
  write_coin_item,
}
use neo_python.Prelude.{List, [], length, none, some, ℕ, ◌++◌, ◌<◌, ◌^◌, ◌∷◌, ◌≡◌, ◌≤◌}

-- Items whose index and height fit their bytes.
abbrev pub AllFit : List SpentCoinItem → Type 0
AllFit [] = Unit
AllFit (i ∷ items) = (i.index < 256 ^ 2) × (i.height < 256 ^ 4) × AllFit items

items-AllTrips :
    (items : List SpentCoinItem) → AllFit items → AllTrips write_coin_item read_coin_item items
items-AllTrips [] a = tt
items-AllTrips (i ∷ items) (h, g, a) = (
  Trips-next _ (Trips-uint 2 i.index h) (
      Trips-last (λ height. record { index = i.index; height = height }) (Trips-uint 4 i.height g)),
  items-AllTrips items a,
)

-- A SpentCoinState that Serialize wrote, Deserialize reads, and nothing more of the stream.
-- Condition: the hash has 32 bytes that are not the digits of a hexadecimal text, and the height,
-- the count of the items and their indexes and heights fit their fields.
pub deserialize_spent-serialize_spent :
    (state : SpentCoinState) (rest : List ℕ)
    → length state.transaction_hash ≡ 32
    → unhexlify state.transaction_hash ≡ none
    → state.transaction_height < 256 ^ 4
    → length state.coin_items ≤ maxsize
    → AllFit state.coin_items
    → (bytes : List ℕ) × (serialize_spent state ≡ some bytes)
      × (deserialize_spent (bytes ++ rest) ≡ some (state, rest))
unfolding serialize_spent deserialize_spent
deserialize_spent-serialize_spent state rest size raw height room fit =
    let trip = Trips-next _ Trips-version (
      Trips-next _ (Trips-hash 32 state.transaction_hash size raw) (
        Trips-next _ (Trips-uint 4 state.transaction_height height) (
          Trips-next _ (Trips-length (length state.coin_items) room) (
            Trips-last
              (λ items. record {
                transaction_hash = state.transaction_hash;
                transaction_height = state.transaction_height;
                coin_items = items;
              })
              (Trips-all write_coin_item read_coin_item state.coin_items
                (items-AllTrips state.coin_items fit)))))) in
    (trip.bytes, trip.wrote, trip.reads rest)
