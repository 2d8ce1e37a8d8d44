-- ===== src/Core/UnspentCoinState/Marks.antt =====
-- neo/Core/State/UnspentCoinState.py: what marking an output does to the others, and the binary form.
use neo_python.Core.BigInteger.{from_le}
use neo_python.Core.Io.BinaryReader.{unpack_uint}
use neo_python.Core.Io.BinaryWriter.{write_byte}
use neo_python.Core.Io.Hex.{AllBytes}
use neo_python.Core.Io.Streams.{maxsize}
use neo_python.Core.Io.Trips.{AllTrips, Trips-all, Trips-next}
use neo_python.Core.Io.Trips.Values.{Trips-length, Trips-version}
use neo_python.Core.UnspentCoinState.{
  deserialize_unspent, or_eq_value_for_item_at, serialize_unspent,
}
use neo_python.Prelude.{
  List, [], ap, arith, get_elem?, if◌then◌else◌, length, ltb, none, refl, some, suc, true, zero, ℕ,
  ◌*◌, ◌++◌, ◌+◌, ◌==◌, ◌∷◌, ◌≡◌, ◌≤◌,
}
use Prim.Native.Nat.{bit_or}

-- The flags of an output, 0 where there are none.
abbrev flags_of : List ℕ → ℕ → ℕ
flags_of items index = elim (get_elem? items index) [ none ↦ 0 | some item ↦ item ]

-- Marking an output adds the value to its flags, those of an output behind the end counting as 0, and leaves
-- the flags of the others.
or_eq_value_for_item_at_lem :
    (index j value : ℕ) (items : List ℕ)
    → flags_of (or_eq_value_for_item_at index value items) j
      ≡ (if index == j then bit_or (flags_of items index) value else flags_of items j)
unfolding or_eq_value_for_item_at
or_eq_value_for_item_at_lem zero zero value [] = ground arith
or_eq_value_for_item_at_lem zero (suc j) value [] = ground arith
or_eq_value_for_item_at_lem zero zero value (item ∷ items) = ground arith
or_eq_value_for_item_at_lem zero (suc j) value (item ∷ items) = ground arith
or_eq_value_for_item_at_lem (suc index) zero value [] = ground arith
or_eq_value_for_item_at_lem (suc index) (suc j) value [] =
    ground (arith, or_eq_value_for_item_at_lem index j value [])
or_eq_value_for_item_at_lem (suc index) zero value (item ∷ items) = ground arith
or_eq_value_for_item_at_lem (suc index) (suc j) value (item ∷ items) =
    ground (arith, or_eq_value_for_item_at_lem index j value items)

items-AllTrips : (items : List ℕ) → AllBytes items → AllTrips write_byte (unpack_uint 1) items
unfolding unpack_uint from_le
items-AllTrips [] a = tt
items-AllTrips (item ∷ items) (h, a) =
    let room : ltb item 256 ≡ true = ground (arith, h) in
    let same : item + 256 * 0 ≡ item = omega arith in
    (
      record {
        bytes = item ∷ [];
        wrote = rw room refl;
        reads = λ rest. ap (λ n. some (n, rest)) same;
      },
      items-AllTrips items a,
    )

-- A state that Serialize wrote, Deserialize reads, and nothing more of the stream.
deserialize_unspent-serialize_unspent :
    (items : List ℕ) (rest : List ℕ)
    → AllBytes items
    → length items ≤ maxsize
    → (bytes : List ℕ) × (serialize_unspent items ≡ some bytes)
      × (deserialize_unspent (bytes ++ rest) ≡ some (items, rest))
unfolding serialize_unspent deserialize_unspent
deserialize_unspent-serialize_unspent items rest a room =
    let trip = Trips-next _ Trips-version (
      Trips-next _ (Trips-length (length items) room)
        (Trips-all write_byte (unpack_uint 1) items (items-AllTrips items a))) in
    (trip.bytes, trip.wrote, trip.reads rest)
