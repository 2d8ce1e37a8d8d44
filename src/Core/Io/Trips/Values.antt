-- ===== src/Core/Io/Trips/Values.antt =====
-- neo/Core/IO: what single writes wrote, single reads read.
use neo_python.Core.BigInteger.{le_bytes}
use neo_python.Core.Io.BinaryReader.{
  read_bool, read_bytes_of, read_uint_base, read_var_int, unpack_uint,
}
use neo_python.Core.Io.BinaryWriter.{write_bool, write_bytes, write_uint, write_var_int}
use neo_python.Core.Io.Hex.{digit_value, join_digits, unhexlify}
use neo_python.Core.Io.RoundTrip.{read_var_int-write_var_int, take_exact, unpack_uint-le_bytes}
use neo_python.Core.Io.Streams.{maxsize, read_version, write_version}
use neo_python.Core.Io.Trips.{Trips}
use neo_python.Prelude.{
  Bool, List, Option, [], arith, false, length, ltb, none, refl, some, suc, true, zero, ℕ, ◌*◌, ◌+◌,
  ◌<◌, ◌==◌, ◌^◌, ◌∷◌, ◌≡◌, ◌≤◌,
}
use neo_python.Prelude.Int.{pos}

-- A number of some bytes.
pub Trips-uint : (size n : ℕ) → n < 256 ^ size → Trips (write_uint size n) (unpack_uint size) n
unfolding write_uint
Trips-uint size n h =
    let room : ltb n (256 ^ size) ≡ true = ground (arith, h) in
    record {
      bytes = le_bytes size n;
      wrote = rw room refl;
      reads = λ rest. unpack_uint-le_bytes size n rest h;
    }

-- A length.
pub Trips-length : (n : ℕ) → n ≤ maxsize → Trips (write_var_int (pos n)) (read_var_int maxsize) n
Trips-length n h =
    let (bytes, p, q) = read_var_int-write_var_int n maxsize (ground (arith, h)) h in
    record { bytes = bytes; wrote = p; reads = q }

-- A hash, that is not hexadecimal text.
pub Trips-hash :
    (size : ℕ) (value : List ℕ)
    → length value ≡ size
    → unhexlify value ≡ none
    → Trips (some (write_bytes value true)) (read_uint_base size) value
unfolding write_bytes read_uint_base
Trips-hash size value h raw = record {
  bytes = value;
  wrote = rw raw refl;
  reads = λ rest.
      let (p, q) = take_exact size value rest h in
      let whole : (length value == size) ≡ true = ground (arith, h) in rw (p, q, whole) refl;
}

-- The version of a state.
pub Trips-version : Trips write_version read_version 0
unfolding read_version
Trips-version = record { bytes = 0 ∷ []; wrote = refl; reads = λ rest. refl }

-- A flag.
pub Trips-bool : (b : Bool) → Trips (some (write_bool b)) read_bool b
unfolding read_bool
Trips-bool true = record { bytes = 1 ∷ []; wrote = refl; reads = λ rest. refl }
Trips-bool false = record { bytes = 0 ∷ []; wrote = refl; reads = λ rest. refl }

join_digits-none : (a b : Option ℕ) → join_digits a b none ≡ none
join_digits-none none none = refl
join_digits-none none (some b) = refl
join_digits-none (some a) none = refl
join_digits-none (some a) (some b) = refl

-- Bytes of an odd number are not hexadecimal.
pub unhexlify_odd : (k : ℕ) (value : List ℕ) → length value ≡ 2 * k + 1 → unhexlify value ≡ none
unfolding unhexlify
unhexlify_odd k [] h = absurd (omega (arith, h))
unhexlify_odd k (a ∷ []) h = refl
unhexlify_odd zero (a ∷ b ∷ value) h = absurd (omega (arith, h))
unhexlify_odd (suc k) (a ∷ b ∷ value) h =
    rw (unhexlify_odd k value (omega (arith, h))) (join_digits-none (digit_value a) (digit_value b))

-- Bytes that are read with their number known.
pub Trips-raw :
    (size : ℕ) (value : List ℕ)
    → length value ≡ size
    → unhexlify value ≡ none
    → Trips (some (write_bytes value true)) (λ s. some (read_bytes_of size s)) value
unfolding write_bytes
Trips-raw size value h raw = record {
  bytes = value;
  wrote = rw raw refl;
  reads = λ rest. let (p, q) = take_exact size value rest h in rw (p, q) refl;
}
