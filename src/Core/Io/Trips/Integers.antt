-- ===== src/Core/Io/Trips/Integers.antt =====
-- neo/Core/IO: numbers with a sign.
use neo_python.Core.BigInteger.{from_bytes, from_le, le_bytes}
use neo_python.Core.BigInteger.Bytes.{
  from_bytes_negative, from_bytes_unsigned, from_le-le_bytes, length-le_bytes,
}
use neo_python.Core.Io.BinaryReader.{unpack_int}
use neo_python.Core.Io.BinaryWriter.{write_int}
use neo_python.Core.Io.RoundTrip.{take_exact}
use neo_python.Core.Io.Trips.{Trips}
use neo_python.Prelude.{
  List, ap, arith, leb, length, ltb, refl, some, suc, true, ℕ, ◌*◌, ◌++◌, ◌-◌, ◌<◌, ◌==◌, ◌^◌, ◌∙◌,
  ◌≡◌, ◌≤◌,
}
use neo_python.Prelude.Int.{negsuc, pos, ℤ}

-- What the bytes of a number mean with a sign.
from_bytes-below : (size n : ℕ) → 2 * n < 256 ^ size → from_bytes (le_bytes size n) true ≡ pos n
from_bytes-below size n h =
    let same = from_le-le_bytes size n (omega (arith, h)) in
    let wide = length-le_bytes size n in
    from_bytes_unsigned (le_bytes size n) (rw (same, wide) h) ∙ ap (λ m. pos m) same

from_bytes-above :
    (size n : ℕ)
    → 1 ≤ size
    → 2 * suc n ≤ 256 ^ size
    → from_bytes (le_bytes size (256 ^ size - suc n)) true ≡ negsuc n
from_bytes-above size n some_size h =
    let m = 256 ^ size - suc n in
    let bytes = le_bytes size m in
    let same : from_le bytes ≡ m = from_le-le_bytes size m (omega (arith, h)) in
    let wide : length bytes ≡ size = length-le_bytes size m in
    let back : 256 ^ size - m ≡ suc n = omega (arith, h) in
    from_bytes_negative bytes (omega (arith, wide, some_size)) (rw (wide, same) (omega (arith, h)))
    ∙ rw (wide, same, back) refl

Trips-signed :
    (size : ℕ) (bytes : List ℕ) (v : ℤ)
    → length bytes ≡ size
    → from_bytes bytes true ≡ v
    → (rest : List ℕ) → unpack_int size (bytes ++ rest) ≡ some (v, rest)
unfolding unpack_int
Trips-signed size bytes v h same rest =
    let (p, q) = take_exact size bytes rest h in
    let whole : (length bytes == size) ≡ true = ground (arith, h) in rw (p, q, whole, same) refl

-- The numbers of two's complement.
abbrev pub FitsInt : ℕ → ℤ → Type 0
FitsInt size (pos n) = 2 * n < 256 ^ size
FitsInt size (negsuc n) = 2 * suc n ≤ 256 ^ size

pub Trips-int :
    (size : ℕ) (v : ℤ) → 1 ≤ size → FitsInt size v → Trips (write_int size v) (unpack_int size) v
unfolding write_int
Trips-int size (pos n) some_size h =
    let room : ltb (2 * n) (256 ^ size) ≡ true = ground (arith, h) in
    record {
      bytes = le_bytes size n;
      wrote = rw room refl;
      reads =
          Trips-signed size (le_bytes size n) (pos n) (length-le_bytes size n)
            (from_bytes-below size n h);
    }
Trips-int size (negsuc n) some_size h =
    let room : leb (2 * suc n) (256 ^ size) ≡ true = ground (arith, h) in
    let m = 256 ^ size - suc n in
    record {
      bytes = le_bytes size m;
      wrote = rw room refl;
      reads =
          Trips-signed size (le_bytes size m) (negsuc n) (length-le_bytes size m)
            (from_bytes-above size n some_size h);
    }
