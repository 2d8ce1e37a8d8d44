-- ===== src/Vm/Engine/Bounds.antt =====
-- neo/VM/ExecutionEngine.py: what CheckBigInteger decides.
-- `CheckBigInteger` accepts exactly the integers from -2^255 up to 2^255 - 1 but -2^248.
use neo_python.Core.BigInteger.Limits.{FitsBytes, length-to_byte_array_iff}
use neo_python.Prelude.{arith, true, ◌↔◌, ◌≡◌}
use neo_python.Prelude.Int.{ℤ}
use neo_python.Vm.Engine.Limits.{check_big_integer}

-- CheckBigInteger accepts exactly the integers from -2^255 up to 2^255 - 1 but -2^248.
pub check_big_integer_iff : (x : ℤ) → (check_big_integer x ≡ true) ↔ FitsBytes 31 x
unfolding check_big_integer
check_big_integer_iff x =
    let (to, from) = length-to_byte_array_iff 31 x in
    (λ h. to (ground (arith, h)), λ h. ground (arith, from h))
