-- ===== src/Libm/Sqrt/Domain.antt =====
-- `sqrt` outside the positive finite numbers.
use wasm_cxx_shim.Prelude.{ℕ, ◌^◌, ◌<◌, ◌≡◌, false, ◌||◌, ◌==◌, arith, if◌then◌else◌}
use wasm_cxx_shim.Libm.Double.{is_positive_finite, is_zero, inf_bits, nan_bits}
use wasm_cxx_shim.Libm.Math.Results.{math_invalid_lem}
use wasm_cxx_shim.Libm.Sqrt.{sqrt}

-- For a 64-bit pattern outside the positive finite numbers, sqrt returns a zero and infinity as they
-- are, and a NaN for a negative number, minus infinity and a NaN.
pub sqrt_domain :
    (x : ℕ)
    → x < 2 ^ 64
    → is_positive_finite x ≡ false
    → sqrt x ≡ (if is_zero x || x == inf_bits then x else nan_bits)
unfolding sqrt
sqrt_domain x h p = let bad = math_invalid_lem x h in ground arith
