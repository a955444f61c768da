-- ===== src/Libm/Log/Domain.antt =====
-- `log` and `log2` outside the positive finite numbers.
use wasm_cxx_shim.Prelude.{ℕ, ◌^◌, ◌<◌, ◌≡◌, false, ◌==◌, arith, if◌then◌else◌}
use wasm_cxx_shim.Libm.Double.{is_positive_finite, is_zero, inf_bits, nan_bits, neg}
use wasm_cxx_shim.Libm.Math.Results.{math_invalid_lem, math_divzero_minus}
use wasm_cxx_shim.Libm.Log.{log}
use wasm_cxx_shim.Libm.Log2.{log2}

pub log_domain :
    (x : ℕ)
    → x < 2 ^ 64
    → is_positive_finite x ≡ false
    → log x ≡ (if is_zero x then neg inf_bits else if x == inf_bits then inf_bits else nan_bits)
unfolding log
log_domain x h p = let bad = math_invalid_lem x h in let zero = math_divzero_minus in ground arith

pub log2_domain :
    (x : ℕ)
    → x < 2 ^ 64
    → is_positive_finite x ≡ false
    → log2 x ≡ (if is_zero x then neg inf_bits else if x == inf_bits then inf_bits else nan_bits)
unfolding log2
log2_domain x h p = let bad = math_invalid_lem x h in let zero = math_divzero_minus in ground arith
