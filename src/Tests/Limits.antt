-- ===== src/Tests/Limits.antt =====
-- The theorems of Libm at inputs that meet their hypotheses.
use wasm_cxx_shim.Prelude.{
  ℕ, ◌≤◌, ◌<◌, ◌+◌, ◌*◌, ◌/◌, ◌%◌, ◌^◌, ◌≡◌, inr, refl, ltb, ◌==◌, arith, if◌then◌else◌,
}
use wasm_cxx_shim.Prelude.Lists.{get_or}
use wasm_cxx_shim.Libm.Double.{
  sign_of, magnitude, is_nan, is_zero, inf_bits, nan_bits, one, power, neg, units,
}
use wasm_cxx_shim.Libm.Double.Value.{HasValue}
use wasm_cxx_shim.Libm.Rounding.{floor, ceil, round}
use wasm_cxx_shim.Libm.Rounding.Parts.{whole_up, whole_down, whole_away}
use wasm_cxx_shim.Libm.Rounding.Step.{unit}
use wasm_cxx_shim.Libm.Rounding.Round.{round_lem}
use wasm_cxx_shim.Libm.Rounding.Ceil.{floor-ceil_lem}
use wasm_cxx_shim.Libm.Pattern.{trunc, fmin, fmax}
use wasm_cxx_shim.Libm.Pattern.Choose.{fmin-fmax_lem}
use wasm_cxx_shim.Libm.Pattern.Trunc.Value.{trunc_lem}
use wasm_cxx_shim.Libm.Pow.{checkint, pow}
use wasm_cxx_shim.Libm.Pow.Parity.{kind_of}
use wasm_cxx_shim.Libm.Pow.Checkint.{checkint_lem}
use wasm_cxx_shim.Libm.Pow.Special.{special_result, pow_special_lem, pow_negative_base}
use wasm_cxx_shim.Libm.Sqrt.{mantissa}
use wasm_cxx_shim.Libm.Sqrt.Table.{Accurate, rsqrt_tab-Accurate}
use wasm_cxx_shim.Libm.Tables.Rsqrt.{rsqrt_tab}
use wasm_cxx_shim.Libm.Log.{log}
use wasm_cxx_shim.Libm.Log2.{log2}
use wasm_cxx_shim.Prelude.Int.{sub_ℕ}
use wasm_cxx_shim.Libm.Log10.{log10}
use wasm_cxx_shim.Libm.Log.Decimal.{logarithms_domain}
use wasm_cxx_shim.Libm.Pattern.{ilogb}
use wasm_cxx_shim.Libm.Pattern.Ilogb.{ilogb_lem}
use wasm_cxx_shim.Libm.Exp.{exp}
use wasm_cxx_shim.Libm.Exp.Range.{exp_range}

-- 3, 3.5 and -3.5.
abbrev three : ℕ
three = 0x4008000000000000

abbrev three_half : ℕ
three_half = 0x400c000000000000

abbrev minus_three_half : ℕ
minus_three_half = neg three_half

checkint_lem_example : checkint three ≡ kind_of 1074 (units three)
checkint_lem_example = checkint_lem three (omega arith) refl

trunc_lem_example :
    (sign_of (trunc minus_three_half) ≡ sign_of minus_three_half)
    × (units (trunc minus_three_half) ≡ units minus_three_half / 2 ^ 1074 * 2 ^ 1074)
trunc_lem_example = trunc_lem minus_three_half (omega arith)

rsqrt_tab-Accurate_example :
    Accurate (get_or rsqrt_tab (three / 2 ^ 46 % 128) 0) (mantissa three (three / 2 ^ 52))
rsqrt_tab-Accurate_example = rsqrt_tab-Accurate three

-- A negative zero to the power -3: an odd integer.
pow_special_lem_example : pow (neg 0) (neg three) ≡ special_result (neg 0) (neg three)
pow_special_lem_example = pow_special_lem (neg 0) (neg three) (omega arith) (omega arith) refl

three_half-fraction : kind_of 1074 (units three_half) ≡ 0
unfolding units
three_half-fraction = refl

pow_negative_base_example : pow minus_three_half three_half ≡ nan_bits
pow_negative_base_example =
    pow_negative_base minus_three_half three_half (omega arith) (omega arith) refl refl refl
      three_half-fraction

exp_range_example : exp (power 0x410) ≡ (
    if is_nan (power 0x410)
    then nan_bits
    else if ltb (magnitude (power 0x410)) one
    then one
    else if sign_of (power 0x410) == 0
    then inf_bits
    else 0)
exp_range_example = exp_range (power 0x410) (omega arith) (inr (omega arith))

-- The smallest subnormal number, 2 ^ -1074.
ilogb_lem_example : (n : ℕ) × (ilogb 1 ≡ sub_ℕ n 1074) × (2 ^ n ≤ units 1) × (units 1 < 2 ^ (n + 1))
ilogb_lem_example = ilogb_lem 1 (omega arith) refl

logarithms_domain_example :
    (log 0 ≡ (if is_zero 0 then neg inf_bits else if 0 == inf_bits then inf_bits else nan_bits))
    × (log2 0 ≡ (if is_zero 0 then neg inf_bits else if 0 == inf_bits then inf_bits else nan_bits))
    × (log10 0 ≡ (if is_zero 0 then neg inf_bits else if sign_of 0 == 0 then 0 else nan_bits))
logarithms_domain_example = logarithms_domain 0 (omega arith) refl

-- The two zeros.
fmin-fmax_lem_example : (fmin 0 (neg 0) ≡ neg 0) × (fmax 0 (neg 0) ≡ 0)
fmin-fmax_lem_example = fmin-fmax_lem 0 (neg 0) (omega arith) (omega arith)

floor-ceil_lem_example :
    HasValue (floor minus_three_half) 0 (whole_up unit (units minus_three_half))
    × HasValue (ceil minus_three_half) 0 (whole_down unit (units minus_three_half))
floor-ceil_lem_example = floor-ceil_lem minus_three_half (omega arith) (omega arith)

round_lem_example : HasValue (round minus_three_half) 0 (whole_away unit (units minus_three_half))
round_lem_example = round_lem minus_three_half (omega arith) (omega arith)
