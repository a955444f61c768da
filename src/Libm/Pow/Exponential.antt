-- ===== src/Libm/Pow/Exponential.antt =====
-- `specialcase` and `exp_inline` of libm/src/musl/pow.c, with `WANT_ROUNDING` 0.
use wasm_cxx_shim.Prelude.{
  ℕ, ◌+◌, ◌-◌, ◌*◌, ◌/◌, ◌%◌, ◌^◌, Bool, true, false, leb, ◌==◌, if◌then◌else◌,
}
use wasm_cxx_shim.Prelude.Lists.{get_or}
use wasm_cxx_shim.Libm.Double.{sign_of, power, one, neg, less, equal, ◌⊕◌, ◌⊖◌, ◌⊗◌}
use wasm_cxx_shim.Libm.Math.{sub32, sub64, math_oflow, math_uflow}
use wasm_cxx_shim.Libm.Pattern.{fabs}
use wasm_cxx_shim.Libm.Tables.Scalars.{inv_ln2_n, neg_ln2_hi_n, neg_ln2_lo_n, exp_shift, exp_poly}
use wasm_cxx_shim.Libm.Tables.ExpTab.{exp_tab}

-- The `y` of `specialcase` for `k < 0`, before it is scaled into the subnormal range.
unfoldable pub subnormal_part : ℕ → ℕ → ℕ
subnormal_part scale tmp =
    let y = scale ⊕ scale ⊗ tmp in
    if less (fabs y) one
    then (let unit = if less y 0 then neg one else one in
        let lo = scale ⊖ y ⊕ scale ⊗ tmp in
        let hi = unit ⊕ y in
        let lo' = unit ⊖ hi ⊕ y ⊕ lo in
        let y' = hi ⊕ lo' ⊖ unit in if equal y' 0 then scale / 2 ^ 63 * 2 ^ 63 else y')
    else y

unfoldable pub specialcase : ℕ → ℕ → ℕ → ℕ
specialcase tmp sbits ki =
    if ki / 2 ^ 31 % 2 == 0
    then (let scale = sub64 sbits (1009 * 2 ^ 52) in power (0x3ff + 1009) ⊗ (scale ⊕ scale ⊗ tmp))
    else let scale = (sbits + 1022 * 2 ^ 52) % 2 ^ 64 in power 1 ⊗ subnormal_part scale tmp

-- `exp_inline` from the argument reduction on; `large` is `abstop == 0`.
unfoldable pub exp_reduced : ℕ → ℕ → ℕ → Bool → ℕ
exp_reduced x xtail sign_bias large =
    let z = inv_ln2_n ⊗ x in
    let ki = z ⊕ exp_shift in
    let kd = ki ⊖ exp_shift in
    let r = x ⊕ kd ⊗ neg_ln2_hi_n ⊕ kd ⊗ neg_ln2_lo_n ⊕ xtail in
    let idx = 2 * (ki % 128) in
    let top = (ki + sign_bias) * 2 ^ 45 % 2 ^ 64 in
    let tail = get_or exp_tab idx 0 in
    let sbits = (get_or exp_tab (idx + 1) 0 + top) % 2 ^ 64 in
    let r2 = r ⊗ r in
    let c2 = get_or exp_poly 0 0 in
    let c3 = get_or exp_poly 1 0 in
    let c4 = get_or exp_poly 2 0 in
    let c5 = get_or exp_poly 3 0 in
    let tmp = tail ⊕ r ⊕ r2 ⊗ (c2 ⊕ r ⊗ c3) ⊕ r2 ⊗ r2 ⊗ (c4 ⊕ r ⊗ c5) in
    if large then specialcase tmp sbits ki else sbits ⊕ sbits ⊗ tmp

unfoldable pub exp_inline : ℕ → ℕ → ℕ → ℕ
exp_inline x xtail sign_bias =
    let abstop = x / 2 ^ 52 % 2 ^ 11 in
    let above = sub32 abstop (0x3ff - 54) in
    if leb (0x3ff + 9 - (0x3ff - 54)) above
    then (if leb 0x80000000 above
        then (if sign_bias == 0 then one else neg one)
        else if leb (0x3ff + 10) abstop
        then (if sign_of x == 0 then math_oflow sign_bias else math_uflow sign_bias)
        else exp_reduced x xtail sign_bias true)
    else exp_reduced x xtail sign_bias false
