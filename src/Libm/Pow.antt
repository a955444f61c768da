-- ===== src/Libm/Pow.antt =====
-- libm/src/musl/pow.c: `pow` and its tests of the arguments, without `__FP_FAST_FMA`, with
-- `WANT_ROUNDING` 0 and `issignaling_inline` 0.
pub mod Logarithm
pub mod Exponential
pub mod Integers
pub mod Parity
pub mod Checkint
pub mod Special
use wasm_cxx_shim.Prelude.{
  ℕ, ◌+◌, ◌-◌, ◌*◌, ◌/◌, ◌%◌, ◌^◌, bit_and, Bool, true, false, not, ◌&&◌, ◌||◌, leb, ltb, ◌==◌,
  if◌then◌else◌,
}
use wasm_cxx_shim.Libm.Double.{sign_of, exponent_of, inf_bits, power, one, neg, ◌⊕◌, ◌⊖◌, ◌⊗◌, ◌⊘◌}
use wasm_cxx_shim.Libm.Math.{sub32, sub64, math_invalid, math_oflow, math_uflow}
use wasm_cxx_shim.Libm.Pow.Logarithm.{log_inline}
use wasm_cxx_shim.Libm.Pow.Exponential.{exp_inline}

abbrev pub sign_bias_on : ℕ
sign_bias_on = 0x800 * 2 ^ 7

-- 0 for no integer, 1 for an odd one, 2 for an even one.
unfoldable pub checkint : ℕ → ℕ
checkint iy =
    let e = exponent_of iy in
    if ltb e 0x3ff
    then 0
    else if ltb (0x3ff + 52) e
    then 2
    else if not (bit_and iy (2 ^ (0x3ff + 52 - e) - 1) == 0)
    then 0
    else if not (bit_and iy (2 ^ (0x3ff + 52 - e)) == 0)
    then 1
    else 2

-- `2 * i - 1 >= 2 * asuint64(INFINITY) - 1`
unfoldable pub zeroinfnan : ℕ → Bool
zeroinfnan i = leb (2 * inf_bits - 1) (sub64 (2 * i % 2 ^ 64) 1)

-- The end of `pow`: the logarithm, the product with `y`, the exponential.
unfoldable pub pow_main : ℕ → ℕ → ℕ → ℕ
pow_main ix iy sign_bias =
    let (hi, lo) = log_inline ix in
    let yhi = iy / 2 ^ 27 * 2 ^ 27 in
    let ylo = iy ⊖ yhi in
    let lhi = hi / 2 ^ 27 * 2 ^ 27 in
    let llo = hi ⊖ lhi ⊕ lo in
    let ehi = yhi ⊗ lhi in let elo = ylo ⊗ lhi ⊕ iy ⊗ llo in exp_inline ehi elo sign_bias

-- `y` is 0, an infinity or a NaN.
unfoldable pub pow_special_y : ℕ → ℕ → ℕ
pow_special_y ix iy =
    let ix2 = 2 * ix % 2 ^ 64 in
    let iy2 = 2 * iy % 2 ^ 64 in
    if iy2 == 0
    then one
    else if ix == one
    then one
    else if ltb (2 * inf_bits) ix2 || ltb (2 * inf_bits) iy2
    then ix ⊕ iy
    else if ix2 == 2 * one
    then one
    else if (if ltb ix2 (2 * one) then sign_of iy == 0 else not (sign_of iy == 0))
    then 0
    else iy ⊗ iy

-- `x` is 0, an infinity or a NaN.
unfoldable pub pow_special_x : ℕ → ℕ → ℕ
pow_special_x ix iy =
    let square = ix ⊗ ix in
    let x2 = if not (sign_of ix == 0) && checkint iy == 1 then neg square else square in
    if sign_of iy == 0 then x2 else one ⊘ x2

-- Finite arguments that are not 0, with the sign of `x` taken off `ix` and that of the result in
-- `sign_bias`. The source scales `x` itself and takes the sign off after.
unfoldable pub pow_finite : ℕ → ℕ → ℕ → ℕ
pow_finite ix iy sign_bias =
    let topy = iy / 2 ^ 52 in
    if leb (0x43e - 0x3be) (sub32 (topy % 2 ^ 11) 0x3be)
    then (if ix == one
        then one
        else if ltb (topy % 2 ^ 11) 0x3be
        then one
        else if (if ltb one ix then ltb topy 0x800 else not (ltb topy 0x800))
        then math_oflow 0
        else math_uflow 0)
    else if ix / 2 ^ 52 == 0
    then pow_main (sub64 ((ix ⊗ power (0x3ff + 52)) % 2 ^ 63) (52 * 2 ^ 52)) iy sign_bias
    else pow_main ix iy sign_bias

unfoldable pub pow : ℕ → ℕ → ℕ
pow ix iy =
    let topx = ix / 2 ^ 52 in
    let topy = iy / 2 ^ 52 in
    if leb (0x7ff - 0x001) (sub32 topx 0x001) || leb (0x43e - 0x3be) (sub32 (topy % 2 ^ 11) 0x3be)
    then (if zeroinfnan iy
        then pow_special_y ix iy
        else if zeroinfnan ix
        then pow_special_x ix iy
        else if sign_of ix == 0
        then pow_finite ix iy 0
        else if checkint iy == 0
        then math_invalid ix
        else pow_finite (ix % 2 ^ 63) iy (if checkint iy == 1 then sign_bias_on else 0))
    else pow_main ix iy 0
