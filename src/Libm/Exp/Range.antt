-- ===== src/Libm/Exp/Range.antt =====
-- `exp` outside the range where the reduction serves.
use wasm_cxx_shim.Prelude.{
  ℕ, ◌+◌, ◌-◌, ◌^◌, ◌<◌, ◌≤◌, ◌≡◌, ◌⊎◌, if◌then◌else◌, refl, true, ltb, ◌==◌, arith, Bool-cases,
  inl, inr,
}
use wasm_cxx_shim.Libm.Double.{sign_of, magnitude, is_nan, inf_bits, nan_bits, power, one, ◌⊕◌}
use wasm_cxx_shim.Libm.Math.Results.{math_oflow_plus, math_uflow_plus}
use wasm_cxx_shim.Libm.Exp.{exp}

add-nan : (x : ℕ) → is_nan x ≡ true → one ⊕ x ≡ nan_bits
unfolding ◌⊕◌
add-nan x h = ground arith

add-inf : one ⊕ inf_bits ≡ inf_bits
unfolding ◌⊕◌
add-inf = refl

-- For a 64-bit pattern, exp returns 1 below 2 ^ -54 in size, infinity or 0 by the sign from 1024 in
-- size on, for the infinities too, and a NaN for a NaN.
pub exp_range :
    (x : ℕ)
    → x < 2 ^ 64
    → (magnitude x < power (0x3ff - 54)) ⊎ (power (0x3ff + 10) ≤ magnitude x)
    → exp x ≡ (
        if is_nan x
        then nan_bits
        else if ltb (magnitude x) one
        then one
        else if sign_of x == 0
        then inf_bits
        else 0)
unfolding exp
exp_range x h far =
    let over = math_oflow_plus in
    let under = math_uflow_plus in
    let sum = add-inf in
    elim (Bool-cases (is_nan x)) [
      | inl n ↦ let s = add-nan x n in ground arith
      | inr n ↦ elim (Bool-cases (x == inf_bits)) [
        | inl e ↦ let same : x ≡ inf_bits = ground arith in rw same sum
        | inr e ↦ elim far [ inl q ↦ ground arith | inr q ↦ ground arith ]
      ]
    ]
