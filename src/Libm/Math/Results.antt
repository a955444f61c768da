-- ===== src/Libm/Math/Results.antt =====
-- What the helpers for the domain and the range return.
use wasm_cxx_shim.Prelude.{ℕ, ◌^◌, ◌<◌, ◌≡◌, ◌⊎◌, refl, Bool, true, false, arith, inl, inr}
use wasm_cxx_shim.Libm.Double.{
  exponent_of, fraction_of, is_nan, inf_bits, nan_bits, neg, units, digits_below, bit_length,
  round_even, rounded, add_finite, ◌⊕◌, ◌⊖◌, ◌⊗◌, ◌⊘◌,
}
use wasm_cxx_shim.Libm.Math.{math_divzero, math_invalid, math_xflow, math_oflow, math_uflow}

-- A result: a NaN, whatever its pattern, or the number `v`.
abbrev pub NanOr : Bool → ℕ → ℕ → Type 0
NanOr true v r = is_nan r ≡ true
NanOr false v r = r ≡ v

units-neg : (x : ℕ) → x < 2 ^ 64 → units (neg x) ≡ units x
unfolding units
units-neg x h =
    let e : exponent_of (neg x) ≡ exponent_of x = omega arith in
    let f : fraction_of (neg x) ≡ fraction_of x = omega arith in rw (e, f)

add_finite-neg : (x : ℕ) → x < 2 ^ 64 → add_finite x (neg x) ≡ 0
unfolding add_finite
add_finite-neg x h = let u = units-neg x h in rw u (ground arith)

pub sub_self : (x : ℕ) → x < 2 ^ 64 → (x ⊖ x ≡ nan_bits) ⊎ (x ⊖ x ≡ 0)
unfolding ◌⊕◌ ◌⊖◌
sub_self x h = let z = add_finite-neg x h in ground arith

pub zero-zero : 0 ⊘ 0 ≡ nan_bits
unfolding ◌⊘◌
zero-zero = refl

nan-nan : nan_bits ⊘ nan_bits ≡ nan_bits
unfolding ◌⊘◌
nan-nan = refl

pub math_invalid_lem : (x : ℕ) → x < 2 ^ 64 → math_invalid x ≡ nan_bits
unfolding math_invalid
math_invalid_lem x h = elim (sub_self x h) [ inl e ↦ rw e nan-nan | inr e ↦ rw e zero-zero ]

pub math_divzero_minus : math_divzero 1 ≡ neg inf_bits
unfolding math_divzero ◌⊘◌
math_divzero_minus = refl

pub math_oflow_plus : math_oflow 0 ≡ inf_bits
unfolding math_oflow math_xflow ◌⊗◌ units digits_below bit_length round_even rounded
math_oflow_plus = refl

pub math_uflow_plus : math_uflow 0 ≡ 0
unfolding math_uflow math_xflow ◌⊗◌ units digits_below bit_length round_even rounded
math_uflow_plus = refl
