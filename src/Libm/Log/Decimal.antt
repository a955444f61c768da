-- ===== src/Libm/Log/Decimal.antt =====
-- `log10`, and the three logarithms, outside the positive finite numbers.
use wasm_cxx_shim.Prelude.{
  ℕ, ◌^◌, ◌<◌, ◌≡◌, refl, true, false, ◌==◌, arith, Bool-cases, inl, inr, if◌then◌else◌,
}
use wasm_cxx_shim.Libm.Double.{
  sign_of, is_positive_finite, is_zero, inf_bits, nan_bits, neg, one, units, digits_below,
  bit_length, round_even, rounded, ◌⊖◌, ◌⊗◌, ◌⊘◌,
}
use wasm_cxx_shim.Libm.Math.Results.{sub_self, zero-zero}
use wasm_cxx_shim.Libm.Log.{log}
use wasm_cxx_shim.Libm.Log2.{log2}
use wasm_cxx_shim.Libm.Log10.{log10}
use wasm_cxx_shim.Libm.Log.Domain.{log_domain, log2_domain}

nan-by_zero : nan_bits ⊘ 0 ≡ nan_bits
unfolding ◌⊘◌
nan-by_zero = refl

negative_nan : (x : ℕ) → x < 2 ^ 64 → (x ⊖ x) ⊘ 0 ≡ nan_bits
negative_nan x h = elim (sub_self x h) [ inl e ↦ rw e nan-by_zero | inr e ↦ rw e zero-zero ]

pole_plus : neg one ⊘ (0 ⊗ 0) ≡ neg inf_bits
unfolding ◌⊘◌ ◌⊗◌ units digits_below bit_length round_even rounded
pole_plus = refl

pole_minus : neg one ⊘ (2 ^ 63 ⊗ 2 ^ 63) ≡ neg inf_bits
unfolding ◌⊘◌ ◌⊗◌ units digits_below bit_length round_even rounded
pole_minus = refl

pole : (x : ℕ) → x < 2 ^ 64 → is_zero x ≡ true → neg one ⊘ (x ⊗ x) ≡ neg inf_bits
pole x h z = elim (Bool-cases (x == 0)) [
  | inl e ↦ let plus : x ≡ 0 = ground arith in rw plus pole_plus
  | inr e ↦ let minus : x ≡ 2 ^ 63 = ground arith in rw minus pole_minus
]

log10_domain :
    (x : ℕ)
    → x < 2 ^ 64
    → is_positive_finite x ≡ false
    → log10 x ≡ (if is_zero x then neg inf_bits else if sign_of x == 0 then x else nan_bits)
unfolding log10
log10_domain x h p = elim (Bool-cases (is_zero x)) [
  | inl z ↦ let minus_inf = pole x h z in ground arith
  | inr z ↦ let bad = negative_nan x h in ground arith
]

-- For a 64-bit pattern outside the positive finite numbers, log, log2 and log10 return minus infinity
-- for a zero, infinity for infinity, and a NaN for a negative number, minus infinity and a NaN with
-- sign; of a NaN without sign, log and log2 return a NaN and log10 the argument.
pub logarithms_domain :
    (x : ℕ)
    → x < 2 ^ 64
    → is_positive_finite x ≡ false
    → (log x ≡ (if is_zero x then neg inf_bits else if x == inf_bits then inf_bits else nan_bits))
      × (log2 x
          ≡ (if is_zero x then neg inf_bits else if x == inf_bits then inf_bits else nan_bits))
      × (log10 x ≡ (if is_zero x then neg inf_bits else if sign_of x == 0 then x else nan_bits))
logarithms_domain x h p = (log_domain x h p, log2_domain x h p, log10_domain x h p)
