-- ===== src/Libm/Inverse/Domain.antt =====
-- asin and acos at the ends of their domain and outside.
use wasm_cxx_shim.Prelude.{
  ℕ, ◌^◌, ◌<◌, ◌≡◌, refl, true, false, not, ◌||◌, leb, ◌==◌, arith, if◌then◌else◌, Bool-cases, inl,
  inr,
}
use wasm_cxx_shim.Libm.Double.{
  magnitude, nan_bits, one, neg, ◌⊕◌, ◌⊖◌, ◌⊗◌, ◌⊘◌, units, digits_below, bit_length, round_even,
  rounded, add_finite,
}
use wasm_cxx_shim.Libm.Math.Results.{NanOr, sub_self, zero-zero}
use wasm_cxx_shim.Libm.RemPio2.{high_magnitude}
use wasm_cxx_shim.Libm.Inverse.{asin, acos, is_unit, pio2_hi, pi, tiny, two}

zero-nan : 0 ⊘ nan_bits ≡ nan_bits
unfolding ◌⊘◌
zero-nan = refl

outside_nan : (x : ℕ) → x < 2 ^ 64 → 0 ⊘ (x ⊖ x) ≡ nan_bits
outside_nan x h = elim (sub_self x h) [ inl e ↦ rw e zero-nan | inr e ↦ rw e zero-zero ]

asin_one : one ⊗ pio2_hi ⊕ tiny ≡ pio2_hi
unfolding ◌⊗◌ ◌⊕◌ units digits_below bit_length round_even rounded add_finite
asin_one = refl

asin_minus_one : neg one ⊗ pio2_hi ⊕ tiny ≡ neg pio2_hi
unfolding ◌⊗◌ ◌⊕◌ units digits_below bit_length round_even rounded add_finite
asin_minus_one = refl

acos_minus_one : two ⊗ pio2_hi ⊕ tiny ≡ pi
unfolding ◌⊗◌ ◌⊕◌ units digits_below bit_length round_even rounded add_finite
acos_minus_one = refl

-- For 64-bit patterns from 1 up in size, asin of 1 and -1 is pi / 2 and -pi / 2, acos of them 0 and pi,
-- and both return a NaN for all others, NaNs among them.
pub asin-acos_domain :
    (x : ℕ)
    → x < 2 ^ 64
    → leb one (magnitude x) ≡ true
    → NanOr (not (x == one || x == neg one)) (if x == one then pio2_hi else neg pio2_hi) (asin x)
      × NanOr (not (x == one || x == neg one)) (if x == one then 0 else pi) (acos x)
unfolding asin acos
asin-acos_domain x h l =
    let large : leb 0x3ff00000 (high_magnitude x) ≡ true = ground arith in
    elim (Bool-cases (x == one)) [
      | inl e ↦ let plus : x ≡ one = ground arith in rw (plus, asin_one) (refl, refl)
      | inr e ↦ elim (Bool-cases (x == neg one)) [
        | inl f ↦
            let minus : x ≡ neg one = ground arith in
            rw (minus, asin_minus_one, acos_minus_one) (refl, refl)
        | inr f ↦
            let other : is_unit x ≡ false = ground arith in
            rw (e, f, large, other, outside_nan x h) (refl, refl)
      ]
    ]
