-- ===== src/Tests/Trig.antt =====
-- The trigonometric functions, fma and the comparisons of the harness on concrete inputs.
use wasm_cxx_shim.Prelude.{ℕ, ◌+◌, ◌^◌, ◌≡◌, true, false, refl, some, arith, List, [], ◌∷◌}
use wasm_cxx_shim.Libm.Double.{
  signed, is_nan, inf_bits, power, one, neg, units, digits_below, bit_length, round_even, rounded,
  add_finite, quotient, of_int, ◌⊕◌, ◌⊖◌, ◌⊗◌, ◌⊘◌,
}
use wasm_cxx_shim.Libm.Kernels.{kernel_sin, kernel_cos}
use wasm_cxx_shim.Libm.RemPio2.{rem_pio2, one_round}
use wasm_cxx_shim.Libm.RemPio2.Large.{complement}
use wasm_cxx_shim.Libm.RemPio2.Digits.{AreDigits, digits_value, capacity, complement_lem}
use wasm_cxx_shim.Libm.Trig.{sin, cos, tan, sin_reduced}
use wasm_cxx_shim.Libm.Trig.Ends.{trig_ends}
use wasm_cxx_shim.Libm.Inverse.{asin, acos, atan, atan_reduced, atan_part, atan_sum, atan2}
use wasm_cxx_shim.Libm.Inverse.Domain.{asin-acos_domain}
use wasm_cxx_shim.Libm.Inverse.Quadrants.{quarter_pi, three_pio4, atan2_ends}
use wasm_cxx_shim.Libm.Pattern.{fabs}
use wasm_cxx_shim.Harness.Ulp.{double_eq_4ulp, float_eq_4ulp}
use wasm_cxx_shim.Harness.Ulp.Distance.{eq_4ulp_lem}

sin_run : sin (power 0x400) ≡ some 0x3fed18f6ead1b446
unfolding sin sin_reduced rem_pio2 one_round kernel_sin kernel_cos of_int units digits_below
    bit_length round_even rounded add_finite ◌⊕◌ ◌⊖◌ ◌⊗◌
sin_run = refl

atan-one : atan one ≡ quarter_pi
unfolding atan atan_reduced atan_part atan_sum fabs quotient units digits_below bit_length
    round_even rounded add_finite ◌⊕◌ ◌⊖◌ ◌⊗◌ ◌⊘◌
atan-one = refl

trig_ends_example :
    ((r : ℕ) × (sin inf_bits ≡ some r) × (is_nan r ≡ true))
    × ((r : ℕ) × (cos inf_bits ≡ some r) × (is_nan r ≡ true))
    × ((r : ℕ) × (tan inf_bits ≡ some r) × (is_nan r ≡ true))
trig_ends_example = trig_ends inf_bits (omega arith) refl

asin-acos_domain_example :
    (is_nan (asin (power 0x400)) ≡ true) × (is_nan (acos (power 0x400)) ≡ true)
asin-acos_domain_example = asin-acos_domain (power 0x400) (omega arith) refl

-- atan2 of minus infinity and minus infinity.
atan2_ends_example : atan2 (neg inf_bits) (neg inf_bits) ≡ signed 1 three_pio4
atan2_ends_example =
    atan2_ends (neg inf_bits) (neg inf_bits) (omega arith) (omega arith) refl refl refl

complement_lem_example :
    let iq : List ℕ = 0 ∷ 5 ∷ 7 ∷ [] in
    AreDigits (complement 0 iq).0
    × (digits_value (complement 0 iq).0 + digits_value iq ≡ capacity iq)
    × ((complement 0 iq).1 ≡ 1)
complement_lem_example =
    complement_lem (0 ∷ 5 ∷ 7 ∷ []) (omega arith, (omega arith, (omega arith, tt)))

-- The smallest positive and the largest negative double are not equal; two floats around 1 are.
eq_4ulp_lem_example :
    (double_eq_4ulp 1 (2 ^ 63 + 1) ≡ false) × (float_eq_4ulp 0x3f800002 0x3f7fffff ≡ true)
eq_4ulp_lem_example =
    eq_4ulp_lem 1 (2 ^ 63 + 1) 0x3f800002 0x3f7fffff (omega arith) (omega arith) (omega arith)
      (omega arith)
