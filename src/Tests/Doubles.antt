-- ===== src/Tests/Doubles.antt =====
-- Runs of the functions of Libm on the bits of doubles.
use wasm_cxx_shim.Prelude.{◌≡◌, refl}
use wasm_cxx_shim.Libm.Double.{
  power, one, neg, units, digits_below, bit_length, round_even, rounded, add_finite, quotient, less,
  equal, of_int, ◌⊕◌, ◌⊖◌, ◌⊗◌, ◌⊘◌,
}
use wasm_cxx_shim.Libm.Math.{shift_exponent}
use wasm_cxx_shim.Libm.Exp.{exp, exp_reduced}
use wasm_cxx_shim.Libm.Log.{log, log_reduced}
use wasm_cxx_shim.Libm.Log2.{log2, log2_reduced}
use wasm_cxx_shim.Libm.Log10.{log10, log10_scaled, log10_reduced}
use wasm_cxx_shim.Libm.Pow.{pow, pow_main}
use wasm_cxx_shim.Libm.Pow.Logarithm.{log_inline}
use wasm_cxx_shim.Libm.Pow.Exponential.{exp_inline}
use wasm_cxx_shim.Libm.Pow.Exponential
use wasm_cxx_shim.Libm.Sqrt.{sqrt, sqrt_normal, nearest, estimate, mantissa, mul32, mul64}
use wasm_cxx_shim.Prelude.Int.{pos, negsuc, ◌-ℤ◌}
use wasm_cxx_shim.Prelude.Loop.{while}
use wasm_cxx_shim.Libm.Remquo.{
  remquo, normalize, take_off, double, reduce, raise, rescale, same_ℤ, finish, divided,
}
use wasm_cxx_shim.Libm.Hypot.{hypot, hypot_ordered, root_of_squares, sq}
use wasm_cxx_shim.Libm.Kernels.{kernel_sin, kernel_cos, kernel_tan, tan_rest}
use wasm_cxx_shim.Libm.Rounding.{floor, step_to_integer}

exp-one : exp one ≡ 0x4005bf0a8b145769
unfolding exp exp_reduced units digits_below bit_length round_even rounded add_finite ◌⊕◌ ◌⊖◌ ◌⊗◌
exp-one = refl

log_four : log (power 0x401) ≡ 0x3ff62e42fefa39ef
unfolding log log_reduced shift_exponent of_int units digits_below bit_length round_even rounded
    add_finite ◌⊕◌ ◌⊖◌ ◌⊗◌
log_four = refl

floor_run : floor (neg 0x400C000000000000) ≡ neg (power 0x401)
unfolding floor step_to_integer less units digits_below bit_length round_even rounded add_finite ◌⊕◌
    ◌⊖◌ ◌⊗◌
floor_run = refl

log2_run : log2 (power 0x402) ≡ 0x4008000000000000
unfolding log2 log2_reduced shift_exponent of_int units digits_below bit_length round_even rounded
    add_finite ◌⊕◌ ◌⊖◌ ◌⊗◌
log2_run = refl

log10_run : log10 0x408f400000000000 ≡ 0x4008000000000000
unfolding log10 log10_scaled log10_reduced of_int units digits_below bit_length round_even rounded
    add_finite quotient ◌⊕◌ ◌⊖◌ ◌⊗◌ ◌⊘◌
log10_run = refl

-- 3 to the power of 5 is 243.
pow_run : pow 0x4008000000000000 0x4014000000000000 ≡ 0x406e600000000000
unfolding pow pow_main log_inline exp_inline Exponential.exp_reduced shift_exponent of_int units
    digits_below bit_length round_even rounded add_finite ◌⊕◌ ◌⊖◌ ◌⊗◌
pow_run = refl

sqrt_two : sqrt (power 0x400) ≡ 0x3ff6a09e667f3bcd
unfolding sqrt sqrt_normal nearest estimate mantissa mul32 mul64 units digits_below bit_length
    round_even rounded add_finite ◌⊕◌ ◌⊗◌
sqrt_two = refl

-- The nearest multiple of 3 to 10 is 9, three times 3; to -11 it is -12, four times.
remquo_ten : remquo 0x4024000000000000 0x4008000000000000 ≡ record { value = one; quo = pos 3 }
unfolding remquo normalize take_off double reduce raise rescale same_ℤ finish divided while ◌-ℤ◌
    less equal units digits_below bit_length round_even rounded add_finite ◌⊕◌ ◌⊖◌ ◌⊗◌
remquo_ten = refl

remquo_minus_eleven :
    remquo 0xc026000000000000 0x4008000000000000 ≡ record { value = one; quo = negsuc 3 }
unfolding remquo normalize take_off double reduce raise rescale same_ℤ finish divided while ◌-ℤ◌
    less equal units digits_below bit_length round_even rounded add_finite ◌⊕◌ ◌⊖◌ ◌⊗◌
remquo_minus_eleven = refl

hypot_run : hypot 0x4008000000000000 0x4010000000000000 ≡ 0x4014000000000000
unfolding hypot hypot_ordered root_of_squares sq sqrt sqrt_normal nearest estimate mantissa mul32
    mul64 units digits_below bit_length round_even rounded add_finite ◌⊕◌ ◌⊖◌ ◌⊗◌
hypot_run = refl

-- The sine, cosine and tangent of 0.5.
sin_run : kernel_sin 0x3fe0000000000000 0 0 ≡ 0x3fdeaee8744b05f0
unfolding kernel_sin units digits_below bit_length round_even rounded add_finite ◌⊕◌ ◌⊖◌ ◌⊗◌
sin_run = refl

cos_run : kernel_cos 0x3fe0000000000000 0 ≡ 0x3fec1528065b7d50
unfolding kernel_cos units digits_below bit_length round_even rounded add_finite ◌⊕◌ ◌⊖◌ ◌⊗◌
cos_run = refl

tan_run : kernel_tan 0x3fe0000000000000 0 0 ≡ 0x3fe17b4f5bf3474a
unfolding kernel_tan tan_rest units digits_below bit_length round_even rounded add_finite ◌⊕◌ ◌⊖◌
    ◌⊗◌
tan_run = refl
