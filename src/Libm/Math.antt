-- ===== src/Libm/Math.antt =====
-- libm/src/musl/__math_*.c, the results outside a function's domain or range, and the wrapping
-- subtraction of `uint32_t` and `uint64_t`.
pub mod Results
use wasm_cxx_shim.Prelude.{ℕ, ◌+◌, ◌-◌, ◌*◌, ◌/◌, ◌%◌, ◌^◌, ltb, ◌==◌, if◌then◌else◌}
use wasm_cxx_shim.Prelude.Int.{ℤ, pos, sub_ℕ}
use wasm_cxx_shim.Libm.Double.{power, one, neg, ◌⊖◌, ◌⊗◌, ◌⊘◌}

abbrev pub sub32 : ℕ → ℕ → ℕ
sub32 a b = (a + (2 ^ 32 - b)) % 2 ^ 32

abbrev pub sub64 : ℕ → ℕ → ℕ
sub64 a b = (a + (2 ^ 64 - b)) % 2 ^ 64

-- `(int64_t)t >> 52`
unfoldable pub shift_exponent : ℕ → ℤ
shift_exponent t = if ltb t (2 ^ 63) then pos (t / 2 ^ 52) else sub_ℕ (t / 2 ^ 52) (2 ^ 12)

unfoldable pub math_divzero : ℕ → ℕ
math_divzero sign = (if sign == 0 then one else neg one) ⊘ 0

unfoldable pub math_invalid : ℕ → ℕ
math_invalid x = (x ⊖ x) ⊘ (x ⊖ x)

unfoldable pub math_xflow : ℕ → ℕ → ℕ
math_xflow sign y = (if sign == 0 then y else neg y) ⊗ y

unfoldable pub math_oflow : ℕ → ℕ
math_oflow sign = math_xflow sign (power (0x3ff + 769))

unfoldable pub math_uflow : ℕ → ℕ
math_uflow sign = math_xflow sign (power (0x3ff - 767))
