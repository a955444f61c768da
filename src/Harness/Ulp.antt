-- ===== src/Harness/Ulp.antt =====
-- The comparisons of tools/wasm-test-harness/include/wcs-test.h: a `float` is its 32 bits, a `double`
-- its 64.
pub mod Distance
use wasm_cxx_shim.Prelude.{
  ℕ, ◌+◌, ◌-◌, ◌*◌, ◌%◌, ◌/◌, ◌^◌, Bool, true, false, not, ◌&&◌, ◌||◌, ltb, ◌==◌, if◌then◌else◌,
}
use wasm_cxx_shim.Prelude.Int.{ℤ, pos, negsuc, ◌-ℤ◌, ltb_ℤ}
use wasm_cxx_shim.Libm.Double.{equal}

-- `==` on `float`.
abbrev pub is_nan_float : ℕ → Bool
is_nan_float x = ltb (0xff * 2 ^ 23) (x % 2 ^ 31)

abbrev pub is_zero_float : ℕ → Bool
is_zero_float x = x % 2 ^ 31 == 0

unfoldable pub equal_float : ℕ → ℕ → Bool
equal_float x y =
    not (is_nan_float x) && not (is_nan_float y) && (x == y || (is_zero_float x && is_zero_float y))

-- The signed integer of 32 or of 64 bits with these bits.
unfoldable pub int32_of : ℕ → ℤ
int32_of x = if ltb x (2 ^ 31) then pos x else negsuc (2 ^ 32 - 1 - x)

unfoldable pub int64_of : ℕ → ℤ
int64_of x = if ltb x (2 ^ 63) then pos x else negsuc (2 ^ 64 - 1 - x)

-- `(ai < 0) != (bi < 0)`, and `diff <= 4`.
unfoldable pub differ_in_sign : ℤ → ℤ → Bool
differ_in_sign a b = if ltb_ℤ a (pos 0) then not (ltb_ℤ b (pos 0)) else ltb_ℤ b (pos 0)

unfoldable pub close : ℤ → ℤ → Bool
close a b = let diff = if ltb_ℤ b a then a -ℤ b else b -ℤ a in not (ltb_ℤ (pos 4) diff)

unfoldable pub float_eq_4ulp : ℕ → ℕ → Bool
float_eq_4ulp a b =
    if equal_float a b
    then true
    else if not (equal_float a a) || not (equal_float b b)
    then false
    else if differ_in_sign (int32_of a) (int32_of b)
    then false
    else close (int32_of a) (int32_of b)

unfoldable pub double_eq_4ulp : ℕ → ℕ → Bool
double_eq_4ulp a b =
    if equal a b
    then true
    else if not (equal a a) || not (equal b b)
    then false
    else if differ_in_sign (int64_of a) (int64_of b)
    then false
    else close (int64_of a) (int64_of b)
