-- ===== src/Harness/Ulp/Distance.antt =====
-- What `float_eq_4ulp` and `double_eq_4ulp` compare, in units in the last place.
use wasm_cxx_shim.Prelude.{
  ℕ, ◌+◌, ◌-◌, ◌%◌, ◌/◌, ◌^◌, ◌<◌, ◌≡◌, false, not, ◌&&◌, ◌||◌, leb, ltb, ◌==◌, arith,
  if◌then◌else◌, Bool-cases, inl, inr,
}
use wasm_cxx_shim.Prelude.Int.{pos, negsuc, ◌-ℤ◌}
use wasm_cxx_shim.Libm.Double.{equal, is_nan, is_zero, sign_of, magnitude}
use wasm_cxx_shim.Harness.Ulp.{
  is_nan_float, is_zero_float, equal_float, int32_of, int64_of, differ_in_sign, close,
  float_eq_4ulp, double_eq_4ulp,
}

-- The difference of two magnitudes: the steps to the next number between them.
abbrev pub gap : ℕ → ℕ → ℕ
gap m n = if leb m n then n - m else m - n

pos_close : (a b : ℕ) → close (pos a) (pos b) ≡ leb a (b + 4) && leb b (a + 4)
unfolding close ◌-ℤ◌
pos_close a b = ground arith

negsuc_close : (a b : ℕ) → close (negsuc a) (negsuc b) ≡ leb a (b + 4) && leb b (a + 4)
unfolding close ◌-ℤ◌
negsuc_close a b = ground arith

double_eq_4ulp-int :
    (x y : ℕ)
    → x < 2 ^ 64
    → y < 2 ^ 64
    → (if differ_in_sign (int64_of x) (int64_of y) then false else close (int64_of x) (int64_of y))
      ≡ ((x / 2 ^ 63 == y / 2 ^ 63) && leb (gap (x % 2 ^ 63) (y % 2 ^ 63)) 4)
unfolding int64_of differ_in_sign
double_eq_4ulp-int x y h l = elim (Bool-cases (ltb x (2 ^ 63))) [
  | inl px ↦ elim (Bool-cases (ltb y (2 ^ 63))) [
    | inl py ↦ rw (px, py, pos_close) (ground arith)
    | inr ny ↦ rw (px, ny) (ground arith)
  ]
  | inr nx ↦ elim (Bool-cases (ltb y (2 ^ 63))) [
    | inl py ↦ rw (nx, py) (ground arith)
    | inr ny ↦ rw (nx, ny, negsuc_close) (ground arith)
  ]
]

double_eq_4ulp_lem :
    (x y : ℕ)
    → x < 2 ^ 64
    → y < 2 ^ 64
    → double_eq_4ulp x y ≡ (
        not (is_nan x)
        && not (is_nan y)
        && ((is_zero x && is_zero y)
            || (sign_of x == sign_of y && leb (gap (magnitude x) (magnitude y)) 4)))
unfolding double_eq_4ulp equal
double_eq_4ulp_lem x y h l = rw (double_eq_4ulp-int x y h l) (ground arith)

float_eq_4ulp-int :
    (x y : ℕ)
    → x < 2 ^ 32
    → y < 2 ^ 32
    → (if differ_in_sign (int32_of x) (int32_of y) then false else close (int32_of x) (int32_of y))
      ≡ ((x / 2 ^ 31 == y / 2 ^ 31) && leb (gap (x % 2 ^ 31) (y % 2 ^ 31)) 4)
unfolding int32_of differ_in_sign
float_eq_4ulp-int x y h l = elim (Bool-cases (ltb x (2 ^ 31))) [
  | inl px ↦ elim (Bool-cases (ltb y (2 ^ 31))) [
    | inl py ↦ rw (px, py, pos_close) (ground arith)
    | inr ny ↦ rw (px, ny) (ground arith)
  ]
  | inr nx ↦ elim (Bool-cases (ltb y (2 ^ 31))) [
    | inl py ↦ rw (nx, py) (ground arith)
    | inr ny ↦ rw (nx, ny, negsuc_close) (ground arith)
  ]
]

float_eq_4ulp_lem :
    (x y : ℕ)
    → x < 2 ^ 32
    → y < 2 ^ 32
    → float_eq_4ulp x y ≡ (
        not (is_nan_float x)
        && not (is_nan_float y)
        && ((is_zero_float x && is_zero_float y)
            || (x / 2 ^ 31 == y / 2 ^ 31 && leb (gap (x % 2 ^ 31) (y % 2 ^ 31)) 4)))
unfolding float_eq_4ulp equal_float
float_eq_4ulp_lem x y h l = rw (float_eq_4ulp-int x y h l) (ground arith)

-- double_eq_4ulp on 64-bit patterns and float_eq_4ulp on 32-bit patterns hold exactly where neither is
-- a NaN, and both are zeros or they have the same sign and magnitudes at most four apart.
pub eq_4ulp_lem :
    (x y a b : ℕ)
    → x < 2 ^ 64
    → y < 2 ^ 64
    → a < 2 ^ 32
    → b < 2 ^ 32
    → (double_eq_4ulp x y ≡ (
        not (is_nan x)
        && not (is_nan y)
        && ((is_zero x && is_zero y)
            || (sign_of x == sign_of y && leb (gap (magnitude x) (magnitude y)) 4))))
      × (float_eq_4ulp a b ≡ (
          not (is_nan_float a)
          && not (is_nan_float b)
          && ((is_zero_float a && is_zero_float b)
              || (a / 2 ^ 31 == b / 2 ^ 31 && leb (gap (a % 2 ^ 31) (b % 2 ^ 31)) 4))))
eq_4ulp_lem x y a b h l k m = (double_eq_4ulp_lem x y h l, float_eq_4ulp_lem a b k m)
