-- ===== src/Libm/Pow/Integers.antt =====
-- `checkint` and `zeroinfnan` against the value of the pattern.
use wasm_cxx_shim.Prelude.{
  ℕ, zero, suc, ◌+◌, ◌-◌, ◌*◌, ◌/◌, ◌%◌, ◌^◌, ◌<◌, ◌≤◌, ◌≡◌, bit_and, false, ◌||◌, ◌==◌, arith,
  if◌then◌else◌,
}
use wasm_cxx_shim.Libm.Double.{exponent_of, is_nan, is_inf, is_zero}
use wasm_cxx_shim.Prelude.Bits.{bit_and-mask, bit_and-shifted, bit_and-one}
use native.Mathlib.Nat.{one-le-pow}
use wasm_cxx_shim.Libm.Pow.{checkint, zeroinfnan}

-- zeroinfnan holds of the 64-bit patterns of zeros, infinities and NaNs, and of no other.
pub zeroinfnan_lem : (i : ℕ) → i < 2 ^ 64 → zeroinfnan i ≡ is_zero i || is_inf i || is_nan i
unfolding zeroinfnan
zeroinfnan_lem i h = ground arith

-- The value is `2 ^ (e - 1) * (2 ^ 52 + fraction)` units of 2 ^ -1074 for an exponent `e` that is
-- not 0; an integer is a whole number of 2 ^ 1074 units.
pub checkint_small :
    (y : ℕ) → y < 2 ^ 64 → exponent_of y < 0x3ff → is_zero y ≡ false → checkint y ≡ 0
unfolding checkint
checkint_small y h e z = ground arith

pub checkint_large : (y : ℕ) → 0x3ff + 52 < exponent_of y → checkint y ≡ 2
unfolding checkint
checkint_large y e = ground arith

bit_at : (k y : ℕ) → bit_and y (2 ^ k) ≡ y / 2 ^ k % 2 * 2 ^ k
bit_at k y =
    let e : 1 * 2 ^ k ≡ 2 ^ k = omega arith in
    let m : bit_and y (1 * 2 ^ k) ≡ y / 2 ^ k % 2 * 2 ^ k =
      rw (bit_and-shifted k y 1, bit_and-one (y / 2 ^ k)) in
    rw e at m

digit_zero : (p d : ℕ) → 1 ≤ p → (d * p == 0) ≡ (d == 0)
digit_zero p zero h = ground arith
digit_zero p (suc d) h = let pos_p : 1 ≤ suc d * p = grind arith in ground arith

pub checkint_mid :
    (k y : ℕ)
    → exponent_of y + k ≡ 0x3ff + 52
    → k ≤ 52
    → checkint y ≡ (if y % 2 ^ k == 0 then (if y / 2 ^ k % 2 == 0 then 2 else 1) else 0)
unfolding checkint
checkint_mid k y e h =
    let f : 0x3ff + 52 - exponent_of y ≡ k = omega arith in
    let high : (0x3ff ≤ exponent_of y) × (exponent_of y ≤ 0x3ff + 52) =
      (omega arith, omega arith) in
    let positive = one-le-pow k 2 (omega arith) in
    let bit = digit_zero (2 ^ k) (y / 2 ^ k % 2) positive in
    rw (f, bit_and-mask k y, bit_at k y, bit) (ground arith)
