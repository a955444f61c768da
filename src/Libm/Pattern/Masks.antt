-- ===== src/Libm/Pattern/Masks.antt =====
-- Masks of high bits.
use wasm_cxx_shim.Prelude.{ℕ, zero, suc, ◌+◌, ◌-◌, ◌*◌, ◌/◌, ◌^◌, ◌≤◌, ◌<◌, ◌≡◌, bit_and, arith}
use wasm_cxx_shim.Prelude.Bits.{bit_and-mask, bit_and-shifted}
use wasm_cxx_shim.Libm.Double.Length.{pow-add}
use native.Mathlib.Nat.{mod-eq_of_lt, one-le-pow, div-lt_iff_lt-mul}

high_mask : (p q : ℕ) → 1 ≤ q → p * q - p ≡ (q - 1) * p
high_mask p zero h = absurd (omega arith)
high_mask p (suc q) h =
    let a : p * suc q ≡ p * q + p = grind arith in
    let b : p * q + p - p ≡ p * q = omega arith in
    let c : suc q - 1 ≡ q = omega arith in rw (a, b, c) (grind arith)

-- `x & ~(2 ^ k - 1)` on `k + h` bits.
pub bit_and-high :
    (k h x : ℕ) → x < 2 ^ (k + h) → bit_and x (2 ^ (k + h) - 2 ^ k) ≡ x / 2 ^ k * 2 ^ k
bit_and-high k h x small =
    let pos_k : 1 ≤ 2 ^ k = one-le-pow k 2 (omega arith) in
    let pos_h : 1 ≤ 2 ^ h = one-le-pow h 2 (omega arith) in
    let mask : 2 ^ (k + h) - 2 ^ k ≡ (2 ^ h - 1) * 2 ^ k =
      rw (pow-add k h) (high_mask (2 ^ k) (2 ^ h) pos_h) in
    let fits : x / 2 ^ k < 2 ^ h =
      (div-lt_iff_lt-mul pos_k).1 (omega (arith, small, pow-add k h)) in
    rw (mask, bit_and-shifted k x (2 ^ h - 1), bit_and-mask h (x / 2 ^ k), mod-eq_of_lt fits)
