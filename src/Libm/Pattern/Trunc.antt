-- ===== src/Libm/Pattern/Trunc.antt =====
-- The bits that `trunc` clears.
pub mod Value
use wasm_cxx_shim.Prelude.{
  ℕ, zero, suc, ◌+◌, ◌-◌, ◌*◌, ◌/◌, ◌%◌, ◌^◌, ◌<◌, ◌≤◌, ◌≡◌, ◌⊎◌, ap, ◌∙◌, sym, refl, bit_and, Bool,
  true, false, leb, ltb, ◌==◌, arith, Bool-cases, inl, inr, if◌then◌else◌,
}
use native.Mathlib.Nat.{one-le-pow, add-mul-div_right, pow-le-pow_right, div-add-mod, mul_comm}
use wasm_cxx_shim.Prelude.Bits.{bit_and-mask}
use wasm_cxx_shim.Libm.Double.{sign_of, exponent_of, fraction_of, units}
use wasm_cxx_shim.Libm.Double.Length.{pow-add}
use wasm_cxx_shim.Libm.Pattern.{trunc, clear_below}
use wasm_cxx_shim.Libm.Pattern.Masks.{bit_and-high}
use wasm_cxx_shim.Libm.Pow.Parity.{scaled_div, units_normal}

ones_above : (p q : ℕ) → 1 ≤ p → 1 ≤ q → (p * q - 1) / q ≡ p - 1
ones_above zero q h l = absurd (omega arith)
ones_above (suc p) q h l =
    let parts : suc p * q - 1 ≡ (q - 1) + p * q =
      let t : suc p * q ≡ p * q + q = grind arith in omega arith in
    let small : (q - 1) / q ≡ 0 = grind arith in
    rw (parts, add-mul-div_right (q - 1) p l, small) (omega arith)

ones_shift : (k e : ℕ) → k + e ≡ 64 → (2 ^ 64 - 1) / 2 ^ e ≡ 2 ^ k - 1
ones_shift k e s =
    let split : 2 ^ 64 ≡ 2 ^ k * 2 ^ e = ap (λ (n : ℕ). 2 ^ n) (sym s) ∙ pow-add k e in
    ap (λ (n : ℕ). (n - 1) / 2 ^ e) split
    ∙ ones_above (2 ^ k) (2 ^ e) (one-le-pow k 2 (omega arith)) (one-le-pow e 2 (omega arith))

-- The mask `-1ULL >> e` is `2 ^ k - 1` for `k + e ≡ 64`.
pub clear_below-cut : (k e x : ℕ) → k + e ≡ 64 → x < 2 ^ 64 → clear_below x e ≡ x / 2 ^ k * 2 ^ k
unfolding clear_below
clear_below-cut k e x s hx =
    let p = 2 ^ k in
    let positive : 1 ≤ p = one-le-pow k 2 (omega arith) in
    let whole : 2 ^ (k + e) ≡ 2 ^ 64 = ap (λ (n : ℕ). 2 ^ n) s in
    let high : bit_and x (2 ^ 64 - p) ≡ x / p * p =
      rw whole at (bit_and-high k e x (omega arith)) in
    let below : 2 ^ k ≤ 2 ^ (k + e) = pow-le-pow_right (omega arith) (omega arith) in
    let fits : p ≤ 2 ^ 64 = omega arith in
    let mask : 2 ^ 64 - 1 - (p - 1) ≡ 2 ^ 64 - p = omega arith in
    let parts : p * (x / p) + x % p ≡ x = div-add-mod x p in
    let comm : p * (x / p) ≡ x / p * p = mul_comm p (x / p) in
    rw (ones_shift k e s, bit_and-mask k x, mask, high) (ground arith)

-- The fields of a pattern whose low `k` bits are cleared.
pub cut_fields :
    (k g x : ℕ)
    → 1 ≤ 2 ^ k
    → g * 2 ^ k ≡ 2 ^ 52
    → (x / 2 ^ k * 2 ^ k / 2 ^ 52 ≡ x / 2 ^ 52)
      × (fraction_of (x / 2 ^ k * 2 ^ k) ≡ fraction_of x / 2 ^ k * 2 ^ k)
cut_fields k g x positive e =
    let p = 2 ^ k in
    let f = fraction_of x in
    let q = x / 2 ^ 52 in
    let assoc : q * g * p ≡ q * 2 ^ 52 =
      let t : q * g * p ≡ q * (g * p) = grind arith in rw e at t in
    let whole : x ≡ f + q * g * p = omega arith in
    let down : x / p ≡ f / p + q * g =
      ap (λ (n : ℕ). n / p) whole ∙ add-mul-div_right f (q * g) positive in
    let back : (f / p + q * g) * p ≡ f / p * p + q * g * p = grind arith in
    let total : x / p * p ≡ f / p * p + q * 2 ^ 52 =
      ap (λ (n : ℕ). n * p) down ∙ back ∙ ap (λ (n : ℕ). f / p * p + n) assoc in
    let small : f / p * p ≤ f =
      let t = div-add-mod f p in let c = mul_comm p (f / p) in omega arith in
    (omega arith, omega arith)
