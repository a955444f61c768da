-- ===== src/Libm/Remquo/Operands.antt =====
-- The operands of the loop of `remquo`, and what the loop makes of them.
use wasm_cxx_shim.Prelude.{
  ℕ, suc, ◌+◌, ◌*◌, ◌/◌, ◌%◌, ◌^◌, ◌<◌, ◌≤◌, ◌≡◌, ap, ◌∙◌, refl, true, false, ◌==◌, arith,
  Bool-cases, inl, inr,
}
use native.Mathlib.Nat.{pow-suc, add-mul-mod_self_right, mod-eq_of_lt}
use wasm_cxx_shim.Prelude.Int.{pos_part, ◌-ℤ◌}
use wasm_cxx_shim.Libm.Double.{exponent_of, fraction_of, is_zero}
use wasm_cxx_shim.Libm.Pattern.{scan}
use wasm_cxx_shim.Libm.Pattern.Ilogb.{scan_parts}
use wasm_cxx_shim.Libm.Remquo.{normalize, divided}
use wasm_cxx_shim.Libm.Remquo.Reduce.{reduce_parts}

pub normal_bits : (u : ℕ) → 1 ≤ exponent_of u → (normalize u).bits ≡ fraction_of u + 2 ^ 52
unfolding normalize
normal_bits u h = let e : (exponent_of u == 0) ≡ false = ground arith in rw e refl

pub subnormal_bits :
    (u : ℕ)
    → exponent_of u ≡ 0
    → (normalize u).bits ≡ u * 2 ^ ((scan (fraction_of u * 2 ^ 12)).down + 1) % 2 ^ 64
unfolding normalize
subnormal_bits u h =
    let e : (exponent_of u == 0) ≡ true = ground arith in
    let f : u * 2 ^ 12 % 2 ^ 64 ≡ fraction_of u * 2 ^ 12 = omega arith in rw (e, f) refl

-- The shift drops the sign.
pub sign_dropped :
    (u d : ℕ)
    → exponent_of u ≡ 0
    → fraction_of u * 2 ^ 12 * 2 ^ d < 2 ^ 64
    → u * 2 ^ (d + 1) % 2 ^ 64 ≡ fraction_of u * 2 ^ d * 2
sign_dropped u d h b =
    let f = fraction_of u in
    let s = u / 2 ^ 63 in
    let p = 2 ^ d in
    let up : 2 ^ (d + 1) ≡ p * 2 = let e : d + 1 ≡ suc d = omega arith in rw e (pow-suc 2 d) in
    let parts : u ≡ f + s * 2 ^ 63 = omega arith in
    let spread : (f + s * 2 ^ 63) * (p * 2) ≡ f * p * 2 + s * p * 2 ^ 64 = grind arith in
    let swap : f * 2 ^ 12 * p ≡ 2 ^ 12 * (f * p) = grind arith in
    let fits : f * p * 2 < 2 ^ 64 = omega arith in
    rw up (
      ap (λ (n : ℕ). n * (p * 2) % 2 ^ 64) parts
      ∙ ap (λ (n : ℕ). n % 2 ^ 64) spread
      ∙ add-mul-mod_self_right (f * p * 2) (s * p) (2 ^ 64)
      ∙ mod-eq_of_lt fits)

pub normalize_range :
    (u : ℕ) → is_zero u ≡ false → (2 ^ 52 ≤ (normalize u).bits) × ((normalize u).bits < 2 ^ 53)
normalize_range u z = elim (Bool-cases (exponent_of u == 0)) [
  | inl e ↦
      let f = fraction_of u in
      let none : exponent_of u ≡ 0 = ground arith in
      let d = (scan (f * 2 ^ 12)).down in
      let (a, b) = scan_parts (f * 2 ^ 12) (ground arith) (omega arith) in
      let swap : f * 2 ^ 12 * 2 ^ d ≡ 2 ^ 12 * (f * 2 ^ d) = grind arith in
      rw (subnormal_bits u none, sign_dropped u d none b) (omega arith, omega arith)
  | inr e ↦ rw (normal_bits u (ground arith)) (omega arith, omega arith)
]

-- For patterns of finite numbers that are not 0, the loop of remquo leaves the remainder of the
-- mantissas, the first shifted by the difference of the exponents where that is positive, and the
-- low 32 bits of their quotient.
pub divided_lem :
    (x y : ℕ)
    → is_zero x ≡ false
    → is_zero y ≡ false
    → let a = normalize x in
      let b = normalize y in
      let scaled = a.bits * 2 ^ pos_part (a.exponent -ℤ b.exponent) in
      divided a b ≡ record { uxi = scaled % b.bits; q = scaled / b.bits % 2 ^ 32 }
unfolding divided
divided_lem x y zx zy =
    let (a_low, a_high) = normalize_range x zx in
    let (b_low, b_high) = normalize_range y zy in
    let a = (normalize x).bits in
    let b = (normalize y).bits in
    let d = pos_part ((normalize x).exponent -ℤ (normalize y).exponent) in
    let parts = reduce_parts d a b 0 (omega arith) (omega arith) in
    let start : 0 * 2 ^ d + a * 2 ^ d / b ≡ a * 2 ^ d / b = omega arith in rw start at parts
