-- ===== src/Libm/Rounding/Nearest.antt =====
-- Adding 2 ^ 52 rounds to the nearest whole number.
use wasm_cxx_shim.Prelude.{
  ℕ, suc, ◌+◌, ◌-◌, ◌*◌, ◌/◌, ◌%◌, ◌^◌, ◌≤◌, ◌<◌, ◌≡◌, ◌⊎◌, ◌==◌, arith, Bool-cases, inl, inr, ap,
  ◌∙◌,
}
use Prim.Native.Nat.{max}
use native.Mathlib.Nat.{
  one-le-pow, pow-le-pow_right, two-pow-succ, add-mul-div_right, add-mul-mod_self_right,
}
use wasm_cxx_shim.Libm.Double.{units, rounded, round_even, bit_length}
use wasm_cxx_shim.Libm.Double.Length.{pow-add}
use wasm_cxx_shim.Libm.Double.Exact.{power_lt, units-normal, bit_length-HasDigits}

-- The whole part, or one more where the rest is at least a half.
pub round_even-cases :
    (m q : ℕ)
    → ((round_even m q ≡ m / 2 ^ q) × (2 * (m % 2 ^ q) ≤ 2 ^ q))
      ⊎ ((round_even m q ≡ m / 2 ^ q + 1) × (2 ^ q ≤ 2 * (m % 2 ^ q)))
unfolding round_even
round_even-cases m q = ground arith

pub round_even-add : (m q : ℕ) → round_even (m + 2 ^ 52 * 2 ^ q) q ≡ round_even m q + 2 ^ 52
unfolding round_even
round_even-add m q =
    let pos_p = one-le-pow q 2 (omega arith) in
    rw (add-mul-div_right m (2 ^ 52) pos_p, add-mul-mod_self_right m (2 ^ 52) (2 ^ q))
      (ground arith)

pub rounded_shifted :
    (m q : ℕ)
    → m < 2 ^ 52 * 2 ^ q
    → q ≤ 1100
    → round_even m q ≤ 2 ^ 52
    → rounded 0 (m + 2 ^ 52 * 2 ^ q) ≡ q * 2 ^ 52 + (2 ^ 52 + round_even m q)
unfolding rounded
rounded_shifted m q h l most =
    let n = m + 2 ^ 52 * 2 ^ q in
    let k = bit_length n in
    let low : 2 ^ (52 + q) ≡ 2 ^ 52 * 2 ^ q = pow-add 52 q in
    let mid : 2 ^ (53 + q) ≡ 2 ^ 53 * 2 ^ q = pow-add 53 q in
    let high : 2 ^ (54 + q) ≡ 2 ^ 54 * 2 ^ q = pow-add 54 q in
    let fits : 2 ^ (53 + q) ≤ 2 ^ 2099 =
      pow-le-pow_right (omega arith) {i = 53 + q} {j = 2099} (omega arith) in
    let v = bit_length-HasDigits n (omega arith) in
    let below = v.below in
    let a : 52 + q < k = power_lt (52 + q) k (omega arith) in
    let b : k < 54 + q = elim v.least [
      | inl e ↦ omega arith
      | inr e ↦ power_lt k (54 + q) (omega arith)
    ] in
    let cut : max (k - 53) 0 ≡ q = omega arith in
    let q0 : q - 0 ≡ q = omega arith in rw (cut, q0, round_even-add m q) (omega arith)

pub units-shifted :
    (r q : ℕ) → r ≤ 2 ^ 52 → q ≤ 1100 → units (q * 2 ^ 52 + (2 ^ 52 + r)) ≡ (2 ^ 52 + r) * 2 ^ q
units-shifted r q h l = elim (Bool-cases (r == 2 ^ 52)) [
  | inl e ↦
      let full : r ≡ 2 ^ 52 = ground arith in
      let up : q * 2 ^ 52 + (2 ^ 52 + 2 ^ 52) ≡ suc q * 2 ^ 52 + 2 ^ 52 = omega arith in
      let t = units-normal (suc q) (2 ^ 52) (omega arith) (omega arith) (omega arith) in
      let double : 2 ^ 52 * 2 ^ suc q ≡ (2 ^ 52 + 2 ^ 52) * 2 ^ q =
        rw (two-pow-succ q) (omega arith) in
      rw full (ap units up ∙ t ∙ double)
  | inr e ↦ units-normal q (2 ^ 52 + r) (omega arith) (ground arith) (omega arith)
]
