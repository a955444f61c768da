-- ===== src/Libm/Rounding/Ends.antt =====
-- The values from 2 ^ 52 up, and below 1.
use wasm_cxx_shim.Prelude.{
  ℕ, ◌+◌, ◌-◌, ◌*◌, ◌^◌, ◌≤◌, ◌<◌, ◌≡◌, leb, ◌==◌, ◌||◌, arith, Bool-cases, inl, inr, sym, ap, ◌∙◌,
  refl, true, false,
}
use native.Mathlib.Nat.{one-le-pow, pow-le-pow_right, mul_assoc}
use wasm_cxx_shim.Libm.Double.{exponent_of, fraction_of, units, is_zero}
use wasm_cxx_shim.Libm.Double.Length.{pow-add}
use wasm_cxx_shim.Libm.Double.Exact.{pow-power, mul_mono_lt}
use wasm_cxx_shim.Libm.Double.Value.{units-none, units-pos}
use wasm_cxx_shim.Libm.Rounding.Parts.{whole_down, whole_up, whole-multiple}
use wasm_cxx_shim.Libm.Rounding.Step.{unit}

units-form :
    (x : ℕ) → 1 ≤ exponent_of x → units x ≡ (2 ^ 52 + fraction_of x) * 2 ^ (exponent_of x - 1)
unfolding units
units-form x h = let e : (exponent_of x == 0) ≡ false = ground arith in rw e refl

units-subnormal : (x : ℕ) → exponent_of x ≡ 0 → units x ≡ fraction_of x
unfolding units
units-subnormal x h = let e : (exponent_of x == 0) ≡ true = ground arith in rw e refl

pub end_multiple : (x : ℕ) → 0x3ff + 52 ≤ exponent_of x → (k : ℕ) × (units x ≡ k * unit)
end_multiple x large =
    let e = exponent_of x - 1 in
    let f = 2 ^ 52 + fraction_of x in
    let p : 2 ^ (e - 1074) * unit ≡ 2 ^ e = pow-power e 1074 (omega arith) in
    (
      f * 2 ^ (e - 1074),
      units-form x (omega arith)
          ∙ ap (λ (n : ℕ). f * n) (sym p)
          ∙ sym (mul_assoc f (2 ^ (e - 1074)) unit),
    )

-- From 2 ^ 52 up, and 0: a whole number.
pub end_whole :
    (x : ℕ)
    → leb (0x3ff + 52) (exponent_of x) || is_zero x ≡ true
    → (whole_down unit (units x) ≡ units x) × (whole_up unit (units x) ≡ units x)
end_whole x h = elim (Bool-cases (is_zero x)) [
  | inl z ↦
      let u : units x ≡ 0 * unit = units-none x z ∙ omega arith in
      rw u (whole-multiple unit 0 (omega arith))
  | inr z ↦ let (k, u) = end_multiple x (ground arith) in rw u (whole-multiple unit k (omega arith))
]

-- Below 1, and not 0.
pub end_small :
    (x : ℕ) → is_zero x ≡ false → exponent_of x ≤ 1022 → (0 < units x) × (units x < unit)
end_small x z h = elim (Bool-cases (exponent_of x == 0)) [
  | inl e ↦
      let u = units-subnormal x (ground arith) in let p = units-pos x z in (p, rw u (omega arith))
  | inr e ↦
      let k = exponent_of x - 1 in
      let u = units-form x (ground arith) in
      let pos_p = one-le-pow k 2 (omega arith) in
      let below = mul_mono_lt (2 ^ k) (2 ^ 52 + fraction_of x) (2 ^ 53) pos_p (omega arith) in
      let up : 2 ^ (53 + k) ≡ 2 ^ 53 * 2 ^ k = pow-add 53 k in
      let most : 2 ^ (53 + k) ≤ unit =
        pow-le-pow_right {n = 2} (omega arith) {i = 53 + k} {j = 1074} (omega arith) in
      (units-pos x z, rw u (omega arith))
]
