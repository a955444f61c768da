-- ===== src/Libm/Fma/Normalize.antt =====
-- libm/src/musl/fma.c: normalize, on finite numbers.
use wasm_cxx_shim.Prelude.{
  ℕ, ◌+◌, ◌-◌, ◌*◌, ◌%◌, ◌^◌, ◌≤◌, ◌<◌, ◌≡◌, ltb, ◌==◌, arith, Bool-cases, inl, inr, bit_or, ap,
  ◌∙◌, refl, true, false,
}
use native.Mathlib.Nat.{one-le-pow}
use wasm_cxx_shim.Prelude.Bits.{bit_or-shifted}
use wasm_cxx_shim.Prelude.Int.{pos, sub_ℕ, ◌-ℤ◌, ltb_ℤ}
use wasm_cxx_shim.Prelude.Int.Sub.{sub_ℕ-eq, sub-sub_ℕ, pos-sub_ℕ, ltb-sub_ℕ}
use wasm_cxx_shim.Libm.Double.{
  sign_of, exponent_of, fraction_of, magnitude, inf_bits, is_zero, units, power, ◌⊗◌,
}
use wasm_cxx_shim.Libm.Double.Length.{pow-add}
use wasm_cxx_shim.Libm.Double.Exact.{mul_mono}
use wasm_cxx_shim.Libm.Double.Value.{units-none, units-pos}
use wasm_cxx_shim.Libm.Double.Order.{normal_units, subnormal_units}
use wasm_cxx_shim.Libm.Rounding.{scale_once}
use wasm_cxx_shim.Libm.Rounding.Scale.Up.{Exactly, start-Carried, up-Carried}
use wasm_cxx_shim.Libm.Fma.{Num, normalize, zeroinfnan_exponent}

-- A number that is not 0 as 53 digits with a 0 behind them, and an exponent.
pub record Normalized (x : ℕ) (n : Num) : Type 0 where
  pub exponent : ℕ
  pub low : 2 ^ 53 ≤ n.m
  pub high : n.m < 2 ^ 54
  pub even : n.m % 2 ≡ 0
  pub at : n.e ≡ sub_ℕ exponent 1139
  pub top : exponent ≤ 2109
  pub value : units x * 2 ^ 65 ≡ n.m * 2 ^ exponent
  pub sign : n.negative ≡ (sign_of x == 1)

-- `(ix & (1ull<<52)-1 | 1ull<<52) << 1`
mantissa_lem : (x : ℕ) → bit_or (x % 2 ^ 52) (2 ^ 52) * 2 % 2 ^ 64 ≡ (2 ^ 52 + fraction_of x) * 2
mantissa_lem x = let t = bit_or-shifted 52 (x % 2 ^ 52) 1 (omega arith) in omega arith

regroup : (s p : ℕ) → s * p * 2 ^ 65 ≡ s * 2 * (p * 2 ^ 64)
regroup s p = grind arith

normal_value : (s e : ℕ) → 1 ≤ e → s * 2 ^ (e - 1) * 2 ^ 65 ≡ s * 2 * 2 ^ (e + 63)
normal_value s e h =
    let a : e + 63 ≡ (e - 1) + 64 = omega arith in
    rw a (rw (pow-add (e - 1) 64) (regroup s (2 ^ (e - 1))))

-- The multiple by 2 ^ 63 of a number with exponent field 0.
scaled-Exactly :
    (x : ℕ)
    → x < 2 ^ 64
    → (exponent_of x == 0) ≡ true
    → Exactly (x ⊗ power (0x3ff + 63)) (sign_of x) (units x * 2 ^ 63)
unfolding scale_once
scaled-Exactly x h e =
    let f : magnitude x < inf_bits = ground arith in
    let u = subnormal_units x e in
    let s : sign_of x < 2 = omega arith in
    elim (up-Carried x (sign_of x) (units x) 63 s (omega arith) (start-Carried x h f)) [
      | inl v ↦ v
      | inr (i, big) ↦ absurd (omega arith)
    ]

subnormal_value :
    (u t s e : ℕ) → 1 ≤ e → t ≡ u * 2 ^ 63 → t ≡ s * 2 ^ (e - 1) → u * 2 ^ 65 ≡ s * 2 * 2 ^ e
subnormal_value u t s e h k l =
    let a : e ≡ (e - 1) + 1 = omega arith in
    let b : 2 ^ e ≡ 2 ^ (e - 1) * 2 = ap (λ (i : ℕ). 2 ^ i) a ∙ pow-add (e - 1) 1 in
    let c : s * 2 * (2 ^ (e - 1) * 2) ≡ s * 2 ^ (e - 1) * 4 = grind arith in rw b (omega arith)

lower_exponent : (a b c d : ℕ) → a + d ≡ c + b → pos a -ℤ pos b ≡ sub_ℕ c d
lower_exponent a b c d h =
    rw (pos-sub_ℕ a, pos-sub_ℕ b, sub-sub_ℕ a 0 b 0) (sub_ℕ-eq _ _ c d (omega arith))

lower_twice : (a : ℕ) → pos a -ℤ pos 63 -ℤ pos (0x3ff + 52 + 1) ≡ sub_ℕ a 1139
lower_twice a =
    rw (lower_exponent a 63 a 63 refl, pos-sub_ℕ (0x3ff + 52 + 1), sub-sub_ℕ a 63 1076 0)
      (sub_ℕ-eq _ _ a 1139 (omega arith))

normal-Normalized :
    (x : ℕ)
    → x < 2 ^ 64
    → magnitude x < inf_bits
    → (exponent_of x == 0) ≡ false
    → Normalized x (normalize x)
unfolding normalize
normal-Normalized x h f e =
    let some : 1 ≤ exponent_of x = ground arith in
    let v : units x * 2 ^ 65 ≡ (2 ^ 52 + fraction_of x) * 2 * 2 ^ (exponent_of x + 63) =
      rw (normal_units x e) (normal_value (2 ^ 52 + fraction_of x) (exponent_of x) some) in
    rw (e, mantissa_lem x)
      (record {
        exponent = exponent_of x + 63;
        low = omega arith;
        high = omega arith;
        even = omega arith;
        at =
            lower_exponent (exponent_of x) (0x3ff + 52 + 1) (exponent_of x + 63) 1139 (omega arith);
        top = omega arith;
        value = v;
        sign = refl;
      })

subnormal-Normalized :
    (x : ℕ)
    → x < 2 ^ 64
    → is_zero x ≡ false
    → (exponent_of x == 0) ≡ true
    → Normalized x (normalize x)
unfolding normalize
subnormal-Normalized x h z e =
    let y = x ⊗ power (0x3ff + 63) in
    let v = scaled-Exactly x h e in
    let w = v.value in
    let f = v.finite in
    let some = units-pos x z in
    let large : (exponent_of y == 0) ≡ false = elim (Bool-cases (exponent_of y == 0)) [
      | inl o ↦ let t = subnormal_units y o in absurd (omega arith)
      | inr o ↦ o
    ] in
    let n = normal_units y large in
    rw (e, large, mantissa_lem y)
      (record {
        exponent = exponent_of y;
        low = omega arith;
        high = omega arith;
        even = omega arith;
        at = lower_twice (exponent_of y);
        top = omega arith;
        value =
            subnormal_value (units x) (units y) (2 ^ 52 + fraction_of y) (exponent_of y)
              (ground arith) w n;
        sign = refl;
      })

pub normalize-Normalized :
    (x : ℕ) → x < 2 ^ 64 → magnitude x < inf_bits → is_zero x ≡ false → Normalized x (normalize x)
normalize-Normalized x h f z = elim (Bool-cases (exponent_of x == 0)) [
  | inl e ↦ subnormal-Normalized x h z e
  | inr e ↦ normal-Normalized x h f e
]

pub small-exponent : (x : ℕ) (n : Num) → Normalized x n → ltb_ℤ n.e zeroinfnan_exponent ≡ true
small-exponent x n v =
    let t = v.top in
    let lt : ltb (v.exponent + 0) (971 + 1139) ≡ true = ground arith in
    rw v.at (ltb-sub_ℕ v.exponent 1139 971 0 ∙ lt)

-- A zero has an exponent of its own.
pub normalize-zero :
    (x : ℕ) → x < 2 ^ 64 → is_zero x ≡ true → (normalize x).e ≡ pos (0x800 - (0x3ff + 52 + 1))
unfolding normalize ◌-ℤ◌
normalize-zero x h z =
    let e : (exponent_of x == 0) ≡ true = ground arith in
    let y = x ⊗ power (0x3ff + 63) in
    let v = scaled-Exactly x h e in
    let w = v.value in
    let none = units-none x z in
    let small : (exponent_of y == 0) ≡ true = elim (Bool-cases (exponent_of y == 0)) [
      | inl o ↦ o
      | inr o ↦
          let t = normal_units y o in
          let p = mul_mono (2 ^ (exponent_of y - 1)) 1 (2 ^ 52 + fraction_of y) (omega arith) in
          let q = one-le-pow (exponent_of y - 1) 2 (omega arith) in absurd (omega arith)
    ] in
    rw (e, small) refl
