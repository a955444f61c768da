-- ===== src/Libm/Remquo/Place.antt =====
-- libm/src/musl/remquo.c: where a remainder and the divisor are, by their exponents.
use wasm_cxx_shim.Prelude.{
  ℕ, ◌+◌, ◌-◌, ◌*◌, ◌^◌, ◌≤◌, ◌<◌, ◌≡◌, leb, ltb, ◌==◌, arith, Bool-cases, inl, inr, sym, ap, ◌∙◌,
  refl, leb→le,
}
use native.Mathlib.Nat.{one-le-pow, mul_assoc, pow-le-pow_right}
use wasm_cxx_shim.Libm.Double.Length.{pow-add}
use wasm_cxx_shim.Libm.Double.Exact.{mul_mono, mul_mono_lt, pow-power, cancel_lt, cancel_le}
use wasm_cxx_shim.Libm.Double.Value.{Representable}
use wasm_cxx_shim.Libm.Fma.Once.{sub-mul}
use wasm_cxx_shim.Libm.Remquo.{Operand}
use wasm_cxx_shim.Libm.Remquo.Scaled.{IsOperand, cancel_eq}
use wasm_cxx_shim.Libm.Remquo.Nearest.{Placed}

-- An operand lies between two powers of two.
pub IsOperand-bounds :
    (n : ℕ) (t : Operand)
    → (v : IsOperand n t) → (2 ^ 52 * 2 ^ v.up ≤ n * 2 ^ 64) × (n * 2 ^ 64 < 2 ^ 53 * 2 ^ v.up)
IsOperand-bounds n t v =
    let w = v.value in
    let a = mul_mono (2 ^ v.up) (2 ^ 52) t.bits v.low in
    let b = mul_mono_lt (2 ^ v.up) t.bits (2 ^ 53) (one-le-pow v.up 2 (omega arith)) v.high in
    (omega arith, omega arith)

pub power_ratio : (a b k : ℕ) → a + k ≤ b → 2 ^ k * 2 ^ a ≤ 2 ^ b
power_ratio a b k h =
    let e : k + a ≡ a + k = omega arith in
    rw (sym (pow-add k a), e) (pow-le-pow_right {n = 2} (omega arith) {i = a + k} {j = b} h)

double_small : (n : ℕ) → n < 2 ^ 2097 → 2 * n < 2 ^ 2098
double_small n h = omega arith

pub IsOperand-Placed :
    (r v : ℕ) (t b : Operand)
    → (x : IsOperand r t) → (y : IsOperand v b) → r < v
    → Placed x.up y.up r v
IsOperand-Placed r v t b x y h =
    let (xl, xh) = IsOperand-bounds r t x in
    let (yl, yh) = IsOperand-bounds v b y in
    let e = x.up in
    let f = y.up in
    let most = y.most in
    elim (Bool-cases (e == f)) [
      | inl o ↦
          let same : e ≡ f = ground arith in
          let p : 2 ^ e ≡ 2 ^ f = ap (λ (i : ℕ). 2 ^ i) same in
          inl (same, cancel_lt (2 ^ 64) v (2 * r) (omega arith))
      | inr o ↦ elim (Bool-cases (ltb f e)) [
        | inl g ↦ let p = power_ratio f e 1 (ground arith) in absurd (omega arith)
        | inr g ↦ elim (Bool-cases (e + 1 == f)) [
          | inl k ↦
              let p = power_ratio e 2108 0 (ground arith) in
              let c : 2 ^ 53 * 2 ^ 2108 ≤ 2 ^ 2097 * 2 ^ 64 = leb→le _ _ refl in
              let small : r < 2 ^ 2097 = cancel_lt (2 ^ 64) r (2 ^ 2097) (omega arith) in
              inr (inl (ground arith, double_small r small))
          | inr k ↦
              let p = power_ratio e f 2 (ground arith) in
              inr (inr (ground arith, cancel_lt (2 ^ 64) (2 * r) v (omega arith)))
        ]
      ]
    ]

difference_value :
    (r v bt bb e f : ℕ)
    → e ≤ f
    → r * 2 ^ 64 ≡ bt * 2 ^ e
    → v * 2 ^ 64 ≡ bb * 2 ^ f
    → (v - r) * 2 ^ 64 ≡ (bb * 2 ^ (f - e) - bt) * 2 ^ e
difference_value r v bt bb e f h a b =
    let p : 2 ^ (f - e) * 2 ^ e ≡ 2 ^ f = pow-power f e h in
    let c : bb * 2 ^ f ≡ bb * 2 ^ (f - e) * 2 ^ e =
      ap (λ (i : ℕ). bb * i) (sym p) ∙ sym (mul_assoc bb (2 ^ (f - e)) (2 ^ e)) in
    sub-mul v r (2 ^ 64) ∙ rw (a, b, c) (sym (sub-mul (bb * 2 ^ (f - e)) bt (2 ^ e)))

scaled-Representable :
    (n d e : ℕ) → d < 2 ^ 53 → e ≤ 2109 → n * 2 ^ 64 ≡ d * 2 ^ e → Representable n
scaled-Representable n d e h l w = elim (Bool-cases (leb 64 e)) [
  | inl o ↦
      let p : 2 ^ (e - 64) * 2 ^ 64 ≡ 2 ^ e = pow-power e 64 (ground arith) in
      let value : n ≡ d * 2 ^ (e - 64) =
        cancel_eq (2 ^ 64) n (d * 2 ^ (e - 64)) (omega arith)
          (w ∙ ap (λ (i : ℕ). d * i) (sym p) ∙ sym (mul_assoc d (2 ^ (e - 64)) (2 ^ 64))) in
      record { digits = d; shift = e - 64; short = h; low = omega arith; product = value }
  | inr o ↦
      let p : 2 ^ e ≤ 2 ^ 64 =
        pow-le-pow_right {n = 2} (omega arith) {i = e} {j = 64} (ground arith) in
      let q = mul_mono d (2 ^ e) (2 ^ 64) p in
      let small : n ≤ d = cancel_le (2 ^ 64) n d (omega arith) (grind (arith, q, w)) in
      record {
        digits = n;
        shift = 0;
        short = omega arith;
        low = omega arith;
        product = omega arith;
      }
]

-- A difference at most as large as the remainder.
pub difference-Representable :
    (r v : ℕ) (t b : Operand)
    → IsOperand r t
    → IsOperand v b
    → r < v
    → v ≤ 2 * r
    → Representable (v - r)
difference-Representable r v t b x y h l =
    let (xl, xh) = IsOperand-bounds r t x in
    let (yl, yh) = IsOperand-bounds v b y in
    let e = x.up in
    let f = y.up in
    let order : e ≤ f = elim (Bool-cases (leb e f)) [
      | inl o ↦ ground arith
      | inr o ↦ let p = power_ratio f e 1 (ground arith) in absurd (omega arith)
    ] in
    let d = b.bits * 2 ^ (f - e) - t.bits in
    let value = difference_value r v t.bits b.bits e f order x.value y.value in
    let less = mul_mono (2 ^ 64) (v - r) r (omega arith) in
    let w = x.value in
    let high = x.high in
    let small : d ≤ t.bits =
      cancel_le (2 ^ e) d t.bits (one-le-pow e 2 (omega arith)) (omega arith) in
    scaled-Representable (v - r) d e (omega arith) x.most value
