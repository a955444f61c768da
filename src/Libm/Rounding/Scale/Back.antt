-- ===== src/Libm/Rounding/Scale/Back.antt =====
-- libm/src/musl/scalbn.c: a scaling that loses nothing, and back.
use wasm_cxx_shim.Prelude.{
  ℕ, suc, ◌+◌, ◌-◌, ◌*◌, ◌^◌, ◌≤◌, ◌<◌, ◌≡◌, leb, arith, Bool-cases, inl, inr, sym, ap, ◌∙◌, refl,
  leb→le, leb→gt,
}
use native.Mathlib.Nat.{pow-le-pow_right, mul_assoc, lt_of_lt_of_le}
use wasm_cxx_shim.Prelude.Int
use wasm_cxx_shim.Prelude.Int.{ℤ, pos, negsuc, sub_ℕ}
use wasm_cxx_shim.Libm.Double.{sign_of, magnitude, inf_bits, units, rounded, signed}
use wasm_cxx_shim.Libm.Double.Length.{pow-add}
use wasm_cxx_shim.Libm.Double.Exact.{pow-power, cancel_lt}
use wasm_cxx_shim.Libm.Double.Value.{Representable, Representable-rounded}
use wasm_cxx_shim.Libm.Double.Order.{units_order}
use wasm_cxx_shim.Libm.Double.Scale.{rounded-shift}
use wasm_cxx_shim.Libm.Rounding.{scalbn}
use wasm_cxx_shim.Libm.Rounding.Scale.{scaled, units-Parts, units-finite}
use wasm_cxx_shim.Libm.Rounding.Scale.Up.{signed-Exactly}
use wasm_cxx_shim.Libm.Rounding.Scale.Scalbn.{scalbn_lem}

pub scaled-sub : (n f c : ℕ) → n * 2 ^ f < 2 ^ 8191 → scaled n (sub_ℕ f c) ≡ rounded c (n * 2 ^ f)
unfolding scaled
scaled-sub n f c h = elim (Bool-cases (leb c f)) [
  | inl e ↦
      let d : f - c + c ≡ f = omega (arith, leb→le _ _ e) in
      let z : 0 + c ≡ c = omega arith in
      let t : n * 2 ^ f ≡ n * 2 ^ (f - c) * 2 ^ c =
        ap (λ (i : ℕ). n * 2 ^ i) (sym d) ∙ rw (pow-add (f - c) c) (grind arith) in
      let r = rounded-shift (n * 2 ^ (f - c)) 0 c (rw t at h) in rw (e, t) (sym (rw z at r))
  | inr e ↦
      let d : suc (c - f - 1) + f ≡ c = omega (arith, leb→gt _ _ e) in
      rw e (sym (rw d at (rounded-shift n (suc (c - f - 1)) f h)))
]

-- A number of at most 53 digits and zeros, within the range.
product-Representable : (d j : ℕ) → d < 2 ^ 53 → d * 2 ^ j < 2 ^ 2098 → Representable (d * 2 ^ j)
product-Representable d j h l = elim (Bool-cases (leb j 2045)) [
  | inl o ↦ record { digits = d; shift = j; short = h; low = leb→le _ _ o; product = refl }
  | inr o ↦
      let k = j - 2045 in
      let p : 2 ^ k * 2 ^ 2045 ≡ 2 ^ j = pow-power j 2045 (ground arith) in
      let e : d * 2 ^ j ≡ d * 2 ^ k * 2 ^ 2045 =
        ap (λ (i : ℕ). d * i) (sym p) ∙ sym (mul_assoc d (2 ^ k) (2 ^ 2045)) in
      let short = cancel_lt (2 ^ 2045) (d * 2 ^ k) (2 ^ 53) (rw e at l) in
      record { digits = d * 2 ^ k; shift = 2045; short = short; low = omega arith; product = e }
]

scaled-Representable :
    (x n : ℕ)
    → magnitude x < inf_bits
    → units x * 2 ^ n < 2 ^ 2098
    → Representable (units x * 2 ^ n)
scaled-Representable x n h l =
    let p = units-Parts x h in
    let e : units x * 2 ^ n ≡ p.digits * 2 ^ (p.shift + n) =
      rw (p.product, pow-add p.shift n) (mul_assoc p.digits (2 ^ p.shift) (2 ^ n)) in
    rw e (product-Representable p.digits (p.shift + n) p.short (rw e at l))

-- Rounding the value of a double gives the double, without its sign.
rounded-units : (x : ℕ) → magnitude x < inf_bits → rounded 0 (units x) ≡ magnitude x
rounded-units x h =
    let one : units x * 2 ^ 0 ≡ units x = omega arith in
    let r = scaled-Representable x 0 h (rw one (units-finite x h)) in
    let (u, f) = Representable-rounded (units x * 2 ^ 0) r in
    let y = rounded 0 (units x) in
    let u' : units y ≡ units x = rw one at u in
    let f' : y < inf_bits = rw one at f in
    let a = units_order x y in let b = units_order y x in ground arith

-- For a finite 64-bit pattern and an exponent that does not take it out of the range of the finite
-- numbers, scalbn up by the exponent and down again returns the pattern, its sign included.
pub scalbn-scalbn :
    (x n : ℕ)
    → x < 2 ^ 64
    → magnitude x < inf_bits
    → units x * 2 ^ n < 2 ^ 2098
    → scalbn (scalbn x (pos n)) (Int.neg (pos n)) ≡ x
unfolding scaled
scalbn-scalbn x n h f l =
    let m = units x * 2 ^ n in
    let s = sign_of x in
    let (u, g) = Representable-rounded m (scaled-Representable x n f l) in
    let v = signed-Exactly s (rounded 0 m) m (omega arith) u g in
    let far : 2 ^ 2098 ≤ 2 ^ 8191 =
      pow-le-pow_right {n = 2} (omega arith) {i = 2098} {j = 8191} (omega arith) in
    let fits = lt_of_lt_of_le l far in
    let one : m * 2 ^ 0 ≡ m = omega arith in
    let z : 0 + n ≡ n = omega arith in
    let back : rounded n m ≡ rounded 0 (units x) = rw z at (rounded-shift (units x) 0 n fits) in
    let down : scaled m (sub_ℕ 0 n) ≡ rounded n m = rw one at (scaled-sub m 0 n (rw one fits)) in
    let same : signed s (magnitude x) ≡ x = omega arith in
    rw (scalbn_lem x (pos n) h f) (
      scalbn_lem (signed s (rounded 0 m)) (sub_ℕ 0 n) v.fits v.finite
      ∙ rw (v.sign, v.value, down, back, rounded-units x f) same)
