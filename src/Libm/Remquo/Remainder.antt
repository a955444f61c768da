-- ===== src/Libm/Remquo/Remainder.antt =====
-- libm/src/musl/remquo.c: remquo on finite numbers.
use wasm_cxx_shim.Prelude.{
  ℕ, ◌+◌, ◌-◌, ◌*◌, ◌/◌, ◌%◌, ◌^◌, ◌≤◌, ◌<◌, ◌≡◌, leb, ltb, ◌==◌, arith, Bool-cases, inl, inr, ap,
  ◌∙◌, refl, true, false,
}
use native.Mathlib.Nat.{mod-lt}
use wasm_cxx_shim.Prelude.Int.{ℤ, negsuc, sub_ℕ, pos_part, ltb_ℤ, ◌-ℤ◌}
use wasm_cxx_shim.Prelude.Int.Sub.{sub-sub_ℕ, ltb-sub_ℕ}
use wasm_cxx_shim.Libm.Double.{sign_of, exponent_of, magnitude, inf_bits, is_nan, is_zero, units}
use wasm_cxx_shim.Libm.Double.Exact.{cancel_lt}
use wasm_cxx_shim.Libm.Double.Value.{units-none, units-pos}
use wasm_cxx_shim.Libm.Remquo.{Operand, normalize, divided, same_ℤ, finish, remquo}
use wasm_cxx_shim.Libm.Remquo.Operands.{divided_lem}
use wasm_cxx_shim.Libm.Remquo.Scaled.{IsOperand, normalize-IsOperand}
use wasm_cxx_shim.Libm.Remquo.Nearest.{same-sub_ℕ}
use wasm_cxx_shim.Libm.Remquo.Place.{IsOperand-bounds, power_ratio}
use wasm_cxx_shim.Libm.Remquo.Exact.{
  quotient, IsRemainder, finish-below, finish-above, division-parts, rest_of, itself-IsRemainder,
}

-- Smaller exponents are those of smaller numbers.
below-IsOperand :
    (m n : ℕ) (a b : Operand)
    → (v : IsOperand m a) → (w : IsOperand n b)
    → (v.up < w.up → m < n) × (v.up + 1 < w.up → 2 * m < n)
below-IsOperand m n a b v w =
    let (al, ah) = IsOperand-bounds m a v in
    let (bl, bh) = IsOperand-bounds n b w in
    (
      λ (h : v.up < w.up).
          let p = power_ratio v.up w.up 1 (omega arith) in cancel_lt (2 ^ 64) m n (omega arith),
      λ (h : v.up + 1 < w.up).
          let p = power_ratio v.up w.up 2 (omega arith) in
          cancel_lt (2 ^ 64) (2 * m) n (omega arith),
    )

difference_part : (a b : ℕ) → b ≤ a → pos_part (sub_ℕ (a + 63) (63 + b)) ≡ a - b
difference_part a b h = let o : leb (63 + b) (a + 63) ≡ true = ground arith in rw o (omega arith)

-- The division where the dividend has the larger exponent.
above-IsRemainder :
    (x y : ℕ)
    → y < 2 ^ 64
    → magnitude y < inf_bits
    → is_zero x ≡ false
    → is_zero y ≡ false
    → (va : IsOperand (units x) (normalize x)) → (vb : IsOperand (units y) (normalize y))
    → vb.up ≤ va.up
    → let b = normalize y in
      let d = divided (normalize x) b in
      IsRemainder x y
        (quotient x y)
        (finish (sign_of x) y (rest_of d.uxi b.exponent) b.exponent d.q)
above-IsRemainder x y ly fy zx zy va vb h =
    let a = normalize x in
    let b = normalize y in
    let exponents : a.exponent -ℤ b.exponent ≡ sub_ℕ (va.up + 63) (63 + vb.up) =
      rw (va.at, vb.at) (sub-sub_ℕ va.up 63 vb.up 63) in
    let shift : pos_part (a.exponent -ℤ b.exponent) ≡ va.up - vb.up =
      rw exponents (difference_part va.up vb.up h) in
    let s = a.bits * 2 ^ (va.up - vb.up) in
    let r = s % b.bits in
    let low = vb.low in
    let high = vb.high in
    let bound = mod-lt s {m = b.bits} (omega arith) in
    let parts = division-parts x y ly fy zy a b va vb r h refl in
    let d : divided a b ≡ record { uxi = r; q = units x / units y % 2 ^ 32 } =
      divided_lem x y zx zy ∙ rw (shift, parts.0) refl in
    rw (d, vb.at) (finish-above x y ly fy zy a b va vb r (omega arith) parts.1)

-- For finite 64-bit patterns, the second no zero, the value of remquo is exactly x - n * y, for the whole
-- number n nearest to x / y in size, with its sign, and of two as near the even one. The quotient it
-- stores is the low 31 bits of the size of n, with the sign of x / y.
pub remquo_lem :
    (x y : ℕ)
    → x < 2 ^ 64
    → y < 2 ^ 64
    → magnitude x < inf_bits
    → magnitude y < inf_bits
    → is_zero y ≡ false
    → IsRemainder x y (quotient x y) (remquo x y)
unfolding remquo
remquo_lem x y lx ly fx fy zy =
    let first : (y * 2 % 2 ^ 64 == 0) ≡ false = ground arith in
    let number : is_nan y ≡ false = ground arith in
    let finite : (exponent_of x == 0x7ff) ≡ false = ground arith in
    let zx : (x * 2 % 2 ^ 64 == 0) ≡ is_zero x = ground arith in
    let some = units-pos y zy in
    elim (Bool-cases (is_zero x)) [
      | inl z ↦
          let none = units-none x z in
          rw (first, number, finite, zx ∙ z) (itself-IsRemainder x y lx fx (omega arith))
      | inr z ↦
          let a = normalize x in
          let b = normalize y in
          let va = normalize-IsOperand x fx z in
          let vb = normalize-IsOperand y fy zy in
          let order : ltb_ℤ a.exponent b.exponent ≡ ltb va.up vb.up =
            rw (va.at, vb.at) (ltb-sub_ℕ va.up 63 vb.up 63 ∙ ground arith) in
          let next : same_ℤ (a.exponent -ℤ negsuc 0) b.exponent ≡ (va.up + 1 == vb.up) =
            rw (va.at, vb.at)
              (ap (λ (i : ℤ). same_ℤ i (sub_ℕ vb.up 63)) (sub-sub_ℕ va.up 63 0 1)
                ∙ same-sub_ℕ (va.up + 1) vb.up 63) in
          rw (first, number, finite, zx ∙ z)
            (elim (Bool-cases (ltb va.up vb.up)) [
              | inl o ↦ elim (Bool-cases (va.up + 1 == vb.up)) [
                | inl k ↦
                    rw (order ∙ o, next ∙ k)
                      (finish-below x y ly fy zy a b va vb
                        ((below-IsOperand (units x) (units y) a b va vb).0 (ground arith)))
                | inr k ↦
                    rw (order ∙ o, next ∙ k)
                      (itself-IsRemainder x y lx fx
                        ((below-IsOperand (units x) (units y) a b va vb).1 (ground arith)))
              ]
              | inr o ↦ rw (order ∙ o) (above-IsRemainder x y ly fy z zy va vb (ground arith))
            ])
    ]
