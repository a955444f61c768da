-- ===== src/Libm/Fma/Once/Zero.antt =====
-- libm/src/musl/fma.c: `x*y + z` where the product is exact, and where one number is 0.
use wasm_cxx_shim.Prelude.{
  ℕ, ◌+◌, ◌-◌, ◌*◌, ◌^◌, ◌<◌, ◌≡◌, ltb, ◌==◌, arith, Bool-cases, inl, inr, ap, ◌∙◌, refl, true,
  false,
}
use native.Mathlib.Nat.{one-le-pow}
use wasm_cxx_shim.Libm.Double.{
  sign_of, magnitude, inf_bits, is_zero, units, rounded, signed, add_finite, ◌⊕◌, ◌⊗◌,
}
use wasm_cxx_shim.Libm.Double.Exact.{rounded_exact}
use wasm_cxx_shim.Libm.Double.Value.{add-finite, units-none, units-zero}
use wasm_cxx_shim.Libm.Double.Scale.{rounded-shift, rounded-zero}
use wasm_cxx_shim.Libm.Rounding.Scale.{Parts, units-Parts, units-finite}
use wasm_cxx_shim.Libm.Rounding.Scale.Up.{Exactly, signed-Exactly}
use wasm_cxx_shim.Libm.Fma.Convert.Subnormal.{mul-finite}
use wasm_cxx_shim.Libm.Fma.Once.{
  product, addend, product_sign, rounded_once, scaled-compare, small_units,
}

in_units : (m n : ℕ) → m ≡ n * 2 ^ 1074 → n < 2 ^ 2099 → rounded 1074 m ≡ rounded 0 n
in_units m n e h = ap (rounded 1074) e ∙ rounded-shift n 0 1074 (small_units n 1074 h (omega arith))

-- The product has `n` units.
module _ (x y z n : ℕ) (fx : magnitude x < inf_bits) (fy : magnitude y < inf_bits)
    (fz : magnitude z < inf_bits) (lz : z < 2 ^ 64) (small : n < 2 ^ 2098)
    (value : product x y ≡ n * 2 ^ 1074)
    (exact : (units (rounded 0 n) ≡ n) × (rounded 0 n < inf_bits)) where
  product-Exactly : Exactly (x ⊗ y) (product_sign x y) n
  product-Exactly =
      let e : rounded 1074 (product x y) ≡ rounded 0 n =
        in_units (product x y) n value (omega arith) in
      let s : signed (sign_of x + sign_of y) (rounded 0 n)
          ≡ signed (product_sign x y) (rounded 0 n) =
        omega arith in
      rw (mul-finite x y fx fy, e, s)
        (signed-Exactly (product_sign x y) (rounded 0 n) n (omega arith) exact.0 exact.1)

  sum-product : x ⊗ y ⊕ z ≡ rounded_once x y z
  unfolding add_finite rounded_once
  sum-product =
      let v = product-Exactly in
      let u = units z in
      let p = product x y in
      let q = addend z in
      let one : p * 1 ≡ n * 2 ^ 1074 = omega (arith, value) in
      let one' : q * 1 ≡ u * 2 ^ 1074 = omega arith in
      let (lt, eq, d) = scaled-compare p q 1 n u (2 ^ 1074) (omega arith) (omega arith) one one' in
      let big = units-finite z fz in
      let sum : rounded 1074 (p + q) ≡ rounded 0 (n + u) =
        in_units (p + q) (n + u) (omega arith) (omega arith) in
      add-finite (x ⊗ y) z v.finite fz ∙ elim (Bool-cases (product_sign x y == sign_of z)) [
        | inl e ↦
            let same : product_sign x y ≡ sign_of z = ground arith in
            rw (v.sign, v.value, e, sum, same) refl
        | inr e ↦ elim (Bool-cases (n == u)) [
          | inl f ↦ rw (v.sign, v.value, e, eq, f) refl
          | inr f ↦ elim (Bool-cases (ltb n u)) [
            | inl g ↦
                let d : rounded 1074 (q - p) ≡ rounded 0 (u - n) =
                  in_units (q - p) (u - n) (omega arith) (omega arith) in
                rw (v.sign, v.value, e, eq, lt, f, g, d) refl
            | inr g ↦
                let d : rounded 1074 (p - q) ≡ rounded 0 (n - u) =
                  in_units (p - q) (n - u) (omega arith) (omega arith) in
                rw (v.sign, v.value, e, eq, lt, f, g, d) refl
          ]
        ]
      ]

Parts-exact : (n : ℕ) → Parts n → (units (rounded 0 n) ≡ n) × (rounded 0 n < inf_bits)
Parts-exact n p = rw p.product (rounded_exact p.digits p.shift p.short p.low)

-- The product is the addend, but for the sign.
pub equal-product :
    (x y z : ℕ)
    → magnitude x < inf_bits
    → magnitude y < inf_bits
    → magnitude z < inf_bits
    → z < 2 ^ 64
    → product x y ≡ addend z
    → x ⊗ y ⊕ z ≡ rounded_once x y z
equal-product x y z fx fy fz lz e =
    sum-product x y z (units z) fx fy fz lz (units-finite z fz) e
      (Parts-exact (units z) (units-Parts z fz))

pub zero-product :
    (x y z : ℕ)
    → magnitude x < inf_bits
    → magnitude y < inf_bits
    → magnitude z < inf_bits
    → z < 2 ^ 64
    → product x y ≡ 0
    → x ⊗ y ⊕ z ≡ rounded_once x y z
zero-product x y z fx fy fz lz e =
    let none = rounded-zero 0 in
    let least : 0 < 2 ^ 2098 = one-le-pow 2098 2 (omega arith) in
    sum-product x y z 0 fx fy fz lz least (omega arith) (rw none (units-zero, omega arith))

pub zero-addend :
    (x y z : ℕ)
    → magnitude x < inf_bits
    → magnitude y < inf_bits
    → is_zero z ≡ true
    → 0 < product x y
    → x ⊗ y ≡ rounded_once x y z
unfolding rounded_once
zero-addend x y z fx fy e h =
    let p = product x y in
    let none = units-none z e in
    let q : addend z ≡ 0 = omega arith in
    let s : signed (sign_of x + sign_of y) (rounded 1074 p)
        ≡ signed (product_sign x y) (rounded 1074 p) =
      omega arith in
    let plus : p + 0 ≡ p = omega arith in
    let minus : p - 0 ≡ p = omega arith in
    let differ : (p == 0) ≡ false = ground arith in
    let order : ltb p 0 ≡ false = ground arith in
    mul-finite x y fx fy ∙ s ∙ elim (Bool-cases (product_sign x y == sign_of z)) [
      | inl f ↦ let same : sign_of z ≡ product_sign x y = ground arith in rw (f, q, plus, same) refl
      | inr f ↦ rw (f, q, differ, order, minus) refl
    ]
