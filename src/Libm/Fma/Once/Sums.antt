-- ===== src/Libm/Fma/Once/Sums.antt =====
-- libm/src/musl/fma.c: the sum from the product on, rounded once.
use wasm_cxx_shim.Prelude.{
  ℕ, ◌+◌, ◌*◌, ◌^◌, ◌≤◌, ◌<◌, ◌≡◌, Bool, ltb, ◌==◌, arith, Bool-cases, inl, inr, ap, ◌∙◌, refl,
  leb→le, true, false, not, ◌&&◌, if◌then◌else◌,
}
use native.Mathlib.Nat.{one-le-pow, lt_of_le_of_lt}
use wasm_cxx_shim.Prelude.Int.{ℤ, ◌+ℤ◌, ◌-ℤ◌}
use wasm_cxx_shim.Libm.Double.{sign_of, magnitude, inf_bits, units, rounded, ◌⊕◌, ◌⊗◌}
use wasm_cxx_shim.Libm.Double.Exact.{mul_mono}
use wasm_cxx_shim.Libm.Double.Scale.{rounded-shift}
use wasm_cxx_shim.Libm.Rounding.Scale.{units-finite}
use wasm_cxx_shim.Libm.Fma.{Num, mul, align, Aligned, Sum, add_same, add_opposite, fused}
use wasm_cxx_shim.Libm.Fma.Wide.{mul_bound}
use wasm_cxx_shim.Libm.Fma.Convert.{sign_bit}
use wasm_cxx_shim.Libm.Fma.Align.{distance, Aligns}
use wasm_cxx_shim.Libm.Fma.Normalize.{Normalized}
use wasm_cxx_shim.Libm.Fma.Fused.{same-rounded, opposite-rounded, convert}
use wasm_cxx_shim.Libm.Fma.Once.{
  product, addend, product_sign, rounded_once, scaled-compare, sum-scaled, Normalized-Common,
}
use wasm_cxx_shim.Libm.Fma.Once.Zero.{equal-product}

in_products : (m n : ℕ) → m ≡ n * 2 ^ 194 → n * 2 ^ 194 < 2 ^ 8191 → rounded 1268 m ≡ rounded 1074 n
in_products m n e h = ap (rounded 1268) e ∙ rounded-shift n 1074 194 h

-- What follows the sum `s`.
abbrev finish : ℕ → ℕ → ℕ → Sum → ℤ → ℕ
finish x y z s e = if not s.nonzero && s.rlo == 0 then x ⊗ y ⊕ z else convert s s.negative e

same-test :
    (a : Aligned) (b : Bool) → (not (add_same a b).nonzero && (add_same a b).rlo == 0) ≡ false
unfolding add_same
same-test a b = refl

-- The numbers `p` and `q` of 2 ^ base are the product and the addend.
module _ (x y z p q base : ℕ) (a : Aligned) (b : Bool) (least : 64 ≤ base)
    (sign : sign_bit b ≡ product_sign x y) (is_product : p * 2 ^ base ≡ product x y * 2 ^ 194)
    (is_addend : q * 2 ^ base ≡ addend z * 2 ^ 194)
    (sum_fits : (product x y + addend z) * 2 ^ 194 < 2 ^ 8191) (aligns : Aligns p q base a) where
  finish-same :
      (product_sign x y == sign_of z) ≡ true → finish x y z (add_same a b) a.e ≡ rounded_once x y z
  unfolding rounded_once
  finish-same e =
      let n = product x y + addend z in
      let total : (p + q) * 2 ^ base ≡ n * 2 ^ 194 =
        sum-scaled p q (2 ^ base) (product x y) (addend z) (2 ^ 194) is_product is_addend in
      let t = same-rounded p q base a b least (rw total sum_fits) aligns in
      let r = in_products ((p + q) * 2 ^ base) n total sum_fits in
      let same : sign_bit b ≡ sign_of z = ground arith in
      rw (e, same-test a b) (t ∙ rw (r, same) refl)

  finish-opposite :
      (magnitude x < inf_bits)
      → (magnitude y < inf_bits)
      → (magnitude z < inf_bits)
      → z < 2 ^ 64
      → (product_sign x y == sign_of z) ≡ false
      → finish x y z (add_opposite a b) a.e ≡ rounded_once x y z
  unfolding rounded_once
  finish-opposite fx fy fz lz e =
      let m = product x y in
      let n = addend z in
      let (lt, eq, d) =
        scaled-compare p q (2 ^ base) m n (2 ^ 194) (one-le-pow base 2 (omega arith)) (omega arith)
          is_product is_addend in
      let fits : distance m n * 2 ^ 194 < 2 ^ 8191 =
        lt_of_le_of_lt (mul_mono (2 ^ 194) (distance m n) (m + n) (ground arith)) sum_fits in
      let (zero_sum, t) = opposite-rounded p q base a b least (rw d fits) aligns in
      let r = in_products (distance p q * 2 ^ base) (distance m n) d fits in
      elim (Bool-cases (m == n)) [
        | inl f ↦ let s = zero_sum ∙ eq ∙ f in rw s (equal-product x y z fx fy fz lz (ground arith))
        | inr f ↦
            let signs : sign_bit (if ltb p q then not b else b)
                ≡ (if ltb m n then sign_of z else product_sign x y) =
              ground arith in
            let s = zero_sum ∙ eq ∙ f in rw (s, e, f) (t (eq ∙ f) ∙ rw (r, signs) refl)
      ]

-- The exact sum is far from the end of `bit_length`.
sum_bound :
    (x y z : ℕ)
    → magnitude x < inf_bits
    → magnitude y < inf_bits
    → magnitude z < inf_bits
    → (product x y + addend z) * 2 ^ 194 < 2 ^ 8191
sum_bound x y z fx fy fz =
    let hx = units-finite x fx in
    let hy = units-finite y fy in
    let hz = units-finite z fz in
    let product_le =
      mul_bound (units x) (units y) (2 ^ 2098) (2 ^ 2098) (omega arith) (omega arith) in
    let addend_le = mul_mono (2 ^ 1074) (units z) (2 ^ 2098) (omega arith) in
    let both =
      mul_mono (2 ^ 194) (product x y + addend z) (2 ^ 2098 * 2 ^ 2098 + 2 ^ 2098 * 2 ^ 1074)
        (omega arith) in
    let top : (2 ^ 2098 * 2 ^ 2098 + 2 ^ 2098 * 2 ^ 1074) * 2 ^ 194 < 2 ^ 8191 = leb→le _ _ refl in
    lt_of_le_of_lt both top

-- From `mul` on, fma is the exact sum, rounded once.
pub fused_lem :
    (x y z : ℕ) (nx ny nz : Num)
    → x < 2 ^ 64
    → y < 2 ^ 64
    → z < 2 ^ 64
    → magnitude x < inf_bits
    → magnitude y < inf_bits
    → magnitude z < inf_bits
    → Normalized x nx
    → Normalized y ny
    → Normalized z nz
    → fused x y z nx ny nz ≡ rounded_once x y z
unfolding fused
fused_lem x y z nx ny nz lx ly lz fx fy fz vx vy vz =
    let sign = if nx.negative then not ny.negative else ny.negative in
    let same = if sign then nz.negative else not nz.negative in
    let (c, product_value, addend_value) = Normalized-Common x y z nx ny nz vx vy vz in
    let sx = vx.sign in
    let sy = vy.sign in
    let sz = vz.sign in
    let signs : sign_bit sign ≡ product_sign x y = ground arith in
    let fits = sum_bound x y z fx fy fz in
    let a = align (mul nx.m ny.m).0 (mul nx.m ny.m).1 nz (nx.e +ℤ ny.e) (nz.e -ℤ (nx.e +ℤ ny.e)) in
    elim (Bool-cases (product_sign x y == sign_of z)) [
      | inl e ↦
          let equal_signs : same ≡ true = ground arith in
          rw equal_signs (
            finish-same x y z c.p c.q c.base a sign c.least signs product_value addend_value fits
              c.aligns e)
      | inr e ↦
          let other_signs : same ≡ false = ground arith in
          rw other_signs (
            finish-opposite x y z c.p c.q c.base a sign c.least signs product_value addend_value
              fits c.aligns fx fy fz lz e)
    ]
