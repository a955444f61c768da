-- ===== src/Libm/Fma/Once.antt =====
-- libm/src/musl/fma.c: the whole function is one rounding.
pub mod Zero
pub mod Sums
pub mod Whole
use wasm_cxx_shim.Prelude.{
  ℕ, suc, ◌+◌, ◌-◌, ◌*◌, ◌/◌, ◌%◌, ◌^◌, ◌≤◌, ◌<◌, ◌≡◌, Bool, leb, ltb, ◌==◌, arith, Bool-cases, inl,
  inr, sym, ap, ◌∙◌, refl, true, false, not, ◌&&◌, if◌then◌else◌,
}
use native.Mathlib.Nat.{mul_assoc, mul_comm, mul-sub, one-le-pow, pow-le-pow_right, lt_of_lt_of_le}
use wasm_cxx_shim.Prelude.Int.{ℤ, pos, negsuc, sub_ℕ, ◌+ℤ◌, ◌-ℤ◌}
use wasm_cxx_shim.Prelude.Int.Sub.{sub_ℕ-eq, add-sub_ℕ, sub-sub_ℕ}
use wasm_cxx_shim.Libm.Double.{sign_of, magnitude, inf_bits, units, rounded, signed, ◌⊕◌, ◌⊗◌}
use wasm_cxx_shim.Libm.Double.Length.{pow-add}
use wasm_cxx_shim.Libm.Double.Exact.{mul_mono, mul_mono_lt}
use wasm_cxx_shim.Libm.Double.Scale.{double_compare, rounded-shift}
use wasm_cxx_shim.Libm.Rounding.Scale.{units-finite}
use wasm_cxx_shim.Libm.Fma.{Num, mul, align, Sum, add_same, add_opposite, fused}
use wasm_cxx_shim.Libm.Fma.Wide.{wide, mul_lem}
use wasm_cxx_shim.Libm.Fma.Convert.{sign_bit}
use wasm_cxx_shim.Libm.Fma.Align.{distance}
use wasm_cxx_shim.Libm.Fma.Normalize.{Normalized}
use wasm_cxx_shim.Libm.Fma.Fused.{Common, align-Common, same-rounded, opposite-rounded, convert}

-- The product and the addend in units of 2 ^ -2148, and their sign.
abbrev pub product : ℕ → ℕ → ℕ
product x y = units x * units y

abbrev pub addend : ℕ → ℕ
addend z = units z * 2 ^ 1074

abbrev pub product_sign : ℕ → ℕ → ℕ
product_sign x y = (sign_of x + sign_of y) % 2

-- Numbers of units that doubles have, in the units of a product.
pub small_units : (n i : ℕ) → n < 2 ^ 2099 → i ≤ 1074 → n * 2 ^ i < 2 ^ 8191
small_units n i h l =
    let a = mul_mono_lt (2 ^ i) n (2 ^ 2099) (one-le-pow i 2 (omega arith)) h in
    let b : 2 ^ (2099 + i) ≤ 2 ^ 8191 =
      pow-le-pow_right {n = 2} (omega arith) {i = 2099 + i} {j = 8191} (omega arith) in
    lt_of_lt_of_le (rw (sym (pow-add 2099 i)) at a) b

-- x * y + z, computed exactly and rounded once: a sum of equal signs, a difference, or 0.
unfoldable pub rounded_once : ℕ → ℕ → ℕ → ℕ
rounded_once x y z =
    let p = product x y in
    let q = addend z in
    if product_sign x y == sign_of z
    then signed (sign_of z) (rounded 1074 (p + q))
    else if p == q
    then 0
    else signed (if ltb p q then sign_of z else product_sign x y) (rounded 1074 (distance p q))

pub sub-mul : (m n p : ℕ) → (m - n) * p ≡ m * p - n * p
sub-mul m n p = mul_comm (m - n) p ∙ mul-sub p m n ∙ rw (mul_comm p m, mul_comm p n) refl

-- Two numbers in another unit.
pub scaled-compare :
    (p q c m n d : ℕ)
    → 1 ≤ c
    → 1 ≤ d
    → p * c ≡ m * d
    → q * c ≡ n * d
    → (ltb p q ≡ ltb m n) × ((p == q) ≡ (m == n)) × (distance p q * c ≡ distance m n * d)
scaled-compare p q c m n d h l e f =
    let (a, b) = double_compare p q c h in
    let (a', b') = double_compare m n d l in
    let lt : ltb p q ≡ ltb m n = sym a ∙ rw (e, f) a' in
    let eq : (p == q) ≡ (m == n) = sym b ∙ rw (e, f) b' in
    let x : (q - p) * c ≡ (n - m) * d = sub-mul q p c ∙ rw (e, f) (sym (sub-mul n m d)) in
    let y : (p - q) * c ≡ (m - n) * d = sub-mul p q c ∙ rw (e, f) (sym (sub-mul m n d)) in
    (lt, eq, elim (Bool-cases (ltb m n)) [ inl o ↦ rw (lt, o) x | inr o ↦ rw (lt, o) y ])

pub sum-scaled : (p q c m n d : ℕ) → p * c ≡ m * d → q * c ≡ n * d → (p + q) * c ≡ (m + n) * d
sum-scaled p q c m n d e f = grind (arith, e, f)

-- The product of two normalized numbers.
product_value :
    (u v m n e f : ℕ)
    → u * 2 ^ 65 ≡ m * 2 ^ e
    → v * 2 ^ 65 ≡ n * 2 ^ f
    → m * n * 2 ^ (e + f + 64) ≡ u * v * 2 ^ 194
product_value u v m n e f h l =
    let a : 2 ^ (e + f + 64) ≡ 2 ^ e * 2 ^ f * 2 ^ 64 = rw (pow-add (e + f) 64, pow-add e f) refl in
    let b : m * n * (2 ^ e * 2 ^ f * 2 ^ 64) ≡ m * 2 ^ e * (n * 2 ^ f) * 2 ^ 64 = grind arith in
    let c : u * 2 ^ 65 * (v * 2 ^ 65) * 2 ^ 64 ≡ u * v * 2 ^ 194 = grind arith in
    rw a (b ∙ rw (sym h, sym l) c)

addend_value : (u m e : ℕ) → u * 2 ^ 65 ≡ m * 2 ^ e → m * 2 ^ (e + 1203) ≡ u * 2 ^ 1074 * 2 ^ 194
addend_value u m e h =
    let a : m * 2 ^ (e + 1203) ≡ m * 2 ^ e * 2 ^ 1203 =
      rw (pow-add e 1203) (sym (mul_assoc m (2 ^ e) (2 ^ 1203))) in
    let b : 2 ^ 65 * 2 ^ 1203 ≡ 2 ^ 1074 * 2 ^ 194 = refl in
    a
    ∙ ap (λ (i : ℕ). i * 2 ^ 1203) (sym h)
    ∙ mul_assoc u (2 ^ 65) (2 ^ 1203)
    ∙ ap (λ (i : ℕ). u * i) b
    ∙ sym (mul_assoc u (2 ^ 1074) (2 ^ 194))

even_product : (m n : ℕ) → m % 2 ≡ 0 → m * n ≡ 2 * (m / 2 * n)
even_product m n h =
    let e : m ≡ 2 * (m / 2) = omega arith in ap (λ (i : ℕ). i * n) e ∙ mul_assoc 2 (m / 2) n

mul-low : (m n : ℕ) → (mul m n).1 < 2 ^ 64
unfolding mul
mul-low m n = omega arith

-- The two halves of a product of two normalized numbers.
mul-halves :
    (m n : ℕ)
    → 2 ^ 53 ≤ m
    → m < 2 ^ 54
    → m % 2 ≡ 0
    → 2 ^ 53 ≤ n
    → n < 2 ^ 54
    → let (hi, lo) = mul m n in
      (wide hi lo ≡ m * n)
      × (hi < 2 ^ 44)
      × (lo < 2 ^ 64)
      × (2 ^ 106 ≤ wide hi lo)
      × (wide hi lo % 2 ≡ 0)
mul-halves m n a b c d e =
    let w = mul_lem m n (omega arith) (omega arith) in
    let low = mul-low m n in
    let least = mul_mono n (2 ^ 53) m a in
    let most = mul_mono_lt n m (2 ^ 54) (omega arith) b in
    let half : m * n ≡ 2 * (m / 2 * n) = even_product m n c in
    (w, omega arith, low, omega arith, omega arith)

sum_exponent : (e f : ℕ) → sub_ℕ e 1139 +ℤ sub_ℕ f 1139 ≡ sub_ℕ (e + f + 64) 2342
sum_exponent e f = add-sub_ℕ e 1139 f 1139 ∙ sub_ℕ-eq _ _ (e + f + 64) 2342 (omega arith)

addend_exponent : (e : ℕ) → sub_ℕ e 1139 ≡ sub_ℕ (e + 1203) 2342
addend_exponent e = sub_ℕ-eq e 1139 (e + 1203) 2342 (omega arith)

-- The 63 bits and the exponent of the product and of the addend.
pub Normalized-Common :
    (x y z : ℕ) (nx ny nz : Num)
    → (vx : Normalized x nx) → (vy : Normalized y ny) → (vz : Normalized z nz)
    → let (hi, lo) = mul nx.m ny.m in
      let e = nx.e +ℤ ny.e in
      (c : Common
        (wide hi lo)
        (vx.exponent + vy.exponent + 64)
        nz.m
        (vz.exponent + 1203)
        (align hi lo nz e (nz.e -ℤ e)))
      × (c.p * 2 ^ c.base ≡ product x y * 2 ^ 194)
      × (c.q * 2 ^ c.base ≡ addend z * 2 ^ 194)
Normalized-Common x y z nx ny nz vx vy vz =
    let f = vx.exponent + vy.exponent + 64 in
    let g = vz.exponent + 1203 in
    let tx = vx.top in
    let ty = vy.top in
    let tz = vz.top in
    let (w, hi, lo, big, even) = mul-halves nx.m ny.m vx.low vx.high vx.even vy.low vy.high in
    let e : nx.e +ℤ ny.e ≡ sub_ℕ f 2342 =
      rw (vx.at, vy.at) (sum_exponent vx.exponent vy.exponent) in
    let ez : nz.e ≡ sub_ℕ g 2342 = vz.at ∙ addend_exponent vz.exponent in
    let d : nz.e -ℤ (nx.e +ℤ ny.e) ≡ sub_ℕ g f =
      ap (λ (i : ℤ). i -ℤ (nx.e +ℤ ny.e)) ez
      ∙ ap (λ (i : ℤ). sub_ℕ g 2342 -ℤ i) e
      ∙ sub-sub_ℕ g 2342 f 2342
      ∙ sub_ℕ-eq _ _ g f (omega arith) in
    let c =
      align-Common (mul nx.m ny.m).0 (mul nx.m ny.m).1 f g nz hi lo big even vz.low vz.high ez
        (omega arith) (omega arith) (omega arith) (omega arith) in
    rw (d, e)
      (
        c,
        c.product
            ∙ ap (λ (i : ℕ). i * 2 ^ f) w
            ∙ product_value (units x) (units y) nx.m ny.m vx.exponent vy.exponent vx.value vy.value,
        c.addend ∙ addend_value (units z) nz.m vz.exponent vz.value,
      )
