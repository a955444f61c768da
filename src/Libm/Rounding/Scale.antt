-- ===== src/Libm/Rounding/Scale.antt =====
-- libm/src/musl/scalbn.c: the product with one power of two.
pub mod Up
pub mod Down
pub mod Scalbn
pub mod Back
use wasm_cxx_shim.Prelude.{
  ℕ, zero, suc, ◌+◌, ◌-◌, ◌*◌, ◌%◌, ◌^◌, ◌≤◌, ◌<◌, ◌≡◌, ◌⊎◌, leb, ltb, ◌==◌, arith, Bool-cases, inl,
  inr, sym, ap, ◌∙◌, refl, true, false, leb→le,
}
use native.Mathlib.Nat.{one-le-pow, pow-le-pow_right, le_trans, lt_of_le_of_lt, lt_of_lt_of_le}
use wasm_cxx_shim.Prelude.Int.{ℤ, pos, negsuc}
use wasm_cxx_shim.Libm.Double.{
  sign_of, exponent_of, fraction_of, magnitude, inf_bits, is_nan, is_inf, is_zero, units, power,
  rounded, signed, ◌⊗◌,
}
use wasm_cxx_shim.Libm.Double.Length.{pow-add}
use wasm_cxx_shim.Libm.Double.Exact.{units-normal, mul_mono, mul_mono_lt}
use wasm_cxx_shim.Libm.Double.Order.{units_below}
use wasm_cxx_shim.Libm.Double.Scale.{rounded-shift}
use wasm_cxx_shim.Libm.Rounding.{scale_once}

-- The magnitude nearest to `n * 2 ^ i` units.
unfoldable pub scaled : ℕ → ℤ → ℕ
scaled n (pos i) = rounded 0 (n * 2 ^ i)
scaled n (negsuc i) = rounded (suc i) n

units-power : (e : ℕ) → e ≤ 2045 → units (power (e + 1)) ≡ 2 ^ 52 * 2 ^ e
units-power e h =
    let t = units-normal e (2 ^ 52) (omega arith) (omega arith) h in
    let p : power (e + 1) ≡ e * 2 ^ 52 + 2 ^ 52 = omega arith in rw p t

-- Less than 2 ^ 2098 units.
pub units-finite : (x : ℕ) → magnitude x < inf_bits → units x < 2 ^ 2098
units-finite x h =
    let e : exponent_of x ≤ 2046 = omega arith in
    let t : 2 ^ (52 + exponent_of x) ≤ 2 ^ 2098 =
      pow-le-pow_right {n = 2} (omega arith) {i = 52 + exponent_of x} {j = 2098} (omega arith) in
    lt_of_lt_of_le (units_below x) t

pub mul-power :
    (x e : ℕ)
    → x < 2 ^ 64
    → magnitude x < inf_bits
    → e ≤ 2045
    → x ⊗ power (e + 1) ≡ signed (sign_of x) (rounded 1074 (units x * 2 ^ (52 + e)))
unfolding ◌⊗◌
mul-power x e l h m =
    let nan : is_nan x ≡ false = ground arith in
    let inf : is_inf x ≡ false = ground arith in
    let nan' : is_nan (power (e + 1)) ≡ false = ground arith in
    let inf' : is_inf (power (e + 1)) ≡ false = ground arith in
    let s : (sign_of x + sign_of (power (e + 1))) % 2 ≡ sign_of x % 2 = omega arith in
    rw (nan, nan', inf, inf', s, units-power e m, pow-add 52 e) refl

-- A product with two powers of two stays far below 2 ^ 2 ^ 13.
small_product : (n i : ℕ) → n < 2 ^ 2098 → i ≤ 2097 → n * 2 ^ i < 2 ^ 8191
small_product n i h l =
    let p = one-le-pow i 2 (omega arith) in
    let a = mul_mono_lt (2 ^ i) n (2 ^ 2098) p h in
    let b : 2 ^ (2098 + i) ≤ 2 ^ 8191 =
      pow-le-pow_right {n = 2} (omega arith) {i = 2098 + i} {j = 8191} (omega arith) in
    lt_of_lt_of_le (rw (sym (pow-add 2098 i)) at a) b

reorder : (n a b : ℕ) → n * 2 ^ (a + b) ≡ n * 2 ^ b * 2 ^ a
reorder n a b = rw (pow-add a b) (grind arith)

rounded-up :
    (n i : ℕ) → n < 2 ^ 2098 → i ≤ 1023 → rounded 1074 (n * 2 ^ (1074 + i)) ≡ rounded 0 (n * 2 ^ i)
rounded-up n i h l =
    let e : n * 2 ^ (1074 + i) ≡ n * 2 ^ i * 2 ^ 1074 = reorder n 1074 i in
    let small = small_product n (1074 + i) h (omega arith) in
    let shift = rounded-shift (n * 2 ^ i) 0 1074 in rw e (shift (rw e at small))

pub rounded-down :
    (n k : ℕ) → n < 2 ^ 2098 → k ≤ 1074 → rounded 1074 (n * 2 ^ (1074 - k)) ≡ rounded k n
rounded-down n k h l =
    let e : k + (1074 - k) ≡ 1074 = omega arith in
    let shift = rounded-shift n k (1074 - k) (small_product n (1074 - k) h (omega arith)) in
    rw e at shift

-- scale_once rounds once.
pub scale_once-pos :
    (x i : ℕ)
    → x < 2 ^ 64
    → magnitude x < inf_bits
    → i ≤ 1023
    → scale_once x (pos i) ≡ signed (sign_of x) (rounded 0 (units x * 2 ^ i))
unfolding scale_once
scale_once-pos x i l h m =
    let e : 0x3ff + i ≡ 1022 + i + 1 = omega arith in
    let f : 52 + (1022 + i) ≡ 1074 + i = omega arith in
    let t = mul-power x (1022 + i) l h (omega arith) in
    rw e (t ∙ rw (f, rounded-up (units x) i (units-finite x h) m) refl)

pub scale_once-negsuc :
    (x i : ℕ)
    → x < 2 ^ 64
    → magnitude x < inf_bits
    → i ≤ 1021
    → scale_once x (negsuc i) ≡ signed (sign_of x) (rounded (suc i) (units x))
unfolding scale_once
scale_once-negsuc x i l h m =
    let e : 0x3ff - (i + 1) ≡ 1021 - i + 1 = omega arith in
    let f : 52 + (1021 - i) ≡ 1074 - suc i = omega arith in
    let t = mul-power x (1021 - i) l h (omega arith) in
    rw e (t ∙ rw (f, rounded-down (units x) (suc i) (units-finite x h) (omega arith)) refl)

-- A finite double is a whole number below 2 ^ 53 times a power of two.
pub record Parts (n : ℕ) : Type 0 where
  pub digits : ℕ
  pub shift : ℕ
  pub short : digits < 2 ^ 53
  pub low : shift ≤ 2045
  pub full : (shift ≡ 0) ⊎ (2 ^ 52 ≤ digits)
  pub product : n ≡ digits * 2 ^ shift

pub units-Parts : (x : ℕ) → magnitude x < inf_bits → Parts (units x)
unfolding units
units-Parts x h = elim (Bool-cases (exponent_of x == 0)) [
  | inl z ↦ rw z (record {
    digits = fraction_of x;
    shift = 0;
    short = omega arith;
    low = omega arith;
    full = inl refl;
    product = omega arith;
  })
  | inr z ↦ rw z (record {
    digits = 2 ^ 52 + fraction_of x;
    shift = exponent_of x - 1;
    short = omega arith;
    low = omega arith;
    full = inr (omega arith);
    product = refl;
  })
]
