-- ===== src/Libm/Fma/Convert/Doubled.antt =====
-- libm/src/musl/fma.c: the branch for `e == -1022-63` where digits are lost.
use wasm_cxx_shim.Prelude.{
  ℕ, ◌+◌, ◌-◌, ◌*◌, ◌/◌, ◌%◌, ◌^◌, ◌≤◌, ◌<◌, ◌≡◌, Bool, arith, bit_or, sym, ap, ◌∙◌, refl, true,
  false, leb→le, if◌then◌else◌,
}
use native.Mathlib.Nat.{mul_assoc, le_trans, lt_of_le_of_lt}
use wasm_cxx_shim.Prelude.Bits.{bit_or-shifted}
use wasm_cxx_shim.Libm.Double.{
  units, bit_length, round_even, rounded, power, neg, quotient, digits_below, ◌⊕◌, ◌⊖◌, ◌⊗◌, ◌⊘◌,
}
use wasm_cxx_shim.Libm.Double.Length.{pow-add}
use wasm_cxx_shim.Libm.Double.Exact.{mul_mono, rounded_exact}
use wasm_cxx_shim.Libm.Double.Value.{HasValue, HasValue-eq, Representable, sub-HasValue}
use wasm_cxx_shim.Libm.Double.Scale.{rounded-shift}
use wasm_cxx_shim.Libm.Double.Odd.{odd_shift}
use wasm_cxx_shim.Libm.Double.Odd.Rounded.{round_even-odd_shift}
use wasm_cxx_shim.Libm.Rounding.Nearest.{round_even-cases, round_even-add}
use wasm_cxx_shim.Libm.Rounding.Scale.{mul-power}
use wasm_cxx_shim.Libm.Rounding.Scale.Up.{Exactly, signed-Exactly}
use wasm_cxx_shim.Libm.Fma.{signed_double, min_ratio}
use wasm_cxx_shim.Libm.Fma.Bits.{half_sticky}
use wasm_cxx_shim.Libm.Fma.Convert.{sign_bit, signed_double-Exactly}
use wasm_cxx_shim.Libm.Fma.Convert.Subnormal.{
  mul_finite_comm, Exactly-HasValue, plus_part, minus_part, double-Exactly, sub-Exactly,
  nothing-HasValue, add-nothing,
}

-- `c`
abbrev pub edge : Bool → ℕ
edge b = if b then neg (power (0x3ff + 63)) else power (0x3ff + 63)

pub edge-Exactly : (b : Bool) → Exactly (edge b) (sign_bit b) (2 ^ 63 * 2 ^ 1074)
unfolding units
edge-Exactly true = record {
  finite = leb→le _ _ refl;
  fits = leb→le _ _ refl;
  sign = refl;
  value = refl;
}
edge-Exactly false = record {
  finite = leb→le _ _ refl;
  fits = leb→le _ _ refl;
  sign = refl;
  value = refl;
}

near_digits :
    (i : ℕ)
    → 2 ^ 62 ≤ i
    → i < 2 ^ 63
    → bit_or (bit_or (i / 2) (i % 2)) (2 ^ 62) ≡ odd_shift i 1 + 2 ^ 62
unfolding odd_shift
near_digits i h l =
    let e = half_sticky i (omega arith) in
    let low : odd_shift i 1 < 2 ^ 62 = ground arith in
    rw e (bit_or-shifted 62 (odd_shift i 1) 1 low ∙ omega arith)

-- `r` of the branch where digits are lost: 2 * (2 ^ 63 + i) - 2 ^ 63 in whole numbers of 2 ^ 11.
abbrev pub doubled : Bool → ℕ → ℕ
doubled b i = power 0x400 ⊗ signed_double b (bit_or (bit_or (i / 2) (i % 2)) (2 ^ 62)) ⊖ edge b

pub eleven-bounds :
    (i : ℕ) → 2 ^ 62 ≤ i → i < 2 ^ 63 → (2 ^ 51 ≤ round_even i 11) × (round_even i 11 ≤ 2 ^ 52)
eleven-bounds i h l = let t = round_even-cases i 11 in (ground arith, ground arith)

by_units : (r u : ℕ) → (r + 2 ^ 52) * 2 ^ 10 * u * 2 ≡ 2 ^ 63 * u + r * (2 ^ 11 * u)
by_units r u = grind arith

eleven-Representable : (r : ℕ) → r ≤ 2 ^ 52 → Representable (r * 2 ^ 1085)
eleven-Representable r h = record {
  digits = r;
  shift = 1085;
  short = omega arith;
  low = omega arith;
  product = refl;
}

eleven-positive : (r : ℕ) → 2 ^ 51 ≤ r → 0 < r * 2 ^ 1085
eleven-positive r h = omega arith

doubled_small : (r : ℕ) → r ≤ 2 ^ 52 → 2 * ((r + 2 ^ 52) * 2 ^ 10 * 2 ^ 1074) < 2 ^ 2098
doubled_small r h =
    let t = mul_mono (2 ^ 1074) ((r + 2 ^ 52) * 2 ^ 10) (2 ^ 63) (omega arith) in
    let c : 2 * (2 ^ 63 * 2 ^ 1074) < 2 ^ 2098 = leb→le _ _ refl in omega arith

odd_one : (i : ℕ) → 2 ^ 62 ≤ i → i < 2 ^ 63 → odd_shift i 1 < 2 ^ 62
unfolding odd_shift
odd_one i h l = ground arith

doubled_product : (r : ℕ) → (r + 2 ^ 52) * 2 ^ 10 * 2 ^ 1074 * 2 ≡ 2 ^ 63 * 2 ^ 1074 + r * 2 ^ 1085
doubled_product r =
    let e : 2 ^ 1085 ≡ 2 ^ 11 * 2 ^ 1074 = pow-add 11 1074 in rw e (by_units r (2 ^ 1074))

doubled-Exactly :
    (b : Bool) (i : ℕ)
    → 2 ^ 62 ≤ i
    → i < 2 ^ 63
    → Exactly (doubled b i) (sign_bit b) (round_even i 11 * 2 ^ 1085)
doubled-Exactly b i h l =
    let o = odd_shift i 1 in
    let r = round_even i 11 in
    let n = o + 2 ^ 62 in
    let (low, high) = eleven-bounds i h l in
    let s : sign_bit b < 2 = ground arith in
    let digits = near_digits i h l in
    let small = odd_one i h l in
    let same : round_even n 10 ≡ r + 2 ^ 52 =
      round_even-add o 10
      ∙ ap (λ (m : ℕ). m + 2 ^ 52) (sym (round_even-odd_shift i 10 1 (omega arith))) in
    let v = signed_double-Exactly b n (omega arith) (omega arith) in
    let v' : Exactly (signed_double b n) (sign_bit b) ((r + 2 ^ 52) * 2 ^ 10 * 2 ^ 1074) =
      rw same at v in
    let bound = doubled_small r high in
    let w =
      double-Exactly (signed_double b n) (sign_bit b) ((r + 2 ^ 52) * 2 ^ 10 * 2 ^ 1074) s bound
        v' in
    rw digits (
      sub-Exactly (power 0x400 ⊗ signed_double b n) (edge b) (sign_bit b)
        ((r + 2 ^ 52) * 2 ^ 10 * 2 ^ 1074 * 2) (2 ^ 63 * 2 ^ 1074) (r * 2 ^ 1085) s
        (eleven-positive r low) (doubled_product r) (eleven-Representable r high) w
        (edge-Exactly b))

min_ratio-power : min_ratio ≡ power (126 + 1)
unfolding ◌⊘◌ quotient rounded bit_length digits_below units round_even
min_ratio-power = refl

tiny_product : (r : ℕ) → r * 2 ^ 1085 * 2 ^ 178 ≡ r * 2 ^ 189 * 2 ^ 1074
tiny_product r =
    let e : 2 ^ 1085 * 2 ^ 178 ≡ 2 ^ 189 * 2 ^ 1074 = refl in
    mul_assoc r (2 ^ 1085) (2 ^ 178)
    ∙ ap (λ (m : ℕ). r * m) e
    ∙ sym (mul_assoc r (2 ^ 189) (2 ^ 1074))

tiny_small : (r : ℕ) → r ≤ 2 ^ 52 → (r * 2 ^ 189 ≤ 2 ^ 500) × (r * 2 ^ 189 * 2 ^ 1074 < 2 ^ 8191)
tiny_small r h =
    let t = mul_mono (2 ^ 189) r (2 ^ 52) h in
    let c : 2 ^ 52 * 2 ^ 189 ≤ 2 ^ 500 = leb→le _ _ refl in
    let u = mul_mono (2 ^ 1074) (r * 2 ^ 189) (2 ^ 52 * 2 ^ 189) t in
    let d : 2 ^ 52 * 2 ^ 189 * 2 ^ 1074 < 2 ^ 8191 = leb→le _ _ refl in
    (le_trans t c, lt_of_le_of_lt u d)

-- `tiny`
tiny-Exactly :
    (x s r : ℕ)
    → s < 2
    → r ≤ 2 ^ 52
    → Exactly x s (r * 2 ^ 1085)
    → Exactly (min_ratio ⊗ x) s (r * 2 ^ 189)
tiny-Exactly x s r h l v =
    let (low, fits) = tiny_small r l in
    let (u, f) = rounded_exact r 189 (omega arith) (omega arith) in
    let e : min_ratio ⊗ x ≡ x ⊗ power (126 + 1) =
      ap (λ (m : ℕ). m ⊗ x) min_ratio-power
      ∙ mul_finite_comm (power (126 + 1)) x (omega arith) v.finite in
    let t = mul-power x 126 v.fits v.finite (omega arith) in
    let once : rounded 1074 (units x * 2 ^ (52 + 126)) ≡ rounded 0 (r * 2 ^ 189) =
      ap (λ (m : ℕ). rounded 1074 (m * 2 ^ 178)) v.value
      ∙ ap (rounded 1074) (tiny_product r)
      ∙ rounded-shift (r * 2 ^ 189) 0 1074 fits in
    rw (e, t, once, v.sign) (signed-Exactly s (rounded 0 (r * 2 ^ 189)) (r * 2 ^ 189) h u f)

self-difference : (x s n : ℕ) → s < 2 → Exactly x s n → HasValue (x ⊖ x) 0 0
self-difference x s n h v =
    let w = Exactly-HasValue x s n h v in
    let a = plus_part s n in
    let b = minus_part s n in
    let z : Representable (a + b - (b + a) + (b + a - (a + b))) = record {
      digits = 0;
      shift = 0;
      short = omega arith;
      low = omega arith;
      product = omega arith;
    } in
    HasValue-eq (x ⊖ x) (a + b) (b + a) 0 0 (omega arith) (sub-HasValue x x a b a b w w z)

-- Digits are lost, and the last term only raises the exception.
pub near_inexact :
    (b : Bool) (i : ℕ)
    → 2 ^ 62 ≤ i
    → i < 2 ^ 63
    → let r = doubled b i in
      let tiny = min_ratio ⊗ r in
      Exactly (r ⊕ tiny ⊗ tiny ⊗ (r ⊖ r)) (sign_bit b) (round_even i 11 * 2 ^ 11 * 2 ^ 1074)
near_inexact b i h l =
    let r = doubled b i in
    let n = round_even i 11 in
    let tiny = min_ratio ⊗ r in
    let s : sign_bit b < 2 = ground arith in
    let (low, high) = eleven-bounds i h l in
    let v = doubled-Exactly b i h l in
    let t = tiny-Exactly r (sign_bit b) n s high v in
    let (small, fits) = tiny_small n high in
    let z =
      nothing-HasValue tiny (r ⊖ r) t.finite t.fits (rw t.value small)
        (self-difference r (sign_bit b) (n * 2 ^ 1085) s v) in
    let w =
      add-nothing r (tiny ⊗ tiny ⊗ (r ⊖ r)) (sign_bit b) (n * 2 ^ 1085) s (eleven-positive n low)
        (eleven-Representable n high) v z in
    let e : n * 2 ^ 1085 ≡ n * 2 ^ 11 * 2 ^ 1074 =
      ap (λ (m : ℕ). n * m) (pow-add 11 1074) ∙ sym (mul_assoc n (2 ^ 11) (2 ^ 1074)) in
    rw e at w
