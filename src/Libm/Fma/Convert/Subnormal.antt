-- ===== src/Libm/Fma/Convert/Subnormal.antt =====
-- What the branch of fma.c for `e == -1022-63` computes with: sums and products near 2 ^ 63.
use wasm_cxx_shim.Prelude.{
  ℕ, ◌+◌, ◌-◌, ◌*◌, ◌^◌, ◌≤◌, ◌<◌, ◌≡◌, ◌==◌, if◌then◌else◌, leb→le, arith, inl, inr, sym, ◌∙◌,
  refl,
}
use native.Mathlib.Nat.{mul_comm, pow-le-pow_right, le_trans}
use wasm_cxx_shim.Prelude.Int.{pos}
use wasm_cxx_shim.Libm.Double.{
  sign_of, magnitude, inf_bits, power, units, rounded, signed, ◌⊕◌, ◌⊖◌, ◌⊗◌,
}
use wasm_cxx_shim.Libm.Double.Exact.{mul_mono}
use wasm_cxx_shim.Libm.Double.Value.{
  HasValue, Representable, Representable-eq, add-HasValue, sub-HasValue, units-zero, units-signed,
}
use wasm_cxx_shim.Libm.Double.Scale.{rounded-tiny, rounded-zero}
use wasm_cxx_shim.Libm.Rounding.{scale_once}
use wasm_cxx_shim.Libm.Rounding.Scale.Up.{Exactly, up-Carried}

pub mul-finite :
    (x y : ℕ)
    → magnitude x < inf_bits
    → magnitude y < inf_bits
    → x ⊗ y ≡ signed (sign_of x + sign_of y) (rounded 1074 (units x * units y))
unfolding ◌⊗◌
mul-finite x y h l = ground arith

pub mul_finite_comm : (x y : ℕ) → magnitude x < inf_bits → magnitude y < inf_bits → x ⊗ y ≡ y ⊗ x
mul_finite_comm x y h l =
    let s : sign_of x + sign_of y ≡ sign_of y + sign_of x = omega arith in
    mul-finite x y h l ∙ rw (s, mul_comm (units x) (units y)) (sym (mul-finite y x l h))

-- The two parts of a value with a sign.
abbrev pub plus_part : ℕ → ℕ → ℕ
plus_part s n = if s == 0 then n else 0

abbrev pub minus_part : ℕ → ℕ → ℕ
minus_part s n = if s == 0 then 0 else n

pub Exactly-HasValue :
    (x s n : ℕ) → s < 2 → Exactly x s n → HasValue x (plus_part s n) (minus_part s n)
Exactly-HasValue x s n h v =
    let e = v.value in
    let t = v.sign in record { finite = v.finite; fits = v.fits; value = ground arith }

pub HasValue-Exactly :
    (x s n a b : ℕ)
    → s < 2
    → 0 < n
    → HasValue x a b
    → a + minus_part s n ≡ plus_part s n + b
    → Exactly x s n
HasValue-Exactly x s n a b h l v e =
    let w = v.value in
    record { finite = v.finite; fits = v.fits; sign = ground arith; value = ground arith }

-- A zero does not change a sum.
pub add-nothing :
    (x z s n : ℕ)
    → s < 2
    → 0 < n
    → Representable n
    → Exactly x s n
    → HasValue z 0 0
    → Exactly (x ⊕ z) s n
add-nothing x z s n h l r v w =
    let d : n
        ≡ plus_part s n + 0 - (minus_part s n + 0) + (minus_part s n + 0 - (plus_part s n + 0)) =
      ground arith in
    let t =
      add-HasValue x z (plus_part s n) (minus_part s n) 0 0 (Exactly-HasValue x s n h v) w
        (Representable-eq _ _ d r) in
    HasValue-Exactly (x ⊕ z) s n _ _ h l t (omega arith)

-- A smaller number of the same sign, taken away.
pub sub-Exactly :
    (x y s m n k : ℕ)
    → s < 2
    → 0 < k
    → m ≡ n + k
    → Representable k
    → Exactly x s m
    → Exactly y s n
    → Exactly (x ⊖ y) s k
sub-Exactly x y s m n k h l e r v w =
    let d : k
        ≡ plus_part s m
          + minus_part s n
          - (minus_part s m + plus_part s n)
          + (minus_part s m + plus_part s n - (plus_part s m + minus_part s n)) =
      ground arith in
    let t =
      sub-HasValue x y (plus_part s m) (minus_part s m) (plus_part s n) (minus_part s n)
        (Exactly-HasValue x s m h v) (Exactly-HasValue y s n h w) (Representable-eq _ _ d r) in
    HasValue-Exactly (x ⊖ y) s k _ _ h l t (ground arith)

-- Twice a number.
pub double-Exactly :
    (x s n : ℕ) → s < 2 → 2 * n < 2 ^ 2098 → Exactly x s n → Exactly (power 0x400 ⊗ x) s (n * 2)
unfolding scale_once
double-Exactly x s n h l v =
    let c : power 0x400 ⊗ x ≡ scale_once x (pos 1) =
      mul_finite_comm (power 0x400) x (omega arith) v.finite in
    elim (up-Carried x s n 1 h (omega arith) (inl v)) [
      | inl w ↦ rw c w
      | inr (e, big) ↦ absurd (omega arith)
    ]

square_small : (n : ℕ) → n ≤ 2 ^ 500 → n * n ≤ 2 ^ 1000
square_small n h =
    let a = mul_mono n n (2 ^ 500) h in
    let b = mul_mono (2 ^ 500) n (2 ^ 500) h in
    let c : 2 ^ 500 * 2 ^ 500 ≤ 2 ^ 1000 = leb→le _ _ refl in
    let d : 2 ^ 500 * n ≡ n * 2 ^ 500 = mul_comm (2 ^ 500) n in le_trans a (omega arith)

-- `tiny*tiny*(r-r)`, for a `tiny` below 2 ^ -530.
pub nothing-HasValue :
    (t x : ℕ)
    → magnitude t < inf_bits
    → t < 2 ^ 64
    → units t ≤ 2 ^ 500
    → HasValue x 0 0
    → HasValue (t ⊗ t ⊗ x) 0 0
nothing-HasValue t x h l m v =
    let square : units t * units t ≤ 2 ^ 1000 = square_small (units t) m in
    let low : 2 * 2 ^ 1000 ≤ 2 ^ 1074 = leb→le _ _ refl in
    let up : 2 ^ 1000 ≤ 2 ^ 1001 =
      pow-le-pow_right {n = 2} (omega arith) {i = 1000} {j = 1001} (omega arith) in
    let z : rounded 1074 (units t * units t) ≡ 0 =
      rounded-tiny (units t * units t) 1074 1001 (omega arith) (omega arith) (omega arith) in
    let e : t ⊗ t ≡ 0 = mul-finite t t h h ∙ rw z (omega arith) in
    let f = mul-finite 0 x (omega arith) v.finite in
    let g : 0 * units x ≡ 0 = omega arith in
    let k : 0 ⊗ x ≡ signed (sign_of 0 + sign_of x) 0 =
      f ∙ rw (units-zero, g, rounded-zero 1074) refl in
    let u = units-signed (sign_of 0 + sign_of x) 0 (omega arith) in
    let u0 = units-zero in
    rw (e, k) (record { finite = omega arith; fits = omega arith; value = ground arith })
