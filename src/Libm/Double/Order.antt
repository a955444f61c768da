-- ===== src/Libm/Double/Order.antt =====
-- The order of finite doubles is that of their values.
use wasm_cxx_shim.Prelude.{
  ℕ, ◌+◌, ◌-◌, ◌*◌, ◌^◌, ◌≤◌, ◌<◌, ◌≡◌, leb, ltb, ◌==◌, arith, Bool-cases, inl, inr, ap, refl, true,
  false,
}
use native.Mathlib.Nat.{one-le-pow, pow-le-pow_right}
use wasm_cxx_shim.Libm.Double.{
  magnitude, exponent_of, fraction_of, is_zero, units, less, equal, less_equal,
}
use wasm_cxx_shim.Libm.Double.Length.{pow-add}
use wasm_cxx_shim.Libm.Double.Exact.{mul_mono, mul_mono_lt}
use wasm_cxx_shim.Libm.Double.Value.{HasValue, units-none, units-pos}

pub normal_units :
    (x : ℕ)
    → (exponent_of x == 0) ≡ false
    → units x ≡ (2 ^ 52 + fraction_of x) * 2 ^ (exponent_of x - 1)
unfolding units
normal_units x h = rw h refl

pub subnormal_units : (x : ℕ) → (exponent_of x == 0) ≡ true → units x ≡ fraction_of x
unfolding units
subnormal_units x h = rw h refl

-- A double with exponent field `e` has less than `2 ^ (52 + e)` units, and at least half as many.
pub units_below : (x : ℕ) → units x < 2 ^ (52 + exponent_of x)
units_below x = elim (Bool-cases (exponent_of x == 0)) [
  | inl z ↦
      let u = subnormal_units x z in
      let e : 52 + exponent_of x ≡ 52 = ground arith in rw (u, e) (omega arith)
  | inr z ↦
      let k = exponent_of x - 1 in
      let u = normal_units x z in
      let e : 52 + exponent_of x ≡ 53 + k = ground arith in
      rw (u, e, pow-add 53 k)
        (mul_mono_lt (2 ^ k) (2 ^ 52 + fraction_of x) (2 ^ 53) (one-le-pow k 2 (omega arith))
          (omega arith))
]

units_least : (x : ℕ) → (exponent_of x == 0) ≡ false → 2 ^ (51 + exponent_of x) ≤ units x
units_least x z =
    let k = exponent_of x - 1 in
    let u = normal_units x z in
    let e : 51 + exponent_of x ≡ 52 + k = ground arith in
    rw (u, e, pow-add 52 k) (mul_mono (2 ^ k) (2 ^ 52) (2 ^ 52 + fraction_of x) (omega arith))

units_mono : (x y : ℕ) → magnitude x < magnitude y → units x < units y
units_mono x y h = elim (Bool-cases (exponent_of x == exponent_of y)) [
  | inl e ↦
      let same : exponent_of x ≡ exponent_of y = ground arith in
      elim (Bool-cases (exponent_of y == 0)) [
        | inl z ↦
            let z' : (exponent_of x == 0) ≡ true = ground arith in
            rw (subnormal_units x z', subnormal_units y z) (omega arith)
        | inr z ↦
            let z' : (exponent_of x == 0) ≡ false = ground arith in
            let k : 2 ^ (exponent_of x - 1) ≡ 2 ^ (exponent_of y - 1) =
              ap (λ (i : ℕ). 2 ^ (i - 1)) same in
            rw (normal_units x z', normal_units y z, k)
              (mul_mono_lt (2 ^ (exponent_of y - 1)) (2 ^ 52 + fraction_of x)
                (2 ^ 52 + fraction_of y) (one-le-pow (exponent_of y - 1) 2 (omega arith))
                (omega arith))
      ]
  | inr e ↦
      let less : exponent_of x < exponent_of y = ground arith in
      let below = units_below x in
      let least = units_least y (ground arith) in
      let p : 2 ^ (52 + exponent_of x) ≤ 2 ^ (51 + exponent_of y) =
        pow-le-pow_right {n = 2} (omega arith) {i = 52 + exponent_of x} {j = 51 + exponent_of y}
          (omega arith) in
      omega (arith, below, least, p)
]

same_units : (x y : ℕ) → magnitude x ≡ magnitude y → units x ≡ units y
unfolding units
same_units x y h =
    let e : exponent_of x ≡ exponent_of y = omega arith in
    let f : fraction_of x ≡ fraction_of y = omega arith in rw (e, f)

zero_units : (x : ℕ) → is_zero x ≡ (units x == 0)
zero_units x = elim (Bool-cases (is_zero x)) [
  | inl e ↦ let t = units-none x e in ground arith
  | inr e ↦ let t = units-pos x e in ground arith
]

pub units_order : (x y : ℕ) → ltb (units x) (units y) ≡ ltb (magnitude x) (magnitude y)
units_order x y = elim (Bool-cases (ltb (magnitude x) (magnitude y))) [
  | inl e ↦ let t = units_mono x y (ground arith) in ground arith
  | inr e ↦ elim (Bool-cases (ltb (magnitude y) (magnitude x))) [
    | inl f ↦ let t = units_mono y x (ground arith) in ground arith
    | inr f ↦
        let same : magnitude x ≡ magnitude y = ground arith in
        let t : units x ≡ units y = same_units x y same in ground arith
  ]
]

-- The comparison of finite doubles compares their values.
pub less-HasValue :
    (x y a b c d : ℕ) → HasValue x a b → HasValue y c d → less x y ≡ ltb (a + d) (c + b)
unfolding less
less-HasValue x y a b c d v w =
    let f = v.finite in
    let g = w.finite in
    let h = v.fits in
    let l = w.fits in
    let e = v.value in
    let k = w.value in
    let o = units_order x y in
    let o' = units_order y x in let zx = zero_units x in let zy = zero_units y in ground arith

pub equal-HasValue :
    (x y a b c d : ℕ) → HasValue x a b → HasValue y c d → equal x y ≡ (a + d == c + b)
unfolding equal
equal-HasValue x y a b c d v w =
    let f = v.finite in
    let g = w.finite in
    let h = v.fits in
    let l = w.fits in
    let e = v.value in
    let k = w.value in
    let o = units_order x y in
    let o' = units_order y x in
    let zx = zero_units x in
    let zy = zero_units y in
    elim (Bool-cases (x == y)) [
      | inl s ↦
          let t : x ≡ y = ground arith in let u : units x ≡ units y = ap units t in ground arith
      | inr s ↦ ground arith
    ]

pub less_equal-HasValue :
    (x y a b c d : ℕ) → HasValue x a b → HasValue y c d → less_equal x y ≡ leb (a + d) (c + b)
unfolding less_equal
less_equal-HasValue x y a b c d v w =
    let l = less-HasValue x y a b c d v w in let e = equal-HasValue x y a b c d v w in ground arith
