-- ===== src/Libm/Pow/Special.antt =====
-- `pow` where an argument is 0, 1, an infinity or a NaN, and on a negative base.
use wasm_cxx_shim.Prelude.{
  ℕ, ◌*◌, ◌^◌, ◌<◌, ◌≡◌, ap, ◌∙◌, refl, Bool, true, false, not, ◌&&◌, ◌||◌, ltb, ◌==◌, arith,
  Bool-cases, inl, inr, if◌then◌else◌,
}
use wasm_cxx_shim.Libm.Double.{
  sign_of, magnitude, is_nan, is_inf, is_zero, inf_bits, nan_bits, one, units, signed, neg, ◌⊕◌,
  ◌⊗◌, ◌⊘◌,
}
use wasm_cxx_shim.Libm.Double.Value.{units-none}
use wasm_cxx_shim.Libm.Double.Scale.{rounded-zero}
use wasm_cxx_shim.Libm.Math.Results.{math_invalid_lem}
use wasm_cxx_shim.Libm.Pow.{pow, pow_special_y, pow_special_x, checkint, zeroinfnan}
use wasm_cxx_shim.Libm.Pow.Parity.{kind_of}
use wasm_cxx_shim.Libm.Pow.Checkint.{checkint_lem}
use wasm_cxx_shim.Libm.Pow.Integers.{zeroinfnan_lem}

add-nan : (x y : ℕ) → is_nan x || is_nan y ≡ true → x ⊕ y ≡ nan_bits
unfolding ◌⊕◌
add-nan x y h = ground arith

-- `y` is 0, an infinity or a NaN.
pow-special_y :
    (x y : ℕ) → x < 2 ^ 64 → y < 2 ^ 64 → zeroinfnan y ≡ true → pow x y ≡ pow_special_y x y
unfolding pow
pow-special_y x y hx hy z = let z' = zeroinfnan_lem y hy in ground arith

square-inf : (y : ℕ) → is_inf y ≡ true → y ⊗ y ≡ inf_bits
unfolding ◌⊗◌
square-inf y h = ground arith

-- What C prescribes for an exponent that is 0, infinite or a NaN.
abbrev pub exponent_result : ℕ → ℕ → ℕ
exponent_result x y =
    if is_zero y || x == one
    then one
    else if is_nan x || is_nan y
    then nan_bits
    else if magnitude x == one
    then one
    else if ltb (magnitude x) one
    then (if sign_of y == 0 then 0 else inf_bits)
    else if sign_of y == 0
    then inf_bits
    else 0

pow_exponent_lem :
    (x y : ℕ)
    → x < 2 ^ 64
    → y < 2 ^ 64
    → is_zero y || is_inf y || is_nan y ≡ true
    → pow x y ≡ exponent_result x y
unfolding pow_special_y
pow_exponent_lem x y hx hy h =
    let z = zeroinfnan_lem y hy in
    let e = pow-special_y x y hx hy (ground arith) in
    rw e (elim (Bool-cases (is_nan x || is_nan y)) [
      | inl n ↦ let s = add-nan x y n in ground arith
      | inr n ↦ elim (Bool-cases (is_inf y)) [
        | inl i ↦ let s = square-inf y i in ground arith
        | inr i ↦ ground arith
      ]
    ])

-- For 64-bit patterns, pow of a finite negative base that is not 0 returns a NaN for each finite
-- exponent whose value, in units of 2 ^ -1074, is no integer.
pub pow_negative_base :
    (x y : ℕ)
    → x < 2 ^ 64
    → y < 2 ^ 64
    → sign_of x ≡ 1
    → is_zero x || is_inf x || is_nan x ≡ false
    → is_zero y || is_inf y || is_nan y ≡ false
    → kind_of 1074 (units y) ≡ 0
    → pow x y ≡ nan_bits
unfolding pow
pow_negative_base x y hx hy s zx zy c =
    let zero_x = zeroinfnan_lem x hx in
    let zero_y = zeroinfnan_lem y hy in
    let no_integer = checkint_lem y hy (ground arith) in
    let bad = math_invalid_lem x hx in ground arith

-- `x` is 0 or an infinity.
pow-special_x :
    (x y : ℕ)
    → x < 2 ^ 64
    → y < 2 ^ 64
    → zeroinfnan y ≡ false
    → zeroinfnan x ≡ true
    → pow x y ≡ pow_special_x x y
unfolding pow
pow-special_x x y hx hy z w =
    let z' = zeroinfnan_lem y hy in let w' = zeroinfnan_lem x hx in ground arith

square-end : (x : ℕ) → is_zero x || is_inf x ≡ true → x ⊗ x ≡ magnitude x
unfolding ◌⊗◌
square-end x h = elim (Bool-cases (is_inf x)) [
  | inl i ↦ ground arith
  | inr i ↦
      let z : is_zero x ≡ true = ground arith in
      let none = units-none x z in
      let number : is_nan x ≡ false = ground arith in
      let square : units x * units x ≡ 0 = ap (λ (i : ℕ). i * units x) none ∙ omega arith in
      rw (number, i, square, rounded-zero 1074) (ground arith)
]

reciprocal-end :
    (s : ℕ)
    → s < 2
    → (one ⊘ signed s 0 ≡ signed s inf_bits) × (one ⊘ signed s inf_bits ≡ signed s 0)
unfolding ◌⊘◌
reciprocal-end s h = (ground arith, ground arith)

-- What C prescribes for a base that is 0 or infinite: an odd exponent keeps its sign, and a negative one
-- turns 0 into infinity and back.
abbrev pub base_result : ℕ → ℕ → ℕ
base_result x y =
    let s = if sign_of x == 1 && kind_of 1074 (units y) == 1 then 1 else 0 in
    signed s (if (is_zero x && sign_of y == 0) || (is_inf x && sign_of y == 1) then 0 else inf_bits)

-- The sign of an odd power.
signed-square :
    (x m : ℕ) (odd : Bool)
    → x < 2 ^ 64
    → m < 2 ^ 63
    → (if not (sign_of x == 0) && odd then neg m else m)
      ≡ signed (if sign_of x == 1 && odd then 1 else 0) m
signed-square x m odd h l = ground arith

pow_base_lem :
    (x y : ℕ)
    → x < 2 ^ 64
    → y < 2 ^ 64
    → is_zero x || is_inf x ≡ true
    → is_zero y || is_inf y || is_nan y ≡ false
    → pow x y ≡ base_result x y
unfolding pow_special_x
pow_base_lem x y hx hy h g =
    let z = zeroinfnan_lem y hy in
    let w = zeroinfnan_lem x hx in
    let e = pow-special_x x y hx hy (ground arith) (ground arith) in
    let square = square-end x h in
    let odd = kind_of 1074 (units y) == 1 in
    let odd_lem : (checkint y == 1) ≡ odd =
      ap (λ (k : ℕ). k == 1) (checkint_lem y hy (ground arith)) in
    let s = if sign_of x == 1 && odd then 1 else 0 in
    let (from_zero, from_inf) = reciprocal-end s (ground arith) in
    let kept = signed-square x (magnitude x) odd hx (omega arith) in
    let small = (is_zero x && sign_of y == 0) || (is_inf x && sign_of y == 1) in
    e
    ∙ rw (odd_lem, square, kept)
        (elim (Bool-cases (is_zero x)) [
          | inl i ↦
              let m : magnitude x ≡ 0 = ground arith in
              elim (Bool-cases (sign_of y == 0)) [
                | inl k ↦ let t : small ≡ true = ground arith in rw (t, k, m) refl
                | inr k ↦ let t : small ≡ false = ground arith in rw (t, k, m) from_zero
              ]
          | inr i ↦
              let m : magnitude x ≡ inf_bits = ground arith in
              elim (Bool-cases (sign_of y == 0)) [
                | inl k ↦ let t : small ≡ false = ground arith in rw (t, k, m) refl
                | inr k ↦ let t : small ≡ true = ground arith in rw (t, k, m) from_inf
              ]
        ])

-- What C prescribes where the exponent or the base is 0, infinite or a NaN.
abbrev pub special_result : ℕ → ℕ → ℕ
special_result x y =
    if is_zero y || is_inf y || is_nan y then exponent_result x y else base_result x y

-- For 64-bit patterns: with an exponent that is 0, infinite or a NaN, pow returns 1 for the exponent
-- 0 and for the base 1; else a NaN if an argument is one; else 1 for the base -1, and otherwise 0 or
-- infinity by the size of the base and the sign of the exponent. With another exponent, and a base that
-- is 0 or infinite, it returns 0 or infinity, the other one than the base for a negative exponent, with
-- the sign of the base if the exponent is an odd integer, and without a sign if it is not.
pub pow_special_lem :
    (x y : ℕ)
    → x < 2 ^ 64
    → y < 2 ^ 64
    → (is_zero y || is_inf y || is_nan y) || (is_zero x || is_inf x) ≡ true
    → pow x y ≡ special_result x y
pow_special_lem x y hx hy h = elim (Bool-cases (is_zero y || is_inf y || is_nan y)) [
  | inl e ↦ rw e (pow_exponent_lem x y hx hy e)
  | inr e ↦ rw e (pow_base_lem x y hx hy (rw e at h) e)
]
