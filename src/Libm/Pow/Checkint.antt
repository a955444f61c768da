-- ===== src/Libm/Pow/Checkint.antt =====
-- `checkint` against the value that the pattern stands for.
use wasm_cxx_shim.Prelude.{
  ℕ, suc, ◌+◌, ◌-◌, ◌^◌, ◌<◌, ◌≤◌, ◌≡◌, false, ltb, ◌==◌, arith, refl, ◌∙◌, Bool-cases, inl, inr,
  sym,
}
use native.Mathlib.Nat.{pow-le-pow_right}
use wasm_cxx_shim.Libm.Double.{exponent_of, fraction_of, is_zero, units}
use wasm_cxx_shim.Libm.Pow.{checkint}
use wasm_cxx_shim.Libm.Pow.Integers.{checkint_small, checkint_mid, checkint_large}
use wasm_cxx_shim.Libm.Pow.Parity.{
  kind_of, kind_small, units_subnormal, kind-normal, kind-large, kind-bits,
}

checkint-above :
    (c j y : ℕ)
    → 0x3ff + 52 < exponent_of y
    → exponent_of y - 1 ≡ c + suc j
    → checkint y ≡ kind_of c (units y)
checkint-above c j y h e = checkint_large y h ∙ sym (kind-large c j y (omega arith) e)

checkint-within :
    (c k y : ℕ)
    → k < 52
    → exponent_of y + k ≡ 0x3ff + 52
    → c ≡ k + (exponent_of y - 1)
    → checkint y ≡ kind_of c (units y)
checkint-within c k y l h e =
    let (low, digit) = kind-bits k y l in
    checkint_mid k y h (omega arith)
    ∙ sym (kind-normal c k y (omega arith) e ∙ rw (low, digit) refl)

checkint-one :
    (c y : ℕ)
    → exponent_of y ≡ 0x3ff
    → c ≡ 52 + (exponent_of y - 1)
    → checkint y ≡ kind_of c (units y)
checkint-one c y h e =
    checkint_mid 52 y (omega arith) (omega arith)
    ∙ sym (kind-normal c 52 y (omega arith) e ∙ ground arith)

checkint-below :
    (c k y : ℕ)
    → y < 2 ^ 64
    → is_zero y ≡ false
    → 1 ≤ exponent_of y
    → exponent_of y < 0x3ff
    → 53 ≤ k
    → c ≡ k + (exponent_of y - 1)
    → checkint y ≡ kind_of c (units y)
checkint-below c k y h z n l b e =
    let wide : 2 ^ 53 ≤ 2 ^ k = pow-le-pow_right (omega arith) b in
    checkint_small y h l z
    ∙ sym
        (kind-normal c k y n e ∙ kind_small k (2 ^ 52 + fraction_of y) (omega arith) (omega arith))

checkint-subnormal :
    (c y : ℕ)
    → y < 2 ^ 64
    → is_zero y ≡ false
    → exponent_of y ≡ 0
    → 52 ≤ c
    → checkint y ≡ kind_of c (units y)
checkint-subnormal c y h z n b =
    let wide : 2 ^ 52 ≤ 2 ^ c = pow-le-pow_right (omega arith) b in
    checkint_small y h (omega arith) z
    ∙ sym (rw (units_subnormal y n) (kind_small c (fraction_of y) (ground arith) (omega arith)))

checkint-cases :
    (c y : ℕ) → c ≡ 1074 → y < 2 ^ 64 → is_zero y ≡ false → checkint y ≡ kind_of c (units y)
checkint-cases c y e h z = elim (Bool-cases (exponent_of y == 0)) [
  | inl n ↦ checkint-subnormal c y h z (ground arith) (omega arith)
  | inr n ↦ elim (Bool-cases (ltb (exponent_of y) 0x3ff)) [
    | inl l ↦
        checkint-below c (0x3ff + 52 - exponent_of y) y h z (ground arith) (ground arith)
          (ground arith) (ground arith)
    | inr l ↦ elim (Bool-cases (exponent_of y == 0x3ff)) [
      | inl m ↦ checkint-one c y (ground arith) (ground arith)
      | inr m ↦ elim (Bool-cases (ltb (0x3ff + 52) (exponent_of y))) [
        | inl u ↦ checkint-above c (exponent_of y - 1 - c - 1) y (ground arith) (ground arith)
        | inr u ↦
            checkint-within c (0x3ff + 52 - exponent_of y) y (ground arith) (ground arith)
              (ground arith)
      ]
    ]
  ]
]

-- For a 64-bit pattern that is not a zero, checkint says of its value in units of 2 ^ -1074 whether
-- it is no integer (0), an odd one (1) or an even one (2).
pub checkint_lem : (y : ℕ) → y < 2 ^ 64 → is_zero y ≡ false → checkint y ≡ kind_of 1074 (units y)
checkint_lem y h z = checkint-cases 1074 y refl h z
