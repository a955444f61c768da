-- ===== src/Libm/Pattern/Trunc/Value.antt =====
-- `trunc`: the value without its fraction, in units of 2 ^ -c for `c` 1074.
use wasm_cxx_shim.Prelude.{
  ℕ, ◌+◌, ◌-◌, ◌*◌, ◌/◌, ◌%◌, ◌^◌, ◌<◌, ◌≤◌, ◌≡◌, ap, ◌∙◌, sym, refl, leb, ltb, ◌==◌, arith,
  Bool-cases, inl, inr,
}
use native.Mathlib.Nat.{
  one-le-pow, add-mul-div_right, mul-div_cancel, div-eq_of_lt, pow-le-pow_right,
}
use wasm_cxx_shim.Libm.Double.{sign_of, exponent_of, fraction_of, units}
use wasm_cxx_shim.Libm.Double.Length.{pow-add}
use wasm_cxx_shim.Libm.Pattern.{trunc}
use wasm_cxx_shim.Libm.Pattern.Trunc.{clear_below-cut, cut_fields}
use wasm_cxx_shim.Libm.Pow.Parity.{scaled_div, units_normal, units_subnormal}

trunc_large : (x : ℕ) → 0x3ff + 52 ≤ exponent_of x → trunc x ≡ x
unfolding trunc
trunc_large x h = ground arith

trunc_middle :
    (k x : ℕ)
    → x < 2 ^ 64
    → exponent_of x + k ≡ 0x3ff + 52
    → 1 ≤ k
    → k ≤ 52
    → trunc x ≡ x / 2 ^ k * 2 ^ k
unfolding trunc
trunc_middle k x h s a b =
    let cut = clear_below-cut k (64 - k) x (omega arith) h in
    let e : exponent_of x + 12 - 0x3ff ≡ 64 - k = omega arith in rw e (ground arith)

trunc_small : (x : ℕ) → x < 2 ^ 64 → exponent_of x < 0x3ff → trunc x ≡ x / 2 ^ 63 * 2 ^ 63
unfolding trunc
trunc_small x h s = let cut = clear_below-cut 63 1 x refl h in ground arith

-- The number of whole units of 1, times the units in it.
abbrev pub whole : ℕ → ℕ → ℕ
whole c n = n / 2 ^ c * 2 ^ c

whole-large : (c j s : ℕ) → whole c (s * 2 ^ (c + j)) ≡ s * 2 ^ (c + j)
whole-large c j s =
    let positive : 1 ≤ 2 ^ c = one-le-pow c 2 (omega arith) in
    let parts : s * 2 ^ (c + j) ≡ s * 2 ^ j * 2 ^ c = rw (pow-add c j) (grind arith) in
    rw (parts, mul-div_cancel (s * 2 ^ j) positive) refl

whole-middle : (s k j : ℕ) → whole (k + j) (s * 2 ^ j) ≡ s / 2 ^ k * 2 ^ k * 2 ^ j
whole-middle s k j = rw (scaled_div s k j, pow-add k j) (grind arith)

-- `trunc` keeps the sign, and the value is the whole part.
trunc-large :
    (c j x : ℕ)
    → 0x3ff + 52 ≤ exponent_of x
    → exponent_of x - 1 ≡ c + j
    → units (trunc x) ≡ whole c (units x)
trunc-large c j x h e =
    rw (trunc_large x h, units_normal x (omega arith), e)
      (sym (whole-large c j (2 ^ 52 + fraction_of x)))

-- The mantissa with its low `k` bits cleared.
mantissa_cut : (g p f n : ℕ) → 1 ≤ p → g * p ≡ n → (n + f) / p * p ≡ n + f / p * p
mantissa_cut g p f n positive e =
    let sum : n + f ≡ f + g * p = omega arith in
    let down : (n + f) / p ≡ f / p + g =
      ap (λ (m : ℕ). m / p) sum ∙ add-mul-div_right f g positive in
    let back : (f / p + g) * p ≡ f / p * p + g * p = grind arith in
    ap (λ (m : ℕ). m * p) down ∙ back ∙ omega arith

factor : (k : ℕ) → k ≤ 52 → 2 ^ (52 - k) * 2 ^ k ≡ 2 ^ 52
factor k h =
    let e : 52 - k + k ≡ 52 = omega arith in sym (pow-add (52 - k) k) ∙ ap (λ (n : ℕ). 2 ^ n) e

trunc-middle :
    (c k x : ℕ)
    → x < 2 ^ 64
    → 1 ≤ exponent_of x
    → exponent_of x + k ≡ 0x3ff + 52
    → 1 ≤ k
    → k ≤ 52
    → c ≡ k + (exponent_of x - 1)
    → (sign_of (trunc x) ≡ sign_of x) × (units (trunc x) ≡ whole c (units x))
trunc-middle c k x h n s a b e =
    let p = 2 ^ k in
    let f = fraction_of x in
    let y = x / p * p in
    let positive : 1 ≤ p = one-le-pow k 2 (omega arith) in
    let (upper, lower) = cut_fields k (2 ^ (52 - k)) x positive (factor k b) in
    let same : exponent_of y ≡ exponent_of x = ap (λ (m : ℕ). m % 2 ^ 11) upper in
    let scale = 2 ^ (exponent_of x - 1) in
    let cut = mantissa_cut (2 ^ (52 - k)) p f (2 ^ 52) positive (factor k b) in
    let value : units y ≡ (2 ^ 52 + f / p * p) * scale =
      units_normal y (omega arith) ∙ rw (same, lower) refl in
    let old : whole c (units x) ≡ (2 ^ 52 + f) / p * p * scale =
      rw (units_normal x n, e) (whole-middle (2 ^ 52 + f) k (exponent_of x - 1)) in
    rw (trunc_middle k x h s a b)
      (omega (arith, upper), value ∙ sym (old ∙ ap (λ (m : ℕ). m * scale) cut))

-- Below 1 there is no whole unit.
below_one :
    (c k x : ℕ) → 53 ≤ k → exponent_of x < 0x3ff → c ≡ k + (exponent_of x - 1) → units x / 2 ^ c ≡ 0
below_one c k x b s e =
    let wide : 2 ^ 53 ≤ 2 ^ k = pow-le-pow_right (omega arith) b in
    elim (Bool-cases (exponent_of x == 0)) [
      | inl z ↦
          let zero_exponent : exponent_of x ≡ 0 = ground arith in
          let same : c ≡ k = omega arith in
          rw (units_subnormal x zero_exponent, same) (div-eq_of_lt (omega arith))
      | inr z ↦
          rw (units_normal x (ground arith), e)
            (scaled_div (2 ^ 52 + fraction_of x) k (exponent_of x - 1) ∙ div-eq_of_lt (omega arith))
    ]

trunc-small :
    (c k x : ℕ)
    → x < 2 ^ 64
    → exponent_of x < 0x3ff
    → 53 ≤ k
    → c ≡ k + (exponent_of x - 1)
    → (sign_of (trunc x) ≡ sign_of x) × (units (trunc x) ≡ whole c (units x))
trunc-small c k x h s b e =
    let y = x / 2 ^ 63 * 2 ^ 63 in
    let nothing : units y ≡ 0 = units_subnormal y (omega arith) ∙ omega arith in
    let below : units x / 2 ^ c ≡ 0 = below_one c k x b s e in
    rw (trunc_small x h s) (omega arith, nothing ∙ rw below (omega arith))

trunc-cases :
    (c x : ℕ)
    → c ≡ 1074
    → x < 2 ^ 64
    → (sign_of (trunc x) ≡ sign_of x) × (units (trunc x) ≡ whole c (units x))
trunc-cases c x e h =
    let b = exponent_of x in
    elim (Bool-cases (leb (0x3ff + 52) b)) [
      | inl l ↦
          let same = trunc_large x (ground arith) in
          (
            ap (λ (y : ℕ). sign_of y) same,
            trunc-large c (b - 1 - c) x (ground arith) (ground arith),
          )
      | inr l ↦ elim (Bool-cases (ltb b 0x3ff)) [
        | inl s ↦ trunc-small c (c - (b - 1)) x h (ground arith) (ground arith) (ground arith)
        | inr s ↦
            trunc-middle c (0x3ff + 52 - b) x h (ground arith) (ground arith) (ground arith)
              (ground arith) (ground arith)
      ]
    ]

-- On 64-bit patterns trunc keeps the sign, and rounds the value, in units of 2 ^ -1074, down to a multiple of 2 ^ 1074.
pub trunc_lem :
    (x : ℕ)
    → x < 2 ^ 64
    → (sign_of (trunc x) ≡ sign_of x) × (units (trunc x) ≡ units x / 2 ^ 1074 * 2 ^ 1074)
trunc_lem x h = trunc-cases 1074 x refl h
