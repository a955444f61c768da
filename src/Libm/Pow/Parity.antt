-- ===== src/Libm/Pow/Parity.antt =====
-- The parity of a number of units, and the steps to `checkint`.
use wasm_cxx_shim.Prelude.{
  ℕ, zero, suc, ◌+◌, ◌-◌, ◌*◌, ◌/◌, ◌%◌, ◌^◌, ◌<◌, ◌≤◌, ◌≡◌, true, false, ◌==◌, arith, ap, ◌∙◌,
  if◌then◌else◌, sym,
}
use native.Mathlib.Nat.{
  one-le-pow, mul-div-mul_right, add-mul-mod_self_right, mod-eq_of_lt, mod-lt, div-add-mod, pow-suc,
  pow-succ', mul-mod_left, mul-div_cancel, add-mul-div_right,
}
use wasm_cxx_shim.Libm.Double.{exponent_of, fraction_of, units}
use wasm_cxx_shim.Libm.Double.Length.{pow-add}

-- Of `n` units of 2 ^ -c: 0 for no integer, 1 for an odd one, 2 for an even one.
abbrev pub kind_of : ℕ → ℕ → ℕ
kind_of c n = if n % 2 ^ c == 0 then (if n / 2 ^ c % 2 == 0 then 2 else 1) else 0

pub scaled_div : (s k j : ℕ) → s * 2 ^ j / 2 ^ (k + j) ≡ s / 2 ^ k
scaled_div s k j = rw (pow-add k j) (mul-div-mul_right s (2 ^ k) (one-le-pow j 2 (omega arith)))

mul_mono_lt : (p a b : ℕ) → 1 ≤ p → a < b → a * p < b * p
mul_mono_lt p a b h l = grind arith

scaled_sum : (s q p d r : ℕ) → s ≡ q * d + r → s * p ≡ r * p + d * (q * p)
scaled_sum s q p d r e = let t : (q * d + r) * p ≡ r * p + d * (q * p) = grind arith in rw e t

mod-mul_both : (s q p : ℕ) → 1 ≤ q → 1 ≤ p → s * p % (q * p) ≡ s % q * p
mod-mul_both s q p hq hp =
    let parts : s * p ≡ s % q * p + s / q * (q * p) =
      scaled_sum s q p (s / q) (s % q) (sym (div-add-mod s q)) in
    let small : s % q * p < q * p = mul_mono_lt p (s % q) q hp (mod-lt s hq) in
    rw (parts, add-mul-mod_self_right (s % q * p) (s / q) (q * p)) (mod-eq_of_lt small)

scaled_mod : (s k j : ℕ) → s * 2 ^ j % 2 ^ (k + j) ≡ s % 2 ^ k * 2 ^ j
scaled_mod s k j =
    rw (pow-add k j)
      (mod-mul_both s (2 ^ k) (2 ^ j) (one-le-pow k 2 (omega arith)) (one-le-pow j 2 (omega arith)))

digit_zero : (p d : ℕ) → 1 ≤ p → (d * p == 0) ≡ (d == 0)
digit_zero p zero h = ground arith
digit_zero p (suc d) h = let pos_p : 1 ≤ suc d * p = grind arith in ground arith

-- A common factor leaves the kind.
kind_scaled : (s k j : ℕ) → kind_of (k + j) (s * 2 ^ j) ≡ kind_of k s
kind_scaled s k j = rw (
  scaled_div s k j,
  scaled_mod s k j,
  digit_zero (2 ^ j) (s % 2 ^ k) (one-le-pow j 2 (omega arith)),
)

pub kind_small : (k s : ℕ) → 0 < s → s < 2 ^ k → kind_of k s ≡ 0
kind_small k s p h = let e = mod-eq_of_lt h in rw e (ground arith)

kind_even : (k j s : ℕ) → kind_of k (s * 2 ^ (k + suc j)) ≡ 2
kind_even k j s =
    let p = 2 ^ k in
    let positive : 1 ≤ p = one-le-pow k 2 (omega arith) in
    let t = s * 2 ^ j in
    let parts : s * 2 ^ (k + suc j) ≡ 2 * t * p =
      rw (pow-add k (suc j), pow-suc 2 j) (grind arith) in
    rw (parts, mul-mod_left (2 * t) p, mul-div_cancel (2 * t) positive) (ground arith)

pub units_normal :
    (y : ℕ) → 1 ≤ exponent_of y → units y ≡ (2 ^ 52 + fraction_of y) * 2 ^ (exponent_of y - 1)
unfolding units
units_normal y h = let e : (exponent_of y == 0) ≡ false = ground arith in rw e

pub units_subnormal : (y : ℕ) → exponent_of y ≡ 0 → units y ≡ fraction_of y
unfolding units
units_subnormal y h = let e : (exponent_of y == 0) ≡ true = ground arith in rw e

pub kind-normal :
    (c k y : ℕ)
    → 1 ≤ exponent_of y
    → c ≡ k + (exponent_of y - 1)
    → kind_of c (units y) ≡ kind_of k (2 ^ 52 + fraction_of y)
kind-normal c k y h sum =
    rw (units_normal y h, sum) (kind_scaled (2 ^ 52 + fraction_of y) k (exponent_of y - 1))

pub kind-large :
    (c j y : ℕ) → 1 ≤ exponent_of y → exponent_of y - 1 ≡ c + suc j → kind_of c (units y) ≡ 2
kind-large c j y h sum = rw (units_normal y h, sum) (kind_even c j (2 ^ 52 + fraction_of y))

-- Even multiples of `p` leave the digits from `p` down.
low_digits :
    (q g p f : ℕ)
    → 1 ≤ p
    → ((f + q * (2 * g) * p) % p ≡ f % p) × ((f + q * (2 * g) * p) / p % 2 ≡ f / p % 2)
low_digits q g p f h =
    let quotient = add-mul-div_right f (q * (2 * g)) h in
    let twice : q * (2 * g) ≡ 2 * (q * g) = grind arith in
    (add-mul-mod_self_right f (q * (2 * g)) p, rw (quotient, twice) (omega arith))

pub power_split : (k : ℕ) → k < 52 → 2 * 2 ^ (51 - k) * 2 ^ k ≡ 2 ^ 52
power_split k h =
    let e : 52 ≡ suc (51 - k) + k = omega arith in
    sym (
      ap (λ (n : ℕ). 2 ^ n) e
      ∙ pow-add (suc (51 - k)) k
      ∙ ap (λ (n : ℕ). n * 2 ^ k) (pow-succ' 2 (51 - k)))

block : (q g p n f : ℕ) → 2 * g * p ≡ n → f + q * n ≡ f + q * (2 * g) * p
block q g p n f e = let t : f + q * (2 * g * p) ≡ f + q * (2 * g) * p = grind arith in rw e at t

-- `y` and its mantissa have the same digits below the exponent.
pub kind-bits :
    (k y : ℕ)
    → k < 52
    → ((2 ^ 52 + fraction_of y) % 2 ^ k ≡ y % 2 ^ k)
      × ((2 ^ 52 + fraction_of y) / 2 ^ k % 2 ≡ y / 2 ^ k % 2)
kind-bits k y h =
    let f = fraction_of y in
    let q = y / 2 ^ 52 in
    let g = 2 ^ (51 - k) in
    let p = 2 ^ k in
    let positive : 1 ≤ p = one-le-pow k 2 (omega arith) in
    let square : 2 * g * p ≡ 2 ^ 52 = power_split k h in
    let whole : y ≡ f + q * (2 * g) * p =
      let b = block q g p (2 ^ 52) f square in let t : y ≡ f + q * 2 ^ 52 = omega arith in t ∙ b in
    let mantissa : 2 ^ 52 + f ≡ f + 1 * (2 * g) * p =
      let b = block 1 g p (2 ^ 52) f square in
      let t : 2 ^ 52 + f ≡ f + 1 * 2 ^ 52 = omega arith in t ∙ b in
    let (a, b) = low_digits q g p f positive in
    let (c, d) = low_digits 1 g p f positive in
    let low : y % p ≡ f % p = ap (λ (n : ℕ). n % p) whole ∙ a in
    let digit : y / p % 2 ≡ f / p % 2 = ap (λ (n : ℕ). n / p % 2) whole ∙ b in
    (
      ap (λ (n : ℕ). n % p) mantissa ∙ c ∙ sym low,
      ap (λ (n : ℕ). n / p % 2) mantissa ∙ d ∙ sym digit,
    )
