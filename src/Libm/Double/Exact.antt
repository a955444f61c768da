-- ===== src/Libm/Double/Exact.antt =====
-- Where rounding to 53 digits changes nothing.
use wasm_cxx_shim.Prelude.{
  ℕ, suc, ◌+◌, ◌-◌, ◌*◌, ◌^◌, ◌≤◌, ◌<◌, ◌≡◌, leb, ltb, ◌==◌, arith, Bool-cases, inl, inr, sym, ap,
  ◌∙◌, false,
}
use Prim.Native.Nat.{max}
use native.Mathlib.Nat.{one-le-pow, pow-le-pow_right, two-pow-succ, mul-div_cancel, mul-mod_left}
use wasm_cxx_shim.Libm.Double.{
  exponent_of, fraction_of, inf_bits, units, bit_length, round_even, rounded,
}
use wasm_cxx_shim.Libm.Double.Length.{pow-add, HasDigits, digits_below-HasDigits}

pub pow-power : (n d : ℕ) → d ≤ n → 2 ^ (n - d) * 2 ^ d ≡ 2 ^ n
pow-power n d h =
    let e : n - d + d ≡ n = omega arith in sym (pow-add (n - d) d) ∙ ap (λ (m : ℕ). 2 ^ m) e

pub round_even-multiple : (d q : ℕ) → round_even (d * 2 ^ q) q ≡ d
unfolding round_even
round_even-multiple d q =
    let pos_p = one-le-pow q 2 (omega arith) in
    rw (mul-div_cancel d pos_p, mul-mod_left d (2 ^ q)) (ground arith)

pub units-small : (n : ℕ) → n < 2 ^ 53 → units n ≡ n
unfolding units
units-small n h = ground arith

pub units-normal :
    (q d : ℕ) → 2 ^ 52 ≤ d → d < 2 ^ 53 → q ≤ 2045 → units (q * 2 ^ 52 + d) ≡ d * 2 ^ q
unfolding units
units-normal q d h l m =
    let e : exponent_of (q * 2 ^ 52 + d) ≡ q + 1 = omega arith in
    let f : fraction_of (q * 2 ^ 52 + d) ≡ d - 2 ^ 52 = omega arith in
    let positive : (q + 1 == 0) ≡ false = ground arith in
    let g : q + 1 - 1 ≡ q = omega arith in
    let k : 2 ^ 52 + (d - 2 ^ 52) ≡ d = omega arith in rw (e, f, positive, g, k)

pub mul_mono : (p a b : ℕ) → a ≤ b → a * p ≤ b * p
mul_mono p a b h = grind arith

pub mul_mono_lt : (p a b : ℕ) → 1 ≤ p → a < b → a * p < b * p
mul_mono_lt p a b h l = grind arith

pub bit_length-HasDigits : (n : ℕ) → n < 2 ^ 2099 → HasDigits (bit_length n) n
unfolding bit_length
bit_length-HasDigits n h = digits_below-HasDigits 13 n (omega arith)

pub cancel_lt : (p a b : ℕ) → a * p < b * p → a < b
cancel_lt p a b h = elim (Bool-cases (ltb a b)) [
  | inl e ↦ ground arith
  | inr e ↦ let less : b ≤ a = ground arith in let t = mul_mono p b a less in absurd (omega arith)
]

pub cancel_le : (p a b : ℕ) → 1 ≤ p → a * p ≤ b * p → a ≤ b
cancel_le p a b h l = elim (Bool-cases (leb a b)) [
  | inl e ↦ ground arith
  | inr e ↦
      let more : b < a = ground arith in let t = mul_mono_lt p b a h more in absurd (omega arith)
]

pub power_lt : (a b : ℕ) → 2 ^ a < 2 ^ b → a < b
power_lt a b h = elim (Bool-cases (ltb a b)) [
  | inl e ↦ ground arith
  | inr e ↦
      let less : b ≤ a = ground arith in
      let t : 2 ^ b ≤ 2 ^ a = pow-le-pow_right (omega arith) less in absurd (omega arith)
]

small_digits : (k j : ℕ) → k < 2 ^ 53 → j ≤ 2045 → HasDigits (bit_length (k * 2 ^ j)) (k * 2 ^ j)
small_digits k j h m =
    let n = k * 2 ^ j in
    let pos_j = one-le-pow j 2 (omega arith) in
    let below : n < 2 ^ (53 + j) = rw (pow-add 53 j) (mul_mono_lt (2 ^ j) k (2 ^ 53) pos_j h) in
    let fits : 2 ^ (53 + j) ≤ 2 ^ 2099 =
      pow-le-pow_right (omega arith) {i = 53 + j} {j = 2099} (omega arith) in
    bit_length-HasDigits n (omega arith)

-- 53 digits with `j` zeros behind them: no more digits than `j + 53`, and `d` units of the last place.
scaled_digits :
    (k j : ℕ)
    → k < 2 ^ 53
    → j ≤ 2045
    → let l = bit_length (k * 2 ^ j) in
      53 < l → (d : ℕ) × (k * 2 ^ j ≡ d * 2 ^ (l - 53)) × (2 ^ 52 ≤ d) × (d < 2 ^ 53) × (l ≤ j + 53)
scaled_digits k j h m more =
    let n = k * 2 ^ j in
    let l = bit_length n in
    let pos_j = one-le-pow j 2 (omega arith) in
    let below : n < 2 ^ (53 + j) = rw (pow-add 53 j) (mul_mono_lt (2 ^ j) k (2 ^ 53) pos_j h) in
    let v = small_digits k j h m in
    let q = l - 53 in
    let least : 2 ^ l ≤ 2 * n = elim v.least [ inl e ↦ absurd (omega arith) | inr e ↦ e ] in
    let suc_54 : 54 + j ≡ suc (53 + j) = omega arith in
    let up : 2 ^ (54 + j) ≡ 2 ^ (53 + j) + 2 ^ (53 + j) =
      ap (λ (i : ℕ). 2 ^ i) suc_54 ∙ two-pow-succ (53 + j) in
    let short : l < 54 + j = power_lt l (54 + j) (omega arith) in
    let d = k * 2 ^ (j - q) in
    let parts : d * 2 ^ q ≡ n = grind (arith, pow-power j q (omega arith)) in
    let whole : 2 ^ q * 2 ^ 53 ≡ 2 ^ l = pow-power l 53 (omega arith) in
    let pos_q = one-le-pow q 2 (omega arith) in
    (
      d,
      sym parts,
      cancel_le (2 ^ q) (2 ^ 52) d pos_q (omega (arith, v.below)),
      cancel_lt (2 ^ q) d (2 ^ 53) (omega (arith, v.below)),
      omega arith,
    )

rounded_long :
    (n d : ℕ)
    → 53 < bit_length n
    → bit_length n ≤ 2098
    → n ≡ d * 2 ^ (bit_length n - 53)
    → d < 2 ^ 53
    → rounded 0 n ≡ (bit_length n - 53) * 2 ^ 52 + d
unfolding rounded
rounded_long n d more l e high =
    let q = bit_length n - 53 in
    let most : max q 0 ≡ q = omega arith in
    let q0 : q - 0 ≡ q = omega arith in
    let cut : round_even n q ≡ d = ap (λ (m : ℕ). round_even m q) e ∙ round_even-multiple d q in
    rw (most, q0, cut) (omega arith)

pub rounded_short : (n : ℕ) → bit_length n ≤ 53 → n < 2 ^ 53 → rounded 0 n ≡ n
unfolding rounded
rounded_short n l h =
    let none_cut : max (bit_length n - 53) 0 ≡ 0 = omega arith in
    let one : n * 2 ^ 0 ≡ n = omega arith in
    let cut : round_even n 0 ≡ n =
      ap (λ (m : ℕ). round_even m 0) (sym one) ∙ round_even-multiple n 0 in
    rw (none_cut, cut) (omega arith)

-- A number with 53 digits and zeros behind them is a double's value, and rounding returns that double.
pub rounded_exact :
    (k j : ℕ)
    → k < 2 ^ 53
    → j ≤ 2045
    → (units (rounded 0 (k * 2 ^ j)) ≡ k * 2 ^ j) × (rounded 0 (k * 2 ^ j) < inf_bits)
rounded_exact k j h m = elim (Bool-cases (leb (bit_length (k * 2 ^ j)) 53)) [
  | inl short ↦
      let n = k * 2 ^ j in
      let v = small_digits k j h m in
      let l : bit_length n ≤ 53 = ground arith in
      let below : 2 ^ bit_length n ≤ 2 ^ 53 =
        pow-le-pow_right {n = 2} (omega arith) {i = bit_length n} {j = 53} l in
      let small : n < 2 ^ 53 = omega (arith, v.below) in
      rw (rounded_short n l small) (units-small n small, omega arith)
  | inr long ↦
      let n = k * 2 ^ j in
      let more : 53 < bit_length n = ground arith in
      let (d, e, low, high, l) = scaled_digits k j h m more in
      let r = rounded_long n d more (omega arith) e high in
      rw r (units-normal (bit_length n - 53) d low high (omega arith) ∙ sym e, omega arith)
]
