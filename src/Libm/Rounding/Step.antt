-- ===== src/Libm/Rounding/Step.antt =====
-- `y` of floor and ceil is the nearest whole number less the argument.
use wasm_cxx_shim.Prelude.{
  ℕ, ◌+◌, ◌-◌, ◌*◌, ◌/◌, ◌%◌, ◌^◌, ◌≤◌, ◌<◌, ◌≡◌, ◌⊎◌, ◌==◌, arith, inl, inr, ap, ◌∙◌, refl, false,
}
use native.Mathlib.Nat.{one-le-pow, pow-le-pow_right, div-add-mod, mod-lt, mul_comm, mul-sub}
use wasm_cxx_shim.Libm.Double.{
  sign_of, exponent_of, fraction_of, magnitude, inf_bits, units, rounded, round_even, signed, neg,
  ◌⊕◌, ◌⊖◌,
}
use wasm_cxx_shim.Libm.Double.Length.{pow-add}
use wasm_cxx_shim.Libm.Double.Exact.{
  mul_mono, mul_mono_lt, cancel_lt, cancel_le, units-normal, pow-power,
}
use wasm_cxx_shim.Libm.Double.Value.{
  HasValue, Representable, add-finite, add_same_sign, units-signed, units-neg,
}
use wasm_cxx_shim.Libm.Rounding.{toint}
use wasm_cxx_shim.Libm.Rounding.Nearest.{round_even-cases, rounded_shifted, units-shifted}

-- The units of 1.
abbrev pub unit : ℕ
unit = 2 ^ 1074

whole_bound : (m d s p : ℕ) → p * d + s ≡ m → m < 2 ^ 52 * p → d < 2 ^ 52
whole_bound m d s p e h = cancel_lt p d (2 ^ 52) (grind arith)

-- The nearest whole number to less than 2 ^ 52.
pub nearest_bound : (m q : ℕ) → m < 2 ^ 52 * 2 ^ q → round_even m q ≤ 2 ^ 52
nearest_bound m q h =
    let p = 2 ^ q in
    let parts = div-add-mod m p in
    let d = whole_bound m (m / p) (m % p) p parts h in let c = round_even-cases m q in ground arith

toint-units : units toint ≡ 2 ^ 52 * unit
toint-units = units-normal 1074 (2 ^ 52) (omega arith) (omega arith) (omega arith)

pub toint-HasValue : HasValue toint (2 ^ 52 * unit) 0
toint-HasValue =
    let u = toint-units in
    record { finite = omega arith; fits = omega arith; value = inl (omega arith, omega arith) }

-- The sum with 2 ^ 52, with the sign of the argument.
sum-units :
    (s m : ℕ)
    → m < 2 ^ 52 * unit
    → s ≤ 1
    → (magnitude (signed s (rounded 0 (m + 2 ^ 52 * unit))) < inf_bits)
      × (signed s (rounded 0 (m + 2 ^ 52 * unit)) < 2 ^ 64)
      × (sign_of (signed s (rounded 0 (m + 2 ^ 52 * unit))) ≡ s)
      × (units (signed s (rounded 0 (m + 2 ^ 52 * unit))) ≡ (2 ^ 52 + round_even m 1074) * unit)
sum-units s m h l =
    let most = nearest_bound m 1074 h in
    let t = rounded_shifted m 1074 h (omega arith) most in
    let u = units-shifted (round_even m 1074) 1074 most (omega arith) in
    let w = units-signed s (1074 * 2 ^ 52 + (2 ^ 52 + round_even m 1074)) (omega arith) in
    rw t (omega arith, omega arith, omega arith, w ∙ u)

pub up-HasValue :
    (x : ℕ)
    → sign_of x ≡ 0
    → magnitude x < inf_bits
    → units x < 2 ^ 52 * unit
    → HasValue (x ⊕ toint) ((2 ^ 52 + round_even (units x) 1074) * unit) 0
up-HasValue x s f h =
    let t = toint-units in
    let e = add_same_sign x toint 0 s (omega arith) in
    let (g, l, p, u) = sum-units 0 (units x) h (omega arith) in
    rw (add-finite x toint f (omega arith), e, t)
      (record { finite = g; fits = l; value = inl (p, omega arith) })

pub down-HasValue :
    (x : ℕ)
    → sign_of x ≡ 1
    → magnitude x < inf_bits
    → units x < 2 ^ 52 * unit
    → HasValue (x ⊖ toint) 0 ((2 ^ 52 + round_even (units x) 1074) * unit)
unfolding ◌⊖◌
down-HasValue x s f h =
    let t : units (neg toint) ≡ 2 ^ 52 * unit = units-neg toint (omega arith) ∙ toint-units in
    let e = add_same_sign x (neg toint) 1 s (omega arith) in
    let (g, l, p, u) = sum-units 1 (units x) h (omega arith) in
    rw (add-finite x (neg toint) f (omega arith), e, t)
      (record { finite = g; fits = l; value = inr (p, omega arith) })

sub_mul : (a b p : ℕ) → (a - b) * p ≡ a * p - b * p
sub_mul a b p = rw (mul_comm (a - b) p, mul-sub p a b, mul_comm p a, mul_comm p b) refl

near_whole :
    (m r u : ℕ)
    → 1 ≤ u
    → ((r ≡ m / u) × (2 * (m % u) ≤ u)) ⊎ ((r ≡ m / u + 1) × (u ≤ 2 * (m % u)))
    → 2 * ((r * u - m) + (m - r * u)) ≤ u
near_whole m r u h c =
    let parts = div-add-mod m u in
    let s = mod-lt m h in
    let swap = mul_comm u (m / u) in
    elim c [
      | inl (e, n) ↦ let t : r * u ≡ m / u * u = ap (λ (k : ℕ). k * u) e in omega arith
      | inr (e, n) ↦
          let t : r * u ≡ (m / u + 1) * u = ap (λ (k : ℕ). k * u) e in
          let w : (m / u + 1) * u ≡ m / u * u + u = grind arith in omega arith
    ]

unit_parts : (j : ℕ) → j ≤ 1074 → 2 ^ (1074 - j) * 2 ^ j ≡ unit
unit_parts j h = pow-power 1074 j h

-- A double from 1 / 2 up to below 2 ^ 52.
abbrev pub IsMiddle : ℕ → Type 0
IsMiddle x = (0x3fe ≤ exponent_of x) × (exponent_of x < 0x3ff + 52)

pub units-middle :
    (x : ℕ) → IsMiddle x → units x ≡ (2 ^ 52 + fraction_of x) * 2 ^ (exponent_of x - 1)
unfolding units
units-middle x h =
    let (a, b) = h in let e : (exponent_of x == 0) ≡ false = ground arith in rw e refl

pub middle_range : (x : ℕ) → IsMiddle x → (unit ≤ 2 * units x) × (units x < 2 ^ 52 * unit)
middle_range x h =
    let (a, b) = h in
    let e = exponent_of x in
    let p = 2 ^ (e - 1) in
    let u = units-middle x h in
    let low : 2 ^ (52 + (e - 1)) ≡ 2 ^ 52 * p = pow-add 52 (e - 1) in
    let more : 2 ^ 1073 ≤ 2 ^ (52 + (e - 1)) =
      pow-le-pow_right {n = 2} (omega arith) {i = 1073} {j = 52 + (e - 1)} (omega arith) in
    let high : 2 ^ (53 + (e - 1)) ≡ 2 ^ 53 * p = pow-add 53 (e - 1) in
    let most : 2 ^ (53 + (e - 1)) ≤ 2 ^ (52 + 1074) =
      pow-le-pow_right {n = 2} (omega arith) {i = 53 + (e - 1)} {j = 52 + 1074} (omega arith) in
    let pos_p = one-le-pow (e - 1) 2 (omega arith) in
    let a1 = mul_mono p (2 ^ 52) (2 ^ 52 + fraction_of x) (omega arith) in
    let a2 = mul_mono_lt p (2 ^ 52 + fraction_of x) (2 ^ 53) pos_p (omega arith) in
    rw u (omega arith, omega arith)

pub middle-Representable :
    (x : ℕ)
    → IsMiddle x
    → let m = units x in
      let r = round_even m 1074 in Representable ((r * unit - m) + (m - r * unit))
middle-Representable x h =
    let (a, b) = h in
    let m = units x in
    let r = round_even m 1074 in
    let f = 2 ^ 52 + fraction_of x in
    let j = exponent_of x - 1 in
    let p = 2 ^ j in
    let g = r * 2 ^ (1074 - j) in
    let (low, high) = middle_range x h in
    let whole : g * p ≡ r * unit = grind (arith, unit_parts j (omega arith)) in
    let near = near_whole m r unit (omega arith) (round_even-cases m 1074) in
    let u : m ≡ f * p = units-middle x h in
    let pos_p = one-le-pow j 2 (omega arith) in
    let cut : (g - f + (f - g)) * p ≡ (g * p - f * p) + (f * p - g * p) =
      grind (arith, sub_mul g f p, sub_mul f g p) in
    let small = cancel_le p (g - f + (f - g)) f pos_p (omega arith) in
    record {
      digits = g - f + (f - g);
      shift = j;
      short = omega arith;
      low = omega arith;
      product = omega arith;
    }
