-- ===== src/Libm/Pattern/Ilogb.antt =====
-- `ilogb`: the loop over a subnormal number, and the exponent against the value.
use wasm_cxx_shim.Prelude.{
  ℕ, suc, ◌+◌, ◌-◌, ◌*◌, ◌/◌, ◌%◌, ◌^◌, ◌<◌, ◌≤◌, ◌≡◌, ap, ◌∙◌, sym, true, false, ltb, leb, ◌==◌,
  arith, Bool-cases, inl, inr,
}
use native.Mathlib.Nat.{pow-le-pow_right, pow-suc, one-le-pow}
use wasm_cxx_shim.Prelude.Int.{pos, negsuc, sub_ℕ}
use wasm_cxx_shim.Prelude.Loop.{while-Inv}
use wasm_cxx_shim.Libm.Double.{exponent_of, fraction_of, is_zero, units}
use wasm_cxx_shim.Libm.Double.Length.{pow-add}
use wasm_cxx_shim.Libm.Pattern.{Scan, scan, ilogb}
use wasm_cxx_shim.Libm.Pow.Parity.{units_normal, units_subnormal}

-- The state after `down` shifts of `i`, none of which lost a bit.
record Shifted (i : ℕ) (t : Scan) : Type 0 where
  value : t.i ≡ i * 2 ^ t.down
  fits : t.i < 2 ^ 64
  large : 2 ^ t.down ≤ t.i

below_64 : (d i : ℕ) → 2 ^ d ≤ i → i < 2 ^ 64 → d < 64
below_64 d i h l = elim (Bool-cases (ltb d 64)) [
  | inl e ↦ ground arith
  | inr e ↦
      let wide : 64 ≤ d = ground arith in
      let far : 2 ^ 64 ≤ 2 ^ d = pow-le-pow_right (omega arith) wide in absurd (omega arith)
]

Shifted-next :
    (i : ℕ) (t : Scan)
    → Shifted i t
    → (t.i / 2 ^ 63 == 0) ≡ true
    → Shifted i (record { i = t.i * 2 % 2 ^ 64; down = t.down + 1 })
      × (64 - (t.down + 1) < 64 - t.down)
Shifted-next i t v low =
    let room : t.i < 2 ^ 63 = ground arith in
    let kept : t.i * 2 % 2 ^ 64 ≡ t.i * 2 = omega arith in
    let up : 2 ^ (t.down + 1) ≡ 2 ^ t.down * 2 =
      let e : t.down + 1 ≡ suc t.down = omega arith in rw e (pow-suc 2 t.down) in
    let short : t.down < 64 = below_64 t.down t.i v.large (omega arith) in
    (
      record {
        value = kept ∙ ap (λ (n : ℕ). n * 2) v.value ∙ rw up (grind arith);
        fits = omega arith;
        large = omega (arith, v.large);
      },
      omega arith,
    )

pub scan_parts :
    (i : ℕ)
    → 0 < i
    → i < 2 ^ 64
    → (2 ^ 63 ≤ i * 2 ^ (scan i).down) × (i * 2 ^ (scan i).down < 2 ^ 64)
unfolding scan
scan_parts i p h =
    let start : Shifted i (record { i = i; down = 0 }) = record {
      value = omega arith;
      fits = h;
      large = omega arith;
    } in
    let (v, stop) =
      while-Inv (λ (t : Scan). t.i / 2 ^ 63 == 0)
        (λ (t : Scan). record { i = t.i * 2 % 2 ^ 64; down = t.down + 1 }) (Shifted i)
        (λ (t : Scan). 64 - t.down) (Shifted-next i) 64 (record { i = i; down = 0 }) (omega arith)
        start in
    let e : (scan i).i ≡ i * 2 ^ (scan i).down = v.value in
    let high : 2 ^ 63 ≤ (scan i).i = ground (arith, stop) in
    let small : (scan i).i < 2 ^ 64 = v.fits in (omega (arith, e), omega (arith, e))

mul_mono_lt : (p a b : ℕ) → 1 ≤ p → a < b → a * p < b * p
mul_mono_lt p a b h l = grind arith

-- The number of the first digit of a normal number, and of a subnormal one.
normal_range :
    (y : ℕ)
    → 1 ≤ exponent_of y
    → (2 ^ (exponent_of y + 51) ≤ units y) × (units y < 2 ^ (exponent_of y + 52))
normal_range y h =
    let p = 2 ^ (exponent_of y - 1) in
    let low : 2 ^ (exponent_of y + 51) ≡ 2 ^ 52 * p =
      let e : exponent_of y + 51 ≡ 52 + (exponent_of y - 1) = omega arith in
      rw e (pow-add 52 (exponent_of y - 1)) in
    let high : 2 ^ (exponent_of y + 52) ≡ 2 ^ 53 * p =
      let e : exponent_of y + 52 ≡ 53 + (exponent_of y - 1) = omega arith in
      rw e (pow-add 53 (exponent_of y - 1)) in
    let positive : 1 ≤ p = one-le-pow (exponent_of y - 1) 2 (omega arith) in
    let parts : (2 ^ 52 + fraction_of y) * p ≡ 2 ^ 52 * p + fraction_of y * p = grind arith in
    let below : fraction_of y * p < 2 ^ 52 * p =
      mul_mono_lt p (fraction_of y) (2 ^ 52) positive (omega arith) in
    rw (units_normal y h, low, high, parts) (omega arith, omega arith)

cancel_le : (p a b : ℕ) → a * p ≤ b * p → 1 ≤ p → a ≤ b
cancel_le p a b h l = elim (Bool-cases (leb a b)) [
  | inl e ↦ ground arith
  | inr e ↦
      let more : b < a = ground arith in let t = mul_mono_lt p b a l more in absurd (omega arith)
]

cancel_lt : (p a b : ℕ) → a * p < b * p → a < b
cancel_lt p a b h = elim (Bool-cases (ltb a b)) [
  | inl e ↦ ground arith
  | inr e ↦
      let less : b ≤ a = ground arith in let t : b * p ≤ a * p = grind arith in absurd (omega arith)
]

power_parts : (n d : ℕ) → d ≤ n → 2 ^ (n - d) * 2 ^ d ≡ 2 ^ n
power_parts n d h =
    let e : n - d + d ≡ n = omega arith in sym (pow-add (n - d) d) ∙ ap (λ (m : ℕ). 2 ^ m) e

subnormal_range :
    (f d : ℕ)
    → 2 ^ 63 ≤ f * 2 ^ 12 * 2 ^ d
    → f * 2 ^ 12 * 2 ^ d < 2 ^ 64
    → d ≤ 51
    → (2 ^ (51 - d) ≤ f) × (f < 2 ^ (52 - d))
subnormal_range f d a b l =
    let p = 2 ^ d in
    let swap : f * 2 ^ 12 * p ≡ 2 ^ 12 * (f * p) = grind arith in
    let low : 2 ^ 51 ≤ f * p = omega arith in
    let high : f * p < 2 ^ 52 = omega arith in
    let low' = power_parts 51 d l in
    let high' = power_parts 52 d (omega arith) in
    (
      cancel_le p (2 ^ (51 - d)) f (rw low' low) (one-le-pow d 2 (omega arith)),
      cancel_lt p f (2 ^ (52 - d)) (rw high' high),
    )

pub down_bound : (f d : ℕ) → 0 < f → f * 2 ^ 12 * 2 ^ d < 2 ^ 64 → d ≤ 51
down_bound f d p h = elim (Bool-cases (leb d 51)) [
  | inl e ↦ ground arith
  | inr e ↦
      let wide : 52 ≤ d = ground arith in
      let far : 2 ^ 52 ≤ 2 ^ d = pow-le-pow_right (omega arith) wide in
      let swap : f * 2 ^ 12 * 2 ^ d ≡ 2 ^ 12 * (f * 2 ^ d) = grind arith in
      let once : 2 ^ d ≤ f * 2 ^ d = grind arith in absurd (omega arith)
]

sub_ℕ_shift : (a b k : ℕ) → sub_ℕ a b ≡ sub_ℕ (a + k) (b + k)
sub_ℕ_shift a b k = elim (Bool-cases (leb b a)) [
  | inl e ↦
      let f : leb (b + k) (a + k) ≡ true = ground arith in
      rw (e, f) (ap (λ (n : ℕ). pos n) (omega arith))
  | inr e ↦
      let f : leb (b + k) (a + k) ≡ false = ground arith in
      rw (e, f) (ap (λ (n : ℕ). negsuc n) (omega arith))
]

sub_ℕ_below : (d : ℕ) → d ≤ 51 → negsuc (0x3ff + d - 1) ≡ sub_ℕ (51 - d) 1074
sub_ℕ_below d h =
    let f : leb 1074 (51 - d) ≡ false = ground arith in
    rw f (ap (λ (n : ℕ). negsuc n) (omega arith))

ilogb_normal :
    (y : ℕ) → 1 ≤ exponent_of y → exponent_of y < 0x7ff → ilogb y ≡ sub_ℕ (exponent_of y) 0x3ff
unfolding ilogb
ilogb_normal y h l = ground arith

ilogb_subnormal :
    (y : ℕ)
    → exponent_of y ≡ 0
    → 0 < fraction_of y
    → ilogb y ≡ negsuc (0x3ff + (scan (fraction_of y * 2 ^ 12)).down - 1)
unfolding ilogb
ilogb_subnormal y h p =
    let e : y * 2 ^ 12 % 2 ^ 64 ≡ fraction_of y * 2 ^ 12 = omega arith in rw e (ground arith)

-- For a finite pattern that is not a zero, ilogb is n - 1074 for the number n of the first
-- binary digit of the value in units of 2 ^ -1074.
pub ilogb_lem :
    (y : ℕ)
    → exponent_of y < 0x7ff
    → is_zero y ≡ false
    → (n : ℕ) × (ilogb y ≡ sub_ℕ n 1074) × (2 ^ n ≤ units y) × (units y < 2 ^ (n + 1))
ilogb_lem y h z = elim (Bool-cases (exponent_of y == 0)) [
  | inl e ↦
      let f = fraction_of y in
      let none : exponent_of y ≡ 0 = ground arith in
      let some_digit : 0 < f = ground arith in
      let d = (scan (f * 2 ^ 12)).down in
      let (a, b) = scan_parts (f * 2 ^ 12) (omega arith) (omega arith) in
      let l = down_bound f d some_digit b in
      let (low, high) = subnormal_range f d a b l in
      let next : 51 - d + 1 ≡ 52 - d = omega arith in
      (
        51 - d,
        ilogb_subnormal y none some_digit ∙ sub_ℕ_below d l,
        rw (units_subnormal y none) low,
        rw (units_subnormal y none, next) high,
      )
  | inr e ↦
      let normal : 1 ≤ exponent_of y = ground arith in
      let (low, high) = normal_range y normal in
      let next : exponent_of y + 51 + 1 ≡ exponent_of y + 52 = omega arith in
      (
        exponent_of y + 51,
        ilogb_normal y normal h ∙ sub_ℕ_shift (exponent_of y) 0x3ff 51,
        low,
        rw next high,
      )
]
