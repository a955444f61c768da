-- ===== src/Libm/Fma/Convert.antt =====
-- The conversion to double at the end of fma.
pub mod Near
pub mod Doubled
pub mod Subnormal
pub mod ToDouble
use wasm_cxx_shim.Prelude.{
  ℕ, suc, ◌+◌, ◌-◌, ◌*◌, ◌/◌, ◌%◌, ◌^◌, ◌≤◌, ◌<◌, ◌≡◌, Bool, leb, ltb, ◌==◌, arith, Bool-cases, inl,
  inr, sym, ap, ◌∙◌, refl, true, false, leb→le, leb→gt, not, ◌&&◌, if◌then◌else◌,
}
use Prim.Native.Nat.{max, min}
use native.Mathlib.Nat.{mul_assoc, one-le-pow, two-pow-succ, pow-le-pow_right, lt_of_lt_of_le}
use wasm_cxx_shim.Prelude.Int.{ℤ, pos, negsuc, sub_ℕ, ltb_ℤ}
use wasm_cxx_shim.Libm.Double.{
  sign_of, magnitude, inf_bits, units, bit_length, round_even, rounded, signed, of_int,
}
use wasm_cxx_shim.Libm.Double.Length.{pow-add, HasDigits}
use wasm_cxx_shim.Libm.Double.Exact.{mul_mono, mul_mono_lt, round_even-multiple, rounded_exact}
use wasm_cxx_shim.Libm.Double.Scale.{
  rounded-shift, length_lem, HasDigits-unique, HasDigits-shift, round_even-shift,
}
use wasm_cxx_shim.Libm.Rounding.{scalbn}
use wasm_cxx_shim.Libm.Rounding.Nearest.{units-shifted, round_even-cases}
use wasm_cxx_shim.Libm.Rounding.Scale.{scaled}
use wasm_cxx_shim.Libm.Rounding.Scale.Back.{scaled-sub}
use wasm_cxx_shim.Libm.Rounding.Scale.Up.{Exactly, signed-Exactly}
use wasm_cxx_shim.Libm.Rounding.Scale.Scalbn.{scalbn_lem}
use wasm_cxx_shim.Libm.Double.Odd.{odd_shift}
use wasm_cxx_shim.Libm.Double.Odd.Rounded.{rounded-odd_shift}
use wasm_cxx_shim.Libm.Fma.{signed_double, shift_sticky}
use wasm_cxx_shim.Libm.Fma.Bits.{shift_sticky_lem}

abbrev pub sign_bit : Bool → ℕ
sign_bit negative = if negative then 1 else 0

pub product_fits : (n f : ℕ) → n < 2 ^ 128 → f ≤ 8000 → n * 2 ^ f < 2 ^ 8191
product_fits n f h l =
    let a = mul_mono_lt (2 ^ f) n (2 ^ 128) (one-le-pow f 2 (omega arith)) h in
    let b : 2 ^ (128 + f) ≤ 2 ^ 8191 =
      pow-le-pow_right {n = 2} (omega arith) {i = 128 + f} {j = 8191} (omega arith) in
    lt_of_lt_of_le (rw (sym (pow-add 128 f)) at a) b

-- scalbn of a whole number.
pub scalbn-whole :
    (r s n f : ℕ)
    → s < 2
    → n < 2 ^ 64
    → f ≤ 6000
    → Exactly r s (n * 2 ^ 1074)
    → scalbn r (sub_ℕ f 2342) ≡ signed s (rounded 1268 (n * 2 ^ f))
scalbn-whole r s n f h l m v =
    let big : n * 2 ^ (f + 1074) < 2 ^ 8191 =
      product_fits n (f + 1074) (omega arith) (omega arith) in
    let split : n * 2 ^ (f + 1074) ≡ n * 2 ^ f * 2 ^ 1074 = rw (pow-add f 1074) (grind arith) in
    let swap : n * 2 ^ 1074 * 2 ^ f ≡ n * 2 ^ f * 2 ^ 1074 = grind arith in
    let fits : n * 2 ^ f * 2 ^ 1074 < 2 ^ 8191 = rw split at big in
    let t = scaled-sub (n * 2 ^ 1074) f 2342 (rw swap fits) in
    scalbn_lem r (sub_ℕ f 2342) v.fits v.finite
    ∙ rw (v.sign, v.value, t, swap) (ap (signed s) (rounded-shift (n * 2 ^ f) 1268 1074 fits))

next_power : (a b : ℕ) → b ≡ suc a → 2 ^ b ≡ 2 ^ a + 2 ^ a
next_power a b h = ap (λ (i : ℕ). 2 ^ i) h ∙ two-pow-succ a

-- `53 + c` digits: the last `c` are rounded away.
rounded-digits :
    (n c f k : ℕ)
    → 2 ^ (52 + c) ≤ n
    → n < 2 ^ (53 + c)
    → n < 2 ^ 128
    → f ≤ 8000
    → k ≤ f + c
    → rounded k (n * 2 ^ f) ≡ min inf_bits ((f + c - k) * 2 ^ 52 + round_even n c)
unfolding rounded
rounded-digits n c f k low high h l m =
    let p = one-le-pow (52 + c) 2 (omega arith) in
    let up : 2 ^ (53 + c) ≡ 2 ^ (52 + c) + 2 ^ (52 + c) =
      next_power (52 + c) (53 + c) (omega arith) in
    let v : HasDigits (53 + c) n = record { below = high; least = inr (omega arith) } in
    let b =
      HasDigits-unique _ _ _ (length_lem (n * 2 ^ f) 8191 (omega arith) (product_fits n f h l))
        (HasDigits-shift (53 + c) n f (omega arith) v) in
    let q : max (53 + c + f - 53) k ≡ c + f = omega arith in
    let d : c + f - k ≡ f + c - k = omega arith in rw (b, q, d, round_even-shift n c f) refl

pub rounded-sixty_three :
    (i f k : ℕ)
    → 2 ^ 62 ≤ i
    → i < 2 ^ 63
    → f ≤ 8000
    → k ≤ f + 10
    → rounded k (i * 2 ^ f) ≡ min inf_bits ((f + 10 - k) * 2 ^ 52 + round_even i 10)
rounded-sixty_three i f k low high h l = rounded-digits i 10 f k low high (omega arith) h l

rounded-fifty_three :
    (j f k : ℕ)
    → 2 ^ 52 ≤ j
    → j ≤ 2 ^ 53
    → f ≤ 8000
    → k ≤ f
    → rounded k (j * 2 ^ f) ≡ min inf_bits ((f - k) * 2 ^ 52 + j)
rounded-fifty_three j f k low high h l = elim (Bool-cases (j == 2 ^ 53)) [
  | inl e ↦
      let full : j ≡ 2 ^ 53 = ground arith in
      let t =
        rounded-digits (2 ^ 53) 1 f k (omega arith) (omega arith) (omega arith) h (omega arith) in
      let half : round_even (2 ^ 53) 1 ≡ 2 ^ 52 = round_even-multiple (2 ^ 52) 1 in
      rw full (t ∙ rw half (ap (min inf_bits) (omega arith)))
  | inr e ↦
      let t = rounded-digits j 0 f k low (ground arith) (omega arith) h (omega arith) in
      let one : j * 2 ^ 0 ≡ j = omega arith in
      let whole : round_even j 0 ≡ j =
        ap (λ (m : ℕ). round_even m 0) (sym one) ∙ round_even-multiple j 0 in
      let z : f + 0 - k ≡ f - k = omega arith in t ∙ rw (whole, z) refl
]

pub sixty_three-bounds :
    (i : ℕ) → 2 ^ 62 ≤ i → i < 2 ^ 63 → (2 ^ 52 ≤ round_even i 10) × (round_even i 10 ≤ 2 ^ 53)
sixty_three-bounds i h l = let t = round_even-cases i 10 in (ground arith, ground arith)

pub signed_double_lem :
    (b : Bool) (i : ℕ)
    → 0 < i
    → i < 2 ^ 63
    → signed_double b i ≡ signed (sign_bit b) (rounded 0 (i * 2 ^ 1074))
unfolding of_int
signed_double_lem true i h l =
    let c : leb i 0 ≡ false = ground arith in
    let e : suc (i - 0 - 1) ≡ i = omega arith in rw (c, e) refl
signed_double_lem false i h l = omega arith

pub signed_double-bits :
    (b : Bool) (i : ℕ)
    → 2 ^ 62 ≤ i
    → i < 2 ^ 63
    → signed_double b i ≡ signed (sign_bit b) (1084 * 2 ^ 52 + round_even i 10)
signed_double-bits b i h l =
    let (low, high) = sixty_three-bounds i h l in
    let e = rounded-sixty_three i 1074 0 h l (omega arith) (omega arith) in
    signed_double_lem b i (omega arith) l ∙ ap (signed (sign_bit b)) (e ∙ omega arith)

-- `(double)i` is a whole number of 53 digits.
pub signed_double-Exactly :
    (b : Bool) (i : ℕ)
    → 2 ^ 62 ≤ i
    → i < 2 ^ 63
    → Exactly (signed_double b i) (sign_bit b) (round_even i 10 * 2 ^ 10 * 2 ^ 1074)
signed_double-Exactly b i h l =
    let j = round_even i 10 in
    let (low, high) = sixty_three-bounds i h l in
    let r : 1084 * 2 ^ 52 + j ≡ 1084 * 2 ^ 52 + (2 ^ 52 + (j - 2 ^ 52)) = omega arith in
    let u = units-shifted (j - 2 ^ 52) 1084 (omega arith) (omega arith) in
    let w : 2 ^ 52 + (j - 2 ^ 52) ≡ j = omega arith in
    let k : (2 ^ 52 + (j - 2 ^ 52)) * 2 ^ 1084 ≡ j * 2 ^ 10 * 2 ^ 1074 =
      ap (λ (m : ℕ). m * 2 ^ 1084) w
      ∙ ap (λ (m : ℕ). j * m) (pow-add 10 1074)
      ∙ sym (mul_assoc j (2 ^ 10) (2 ^ 1074)) in
    let s : sign_bit b < 2 = ground arith in
    rw (signed_double-bits b i h l, r)
      (signed-Exactly (sign_bit b) _ (j * 2 ^ 10 * 2 ^ 1074) s (u ∙ k) (omega arith))

-- An exponent at which nothing is lost below the 53 digits.
pub to_double_high :
    (b : Bool) (i f : ℕ)
    → 2 ^ 62 ≤ i
    → i < 2 ^ 63
    → f ≤ 6000
    → 1258 ≤ f
    → scalbn (signed_double b i) (sub_ℕ f 2342) ≡ signed (sign_bit b) (rounded 1268 (i * 2 ^ f))
to_double_high b i f h l m e =
    let j = round_even i 10 in
    let (low, high) = sixty_three-bounds i h l in
    let s : sign_bit b < 2 = ground arith in
    let v = signed_double-Exactly b i h l in
    let t = scalbn-whole (signed_double b i) (sign_bit b) (j * 2 ^ 10) f s (omega arith) m v in
    let w : j * 2 ^ 10 * 2 ^ f ≡ j * 2 ^ (f + 10) = rw (pow-add f 10) (grind arith) in
    let left = rounded-fifty_three j (f + 10) 1268 low high (omega arith) (omega arith) in
    let right = rounded-sixty_three i f 1268 h l (omega arith) (omega arith) in
    t ∙ ap (signed (sign_bit b)) (ap (rounded 1268) w ∙ left ∙ sym right)

odd_ten : (i : ℕ) → 2 ^ 62 ≤ i → i < 2 ^ 63 → (2 ^ 52 ≤ odd_shift i 10) × (odd_shift i 10 < 2 ^ 53)
unfolding odd_shift
odd_ten i h l = (ground arith, ground arith)

-- The value with its last digits cut, exact where it has 53 digits.
shifted-Exactly :
    (b : Bool) (o : ℕ)
    → 0 < o
    → o < 2 ^ 53
    → Exactly (signed_double b (o * 2 ^ 10)) (sign_bit b) (o * 2 ^ 10 * 2 ^ 1074)
shifted-Exactly b o h l =
    let s : sign_bit b < 2 = ground arith in
    let (u, f) = rounded_exact o 1084 l (omega arith) in
    let k : o * 2 ^ 1084 ≡ o * 2 ^ 10 * 2 ^ 1074 =
      ap (λ (m : ℕ). o * m) (pow-add 10 1074) ∙ sym (mul_assoc o (2 ^ 10) (2 ^ 1074)) in
    rw (signed_double_lem b (o * 2 ^ 10) (omega arith) (omega arith))
      (signed-Exactly (sign_bit b) _ (o * 2 ^ 10 * 2 ^ 1074) s (rw k at u) (rw k at f))

pub to_double_low :
    (b : Bool) (i f : ℕ)
    → 2 ^ 62 ≤ i
    → i < 2 ^ 63
    → f ≤ 1256
    → scalbn (signed_double b (shift_sticky i 10 * 2 ^ 10 % 2 ^ 64)) (sub_ℕ f 2342)
      ≡ signed (sign_bit b) (rounded 1268 (i * 2 ^ f))
to_double_low b i f h l m =
    let o = odd_shift i 10 in
    let (low, high) = odd_ten i h l in
    let s : sign_bit b < 2 = ground arith in
    let e : shift_sticky i 10 * 2 ^ 10 % 2 ^ 64 ≡ o * 2 ^ 10 =
      rw (shift_sticky_lem i 10 (omega arith) (omega arith)) (omega arith) in
    let t =
      scalbn-whole (signed_double b (o * 2 ^ 10)) (sign_bit b) (o * 2 ^ 10) f s (omega arith)
        (omega arith) (shifted-Exactly b o (omega arith) high) in
    let w : o * 2 ^ 10 * 2 ^ f ≡ o * 2 ^ (f + 10) = rw (pow-add f 10) (grind arith) in
    let r =
      rounded-odd_shift i 10 f 1268 (product_fits i f (omega arith) (omega arith))
        (product_fits o (f + 10) (omega arith) (omega arith)) (omega arith) (inl (omega arith)) in
    rw e (t ∙ ap (signed (sign_bit b)) (ap (rounded 1268) w ∙ sym r))
