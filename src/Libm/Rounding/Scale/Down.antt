-- ===== src/Libm/Rounding/Scale/Down.antt =====
-- libm/src/musl/scalbn.c: the steps down, which leave room for one rounding.
use wasm_cxx_shim.Prelude.{
  ℕ, ◌+◌, ◌-◌, ◌*◌, ◌/◌, ◌^◌, ◌≤◌, ◌<◌, ◌≡◌, leb, ◌==◌, arith, Bool-cases, inl, inr, sym, ap, ◌∙◌,
  refl, leb→le,
}
use Prim.Native.Nat.{max}
use native.Mathlib.Nat.{one-le-pow, pow-le-pow_right, le_trans, lt_of_lt_of_le, div-lt_iff_lt-mul}
use wasm_cxx_shim.Prelude.Int.{negsuc}
use wasm_cxx_shim.Libm.Double.{sign_of, magnitude, inf_bits, units, rounded, bit_length}
use wasm_cxx_shim.Libm.Double.Length.{pow-add}
use wasm_cxx_shim.Libm.Double.Exact.{
  mul_mono_lt, power_lt, rounded_exact, units-small, units-normal,
}
use wasm_cxx_shim.Libm.Double.Scale.{rounded-shift, rounded-tiny, length_lem}
use wasm_cxx_shim.Libm.Rounding.Nearest.{round_even-cases}
use wasm_cxx_shim.Libm.Rounding.{scale_once}
use wasm_cxx_shim.Libm.Rounding.Scale.{Parts, units-Parts, scale_once-negsuc}
use wasm_cxx_shim.Libm.Rounding.Scale.Up.{signed-Exactly}

-- Where no digit is lost, the second rounding is that of the number itself.
reduce_exact :
    (d j k m : ℕ)
    → d < 2 ^ 53
    → j + k ≤ 2045
    → (units (rounded k (d * 2 ^ (j + k))) ≡ d * 2 ^ j)
      × (rounded k (d * 2 ^ (j + k)) < inf_bits)
      × (rounded m (units (rounded k (d * 2 ^ (j + k)))) ≡ rounded (m + k) (d * 2 ^ (j + k)))
reduce_exact d j k m h l =
    let e : d * 2 ^ (j + k) ≡ d * 2 ^ j * 2 ^ k = rw (pow-add j k) (grind arith) in
    let p = one-le-pow (j + k) 2 (omega arith) in
    let a = mul_mono_lt (2 ^ (j + k)) d (2 ^ 53) p h in
    let b : 2 ^ (53 + (j + k)) ≤ 2 ^ 8191 =
      pow-le-pow_right {n = 2} (omega arith) {i = 53 + (j + k)} {j = 8191} (omega arith) in
    let small : d * 2 ^ j * 2 ^ k < 2 ^ 8191 =
      rw e at (lt_of_lt_of_le (rw (sym (pow-add 53 (j + k))) at a) b) in
    let (u, f) = rounded_exact d j h (omega arith) in
    let z : 0 + k ≡ k = omega arith in
    let once : rounded k (d * 2 ^ (j + k)) ≡ rounded 0 (d * 2 ^ j) =
      rw e (rw z at (rounded-shift (d * 2 ^ j) 0 k small)) in
    rw (once, u, e) (refl, f, sym (rounded-shift (d * 2 ^ j) m k small))

units-whole : (n : ℕ) → n ≤ 2 ^ 53 → units n ≡ n
units-whole n h = elim (Bool-cases (n == 2 ^ 53)) [
  | inl e ↦
      let t : n ≡ 1 * 2 ^ 52 + 2 ^ 52 = ground arith in
      ap units t ∙ units-normal 1 (2 ^ 52) (omega arith) (omega arith) (omega arith) ∙ sym t
  | inr e ↦ units-small n (ground arith)
]

rounded_low :
    (n k : ℕ)
    → k ≤ 2000
    → n < 2 ^ 53 * 2 ^ k
    → (rounded k n ≤ 2 ^ 53) × (2 * n ≤ 2 ^ (54 + k)) × (n < 2 ^ 2098)
unfolding rounded
rounded_low n k h l =
    let b : 2 ^ (53 + k) ≤ 2 ^ 2098 =
      pow-le-pow_right {n = 2} (omega arith) {i = 53 + k} {j = 2098} (omega arith) in
    let split : 2 ^ (53 + k) ≡ 2 ^ 53 * 2 ^ k = pow-add 53 k in
    let split' : 2 ^ (54 + k) ≡ 2 ^ 54 * 2 ^ k = pow-add 54 k in
    let fits : n < 2 ^ 2098 = lt_of_lt_of_le (rw split l) b in
    let v = length_lem n 2098 (omega arith) fits in
    let q : max (bit_length n - 53) k ≡ k = elim v.least [
      | inl e ↦ omega arith
      | inr e ↦ let t = power_lt (bit_length n) (54 + k) (omega arith) in omega arith
    ] in
    let pos_k = one-le-pow k 2 (omega arith) in
    let d : n / 2 ^ k < 2 ^ 53 = (div-lt_iff_lt-mul pos_k).1 l in
    let r = round_even-cases n k in (rw q (ground arith), omega arith, fits)

-- Fewer than 53 digits are left, and both roundings give 0.
reduce_tiny :
    (n k m : ℕ)
    → k ≤ 2000
    → n < 2 ^ 53 * 2 ^ k
    → 54 ≤ m
    → (rounded k n < inf_bits) × (rounded m (units (rounded k n)) ≡ rounded (m + k) n)
reduce_tiny n k m h l t =
    let (low, double, fits) = rounded_low n k h l in
    let y = rounded k n in
    let a : 2 ^ 54 ≤ 2 ^ m = pow-le-pow_right {n = 2} (omega arith) {i = 54} {j = m} t in
    let b : 2 ^ (54 + k) ≤ 2 ^ (m + k) =
      pow-le-pow_right {n = 2} (omega arith) {i = 54 + k} {j = m + k} (omega arith) in
    let first : rounded m y ≡ 0 = rounded-tiny y m 54 (omega arith) (omega arith) (omega arith) in
    let second : rounded (m + k) n ≡ 0 =
      rounded-tiny n (m + k) 2098 (omega arith) fits (le_trans double b) in
    (omega arith, rw (units-whole y low, second) first)

-- A first rounding that leaves a shift of 54 or more does not show.
pub reduce_lem :
    (n k m : ℕ)
    → Parts n
    → k ≤ 2000
    → 54 ≤ m
    → (rounded k n < inf_bits) × (rounded m (units (rounded k n)) ≡ rounded (m + k) n)
reduce_lem n k m p h t = elim (Bool-cases (leb k p.shift)) [
  | inl e ↦
      let j : p.shift - k + k ≡ p.shift = omega (arith, leb→le _ _ e) in
      let low = p.low in
      let (u, f, g) = reduce_exact p.digits (p.shift - k) k m p.short (omega arith) in
      let n' : p.digits * 2 ^ (p.shift - k + k) ≡ n =
        ap (λ (i : ℕ). p.digits * 2 ^ i) j ∙ sym p.product in
      (rw n' at f, rw n' at g)
  | inr e ↦
      let pos_s = one-le-pow p.shift 2 (omega arith) in
      let a = mul_mono_lt (2 ^ p.shift) p.digits (2 ^ 53) pos_s p.short in
      let b : 2 ^ p.shift ≤ 2 ^ k =
        pow-le-pow_right {n = 2} (omega arith) {i = p.shift} {j = k} (ground arith) in
      let c = p.product in reduce_tiny n k m h (omega arith) t
]

-- A step down by 969, and what follows by `m`.
pub down-Exactly :
    (y m : ℕ)
    → y < 2 ^ 64
    → magnitude y < inf_bits
    → 54 ≤ m
    → let r = scale_once y (negsuc 968) in
      (r < 2 ^ 64)
      × (magnitude r < inf_bits)
      × (sign_of r ≡ sign_of y)
      × (rounded m (units r) ≡ rounded (m + 969) (units y))
down-Exactly y m l h t =
    let (f, g) = reduce_lem (units y) 969 m (units-Parts y h) (omega arith) t in
    let e = scale_once-negsuc y 968 l h (omega arith) in
    let v =
      signed-Exactly (sign_of y) (rounded 969 (units y)) (units (rounded 969 (units y)))
        (omega arith) refl f in
    rw e (v.fits, v.finite, v.sign, rw v.value g)
