-- ===== src/Libm/Rounding/Scale/Up.antt =====
-- libm/src/musl/scalbn.c: the steps up.
use wasm_cxx_shim.Prelude.{
  ℕ, ◌+◌, ◌*◌, ◌%◌, ◌^◌, ◌≤◌, ◌<◌, ◌≡◌, ◌⊎◌, leb, arith, Bool-cases, inl, inr, ◌∙◌, refl, subst,
  true, false, leb→le, leb→gt,
}
use native.Mathlib.Nat.{one-le-pow, le_trans}
use wasm_cxx_shim.Prelude.Int.{pos}
use wasm_cxx_shim.Libm.Double.{
  sign_of, magnitude, inf_bits, is_nan, is_inf, is_zero, units, power, rounded, signed, ◌⊗◌,
}
use wasm_cxx_shim.Libm.Double.Length.{pow-add}
use wasm_cxx_shim.Libm.Double.Exact.{mul_mono, power_lt, rounded_exact}
use wasm_cxx_shim.Libm.Double.Value.{units-signed}
use wasm_cxx_shim.Libm.Double.Scale.{rounded-overflow}
use wasm_cxx_shim.Libm.Rounding.{scale_once}
use wasm_cxx_shim.Libm.Rounding.Scale.{Parts, units-Parts, scale_once-pos}

-- `y` has the sign `s` and `n` units, or `n` units are out of range and it is infinite.
pub record Exactly (y s n : ℕ) : Type 0 where
  pub finite : magnitude y < inf_bits
  pub fits : y < 2 ^ 64
  pub sign : sign_of y ≡ s
  pub value : units y ≡ n

abbrev pub Carried : ℕ → ℕ → ℕ → Type 0
Carried y s n = Exactly y s n ⊎ ((y ≡ signed s inf_bits) × (2 ^ 2098 ≤ n))

inf-mul_power : (s e : ℕ) → s < 2 → e ≤ 2045 → signed s inf_bits ⊗ power (e + 1) ≡ signed s inf_bits
unfolding ◌⊗◌
inf-mul_power s e h l =
    let y = signed s inf_bits in
    let nan : is_nan y ≡ false = ground arith in
    let inf : is_inf y ≡ true = ground arith in
    let zero_y : is_zero y ≡ false = ground arith in
    let nan' : is_nan (power (e + 1)) ≡ false = ground arith in
    let zero_p : is_zero (power (e + 1)) ≡ false = ground arith in
    let t : (sign_of y + sign_of (power (e + 1))) % 2 ≡ s % 2 = omega arith in
    rw (nan, nan', inf, zero_y, zero_p, t) refl

exact_shift : (n i : ℕ) → (p : Parts n) → i ≤ 1023 → n * 2 ^ i < 2 ^ 2098 → p.shift + i ≤ 2045
exact_shift n i p h l = elim p.full [
  | inl e ↦ omega arith
  | inr e ↦
      let j = p.shift + i in
      let a = mul_mono (2 ^ j) (2 ^ 52) p.digits e in
      let b : p.digits * 2 ^ j ≡ n * 2 ^ i = rw (p.product, pow-add p.shift i) (grind arith) in
      let c : 2 ^ (52 + j) < 2 ^ 2098 = rw (pow-add 52 j) (omega arith) in
      let d = power_lt (52 + j) 2098 c in omega arith
]

pub signed-Exactly : (s r n : ℕ) → s < 2 → units r ≡ n → r < inf_bits → Exactly (signed s r) s n
signed-Exactly s r n h e l = record {
  finite = omega arith;
  fits = omega arith;
  sign = omega arith;
  value = units-signed s r (omega arith) ∙ e;
}

pub rounded-Carried :
    (n i s : ℕ)
    → Parts n
    → i ≤ 1023
    → s < 2
    → Carried (signed s (rounded 0 (n * 2 ^ i))) s (n * 2 ^ i)
rounded-Carried n i s p h l = elim (Bool-cases (leb (2 ^ 2098) (n * 2 ^ i))) [
  | inl e ↦ let big = leb→le _ _ e in inr (rw (rounded-overflow (n * 2 ^ i) big) refl, big)
  | inr e ↦
      let j = p.shift + i in
      let m = exact_shift n i p h (leb→gt _ _ e) in
      let b : p.digits * 2 ^ j ≡ n * 2 ^ i = rw (p.product, pow-add p.shift i) (grind arith) in
      let (u, f) = rounded_exact p.digits j p.short m in
      inl (signed-Exactly s (rounded 0 (n * 2 ^ i)) (n * 2 ^ i) l (rw b at u) (rw b at f))
]

pub start-Carried : (x : ℕ) → x < 2 ^ 64 → magnitude x < inf_bits → Carried x (sign_of x) (units x)
start-Carried x l h = inl (record { finite = h; fits = l; sign = refl; value = refl })

overflow_up : (n i : ℕ) → 2 ^ 2098 ≤ n → 2 ^ 2098 ≤ n * 2 ^ i
overflow_up n i h =
    let t = mul_mono n 1 (2 ^ i) (one-le-pow i 2 (omega arith)) in le_trans h (omega arith)

pub scale_once-Carried :
    (y s n i : ℕ)
    → s < 2
    → i ≤ 1023
    → Carried y s n
    → scale_once y (pos i) ≡ signed s (rounded 0 (n * 2 ^ i))
unfolding scale_once
scale_once-Carried y s n i h l (inl v) =
    scale_once-pos y i v.fits v.finite l ∙ rw (v.sign, v.value) refl
scale_once-Carried y s n i h l (inr (e, big)) =
    let f : 0x3ff + i ≡ 1022 + i + 1 = omega arith in
    rw
      (
        e,
        f,
        inf-mul_power s (1022 + i) h (omega arith),
        rounded-overflow (n * 2 ^ i) (overflow_up n i big),
      )
      refl

-- One step up, of any size that has a power.
pub up-Carried :
    (y s n i : ℕ) → s < 2 → i ≤ 1023 → Carried y s n → Carried (scale_once y (pos i)) s (n * 2 ^ i)
up-Carried y s n i h l (inl v) = rw (scale_once-Carried y s n i h l (inl v)) (
    subst (λ m. Carried (signed s (rounded 0 (m * 2 ^ i))) s (m * 2 ^ i)) v.value
      (rounded-Carried (units y) i s (units-Parts y v.finite) l h))
up-Carried y s n i h l (inr (e, big)) =
    let up = overflow_up n i big in
    rw (scale_once-Carried y s n i h l (inr (e, big)), rounded-overflow (n * 2 ^ i) up)
      (inr (refl, up))
