-- ===== src/Libcxx/NextPrime/Number.antt =====
-- Primes, and how an odd number with no small odd divisor is one.
use wasm_cxx_shim.Prelude.{
  ℕ, zero, suc, ◌+◌, ◌*◌, ◌/◌, ◌%◌, ◌≤◌, ◌<◌, ◌≡◌, ◌≢◌, ltb, ◌==◌, ap, sym, ◌∙◌, arith, Bool-cases,
  inl, inr,
}
use native.Mathlib.Nat.{div-add-mod, mul_comm, mul-mod_left, mul-mod_right}

pub record Prime (p : ℕ) : Type 0 where
  pub above_one : 2 ≤ p
  pub no_divisor : (d : ℕ) → 2 ≤ d → d < p → p % d ≢ 0

-- No odd number from 3 to below `i` divides `n`.
abbrev pub Survives : ℕ → ℕ → Type 0
Survives n i = (d : ℕ) → 3 ≤ d → d < i → d % 2 ≡ 1 → n % d ≢ 0

odd_factor : (n d e : ℕ) → d * e ≡ n → n % 2 ≡ 1 → d % 2 ≡ 1
odd_factor n d e h o = elim (Bool-cases (d % 2 == 1)) [
  | inl odd ↦ ground arith
  | inr even ↦
      let k = d / 2 in
      let half : d ≡ 2 * k = ground arith in
      let t : 2 * k * e ≡ 2 * (k * e) = grind arith in
      let twice : d * e ≡ 2 * (k * e) = ap (λ (m : ℕ). m * e) half ∙ t in absurd (omega arith)
]

mul_mono : (i d e : ℕ) → i ≤ d → i ≤ e → i * i ≤ d * e
mul_mono i d e h l = grind arith

pos_factor : (d e n : ℕ) → d * e ≡ n → d < n → 2 ≤ d → 2 ≤ e
pos_factor d zero n h l t = absurd (let z : d * 0 ≡ 0 = omega arith in omega arith)
pos_factor d (suc zero) n h l t = absurd (let z : d * 1 ≡ d = omega arith in omega arith)
pos_factor d (suc (suc e)) n h l t = omega arith

-- One of two factors is below `i`.
Survives-factor :
    (n i d e : ℕ) → n % 2 ≡ 1 → Survives n i → n < i * i → d * e ≡ n → 2 ≤ d → 2 ≤ e → ⊥
Survives-factor n i d e o s l h two two' =
    let odd_d = odd_factor n d e h o in
    let swap : e * d ≡ n = mul_comm e d ∙ h in
    let odd_e = odd_factor n e d swap o in
    let zero_d : n % d ≡ 0 = ap (λ (m : ℕ). m % d) (sym h) ∙ mul-mod_right d e in
    let zero_e : n % e ≡ 0 = ap (λ (m : ℕ). m % e) (sym h) ∙ mul-mod_left d e in
    elim (Bool-cases (ltb d i)) [
      | inl small ↦ s d (omega arith) (ground arith) odd_d zero_d
      | inr large ↦ elim (Bool-cases (ltb e i)) [
        | inl small ↦ s e (omega arith) (ground arith) odd_e zero_e
        | inr large' ↦
            let more = mul_mono i d e (ground arith) (ground arith) in absurd (omega arith)
      ]
    ]

pub Survives-Prime : (n i : ℕ) → 3 ≤ n → n % 2 ≡ 1 → Survives n i → n < i * i → Prime n
Survives-Prime n i h o s l = record {
  above_one = omega arith;
  no_divisor = λ d two below z.
      let parts = div-add-mod n d in
      let whole : d * (n / d) ≡ n = omega arith in
      Survives-factor n i d (n / d) o s l whole two (pos_factor d (n / d) n whole below two);
}

pub Survives-next : (n i : ℕ) → i % 2 ≡ 1 → Survives n i → n % i ≢ 0 → Survives n (i + 2)
Survives-next n i o s h d three below odd = elim (Bool-cases (ltb d i)) [
  | inl small ↦ s d three (ground arith) odd
  | inr large ↦ let same : d ≡ i = ground arith in rw same h
]

-- A number with a divisor is no prime.
pub divisor-not_Prime : (n d : ℕ) → 2 ≤ d → d < n → n % d ≡ 0 → ¬ Prime n
divisor-not_Prime n d two below z p = p.no_divisor d two below z
