-- ===== src/Libm/Remquo/Reduce.antt =====
-- The loop of `remquo` is division with remainder.
use wasm_cxx_shim.Prelude.{
  ℕ, zero, suc, ◌+◌, ◌-◌, ◌*◌, ◌/◌, ◌%◌, ◌^◌, ◌<◌, ◌≤◌, ◌≡◌, ap, ◌∙◌, sym, refl, true, false, ltb,
  ◌==◌, arith, Bool-cases, inl, inr,
}
use native.Mathlib.Nat.{
  add-mul-div_right, add-mul-mod_self_right, div-eq_of_lt, mod-eq_of_lt, mod-add-div', mod-lt,
  pow-succ',
}
use wasm_cxx_shim.Libm.Remquo.{take_off, double, reduce}

quotient_one : (x y : ℕ) → y ≤ x → x < 2 * y → (x / y ≡ 1) × (x % y ≡ x - y)
quotient_one x y a b =
    let parts : x ≡ x - y + 1 * y = omega arith in
    let quotient : x / y ≡ (x - y) / y + 1 =
      ap (λ (n : ℕ). n / y) parts ∙ add-mul-div_right (x - y) 1 (omega arith) in
    let rest : x % y ≡ (x - y) % y =
      ap (λ (n : ℕ). n % y) parts ∙ add-mul-mod_self_right (x - y) 1 y in
    let below : x - y < y = omega arith in
    let none = div-eq_of_lt below in let same = mod-eq_of_lt below in (omega arith, rest ∙ same)

-- One round, for a dividend below twice the divisor.
take_off_parts :
    (x y q : ℕ)
    → x < 2 * y
    → y < 2 ^ 62
    → take_off y (record { uxi = x; q = q % 2 ^ 32 })
      ≡ record { uxi = x % y; q = (q + x / y) % 2 ^ 32 }
unfolding take_off
take_off_parts x y q h l = elim (Bool-cases (ltb x y)) [
  | inl s ↦
      let small : x < y = ground arith in
      let none = div-eq_of_lt small in
      let same = mod-eq_of_lt small in
      let borrow : ((x + (2 ^ 64 - y)) % 2 ^ 64 / 2 ^ 63 == 0) ≡ false = ground arith in
      rw (none, same, borrow) (ap (λ (n : ℕ). record { uxi = x; q = n }) (omega arith))
  | inr s ↦
      let large : y ≤ x = ground arith in
      let (one_more, rest) = quotient_one x y large h in
      let difference : (x + (2 ^ 64 - y)) % 2 ^ 64 ≡ x - y = omega arith in
      let no_borrow : ((x - y) / 2 ^ 63 == 0) ≡ true = ground arith in
      rw (one_more, rest, difference, no_borrow)
        (ap (λ (n : ℕ). record { uxi = x - y; q = n }) (omega arith))
]

regroup : (x y p r d : ℕ) → x ≡ r + d * y → x * (2 * p) ≡ r * 2 * p + d * 2 * p * y
regroup x y p r d e =
    let t : (r + d * y) * (2 * p) ≡ r * 2 * p + d * 2 * p * y = grind arith in rw e t

-- The remaining rounds divide what a round leaves.
product_parts : (x y p : ℕ) → x * (2 * p) ≡ x % y * 2 * p + x / y * 2 * p * y
product_parts x y p = regroup x y p (x % y) (x / y) (sym (mod-add-div' x y))

remainder_step : (x y p : ℕ) → 1 ≤ y → x % y * 2 * p % y ≡ x * (2 * p) % y
remainder_step x y p h = sym (
    ap (λ (n : ℕ). n % y) (product_parts x y p)
    ∙ add-mul-mod_self_right (x % y * 2 * p) (x / y * 2 * p) y)

quotient_step :
    (x y p q : ℕ) → 1 ≤ y → (q + x / y) * 2 * p + x % y * 2 * p / y ≡ q * (2 * p) + x * (2 * p) / y
quotient_step x y p q h =
    let d = x / y in
    let b = x % y * 2 * p / y in
    let quotient : x * (2 * p) / y ≡ b + d * 2 * p =
      ap (λ (n : ℕ). n / y) (product_parts x y p)
      ∙ add-mul-div_right (x % y * 2 * p) (d * 2 * p) h in
    let sum : (q + d) * 2 * p + b ≡ q * (2 * p) + (b + d * 2 * p) = grind arith in rw quotient sum

-- The loop on normalized mantissas: the remainder, and the quotient in 32 bits.
pub reduce_parts :
    (d x y q : ℕ)
    → x < 2 * y
    → y < 2 ^ 62
    → reduce d y (record { uxi = x; q = q % 2 ^ 32 })
      ≡ record { uxi = x * 2 ^ d % y; q = (q * 2 ^ d + x * 2 ^ d / y) % 2 ^ 32 }
unfolding reduce double
reduce_parts zero x y q h l =
    let e : x * 2 ^ 0 ≡ x = omega arith in
    let f : q * 2 ^ 0 ≡ q = omega arith in rw (e, f) (take_off_parts x y q h l)
reduce_parts (suc d) x y q h l =
    let r = x % y in
    let a = q + x / y in
    let below : r < y = mod-lt x (omega arith) in
    let fits : r * 2 % 2 ^ 64 ≡ r * 2 = omega arith in
    let wraps : a % 2 ^ 32 * 2 % 2 ^ 32 ≡ a * 2 % 2 ^ 32 = omega arith in
    let next = reduce_parts d (r * 2) y (a * 2) (omega arith) l in
    rw
      (
        take_off_parts x y q h l,
        fits,
        wraps,
        next,
        remainder_step x y (2 ^ d) (omega arith),
        quotient_step x y (2 ^ d) q (omega arith),
        pow-succ' 2 d,
      )
      refl
