-- ===== src/Libm/Double/Length.antt =====
-- `bit_length` is the number of binary digits, and powers of two.
use wasm_cxx_shim.Prelude.{
  ℕ, zero, suc, ◌+◌, ◌*◌, ◌/◌, ◌%◌, ◌^◌, ◌≤◌, ◌<◌, ◌≡◌, ◌⊎◌, leb, ◌==◌, arith, Bool-cases, inl, inr,
  leb→le, leb→gt,
}
use native.Mathlib.Nat.{
  pow-suc, two-pow-succ, one-le-pow, div-add-mod, mod-lt, le-div_iff_mul-le, div-lt_iff_lt-mul,
}
use wasm_cxx_shim.Libm.Double.{digits_below}

pub pow-add : (a b : ℕ) → 2 ^ (a + b) ≡ 2 ^ a * 2 ^ b
pow-add zero b = let e : 0 + b ≡ b = omega arith in rw e (omega arith)
pow-add (suc a) b =
    let e : suc a + b ≡ suc (a + b) = omega arith in
    rw (e, pow-suc, pow-suc) (grind (arith, pow-add a b))

-- `l` binary digits: `n < 2 ^ l`, and no fewer do.
pub record HasDigits (l n : ℕ) : Type 0 where
  pub below : n < 2 ^ l
  pub least : (l ≡ 0) ⊎ (2 ^ l ≤ 2 * n)

mul_mono : (p a b : ℕ) → a ≤ b → p * a ≤ p * b
mul_mono p a b h = grind arith

quotient_small : (j n : ℕ) → n < 2 ^ 2 ^ suc j → n / 2 ^ 2 ^ j < 2 ^ 2 ^ j
quotient_small j n h =
    let square : 2 ^ 2 ^ suc j ≡ 2 ^ 2 ^ j * 2 ^ 2 ^ j =
      rw two-pow-succ (pow-add (2 ^ j) (2 ^ j)) in
    (div-lt_iff_lt-mul (one-le-pow (2 ^ j) 2 (omega arith))).1 (rw square at h)

positive_least : (m l : ℕ) → 1 ≤ m → HasDigits l m → 2 ^ l ≤ 2 * m
positive_least m zero h v = absurd (omega (arith, v.below))
positive_least m (suc l) h v = elim v.least [ inl e ↦ absurd (omega arith) | inr q ↦ q ]

HasDigits-large : (w l n : ℕ) → 2 ^ w ≤ n → HasDigits l (n / 2 ^ w) → HasDigits (w + l) n
HasDigits-large w l n large v =
    let p = 2 ^ w in
    let m = n / p in
    let pos_p : 1 ≤ p = one-le-pow w 2 (omega arith) in
    let parts : p * m + n % p ≡ n = div-add-mod n p in
    let rest : n % p < p = mod-lt n pos_p in
    let pos_m : 1 ≤ m = (le-div_iff_mul-le pos_p).1 (omega arith) in
    let up : p * (m + 1) ≤ p * 2 ^ l = mul_mono p (m + 1) (2 ^ l) (omega (arith, v.below)) in
    let double : 2 ^ l ≤ 2 * m = positive_least m l pos_m v in
    let up' : p * 2 ^ l ≤ p * (2 * m) = mul_mono p (2 ^ l) (2 * m) double in
    record { below = rw (pow-add w l) (omega arith); least = inr (rw (pow-add w l) (omega arith)) }

pub digits_below-HasDigits : (j n : ℕ) → n < 2 ^ 2 ^ j → HasDigits (digits_below j n) n
unfolding digits_below
digits_below-HasDigits zero n h = elim (Bool-cases (n == 0)) [
  | inl e ↦
      let is_zero : n ≡ 0 = ground arith in
      rw e (record { below = omega arith; least = inl (omega arith) })
  | inr e ↦
      let is_one : n ≡ 1 = ground arith in
      rw e (record { below = omega arith; least = inr (omega arith) })
]
digits_below-HasDigits (suc j) n h = elim (Bool-cases (leb (2 ^ 2 ^ j) n)) [
  | inl large ↦ rw large (
      HasDigits-large (2 ^ j) (digits_below j (n / 2 ^ 2 ^ j)) n (leb→le _ _ large)
        (digits_below-HasDigits j (n / 2 ^ 2 ^ j) (quotient_small j n h)))
  | inr small ↦
      let same : 0 + digits_below j n ≡ digits_below j n = omega arith in
      rw (small, same) (digits_below-HasDigits j n (leb→gt _ _ small))
]
