-- ===== src/Libm/Double/Scale.antt =====
-- Rounding does not change with the unit, and its two ends: 0, and infinity.
use wasm_cxx_shim.Prelude.{
  ℕ, zero, suc, ◌+◌, ◌-◌, ◌*◌, ◌/◌, ◌%◌, ◌^◌, ◌≤◌, ◌<◌, ◌≡◌, leb, ltb, ◌==◌, arith, Bool-cases, inl,
  inr, sym, ap, ◌∙◌, leb→le, leb→gt, refl, true, false,
}
use Prim.Native.Nat.{max}
use native.Mathlib.Nat.{
  one-le-pow, pow-le-pow_right, two-pow-succ, div-add-mod, mod-lt, le-div_iff_mul-le, div-eq_of_lt,
  mod-eq_of_lt, mul-div-mul_right, add-mul-mod_self_right, le_trans, lt_of_le_of_lt,
}
use wasm_cxx_shim.Libm.Double.{inf_bits, bit_length, digits_below, round_even, rounded}
use wasm_cxx_shim.Libm.Double.Length.{pow-add, HasDigits, digits_below-HasDigits}
use wasm_cxx_shim.Libm.Double.Exact.{mul_mono, mul_mono_lt, power_lt}

-- The number of digits is unique.
one_length : (l m n : ℕ) → HasDigits l n → HasDigits m n → l ≤ m
one_length l m n v w = elim v.least [
  | inl e ↦ omega arith
  | inr e ↦
      let up : 2 ^ suc m ≡ 2 ^ m + 2 ^ m = two-pow-succ m in
      let t = power_lt l (suc m) (omega (arith, w.below)) in omega arith
]

pub HasDigits-unique : (l m n : ℕ) → HasDigits l n → HasDigits m n → l ≡ m
HasDigits-unique l m n v w =
    let a = one_length l m n v w in let b = one_length m l n w v in omega arith

pub HasDigits-shift : (l n j : ℕ) → 0 < n → HasDigits l n → HasDigits (l + j) (n * 2 ^ j)
HasDigits-shift l n j h v =
    let p = one-le-pow j 2 (omega arith) in
    let least : 2 ^ l ≤ 2 * n = elim v.least [
      | inl e ↦ let one : 2 ^ l ≡ 1 = ap (λ (i : ℕ). 2 ^ i) e in omega arith
      | inr e ↦ e
    ] in
    let up = mul_mono (2 ^ j) (2 ^ l) (2 * n) least in
    record {
      below = rw (pow-add l j) (mul_mono_lt (2 ^ j) n (2 ^ l) p v.below);
      least = inr (rw (pow-add l j) (grind (arith, up)));
    }

-- Far below 2 ^ 2 ^ 13, where `bit_length` stops counting.
pub length_lem : (n b : ℕ) → b ≤ 8192 → n < 2 ^ b → HasDigits (bit_length n) n
unfolding bit_length
length_lem n b h l =
    let fits : 2 ^ b ≤ 2 ^ 2 ^ 13 =
      pow-le-pow_right {n = 2} (omega arith) {i = b} {j = 2 ^ 13} (omega arith) in
    let m = 2 ^ b in digits_below-HasDigits 13 n (omega arith)

split_scaled : (p d r c : ℕ) → (p * d + r) * c ≡ r * c + d * (p * c)
split_scaled p d r c = grind arith

pub mod_scaled : (n p c : ℕ) → 1 ≤ p → 1 ≤ c → n * c % (p * c) ≡ n % p * c
mod_scaled n p c h l =
    let parts = div-add-mod n p in
    let r = n % p * c in
    let rest : r < p * c = mul_mono_lt c (n % p) p l (mod-lt n h) in
    let split : n * c ≡ r + n / p * (p * c) =
      ap (λ (i : ℕ). i * c) (sym parts) ∙ split_scaled p (n / p) (n % p) c in
    ap (λ (i : ℕ). i % (p * c)) split ∙ add-mul-mod_self_right r (n / p) (p * c) ∙ mod-eq_of_lt rest

pub double_compare :
    (a b c : ℕ) → 1 ≤ c → (ltb (a * c) (b * c) ≡ ltb a b) × ((a * c == b * c) ≡ (a == b))
double_compare a b c h = elim (Bool-cases (ltb a b)) [
  | inl e ↦ let t = mul_mono_lt c a b h (ground arith) in ground arith
  | inr e ↦ elim (Bool-cases (ltb b a)) [
    | inl f ↦ let t = mul_mono_lt c b a h (ground arith) in ground arith
    | inr f ↦
        let same : a ≡ b = ground arith in
        let t : a * c ≡ b * c = ap (λ (i : ℕ). i * c) same in ground arith
  ]
]

pub round_even-shift : (n q j : ℕ) → round_even (n * 2 ^ j) (q + j) ≡ round_even n q
unfolding round_even
round_even-shift n q j =
    let c = 2 ^ j in
    let p = 2 ^ q in
    let pos_c = one-le-pow j 2 (omega arith) in
    let pos_p = one-le-pow q 2 (omega arith) in
    let e : 2 * (n % p * c) ≡ 2 * (n % p) * c = grind arith in
    let (lt, eq) = double_compare p (2 * (n % p)) c pos_c in
    let (lt', eq') = double_compare (2 * (n % p)) p c pos_c in
    rw (pow-add q j, mul-div-mul_right n p pos_c, mod_scaled n p c pos_p pos_c, e, lt, eq') refl

digits_below-zero : (j : ℕ) → digits_below j 0 ≡ 0
unfolding digits_below
digits_below-zero zero = refl
digits_below-zero (suc j) =
    let p = one-le-pow (2 ^ j) 2 (omega arith) in
    let small : leb (2 ^ 2 ^ j) 0 ≡ false = ground arith in
    let none : 0 + digits_below j 0 ≡ digits_below j 0 = omega arith in
    rw (small, none) (digits_below-zero j)

pub rounded-zero : (k : ℕ) → rounded k 0 ≡ 0
unfolding rounded round_even bit_length
rounded-zero k =
    let p = one-le-pow k 2 (omega arith) in
    let l : digits_below 13 0 ≡ 0 = digits_below-zero 13 in
    let m : max (0 - 53) k ≡ k = omega arith in rw (l, m) (ground arith)

-- The magnitude does not depend on the unit that the number is counted in.
pub rounded-shift : (n k j : ℕ) → n * 2 ^ j < 2 ^ 8191 → rounded (k + j) (n * 2 ^ j) ≡ rounded k n
unfolding rounded
rounded-shift n k j h = elim (Bool-cases (n == 0)) [
  | inl e ↦
      let z : n ≡ 0 = ground arith in
      let z' : 0 * 2 ^ j ≡ 0 = omega arith in rw (z, z', rounded-zero (k + j), rounded-zero k) refl
  | inr e ↦
      let p = one-le-pow j 2 (omega arith) in
      let up = mul_mono n 1 (2 ^ j) p in
      let v = length_lem n 8191 (omega arith) (omega arith) in
      let w = length_lem (n * 2 ^ j) 8191 (omega arith) h in
      let l =
        HasDigits-unique (bit_length (n * 2 ^ j)) (bit_length n + j) (n * 2 ^ j) w
          (HasDigits-shift (bit_length n) n j (ground arith) v) in
      let q : max (bit_length n + j - 53) (k + j) ≡ max (bit_length n - 53) k + j = omega arith in
      let d : max (bit_length n - 53) k + j - (k + j) ≡ max (bit_length n - 53) k - k =
        omega arith in
      rw (l, q, d, round_even-shift n (max (bit_length n - 53) k) j) refl
]

-- At most half a unit rounds to 0.
pub rounded-tiny : (n k b : ℕ) → b ≤ 8192 → n < 2 ^ b → 2 * n ≤ 2 ^ k → rounded k n ≡ 0
unfolding rounded round_even
rounded-tiny n k b c h t = elim (Bool-cases (n == 0)) [
  | inl e ↦ let z : n ≡ 0 = ground arith in rw z (rounded-zero k)
  | inr e ↦
      let l = bit_length n in
      let v = length_lem n b c h in
      let least : 2 ^ l ≤ 2 * n = elim v.least [
        | inl o ↦ let one : 2 ^ l ≡ 1 = ap (λ (i : ℕ). 2 ^ i) o in ground arith
        | inr o ↦ o
      ] in
      let up : 2 ^ suc k ≡ 2 ^ k + 2 ^ k = two-pow-succ k in
      let pos_k = one-le-pow k 2 (omega arith) in
      let short : l < suc k = power_lt l (suc k) (omega arith) in
      let q : max (l - 53) k ≡ k = omega arith in
      let low : n < 2 ^ k = omega arith in rw (q, div-eq_of_lt low, mod-eq_of_lt low) (ground arith)
]

digits_below-full : (j n : ℕ) → 2 ^ 2 ^ j ≤ n → digits_below j n ≡ 2 ^ j
unfolding digits_below
digits_below-full zero n h = ground arith
digits_below-full (suc j) n h =
    let p = 2 ^ 2 ^ j in
    let pos_p = one-le-pow (2 ^ j) 2 (omega arith) in
    let square : 2 ^ 2 ^ suc j ≡ p * p = rw two-pow-succ (pow-add (2 ^ j) (2 ^ j)) in
    let more : p ≤ n / p = (le-div_iff_mul-le pos_p).1 (rw square at h) in
    let less = mul_mono p 1 p pos_p in
    let large : leb p n ≡ true = ground arith in
    rw (large, digits_below-full j (n / p) more, two-pow-succ j) refl

length-full : (n : ℕ) → 2 ^ 2 ^ 13 ≤ n → bit_length n ≡ 8192
unfolding bit_length
length-full n h = digits_below-full 13 n h

split_length : (l : ℕ) → 53 ≤ l → 2 ^ l ≡ 2 * (2 ^ 52 * 2 ^ (l - 53))
split_length l h =
    let e : l ≡ 53 + (l - 53) = omega arith in
    ap (λ (i : ℕ). 2 ^ i) e ∙ pow-add 53 (l - 53) ∙ omega arith

-- `q` digits behind the first 53.
rounded_full :
    (n q : ℕ)
    → q ≤ bit_length n - 53
    → 2 ^ 52 * 2 ^ (bit_length n - 53) ≤ n
    → 2046 ≤ q
    → rounded 0 n ≡ inf_bits
unfolding rounded round_even
rounded_full n q h l m =
    let k = bit_length n - 53 in
    let e : max k 0 ≡ k = omega arith in
    let pos_k = one-le-pow k 2 (omega arith) in
    let d : 2 ^ 52 ≤ n / 2 ^ k = (le-div_iff_mul-le pos_k).1 l in rw e (ground arith)

pub rounded-overflow : (n : ℕ) → 2 ^ 2098 ≤ n → rounded 0 n ≡ inf_bits
rounded-overflow n h = elim (Bool-cases (leb (2 ^ 2 ^ 13) n)) [
  | inl e ↦
      let l : bit_length n ≡ 8192 = length-full n (leb→le _ _ e) in
      let q : bit_length n - 53 ≡ 8139 = omega arith in
      let up : 2 ^ 52 * 2 ^ 8139 ≤ 2 ^ 2 ^ 13 = leb→le _ _ refl in
      let low : 2 ^ 52 * 2 ^ 8139 ≤ n = le_trans up (leb→le _ _ e) in
      rounded_full n 2046 (omega arith) (rw q low) (omega arith)
  | inr e ↦
      let v = length_lem n (2 ^ 13) (omega arith) (leb→gt _ _ e) in
      let l = bit_length n in
      let big : 2098 < l = power_lt 2098 l (lt_of_le_of_lt h v.below) in
      let least : 2 ^ l ≤ 2 * n = elim v.least [ inl o ↦ absurd (omega arith) | inr o ↦ o ] in
      let split : 2 ^ l ≡ 2 * (2 ^ 52 * 2 ^ (l - 53)) = split_length l (omega arith) in
      rounded_full n 2046 (omega arith) (omega arith) (omega arith)
]
