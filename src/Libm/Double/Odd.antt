-- ===== src/Libm/Double/Odd.antt =====
-- A shift to the right that remembers in its last digit whether it dropped any, and why rounding
-- behind it is that of the whole number.
pub mod Rounded
use wasm_cxx_shim.Prelude.{
  ℕ, zero, suc, ◌+◌, ◌-◌, ◌*◌, ◌/◌, ◌%◌, ◌^◌, ◌≤◌, ◌<◌, ◌≡◌, ◌⊎◌, leb, ltb, ◌==◌, arith, Bool-cases,
  inl, inr, sym, ap, ◌∙◌, refl, true, false, leb→le, leb→gt, if◌then◌else◌,
}
use Prim.Native.Nat.{max}
use native.Mathlib.Nat.{
  add-mul, one-le-pow, pow-le-pow_right, two-pow-succ, div-add-mod, mod-lt, div-eq_of_lt-le,
  mul-div_cancel, mul-mod_left, mod-eq_of_lt, add-mul-mod_self_right, add-mul-div_right,
  div-div-eq-div-mul, div-eq_of_lt, div-le_self,
}
use wasm_cxx_shim.Libm.Double.{bit_length, round_even, rounded}
use wasm_cxx_shim.Libm.Double.Length.{pow-add, HasDigits}
use wasm_cxx_shim.Libm.Double.Exact.{mul_mono, mul_mono_lt, power_lt, cancel_le, cancel_lt}
use wasm_cxx_shim.Libm.Double.Scale.{
  length_lem, HasDigits-unique, HasDigits-shift, round_even-shift,
}

-- `n / 2 ^ d`, odd where digits that are not 0 were dropped.
unfoldable pub odd_shift : ℕ → ℕ → ℕ
odd_shift n d = if n % 2 ^ d == 0 then n / 2 ^ d else n / 2 ^ d / 2 * 2 + 1

-- The quotient and the rest determine it.
pub odd_shift-even : (a d : ℕ) → odd_shift (a * 2 ^ d) d ≡ a
unfolding odd_shift
odd_shift-even a d =
    let p = one-le-pow d 2 (omega arith) in rw (mul-mod_left a (2 ^ d), mul-div_cancel a p) refl

pub odd_shift-zero : (d : ℕ) → odd_shift 0 d ≡ 0
odd_shift-zero d =
    let e : 0 ≡ 0 * 2 ^ d = omega arith in ap (λ (i : ℕ). odd_shift i d) e ∙ odd_shift-even 0 d

pub odd_shift-odd : (a d r : ℕ) → 0 < r → r < 2 ^ d → odd_shift (r + a * 2 ^ d) d ≡ a / 2 * 2 + 1
unfolding odd_shift
odd_shift-odd a d r h l =
    let p = one-le-pow d 2 (omega arith) in
    let m : (r + a * 2 ^ d) % 2 ^ d ≡ r = add-mul-mod_self_right r a (2 ^ d) ∙ mod-eq_of_lt l in
    let q : (r + a * 2 ^ d) / 2 ^ d ≡ a =
      add-mul-div_right r a p ∙ ap (λ (i : ℕ). i + a) (div-eq_of_lt l) ∙ omega arith in
    let n : (r == 0) ≡ false = ground arith in rw (m, q, n) refl

pub odd_shift-below : (n d : ℕ) → 0 < n → n < 2 ^ d → odd_shift n d ≡ 1
odd_shift-below n d h l =
    let e : n ≡ n + 0 * 2 ^ d = omega arith in
    ap (λ (i : ℕ). odd_shift i d) e ∙ odd_shift-odd 0 d n h l

-- The two cases of a number.
pub record Cut (n d : ℕ) : Type 0 where
  pub head : ℕ
  pub rest : ℕ
  pub below : rest < 2 ^ d
  pub whole : n ≡ rest + head * 2 ^ d

pub cut : (n d : ℕ) → Cut n d
cut n d =
    let p = one-le-pow d 2 (omega arith) in
    record {
      head = n / 2 ^ d;
      rest = n % 2 ^ d;
      below = mod-lt n p;
      whole = grind (arith, div-add-mod n (2 ^ d));
    }

pub odd_shift-cases :
    (n d : ℕ)
    → (c : Cut n d)
    → ((c.rest ≡ 0) × (n ≡ c.head * 2 ^ d) × (odd_shift n d ≡ c.head))
      ⊎ ((0 < c.rest) × (odd_shift n d ≡ c.head / 2 * 2 + 1))
odd_shift-cases n d c = elim (Bool-cases (c.rest == 0)) [
  | inl e ↦
      let z : c.rest ≡ 0 = ground arith in
      let w : n ≡ c.head * 2 ^ d = omega (arith, c.whole) in
      inl (z, w, ap (λ (i : ℕ). odd_shift i d) w ∙ odd_shift-even c.head d)
  | inr e ↦
      let pos_r : 0 < c.rest = ground arith in
      inr
        (pos_r, ap (λ (i : ℕ). odd_shift i d) c.whole ∙ odd_shift-odd c.head d c.rest pos_r c.below)
]

pub odd_shift-positive : (n d : ℕ) → 0 < n → 0 < odd_shift n d
odd_shift-positive n d h =
    let c = cut n d in
    elim (odd_shift-cases n d c) [
      | inl (z, w, o) ↦ elim (Bool-cases (c.head == 0)) [
        | inl e ↦
            let f : c.head ≡ 0 = ground arith in
            let g : n ≡ 0 = w ∙ ap (λ (i : ℕ). i * 2 ^ d) f ∙ omega arith in absurd (omega arith)
        | inr e ↦ ground arith
      ]
      | inr (z, o) ↦ omega arith
    ]

pub odd_shift-bound : (n d k : ℕ) → n < 2 ^ k → odd_shift n d < 2 ^ suc k
unfolding odd_shift
odd_shift-bound n d k h = let t = div-le_self n (2 ^ d) in let u = two-pow-succ k in ground arith

-- Adding and subtracting an even number of what is kept.
pub odd_shift-add : (n d z : ℕ) → z % 2 ≡ 0 → odd_shift (n + z * 2 ^ d) d ≡ odd_shift n d + z
odd_shift-add n d z h =
    let c = cut n d in
    let a = c.head in
    let r = c.rest in
    let e : n + z * 2 ^ d ≡ r + (a + z) * 2 ^ d = grind (arith, c.whole) in
    elim (odd_shift-cases n d c) [
      | inl (z0, w, o) ↦
          let f : n + z * 2 ^ d ≡ (a + z) * 2 ^ d = grind (arith, w) in
          rw (f, odd_shift-even (a + z) d, o) refl
      | inr (p, o) ↦ rw (e, odd_shift-odd (a + z) d r p c.below, o) (omega arith)
    ]

pub odd_shift-sub :
    (n d z : ℕ) → z % 2 ≡ 0 → z * 2 ^ d ≤ n → odd_shift (n - z * 2 ^ d) d ≡ odd_shift n d - z
odd_shift-sub n d z h l =
    let m = n - z * 2 ^ d in
    let e : m + z * 2 ^ d ≡ n = omega arith in
    let t = odd_shift-add m d z h in
    let u : odd_shift n d ≡ odd_shift m d + z = rw e at t in omega arith

join_parts : (z a p : ℕ) → a ≤ z → z * p ≡ (z - a) * p + a * p
join_parts z a p h =
    let e : z ≡ (z - a) + a = omega arith in ap (λ (i : ℕ). i * p) e ∙ add-mul (z - a) a p

head_and_more : (a w p : ℕ) → (a + w + 1) * p ≡ a * p + w * p + p
head_and_more a w p = grind arith

pub odd_shift-rsub :
    (n d z : ℕ) → z % 2 ≡ 0 → n ≤ z * 2 ^ d → odd_shift (z * 2 ^ d - n) d ≡ z - odd_shift n d
odd_shift-rsub n d z h l =
    let c = cut n d in
    let a = c.head in
    let r = c.rest in
    let p = 2 ^ d in
    let below = c.below in
    let whole = c.whole in
    let pos_p = one-le-pow d 2 (omega arith) in
    elim (odd_shift-cases n d c) [
      | inl (z0, w, o) ↦
          let less : a ≤ z = cancel_le p a z pos_p (omega arith) in
          let f : z * p ≡ (z - a) * p + a * p = join_parts z a p less in
          let g : z * p - n ≡ (z - a) * p = omega arith in rw (g, odd_shift-even (z - a) d, o) refl
      | inr (q, o) ↦
          let less : a < z = cancel_lt p a z (omega arith) in
          let w = z - a - 1 in
          let e : z ≡ a + w + 1 = omega arith in
          let f : z * p ≡ a * p + w * p + p = ap (λ (i : ℕ). i * p) e ∙ head_and_more a w p in
          let g : z * p - n ≡ (p - r) + w * p = omega arith in
          rw (g, odd_shift-odd w d (p - r) (omega arith) (omega arith), o) (omega arith)
    ]

odd_head : (m s h p q : ℕ) → p ≡ q + q → m ≡ s + h * p → m / 2 * 2 + 1 ≡ (s / 2 * 2 + 1) + h * p
odd_head m s h p q e w = let t : h * p ≡ 2 * (h * q) = grind (arith, e) in omega arith

pub two_cuts : (r s b p q : ℕ) → r + (s + b * q) * p ≡ r + s * p + b * (p * q)
two_cuts r s b p q = grind arith

-- Two shifts are one.
pub odd_shift-twice : (n a b : ℕ) → odd_shift (odd_shift n a) b ≡ odd_shift n (a + b)
odd_shift-twice n a zero =
    let m = odd_shift n a in
    let e : m ≡ m * 2 ^ 0 = omega arith in
    let f : a + 0 ≡ a = omega arith in rw f (ap (λ (i : ℕ). odd_shift i 0) e ∙ odd_shift-even m 0)
odd_shift-twice n a (suc b') =
    let b = suc b' in
    let c = cut n a in
    let t = cut c.head b in
    let r = c.rest in
    let s = t.rest in
    let rb = c.below in
    let sb = t.below in
    let h = t.head in
    let p = 2 ^ a in
    let pos_p = one-le-pow a 2 (omega arith) in
    let even : 2 ^ b ≡ 2 ^ b' + 2 ^ b' = two-pow-succ b' in
    let whole : n ≡ r + s * p + h * 2 ^ (a + b) =
      c.whole
      ∙ ap (λ (i : ℕ). r + i * p) t.whole
      ∙ two_cuts r s h p (2 ^ b)
      ∙ ap (λ (i : ℕ). r + s * p + h * i) (sym (pow-add a b)) in
    let fits : (s + 1) * p ≤ 2 ^ (a + b) =
      rw (pow-add a b) (grind (arith, mul_mono p (s + 1) (2 ^ b) (omega arith))) in
    let rest : r + s * p < 2 ^ (a + b) = grind (arith, fits, rb) in
    let odd = λ (l : 0 < r + s * p).
      ap (λ (i : ℕ). odd_shift i (a + b)) whole ∙ odd_shift-odd h (a + b) (r + s * p) l rest in
    elim (odd_shift-cases n a c) [
      | inl (r0, w, o) ↦ elim (odd_shift-cases c.head b t) [
        | inl (s0, w', o') ↦
            let none : r + s * p ≡ 0 = rw (r0, s0) (omega arith) in
            let e : n ≡ h * 2 ^ (a + b) =
              whole ∙ ap (λ (i : ℕ). i + h * 2 ^ (a + b)) none ∙ omega arith in
            rw (o, o') (sym (ap (λ (i : ℕ). odd_shift i (a + b)) e ∙ odd_shift-even h (a + b)))
        | inr (s1, o') ↦ let some_s = mul_mono p 1 s s1 in rw (o, o') (sym (odd (omega arith)))
      ]
      | inr (r1, o) ↦
          let head : c.head / 2 * 2 + 1 ≡ (s / 2 * 2 + 1) + h * 2 ^ b =
            odd_head c.head s h (2 ^ b) (2 ^ b') even t.whole in
          rw (o, head)
            (odd_shift-odd h b (s / 2 * 2 + 1) (omega arith) (omega arith)
              ∙ sym (odd (omega arith)))
    ]
