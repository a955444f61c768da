-- ===== src/Libm/Double/Odd/Rounded.antt =====
-- Rounding behind an odd shift is that of the whole number.
use wasm_cxx_shim.Prelude.{
  ℕ, ◌+◌, ◌-◌, ◌*◌, ◌/◌, ◌%◌, ◌^◌, ◌≤◌, ◌<◌, ◌≡◌, ◌⊎◌, leb, ltb, ◌==◌, arith, Bool-cases, inl, inr,
  sym, ap, ◌∙◌, refl, false, leb→le, if◌then◌else◌, ◌&&◌, ◌||◌,
}
use Prim.Native.Nat.{max}
use native.Mathlib.Nat.{
  one-le-pow, div-eq_of_lt, mod-eq_of_lt, add-mul-mod_self_right, add-mul-div_right, lt_of_le_of_lt,
}
use wasm_cxx_shim.Libm.Double.{bit_length, round_even, rounded}
use wasm_cxx_shim.Libm.Double.Length.{pow-add, HasDigits}
use wasm_cxx_shim.Libm.Double.Exact.{mul_mono, power_lt}
use wasm_cxx_shim.Libm.Double.Scale.{
  length_lem, HasDigits-unique, HasDigits-shift, round_even-shift,
}
use wasm_cxx_shim.Libm.Double.Odd.{odd_shift, cut, odd_shift-cases, odd_shift-zero, two_cuts}

-- `n / 2 ^ q` and the rest.
round_even-parts :
    (r a q : ℕ)
    → r < 2 ^ q
    → round_even (r + a * 2 ^ q) q
      ≡ (if ltb (2 ^ q) (2 * r) || (2 * r == 2 ^ q && a % 2 == 1) then a + 1 else a)
unfolding round_even
round_even-parts r a q h =
    let p = one-le-pow q 2 (omega arith) in
    let m : (r + a * 2 ^ q) % 2 ^ q ≡ r = add-mul-mod_self_right r a (2 ^ q) ∙ mod-eq_of_lt h in
    let d : (r + a * 2 ^ q) / 2 ^ q ≡ a =
      add-mul-div_right r a p ∙ ap (λ (i : ℕ). i + a) (div-eq_of_lt h) ∙ omega arith in
    rw (m, d) refl

-- `b` digits and a rest of `r` units below them, against a half.
half_order :
    (b r p g : ℕ)
    → 0 < r
    → r < p
    → (ltb (4 * g * p) (2 * (r + b * p)) ≡ ltb (4 * g) (2 * (b / 2 * 2 + 1)))
      × ((2 * (r + b * p) == 4 * g * p) ≡ false)
      × ((2 * (b / 2 * 2 + 1) == 4 * g) ≡ false)
half_order b r p g h l = elim (Bool-cases (leb (2 * g) b)) [
  | inl e ↦
      let t = mul_mono p (2 * g) b (leb→le _ _ e) in
      let u : 4 * g * p ≡ 2 * (2 * g * p) = grind arith in ground arith
  | inr e ↦
      let t = mul_mono p (b + 1) (2 * g) (ground arith) in
      let u : 4 * g * p ≡ 2 * (2 * g * p) = grind arith in
      let v : (b + 1) * p ≡ b * p + p = grind arith in ground arith
]

-- Two digits behind the place are enough.
pub round_even-odd_shift : (n q d : ℕ) → 2 ≤ q → round_even n (d + q) ≡ round_even (odd_shift n d) q
round_even-odd_shift n q d h =
    let c = cut n d in
    let a = c.head in
    let r = c.rest in
    elim (odd_shift-cases n d c) [
      | inl (z, w, o) ↦
          let e : d + q ≡ q + d = omega arith in
          rw (o, e) (ap (λ (i : ℕ). round_even i (q + d)) w ∙ round_even-shift a q d)
      | inr (pos_r, o) ↦
          let t = cut a q in
          let s = t.rest in
          let b = t.head in
          let p = 2 ^ d in
          let g = 2 ^ (q - 2) in
          let f : q ≡ 2 + (q - 2) = omega arith in
          let four : 2 ^ q ≡ 4 * g = ap (λ (i : ℕ). 2 ^ i) f ∙ pow-add 2 (q - 2) in
          let all : 2 ^ (d + q) ≡ 4 * g * p = rw (pow-add d q, four) (grind arith) in
          let below = c.below in
          let low = t.below in
          let whole : n ≡ r + s * p + b * 2 ^ (d + q) =
            c.whole
            ∙ ap (λ (i : ℕ). r + i * p) t.whole
            ∙ two_cuts r s b p (2 ^ q)
            ∙ ap (λ (i : ℕ). r + s * p + b * i) (sym (pow-add d q)) in
          let fits : (s + 1) * p ≤ 2 ^ (d + q) =
            rw all (grind (arith, mul_mono p (s + 1) (4 * g) (omega arith))) in
          let rest : r + s * p < 2 ^ (d + q) = grind (arith, fits, below) in
          let left = round_even-parts (r + s * p) b (d + q) rest in
          let even : b * 2 ^ q ≡ 2 * (2 * (b * g)) = rw four (grind arith) in
          let head : a / 2 * 2 + 1 ≡ (s / 2 * 2 + 1) + b * 2 ^ q = omega (arith, t.whole) in
          let right = round_even-parts (s / 2 * 2 + 1) b q (omega arith) in
          let (lt, eq, eq') = half_order s r p g pos_r below in
          let left' : round_even n (d + q)
              ≡ (if ltb (4 * g) (2 * (s / 2 * 2 + 1)) then b + 1 else b) =
            ap (λ (i : ℕ). round_even i (d + q)) whole ∙ left ∙ rw (all, lt, eq) (ground arith) in
          let right' : round_even (a / 2 * 2 + 1) q
              ≡ (if ltb (4 * g) (2 * (s / 2 * 2 + 1)) then b + 1 else b) =
            rw head (right ∙ rw (four, eq') (ground arith)) in
          rw o (left' ∙ sym right')
    ]

length_two : (l m : ℕ) → 2 ≤ m → m < 2 ^ l → 2 ≤ l
length_two l m h v = power_lt 1 l (omega arith)

split_two : (l : ℕ) → 2 ≤ l → 2 ^ l ≡ 4 * 2 ^ (l - 2)
split_two l h = let e : l ≡ 2 + (l - 2) = omega arith in ap (λ (i : ℕ). 2 ^ i) e ∙ pow-add 2 (l - 2)

HasDigits-odd_shift :
    (n d l : ℕ) → 2 ≤ odd_shift n d → HasDigits l (odd_shift n d) → HasDigits (l + d) n
HasDigits-odd_shift n d l h v =
    let c = cut n d in
    let a = c.head in
    let r = c.rest in
    let p = 2 ^ d in
    let low = c.below in
    let vb = v.below in
    elim (odd_shift-cases n d c) [
      | inl (z, w, o) ↦ rw w (HasDigits-shift l a d (omega arith) (rw o at v))
      | inr (pos_r, o) ↦
          let least : 2 ^ l ≤ 2 * odd_shift n d = elim v.least [
            | inl e ↦ let one : 2 ^ l ≡ 1 = ap (λ (i : ℕ). 2 ^ i) e in absurd (omega arith)
            | inr e ↦ e
          ] in
          let two : 2 ≤ l = length_two l (odd_shift n d) h vb in
          let four : 2 ^ l ≡ 4 * 2 ^ (l - 2) = split_two l two in
          let top = mul_mono p (a + 1) (2 ^ l) (omega arith) in
          let bottom = mul_mono p (2 ^ l) (2 * a) (omega arith) in
          let more : (a + 1) * p ≡ a * p + p = grind arith in
          let twice : 2 * a * p ≡ 2 * (a * p) = grind arith in
          let whole = c.whole in
          record {
            below = rw (pow-add l d) (omega arith);
            least = inr (rw (pow-add l d) (omega arith));
          }
    ]

-- Rounding does not see a shift that keeps two digits behind the place of the last digit.
pub rounded-odd_shift :
    (n d i k : ℕ)
    → n * 2 ^ i < 2 ^ 8191
    → odd_shift n d * 2 ^ (i + d) < 2 ^ 8191
    → 2 ≤ odd_shift n d
    → (i + d + 2 ≤ k) ⊎ (2 ^ 54 ≤ odd_shift n d)
    → rounded k (n * 2 ^ i) ≡ rounded k (odd_shift n d * 2 ^ (i + d))
unfolding rounded
rounded-odd_shift n d i k h l two place =
    let m = odd_shift n d in
    let pos_i = one-le-pow i 2 (omega arith) in
    let pos_j = one-le-pow (i + d) 2 (omega arith) in
    let small = mul_mono m 1 (2 ^ (i + d)) pos_j in
    let v = length_lem m 8191 (omega arith) (omega arith) in
    let b = bit_length m in
    let w = HasDigits-odd_shift n d b two v in
    let pos_n : 0 < n = elim (Bool-cases (n == 0)) [
      | inl e ↦
          let z : n ≡ 0 = ground arith in
          let t : odd_shift n d ≡ 0 = ap (λ (i : ℕ). odd_shift i d) z ∙ odd_shift-zero d in
          absurd (omega arith)
      | inr e ↦ ground arith
    ] in
    let left =
      HasDigits-unique _ _ _ (length_lem (n * 2 ^ i) 8191 (omega arith) h)
        (HasDigits-shift (b + d) n i pos_n w) in
    let right =
      HasDigits-unique _ _ _ (length_lem (m * 2 ^ (i + d)) 8191 (omega arith) l)
        (HasDigits-shift b m (i + d) (omega arith) v) in
    let q = max (b + d + i - 53) k in
    let same : b + (i + d) ≡ b + d + i = omega arith in
    let far : i + d + 2 ≤ q = elim place [
      | inl e ↦ omega arith
      | inr e ↦ let t = power_lt 54 b (lt_of_le_of_lt e v.below) in omega arith
    ] in
    let e : q ≡ q - i + i = omega arith in
    let f : q - i ≡ d + (q - i - d) = omega arith in
    let g : q ≡ q - i - d + (i + d) = omega arith in
    let first : round_even (n * 2 ^ i) q ≡ round_even m (q - i - d) =
      ap (round_even (n * 2 ^ i)) e
      ∙ round_even-shift n (q - i) i
      ∙ ap (round_even n) f
      ∙ round_even-odd_shift n (q - i - d) d (omega arith) in
    let second : round_even (m * 2 ^ (i + d)) q ≡ round_even m (q - i - d) =
      ap (round_even (m * 2 ^ (i + d))) g ∙ round_even-shift m (q - i - d) (i + d) in
    rw (left, right, same, first, second) refl
