-- ===== src/Libm/Fma/Align.antt =====
-- libm/src/musl/fma.c: the two numbers at one exponent, and what their sum and distance keep.
pub mod Near
pub mod Far
use wasm_cxx_shim.Prelude.{
  ℕ, suc, ◌+◌, ◌-◌, ◌*◌, ◌/◌, ◌%◌, ◌^◌, ◌≤◌, ◌<◌, ◌≡◌, ◌⊎◌, Bool, leb, ltb, ◌==◌, arith, Bool-cases,
  inl, inr, bit_or, sym, ap, ◌∙◌, refl, true, false, if◌then◌else◌,
}
use native.Mathlib.Nat.{one-le-pow, two-pow-succ}
use wasm_cxx_shim.Prelude.Int.{ℤ, pos, negsuc, sub_ℕ}
use wasm_cxx_shim.Libm.Double.Odd.{
  odd_shift, odd_shift-even, odd_shift-add, odd_shift-rsub, odd_shift-twice,
}
use wasm_cxx_shim.Libm.Fma.{Aligned}
use wasm_cxx_shim.Libm.Fma.Wide.{wide}

-- The distance of two numbers.
abbrev pub distance : ℕ → ℕ → ℕ
distance a b = if ltb a b then b - a else a - b

-- `n` at the exponent `k` above that of `m`, but for digits that a shift by `least` leaves a trace of.
abbrev pub Traces : ℕ → ℕ → ℕ → ℕ → Type 0
Traces n m k least = (u : ℕ) → least ≤ u → odd_shift n u ≡ odd_shift m (k + u)

-- `a` is for the numbers `p` and `q` at the exponent base - 2342.
pub record Aligns (p q base : ℕ) (a : Aligned) : Type 0 where
  pub rhi : a.rhi < 2 ^ 62
  pub rlo : a.rlo < 2 ^ 64
  pub zhi : a.zhi < 2 ^ 62
  pub zlo : a.zlo < 2 ^ 64
  pub up : ℕ
  pub least : ℕ
  pub at : a.e ≡ sub_ℕ (base + up) 2342
  pub near : base + up ≤ 5000
  pub order : ltb (wide a.rhi a.rlo) (wide a.zhi a.zlo) ≡ ltb p q
  pub sum_large : 2 ^ 105 ≤ wide a.rhi a.rlo + wide a.zhi a.zlo
  pub large :
      ((up ≡ 0) × (least ≡ 0))
      ⊎ ((2 ^ (63 + least) ≤ wide a.rhi a.rlo + wide a.zhi a.zlo)
          × (2 ^ (63 + least) ≤ distance (wide a.rhi a.rlo) (wide a.zhi a.zlo)))
  pub same : Traces (wide a.rhi a.rlo + wide a.zhi a.zlo) (p + q) up least
  pub opposite : Traces (distance (wide a.rhi a.rlo) (wide a.zhi a.zlo)) (distance p q) up least

pub Traces-refl : (n m : ℕ) → n ≡ m → Traces n m 0 0
Traces-refl n m e u h = let z : 0 + u ≡ u = omega arith in rw (e, z) refl

-- No digit is lost.
pub exact-Aligns :
    (p q base : ℕ) (a : Aligned)
    → a.rhi < 2 ^ 62
    → a.rlo < 2 ^ 64
    → a.zhi < 2 ^ 62
    → a.zlo < 2 ^ 64
    → a.e ≡ sub_ℕ base 2342
    → wide a.rhi a.rlo ≡ p
    → wide a.zhi a.zlo ≡ q
    → 2 ^ 105 ≤ p + q
    → base ≤ 5000
    → Aligns p q base a
exact-Aligns p q base a h l h' l' e f g m small =
    let z : base + 0 ≡ base = omega arith in
    record {
      rhi = h;
      rlo = l;
      zhi = h';
      zlo = l';
      up = 0;
      least = 0;
      at = e ∙ ap (λ (i : ℕ). sub_ℕ i 2342) (sym z);
      near = omega arith;
      order = rw (f, g) refl;
      sum_large = rw (f, g) m;
      large = inl (refl, refl);
      same = Traces-refl _ _ (rw (f, g) refl);
      opposite = Traces-refl _ _ (rw (f, g) refl);
    }

-- One shift decides about all that are longer.
pub Traces-from : (n m k l : ℕ) → odd_shift n l ≡ odd_shift m (k + l) → Traces n m k l
Traces-from n m k l e u h =
    let f : l + (u - l) ≡ u = omega arith in
    let g : k + l + (u - l) ≡ k + u = omega arith in
    ap (odd_shift n) (sym f)
    ∙ sym (odd_shift-twice n l (u - l))
    ∙ ap (λ (i : ℕ). odd_shift i (u - l)) e
    ∙ odd_shift-twice m (k + l) (u - l)
    ∙ ap (odd_shift m) g

pub Traces-shift : (n m k : ℕ) → n ≡ odd_shift m k → Traces n m k 0
Traces-shift n m k e =
    let one : n * 2 ^ 0 ≡ n = omega arith in
    let z : k + 0 ≡ k = omega arith in
    Traces-from n m k 0 (rw z (ap (λ (i : ℕ). odd_shift i 0) (sym one) ∙ odd_shift-even n 0 ∙ e))

-- A number that is shifted out, with a larger one.
pub Traces-sum : (n z k : ℕ) → z % 2 ≡ 0 → Traces (odd_shift n k + z) (n + z * 2 ^ k) k 0
Traces-sum n z k e = Traces-shift _ _ k (sym (odd_shift-add n k z e))

pub Traces-difference :
    (n z k : ℕ) → z % 2 ≡ 0 → n ≤ z * 2 ^ k → Traces (z - odd_shift n k) (z * 2 ^ k - n) k 0
Traces-difference n z k e h = Traces-shift _ _ k (sym (odd_shift-rsub n k z e h))

pub Traces-same : (n m k l : ℕ) → k ≡ 0 → l ≡ 0 → Traces n m k l → n ≡ m
Traces-same n m k l e f t =
    let a : n * 2 ^ 0 ≡ n = omega arith in
    let b : m * 2 ^ 0 ≡ m = omega arith in
    let z : k + 0 ≡ 0 = omega arith in
    let u : odd_shift n 0 ≡ odd_shift m 0 = rw z at (t 0 (omega arith)) in
    let v : odd_shift n 0 ≡ n = ap (λ (i : ℕ). odd_shift i 0) (sym a) ∙ odd_shift-even n 0 in
    let w : odd_shift m 0 ≡ m = ap (λ (i : ℕ). odd_shift i 0) (sym b) ∙ odd_shift-even m 0 in
    sym v ∙ u ∙ w
