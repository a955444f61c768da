-- ===== src/Libm/Sqrt/Table.antt =====
-- The first estimate of `sqrt`, against the bound of its comment: |r sqrt(m) - 1| < 0x1.fdp-9.
use wasm_cxx_shim.Prelude.{
  ℕ, zero, suc, ◌+◌, ◌-◌, ◌*◌, ◌/◌, ◌%◌, ◌^◌, ◌<◌, ◌≤◌, ◌≡◌, refl, Bool, true, false, ◌&&◌, ltb,
  leb, ◌==◌, if◌then◌else◌, arith, Bool-cases, inl, inr, ltb→lt, leb→le,
}
use wasm_cxx_shim.Prelude.Lists.{get_or}
use wasm_cxx_shim.Libm.Tables.Rsqrt.{rsqrt_tab}
use wasm_cxx_shim.Libm.Sqrt.{mantissa}

-- The square of `(t / 2 ^ 16) * sqrt(m / 2 ^ 62)` is between those of 1 - b and 1 + b, for the
-- bound b = 509 / 2 ^ 17.
pub record Accurate (t m : ℕ) : Type 0 where
  pub above : (2 ^ 17 - 509) * (2 ^ 17 - 509) * 2 ^ 60 < t * t * m
  pub below : t * t * m < (2 ^ 17 + 509) * (2 ^ 17 + 509) * 2 ^ 60

-- The mantissas that have index `i`, in units of 2 ^ 56.
abbrev first : ℕ → ℕ
first i = if ltb i 64 then 2 * (64 + i) else i

abbrev past : ℕ → ℕ
past i = if ltb i 64 then 2 * (65 + i) else i + 1

-- The bound at both ends of an index.
abbrev accurate_at : ℕ → Bool
accurate_at i =
    let t = get_or rsqrt_tab i 0 in
    ltb ((2 ^ 17 - 509) * (2 ^ 17 - 509) * 16) (t * t * first i)
    && leb (t * t * past i) ((2 ^ 17 + 509) * (2 ^ 17 + 509) * 16)

abbrev all_below : ℕ → (ℕ → Bool) → Bool
all_below zero p = true
all_below (suc n) p = p n && all_below n p

and_left : (a b : Bool) → (a && b) ≡ true → a ≡ true
and_left true b h = refl
and_left false b h = h

and_right : (a b : Bool) → (a && b) ≡ true → b ≡ true
and_right true b h = h
and_right false b h = absurd (ground arith)

all_below-each : (n : ℕ) (p : ℕ → Bool) → all_below n p ≡ true → (i : ℕ) → i < n → p i ≡ true
all_below-each zero p h i l = absurd (omega arith)
all_below-each (suc n) p h i l = elim (Bool-cases (i == n)) [
  | inl e ↦ let same : i ≡ n = ground arith in rw same (and_left (p n) (all_below n p) h)
  | inr e ↦ all_below-each n p (and_right (p n) (all_below n p) h) i (ground arith)
]

table_accurate : all_below 128 accurate_at ≡ true
table_accurate = refl

mantissa_range :
    (x : ℕ)
    → (first (x / 2 ^ 46 % 128) * 2 ^ 56 ≤ mantissa x (x / 2 ^ 52))
      × (mantissa x (x / 2 ^ 52) < past (x / 2 ^ 46 % 128) * 2 ^ 56)
unfolding mantissa
mantissa_range x = (ground arith, ground arith)

mul_mono : (q a b : ℕ) → a ≤ b → q * a ≤ q * b
mul_mono q a b h = grind arith

mul_mono_lt : (q a b : ℕ) → 0 < q → a < b → q * a < q * b
mul_mono_lt zero a b p h = absurd (omega arith)
mul_mono_lt (suc q) a b p h = grind (arith, mul_mono q a b)

-- From the ends of an index to a mantissa in it.
Accurate-between :
    (t l h m : ℕ)
    → (2 ^ 17 - 509) * (2 ^ 17 - 509) * 16 < t * t * l
    → t * t * h ≤ (2 ^ 17 + 509) * (2 ^ 17 + 509) * 16
    → l * 2 ^ 56 ≤ m
    → m < h * 2 ^ 56
    → Accurate t m
Accurate-between t l h m p q a b =
    let positive : 0 < t * t = elim (Bool-cases (t * t == 0)) [
      | inl e ↦ let none : t * t ≡ 0 = ground arith in absurd (grind arith)
      | inr e ↦ ground arith
    ] in
    let up : t * t * (l * 2 ^ 56) ≤ t * t * m = mul_mono (t * t) (l * 2 ^ 56) m a in
    let down : t * t * m < t * t * (h * 2 ^ 56) = mul_mono_lt (t * t) m (h * 2 ^ 56) positive b in
    record { above = grind arith; below = grind arith }

-- For every pattern, the entry of __rsqrt_tab at the index that sqrt takes from it, multiplied by the
-- root of the mantissa that sqrt takes from it, is within 509 / 2 ^ 17 of 1.
pub rsqrt_tab-Accurate :
    (x : ℕ) → Accurate (get_or rsqrt_tab (x / 2 ^ 46 % 128) 0) (mantissa x (x / 2 ^ 52))
rsqrt_tab-Accurate x =
    let i = x / 2 ^ 46 % 128 in
    let (low, high) = mantissa_range x in
    let ok : accurate_at i ≡ true = all_below-each 128 accurate_at table_accurate i (omega arith) in
    Accurate-between (get_or rsqrt_tab i 0) (first i) (past i) (mantissa x (x / 2 ^ 52))
      (ltb→lt _ _ (and_left _ _ ok)) (leb→le _ _ (and_right _ _ ok)) low high
