-- ===== src/Libm/Fma/Wide.antt =====
-- The 128-bit product and sum of fma.
use wasm_cxx_shim.Prelude.{
  ℕ, ◌+◌, ◌*◌, ◌-◌, ◌%◌, ◌/◌, ◌^◌, ◌<◌, ◌≤◌, ◌≡◌, Bool, not, ltb, arith, if◌then◌else◌, sym, refl,
  ap, ◌∙◌,
}
use wasm_cxx_shim.Libm.Fma.{mul, Aligned, add_same, add_opposite}

-- The number of two halves.
abbrev pub wide : ℕ → ℕ → ℕ
wide hi lo = hi * 2 ^ 64 + lo

pub mul_bound : (a b m n : ℕ) → a ≤ m → b ≤ n → a * b ≤ m * n
mul_bound a b m n h l = grind arith

mul_halves :
    (a b c d w : ℕ) → (b * w + a) * (d * w + c) ≡ b * d * (w * w) + (a * d + b * c) * w + a * c
mul_halves a b c d w = grind arith

carry_halves :
    (p q r : ℕ)
    → p < 2 ^ 64
    → q < 2 ^ 64
    → r < 2 ^ 62
    → let lo = (p % 2 ^ 64 + q % 2 ^ 64 * 2 ^ 32) % 2 ^ 64 in
      wide ((r % 2 ^ 64 + q % 2 ^ 64 / 2 ^ 32 + (if ltb lo (p % 2 ^ 64) then 1 else 0)) % 2 ^ 64) lo
      ≡ r * (2 ^ 32 * 2 ^ 32) + q * 2 ^ 32 + p
carry_halves p q r h l m = ground arith

-- For factors below 2 ^ 63, the two halves that mul returns are those of the product.
pub mul_lem : (x y : ℕ) → x < 2 ^ 63 → y < 2 ^ 63 → wide (mul x y).0 (mul x y).1 ≡ x * y
unfolding mul
mul_lem x y h l =
    let a = x % 2 ^ 32 in
    let b = x / 2 ^ 32 in
    let c = y % 2 ^ 32 in
    let d = y / 2 ^ 32 in
    let p = mul_bound a c (2 ^ 32 - 1) (2 ^ 32 - 1) (omega arith) (omega arith) in
    let q = mul_bound a d (2 ^ 32 - 1) (2 ^ 31 - 1) (omega arith) (omega arith) in
    let q' = mul_bound b c (2 ^ 31 - 1) (2 ^ 32 - 1) (omega arith) (omega arith) in
    let r = mul_bound b d (2 ^ 31 - 1) (2 ^ 31 - 1) (omega arith) (omega arith) in
    let halves = mul_halves a b c d (2 ^ 32) in
    let ex : x ≡ b * 2 ^ 32 + a = omega arith in
    let ey : y ≡ d * 2 ^ 32 + c = omega arith in
    carry_halves (a * c) (a * d + b * c) (b * d) (omega arith) (omega arith) (omega arith)
    ∙ sym halves
    ∙ ap (λ (n : ℕ). n * (d * 2 ^ 32 + c)) (sym ex)
    ∙ ap (λ (n : ℕ). x * n) (sym ey)

add_same_lem :
    (a : Aligned) (s : Bool)
    → a.rhi < 2 ^ 62
    → a.zhi < 2 ^ 62
    → a.rlo < 2 ^ 64
    → a.zlo < 2 ^ 64
    → wide (add_same a s).rhi (add_same a s).rlo ≡ wide a.rhi a.rlo + wide a.zhi a.zlo
unfolding add_same
add_same_lem a s h k l m = ground arith

add_opposite_lem :
    (a : Aligned) (s : Bool)
    → a.rhi < 2 ^ 62
    → a.zhi < 2 ^ 62
    → a.rlo < 2 ^ 64
    → a.zlo < 2 ^ 64
    → wide (add_opposite a s).rhi (add_opposite a s).rlo ≡ (
        if ltb (wide a.rhi a.rlo) (wide a.zhi a.zlo)
        then wide a.zhi a.zlo - wide a.rhi a.rlo
        else wide a.rhi a.rlo - wide a.zhi a.zlo)
unfolding add_opposite
add_opposite_lem a s h k l m = ground arith

add_opposite_sign :
    (a : Aligned) (s : Bool)
    → a.rhi < 2 ^ 62
    → a.zhi < 2 ^ 62
    → a.rlo < 2 ^ 64
    → a.zlo < 2 ^ 64
    → (add_opposite a s).negative ≡ (if ltb (wide a.rhi a.rlo) (wide a.zhi a.zlo) then not s else s)
unfolding add_opposite
add_opposite_sign a s h k l m = ground arith

-- For two 128-bit numbers below 2 ^ 126, add_same is their sum, with the sign that is given, and
-- add_opposite is their distance, with the other sign if the second is larger.
pub fma_sums :
    (a : Aligned) (s : Bool)
    → a.rhi < 2 ^ 62
    → a.zhi < 2 ^ 62
    → a.rlo < 2 ^ 64
    → a.zlo < 2 ^ 64
    → (wide (add_same a s).rhi (add_same a s).rlo ≡ wide a.rhi a.rlo + wide a.zhi a.zlo)
      × ((add_same a s).negative ≡ s)
      × (wide (add_opposite a s).rhi (add_opposite a s).rlo ≡ (
          if ltb (wide a.rhi a.rlo) (wide a.zhi a.zlo)
          then wide a.zhi a.zlo - wide a.rhi a.rlo
          else wide a.rhi a.rlo - wide a.zhi a.zlo))
      × ((add_opposite a s).negative
          ≡ (if ltb (wide a.rhi a.rlo) (wide a.zhi a.zlo) then not s else s))
unfolding add_same
fma_sums a s h k l m =
    (add_same_lem a s h k l m, refl, add_opposite_lem a s h k l m, add_opposite_sign a s h k l m)
