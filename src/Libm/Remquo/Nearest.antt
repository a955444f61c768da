-- ===== src/Libm/Remquo/Nearest.antt =====
-- libm/src/musl/remquo.c: the choice between |x| and |x| - |y| is the nearest multiple.
use wasm_cxx_shim.Prelude.{
  ℕ, ◌+◌, ◌-◌, ◌*◌, ◌%◌, ◌^◌, ◌≤◌, ◌<◌, ◌≡◌, ◌⊎◌, Bool, ltb, ◌==◌, arith, Bool-cases, inl, inr, ap,
  ◌∙◌, refl, true, false, ◌&&◌, ◌||◌, if◌then◌else◌,
}
use wasm_cxx_shim.Prelude.Int.{ℤ, pos, negsuc, sub_ℕ, ◌-ℤ◌}
use wasm_cxx_shim.Prelude.Int.Sub.{sub-sub_ℕ, ltb-sub_ℕ}
use wasm_cxx_shim.Libm.Double.{
  sign_of, magnitude, inf_bits, power, neg, units, less, equal, ◌⊖◌, ◌⊗◌,
}
use wasm_cxx_shim.Libm.Double.Value.{
  HasValue, HasValue-eq, Representable, Representable-eq, units-neg, neg-HasValue, sub-HasValue,
}
use wasm_cxx_shim.Libm.Double.Order.{less-HasValue, equal-HasValue}
use wasm_cxx_shim.Libm.Rounding.Scale.Up.{Exactly}
use wasm_cxx_shim.Libm.Fma.Convert.Subnormal.{Exactly-HasValue, double-Exactly}
use wasm_cxx_shim.Libm.Remquo.{Operand, rescale, same_ℤ, finish}

-- Whether n * v + r, with r below v, is nearer to (n + 1) * v, or as near and n is odd.
abbrev pub is_nearer_up : ℕ → ℕ → ℕ → Bool
is_nearer_up n r v = ltb v (2 * r) || (2 * r == v && n % 2 == 1)

pub same-sub_ℕ : (a b c : ℕ) → same_ℤ (sub_ℕ a c) (sub_ℕ b c) ≡ (a == b)
unfolding same_ℤ
same-sub_ℕ a b c = rw (ltb-sub_ℕ a c b c, ltb-sub_ℕ b c a c) (ground arith)

absolute-Exactly :
    (y : ℕ)
    → y < 2 ^ 64
    → magnitude y < inf_bits
    → Exactly (if sign_of y == 0 then y else neg y) 0 (units y)
absolute-Exactly y h l = elim (Bool-cases (sign_of y == 0)) [
  | inl e ↦ rw e (record { finite = l; fits = h; sign = ground arith; value = refl })
  | inr e ↦
      let s : sign_of y ≡ 1 = ground arith in
      rw e (record {
        finite = omega arith;
        fits = omega arith;
        sign = omega arith;
        value = units-neg y h;
      })
]

-- How the exponents of the remainder and the divisor place them.
abbrev pub Placed : ℕ → ℕ → ℕ → ℕ → Type 0
Placed e ey r v =
    ((e ≡ ey) × (v < 2 * r)) ⊎ (((e + 1 ≡ ey) × (2 * r < 2 ^ 2098)) ⊎ ((e + 1 < ey) × (2 * r < v)))

-- `ex == ey || (ex+1 == ey && (2*x > y || (2*x == y && q%2)))`
abbrev pub nearer : Operand → ℤ → ℕ → ℕ → Bool
nearer t ey y q =
    let twice = power 0x400 ⊗ rescale t in
    same_ℤ t.exponent ey
    || (same_ℤ (t.exponent -ℤ negsuc 0) ey && (less y twice || (equal twice y && q % 2 == 1)))

nearer_lem :
    (t : Operand) (e ey y n r v : ℕ)
    → t.exponent ≡ sub_ℕ e 63
    → Exactly (rescale t) 0 r
    → Exactly y 0 v
    → Placed e ey r v
    → nearer t (sub_ℕ ey 63) y (n % 2 ^ 32) ≡ is_nearer_up n r v
nearer_lem t e ey y n r v at x w p =
    let same : same_ℤ t.exponent (sub_ℕ ey 63) ≡ (e == ey) =
      ap (λ (i : ℤ). same_ℤ i (sub_ℕ ey 63)) at ∙ same-sub_ℕ e ey 63 in
    let next : same_ℤ (t.exponent -ℤ negsuc 0) (sub_ℕ ey 63) ≡ (e + 1 == ey) =
      ap (λ (i : ℤ). same_ℤ (i -ℤ negsuc 0) (sub_ℕ ey 63)) at
      ∙ ap (λ (i : ℤ). same_ℤ i (sub_ℕ ey 63)) (sub-sub_ℕ e 63 0 1)
      ∙ same-sub_ℕ (e + 1) ey 63 in
    elim p [
      | inl (q, o) ↦
          let y1 : (e == ey) ≡ true = ground arith in
          let y2 : ltb v (2 * r) ≡ true = ground arith in rw (same, y1, y2) refl
      | inr (inl (q, o)) ↦
          let y1 : (e == ey) ≡ false = ground arith in
          let y2 : (e + 1 == ey) ≡ true = ground arith in
          let twice = double-Exactly (rescale t) 0 r (omega arith) o x in
          let a = Exactly-HasValue (power 0x400 ⊗ rescale t) 0 (r * 2) (omega arith) twice in
          let b = Exactly-HasValue y 0 v (omega arith) w in
          let lt = less-HasValue y (power 0x400 ⊗ rescale t) v 0 (r * 2) 0 b a in
          let eq = equal-HasValue (power 0x400 ⊗ rescale t) y (r * 2) 0 v 0 a b in
          let lt' : ltb (v + 0) (r * 2 + 0) ≡ ltb v (2 * r) = ground arith in
          let eq' : (r * 2 + 0 == v + 0) ≡ (2 * r == v) = ground arith in
          let odd : n % 2 ^ 32 % 2 ≡ n % 2 = omega arith in
          rw (same, next, y1, y2, lt, eq, lt', eq', odd) refl
      | inr (inr (q, o)) ↦
          let y1 : (e == ey) ≡ false = ground arith in
          let y2 : (e + 1 == ey) ≡ false = ground arith in
          let y3 : ltb v (2 * r) ≡ false = ground arith in
          let y4 : (2 * r == v) ≡ false = ground arith in rw (same, next, y1, y2, y3, y4) refl
    ]

-- The whole number nearest to n + r / v, of two the even one.
abbrev pub nearest_multiple : ℕ → ℕ → ℕ → ℕ
nearest_multiple n r v = if is_nearer_up n r v then n + 1 else n

-- The remainder, or what it takes to the next multiple.
rest-HasValue :
    (x y u n r v : ℕ) (b : Bool)
    → Exactly x 0 r
    → Exactly y 0 v
    → u ≡ n * v + r
    → r < v
    → (b ≡ true → Representable (v - r))
    → HasValue (if b then x ⊖ y else x) u ((if b then n + 1 else n) * v)
rest-HasValue x y u n r v true p q e h rep =
    let a = Exactly-HasValue x 0 r (omega arith) p in
    let c = Exactly-HasValue y 0 v (omega arith) q in
    let d : v - r ≡ r + 0 - (0 + v) + (0 + v - (r + 0)) = omega arith in
    let up : (n + 1) * v ≡ n * v + v = grind arith in
    HasValue-eq (x ⊖ y) (r + 0) (0 + v) u ((n + 1) * v) (omega arith)
      (sub-HasValue x y r 0 v 0 a c (Representable-eq _ _ d (rep refl)))
rest-HasValue x y u n r v false p q e h rep =
    HasValue-eq x r 0 u (n * v) (omega arith) (Exactly-HasValue x 0 r (omega arith) p)

nearer-half : (n r v : ℕ) → is_nearer_up n r v ≡ true → v ≤ 2 * r
nearer-half n r v h = ground arith

wrapped :
    (b : Bool) (n : ℕ)
    → (if b then n % 2 ^ 32 + 1 else n % 2 ^ 32) % 2 ^ 31 ≡ (if b then n + 1 else n) % 2 ^ 31
wrapped true n = omega arith
wrapped false n = omega arith

-- From `end:` on.
pub finish_lem :
    (sx y e ey u n r : ℕ) (t : Operand)
    → y < 2 ^ 64
    → magnitude y < inf_bits
    → t.exponent ≡ sub_ℕ e 63
    → Exactly (rescale t) 0 r
    → u ≡ n * units y + r
    → r < units y
    → Placed e ey r (units y)
    → (units y ≤ 2 * r → Representable (units y - r))
    → let z = finish sx y t (sub_ℕ ey 63) (n % 2 ^ 32) in
      let m = nearest_multiple n r (units y) in
      HasValue z.value (if sx == 0 then u else m * units y) (if sx == 0 then m * units y else u)
      × (z.quo ≡ (if sx == sign_of y then pos (m % 2 ^ 31) else sub_ℕ 0 (m % 2 ^ 31)))
unfolding finish
finish_lem sx y e ey u n r t h l at x sum below place rep =
    let v = units y in
    let y' = if sign_of y == 0 then y else neg y in
    let w = absolute-Exactly y h l in
    let near = nearer_lem t e ey y' n r v at x w place in
    let b = is_nearer_up n r v in
    let rep' = λ (g : b ≡ true). rep (nearer-half n r v g) in
    let value = rest-HasValue (rescale t) y' u n r v b x w sum below rep' in
    let quotient : (if b then n % 2 ^ 32 + 1 else n % 2 ^ 32) % 2 ^ 31
        ≡ (if b then n + 1 else n) % 2 ^ 31 =
      wrapped b n in
    rw (near, quotient)
      (
        elim (Bool-cases (sx == 0)) [
          | inl s ↦ rw s value
          | inr s ↦ rw s (neg-HasValue _ u (nearest_multiple n r v * v) value)
        ],
        refl,
      )
