-- ===== src/Libm/Fma/Align/Far.antt =====
-- libm/src/musl/fma.c: an addend more than 2 ^ 64 times as coarse as the product.
use wasm_cxx_shim.Prelude.{
  ℕ, ◌+◌, ◌-◌, ◌*◌, ◌/◌, ◌%◌, ◌^◌, ◌≤◌, ◌<◌, ◌≡◌, ltb, ◌==◌, arith, Bool-cases, inl, inr, sym, ap,
  bit_or, ◌∙◌, refl, true, false,
}
use native.Mathlib.Nat.{
  mul_comm, div-le_self, one-le-pow, div-lt_iff_lt-mul, div-add-mod', mod-lt, pow-le-pow_right,
}
use wasm_cxx_shim.Prelude.Bits.{bit_or-shifted, bit_or_comm}
use wasm_cxx_shim.Prelude.Int.{pos, sub_ℕ, ◌-ℤ◌}
use wasm_cxx_shim.Libm.Double.Length.{pow-add}
use wasm_cxx_shim.Libm.Double.Exact.{mul_mono, pow-power}
use wasm_cxx_shim.Libm.Double.Odd.{
  odd_shift, odd_shift-add, odd_shift-rsub, odd_shift-below, odd_shift-bound,
}
use wasm_cxx_shim.Libm.Fma.{Num, align, shift_left, shift_sticky}
use wasm_cxx_shim.Libm.Fma.Wide.{wide}
use wasm_cxx_shim.Libm.Fma.Bits.{shift_left_lem, shift_sticky_lem}
use wasm_cxx_shim.Libm.Fma.TopBits.{power_next, two_parts, sub_exponent, d_and_u, wide-split}
use wasm_cxx_shim.Libm.Fma.Align.{Aligns, Traces-sum, Traces-difference, Traces-from}

odd_shift-fits : (lo k : ℕ) → 1 ≤ k → k < 64 → lo < 2 ^ 64 → odd_shift lo k < 2 ^ (64 - k)
unfolding odd_shift
odd_shift-fits lo k h l m =
    let e : 2 ^ (64 - k) ≡ 2 * 2 ^ (63 - k) = power_next (64 - k) (63 - k) (omega arith) in
    let p : 2 ^ (64 - k) * 2 ^ k ≡ 2 ^ 64 = pow-power 64 k (omega arith) in
    let t : lo / 2 ^ k < 2 ^ (64 - k) =
      (div-lt_iff_lt-mul (one-le-pow k 2 (omega arith))).1 (omega arith) in
    ground arith

-- The two halves of the product, shifted to the right.
shifted_halves :
    (hi lo k : ℕ)
    → 1 ≤ k
    → k < 64
    → lo < 2 ^ 64
    → (wide (hi / 2 ^ k) (bit_or (shift_left hi (64 - k)) (shift_sticky lo k))
        ≡ odd_shift (wide hi lo) k)
      × (bit_or (shift_left hi (64 - k)) (shift_sticky lo k) < 2 ^ 64)
shifted_halves hi lo k h l m =
    let u = 64 - k in
    let q = odd_shift lo k in
    let p = 2 ^ k in
    let small = odd_shift-fits lo k h l m in
    let e : 64 - u ≡ k = omega arith in
    let s : shift_left hi u ≡ hi % p * 2 ^ u = rw e at (shift_left_lem hi u (omega arith)) in
    let join : bit_or (hi % p * 2 ^ u) q ≡ q + hi % p * 2 ^ u =
      bit_or_comm (hi % p * 2 ^ u) q ∙ bit_or-shifted u q (hi % p) small in
    let split : p * 2 ^ u ≡ 2 ^ 64 = d_and_u k (omega arith) in
    let parts = div-add-mod' hi p in
    let rest =
      mul_mono (2 ^ u) (hi % p + 1) p (omega (arith, mod-lt hi (one-le-pow k 2 (omega arith)))) in
    let rest' : (hi % p + 1) * 2 ^ u ≡ hi % p * 2 ^ u + 2 ^ u = grind arith in
    let split' : 2 ^ u * p ≡ 2 ^ 64 = pow-power 64 k (omega arith) in
    let w : wide hi lo ≡ lo + hi * 2 ^ u * 2 ^ k = wide-split hi lo (2 ^ u) p split' in
    let v : 2 ^ u ≡ 2 * 2 ^ (63 - k) = power_next u (63 - k) (omega arith) in
    let v' : hi * 2 ^ u ≡ 2 * (hi * 2 ^ (63 - k)) = rw v (grind arith) in
    let even : hi * 2 ^ u % 2 ≡ 0 = omega arith in
    let t = odd_shift-add lo k (hi * 2 ^ u) even in
    let x : hi * 2 ^ u ≡ hi / p * 2 ^ 64 + hi % p * 2 ^ u =
      two_parts hi (hi / p) (hi % p) p (2 ^ u) split (sym parts) in
    rw (s, shift_sticky_lem lo k m (omega arith), join, w, t) (omega arith, omega arith)

-- The product is below the addend, before and after.
coarse_order :
    (r q m p : ℕ)
    → r < 2 ^ 108
    → 2 ^ 53 ≤ m
    → 1 ≤ p
    → q < 2 ^ 109
    → let z = m * 2 ^ 64 in
      (ltb q z ≡ true)
      × (ltb r (z * p) ≡ true)
      × (r ≤ z * p)
      × (2 ^ 113 ≤ q + z)
      × (2 ^ 113 ≤ z - q)
coarse_order r q m p h l o k =
    let t = mul_mono (m * 2 ^ 64) 1 p o in
    let c : p * (m * 2 ^ 64) ≡ m * 2 ^ 64 * p = mul_comm p (m * 2 ^ 64) in
    (ground arith, ground arith, omega arith, omega arith, omega arith)

far_product : (m k : ℕ) → m * 2 ^ 64 * 2 ^ k ≡ m * 2 ^ 14 * 2 ^ (k + 50)
far_product m k = rw (pow-add k 50) (grind arith)

coarse_product : (m d : ℕ) → 64 ≤ d → m * 2 ^ d ≡ m * 2 ^ 64 * 2 ^ (d - 64)
coarse_product m d h =
    let e : d ≡ 64 + (d - 64) = omega arith in
    ap (λ (i : ℕ). m * 2 ^ i) e ∙ rw (pow-add 64 (d - 64)) (grind arith)

far_sum :
    (r m k : ℕ)
    → 0 < r
    → r < 2 ^ 108
    → 64 ≤ k
    → (odd_shift (1 + m * 2 ^ 64) 50 ≡ odd_shift (r + m * 2 ^ 64 * 2 ^ k) (k + 50))
far_sum r m k h l o =
    let z = m * 2 ^ 14 in
    let even : z % 2 ≡ 0 = omega arith in
    let e : m * 2 ^ 64 ≡ z * 2 ^ 50 = omega arith in
    let f : m * 2 ^ 64 * 2 ^ k ≡ z * 2 ^ (k + 50) = far_product m k in
    let p : 2 ^ 108 ≤ 2 ^ (k + 50) =
      pow-le-pow_right {n = 2} (omega arith) {i = 108} {j = k + 50} (omega arith) in
    rw
      (
        f,
        e,
        odd_shift-add 1 50 z even,
        odd_shift-add r (k + 50) z even,
        odd_shift-below r (k + 50) h (omega arith),
      )
      (ap (λ (i : ℕ). i + z) (odd_shift-below 1 50 (omega arith) (omega arith)))

far_difference :
    (r m k : ℕ)
    → 0 < r
    → r < 2 ^ 108
    → 64 ≤ k
    → 2 ^ 53 ≤ m
    → (odd_shift (m * 2 ^ 64 - 1) 50 ≡ odd_shift (m * 2 ^ 64 * 2 ^ k - r) (k + 50))
far_difference r m k h l o n =
    let z = m * 2 ^ 14 in
    let even : z % 2 ≡ 0 = omega arith in
    let e : m * 2 ^ 64 ≡ z * 2 ^ 50 = omega arith in
    let f : m * 2 ^ 64 * 2 ^ k ≡ z * 2 ^ (k + 50) = far_product m k in
    let p : 2 ^ 108 ≤ 2 ^ (k + 50) =
      pow-le-pow_right {n = 2} (omega arith) {i = 108} {j = k + 50} (omega arith) in
    let low = mul_mono (2 ^ (k + 50)) 1 z (omega arith) in
    rw
      (
        f,
        e,
        odd_shift-rsub 1 50 z even (omega arith),
        odd_shift-rsub r (k + 50) z even (omega arith),
        odd_shift-below r (k + 50) h (omega arith),
      )
      (ap (λ (i : ℕ). z - i) (odd_shift-below 1 50 (omega arith) (omega arith)))

pub coarse-Aligns :
    (rhi rlo f g : ℕ) (nz : Num)
    → rhi < 2 ^ 44
    → rlo < 2 ^ 64
    → 2 ^ 106 ≤ wide rhi rlo
    → 2 ^ 53 ≤ nz.m
    → nz.m < 2 ^ 54
    → nz.e ≡ sub_ℕ g 2342
    → 64 < g - f
    → g ≤ 5000
    → Aligns (wide rhi rlo) (nz.m * 2 ^ (g - f)) f (align rhi rlo nz (sub_ℕ f 2342) (pos (g - f)))
unfolding align
coarse-Aligns rhi rlo f g nz h l big m m' e d most =
    let r = wide rhi rlo in
    let k = g - f - 64 in
    let z = nz.m * 2 ^ 64 in
    let pos_k = one-le-pow k 2 (omega arith) in
    let far : sub_ℕ g 2342 -ℤ pos 64 ≡ sub_ℕ (f + k) 2342 =
      sub_exponent g 64 (f + k) (omega arith) in
    let q : nz.m * 2 ^ (g - f) ≡ z * 2 ^ k = coarse_product nz.m (g - f) (omega arith) in
    let n0 : (g - f == 0) ≡ false = ground arith in
    let n1 : ltb (g - f) 64 ≡ false = ground arith in
    let n2 : (k == 0) ≡ false = ground arith in
    let w : wide nz.m 0 ≡ z = omega arith in
    elim (Bool-cases (ltb k 64)) [
      | inl y ↦
          let (s, t) = shifted_halves rhi rlo k (omega arith) (ground arith) l in
          let b = odd_shift-bound r k 108 (omega arith) in
          let (lt, lt', le, big', big'') =
            coarse_order r (odd_shift r k) nz.m (2 ^ k) (omega arith) m pos_k b in
          let hi = div-le_self rhi (2 ^ k) in
          rw (n0, n1, n2, y)
            (record {
              rhi = omega arith;
              rlo = t;
              zhi = omega arith;
              zlo = omega arith;
              up = k;
              least = 0;
              at = rw e far;
              near = omega arith;
              order = rw (s, w, q, lt, lt') refl;
              sum_large = rw (s, w) (omega arith);
              large = inr (rw (s, w) (omega arith), rw (s, w, lt) (omega arith));
              same = rw (s, w, q) (Traces-sum r z k (omega arith));
              opposite = rw (s, w, q, lt, lt') (Traces-difference r z k (omega arith) le);
            })
      | inr y ↦
          let (lt, lt', le, big', big'') =
            coarse_order r 1 nz.m (2 ^ k) (omega arith) m pos_k (omega arith) in
          let one : wide 0 1 ≡ 1 = refl in
          rw (n0, n1, n2, y)
            (record {
              rhi = omega arith;
              rlo = omega arith;
              zhi = omega arith;
              zlo = omega arith;
              up = k;
              least = 50;
              at = rw e far;
              near = omega arith;
              order = rw (w, q, lt, lt') refl;
              sum_large = rw w (omega arith);
              large = inr (rw w (omega arith), rw (w, lt) (omega arith));
              same =
                  rw (w, q)
                    (Traces-from _ _ k 50
                      (far_sum r nz.m k (omega arith) (omega arith) (ground arith)));
              opposite =
                  rw (w, q, lt, lt')
                    (Traces-from _ _ k 50
                      (far_difference r nz.m k (omega arith) (omega arith) (ground arith) m));
            })
    ]
