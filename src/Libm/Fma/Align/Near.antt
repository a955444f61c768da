-- ===== src/Libm/Fma/Align/Near.antt =====
-- libm/src/musl/fma.c: an addend up to 2 ^ 64 times as coarse as the product, and a finer one.
use wasm_cxx_shim.Prelude.{
  ℕ, suc, ◌+◌, ◌-◌, ◌*◌, ◌/◌, ◌%◌, ◌^◌, ◌≤◌, ◌<◌, ◌≡◌, ltb, ◌==◌, arith, Bool-cases, inl, inr, sym,
  ap, refl, false, if◌then◌else◌,
}
use native.Mathlib.Nat.{one-le-pow, div-add-mod', div-le_self, pow-le-pow_right}
use wasm_cxx_shim.Prelude.Int.{pos, negsuc, sub_ℕ, ◌-ℤ◌}
use wasm_cxx_shim.Libm.Double.Exact.{mul_mono, pow-power}
use wasm_cxx_shim.Libm.Double.Odd.{odd_shift, odd_shift-below, odd_shift-bound}
use wasm_cxx_shim.Libm.Fma.{Num, align, shift_left, shift_sticky}
use wasm_cxx_shim.Libm.Fma.Wide.{wide}
use wasm_cxx_shim.Libm.Fma.Bits.{shift_left_lem, shift_sticky_lem}
use wasm_cxx_shim.Libm.Fma.TopBits.{sub_exponent, two_parts}
use wasm_cxx_shim.Libm.Fma.Align.{Aligns, exact-Aligns, Traces-sum, Traces-difference}

-- The two halves of `m << d`.
halves :
    (m d : ℕ)
    → m < 2 ^ 54
    → d < 64
    → (wide (m / 2 ^ (64 - d)) (shift_left m d) ≡ m * 2 ^ d) × (m / 2 ^ (64 - d) < 2 ^ 62)
halves m d h l =
    let p = 2 ^ (64 - d) in
    let e : p * 2 ^ d ≡ 2 ^ 64 = pow-power 64 d (omega arith) in
    let parts = div-add-mod' m p in
    let s = shift_left_lem m d (omega arith) in
    let t : m / p ≤ m = div-le_self m p in
    (rw s (sym (two_parts m (m / p) (m % p) p (2 ^ d) e (sym parts))), omega arith)

-- `d` is 0 to 64.
pub near-Aligns :
    (rhi rlo f g : ℕ) (nz : Num)
    → rhi < 2 ^ 44
    → rlo < 2 ^ 64
    → 2 ^ 106 ≤ wide rhi rlo
    → nz.m < 2 ^ 54
    → nz.e ≡ sub_ℕ g 2342
    → f ≤ g
    → g - f ≤ 64
    → g ≤ 5000
    → Aligns (wide rhi rlo) (nz.m * 2 ^ (g - f)) f (align rhi rlo nz (sub_ℕ f 2342) (pos (g - f)))
unfolding align
near-Aligns rhi rlo f g nz h l big m e o d most = elim (Bool-cases (g - f == 0)) [
  | inl z ↦
      let z' : g - f ≡ 0 = ground arith in
      rw z' (
        exact-Aligns (wide rhi rlo) (nz.m * 2 ^ 0) f _ (omega arith) l (omega arith) (omega arith)
          refl refl (omega arith) (omega arith) (omega arith))
  | inr z ↦ elim (Bool-cases (ltb (g - f) 64)) [
    | inl y ↦
        let (w, t) = halves nz.m (g - f) m (ground arith) in
        rw (z, y)
          (exact-Aligns (wide rhi rlo) (nz.m * 2 ^ (g - f)) f _ (omega arith) l t (omega arith) refl
            refl w (omega arith) (omega arith))
    | inr y ↦
        let all : g - f ≡ 64 = ground arith in
        let far : sub_ℕ g 2342 -ℤ pos 64 ≡ sub_ℕ f 2342 = sub_exponent g 64 f (omega arith) in
        rw all (
          exact-Aligns (wide rhi rlo) (nz.m * 2 ^ 64) f _ (omega arith) l (omega arith)
            (omega arith) (rw e far) refl (omega arith) (omega arith) (omega arith))
  ]
]

fine_digits :
    (m d : ℕ)
    → 0 < m
    → m < 2 ^ 54
    → 1 ≤ d
    → ((if ltb d 64 then shift_sticky m d else 1) ≡ odd_shift m d) × (odd_shift m d < 2 ^ 55)
fine_digits m d h l o = elim (Bool-cases (ltb d 64)) [
  | inl e ↦
      let t = shift_sticky_lem m d (omega arith) (ground arith) in
      (rw e t, odd_shift-bound m d 54 l)
  | inr e ↦
      let p : 2 ^ 64 ≤ 2 ^ d =
        pow-le-pow_right {n = 2} (omega arith) {i = 64} {j = d} (ground arith) in
      let t = odd_shift-below m d h (omega arith) in rw (e, t) (refl, omega arith)
]

fine_order :
    (r m p d : ℕ)
    → 2 ^ 106 ≤ r
    → 1 ≤ p
    → m < 2 ^ 54
    → d < 2 ^ 55
    → (ltb r d ≡ false) × (ltb (r * p) m ≡ false) × (m ≤ r * p)
fine_order r m p d h o l k = let t = mul_mono r 1 p o in (ground arith, ground arith, omega arith)

-- The addend is the finer one.
pub fine-Aligns :
    (rhi rlo f g : ℕ) (nz : Num)
    → rhi < 2 ^ 44
    → rlo < 2 ^ 64
    → 2 ^ 106 ≤ wide rhi rlo
    → wide rhi rlo % 2 ≡ 0
    → 0 < nz.m
    → nz.m < 2 ^ 54
    → g < f
    → f ≤ 5000
    → Aligns
        (wide rhi rlo * 2 ^ (f - g))
        nz.m
        g
        (align rhi rlo nz (sub_ℕ f 2342) (negsuc (f - g - 1)))
unfolding align
fine-Aligns rhi rlo f g nz h l big even some m o most =
    let d = f - g in
    let r = wide rhi rlo in
    let q = odd_shift nz.m d in
    let s : suc (f - g - 1) ≡ d = omega arith in
    let up : g + d ≡ f = omega arith in
    let (digits, small) = fine_digits nz.m d some m (omega arith) in
    let (lt, lt', le) = fine_order r nz.m (2 ^ d) q big (one-le-pow d 2 (omega arith)) m small in
    let w : wide 0 q ≡ q = omega arith in
    let c : q + r ≡ r + wide 0 q = omega arith in
    let c' : nz.m + r * 2 ^ d ≡ r * 2 ^ d + nz.m = omega arith in
    rw (s, digits)
      (record {
        rhi = omega arith;
        rlo = l;
        zhi = omega arith;
        zlo = omega arith;
        up = d;
        least = 0;
        at = ap (λ (i : ℕ). sub_ℕ i 2342) (sym up);
        near = omega arith;
        order = rw (w, lt, lt') refl;
        sum_large = omega arith;
        large = inr (omega arith, rw (w, lt) (omega arith));
        same = rw (c, c') at (Traces-sum nz.m r d even);
        opposite = rw (w, lt, lt') (Traces-difference nz.m r d even le);
      })
