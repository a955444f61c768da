-- ===== src/Libm/Fma/Round.antt =====
-- libm/src/musl/fma.c: from the 128-bit sum to the double.
use wasm_cxx_shim.Prelude.{
  ℕ, ◌+◌, ◌*◌, ◌^◌, ◌≤◌, ◌<◌, ◌≡◌, Bool, ltb, ◌==◌, arith, Bool-cases, inl, inr, sym, ap, ◌∙◌, refl,
  true, false, not,
}
use native.Mathlib.Nat.{pow-le-pow_right, lt_of_lt_of_le}
use wasm_cxx_shim.Prelude.Int.{ℤ, sub_ℕ}
use wasm_cxx_shim.Libm.Double.{rounded, signed}
use wasm_cxx_shim.Libm.Double.Length.{pow-add}
use wasm_cxx_shim.Libm.Double.Exact.{mul_mono, power_lt}
use wasm_cxx_shim.Libm.Double.Odd.{odd_shift, odd_shift-below, cut, odd_shift-cases}
use wasm_cxx_shim.Libm.Double.Odd.Rounded.{rounded-odd_shift}
use wasm_cxx_shim.Libm.Fma.{Sum, top_bits, to_double}
use wasm_cxx_shim.Libm.Fma.Wide.{wide}
use wasm_cxx_shim.Libm.Fma.Convert.{sign_bit, product_fits}
use wasm_cxx_shim.Libm.Fma.Convert.ToDouble.{to_double_lem}
use wasm_cxx_shim.Libm.Fma.TopBits.{IsTop, top_bits-high, top_bits-low}
use wasm_cxx_shim.Libm.Fma.Align.{Traces}

-- A sum that top_bits takes.
pub record IsSum (s : Sum) : Type 0 where
  pub high : s.rhi < 2 ^ 63
  pub low : s.rlo < 2 ^ 64
  pub some : 0 < wide s.rhi s.rlo
  pub test : s.nonzero ≡ not (s.rhi == 0)

pub top_bits-IsTop :
    (s : Sum) (f : ℕ)
    → IsSum s
    → 64 ≤ f
    → IsTop (wide s.rhi s.rlo) f (top_bits s (sub_ℕ f 2342)).0 (top_bits s (sub_ℕ f 2342)).1
top_bits-IsTop s f v h =
    let some = v.some in
    let g = v.test in
    elim (Bool-cases (s.rhi == 0)) [
      | inl e ↦
          let nz : s.nonzero ≡ false = g ∙ ap not e in
          let z : s.rhi ≡ 0 = ground arith in top_bits-low s f nz z (omega arith) v.low h
      | inr e ↦
          let nz : s.nonzero ≡ true = g ∙ ap not e in
          top_bits-high s f nz (ground arith) v.high v.low
    ]

-- A shift that leaves 62 digits is a short one.
short_shift : (n u : ℕ) → 0 < n → n < 2 ^ 127 → 2 ≤ odd_shift n u → u < 127
short_shift n u h l m = elim (Bool-cases (ltb u 127)) [
  | inl e ↦ ground arith
  | inr e ↦
      let p : 2 ^ 127 ≤ 2 ^ u =
        pow-le-pow_right {n = 2} (omega arith) {i = 127} {j = u} (ground arith) in
      let t = odd_shift-below n u h (lt_of_lt_of_le l p) in absurd (omega arith)
]

-- One that leaves 63 digits of a large number is a long one.
long_shift : (n u k : ℕ) → 2 ^ (63 + k) ≤ n → odd_shift n u < 2 ^ 63 → k ≤ u
long_shift n u k h l =
    let c = cut n u in
    let a = c.head in
    let b = c.below in
    let w = c.whole in
    let small : a < 2 ^ 63 = elim (odd_shift-cases n u c) [
      | inl (z, f, o) ↦ omega arith
      | inr (z, o) ↦ omega arith
    ] in
    let t = mul_mono (2 ^ u) (a + 1) (2 ^ 63) (omega arith) in
    let t' : (a + 1) * 2 ^ u ≡ a * 2 ^ u + 2 ^ u = grind arith in
    let p : 2 ^ (63 + u) ≡ 2 ^ 63 * 2 ^ u = pow-add 63 u in
    let q = power_lt (63 + k) (63 + u) (omega arith) in omega arith

wide_bound : (hi lo : ℕ) → hi < 2 ^ 63 → lo < 2 ^ 64 → wide hi lo < 2 ^ 127
wide_bound hi lo h l = omega arith

-- The conversion of what top_bits gives.
top-double :
    (b : Bool) (n f top : ℕ) (e : ℤ)
    → 0 < n
    → n < 2 ^ 127
    → f ≤ 5000
    → (t : IsTop n f top e)
    → (to_double top b e ≡ signed (sign_bit b) (rounded 1268 (top * 2 ^ t.exponent)))
      × (t.exponent ≤ 6000)
top-double b n f top e some h l t =
    let low = t.low in
    let bound : t.exponent ≤ 6000 = elim t.bits [
      | inl (o, x) ↦ let u = short_shift n t.shift some h (omega arith) in omega arith
      | inr (o, p, x) ↦ omega arith
    ] in
    (rw t.at (to_double_lem b top t.exponent t.low t.high bound), bound)

-- A sum in which no digit was lost.
pub sum-exact :
    (b : Bool) (s : Sum) (f : ℕ)
    → IsSum s
    → 64 ≤ f
    → f ≤ 5000
    → to_double (top_bits s (sub_ℕ f 2342)).0 b (top_bits s (sub_ℕ f 2342)).1
      ≡ signed (sign_bit b) (rounded 1268 (wide s.rhi s.rlo * 2 ^ f))
sum-exact b s f v h l =
    let n = wide s.rhi s.rlo in
    let t = top_bits-IsTop s f v h in
    let top = (top_bits s (sub_ℕ f 2342)).0 in
    let small = wide_bound s.rhi s.rlo v.high v.low in
    let (d, bound) = top-double b n f top (top_bits s (sub_ℕ f 2342)).1 v.some small l t in
    let low = t.low in
    let high = t.high in
    let same : rounded 1268 (top * 2 ^ t.exponent) ≡ rounded 1268 (n * 2 ^ f) = elim t.bits [
      | inl (o, x) ↦
          let fits : odd_shift n t.shift * 2 ^ (f + t.shift) < 2 ^ 8191 =
            product_fits (odd_shift n t.shift) (f + t.shift) (omega arith) (omega arith) in
          let r =
            rounded-odd_shift n t.shift f 1268 (product_fits n f (omega arith) (omega arith)) fits
              (omega arith) (inr (omega arith)) in
          rw (o, x) (sym r)
      | inr (o, p, x) ↦
          let e : n * 2 ^ t.shift * 2 ^ t.exponent ≡ n * 2 ^ f =
            rw (sym x, pow-add t.exponent t.shift) (grind arith) in
          rw (p, e) refl
    ] in
    d ∙ ap (signed (sign_bit b)) same

-- A sum that has traces of `m`.
pub sum-Traces :
    (b : Bool) (s : Sum) (m base k least : ℕ)
    → IsSum s
    → 64 ≤ base
    → base + k ≤ 5000
    → m * 2 ^ base < 2 ^ 8191
    → 2 ^ (63 + least) ≤ wide s.rhi s.rlo
    → Traces (wide s.rhi s.rlo) m k least
    → to_double (top_bits s (sub_ℕ (base + k) 2342)).0 b (top_bits s (sub_ℕ (base + k) 2342)).1
      ≡ signed (sign_bit b) (rounded 1268 (m * 2 ^ base))
sum-Traces b s m base k least v h l fits large traces =
    let f = base + k in
    let n = wide s.rhi s.rlo in
    let t = top_bits-IsTop s f v (omega arith) in
    let top = (top_bits s (sub_ℕ f 2342)).0 in
    let small = wide_bound s.rhi s.rlo v.high v.low in
    let (d, bound) = top-double b n f top (top_bits s (sub_ℕ f 2342)).1 v.some small l t in
    let low = t.low in
    let high = t.high in
    let same : rounded 1268 (top * 2 ^ t.exponent) ≡ rounded 1268 (m * 2 ^ base) = elim t.bits [
      | inl (o, x) ↦
          let u = t.shift in
          let long = long_shift n u least large (rw o at high) in
          let trace = traces u long in
          let e : base + (k + u) ≡ t.exponent = omega arith in
          let o' : odd_shift m (k + u) ≡ top = sym (o ∙ trace) in
          let fits' : odd_shift m (k + u) * 2 ^ (base + (k + u)) < 2 ^ 8191 =
            product_fits (odd_shift m (k + u)) (base + (k + u)) (omega arith) (omega arith) in
          let r =
            rounded-odd_shift m (k + u) base 1268 fits fits' (omega arith) (inr (omega arith)) in
          sym (r ∙ rw (o', e) refl)
      | inr (o, p, x) ↦
          let q : 2 ^ 63 ≤ 2 ^ (63 + least) =
            pow-le-pow_right {n = 2} (omega arith) {i = 63} {j = 63 + least} (omega arith) in
          absurd (omega arith)
    ] in
    d ∙ ap (signed (sign_bit b)) same
