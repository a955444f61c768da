-- ===== src/Libm/Fma/Fused.antt =====
-- libm/src/musl/fma.c: from the product on.
use wasm_cxx_shim.Prelude.{
  ℕ, ◌+◌, ◌-◌, ◌*◌, ◌%◌, ◌^◌, ◌≤◌, ◌<◌, ◌≡◌, Bool, leb, ltb, ◌==◌, arith, Bool-cases, inl, inr, sym,
  ap, ◌∙◌, refl, false, not, ◌&&◌, if◌then◌else◌,
}
use native.Mathlib.Nat.{mul_assoc, one-le-pow}
use wasm_cxx_shim.Prelude.Int.{ℤ, pos, sub_ℕ}
use wasm_cxx_shim.Libm.Double.{rounded, signed}
use wasm_cxx_shim.Libm.Double.Length.{pow-add}
use wasm_cxx_shim.Libm.Double.Odd.{odd_shift, odd_shift-zero, odd_shift-positive}
use wasm_cxx_shim.Libm.Fma.{Num, Aligned, align, Sum, add_same, add_opposite, top_bits, to_double}
use wasm_cxx_shim.Libm.Fma.Wide.{wide, fma_sums}
use wasm_cxx_shim.Libm.Fma.Convert.{sign_bit}
use wasm_cxx_shim.Libm.Fma.Align.{distance, Aligns, Traces, Traces-same}
use wasm_cxx_shim.Libm.Fma.Align.Near.{near-Aligns, fine-Aligns}
use wasm_cxx_shim.Libm.Fma.Align.Far.{coarse-Aligns}
use wasm_cxx_shim.Libm.Fma.Round.{IsSum, sum-exact, sum-Traces}

-- The product `r` at the exponent f - 2342 and the addend at g - 2342, at a common one.
pub record Common (r f m g : ℕ) (a : Aligned) : Type 0 where
  pub p : ℕ
  pub q : ℕ
  pub base : ℕ
  pub least : 64 ≤ base
  pub product : p * 2 ^ base ≡ r * 2 ^ f
  pub addend : q * 2 ^ base ≡ m * 2 ^ g
  pub aligns : Aligns p q base a

raised : (n i j : ℕ) → i ≤ j → n * 2 ^ (j - i) * 2 ^ i ≡ n * 2 ^ j
raised n i j h =
    let e : j - i + i ≡ j = omega arith in
    mul_assoc n (2 ^ (j - i)) (2 ^ i)
    ∙ ap (λ (k : ℕ). n * k) (sym (pow-add (j - i) i) ∙ ap (λ (k : ℕ). 2 ^ k) e)

pub align-Common :
    (rhi rlo f g : ℕ) (nz : Num)
    → rhi < 2 ^ 44
    → rlo < 2 ^ 64
    → 2 ^ 106 ≤ wide rhi rlo
    → wide rhi rlo % 2 ≡ 0
    → 2 ^ 53 ≤ nz.m
    → nz.m < 2 ^ 54
    → nz.e ≡ sub_ℕ g 2342
    → 64 ≤ f
    → f ≤ 5000
    → 64 ≤ g
    → g ≤ 5000
    → Common (wide rhi rlo) f nz.m g (align rhi rlo nz (sub_ℕ f 2342) (sub_ℕ g f))
align-Common rhi rlo f g nz h l big even m m' e lf hf lg hg =
    let r = wide rhi rlo in
    elim (Bool-cases (leb f g)) [
      | inl y ↦
          let o : f ≤ g = ground arith in
          let aligns : Aligns r (nz.m * 2 ^ (g - f)) f
              (align rhi rlo nz (sub_ℕ f 2342) (pos (g - f))) =
            elim (Bool-cases (leb (g - f) 64)) [
              | inl d ↦ near-Aligns rhi rlo f g nz h l big m' e o (ground arith) hg
              | inr d ↦ coarse-Aligns rhi rlo f g nz h l big m m' e (ground arith) hg
            ] in
          rw y (record {
            p = r;
            q = nz.m * 2 ^ (g - f);
            base = f;
            least = lf;
            product = refl;
            addend = raised nz.m f g o;
            aligns = aligns;
          })
      | inr y ↦
          let o : g < f = ground arith in
          rw y (record {
            p = r * 2 ^ (f - g);
            q = nz.m;
            base = g;
            least = lg;
            product = raised r g f (omega arith);
            addend = refl;
            aligns = fine-Aligns rhi rlo f g nz h l big even (omega arith) m' o hf;
          })
    ]

same-IsSum : (p q base : ℕ) (a : Aligned) (b : Bool) → Aligns p q base a → IsSum (add_same a b)
unfolding add_same
same-IsSum p q base a b v =
    let h = v.rhi in
    let l = v.rlo in
    let h' = v.zhi in
    let l' = v.zlo in
    let large = v.sum_large in
    let (sum, sign, x, y) = fma_sums a b h h' l l' in
    record { high = omega arith; low = omega arith; some = omega arith; test = ground arith }

-- `set rhi to top 63bit of the result` and `convert to double`.
abbrev pub convert : Sum → Bool → ℤ → ℕ
convert s negative e = to_double (top_bits s e).0 negative (top_bits s e).1

-- With equal signs.
pub same-rounded :
    (p q base : ℕ) (a : Aligned) (b : Bool)
    → 64 ≤ base
    → (p + q) * 2 ^ base < 2 ^ 8191
    → Aligns p q base a
    → let s = add_same a b in
      convert s s.negative a.e ≡ signed (sign_bit b) (rounded 1268 ((p + q) * 2 ^ base))
same-rounded p q base a b h fits v =
    let s = add_same a b in
    let n = wide a.rhi a.rlo + wide a.zhi a.zlo in
    let (sum, sign, x, y) = fma_sums a b v.rhi v.zhi v.rlo v.zlo in
    let w = same-IsSum p q base a b v in
    let converted : convert s s.negative a.e ≡ convert s b (sub_ℕ (base + v.up) 2342) =
      ap (λ (c : Bool). convert s c a.e) sign ∙ ap (convert s b) v.at in
    let near = v.near in
    elim v.large [
      | inl (z, z') ↦
          let e : n ≡ p + q = Traces-same n (p + q) v.up v.least z z' v.same in
          let f : base + v.up ≡ base = omega arith in
          let t = sum-exact b s (base + v.up) w (omega arith) near in
          converted ∙ t ∙ rw (sum, e, f) refl
      | inr (large, o) ↦
          let traces : Traces (wide s.rhi s.rlo) (p + q) v.up v.least = rw sum v.same in
          let t = sum-Traces b s (p + q) base v.up v.least w h near fits (rw sum large) traces in
          converted ∙ t
    ]

opposite-low : (a : Aligned) (b : Bool) → (add_opposite a b).rlo < 2 ^ 64
unfolding add_opposite
opposite-low a b = ground arith

opposite-flag :
    (a : Aligned) (b : Bool) → (add_opposite a b).nonzero ≡ not ((add_opposite a b).rhi == 0)
unfolding add_opposite
opposite-flag a b = ground arith

-- The numbers are equal as they are aligned just where they are.
opposite-zero :
    (p q base : ℕ) (a : Aligned)
    → Aligns p q base a
    → (distance (wide a.rhi a.rlo) (wide a.zhi a.zlo) == 0) ≡ (p == q)
opposite-zero p q base a v =
    let n = distance (wide a.rhi a.rlo) (wide a.zhi a.zlo) in
    let order = v.order in
    elim v.large [
      | inl (z, z') ↦
          let e : n ≡ distance p q = Traces-same n (distance p q) v.up v.least z z' v.opposite in
          ground arith
      | inr (o, large) ↦
          let t = one-le-pow (63 + v.least) 2 (omega arith) in
          let some = odd_shift-positive n v.least (omega arith) in
          let trace = v.opposite v.least (omega arith) in
          let nothing = odd_shift-zero (v.up + v.least) in
          elim (Bool-cases (p == q)) [
            | inl e ↦
                let d : distance p q ≡ 0 = ground arith in
                let u : odd_shift (distance p q) (v.up + v.least) ≡ 0 =
                  ap (λ (i : ℕ). odd_shift i (v.up + v.least)) d ∙ nothing in
                absurd (omega arith)
            | inr e ↦ ground arith
          ]
    ]

opposite-IsSum :
    (p q base : ℕ) (a : Aligned) (b : Bool)
    → Aligns p q base a
    → 0 < wide (add_opposite a b).rhi (add_opposite a b).rlo
    → IsSum (add_opposite a b)
opposite-IsSum p q base a b v some =
    let h = v.rhi in
    let l = v.rlo in
    let h' = v.zhi in
    let l' = v.zlo in
    let (x, y, sum, sign) = fma_sums a b h h' l l' in
    let low = opposite-low a b in
    let flag = opposite-flag a b in
    record { high = ground arith; low = low; some = some; test = flag }

-- With unequal signs: the test for 0, and the sum with the sign of the larger.
pub opposite-rounded :
    (p q base : ℕ) (a : Aligned) (b : Bool)
    → 64 ≤ base
    → distance p q * 2 ^ base < 2 ^ 8191
    → Aligns p q base a
    → let s = add_opposite a b in
      ((not s.nonzero && s.rlo == 0) ≡ (p == q))
      × ((p == q) ≡ false
          → convert s s.negative a.e
            ≡ signed
                (sign_bit (if ltb p q then not b else b))
                (rounded 1268 (distance p q * 2 ^ base)))
opposite-rounded p q base a b h fits v =
    let s = add_opposite a b in
    let n = distance (wide a.rhi a.rlo) (wide a.zhi a.zlo) in
    let (x, y, sum, sign) = fma_sums a b v.rhi v.zhi v.rlo v.zlo in
    let near = v.near in
    let zero_n = opposite-zero p q base a v in
    let low = opposite-low a b in
    let flag = opposite-flag a b in
    (
      ground arith,
      λ (e : (p == q) ≡ false).
          let some : 0 < wide s.rhi s.rlo = ground arith in
          let w = opposite-IsSum p q base a b v some in
          let sign' : s.negative ≡ (if ltb p q then not b else b) =
            sign ∙ ap (λ (i : Bool). if i then not b else b) v.order in
          elim v.large [
            | inl (z, z') ↦
                let f : n ≡ distance p q =
                  Traces-same n (distance p q) v.up v.least z z' v.opposite in
                let g : base + v.up ≡ base = omega arith in
                let t = sum-exact s.negative s (base + v.up) w (omega arith) near in
                ap (convert s s.negative) v.at ∙ t ∙ rw (sum, f, g, sign') refl
            | inr (o, large) ↦
                let traces : Traces (wide s.rhi s.rlo) (distance p q) v.up v.least =
                  rw sum v.opposite in
                let t =
                  sum-Traces s.negative s (distance p q) base v.up v.least w h near fits
                    (rw sum large) traces in
                ap (convert s s.negative) v.at ∙ t ∙ rw sign' refl
          ],
    )
