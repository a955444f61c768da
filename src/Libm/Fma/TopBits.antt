-- ===== src/Libm/Fma/TopBits.antt =====
-- libm/src/musl/fma.c: the first 63 bits of the 128-bit sum.
use wasm_cxx_shim.Prelude.{
  ℕ, suc, ◌+◌, ◌-◌, ◌*◌, ◌/◌, ◌%◌, ◌^◌, ◌≤◌, ◌<◌, ◌≡◌, ◌⊎◌, Bool, ◌==◌, arith, Bool-cases, inl, inr,
  bit_or, sym, ap, ◌∙◌, refl, true, false, if◌then◌else◌,
}
use native.Mathlib.Nat.{
  one-le-pow, two-pow-succ, add-mul-div_right, add-mul-mod_self_right, div-lt_iff_lt-mul, mul_assoc,
  mod-eq_of_lt,
}
use wasm_cxx_shim.Prelude.Bits.{bit_or-shifted, bit_or_comm}
use wasm_cxx_shim.Prelude.Int.{ℤ, pos, sub_ℕ, ◌+ℤ◌, ◌-ℤ◌}
use wasm_cxx_shim.Prelude.Int.Sub.{sub_ℕ-eq, add-sub_ℕ, sub-sub_ℕ, pos-sub_ℕ}
use wasm_cxx_shim.Libm.Double.{bit_length}
use wasm_cxx_shim.Libm.Double.Length.{pow-add}
use wasm_cxx_shim.Libm.Double.Exact.{mul_mono, power_lt}
use wasm_cxx_shim.Libm.Double.Scale.{length_lem}
use wasm_cxx_shim.Libm.Double.Odd.{odd_shift}
use wasm_cxx_shim.Libm.Fma.{Sum, clz, shift_left, top_bits}
use wasm_cxx_shim.Libm.Fma.Wide.{wide}
use wasm_cxx_shim.Libm.Fma.Bits.{shift_left_lem, sticky-flag, half_sticky}

-- The exponent that follows a shift.
pub raise_exponent : (f a b g : ℕ) → f + a ≡ g + b → sub_ℕ f 2342 +ℤ pos a -ℤ pos b ≡ sub_ℕ g 2342
raise_exponent f a b g h =
    rw (pos-sub_ℕ a, pos-sub_ℕ b, add-sub_ℕ f 2342 a 0, sub-sub_ℕ (f + a) (2342 + 0) b 0)
      (sub_ℕ-eq _ _ g 2342 (omega arith))

pub add_exponent : (f a g : ℕ) → f + a ≡ g → sub_ℕ f 2342 +ℤ pos a ≡ sub_ℕ g 2342
add_exponent f a g h = rw (pos-sub_ℕ a, add-sub_ℕ f 2342 a 0) (sub_ℕ-eq _ _ g 2342 (omega arith))

pub sub_exponent : (f b g : ℕ) → f ≡ g + b → sub_ℕ f 2342 -ℤ pos b ≡ sub_ℕ g 2342
sub_exponent f b g h = rw (pos-sub_ℕ b, sub-sub_ℕ f 2342 b 0) (sub_ℕ-eq _ _ g 2342 (omega arith))

-- The digits of a half, and the shift that brings the first one to bit 62.
half_digits :
    (n : ℕ)
    → 0 < n
    → n < 2 ^ 64
    → (2 ^ bit_length n ≤ 2 * n) × (n < 2 ^ bit_length n) × (1 ≤ bit_length n) × (bit_length n ≤ 64)
half_digits n h l =
    let v = length_lem n 64 (omega arith) l in
    let b = v.below in
    let least : 2 ^ bit_length n ≤ 2 * n = elim v.least [
      | inl e ↦ let one : 2 ^ bit_length n ≡ 1 = ap (λ (i : ℕ). 2 ^ i) e in absurd (omega arith)
      | inr e ↦ e
    ] in
    let c = power_lt (bit_length n) 65 (omega arith) in
    let d = power_lt 0 (bit_length n) (omega arith) in (least, b, d, omega arith)

pub power_next : (a b : ℕ) → a ≡ suc b → 2 ^ a ≡ 2 * 2 ^ b
power_next a b h = ap (λ (i : ℕ). 2 ^ i) h ∙ two-pow-succ b ∙ omega arith

pub d_and_u : (d : ℕ) → d ≤ 63 → 2 ^ d * 2 ^ (64 - d) ≡ 2 ^ 64
d_and_u d h =
    let e : d + (64 - d) ≡ 64 = omega arith in sym (pow-add d (64 - d)) ∙ ap (λ (i : ℕ). 2 ^ i) e

pub wide-split : (hi lo p q : ℕ) → p * q ≡ 2 ^ 64 → wide hi lo ≡ lo + hi * p * q
wide-split hi lo p q h =
    let e : hi * p * q ≡ hi * 2 ^ 64 = mul_assoc hi p q ∙ ap (λ (i : ℕ). hi * i) h in omega arith

pub two_parts : (m a b p q : ℕ) → p * q ≡ 2 ^ 64 → m ≡ a * p + b → m * q ≡ a * 2 ^ 64 + b * q
two_parts m a b p q h e =
    let t : (a * p + b) * q ≡ a * (p * q) + b * q = grind arith in
    let u : a * (p * q) ≡ a * 2 ^ 64 = ap (λ (i : ℕ). a * i) h in
    let v : m * q ≡ (a * p + b) * q = ap (λ (i : ℕ). i * q) e in omega arith

-- `hi * 2 ^ 64 + lo` without the last `64 - d` digits.
joined :
    (hi lo d : ℕ)
    → d ≤ 63
    → hi < 2 ^ (63 - d)
    → lo < 2 ^ 64
    → (bit_or (shift_left hi d) (lo / 2 ^ (64 - d)) ≡ hi * 2 ^ d + lo / 2 ^ (64 - d))
      × (lo / 2 ^ (64 - d) < 2 ^ d)
joined hi lo d h l m =
    let u = 64 - d in
    let e : 2 ^ u ≡ 2 * 2 ^ (63 - d) = power_next u (63 - d) (omega arith) in
    let split : 2 ^ d * 2 ^ u ≡ 2 ^ 64 = d_and_u d h in
    let low : lo / 2 ^ u < 2 ^ d =
      (div-lt_iff_lt-mul (one-le-pow u 2 (omega arith))).1 (omega arith) in
    let whole : hi % 2 ^ u ≡ hi = mod-eq_of_lt (omega arith) in
    let s : shift_left hi d ≡ hi * 2 ^ d =
      shift_left_lem hi d (omega arith) ∙ ap (λ (i : ℕ). i * 2 ^ d) whole in
    (
      rw s (
          bit_or_comm (hi * 2 ^ d) (lo / 2 ^ u)
          ∙ bit_or-shifted d (lo / 2 ^ u) hi low
          ∙ omega arith),
      low,
    )

wide-parts :
    (hi lo d : ℕ)
    → d ≤ 63
    → (wide hi lo / 2 ^ (64 - d) ≡ hi * 2 ^ d + lo / 2 ^ (64 - d))
      × (wide hi lo % 2 ^ (64 - d) ≡ lo % 2 ^ (64 - d))
wide-parts hi lo d h =
    let u = 64 - d in
    let p = one-le-pow u 2 (omega arith) in
    let split : 2 ^ d * 2 ^ u ≡ 2 ^ 64 = d_and_u d h in
    let e : wide hi lo ≡ lo + hi * 2 ^ d * 2 ^ u = wide-split hi lo (2 ^ d) (2 ^ u) split in
    rw e (
      add-mul-div_right lo (hi * 2 ^ d) p ∙ omega arith,
      add-mul-mod_self_right lo (hi * 2 ^ d) (2 ^ u),
    )

-- The bits and the exponent for a sum `n` at the exponent f - 2342: no digit is lost, or those that are
-- leave a trace in the last one.
pub record IsTop (n f top : ℕ) (e : ℤ) : Type 0 where
  pub low : 2 ^ 62 ≤ top
  pub high : top < 2 ^ 63
  pub exponent : ℕ
  pub at : e ≡ sub_ℕ exponent 2342
  pub shift : ℕ
  pub bits :
      ((top ≡ odd_shift n shift) × (exponent ≡ f + shift))
      ⊎ ((n < 2 ^ 63) × (top ≡ n * 2 ^ shift) × (exponent + shift ≡ f))

sixty_three :
    (hi c p l : ℕ)
    → hi < p
    → p ≤ 2 * hi
    → p * l ≡ 2 ^ 63
    → c < l
    → (2 ^ 62 ≤ hi * l + c) × (hi * l + c < 2 ^ 63)
sixty_three hi c p l h k e m =
    let a = mul_mono l (hi + 1) p (omega arith) in
    let b = mul_mono l p (2 * hi) k in
    let x : (hi + 1) * l ≡ hi * l + l = grind arith in
    let y : 2 * hi * l ≡ 2 * (hi * l) = grind arith in (omega arith, omega arith)

keep-bounds :
    (b : Bool) (a : ℕ)
    → 2 ^ 62 ≤ a
    → a < 2 ^ 63
    → (2 ^ 62 ≤ (if b then a else a / 2 * 2 + 1)) × ((if b then a else a / 2 * 2 + 1) < 2 ^ 63)
keep-bounds b a h l = (ground arith, ground arith)

pub top_bits-high :
    (s : Sum) (f : ℕ)
    → s.nonzero ≡ true
    → 0 < s.rhi
    → s.rhi < 2 ^ 63
    → s.rlo < 2 ^ 64
    → IsTop (wide s.rhi s.rlo) f (top_bits s (sub_ℕ f 2342)).0 (top_bits s (sub_ℕ f 2342)).1
unfolding top_bits odd_shift
top_bits-high s f nz h l m =
    let hi = s.rhi in
    let lo = s.rlo in
    let n = bit_length hi in
    let d = clz hi - 1 in
    let u = 64 - d in
    let (least, below, some, most) = half_digits hi h (omega arith) in
    let short : n < 64 = power_lt n 64 (omega arith) in
    let w : 63 - d ≡ n = omega arith in
    let below' : hi < 2 ^ (63 - d) = rw w below in
    let (j, low) = joined hi lo d (omega arith) below' m in
    let p : 2 ^ n * 2 ^ d ≡ 2 ^ 63 =
      let k : n + d ≡ 63 = omega arith in sym (pow-add n d) ∙ ap (λ (i : ℕ). 2 ^ i) k in
    let (first, last) = sixty_three hi (lo / 2 ^ u) (2 ^ n) (2 ^ d) below least p low in
    let (q, r) = wide-parts hi lo d (omega arith) in
    let du : 64 - u ≡ d = omega arith in
    let flags = sticky-flag (hi * 2 ^ d + lo / 2 ^ u) lo u (omega arith) (omega arith) in
    let flags' = rw du at flags in
    let kept =
      keep-bounds (wide hi lo % 2 ^ u == 0) (wide hi lo / 2 ^ u) (rw (sym q) at first)
        (rw (sym q) at last) in
    rw (nz, j, flags', sym q, sym r)
      (record {
        low = kept.0;
        high = kept.1;
        exponent = f + u;
        at = raise_exponent f 64 d (f + u) (omega arith);
        shift = u;
        bits = inl (refl, refl);
      })

odd_half : (n : ℕ) → 2 ^ 63 ≤ n → n < 2 ^ 64 → (2 ^ 62 ≤ odd_shift n 1) × (odd_shift n 1 < 2 ^ 63)
unfolding odd_shift
odd_half n h l = (ground arith, ground arith)

-- The lower half alone.
pub top_bits-low :
    (s : Sum) (f : ℕ)
    → s.nonzero ≡ false
    → s.rhi ≡ 0
    → 0 < s.rlo
    → s.rlo < 2 ^ 64
    → 64 ≤ f
    → IsTop (wide s.rhi s.rlo) f (top_bits s (sub_ℕ f 2342)).0 (top_bits s (sub_ℕ f 2342)).1
unfolding top_bits
top_bits-low s f nz hz h l m =
    let lo = s.rlo in
    let n = bit_length lo in
    let (least, below, some, most) = half_digits lo h l in
    let w : wide s.rhi lo ≡ lo = rw hz (omega arith) in
    elim (Bool-cases (clz lo == 0)) [
      | inl e ↦
          let full : n ≡ 64 = ground arith in
          let twice : 2 ^ 64 ≤ 2 * lo = rw full at least in
          let (first, last) = odd_half lo (omega arith) l in
          rw (nz, e, w, half_sticky lo l)
            (record {
              low = first;
              high = last;
              exponent = f + 1;
              at = add_exponent f 1 (f + 1) (omega arith);
              shift = 1;
              bits = inl (refl, refl);
            })
      | inr e ↦
          let c = clz lo - 1 in
          let p : 2 ^ n * 2 ^ c ≡ 2 ^ 63 =
            let k : n + c ≡ 63 = ground arith in sym (pow-add n c) ∙ ap (λ (i : ℕ). 2 ^ i) k in
          let (first, last) =
            sixty_three lo 0 (2 ^ n) (2 ^ c) below least p (one-le-pow c 2 (omega arith)) in
          let small : lo < 2 ^ 63 =
            let t = mul_mono lo 1 (2 ^ c) (one-le-pow c 2 (omega arith)) in
            grind (arith, t, last) in
          let k : 64 - c ≡ suc n = ground arith in
          let up : 2 ^ (64 - c) ≡ 2 * 2 ^ n = power_next (64 - c) n k in
          let whole : lo % 2 ^ (64 - c) ≡ lo = mod-eq_of_lt (omega arith) in
          let t : shift_left lo c ≡ lo * 2 ^ c =
            shift_left_lem lo c (omega arith) ∙ ap (λ (i : ℕ). i * 2 ^ c) whole in
          rw (nz, e, w, t)
            (record {
              low = omega arith;
              high = omega arith;
              exponent = f - c;
              at = sub_exponent f c (f - c) (omega arith);
              shift = c;
              bits = inr (small, refl, omega arith);
            })
    ]
