-- ===== src/Libm/Remquo/Scaled.antt =====
-- libm/src/musl/remquo.c: mantissas and exponents as values, and back.
use wasm_cxx_shim.Prelude.{
  ℕ, ◌+◌, ◌-◌, ◌*◌, ◌/◌, ◌%◌, ◌^◌, ◌≤◌, ◌<◌, ◌≡◌, leb, ◌==◌, arith, Bool-cases, inl, inr, sym, ap,
  ◌∙◌, refl, true, false,
}
use native.Mathlib.Nat.{one-le-pow, mul-div_cancel, mul_assoc}
use wasm_cxx_shim.Prelude.Int.{ℤ, pos, pos_part, neg_part, sub_ℕ, ltb_ℤ, ◌-ℤ◌}
use wasm_cxx_shim.Prelude.Int.Sub.{sub_ℕ-eq, sub-sub_ℕ, pos-sub_ℕ}
use wasm_cxx_shim.Prelude.Loop.{while-Inv}
use wasm_cxx_shim.Libm.Double.{
  exponent_of, fraction_of, magnitude, inf_bits, is_zero, units, bit_length,
}
use wasm_cxx_shim.Libm.Double.Length.{pow-add}
use wasm_cxx_shim.Libm.Double.Scale.{length_lem, HasDigits-unique, HasDigits-shift}
use wasm_cxx_shim.Libm.Double.Exact.{
  units-small, units-normal, mul_mono, mul_mono_lt, pow-power, cancel_le, power_lt,
}
use wasm_cxx_shim.Libm.Double.Order.{normal_units, subnormal_units}
use wasm_cxx_shim.Libm.Pattern.{scan}
use wasm_cxx_shim.Libm.Pattern.Ilogb.{scan_parts, down_bound}
use wasm_cxx_shim.Libm.Rounding.Scale.Up.{Exactly}
use wasm_cxx_shim.Libm.Remquo.{Operand, normalize, raise, rescale}
use wasm_cxx_shim.Libm.Remquo.Operands.{normal_bits, subnormal_bits, sign_dropped, normalize_range}

-- A mantissa of 53 digits and an exponent for `n` units.
pub record IsOperand (n : ℕ) (t : Operand) : Type 0 where
  pub up : ℕ
  pub low : 2 ^ 52 ≤ t.bits
  pub high : t.bits < 2 ^ 53
  pub at : t.exponent ≡ sub_ℕ up 63
  pub most : up ≤ 2109
  pub value : n * 2 ^ 64 ≡ t.bits * 2 ^ up

normal_exponent : (u : ℕ) → 1 ≤ exponent_of u → (normalize u).exponent ≡ pos (exponent_of u)
unfolding normalize
normal_exponent u h = let e : (exponent_of u == 0) ≡ false = ground arith in rw e refl

subnormal_exponent :
    (u : ℕ)
    → exponent_of u ≡ 0
    → (normalize u).exponent ≡ sub_ℕ 0 (scan (fraction_of u * 2 ^ 12)).down
unfolding normalize
subnormal_exponent u h =
    let e : (exponent_of u == 0) ≡ true = ground arith in
    let f : u * 2 ^ 12 % 2 ^ 64 ≡ fraction_of u * 2 ^ 12 = omega arith in rw (e, f) refl

sixty_four : (m e : ℕ) → 1 ≤ e → m * 2 ^ (e - 1) * 2 ^ 64 ≡ m * 2 ^ (e + 63)
sixty_four m e h =
    let a : e + 63 ≡ e - 1 + 64 = omega arith in
    mul_assoc m (2 ^ (e - 1)) (2 ^ 64)
    ∙ ap (λ (i : ℕ). m * i) (sym (ap (λ (i : ℕ). 2 ^ i) a ∙ pow-add (e - 1) 64))

shifted_value : (f d : ℕ) → d ≤ 63 → f * 2 ^ 64 ≡ f * 2 ^ d * 2 * 2 ^ (63 - d)
shifted_value f d h =
    let p : 2 ^ (63 - d) * 2 ^ d ≡ 2 ^ 63 = pow-power 63 d h in
    let a : f * 2 ^ d * 2 * 2 ^ (63 - d) ≡ f * 2 * (2 ^ (63 - d) * 2 ^ d) = grind arith in
    sym (a ∙ ap (λ (i : ℕ). f * 2 * i) p ∙ omega arith)

pub normalize-IsOperand :
    (u : ℕ) → magnitude u < inf_bits → is_zero u ≡ false → IsOperand (units u) (normalize u)
normalize-IsOperand u h z =
    let (low, high) = normalize_range u z in
    elim (Bool-cases (exponent_of u == 0)) [
      | inl e ↦
          let f = fraction_of u in
          let none : exponent_of u ≡ 0 = ground arith in
          let d = (scan (f * 2 ^ 12)).down in
          let (a, b) = scan_parts (f * 2 ^ 12) (ground arith) (omega arith) in
          let small = down_bound f d (ground arith) b in
          record {
            up = 63 - d;
            low = low;
            high = high;
            at = subnormal_exponent u none ∙ sub_ℕ-eq 0 d (63 - d) 63 (omega arith);
            most = omega arith;
            value =
                rw (subnormal_units u e, subnormal_bits u none, sign_dropped u d none b)
                  (shifted_value f d (omega arith));
          }
      | inr e ↦
          let some : 1 ≤ exponent_of u = ground arith in
          let m : 2 ^ 52 + fraction_of u ≡ fraction_of u + 2 ^ 52 = omega arith in
          record {
            up = exponent_of u + 63;
            low = low;
            high = high;
            at =
                normal_exponent u some
                ∙ pos-sub_ℕ (exponent_of u)
                ∙ sub_ℕ-eq _ 0 (exponent_of u + 63) 63 (omega arith);
            most = omega arith;
            value =
                rw (normal_units u e, normal_bits u some, m)
                  (sixty_four (fraction_of u + 2 ^ 52) (exponent_of u) some);
          }
    ]

pub cancel_eq : (p a b : ℕ) → 1 ≤ p → a * p ≡ b * p → a ≡ b
cancel_eq p a b h e =
    let x = cancel_le p a b h (omega arith) in
    let y = cancel_le p b a h (omega arith) in omega arith

low_exponent :
    (e : ℕ) → e ≤ 63 → (ltb_ℤ (pos 0) (sub_ℕ e 63) ≡ false) × (neg_part (sub_ℕ e 63) + 1 ≡ 64 - e)
low_exponent e h = elim (Bool-cases (leb 63 e)) [
  | inl o ↦ rw o (ground arith, ground arith)
  | inr o ↦ rw o (ground arith, ground arith)
]

high_exponent :
    (e : ℕ) → 63 < e → (ltb_ℤ (pos 0) (sub_ℕ e 63) ≡ true) × (pos_part (sub_ℕ e 63) ≡ e - 63)
high_exponent e h = let o : leb 63 e ≡ true = ground arith in rw o (ground arith, refl)

positive-Exactly : (x n : ℕ) → x < inf_bits → units x ≡ n → Exactly x 0 n
positive-Exactly x n h e = record {
  finite = omega arith;
  fits = omega arith;
  sign = omega arith;
  value = e;
}

scaled-Exactly :
    (n b e : ℕ)
    → 2 ^ 52 ≤ b
    → b < 2 ^ 53
    → e ≤ 2109
    → n * 2 ^ 64 ≡ b * 2 ^ e
    → Exactly (rescale (record { bits = b; exponent = sub_ℕ e 63 })) 0 n
unfolding rescale
scaled-Exactly n b e low high most w = elim (Bool-cases (leb e 63)) [
  | inl o ↦
      let k = 64 - e in
      let (test, shift) = low_exponent e (ground arith) in
      let split : 2 ^ k * 2 ^ e ≡ 2 ^ 64 = pow-power 64 e (ground arith) in
      let bits : b ≡ n * 2 ^ k =
        cancel_eq (2 ^ e) b (n * 2 ^ k) (one-le-pow e 2 (omega arith))
          (sym w ∙ ap (λ (i : ℕ). n * i) (sym split) ∙ sym (mul_assoc n (2 ^ k) (2 ^ e))) in
      let p = one-le-pow k 2 (omega arith) in
      let quotient : b / 2 ^ k ≡ n = ap (λ (i : ℕ). i / 2 ^ k) bits ∙ mul-div_cancel n p in
      let small = mul_mono n 1 (2 ^ k) p in
      let small' : n < 2 ^ 53 = grind (arith, small, bits, high) in
      rw (test, shift, quotient) (positive-Exactly n n (omega arith) (units-small n small'))
  | inr o ↦
      let (test, part) = high_exponent e (ground arith) in
      let k = e - 64 in
      let whole : b - 2 ^ 52 + (e - 63) * 2 ^ 52 ≡ k * 2 ^ 52 + b = ground arith in
      let split : 2 ^ k * 2 ^ 64 ≡ 2 ^ e = pow-power e 64 (ground arith) in
      let value : b * 2 ^ k ≡ n =
        cancel_eq (2 ^ 64) (b * 2 ^ k) n (omega arith)
          (mul_assoc b (2 ^ k) (2 ^ 64) ∙ ap (λ (i : ℕ). b * i) split ∙ sym w) in
      rw (test, part, whole)
        (positive-Exactly (k * 2 ^ 52 + b) n (omega arith)
          (units-normal k b low high (omega arith) ∙ value))
]

-- The pattern of an operand.
pub rescale-Exactly : (n : ℕ) (t : Operand) → IsOperand n t → Exactly (rescale t) 0 n
rescale-Exactly n t v =
    let e : rescale t ≡ rescale (record { bits = t.bits; exponent = sub_ℕ v.up 63 }) =
      ap (λ (x : ℤ). rescale (record { bits = t.bits; exponent = x })) v.at in
    rw e (scaled-Exactly n t.bits v.up v.low v.high v.most v.value)

-- The loop that brings the first digit to bit 52.
record Raised (r e : ℕ) (t : Operand) : Type 0 where
  by : ℕ
  bits : t.bits ≡ r * 2 ^ by
  some : 0 < t.bits
  high : t.bits < 2 ^ 53
  at : t.exponent ≡ sub_ℕ e (63 + by)

length-double :
    (b : ℕ) → 0 < b → b < 2 ^ 53 → (bit_length (b * 2) ≡ bit_length b + 1) × (bit_length b ≤ 53)
length-double b h l =
    let v = length_lem b 53 (omega arith) l in
    let w = length_lem (b * 2) 54 (omega arith) (omega arith) in
    let t = HasDigits-unique _ _ _ w (HasDigits-shift (bit_length b) b 1 h v) in
    let least : 2 ^ bit_length b ≤ 2 * b = elim v.least [
      | inl e ↦ let one : 2 ^ bit_length b ≡ 1 = ap (λ (i : ℕ). 2 ^ i) e in omega arith
      | inr e ↦ e
    ] in
    let short = power_lt (bit_length b) 54 (omega arith) in (t, omega arith)

Raised-next :
    (r e : ℕ) (t : Operand)
    → Raised r e t
    → (t.bits / 2 ^ 52 == 0) ≡ true
    → Raised r e (record { bits = t.bits * 2 % 2 ^ 64; exponent = t.exponent -ℤ pos 1 })
      × (64 - bit_length (t.bits * 2 % 2 ^ 64) < 64 - bit_length t.bits)
Raised-next r e t v low =
    let some = v.some in
    let high = v.high in
    let k = v.by in
    let kept : t.bits * 2 % 2 ^ 64 ≡ t.bits * 2 = omega arith in
    let (longer, short) = length-double t.bits some high in
    let up : r * 2 ^ k * 2 ≡ r * 2 ^ (k + 1) = rw (pow-add k 1) (grind arith) in
    let less : sub_ℕ e (63 + k) -ℤ pos 1 ≡ sub_ℕ e (63 + (k + 1)) =
      rw (pos-sub_ℕ 1, sub-sub_ℕ e (63 + k) 1 0) (sub_ℕ-eq _ _ e (63 + (k + 1)) (omega arith)) in
    (
      record {
        by = k + 1;
        bits = kept ∙ ap (λ (i : ℕ). i * 2) v.bits ∙ up;
        some = omega arith;
        high = ground arith;
        at = ap (λ (i : ℤ). i -ℤ pos 1) v.at ∙ less;
      },
      rw (kept, longer) (omega arith),
    )

swap_powers : (r p q : ℕ) → r * p * q ≡ r * q * p
swap_powers r p q = grind arith

-- What the loop raises stays a whole number of units.
raised_room : (n b e k : ℕ) → 0 < n → b < 2 ^ 53 → b * 2 ^ e ≡ n * 2 ^ 64 * 2 ^ k → k ≤ e
raised_room n b e k h l w =
    let a = mul_mono_lt (2 ^ e) b (2 ^ 53) (one-le-pow e 2 (omega arith)) l in
    let c = mul_mono (2 ^ 64 * 2 ^ k) 1 n h in
    let d : n * 2 ^ 64 * 2 ^ k ≡ n * (2 ^ 64 * 2 ^ k) = mul_assoc n (2 ^ 64) (2 ^ k) in
    let f : 2 ^ (64 + k) < 2 ^ (53 + e) = rw (pow-add 64 k, pow-add 53 e) (omega arith) in
    let g = power_lt (64 + k) (53 + e) f in omega arith

pub raise-IsOperand :
    (n r e : ℕ)
    → 0 < n
    → 0 < r
    → r < 2 ^ 53
    → e ≤ 2109
    → n * 2 ^ 64 ≡ r * 2 ^ e
    → IsOperand n (raise r (sub_ℕ e 63))
unfolding raise
raise-IsOperand n r e hn h l most w =
    let start : Raised r e (record { bits = r; exponent = sub_ℕ e 63 }) = record {
      by = 0;
      bits = omega arith;
      some = h;
      high = l;
      at = refl;
    } in
    let (v, stop) =
      while-Inv (λ (t : Operand). t.bits / 2 ^ 52 == 0)
        (λ (t : Operand). record { bits = t.bits * 2 % 2 ^ 64; exponent = t.exponent -ℤ pos 1 })
        (Raised r e) (λ (t : Operand). 64 - bit_length t.bits) (Raised-next r e) 64
        (record { bits = r; exponent = sub_ℕ e 63 }) (omega arith) start in
    let t = raise r (sub_ℕ e 63) in
    let k = v.by in
    let high : t.bits < 2 ^ 53 = v.high in
    let bits : t.bits ≡ r * 2 ^ k = v.bits in
    let value : t.bits * 2 ^ e ≡ n * 2 ^ 64 * 2 ^ k =
      ap (λ (i : ℕ). i * 2 ^ e) bits
      ∙ swap_powers r (2 ^ k) (2 ^ e)
      ∙ ap (λ (i : ℕ). i * 2 ^ k) (sym w) in
    let room = raised_room n t.bits e k hn high value in
    let split : 2 ^ (e - k) * 2 ^ k ≡ 2 ^ e = pow-power e k room in
    record {
      up = e - k;
      low = ground (arith, stop);
      high = high;
      at = v.at ∙ sub_ℕ-eq e (63 + k) (e - k) 63 (omega arith);
      most = omega arith;
      value = cancel_eq (2 ^ k) _ _ (one-le-pow k 2 (omega arith)) (
          sym value
          ∙ ap (λ (i : ℕ). t.bits * i) (sym split)
          ∙ sym (mul_assoc t.bits (2 ^ (e - k)) (2 ^ k)));
    }
