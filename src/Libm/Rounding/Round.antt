-- ===== src/Libm/Rounding/Round.antt =====
-- round takes the nearest whole number, and of two the one farther from 0.
use wasm_cxx_shim.Prelude.{
  ℕ, ◌+◌, ◌-◌, ◌*◌, ◌^◌, ◌≤◌, ◌<◌, ◌≡◌, leb, ltb, ◌==◌, arith, Bool-cases, inl, inr, ap, ◌∙◌, refl,
  subst, true, false, if◌then◌else◌,
}
use native.Mathlib.Nat.{pow-le-pow_right, zero-mul}
use wasm_cxx_shim.Libm.Double.{
  sign_of, exponent_of, magnitude, inf_bits, units, digits_below, bit_length, round_even, rounded,
  signed, power, one, neg, less, ◌⊕◌, ◌⊖◌, ◌⊗◌,
}
use wasm_cxx_shim.Libm.Double.Exact.{units-normal}
use wasm_cxx_shim.Libm.Double.Value.{
  HasValue, HasValue-eq, Representable-eq, add-HasValue, neg-HasValue, units-neg, units-signed,
  units-zero,
}
use wasm_cxx_shim.Libm.Double.Order.{less-HasValue, less_equal-HasValue, units_below}
use wasm_cxx_shim.Libm.Rounding.{toint, step_to_integer, round_positive, round}
use wasm_cxx_shim.Libm.Rounding.Nearest.{round_even-cases}
use wasm_cxx_shim.Libm.Rounding.Parts.{whole_away, nearest_away, away-multiple, away-small}
use wasm_cxx_shim.Libm.Rounding.Step.{unit, IsMiddle, middle_range, nearest_bound}
use wasm_cxx_shim.Libm.Rounding.Ends.{end_multiple}
use wasm_cxx_shim.Libm.Rounding.Whole.{whole-Representable, one-HasValue, plus-step}

abbrev half_unit : ℕ
half_unit = 2 ^ 1073

half-HasValue : HasValue (power 0x3fe) half_unit 0
half-HasValue =
    let u = units-normal 1021 (2 ^ 52) (omega arith) (omega arith) (omega arith) in
    record { finite = omega arith; fits = omega arith; value = inl (omega arith, omega arith) }

distance-HasValue :
    (x : ℕ)
    → x < 2 ^ 64
    → IsMiddle x
    → sign_of x ≡ 0
    → HasValue (x ⊕ toint ⊖ toint ⊖ x) (round_even (units x) 1074 * unit) (units x)
unfolding step_to_integer
distance-HasValue x h middle s =
    let plus : (sign_of x == 0) ≡ true = ground arith in
    let e : step_to_integer x ≡ x ⊕ toint ⊖ toint ⊖ x = rw (plus, step_to_integer) refl in
    subst (λ y. HasValue y (round_even (units x) 1074 * unit) (units x)) e (plus-step x h middle s)

round_positive-HasValue :
    (x : ℕ)
    → x < 2 ^ 64
    → IsMiddle x
    → sign_of x ≡ 0
    → HasValue (round_positive x) (whole_away unit (units x)) 0
unfolding round_positive
round_positive-HasValue x h middle s =
    let m = units x in
    let r = round_even m 1074 in
    let (low, high) = middle_range x middle in
    let (a, b) = middle in
    let most = nearest_bound m 1074 high in
    let y = x ⊕ toint ⊖ toint ⊖ x in
    let v : HasValue x m 0 = record {
      finite = omega arith;
      fits = h;
      value = inl (s, omega arith);
    } in
    let w = distance-HasValue x h middle s in
    let sum = HasValue-eq _ _ _ (r * unit) 0 (omega arith) (
      add-HasValue y x _ _ _ _ w v
        (Representable-eq (r * unit) _ (omega arith) (whole-Representable r (omega arith)))) in
    let (near, away) = nearest_away m r half_unit (omega arith) (round_even-cases m 1074) in
    let up : less (power 0x3fe) y ≡ false =
      less-HasValue (power 0x3fe) y _ _ _ _ half-HasValue w ∙ ground arith in
    let down =
      less_equal-HasValue y (neg (power 0x3fe)) _ _ _ _ w (neg-HasValue _ _ _ half-HasValue) in
    let test : leb (r * unit + half_unit) (0 + m) ≡ leb (r * unit + half_unit) m = ground arith in
    elim (Bool-cases (leb (r * unit + half_unit) m)) [
      | inl e ↦
          rw (up, down, test, e)
            (HasValue-eq _ _ _ (whole_away unit m) 0 (ground arith) (
              add-HasValue (y ⊕ x) one _ _ _ _ sum one-HasValue (
                Representable-eq ((r + 1) * unit) _ (omega arith)
                  (whole-Representable (r + 1) (omega arith)))))
      | inr e ↦ rw (up, down, test, e) (HasValue-eq _ _ _ (whole_away unit m) 0 (ground arith) sum)
    ]

none_rounded : rounded 1074 0 ≡ 0
unfolding rounded round_even bit_length digits_below
none_rounded = refl

zero_times : (x : ℕ) → magnitude x < inf_bits → 0 ⊗ x ≡ signed (sign_of x) 0
unfolding ◌⊗◌
zero_times x f =
    let p : units 0 * units x ≡ 0 = ap (λ (n : ℕ). n * units x) units-zero ∙ zero-mul (units x) in
    let t : rounded 1074 (units 0 * units x) ≡ 0 =
      ap (λ (n : ℕ). rounded 1074 n) p ∙ none_rounded in
    ground arith

signed_zero : (s : ℕ) → s ≤ 1 → HasValue (signed s 0) 0 0
signed_zero s h =
    let z = units-zero in
    let u = units-signed s 0 (omega arith) in
    record { finite = omega arith; fits = omega arith; value = ground arith }

-- round of a finite 64-bit pattern has the value of the nearest whole number, and of two that are as
-- near of the one farther from 0.
pub round_lem :
    (x : ℕ)
    → x < 2 ^ 64
    → magnitude x < inf_bits
    → HasValue
        (round x)
        (if sign_of x == 0 then whole_away unit (units x) else 0)
        (if sign_of x == 0 then 0 else whole_away unit (units x))
unfolding round
round_lem x h f =
    let m = units x in
    elim (Bool-cases (leb (0x3ff + 52) (exponent_of x))) [
      | inl whole ↦
          let (k, u) = end_multiple x (ground arith) in
          let same : whole_away unit m ≡ m = rw u (away-multiple unit k (omega arith)) in
          rw (whole, same) (record { finite = f; fits = h; value = ground arith })
      | inr other ↦ elim (Bool-cases (ltb (exponent_of x) (0x3ff - 1))) [
        | inl small ↦
            let below = units_below x in
            let most : 2 ^ (52 + exponent_of x) ≤ half_unit =
              pow-le-pow_right {n = 2} (omega arith) {i = 52 + exponent_of x} {j = 1073}
                (ground arith) in
            let none : whole_away unit m ≡ 0 = away-small unit m (omega arith) in
            rw (other, small, zero_times x f, none)
              (elim (Bool-cases (sign_of x == 0)) [
                | inl s ↦ rw s (signed_zero (sign_of x) (omega arith))
                | inr s ↦ rw s (signed_zero (sign_of x) (omega arith))
              ])
        | inr large ↦ elim (Bool-cases (sign_of x == 0)) [
          | inl s ↦
              rw (other, large, s)
                (round_positive-HasValue x h (ground arith, ground arith) (ground arith))
          | inr s ↦
              let u = units-neg x h in
              let v =
                round_positive-HasValue (neg x) (omega arith) (ground arith, ground arith)
                  (ground arith) in
              let e : whole_away unit (units (neg x)) ≡ whole_away unit m =
                ap (λ (n : ℕ). whole_away unit n) u in
              rw (other, large, s)
                (subst (λ n. HasValue (neg (round_positive (neg x))) 0 n) e (neg-HasValue _ _ _ v))
        ]
      ]
    ]
