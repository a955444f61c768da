-- ===== src/Libm/Rounding/Floor.antt =====
-- floor of a finite double.
use wasm_cxx_shim.Prelude.{
  ℕ, ◌+◌, ◌-◌, ◌*◌, ◌^◌, ◌<◌, ◌≡◌, leb, ltb, ◌==◌, ◌||◌, arith, Bool-cases, inl, inr, refl, true,
  false,
}
use wasm_cxx_shim.Libm.Double.{
  sign_of, exponent_of, magnitude, inf_bits, units, round_even, one, is_zero, ◌⊕◌,
}
use wasm_cxx_shim.Libm.Double.Value.{
  HasValue, HasValue-eq, Representable-eq, sub-HasValue, neg-HasValue, zero-HasValue, less-zero,
}
use wasm_cxx_shim.Libm.Rounding.{floor, step_to_integer}
use wasm_cxx_shim.Libm.Rounding.Nearest.{round_even-cases}
use wasm_cxx_shim.Libm.Rounding.Parts.{whole_down, whole_up, nearest_down, nearest_up, whole-small}
use wasm_cxx_shim.Libm.Rounding.Step.{unit, IsMiddle, middle_range, nearest_bound}
use wasm_cxx_shim.Libm.Rounding.Ends.{end_whole, end_small}
use wasm_cxx_shim.Libm.Rounding.Whole.{
  whole-Representable, one-HasValue, plus-step, minus-step, plus-sum, minus-sum,
}

pub floor-plus :
    (x : ℕ)
    → x < 2 ^ 64
    → magnitude x < inf_bits
    → sign_of x ≡ 0
    → HasValue (floor x) (whole_down unit (units x)) 0
unfolding floor
floor-plus x h f s =
    let plus : (sign_of x == 0) ≡ true = ground arith in
    elim (Bool-cases (leb (0x3ff + 52) (exponent_of x) || is_zero x)) [
      | inl whole ↦
          let (d, u) = end_whole x whole in
          rw (whole, d) (record { finite = f; fits = h; value = inl (s, omega arith) })
      | inr other ↦ elim (Bool-cases (leb (exponent_of x) (0x3ff - 1))) [
        | inl small ↦
            let (p, l) = end_small x (ground arith) (ground arith) in
            let (d, u) = whole-small unit (units x) p l in
            rw (other, small, plus, d) (zero-HasValue 0 0 refl)
        | inr large ↦
            let middle : IsMiddle x = (ground arith, ground arith) in
            let m = units x in
            let r = round_even m 1074 in
            let (low, high) = middle_range x middle in
            let most = nearest_bound m 1074 high in
            let y = less-zero (step_to_integer x) _ _ (plus-step x h middle s) in
            let sum = plus-sum x h middle s in
            let n = nearest_down m r unit (omega arith) (round_even-cases m 1074) in
            elim (Bool-cases (ltb m (r * unit))) [
              | inl above ↦
                  let d : r * unit - unit ≡ whole_down unit m = ground arith in
                  rw (other, large, y, above)
                    (HasValue-eq _ _ _ (whole_down unit m) 0 (ground arith) (
                      sub-HasValue (x ⊕ step_to_integer x) one _ _ _ _ sum one-HasValue (
                        Representable-eq ((r - 1) * unit) _ (ground arith)
                          (whole-Representable (r - 1) (omega arith)))))
              | inr below ↦
                  let d : r * unit ≡ whole_down unit m = ground arith in
                  rw (other, large, y, below)
                    (HasValue-eq _ _ _ (whole_down unit m) 0 (omega arith) sum)
            ]
      ]
    ]

pub floor-minus :
    (x : ℕ)
    → x < 2 ^ 64
    → magnitude x < inf_bits
    → sign_of x ≡ 1
    → HasValue (floor x) 0 (whole_up unit (units x))
unfolding floor
floor-minus x h f s =
    let minus : (sign_of x == 0) ≡ false = ground arith in
    elim (Bool-cases (leb (0x3ff + 52) (exponent_of x) || is_zero x)) [
      | inl whole ↦
          let (d, u) = end_whole x whole in
          rw (whole, u) (record { finite = f; fits = h; value = inr (s, omega arith) })
      | inr other ↦ elim (Bool-cases (leb (exponent_of x) (0x3ff - 1))) [
        | inl small ↦
            let (p, l) = end_small x (ground arith) (ground arith) in
            let (d, u) = whole-small unit (units x) p l in
            rw (other, small, minus, u) (neg-HasValue one _ _ one-HasValue)
        | inr large ↦
            let middle : IsMiddle x = (ground arith, ground arith) in
            let m = units x in
            let r = round_even m 1074 in
            let (low, high) = middle_range x middle in
            let most = nearest_bound m 1074 high in
            let y = less-zero (step_to_integer x) _ _ (minus-step x h middle s) in
            let sum = minus-sum x h middle s in
            let n = nearest_up m r unit (omega arith) (round_even-cases m 1074) in
            elim (Bool-cases (ltb (r * unit) m)) [
              | inl above ↦
                  let d : r * unit + unit ≡ whole_up unit m = ground arith in
                  rw (other, large, y, above)
                    (HasValue-eq _ _ _ 0 (whole_up unit m) (ground arith) (
                      sub-HasValue (x ⊕ step_to_integer x) one _ _ _ _ sum one-HasValue (
                        Representable-eq ((r + 1) * unit) _ (ground arith)
                          (whole-Representable (r + 1) (omega arith)))))
              | inr below ↦
                  let d : r * unit ≡ whole_up unit m = ground arith in
                  rw (other, large, y, below)
                    (HasValue-eq _ _ _ 0 (whole_up unit m) (omega arith) sum)
            ]
      ]
    ]
