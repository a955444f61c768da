-- ===== src/Libm/Rounding/Whole.antt =====
-- The sum of the argument with `y` is the nearest whole number.
use wasm_cxx_shim.Prelude.{ℕ, ◌*◌, ◌^◌, ◌<◌, ◌≡◌, ◌==◌, arith, inl, inr, refl, true, false}
use wasm_cxx_shim.Libm.Double.{sign_of, magnitude, inf_bits, units, round_even, one, ◌⊕◌, ◌⊖◌}
use wasm_cxx_shim.Libm.Double.Exact.{units-normal}
use wasm_cxx_shim.Libm.Double.Value.{
  HasValue, HasValue-eq, Representable, Representable-eq, add-HasValue, sub-HasValue,
}
use wasm_cxx_shim.Libm.Rounding.{toint, step_to_integer}
use wasm_cxx_shim.Libm.Rounding.Step.{
  unit, up-HasValue, down-HasValue, toint-HasValue, IsMiddle, middle_range, middle-Representable,
  nearest_bound,
}

pub whole-Representable : (r : ℕ) → r < 2 ^ 53 → Representable (r * unit)
whole-Representable r h = record {
  digits = r;
  shift = 1074;
  short = h;
  low = omega arith;
  product = refl;
}

pub one-HasValue : HasValue one unit 0
one-HasValue =
    let u = units-normal 1022 (2 ^ 52) (omega arith) (omega arith) (omega arith) in
    record { finite = omega arith; fits = omega arith; value = inl (omega arith, omega arith) }

module _ (x : ℕ) (fits : x < 2 ^ 64) (middle : IsMiddle x) where
  middle_finite : magnitude x < inf_bits
  middle_finite = let (a, b) = middle in omega arith

  pub plus-step :
      sign_of x ≡ 0 → let m = units x in HasValue (step_to_integer x) (round_even m 1074 * unit) m
  unfolding step_to_integer
  plus-step s =
      let m = units x in
      let r = round_even m 1074 in
      let (low, high) = middle_range x middle in
      let most = nearest_bound m 1074 high in
      let f = middle_finite in
      let v : HasValue x m 0 = record { finite = f; fits = fits; value = inl (s, omega arith) } in
      let a = up-HasValue x s f high in
      let b =
        sub-HasValue (x ⊕ toint) toint _ _ _ _ a toint-HasValue
          (Representable-eq (r * unit) _ (omega arith) (whole-Representable r (omega arith))) in
      let b' = HasValue-eq _ _ _ (r * unit) 0 (omega arith) b in
      let y =
        sub-HasValue (x ⊕ toint ⊖ toint) x _ _ _ _ b' v
          (Representable-eq _ _ (omega arith) (middle-Representable x middle)) in
      let plus : (sign_of x == 0) ≡ true = ground arith in
      rw plus (HasValue-eq _ _ _ (r * unit) m (omega arith) y)

  pub minus-step :
      sign_of x ≡ 1 → let m = units x in HasValue (step_to_integer x) m (round_even m 1074 * unit)
  unfolding step_to_integer
  minus-step s =
      let m = units x in
      let r = round_even m 1074 in
      let (low, high) = middle_range x middle in
      let most = nearest_bound m 1074 high in
      let f = middle_finite in
      let v : HasValue x 0 m = record { finite = f; fits = fits; value = inr (s, omega arith) } in
      let a = down-HasValue x s f high in
      let b =
        add-HasValue (x ⊖ toint) toint _ _ _ _ a toint-HasValue
          (Representable-eq (r * unit) _ (omega arith) (whole-Representable r (omega arith))) in
      let b' = HasValue-eq _ _ _ 0 (r * unit) (omega arith) b in
      let y =
        sub-HasValue (x ⊖ toint ⊕ toint) x _ _ _ _ b' v
          (Representable-eq _ _ (omega arith) (middle-Representable x middle)) in
      let minus : (sign_of x == 0) ≡ false = ground arith in
      rw minus (HasValue-eq _ _ _ m (r * unit) (omega arith) y)

  pub plus-sum :
      sign_of x ≡ 0 → HasValue (x ⊕ step_to_integer x) (round_even (units x) 1074 * unit) 0
  plus-sum s =
      let m = units x in
      let r = round_even m 1074 in
      let (low, high) = middle_range x middle in
      let most = nearest_bound m 1074 high in
      let v : HasValue x m 0 = record {
        finite = middle_finite;
        fits = fits;
        value = inl (s, omega arith);
      } in
      HasValue-eq _ _ _ (r * unit) 0 (omega arith) (
        add-HasValue x (step_to_integer x) _ _ _ _ v (plus-step s)
          (Representable-eq (r * unit) _ (omega arith) (whole-Representable r (omega arith))))

  pub minus-sum :
      sign_of x ≡ 1 → HasValue (x ⊕ step_to_integer x) 0 (round_even (units x) 1074 * unit)
  minus-sum s =
      let m = units x in
      let r = round_even m 1074 in
      let (low, high) = middle_range x middle in
      let most = nearest_bound m 1074 high in
      let v : HasValue x 0 m = record {
        finite = middle_finite;
        fits = fits;
        value = inr (s, omega arith);
      } in
      HasValue-eq _ _ _ 0 (r * unit) (omega arith) (
        add-HasValue x (step_to_integer x) _ _ _ _ v (minus-step s)
          (Representable-eq (r * unit) _ (omega arith) (whole-Representable r (omega arith))))
