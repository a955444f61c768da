-- ===== src/Libm/Remquo/Exact.antt =====
-- libm/src/musl/remquo.c: the result is x - n * y, exactly, for the nearest whole number n of x / y.
use wasm_cxx_shim.Prelude.{
  ℕ, ◌+◌, ◌-◌, ◌*◌, ◌/◌, ◌%◌, ◌^◌, ◌≤◌, ◌<◌, ◌≡◌, ltb, ◌==◌, arith, Bool-cases, inl, inr, sym, ap,
  ◌∙◌, refl, false, if◌then◌else◌,
}
use native.Mathlib.Nat.{
  one-le-pow, mul_assoc, div-add-mod', mod-lt, mul-div-mul_right, div-eq_of_lt, mod-eq_of_lt,
}
use wasm_cxx_shim.Prelude.Int.{ℤ, pos, negsuc, sub_ℕ}
use wasm_cxx_shim.Libm.Double.{sign_of, magnitude, inf_bits, is_zero, units}
use wasm_cxx_shim.Libm.Double.Exact.{mul_mono, mul_mono_lt, pow-power, power_lt}
use wasm_cxx_shim.Libm.Double.Length.{pow-add}
use wasm_cxx_shim.Libm.Double.Scale.{mod_scaled}
use wasm_cxx_shim.Libm.Double.Value.{HasValue, units-pos, units-zero}
use wasm_cxx_shim.Libm.Rounding.Scale.Up.{Exactly}
use wasm_cxx_shim.Libm.Remquo.{Operand, Result, raise, rescale, finish}
use wasm_cxx_shim.Libm.Remquo.Scaled.{IsOperand, rescale-Exactly, raise-IsOperand, cancel_eq}
use wasm_cxx_shim.Libm.Remquo.Nearest.{nearest_multiple, finish_lem}
use wasm_cxx_shim.Libm.Remquo.Place.{IsOperand-Placed, difference-Representable}

-- The whole number nearest to the quotient of the values, of two the even one.
abbrev pub quotient : ℕ → ℕ → ℕ
quotient x y = nearest_multiple (units x / units y) (units x % units y) (units y)

-- `x - n * y` for `x` and the size of `y`, with the low 31 bits of `n` and the sign of `x / y`.
abbrev pub IsRemainder : ℕ → ℕ → ℕ → Result → Type 0
IsRemainder x y n z =
    let u = units x in
    let m = n * units y in
    HasValue z.value (if sign_of x == 0 then u else m) (if sign_of x == 0 then m else u)
    × (z.quo ≡ (if sign_of x == sign_of y then pos (n % 2 ^ 31) else sub_ℕ 0 (n % 2 ^ 31)))

-- The exponents of a normalized divisor.
least_exponent : (n : ℕ) (t : Operand) → (v : IsOperand n t) → 0 < n → 12 ≤ v.up
least_exponent n t v h =
    let e = v.up in
    let w = v.value in
    let a = mul_mono_lt (2 ^ e) t.bits (2 ^ 53) (one-le-pow e 2 (omega arith)) v.high in
    let p : 2 ^ (53 + e) ≡ 2 ^ 53 * 2 ^ e = pow-add 53 e in
    let t = power_lt 64 (53 + e) (omega arith) in omega arith

-- Nothing is left, and the pattern is that of 0.
rescale-nothing : Exactly (rescale (record { bits = 0; exponent = negsuc 59 })) 0 0
unfolding rescale
rescale-nothing =
    let z = units-zero in
    record { finite = omega arith; fits = omega arith; sign = refl; value = units-zero }

-- The remainder of the mantissas, as the operand that the last part takes.
abbrev pub rest_of : ℕ → ℤ → Operand
rest_of r e = if r == 0 then record { bits = 0; exponent = negsuc 59 } else raise r e

nonzero_rest : (k r e : ℕ) → 0 < r → k * 2 ^ 64 ≡ r * 2 ^ e → 0 < k
nonzero_rest k r e h w =
    let a = mul_mono (2 ^ e) 1 r h in let b = one-le-pow e 2 (omega arith) in omega arith

module _ (x y : ℕ) (ly : y < 2 ^ 64) (fy : magnitude y < inf_bits) (zy : is_zero y ≡ false)
    (a b : Operand) (va : IsOperand (units x) a) (vb : IsOperand (units y) b) where
  -- The exponent of the dividend is the smaller one.
  pub finish-below :
      units x < units y → IsRemainder x y (quotient x y) (finish (sign_of x) y a b.exponent 0)
  finish-below h =
      let u = units x in
      let v = units y in
      let none = div-eq_of_lt h in
      let same = mod-eq_of_lt h in
      let t =
        finish_lem (sign_of x) y va.up vb.up u 0 u a ly fy va.at (rescale-Exactly u a va)
          (omega arith) h (IsOperand-Placed u v a b va vb h)
          (difference-Representable u v a b va vb h) in
      rw (none, same, vb.at) t

  -- The division leaves the remainder of the values.
  pub division-parts :
      (r : ℕ)
      → vb.up ≤ va.up
      → r ≡ a.bits * 2 ^ (va.up - vb.up) % b.bits
      → (a.bits * 2 ^ (va.up - vb.up) / b.bits ≡ units x / units y)
        × (units x % units y * 2 ^ 64 ≡ r * 2 ^ vb.up)
  division-parts r h e =
      let c = 2 ^ vb.up in
      let s = a.bits * 2 ^ (va.up - vb.up) in
      let pos_c = one-le-pow vb.up 2 (omega arith) in
      let low = vb.low in
      let p = pow-power va.up vb.up h in
      let top : s * c ≡ units x * 2 ^ 64 =
        mul_assoc a.bits (2 ^ (va.up - vb.up)) c ∙ ap (λ (i : ℕ). a.bits * i) p ∙ sym va.value in
      let bottom : b.bits * c ≡ units y * 2 ^ 64 = sym vb.value in
      let some = units-pos y zy in
      (
        sym (mul-div-mul_right s b.bits pos_c)
            ∙ rw (top, bottom) (mul-div-mul_right (units x) (units y) (omega arith)),
        sym (mod_scaled (units x) (units y) (2 ^ 64) some (omega arith))
            ∙ rw (sym top, sym bottom) (mod_scaled s b.bits c (omega arith) pos_c)
            ∙ ap (λ (i : ℕ). i * c) (sym e),
      )

  -- The exponent of the dividend is not the smaller one.
  pub finish-above :
      (r : ℕ)
      → r < 2 ^ 53
      → units x % units y * 2 ^ 64 ≡ r * 2 ^ vb.up
      → IsRemainder x y (quotient x y) (
          finish
            (sign_of x)
            y
            (rest_of r (sub_ℕ vb.up 63))
            (sub_ℕ vb.up 63)
            (units x / units y % 2 ^ 32))
  finish-above r small w =
      let u = units x in
      let v = units y in
      let n = u / v in
      let k = u % v in
      let some = units-pos y zy in
      let most = vb.most in
      let e = sub_ℕ vb.up 63 in
      let sum : u ≡ n * v + k = sym (div-add-mod' u v) in
      let below = mod-lt u some in
      elim (Bool-cases (r == 0)) [
        | inl o ↦
            let z : r ≡ 0 = ground arith in
            let none : k ≡ 0 =
              cancel_eq (2 ^ 64) k 0 (omega arith)
                (w ∙ ap (λ (i : ℕ). i * 2 ^ vb.up) z ∙ omega arith) in
            let least = least_exponent v b vb some in
            let x0 : Exactly (rescale (record { bits = 0; exponent = negsuc 59 })) 0 k =
              rw none rescale-nothing in
            rw o (
              finish_lem (sign_of x) y 3 vb.up u n k (record { bits = 0; exponent = negsuc 59 }) ly
                fy refl x0 sum below (inr (inr (omega arith, omega arith)))
                (λ (h : v ≤ 2 * k). absurd (omega arith)))
        | inr o ↦
            let positive : 0 < k = nonzero_rest k r vb.up (ground arith) w in
            let t = raise r e in
            let vt = raise-IsOperand k r vb.up positive (ground arith) small most w in
            rw o (
              finish_lem (sign_of x) y vt.up vb.up u n k t ly fy vt.at (rescale-Exactly k t vt) sum
                below (IsOperand-Placed k v t b vt vb below)
                (difference-Representable k v t b vt vb below))
      ]

-- A dividend below half the divisor is the remainder itself.
pub itself-IsRemainder :
    (x y : ℕ)
    → x < 2 ^ 64
    → magnitude x < inf_bits
    → 2 * units x < units y
    → IsRemainder x y (quotient x y) (record { value = x; quo = pos 0 })
itself-IsRemainder x y l h small =
    let u = units x in
    let v = units y in
    let none = div-eq_of_lt {n = u} {m = v} (omega arith) in
    let same = mod-eq_of_lt {n = u} {m = v} (omega arith) in
    let first : ltb v (2 * u) ≡ false = ground arith in
    let second : (2 * u == v) ≡ false = ground arith in
    let zero_multiple : 0 * v ≡ 0 = omega arith in
    rw (none, same, first, second, zero_multiple)
      (
        elim (Bool-cases (sign_of x == 0)) [
          | inl s ↦ rw s (record { finite = h; fits = l; value = inl (ground arith, omega arith) })
          | inr s ↦ rw s (record { finite = h; fits = l; value = inr (ground arith, omega arith) })
        ],
        elim (Bool-cases (sign_of x == sign_of y)) [ inl s ↦ rw s refl | inr s ↦ rw s refl ],
      )
