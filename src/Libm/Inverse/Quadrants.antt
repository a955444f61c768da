-- ===== src/Libm/Inverse/Quadrants.antt =====
-- atan2 where an argument is a zero or an infinity.
use wasm_cxx_shim.Prelude.{
  ℕ, ◌+◌, ◌*◌, ◌%◌, ◌/◌, ◌^◌, ◌<◌, ◌≡◌, ◌∙◌, ◌||◌, ◌&&◌, refl, true, false, ltb, ◌==◌, arith,
  if◌then◌else◌, Bool, Bool-cases, inl, inr,
}
use wasm_cxx_shim.Prelude.Int.{pos, negsuc}
use wasm_cxx_shim.Libm.Double.{
  sign_of, is_nan, is_inf, is_zero, signed, power, one, neg, ◌⊕◌, ◌⊗◌, ◌⊘◌, units, digits_below,
  bit_length, round_even, rounded, add_finite, quotient, of_int,
}
use wasm_cxx_shim.Libm.RemPio2.{high_magnitude}
use wasm_cxx_shim.Libm.Inverse.{atan, atan2, select, pio2_hi, pi, tiny, two}

-- `M_PI_4`, and three times as much, rounded.
abbrev pub quarter_pi : ℕ
quarter_pi = 0x3fe921fb54442d18

abbrev pub three_pio4 : ℕ
three_pio4 = 0x4002d97c7f3321d2

half_pi : pi ⊘ two ≡ pio2_hi
unfolding ◌⊘◌ quotient units digits_below bit_length round_even rounded
half_pi = refl

half_pi_minus : neg pi ⊘ two ≡ neg pio2_hi
unfolding ◌⊘◌ quotient units digits_below bit_length round_even rounded
half_pi_minus = refl

quarter : pi ⊘ power 0x401 ≡ quarter_pi
unfolding ◌⊘◌ quotient units digits_below bit_length round_even rounded
quarter = refl

quarter_minus : neg pi ⊘ power 0x401 ≡ neg quarter_pi
unfolding ◌⊘◌ quotient units digits_below bit_length round_even rounded
quarter_minus = refl

three_quarters : of_int (pos 3) ⊗ pi ⊘ power 0x401 ≡ three_pio4
unfolding ◌⊘◌ ◌⊗◌ of_int quotient units digits_below bit_length round_even rounded
three_quarters = refl

three_quarters_minus : of_int (negsuc 2) ⊗ pi ⊘ power 0x401 ≡ neg three_pio4
unfolding ◌⊘◌ ◌⊗◌ of_int quotient units digits_below bit_length round_even rounded
three_quarters_minus = refl

atan_sum-end : pio2_hi ⊕ tiny ≡ pio2_hi
unfolding ◌⊕◌ units digits_below bit_length round_even rounded add_finite
atan_sum-end = refl

-- atan of a zero, and of an infinity.
atan_ends :
    (y : ℕ)
    → y < 2 ^ 64
    → is_zero y || is_inf y ≡ true
    → atan y ≡ (if is_zero y then y else signed (sign_of y) pio2_hi)
unfolding atan
atan_ends y h ends = let e = atan_sum-end in ground arith

words_zero : (v : ℕ) → v < 2 ^ 64 → (high_magnitude v == 0 && v % 2 ^ 32 == 0) ≡ is_zero v
words_zero v h = ground arith

words_inf : (v : ℕ) → v < 2 ^ 64 → is_nan v ≡ false → (high_magnitude v == 0x7ff00000) ≡ is_inf v
words_inf v h n = ground arith

-- The `switch` on both signs.
select_sign :
    (y x a b c d p q : ℕ)
    → y < 2 ^ 64
    → x < 2 ^ 64
    → a ≡ signed 0 p
    → b ≡ signed 1 p
    → c ≡ signed 0 q
    → d ≡ signed 1 q
    → select (2 * sign_of x + sign_of y) a b c d
      ≡ signed (sign_of y) (if sign_of x == 0 then p else q)
select_sign y x a b c d p q h l ea eb ec ed = ground arith

or_true : (b : Bool) → b || true ≡ true
or_true true = refl
or_true false = refl

select_zero :
    (y x : ℕ)
    → y < 2 ^ 64
    → x < 2 ^ 64
    → select (2 * sign_of x + sign_of y) y y pi (neg pi)
      ≡ (if sign_of x == 0 then y else signed (sign_of y) pi)
select_zero y x h l = ground arith

half_sign :
    (y x : ℕ)
    → y < 2 ^ 64
    → x < 2 ^ 64
    → (if (2 * sign_of x + sign_of y) % 2 == 1 then neg pi ⊘ two else pi ⊘ two)
      ≡ signed (sign_of y) pio2_hi
half_sign y x h l = rw (half_pi, half_pi_minus) (ground arith)

-- For 64-bit patterns that are no NaN, where one is a zero or an infinity, atan2 returns its first
-- argument for a zero over a positive number or zero, and else, with the sign of the first, pi for a
-- zero; for an infinite second, 0 or pi by its sign, or pi / 4 or 3 pi / 4 if the first is infinite
-- too; and pi / 2 in the other cases.
pub atan2_ends :
    (y x : ℕ)
    → y < 2 ^ 64
    → x < 2 ^ 64
    → is_nan y ≡ false
    → is_nan x ≡ false
    → is_zero y || is_zero x || is_inf y || is_inf x ≡ true
    → atan2 y x ≡ (
        if is_zero y
        then (if sign_of x == 0 then y else signed (sign_of y) pi)
        else signed (sign_of y) (
            if is_inf x
            then (if is_inf y
                then (if sign_of x == 0 then quarter_pi else three_pio4)
                else if sign_of x == 0
                then 0
                else pi)
            else pio2_hi))
unfolding atan2
atan2_ends y x h l p q ends = elim (Bool-cases (x == one)) [
  | inl e ↦
      let plus : x ≡ one = ground arith in
      let t = atan_ends y h (ground arith) in
      let s : atan2 y x ≡ atan y = ground arith in s ∙ t ∙ ground arith
  | inr e ↦
      let not_one : (x / 2 ^ 32 == 0x3ff00000 && x % 2 ^ 32 == 0) ≡ false = ground arith in
      rw
        (
          p,
          q,
          not_one,
          words_zero y h,
          words_zero x l,
          words_inf y h p,
          words_inf x l q,
          half_sign y x h l,
        )
        (elim (Bool-cases (is_zero y)) [
          | inl zy ↦ rw zy (select_zero y x h l)
          | inr ny ↦ elim (Bool-cases (is_inf x)) [
            | inl fx ↦ elim (Bool-cases (is_inf y)) [
              | inl fy ↦
                  let nx : is_zero x ≡ false = ground arith in
                  rw (ny, nx, fx, fy)
                    (select_sign y x _ _ _ _ quarter_pi three_pio4 h l quarter quarter_minus
                      three_quarters three_quarters_minus)
              | inr fy ↦
                  let nx : is_zero x ≡ false = ground arith in
                  rw (ny, nx, fx, fy)
                    (select_sign y x 0 (neg 0) pi (neg pi) 0 pi h l refl refl refl refl)
            ]
            | inr gx ↦ elim (Bool-cases (is_zero x)) [
              | inl zx ↦ rw (ny, zx, gx) refl
              | inr nx ↦
                  let fy : is_inf y ≡ true = ground arith in
                  rw
                    (
                      ny,
                      nx,
                      gx,
                      fy,
                      or_true (ltb (high_magnitude x + 64 * 2 ^ 20) (high_magnitude y)),
                    )
                    refl
            ]
          ]
        ])
]
