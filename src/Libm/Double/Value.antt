-- ===== src/Libm/Double/Value.antt =====
-- The values of finite doubles as differences, and the sums that are exact.
use wasm_cxx_shim.Prelude.{
  ℕ, ◌+◌, ◌-◌, ◌*◌, ◌^◌, ◌≤◌, ◌<◌, ◌≡◌, ◌⊎◌, ltb, ◌==◌, arith, Bool-cases, inl, inr, refl, subst,
  true, false,
}
use native.Mathlib.Nat.{one-le-pow}
use wasm_cxx_shim.Libm.Double.{
  sign_of, magnitude, exponent_of, fraction_of, inf_bits, is_nan, is_zero, units, rounded, signed,
  neg, add_finite, less, ◌⊕◌, ◌⊖◌,
}
use wasm_cxx_shim.Libm.Double.Exact.{rounded_exact}

-- `x` is finite, and its value is `a - b` units of 2 ^ -1074.
pub record HasValue (x a b : ℕ) : Type 0 where
  pub finite : magnitude x < inf_bits
  pub fits : x < 2 ^ 64
  pub value : ((sign_of x ≡ 0) × (units x + b ≡ a)) ⊎ ((sign_of x ≡ 1) × (units x + a ≡ b))

-- Only the difference counts.
pub HasValue-eq : (x a b c d : ℕ) → a + d ≡ c + b → HasValue x a b → HasValue x c d
HasValue-eq x a b c d e v =
    let w = v.value in record { finite = v.finite; fits = v.fits; value = ground arith }

-- A number of units that is the value of a double.
pub record Representable (n : ℕ) : Type 0 where
  pub digits : ℕ
  pub shift : ℕ
  pub short : digits < 2 ^ 53
  pub low : shift ≤ 2045
  pub product : n ≡ digits * 2 ^ shift

pub Representable-rounded :
    (n : ℕ) → Representable n → (units (rounded 0 n) ≡ n) × (rounded 0 n < inf_bits)
Representable-rounded n r = rw r.product (rounded_exact r.digits r.shift r.short r.low)

pub units-signed : (s m : ℕ) → m < 2 ^ 63 → units (signed s m) ≡ units m
unfolding units
units-signed s m h =
    let e : exponent_of (signed s m) ≡ exponent_of m = omega arith in
    let f : fraction_of (signed s m) ≡ fraction_of m = omega arith in rw (e, f)

pub units-neg : (x : ℕ) → x < 2 ^ 64 → units (neg x) ≡ units x
unfolding units
units-neg x h =
    let e : exponent_of (neg x) ≡ exponent_of x = omega arith in
    let f : fraction_of (neg x) ≡ fraction_of x = omega arith in rw (e, f)

pub neg-HasValue : (x a b : ℕ) → HasValue x a b → HasValue (neg x) b a
neg-HasValue x a b v =
    let l = v.fits in
    let f = v.finite in
    let w = v.value in
    let u = units-neg x l in
    record { finite = omega arith; fits = omega arith; value = ground arith }

-- A rounded number of units with a sign.
pub plus-HasValue :
    (n a b : ℕ) → Representable n → n + b ≡ a → HasValue (signed 0 (rounded 0 n)) a b
plus-HasValue n a b r e =
    let (u, f) = Representable-rounded n r in
    let s = units-signed 0 (rounded 0 n) (omega arith) in
    record { finite = omega arith; fits = omega arith; value = inl (omega arith, omega arith) }

pub minus-HasValue :
    (n a b : ℕ) → Representable n → n + a ≡ b → HasValue (signed 1 (rounded 0 n)) a b
minus-HasValue n a b r e =
    let (u, f) = Representable-rounded n r in
    let s = units-signed 1 (rounded 0 n) (omega arith) in
    record { finite = omega arith; fits = omega arith; value = inr (omega arith, omega arith) }

pub add-finite :
    (x y : ℕ) → magnitude x < inf_bits → magnitude y < inf_bits → x ⊕ y ≡ add_finite x y
unfolding ◌⊕◌
add-finite x y h l = ground arith

pub Representable-eq : (m n : ℕ) → m ≡ n → Representable m → Representable n
Representable-eq m n e r = subst Representable e r

pub units-zero : units 0 ≡ 0
unfolding units
units-zero = refl

pub zero-HasValue : (a b : ℕ) → a ≡ b → HasValue 0 a b
zero-HasValue a b e =
    let z = units-zero in
    record { finite = omega arith; fits = omega arith; value = inl (refl, omega arith) }

pub add_same_sign :
    (x y s : ℕ)
    → sign_of x ≡ s
    → sign_of y ≡ s
    → add_finite x y ≡ signed s (rounded 0 (units x + units y))
unfolding add_finite
add_same_sign x y s h l =
    let same : (sign_of x == sign_of y) ≡ true = ground arith in rw (same, h, add_finite) refl

-- The first has the sign `s`, the second has not.
add_other_sign :
    (x y s t : ℕ)
    → sign_of x ≡ s
    → sign_of y ≡ t
    → (s == t) ≡ false
    → ((units x ≡ units y) × (add_finite x y ≡ 0))
      ⊎ (((units x < units y) × (add_finite x y ≡ signed t (rounded 0 (units y - units x))))
          ⊎ ((units y < units x) × (add_finite x y ≡ signed s (rounded 0 (units x - units y)))))
unfolding add_finite
add_other_sign x y s t h l n =
    let other : (sign_of x == sign_of y) ≡ false = ground arith in
    elim (Bool-cases (units x == units y)) [
      | inl e ↦ inl (ground arith, rw (other, e, add_finite) refl)
      | inr e ↦ elim (Bool-cases (ltb (units x) (units y))) [
        | inl f ↦ inr (inl (ground arith, rw (other, e, f, l, add_finite) refl))
        | inr f ↦ inr (inr (ground arith, rw (other, e, f, h, add_finite) refl))
      ]
    ]

add_finite-HasValue :
    (x y a b c d : ℕ)
    → HasValue x a b
    → HasValue y c d
    → Representable ((a + c - (b + d)) + (b + d - (a + c)))
    → HasValue (add_finite x y) (a + c) (b + d)
add_finite-HasValue x y a b c d v w r = elim v.value [
  | inl (sx, ex) ↦ elim w.value [
    | inl (sy, ey) ↦ rw (add_same_sign x y 0 sx sy) (
        plus-HasValue (units x + units y) (a + c) (b + d) (Representable-eq _ _ (omega arith) r)
          (omega arith))
    | inr (sy, ey) ↦ elim (add_other_sign x y 0 1 sx sy refl) [
      | inl (e, t) ↦ rw t (zero-HasValue (a + c) (b + d) (omega arith))
      | inr (inl (e, t)) ↦ rw t (
          minus-HasValue (units y - units x) (a + c) (b + d) (Representable-eq _ _ (omega arith) r)
            (omega arith))
      | inr (inr (e, t)) ↦ rw t (
          plus-HasValue (units x - units y) (a + c) (b + d) (Representable-eq _ _ (omega arith) r)
            (omega arith))
    ]
  ]
  | inr (sx, ex) ↦ elim w.value [
    | inl (sy, ey) ↦ elim (add_other_sign x y 1 0 sx sy refl) [
      | inl (e, t) ↦ rw t (zero-HasValue (a + c) (b + d) (omega arith))
      | inr (inl (e, t)) ↦ rw t (
          plus-HasValue (units y - units x) (a + c) (b + d) (Representable-eq _ _ (omega arith) r)
            (omega arith))
      | inr (inr (e, t)) ↦ rw t (
          minus-HasValue (units x - units y) (a + c) (b + d) (Representable-eq _ _ (omega arith) r)
            (omega arith))
    ]
    | inr (sy, ey) ↦ rw (add_same_sign x y 1 sx sy) (
        minus-HasValue (units x + units y) (a + c) (b + d) (Representable-eq _ _ (omega arith) r)
          (omega arith))
  ]
]

-- The sum of two finite doubles has the exact value where that is representable.
pub add-HasValue :
    (x y a b c d : ℕ)
    → HasValue x a b
    → HasValue y c d
    → Representable ((a + c - (b + d)) + (b + d - (a + c)))
    → HasValue (x ⊕ y) (a + c) (b + d)
add-HasValue x y a b c d v w r =
    rw (add-finite x y v.finite w.finite) (add_finite-HasValue x y a b c d v w r)

pub sub-HasValue :
    (x y a b c d : ℕ)
    → HasValue x a b
    → HasValue y c d
    → Representable ((a + d - (b + c)) + (b + c - (a + d)))
    → HasValue (x ⊖ y) (a + d) (b + c)
unfolding ◌⊖◌
sub-HasValue x y a b c d v w r =
    let f = w.finite in
    let number : is_nan y ≡ false = ground arith in
    rw number (add-HasValue x (neg y) a b d c v (neg-HasValue y c d w) r)

mul_pos : (a p : ℕ) → 0 < a → 1 ≤ p → 0 < a * p
mul_pos a p h l = grind arith

pub units-pos : (x : ℕ) → is_zero x ≡ false → 0 < units x
unfolding units
units-pos x h =
    let p = one-le-pow (exponent_of x - 1) 2 (omega arith) in
    let t = mul_pos (2 ^ 52 + fraction_of x) (2 ^ (exponent_of x - 1)) (omega arith) p in
    ground arith

pub units-none : (x : ℕ) → is_zero x ≡ true → units x ≡ 0
unfolding units
units-none x h = ground arith

-- The test whether a double is above 0 reads its value.
pub less-zero : (x a b : ℕ) → HasValue x a b → less 0 x ≡ ltb b a
unfolding less
less-zero x a b v =
    let f = v.finite in
    let l = v.fits in
    let w = v.value in
    elim (Bool-cases (is_zero x)) [
      | inl z ↦ let u = units-none x z in ground arith
      | inr z ↦ let u = units-pos x z in ground arith
    ]

pub less-below_zero : (x a b : ℕ) → HasValue x a b → less x 0 ≡ ltb a b
unfolding less
less-below_zero x a b v =
    let f = v.finite in
    let l = v.fits in
    let w = v.value in
    elim (Bool-cases (is_zero x)) [
      | inl z ↦ let u = units-none x z in ground arith
      | inr z ↦ let u = units-pos x z in ground arith
    ]
