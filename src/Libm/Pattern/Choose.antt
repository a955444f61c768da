-- ===== src/Libm/Pattern/Choose.antt =====
-- `fmin` and `fmax`.
use wasm_cxx_shim.Prelude.{
  ℕ, ◌+◌, ◌-◌, ◌==◌, ltb, ◌^◌, ◌<◌, ◌≡◌, ◌⊎◌, true, false, ◌||◌, arith, if◌then◌else◌,
}
use wasm_cxx_shim.Libm.Double.{sign_of, magnitude, is_nan, less, equal, less_equal}
use wasm_cxx_shim.Libm.Pattern.{fmin, fmax}

fmin_bounds :
    (x y : ℕ)
    → x < 2 ^ 64
    → y < 2 ^ 64
    → is_nan x ≡ false
    → is_nan y ≡ false
    → ((fmin x y ≡ x) ⊎ (fmin x y ≡ y))
      × (less_equal (fmin x y) x ≡ true)
      × (less_equal (fmin x y) y ≡ true)
unfolding fmin less equal less_equal
fmin_bounds x y hx hy p q = (ground arith, ground arith, ground arith)

fmax_bounds :
    (x y : ℕ)
    → x < 2 ^ 64
    → y < 2 ^ 64
    → is_nan x ≡ false
    → is_nan y ≡ false
    → ((fmax x y ≡ x) ⊎ (fmax x y ≡ y))
      × (less_equal x (fmax x y) ≡ true)
      × (less_equal y (fmax x y) ≡ true)
unfolding fmax less equal less_equal
fmax_bounds x y hx hy p q = (ground arith, ground arith, ground arith)

-- Of two 64-bit patterns that are no NaN, fmin returns one that is at most both, and fmax one that
-- both are at most.
pub fmin-fmax_bounds :
    (x y : ℕ)
    → x < 2 ^ 64
    → y < 2 ^ 64
    → is_nan x ≡ false
    → is_nan y ≡ false
    → (((fmin x y ≡ x) ⊎ (fmin x y ≡ y))
        × (less_equal (fmin x y) x ≡ true)
        × (less_equal (fmin x y) y ≡ true))
      × (((fmax x y ≡ x) ⊎ (fmax x y ≡ y))
          × (less_equal x (fmax x y) ≡ true)
          × (less_equal y (fmax x y) ≡ true))
fmin-fmax_bounds x y hx hy p q = (fmin_bounds x y hx hy p q, fmax_bounds x y hx hy p q)

-- With a NaN among the arguments, fmin and fmax return the second if the first is a NaN, else the
-- first.
pub fmin-fmax_nan :
    (x y : ℕ)
    → is_nan x || is_nan y ≡ true
    → (fmin x y ≡ (if is_nan x then y else x)) × (fmax x y ≡ (if is_nan x then y else x))
unfolding fmin fmax
fmin-fmax_nan x y h = (ground arith, ground arith)

-- The place of a pattern that is no NaN from minus infinity on, with -0 before +0.
abbrev pub rank : ℕ → ℕ
rank x = if sign_of x == 0 then 2 ^ 63 + magnitude x else 2 ^ 63 - 1 - magnitude x

-- On 64-bit patterns fmin and fmax return the smaller and the larger of two numbers, in an order that has
-- -0 before +0; with a NaN among them they return the second if the first is a NaN, and else the first.
pub fmin-fmax_lem :
    (x y : ℕ)
    → x < 2 ^ 64
    → y < 2 ^ 64
    → (fmin x y
        ≡ (if is_nan x then y else if is_nan y then x else if ltb (rank x) (rank y) then x else y))
      × (fmax x y ≡ (
          if is_nan x then y else if is_nan y then x else if ltb (rank x) (rank y) then y else x))
unfolding fmin fmax less
fmin-fmax_lem x y hx hy = (ground arith, ground arith)
