-- ===== src/Libm/Rounding.antt =====
-- libm/src/musl/floor.c, ceil.c and round.c, scalbn.c and ldexp.c.
pub mod Nearest
pub mod Step
pub mod Parts
pub mod Whole
pub mod Ends
pub mod Floor
pub mod Ceil
pub mod Round
pub mod Scale
use wasm_cxx_shim.Prelude.{ℕ, ◌+◌, ◌-◌, ◌||◌, leb, ltb, ◌==◌, if◌then◌else◌}
use wasm_cxx_shim.Prelude.Int.{ℤ, pos, negsuc}
use wasm_cxx_shim.Libm.Double.{
  sign_of, exponent_of, is_zero, power, one, neg, less, less_equal, ◌⊕◌, ◌⊖◌, ◌⊗◌,
}

-- `toint`, 1 / DBL_EPSILON.
abbrev pub toint : ℕ
toint = power (0x3ff + 52)

-- `y` of floor and ceil: an integer next to `x`, less `x`.
unfoldable pub step_to_integer : ℕ → ℕ
step_to_integer x = if sign_of x == 0 then x ⊕ toint ⊖ toint ⊖ x else x ⊖ toint ⊕ toint ⊖ x

unfoldable pub floor : ℕ → ℕ
floor x =
    let e = exponent_of x in
    if leb (0x3ff + 52) e || is_zero x
    then x
    else let y = step_to_integer x in
      if leb e (0x3ff - 1)
      then (if sign_of x == 0 then 0 else neg one)
      else if less 0 y
      then x ⊕ y ⊖ one
      else x ⊕ y

unfoldable pub ceil : ℕ → ℕ
ceil x =
    let e = exponent_of x in
    if leb (0x3ff + 52) e || is_zero x
    then x
    else let y = step_to_integer x in
      if leb e (0x3ff - 1)
      then (if sign_of x == 0 then one else neg 0)
      else if less y 0
      then x ⊕ y ⊕ one
      else x ⊕ y

-- `round` on `a`, the argument without its sign.
unfoldable pub round_positive : ℕ → ℕ
round_positive a =
    let y = a ⊕ toint ⊖ toint ⊖ a in
    if less (power 0x3fe) y
    then y ⊕ a ⊖ one
    else if less_equal y (neg (power 0x3fe))
    then y ⊕ a ⊕ one
    else y ⊕ a

unfoldable pub round : ℕ → ℕ
round x =
    let e = exponent_of x in
    if leb (0x3ff + 52) e
    then x
    else if ltb e (0x3ff - 1)
    then 0 ⊗ x
    else if sign_of x == 0
    then round_positive x
    else neg (round_positive (neg x))

-- `y * 2 ^ n` for `n` from -1022 to 1023.
unfoldable pub scale_once : ℕ → ℤ → ℕ
scale_once y (pos n) = y ⊗ power (0x3ff + n)
scale_once y (negsuc n) = y ⊗ power (0x3ff - (n + 1))

abbrev pub small_factor : ℕ
small_factor = power (0x3ff - 1022 + 53)

-- For `n > 1023` and for `n < -1022`, where the step up is `n += 1022 - 53`.
unfoldable pub scalbn : ℕ → ℤ → ℕ
scalbn x (pos n) =
    let up = power (0x3ff + 1023) in
    if ltb 1023 n
    then (if ltb 1023 (n - 1023)
        then scale_once (x ⊗ up ⊗ up)
            (pos (if ltb 1023 (n - 1023 - 1023) then 1023 else n - 1023 - 1023))
        else scale_once (x ⊗ up) (pos (n - 1023)))
    else scale_once x (pos n)
scalbn x (negsuc n) =
    let m = n + 1 in
    if ltb 1022 m
    then (if ltb 1022 (m - 969)
        then scale_once (x ⊗ small_factor ⊗ small_factor)
            (negsuc ((if ltb 1022 (m - 969 - 969) then 1022 else m - 969 - 969) - 1))
        else scale_once (x ⊗ small_factor) (negsuc (m - 969 - 1)))
    else scale_once x (negsuc n)

unfoldable pub ldexp : ℕ → ℤ → ℕ
ldexp x n = scalbn x n
