-- ===== src/Libm/Double.antt =====
-- `double` as its 64 bits, and the arithmetic of C on it: IEEE 754 binary64, rounding to nearest,
-- ties to even. A finite value is its sign and a whole number of units of 2 ^ -1074; an operation
-- computes exactly and rounds once. Which NaN an operation returns is not fixed by wasm: here the
-- canonical one.
pub mod Length
pub mod Exact
pub mod Value
pub mod Order
pub mod Scale
pub mod Odd
use wasm_cxx_shim.Prelude.{
  ℕ, zero, suc, ◌+◌, ◌-◌, ◌*◌, ◌/◌, ◌%◌, ◌^◌, Bool, false, not, ◌&&◌, ◌||◌, leb, ltb, ◌==◌,
  if◌then◌else◌,
}
use Prim.Native.Nat.{min, max}
use wasm_cxx_shim.Prelude.Int.{ℤ, pos, negsuc}

-- The fields of the pattern.
abbrev pub sign_of : ℕ → ℕ
sign_of x = x / 2 ^ 63

abbrev pub exponent_of : ℕ → ℕ
exponent_of x = x / 2 ^ 52 % 2 ^ 11

abbrev pub fraction_of : ℕ → ℕ
fraction_of x = x % 2 ^ 52

-- The pattern without its sign.
abbrev pub magnitude : ℕ → ℕ
magnitude x = x % 2 ^ 63

abbrev pub inf_bits : ℕ
inf_bits = 0x7ff * 2 ^ 52

abbrev pub nan_bits : ℕ
nan_bits = 0x7ff8 * 2 ^ 48

abbrev pub is_nan : ℕ → Bool
is_nan x = ltb inf_bits (magnitude x)

abbrev pub is_inf : ℕ → Bool
is_inf x = magnitude x == inf_bits

abbrev pub is_zero : ℕ → Bool
is_zero x = magnitude x == 0

-- Above 0 and below infinity.
abbrev pub is_positive_finite : ℕ → Bool
is_positive_finite x = ltb 0 x && ltb x inf_bits

-- 2 ^ (e - 0x3ff), for the literals of the source.
abbrev pub power : ℕ → ℕ
power e = e * 2 ^ 52

abbrev pub one : ℕ
one = power 0x3ff

-- `-x`
abbrev pub neg : ℕ → ℕ
neg x = (x + 2 ^ 63) % 2 ^ 64

-- A finite value in units of 2 ^ -1074.
unfoldable pub units : ℕ → ℕ
units x =
    if exponent_of x == 0 then fraction_of x else (2 ^ 52 + fraction_of x) * 2 ^ (exponent_of x - 1)

-- The number of binary digits of `n < 2 ^ 2 ^ j`.
unfoldable pub digits_below : ℕ → ℕ → ℕ
digits_below zero n = if n == 0 then 0 else 1
digits_below (suc j) n =
    let large = leb (2 ^ 2 ^ j) n in
    (if large then 2 ^ j else 0) + digits_below j (if large then n / 2 ^ 2 ^ j else n)

unfoldable pub bit_length : ℕ → ℕ
bit_length n = digits_below 13 n

-- `n / 2 ^ q`, to nearest, ties to even.
unfoldable pub round_even : ℕ → ℕ → ℕ
round_even n q =
    let d = n / 2 ^ q in
    let r = 2 * (n % 2 ^ q) in if ltb (2 ^ q) r || (r == 2 ^ q && d % 2 == 1) then d + 1 else d

-- The magnitude nearest to `n` units of 2 ^ -(1074 + k): 53 digits, or fewer at the bottom.
unfoldable pub rounded : ℕ → ℕ → ℕ
rounded k n = let q = max (bit_length n - 53) k in min inf_bits ((q - k) * 2 ^ 52 + round_even n q)

abbrev pub signed : ℕ → ℕ → ℕ
signed s m = s % 2 * 2 ^ 63 + m

-- The sum of two finite values.
unfoldable pub add_finite : ℕ → ℕ → ℕ
add_finite x y =
    let m = units x in
    let n = units y in
    if sign_of x == sign_of y
    then signed (sign_of x) (rounded 0 (m + n))
    else if m == n
    then 0
    else if ltb m n
    then signed (sign_of y) (rounded 0 (n - m))
    else signed (sign_of x) (rounded 0 (m - n))

infixl 65 ◌⊕◌ ◌⊖◌
infixl 70 ◌⊗◌ ◌⊘◌
unfoldable pub ◌⊕◌ : ℕ → ℕ → ℕ
x ⊕ y =
    if is_nan x || is_nan y
    then nan_bits
    else if is_inf x
    then (if is_inf y && not (sign_of x == sign_of y) then nan_bits else x)
    else if is_inf y
    then y
    else add_finite x y

unfoldable pub ◌⊖◌ : ℕ → ℕ → ℕ
x ⊖ y = if is_nan y then nan_bits else x ⊕ neg y

unfoldable pub ◌⊗◌ : ℕ → ℕ → ℕ
x ⊗ y =
    let s = sign_of x + sign_of y in
    if is_nan x || is_nan y
    then nan_bits
    else if is_inf x || is_inf y
    then (if is_zero x || is_zero y then nan_bits else signed s inf_bits)
    else signed s (rounded 1074 (units x * units y))

-- A quotient has 64 bits below the last unit, and one that says whether more follow.
unfoldable pub quotient : ℕ → ℕ → ℕ
quotient m n = let p = m * 2 ^ 1138 in rounded 65 (p / n * 2 + (if p % n == 0 then 0 else 1))

unfoldable pub ◌⊘◌ : ℕ → ℕ → ℕ
x ⊘ y =
    let s = sign_of x + sign_of y in
    if is_nan x || is_nan y || (is_inf x && is_inf y) || (is_zero x && is_zero y)
    then nan_bits
    else if is_inf x || is_zero y
    then signed s inf_bits
    else if is_inf y
    then signed s 0
    else signed s (quotient (units x) (units y))

-- The order of the values, which the patterns have but for the sign.
unfoldable pub less : ℕ → ℕ → Bool
less x y =
    if is_nan x || is_nan y || (is_zero x && is_zero y)
    then false
    else if sign_of x == 0
    then sign_of y == 0 && ltb (magnitude x) (magnitude y)
    else sign_of y == 0 || ltb (magnitude y) (magnitude x)

unfoldable pub equal : ℕ → ℕ → Bool
equal x y = not (is_nan x) && not (is_nan y) && (x == y || (is_zero x && is_zero y))

unfoldable pub less_equal : ℕ → ℕ → Bool
less_equal x y = less x y || equal x y

-- `(double)n`
unfoldable pub of_int : ℤ → ℕ
of_int (pos n) = rounded 0 (n * 2 ^ 1074)
of_int (negsuc n) = signed 1 (rounded 0 (suc n * 2 ^ 1074))
