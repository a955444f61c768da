-- ===== src/Libm/Pattern.antt =====
-- The functions of libm/src/musl that work on the bits of a double: fabs.c, copysign.c, trunc.c,
-- ilogb.c, fmin.c and fmax.c. `FORCE_EVAL` only raises floating-point flags, which wasm lacks.
pub mod Masks
pub mod Sign
pub mod Trunc
pub mod Choose
pub mod Ilogb
use wasm_cxx_shim.Prelude.{
  ℕ, ◌+◌, ◌-◌, ◌*◌, ◌/◌, ◌%◌, ◌^◌, bit_and, bit_or, Bool, not, ◌&&◌, leb, ltb, ◌==◌, if◌then◌else◌,
}
use wasm_cxx_shim.Prelude.Int.{ℤ, pos, negsuc, sub_ℕ}
use wasm_cxx_shim.Prelude.Loop.{while}
use wasm_cxx_shim.Libm.Double.{sign_of, exponent_of, is_nan, less}

-- `u.i &= -1ULL/2`
unfoldable pub fabs : ℕ → ℕ
fabs x = bit_and x ((2 ^ 64 - 1) / 2)

unfoldable pub copysign : ℕ → ℕ → ℕ
copysign x y = bit_or (bit_and x ((2 ^ 64 - 1) / 2)) (bit_and y (2 ^ 63))

-- `u.i &= ~m` where `u.i & m` is not 0, for `m = -1ULL >> e`.
unfoldable pub clear_below : ℕ → ℕ → ℕ
clear_below x e =
    let m = (2 ^ 64 - 1) / 2 ^ e in if bit_and x m == 0 then x else bit_and x (2 ^ 64 - 1 - m)

-- The exponent `e` of the source is `b - 0x3ff`, and may be negative.
unfoldable pub trunc : ℕ → ℕ
trunc x =
    let b = exponent_of x + 12 in
    if leb (0x3ff + 52 + 12) b
    then x
    else clear_below x (if ltb b (0x3ff + 12) then 1 else b - 0x3ff)

-- The locals of the loop over a subnormal: `e` is `-0x3ff - down`.
pub record Scan : Type 0 where
  pub i : ℕ
  pub down : ℕ

abbrev pub int_max : ℤ
int_max = pos (2 ^ 31 - 1)

-- `FP_ILOGB0` and `FP_ILOGBNAN` of math.h, both -1 - 0x7fffffff.
abbrev pub fp_ilogb0 : ℤ
fp_ilogb0 = negsuc (2 ^ 31 - 1)

-- for (e = -0x3ff; i>>63 == 0; e--, i<<=1);
unfoldable pub scan : ℕ → Scan
scan i =
    while (λ (t : Scan). t.i / 2 ^ 63 == 0)
      (λ t. record { i = t.i * 2 % 2 ^ 64; down = t.down + 1 }) 64 (record { i = i; down = 0 })

unfoldable pub ilogb : ℕ → ℤ
ilogb x =
    let e = exponent_of x in
    let i = x * 2 ^ 12 % 2 ^ 64 in
    if e == 0
    then (if i == 0 then fp_ilogb0 else negsuc (0x3ff + (scan i).down - 1))
    else if e == 0x7ff
    then (if i == 0 then int_max else fp_ilogb0)
    else sub_ℕ e 0x3ff

unfoldable pub fmin : ℕ → ℕ → ℕ
fmin x y =
    if is_nan x
    then y
    else if is_nan y
    then x
    else if not (sign_of x == sign_of y)
    then (if sign_of x == 0 then y else x)
    else if less x y
    then x
    else y

unfoldable pub fmax : ℕ → ℕ → ℕ
fmax x y =
    if is_nan x
    then y
    else if is_nan y
    then x
    else if not (sign_of x == sign_of y)
    then (if sign_of x == 0 then x else y)
    else if less x y
    then y
    else x
