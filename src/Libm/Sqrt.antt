-- ===== src/Libm/Sqrt.antt =====
-- libm/src/musl/sqrt.c, in the integer arithmetic of the source: each product, sum and shift wraps
-- at 32 or 64 bits where the source's types do.
pub mod Table
pub mod Domain
use wasm_cxx_shim.Prelude.{ℕ, ◌+◌, ◌-◌, ◌*◌, ◌/◌, ◌%◌, ◌^◌, leb, ltb, ◌==◌, if◌then◌else◌}
use wasm_cxx_shim.Prelude.Lists.{get_or}
use wasm_cxx_shim.Libm.Double.{inf_bits, power, ◌⊕◌, ◌⊗◌}
use wasm_cxx_shim.Libm.Math.{sub32, sub64, math_invalid}
use wasm_cxx_shim.Libm.Tables.Rsqrt.{rsqrt_tab}

-- The arguments are `uint32_t`.
unfoldable pub mul32 : ℕ → ℕ → ℕ
mul32 a b = a % 2 ^ 32 * (b % 2 ^ 32) / 2 ^ 32

unfoldable pub mul64 : ℕ → ℕ → ℕ
mul64 a b =
    let ahi = a / 2 ^ 32 in
    let alo = a % 2 ^ 32 in
    let bhi = b / 2 ^ 32 in
    let blo = b % 2 ^ 32 in (ahi * bhi + ahi * blo / 2 ^ 32 + alo * bhi / 2 ^ 32) % 2 ^ 64

abbrev three : ℕ
three = 0xc0000000

-- `s`, close to the root of `m`, in the form 12.52.
unfoldable pub estimate : ℕ → ℕ → ℕ
estimate ix m =
    let i = ix / 2 ^ 46 % 128 in
    let r0 = get_or rsqrt_tab i 0 * 2 ^ 16 in
    let s0 = mul32 (m / 2 ^ 32) r0 in
    let u0 = sub64 three (mul32 s0 r0) in
    let r1 = mul32 r0 u0 * 2 % 2 ^ 32 in
    let s1 = mul32 s0 u0 * 2 % 2 ^ 32 in
    let u1 = sub64 three (mul32 s1 r1) in
    let r2 = mul32 r1 u1 * 2 % 2 ^ 32 * 2 ^ 32 in
    let s2 = mul64 m r2 in
    let u2 = sub64 (three * 2 ^ 32) (mul64 s2 r2) in sub64 (mul64 s2 u2) 2 / 2 ^ 9

-- The nearest of `s` and `s + 1`, under the exponent `top`, with the value added for the flags.
unfoldable pub nearest : ℕ → ℕ → ℕ → ℕ
nearest m s top =
    let d0 = sub64 (m * 2 ^ 42 % 2 ^ 64) (s * s % 2 ^ 64) in
    let d1 = sub64 s d0 in
    let d2 = (d1 + s + 1) % 2 ^ 64 in
    let s' = (s + d1 / 2 ^ 63) % 2 ^ 52 in
    let tiny =
      (if d2 == 0 then 0 else 2 ^ 52) + (if d1 / 2 ^ 63 == d2 / 2 ^ 63 then 0 else 2 ^ 63) in
    (s' + top * 2 ^ 52 % 2 ^ 64) ⊕ tiny

-- `m`, in the form 2.62.
unfoldable pub mantissa : ℕ → ℕ → ℕ
mantissa ix top = let m = ix * 2 ^ 11 % 2 ^ 63 + 2 ^ 63 in if top % 2 == 0 then m else m / 2

-- `ix` and `top` of a normal number, or of a subnormal one that is normalized.
unfoldable pub sqrt_normal : ℕ → ℕ → ℕ
sqrt_normal ix top =
    let m = mantissa ix top in nearest m (estimate ix m) ((top + 0x3ff) % 2 ^ 64 / 2)

unfoldable pub sqrt : ℕ → ℕ
sqrt ix =
    let top = ix / 2 ^ 52 in
    if leb (0x7ff - 0x001) (sub64 top 0x001)
    then (if ix * 2 % 2 ^ 64 == 0
        then ix
        else if ix == inf_bits
        then ix
        else if ltb inf_bits ix
        then math_invalid ix
        else let scaled = ix ⊗ power (0x3ff + 52) in
          sqrt_normal scaled (sub64 (scaled / 2 ^ 52) 52))
    else sqrt_normal ix top
