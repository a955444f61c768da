-- ===== src/Libm/Pattern/Sign.antt =====
-- `fabs` and `copysign`.
use wasm_cxx_shim.Prelude.{ℕ, ◌+◌, ◌*◌, ◌/◌, ◌%◌, ◌^◌, ◌<◌, ◌≡◌, bit_and, arith}
use wasm_cxx_shim.Prelude.Bits.{bit_and-mask, bit_and-shifted, bit_and-one, bit_or-shifted}
use wasm_cxx_shim.Libm.Double.{sign_of, magnitude}
use wasm_cxx_shim.Libm.Pattern.{fabs, copysign}

fabs_bits : (x : ℕ) → fabs x ≡ x % 2 ^ 63
unfolding fabs
fabs_bits x = bit_and-mask 63 x

copysign_bits : (x y : ℕ) → copysign x y ≡ x % 2 ^ 63 + y / 2 ^ 63 % 2 * 2 ^ 63
unfolding copysign
copysign_bits x y =
    let top : bit_and y (2 ^ 63) ≡ y / 2 ^ 63 % 2 * 2 ^ 63 =
      rw (bit_and-shifted 63 y 1, bit_and-one (y / 2 ^ 63)) in
    rw (bit_and-mask 63 x, top) (bit_or-shifted 63 (x % 2 ^ 63) (y / 2 ^ 63 % 2) (omega arith))

-- On 64-bit patterns fabs clears the sign and keeps the rest; copysign has the sign of the second and
-- the rest of the first; copysign x x is x, and copysign (fabs x) y is copysign x y.
pub fabs-copysign :
    (x y : ℕ)
    → x < 2 ^ 64
    → y < 2 ^ 64
    → (sign_of (fabs x) ≡ 0)
      × (magnitude (fabs x) ≡ magnitude x)
      × (sign_of (copysign x y) ≡ sign_of y)
      × (magnitude (copysign x y) ≡ magnitude x)
      × (copysign x x ≡ x)
      × (copysign (fabs x) y ≡ copysign x y)
fabs-copysign x y hx hy =
    rw (fabs_bits x, copysign_bits x y, copysign_bits x x, copysign_bits (x % 2 ^ 63) y)
      (omega arith, omega arith, omega arith, omega arith, omega arith, omega arith)
