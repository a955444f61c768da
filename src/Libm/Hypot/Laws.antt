-- ===== src/Libm/Hypot/Laws.antt =====
-- `hypot` in its two arguments.
use wasm_cxx_shim.Prelude.{ℕ, ◌≡◌, ◌||◌, refl, true, ltb, arith, if◌then◌else◌}
use wasm_cxx_shim.Prelude.Bits.{bit_and-mask}
use wasm_cxx_shim.Libm.Double.{magnitude, is_inf, inf_bits}
use wasm_cxx_shim.Libm.Hypot.{hypot, hypot_ordered}

hypot_magnitudes :
    (x y : ℕ)
    → hypot x y ≡ (
        if ltb (magnitude x) (magnitude y)
        then hypot_ordered (magnitude y) (magnitude x)
        else hypot_ordered (magnitude x) (magnitude y))
unfolding hypot
hypot_magnitudes x y = rw (bit_and-mask 63 x, bit_and-mask 63 y) refl

-- hypot takes its arguments in either order.
pub hypot_comm : (x y : ℕ) → hypot x y ≡ hypot y x
hypot_comm x y = rw (hypot_magnitudes x y, hypot_magnitudes y x) (ground arith)

-- With an infinity among its arguments, hypot returns infinity, with a NaN in the other too.
pub hypot_infinite : (x y : ℕ) → is_inf x || is_inf y ≡ true → hypot x y ≡ inf_bits
unfolding hypot_ordered
hypot_infinite x y h = rw (hypot_magnitudes x y) (ground arith)
