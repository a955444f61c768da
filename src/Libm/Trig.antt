-- ===== src/Libm/Trig.antt =====
-- libm/src/musl/sin.c, cos.c and tan.c. Undefined (`none`) where `__rem_pio2` is. The results of
-- FORCE_EVAL are not used.
pub mod Ends
use wasm_cxx_shim.Prelude.{
  ℕ, ◌+◌, ◌-◌, ◌*◌, ◌/◌, ◌%◌, ◌^◌, ltb, leb, ◌==◌, if◌then◌else◌, Option, none, some, ◌>>=◌,
}
use wasm_cxx_shim.Prelude.Int.{ℤ, pos, negsuc}
use wasm_cxx_shim.Libm.Double.{one, neg, ◌⊖◌}
use wasm_cxx_shim.Libm.Kernels.{kernel_sin, kernel_cos, kernel_tan}
use wasm_cxx_shim.Libm.RemPio2.{Remainder, high_magnitude, rem_pio2}

-- `n & 3`
abbrev pub quadrant : ℤ → ℕ
quadrant (pos n) = n % 4
quadrant (negsuc n) = 3 - n % 4

unfoldable pub sin_reduced : Remainder → ℕ
sin_reduced r =
    let k = quadrant r.n in
    if k == 0
    then kernel_sin r.y0 r.y1 1
    else if k == 1
    then kernel_cos r.y0 r.y1
    else if k == 2
    then neg (kernel_sin r.y0 r.y1 1)
    else neg (kernel_cos r.y0 r.y1)

unfoldable pub sin : ℕ → Option ℕ
sin x =
    let ix = high_magnitude x in
    if leb ix 0x3fe921fb
    then some (if ltb ix 0x3e500000 then x else kernel_sin x 0 0)
    else if leb 0x7ff00000 ix
    then some (x ⊖ x)
    else do r ← rem_pio2 x; some (sin_reduced r)

unfoldable pub cos_reduced : Remainder → ℕ
cos_reduced r =
    let k = quadrant r.n in
    if k == 0
    then kernel_cos r.y0 r.y1
    else if k == 1
    then neg (kernel_sin r.y0 r.y1 1)
    else if k == 2
    then neg (kernel_cos r.y0 r.y1)
    else kernel_sin r.y0 r.y1 1

unfoldable pub cos : ℕ → Option ℕ
cos x =
    let ix = high_magnitude x in
    if leb ix 0x3fe921fb
    then some (if ltb ix 0x3e46a09e then one else kernel_cos x 0)
    else if leb 0x7ff00000 ix
    then some (x ⊖ x)
    else do r ← rem_pio2 x; some (cos_reduced r)

unfoldable pub tan : ℕ → Option ℕ
tan x =
    let ix = high_magnitude x in
    if leb ix 0x3fe921fb
    then some (if ltb ix 0x3e400000 then x else kernel_tan x 0 0)
    else if leb 0x7ff00000 ix
    then some (x ⊖ x)
    else do r ← rem_pio2 x; some (kernel_tan r.y0 r.y1 (quadrant r.n % 2))
