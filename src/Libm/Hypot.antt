-- ===== src/Libm/Hypot.antt =====
-- libm/src/musl/hypot.c, with `SPLIT` for `FLT_EVAL_METHOD` 0.
pub mod Laws
use wasm_cxx_shim.Prelude.{ℕ, ◌+◌, ◌-◌, ◌*◌, ◌/◌, ◌%◌, ◌^◌, bit_and, ◌||◌, ltb, ◌==◌, if◌then◌else◌}
use wasm_cxx_shim.Libm.Double.{exponent_of, power, one, ◌⊕◌, ◌⊖◌, ◌⊗◌}
use wasm_cxx_shim.Libm.Sqrt.{sqrt}

abbrev split : ℕ
split = power (0x3ff + 27) ⊕ one

-- `*hi` and `*lo`.
unfoldable pub sq : ℕ → ℕ × ℕ
sq x =
    let xc = x ⊗ split in
    let xh = x ⊖ xc ⊕ xc in
    let xl = x ⊖ xh in let hi = x ⊗ x in (hi, xh ⊗ xh ⊖ hi ⊕ power 0x400 ⊗ xh ⊗ xl ⊕ xl ⊗ xl)

-- z * sqrt(ly+lx+hy+hx)
unfoldable pub root_of_squares : ℕ → ℕ → ℕ → ℕ
root_of_squares z x y = let (hx, lx) = sq x in let (hy, ly) = sq y in z ⊗ sqrt (ly ⊕ lx ⊕ hy ⊕ hx)

-- `x` and `y` have no sign, and `y` is not above `x`.
unfoldable pub hypot_ordered : ℕ → ℕ → ℕ
hypot_ordered x y =
    let ex = x / 2 ^ 52 in
    let ey = y / 2 ^ 52 in
    let up = power (0x3ff + 700) in
    let down = power (0x3ff - 700) in
    if ey == 0x7ff
    then y
    else if ex == 0x7ff || y == 0
    then x
    else if ltb (ey + 64) ex
    then x ⊕ y
    else if ltb (0x3ff + 510) ex
    then root_of_squares up (x ⊗ down) (y ⊗ down)
    else if ltb ey (0x3ff - 450)
    then root_of_squares down (x ⊗ up) (y ⊗ up)
    else root_of_squares one x y

unfoldable pub hypot : ℕ → ℕ → ℕ
hypot x y =
    let ux = bit_and x ((2 ^ 64 - 1) / 2) in
    let uy = bit_and y ((2 ^ 64 - 1) / 2) in
    if ltb ux uy then hypot_ordered uy ux else hypot_ordered ux uy
