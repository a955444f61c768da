-- ===== src/Libm/Log.antt =====
-- libm/src/musl/log.c, without `__FP_FAST_FMA`, which wasm lacks.
pub mod Domain
pub mod Decimal
use wasm_cxx_shim.Prelude.{ℕ, ◌+◌, ◌-◌, ◌*◌, ◌/◌, ◌%◌, ◌^◌, ◌||◌, leb, ltb, ◌==◌, if◌then◌else◌}
use wasm_cxx_shim.Prelude.Lists.{get_or}
use wasm_cxx_shim.Libm.Double.{inf_bits, power, one, of_int, ◌⊕◌, ◌⊖◌, ◌⊗◌}
use wasm_cxx_shim.Libm.Math.{sub32, sub64, shift_exponent, math_divzero, math_invalid}
use wasm_cxx_shim.Libm.Tables.Scalars.{ln2_hi, ln2_lo, log_poly, log_poly1}
use wasm_cxx_shim.Libm.Tables.LogTab.{log_tab}
use wasm_cxx_shim.Libm.Tables.LogTab2.{log_tab2}

abbrev pub off : ℕ
off = 0x3fe6000000000000

-- The branch for `x` close to 1.
unfoldable pub log_near_one : ℕ → ℕ
log_near_one x =
    let b = λ (i : ℕ). get_or log_poly1 i 0 in
    let r = x ⊖ one in
    let r2 = r ⊗ r in
    let r3 = r ⊗ r2 in
    let y =
      r3
      ⊗ (b 1
          ⊕ r ⊗ b 2
          ⊕ r2 ⊗ b 3
          ⊕ r3 ⊗ (b 4 ⊕ r ⊗ b 5 ⊕ r2 ⊗ b 6 ⊕ r3 ⊗ (b 7 ⊕ r ⊗ b 8 ⊕ r2 ⊗ b 9 ⊕ r3 ⊗ b 10))) in
    let w = r ⊗ power (0x3ff + 27) in
    let rhi = r ⊕ w ⊖ w in
    let rlo = r ⊖ rhi in
    let w' = rhi ⊗ rhi ⊗ b 0 in
    let high = r ⊕ w' in
    let low = r ⊖ high ⊕ w' in let low' = low ⊕ b 0 ⊗ rlo ⊗ (rhi ⊕ r) in y ⊕ low' ⊕ high

-- `log` from the reduction to `x = 2 ^ k * z` on.
unfoldable pub log_reduced : ℕ → ℕ
log_reduced ix =
    let a = λ (i : ℕ). get_or log_poly i 0 in
    let tmp = sub64 ix off in
    let i = tmp / 2 ^ 45 % 128 in
    let iz = sub64 ix (tmp / 2 ^ 52 * 2 ^ 52) in
    let invc = get_or log_tab (2 * i) 0 in
    let logc = get_or log_tab (2 * i + 1) 0 in
    let r = (iz ⊖ get_or log_tab2 (2 * i) 0 ⊖ get_or log_tab2 (2 * i + 1) 0) ⊗ invc in
    let kd = of_int (shift_exponent tmp) in
    let w = kd ⊗ ln2_hi ⊕ logc in
    let high = w ⊕ r in
    let low = w ⊖ high ⊕ r ⊕ kd ⊗ ln2_lo in
    let r2 = r ⊗ r in low ⊕ r2 ⊗ a 0 ⊕ r ⊗ r2 ⊗ (a 1 ⊕ r ⊗ a 2 ⊕ r2 ⊗ (a 3 ⊕ r ⊗ a 4)) ⊕ high

-- `LO` and `HI`, the bits of 1 - 0x1p-4 and of 1 + 0x1.09p-4.
abbrev lo : ℕ
lo = 0x3fee000000000000

abbrev hi : ℕ
hi = 0x3ff1090000000000

unfoldable pub log : ℕ → ℕ
log x =
    let top = x / 2 ^ 48 in
    if ltb (sub64 x lo) (hi - lo)
    then log_near_one x
    else if leb (0x7ff0 - 0x0010) (sub32 top 0x0010)
    then (if x * 2 % 2 ^ 64 == 0
        then math_divzero 1
        else if x == inf_bits
        then x
        else if leb 0x8000 top || top / 16 % 2 ^ 11 == 0x7ff
        then math_invalid x
        else log_reduced (sub64 (x ⊗ power (0x3ff + 52)) (52 * 2 ^ 52)))
    else log_reduced x
