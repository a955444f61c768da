-- ===== src/Libm/Log2.antt =====
-- libm/src/musl/log2.c, without `__FP_FAST_FMA`, which wasm lacks.
use wasm_cxx_shim.Prelude.{ℕ, ◌+◌, ◌-◌, ◌*◌, ◌/◌, ◌%◌, ◌^◌, ◌||◌, leb, ltb, ◌==◌, if◌then◌else◌}
use wasm_cxx_shim.Prelude.Lists.{get_or}
use wasm_cxx_shim.Libm.Double.{inf_bits, power, one, of_int, ◌⊕◌, ◌⊖◌, ◌⊗◌}
use wasm_cxx_shim.Libm.Math.{sub32, sub64, shift_exponent, math_divzero, math_invalid}
use wasm_cxx_shim.Libm.Tables.Scalars.{inv_ln2_hi, inv_ln2_lo, log2_poly, log2_poly1}
use wasm_cxx_shim.Libm.Tables.Log2Tab.{log2_tab}
use wasm_cxx_shim.Libm.Tables.Log2Tab2.{log2_tab2}

-- `asuint64(r) & -1ULL << 32`
abbrev high_half : ℕ → ℕ
high_half r = r / 2 ^ 32 * 2 ^ 32

-- The branch for `x` close to 1.
unfoldable pub log2_near_one : ℕ → ℕ
log2_near_one x =
    let b = λ (i : ℕ). get_or log2_poly1 i 0 in
    let r = x ⊖ one in
    let rhi = high_half r in
    let rlo = r ⊖ rhi in
    let high = rhi ⊗ inv_ln2_hi in
    let low = rlo ⊗ inv_ln2_hi ⊕ r ⊗ inv_ln2_lo in
    let r2 = r ⊗ r in
    let r4 = r2 ⊗ r2 in
    let p = r2 ⊗ (b 0 ⊕ r ⊗ b 1) in
    let y = high ⊕ p in
    let low' = low ⊕ (high ⊖ y ⊕ p) in
    let low'' =
      low'
      ⊕ r4 ⊗ (b 2 ⊕ r ⊗ b 3 ⊕ r2 ⊗ (b 4 ⊕ r ⊗ b 5) ⊕ r4 ⊗ (b 6 ⊕ r ⊗ b 7 ⊕ r2 ⊗ (b 8 ⊕ r ⊗ b 9))) in
    y ⊕ low''

-- `log2` from the reduction to `x = 2 ^ k * z` on.
unfoldable pub log2_reduced : ℕ → ℕ
log2_reduced ix =
    let a = λ (i : ℕ). get_or log2_poly i 0 in
    let tmp = sub64 ix 0x3fe6000000000000 in
    let i = tmp / 2 ^ 46 % 64 in
    let iz = sub64 ix (tmp / 2 ^ 52 * 2 ^ 52) in
    let invc = get_or log2_tab (2 * i) 0 in
    let logc = get_or log2_tab (2 * i + 1) 0 in
    let kd = of_int (shift_exponent tmp) in
    let r = (iz ⊖ get_or log2_tab2 (2 * i) 0 ⊖ get_or log2_tab2 (2 * i + 1) 0) ⊗ invc in
    let rhi = high_half r in
    let rlo = r ⊖ rhi in
    let t1 = rhi ⊗ inv_ln2_hi in
    let t2 = rlo ⊗ inv_ln2_hi ⊕ r ⊗ inv_ln2_lo in
    let t3 = kd ⊕ logc in
    let high = t3 ⊕ t1 in
    let low = t3 ⊖ high ⊕ t1 ⊕ t2 in
    let r2 = r ⊗ r in
    let r4 = r2 ⊗ r2 in
    let p = a 0 ⊕ r ⊗ a 1 ⊕ r2 ⊗ (a 2 ⊕ r ⊗ a 3) ⊕ r4 ⊗ (a 4 ⊕ r ⊗ a 5) in low ⊕ r2 ⊗ p ⊕ high

-- `LO` and `HI`, the bits of 1 - 0x1.5b51p-5 and of 1 + 0x1.6ab2p-5.
abbrev lo : ℕ
lo = 0x3feea4af00000000

abbrev hi : ℕ
hi = 0x3ff0b55900000000

unfoldable pub log2 : ℕ → ℕ
log2 x =
    let top = x / 2 ^ 48 in
    if ltb (sub64 x lo) (hi - lo)
    then log2_near_one x
    else if leb (0x7ff0 - 0x0010) (sub32 top 0x0010)
    then (if x * 2 % 2 ^ 64 == 0
        then math_divzero 1
        else if x == inf_bits
        then x
        else if leb 0x8000 top || top / 16 % 2 ^ 11 == 0x7ff
        then math_invalid x
        else log2_reduced (sub64 (x ⊗ power (0x3ff + 52)) (52 * 2 ^ 52)))
    else log2_reduced x
