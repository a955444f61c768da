-- ===== src/Libm/Pow/Logarithm.antt =====
-- `log_inline` of libm/src/musl/pow.c, without `__FP_FAST_FMA`.
use wasm_cxx_shim.Prelude.{ℕ, ◌+◌, ◌*◌, ◌/◌, ◌%◌, ◌^◌}
use wasm_cxx_shim.Prelude.Lists.{get_or}
use wasm_cxx_shim.Libm.Double.{one, of_int, ◌⊕◌, ◌⊖◌, ◌⊗◌}
use wasm_cxx_shim.Libm.Math.{sub64, shift_exponent}
use wasm_cxx_shim.Libm.Tables.Scalars.{ln2_hi, ln2_lo, pow_poly}
use wasm_cxx_shim.Libm.Tables.PowTab.{pow_log_tab}

-- The result and `*tail`.
unfoldable pub log_inline : ℕ → ℕ × ℕ
log_inline ix =
    let a = λ (i : ℕ). get_or pow_poly i 0 in
    let tmp = sub64 ix 0x3fe6955500000000 in
    let i = tmp / 2 ^ 45 % 128 in
    let iz = sub64 ix (tmp / 2 ^ 52 * 2 ^ 52) in
    let kd = of_int (shift_exponent tmp) in
    let invc = get_or pow_log_tab (3 * i) 0 in
    let logc = get_or pow_log_tab (3 * i + 1) 0 in
    let logctail = get_or pow_log_tab (3 * i + 2) 0 in
    let zhi = (iz + 2 ^ 31) % 2 ^ 64 / 2 ^ 32 * 2 ^ 32 in
    let zlo = iz ⊖ zhi in
    let rhi = zhi ⊗ invc ⊖ one in
    let rlo = zlo ⊗ invc in
    let r = rhi ⊕ rlo in
    let t1 = kd ⊗ ln2_hi ⊕ logc in
    let t2 = t1 ⊕ r in
    let lo1 = kd ⊗ ln2_lo ⊕ logctail in
    let lo2 = t1 ⊖ t2 ⊕ r in
    let ar = a 0 ⊗ r in
    let ar2 = r ⊗ ar in
    let ar3 = r ⊗ ar2 in
    let arhi = a 0 ⊗ rhi in
    let arhi2 = rhi ⊗ arhi in
    let hi = t2 ⊕ arhi2 in
    let lo3 = rlo ⊗ (ar ⊕ arhi) in
    let lo4 = t2 ⊖ hi ⊕ arhi2 in
    let p = ar3 ⊗ (a 1 ⊕ r ⊗ a 2 ⊕ ar2 ⊗ (a 3 ⊕ r ⊗ a 4 ⊕ ar2 ⊗ (a 5 ⊕ r ⊗ a 6))) in
    let lo = lo1 ⊕ lo2 ⊕ lo3 ⊕ lo4 ⊕ p in let y = hi ⊕ lo in (y, hi ⊖ y ⊕ lo)
