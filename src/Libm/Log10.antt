-- ===== src/Libm/Log10.antt =====
-- libm/src/musl/log10.c. `u` is the pattern, `hx` its upper 32 bits.
use wasm_cxx_shim.Prelude.{
  ℕ, ◌+◌, ◌-◌, ◌*◌, ◌/◌, ◌%◌, ◌^◌, ◌&&◌, ◌||◌, leb, ltb, ◌==◌, if◌then◌else◌,
}
use wasm_cxx_shim.Prelude.Int.{ℤ, sub_ℕ}
use wasm_cxx_shim.Libm.Double.{power, one, neg, of_int, ◌⊕◌, ◌⊖◌, ◌⊗◌, ◌⊘◌}

abbrev ivln10hi : ℕ
ivln10hi = 0x3fdbcb7b15200000

abbrev ivln10lo : ℕ
ivln10lo = 0x3dbb9438ca9aadd5

abbrev log10_2hi : ℕ
log10_2hi = 0x3fd34413509f6000

abbrev log10_2lo : ℕ
log10_2lo = 0x3d59fef311f12b36

abbrev lg1 : ℕ
lg1 = 0x3fe5555555555593

abbrev lg2 : ℕ
lg2 = 0x3fd999999997fa04

abbrev lg3 : ℕ
lg3 = 0x3fd2492494229359

abbrev lg4 : ℕ
lg4 = 0x3fcc71c51d8e78af

abbrev lg5 : ℕ
lg5 = 0x3fc7466496cb03de

abbrev lg6 : ℕ
lg6 = 0x3fc39a09d078c69f

abbrev lg7 : ℕ
lg7 = 0x3fc2f112df3e5244

-- The result from `x`, in the range of sqrt(2)/2 to sqrt(2), and `k`.
unfoldable pub log10_reduced : ℕ → ℤ → ℕ
log10_reduced x k =
    let f = x ⊖ one in
    let hfsq = power 0x3fe ⊗ f ⊗ f in
    let s = f ⊘ (power 0x400 ⊕ f) in
    let z = s ⊗ s in
    let w = z ⊗ z in
    let t1 = w ⊗ (lg2 ⊕ w ⊗ (lg4 ⊕ w ⊗ lg6)) in
    let t2 = z ⊗ (lg1 ⊕ w ⊗ (lg3 ⊕ w ⊗ (lg5 ⊕ w ⊗ lg7))) in
    let r = t2 ⊕ t1 in
    let hi = (f ⊖ hfsq) / 2 ^ 32 * 2 ^ 32 in
    let lo = f ⊖ hi ⊖ hfsq ⊕ s ⊗ (hfsq ⊕ r) in
    let val_hi = hi ⊗ ivln10hi in
    let dk = of_int k in
    let y = dk ⊗ log10_2hi in
    let val_lo = dk ⊗ log10_2lo ⊕ (lo ⊕ hi) ⊗ ivln10lo ⊕ lo ⊗ ivln10hi in
    let w' = y ⊕ val_hi in let val_lo' = val_lo ⊕ (y ⊖ w' ⊕ val_hi) in val_lo' ⊕ w'

-- The reduction; `down` is what the scaling of a subnormal takes from `k`.
unfoldable pub log10_scaled : ℕ → ℕ → ℕ
log10_scaled u down =
    let hx = (u / 2 ^ 32 + (0x3ff00000 - 0x3fe6a09e)) % 2 ^ 32 in
    let k = sub_ℕ (hx / 2 ^ 20) (0x3ff + down) in
    let hx' = hx % 2 ^ 20 + 0x3fe6a09e in log10_reduced (hx' * 2 ^ 32 + u % 2 ^ 32) k

unfoldable pub log10 : ℕ → ℕ
log10 x =
    let hx = x / 2 ^ 32 in
    if ltb hx 0x00100000 || leb 0x80000000 hx
    then (if x * 2 % 2 ^ 64 == 0
        then neg one ⊘ (x ⊗ x)
        else if leb 0x80000000 hx
        then (x ⊖ x) ⊘ 0
        else log10_scaled (x ⊗ power (0x3ff + 54)) 54)
    else if leb 0x7ff00000 hx
    then x
    else if hx == 0x3ff00000 && x * 2 ^ 32 % 2 ^ 64 == 0
    then 0
    else log10_scaled x 0
