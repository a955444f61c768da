-- ===== src/Libm/RemPio2/Terms.antt =====
-- The digits of the product with 2 / pi in `__rem_pio2_large`.
use wasm_cxx_shim.Prelude.{
  ℕ, zero, suc, ◌+◌, ◌-◌, ◌/◌, ◌^◌, ltb, if◌then◌else◌, List, [], ◌∷◌, Option, none, some,
}
use wasm_cxx_shim.Prelude.Int.{pos}
use wasm_cxx_shim.Prelude.Lists.{length, get_or}
use wasm_cxx_shim.Libm.Double.{units, power, of_int, ◌⊕◌, ◌⊖◌, ◌⊗◌}

abbrev pub init_jk : ℕ → Option ℕ
init_jk prec = get_or (some 3 ∷ some 4 ∷ some 4 ∷ some 6 ∷ []) prec none

-- The terms for `LDBL_MAX_EXP` up to 1024.
abbrev pub ipio2 : List ℕ
ipio2 =
    0xa2f983 ∷ 0x6e4e44 ∷ 0x1529fc ∷ 0x2757d1 ∷ 0xf534dd ∷ 0xc0db62 ∷ 0x95993c ∷ 0x439041 ∷ 0xfe5163
    ∷ 0xabdebb ∷ 0xc561b7 ∷ 0x246e3a ∷ 0x424dd2 ∷ 0xe00649 ∷ 0x2eea09 ∷ 0xd1921c ∷ 0xfe1deb
    ∷ 0x1cb129 ∷ 0xa73ee8 ∷ 0x8235f5 ∷ 0x2ebb44 ∷ 0x84e99c ∷ 0x7026b4 ∷ 0x5f7e41 ∷ 0x3991d6
    ∷ 0x398353 ∷ 0x39f49c ∷ 0x845f8b ∷ 0xbdf928 ∷ 0x3b1ff8 ∷ 0x97ffde ∷ 0x05980f ∷ 0xef2f11
    ∷ 0x8b5a0a ∷ 0x6d1f6d ∷ 0x367ecf ∷ 0x27cb09 ∷ 0xb74f46 ∷ 0x3f669e ∷ 0x5fea2d ∷ 0x7527ba
    ∷ 0xc7ebe5 ∷ 0xf17b3d ∷ 0x0739f7 ∷ 0x8a5292 ∷ 0xea6bfb ∷ 0x5fb11f ∷ 0x8d5d08 ∷ 0x560330
    ∷ 0x46fc7b ∷ 0x6babf0 ∷ 0xcfbc20 ∷ 0x9af436 ∷ 0x1da9e3 ∷ 0x91615e ∷ 0xe61b08 ∷ 0x659985
    ∷ 0x5f14a0 ∷ 0x68408d ∷ 0xffd880 ∷ 0x4d7327 ∷ 0x310606 ∷ 0x1556ca ∷ 0x73a8c9 ∷ 0x60e27b
    ∷ 0xc08c6b ∷ []

-- `(int32_t)x` for `x` from 0 up to below 2 ^ 31.
unfoldable pub whole : ℕ → ℕ
whole x = units x / 2 ^ 1074

abbrev pub two24 : ℕ
two24 = power (0x3ff + 24)

abbrev pub twon24 : ℕ
twon24 = power (0x3ff - 24)

-- `f[i]`
unfoldable pub chunk : ℕ → ℕ → ℕ → ℕ
chunk jx jv i = if ltb (jv + i) jx then 0 else of_int (pos (get_or ipio2 (jv + i - jx) 0))

-- `fw += x[j]*f[k]` along `x`, where `k` falls.
unfoldable pub convolve : List ℕ → ℕ → ℕ → ℕ → ℕ → ℕ
convolve [] jx jv k fw = fw
convolve (t ∷ ts) jx jv k fw = convolve ts jx jv (k - 1) (fw ⊕ t ⊗ chunk jx jv k)

-- `q[i]`
unfoldable pub product_digit : List ℕ → ℕ → ℕ → ℕ
product_digit x jv i = let jx = length x - 1 in convolve x jx jv (jx + i) 0

-- The loop over `j` that cuts `z` into digits: `iq` and the last `z`.
unfoldable pub distill : List ℕ → ℕ → ℕ → ℕ → List ℕ × ℕ
distill x jv zero z = ([], z)
distill x jv (suc j) z =
    let fw = of_int (pos (whole (twon24 ⊗ z))) in
    let (iq, last) = distill x jv j (product_digit x jv j ⊕ fw) in
    (whole (z ⊖ two24 ⊗ fw) ∷ iq, last)
