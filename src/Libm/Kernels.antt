-- ===== src/Libm/Kernels.antt =====
-- libm/src/musl/__sin.c, __cos.c and __tan.c: the polynomials on the interval around 0.
use wasm_cxx_shim.Prelude.{ℕ, ◌*◌, ◌/◌, ◌%◌, ◌^◌, List, ◌∷◌, [], leb, ◌==◌, if◌then◌else◌}
use wasm_cxx_shim.Prelude.Lists.{get_or}
use wasm_cxx_shim.Libm.Double.{sign_of, power, one, neg, ◌⊕◌, ◌⊖◌, ◌⊗◌, ◌⊘◌}

-- The coefficients of `__sin`, from the lowest power.
abbrev pub sin_poly : List ℕ
sin_poly =
    0xbfc5555555555549 ∷ 0x3f8111111110f8a6 ∷ 0xbf2a01a019c161d5 ∷ 0x3ec71de357b1fe7d
    ∷ 0xbe5ae5e68a2b9ceb ∷ 0x3de5d93a5acfd57c ∷ []

-- The coefficients of `__cos`, from the lowest power.
abbrev pub cos_poly : List ℕ
cos_poly =
    0x3fa555555555554c ∷ 0xbf56c16c16c15177 ∷ 0x3efa01a019cb1590 ∷ 0xbe927e4f809c52ad
    ∷ 0x3e21ee9ebdb4b1c4 ∷ 0xbda8fae9be8838d4 ∷ []

-- `T`.
abbrev pub tan_poly : List ℕ
tan_poly =
    0x3fd5555555555563 ∷ 0x3fc111111110fe7a ∷ 0x3faba1ba1bb341fe ∷ 0x3f9664f48406d637
    ∷ 0x3f8226e3e96e8493 ∷ 0x3f6d6d22c9560328 ∷ 0x3f57dbc8fee08315 ∷ 0x3f4344d8f2f26501
    ∷ 0x3f3026f71a8d1068 ∷ 0x3f147e88a03792a6 ∷ 0x3f12b80f32f0a7e9 ∷ 0xbef375cbdb605373
    ∷ 0x3efb2a7074bf7ad4 ∷ []

abbrev pub pio4 : ℕ
pio4 = 0x3fe921fb54442d18

abbrev pub pio4lo : ℕ
pio4lo = 0x3c81a62633145c07

-- `iy` is 0 where the tail `y` is.
unfoldable pub kernel_sin : ℕ → ℕ → ℕ → ℕ
kernel_sin x y iy =
    let s = λ (i : ℕ). get_or sin_poly i 0 in
    let z = x ⊗ x in
    let w = z ⊗ z in
    let r = s 1 ⊕ z ⊗ (s 2 ⊕ z ⊗ s 3) ⊕ z ⊗ w ⊗ (s 4 ⊕ z ⊗ s 5) in
    let v = z ⊗ x in
    if iy == 0 then x ⊕ v ⊗ (s 0 ⊕ z ⊗ r) else x ⊖ (z ⊗ (power 0x3fe ⊗ y ⊖ v ⊗ r) ⊖ y ⊖ v ⊗ s 0)

unfoldable pub kernel_cos : ℕ → ℕ → ℕ
kernel_cos x y =
    let c = λ (i : ℕ). get_or cos_poly i 0 in
    let z = x ⊗ x in
    let w = z ⊗ z in
    let r = z ⊗ (c 0 ⊕ z ⊗ (c 1 ⊕ z ⊗ c 2)) ⊕ w ⊗ w ⊗ (c 3 ⊕ z ⊗ (c 4 ⊕ z ⊗ c 5)) in
    let hz = power 0x3fe ⊗ z in let w' = one ⊖ hz in w' ⊕ (one ⊖ w' ⊖ hz ⊕ (z ⊗ r ⊖ x ⊗ y))

-- SET_LOW_WORD(w0, 0)
abbrev pub high_word : ℕ → ℕ
high_word w = w / 2 ^ 32 * 2 ^ 32

-- `r` of the source, for the argument `x` and its tail `y`.
unfoldable pub tan_rest : ℕ → ℕ → ℕ
tan_rest x y =
    let t = λ (i : ℕ). get_or tan_poly i 0 in
    let z = x ⊗ x in
    let w = z ⊗ z in
    let r = t 1 ⊕ w ⊗ (t 3 ⊕ w ⊗ (t 5 ⊕ w ⊗ (t 7 ⊕ w ⊗ (t 9 ⊕ w ⊗ t 11)))) in
    let v = z ⊗ (t 2 ⊕ w ⊗ (t 4 ⊕ w ⊗ (t 6 ⊕ w ⊗ (t 8 ⊕ w ⊗ (t 10 ⊕ w ⊗ t 12))))) in
    let s = z ⊗ x in y ⊕ z ⊗ (s ⊗ (r ⊕ v) ⊕ y) ⊕ s ⊗ t 0

-- `|x| >= 0.6744`, for `x` and `y` without the sign of `x`; `odd` is 0 or 1.
unfoldable pub tan_big : ℕ → ℕ → ℕ → ℕ
tan_big x y odd =
    let x' = pio4 ⊖ x ⊕ (pio4lo ⊖ y) in
    let r = tan_rest x' 0 in
    let w = x' ⊕ r in
    let s = if odd == 0 then one else neg one in s ⊖ power 0x400 ⊗ (x' ⊕ (r ⊖ w ⊗ w ⊘ (w ⊕ s)))

unfoldable pub kernel_tan : ℕ → ℕ → ℕ → ℕ
kernel_tan x y odd =
    let hx = x / 2 ^ 32 in
    if leb 0x3fe59428 (hx % 2 ^ 31)
    then (if sign_of x == 0 then tan_big x y odd else neg (tan_big (neg x) (neg y) odd))
    else let r = tan_rest x y in
      let w = x ⊕ r in
      if odd == 0
      then w
      else let w0 = high_word w in
        let v = r ⊖ (w0 ⊖ x) in
        let a = neg one ⊘ w in let a0 = high_word a in a0 ⊕ a ⊗ (one ⊕ a0 ⊗ w0 ⊕ a0 ⊗ v)
