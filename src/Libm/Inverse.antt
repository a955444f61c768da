-- ===== src/Libm/Inverse.antt =====
-- libm/src/musl/asin.c, acos.c, atan.c and atan2.c. The results of FORCE_EVAL are not used.
pub mod Domain
pub mod Quadrants
use wasm_cxx_shim.Prelude.{
  ℕ, ◌+◌, ◌-◌, ◌*◌, ◌/◌, ◌%◌, ◌^◌, ◌&&◌, ◌||◌, ltb, leb, ◌==◌, if◌then◌else◌, List, [], ◌∷◌, Bool,
}
use wasm_cxx_shim.Prelude.Int.{pos, negsuc}
use wasm_cxx_shim.Prelude.Lists.{get_or}
use wasm_cxx_shim.Libm.Double.{of_int, sign_of, is_nan, power, one, neg, ◌⊕◌, ◌⊖◌, ◌⊗◌, ◌⊘◌}
use wasm_cxx_shim.Libm.Pattern.{fabs}
use wasm_cxx_shim.Libm.Sqrt.{sqrt}
use wasm_cxx_shim.Libm.Kernels.{high_word}
use wasm_cxx_shim.Libm.RemPio2.{high_magnitude}

abbrev pub pio2_hi : ℕ
pio2_hi = 0x3ff921fb54442d18

abbrev pub pio2_lo : ℕ
pio2_lo = 0x3c91a62633145c07

-- `pS0` to `pS5`, and 1 with `qS1` to `qS4`.
abbrev pub asin_p : List ℕ
asin_p =
    0x3fc5555555555555 ∷ 0xbfd4d61203eb6f7d ∷ 0x3fc9c1550e884455 ∷ 0xbfa48228b5688f3b
    ∷ 0x3f49efe07501b288 ∷ 0x3f023de10dfdf709 ∷ []

abbrev pub asin_q : List ℕ
asin_q =
    one ∷ 0xc0033a271c8a2d4b ∷ 0x40002ae59c598ac8 ∷ 0xbfe6066c1b8d0159 ∷ 0x3fb3b8c5b12e9282 ∷ []

-- `R`
unfoldable pub rational : ℕ → ℕ
rational z =
    let a = λ (i : ℕ). get_or asin_p i 0 in
    let b = λ (i : ℕ). get_or asin_q i 0 in
    let p = z ⊗ (a 0 ⊕ z ⊗ (a 1 ⊕ z ⊗ (a 2 ⊕ z ⊗ (a 3 ⊕ z ⊗ (a 4 ⊕ z ⊗ a 5))))) in
    let q = b 0 ⊕ z ⊗ (b 1 ⊕ z ⊗ (b 2 ⊕ z ⊗ (b 3 ⊕ z ⊗ b 4))) in p ⊘ q

-- `0x1p-120f`, `0.5` and `2`.
abbrev pub tiny : ℕ
tiny = power (0x3ff - 120)

abbrev pub half : ℕ
half = power 0x3fe

abbrev pub two : ℕ
two = power 0x400

-- `(ix-0x3ff00000 | lx) == 0`
abbrev pub is_unit : ℕ → Bool
is_unit x = high_magnitude x == 0x3ff00000 && x % 2 ^ 32 == 0

-- `1 > |x| >= 0.5`
unfoldable pub asin_upper : ℕ → ℕ
asin_upper x =
    let z = (one ⊖ fabs x) ⊗ half in
    let s = sqrt z in
    let r = rational z in
    let f = high_word s in
    let c = (z ⊖ f ⊗ f) ⊘ (s ⊕ f) in
    if leb 0x3fef3333 (high_magnitude x)
    then pio2_hi ⊖ (two ⊗ (s ⊕ s ⊗ r) ⊖ pio2_lo)
    else half ⊗ pio2_hi ⊖ (two ⊗ s ⊗ r ⊖ (pio2_lo ⊖ two ⊗ c) ⊖ (half ⊗ pio2_hi ⊖ two ⊗ f))

unfoldable pub asin : ℕ → ℕ
asin x =
    let ix = high_magnitude x in
    if leb 0x3ff00000 ix
    then (if is_unit x then x ⊗ pio2_hi ⊕ tiny else 0 ⊘ (x ⊖ x))
    else if ltb ix 0x3fe00000
    then (if ltb ix 0x3e500000 && leb 0x00100000 ix then x else x ⊕ x ⊗ rational (x ⊗ x))
    else if sign_of x == 0
    then asin_upper x
    else neg (asin_upper x)

-- `x < -0.5`
unfoldable pub acos_lower : ℕ → ℕ
acos_lower x =
    let z = (one ⊕ x) ⊗ half in
    let s = sqrt z in let w = rational z ⊗ s ⊖ pio2_lo in two ⊗ (pio2_hi ⊖ (s ⊕ w))

-- `x > 0.5`
unfoldable pub acos_upper : ℕ → ℕ
acos_upper x =
    let z = (one ⊖ x) ⊗ half in
    let s = sqrt z in
    let df = high_word s in
    let c = (z ⊖ df ⊗ df) ⊘ (s ⊕ df) in let w = rational z ⊗ s ⊕ c in two ⊗ (df ⊕ w)

unfoldable pub acos : ℕ → ℕ
acos x =
    let ix = high_magnitude x in
    if leb 0x3ff00000 ix
    then (if is_unit x then (if sign_of x == 0 then 0 else two ⊗ pio2_hi ⊕ tiny) else 0 ⊘ (x ⊖ x))
    else if ltb ix 0x3fe00000
    then (if leb ix 0x3c600000
        then pio2_hi ⊕ tiny
        else pio2_hi ⊖ (x ⊖ (pio2_lo ⊖ x ⊗ rational (x ⊗ x))))
    else if sign_of x == 0
    then acos_upper x
    else acos_lower x

abbrev pub atan_hi : List ℕ
atan_hi = 0x3fddac670561bb4f ∷ 0x3fe921fb54442d18 ∷ 0x3fef730bd281f69b ∷ 0x3ff921fb54442d18 ∷ []

abbrev pub atan_lo : List ℕ
atan_lo = 0x3c7a2b7f222f65e2 ∷ 0x3c81a62633145c07 ∷ 0x3c7007887af0cbbd ∷ 0x3c91a62633145c07 ∷ []

-- `aT`
abbrev pub atan_poly : List ℕ
atan_poly =
    0x3fd555555555550d ∷ 0xbfc999999998ebc4 ∷ 0x3fc24924920083ff ∷ 0xbfbc71c6fe231671
    ∷ 0x3fb745cdc54c206e ∷ 0xbfb3b0f2af749a6d ∷ 0x3fb10d66a0d03d51 ∷ 0xbfadde2d52defd9a
    ∷ 0x3fa97b4b24760deb ∷ 0xbfa2b4442c6a6c2f ∷ 0x3f90ad3ae322da11 ∷ []

-- `s1+s2`
unfoldable pub atan_sum : ℕ → ℕ
atan_sum x =
    let a = λ (i : ℕ). get_or atan_poly i 0 in
    let z = x ⊗ x in
    let w = z ⊗ z in
    let s1 = z ⊗ (a 0 ⊕ w ⊗ (a 2 ⊕ w ⊗ (a 4 ⊕ w ⊗ (a 6 ⊕ w ⊗ (a 8 ⊕ w ⊗ a 10))))) in
    let s2 = w ⊗ (a 1 ⊕ w ⊗ (a 3 ⊕ w ⊗ (a 5 ⊕ w ⊗ (a 7 ⊕ w ⊗ a 9)))) in s1 ⊕ s2

-- `z` for `id` from 0 up and the reduced `x`.
unfoldable pub atan_part : ℕ → ℕ → ℕ
atan_part id x = get_or atan_hi id 0 ⊖ (x ⊗ atan_sum x ⊖ get_or atan_lo id 0 ⊖ x)

-- `|x| >= 0.4375`, for `x` without its sign.
unfoldable pub atan_reduced : ℕ → ℕ
atan_reduced x =
    let ix = high_magnitude x in
    let three_halves = 0x3ff8 * 2 ^ 48 in
    if ltb ix 0x3ff30000
    then (if ltb ix 0x3fe60000
        then atan_part 0 ((two ⊗ x ⊖ one) ⊘ (two ⊕ x))
        else atan_part 1 ((x ⊖ one) ⊘ (x ⊕ one)))
    else if ltb ix 0x40038000
    then atan_part 2 ((x ⊖ three_halves) ⊘ (one ⊕ three_halves ⊗ x))
    else atan_part 3 (neg one ⊘ x)

unfoldable pub atan : ℕ → ℕ
atan x =
    let ix = high_magnitude x in
    let signed = λ (z : ℕ). if sign_of x == 0 then z else neg z in
    if leb 0x44100000 ix
    then (if is_nan x then x else signed (get_or atan_hi 3 0 ⊕ tiny))
    else if ltb ix 0x3fdc0000
    then (if ltb ix 0x3e400000 then x else x ⊖ x ⊗ atan_sum x)
    else signed (atan_reduced (fabs x))

abbrev pub pi : ℕ
pi = 0x400921fb54442d18

abbrev pub pi_lo : ℕ
pi_lo = 0x3ca1a62633145c07

-- The `switch` on `m`, which is `2*sign(x)+sign(y)`: its four cases.
abbrev pub select : ℕ → ℕ → ℕ → ℕ → ℕ → ℕ
select m a b c d = if m == 0 then a else if m == 1 then b else if m == 2 then c else d

-- `z`, `atan(|y/x|)`
unfoldable pub atan_ratio : ℕ → ℕ → ℕ
atan_ratio y x =
    if sign_of x == 1 && ltb (high_magnitude y + 64 * 2 ^ 20) (high_magnitude x)
    then 0
    else atan (fabs (y ⊘ x))

unfoldable pub atan2 : ℕ → ℕ → ℕ
atan2 y x =
    let m = 2 * sign_of x + sign_of y in
    let ix = high_magnitude x in
    let iy = high_magnitude y in
    let lx = x % 2 ^ 32 in
    let ly = y % 2 ^ 32 in
    let four = power 0x401 in
    let three_pi = of_int (pos 3) ⊗ pi in
    let pio2 = if m % 2 == 1 then neg pi ⊘ two else pi ⊘ two in
    let z = atan_ratio y x in
    if is_nan x || is_nan y
    then x ⊕ y
    else if x / 2 ^ 32 == 0x3ff00000 && lx == 0
    then atan y
    else if iy == 0 && ly == 0
    then select m y y pi (neg pi)
    else if ix == 0 && lx == 0
    then pio2
    else if ix == 0x7ff00000
    then (if iy == 0x7ff00000
        then select m (pi ⊘ four) (neg pi ⊘ four) (three_pi ⊘ four) (of_int (negsuc 2) ⊗ pi ⊘ four)
        else select m 0 (neg 0) pi (neg pi))
    else if ltb (ix + 64 * 2 ^ 20) iy || iy == 0x7ff00000
    then pio2
    else select m z (neg z) (pi ⊖ (z ⊖ pi_lo)) (z ⊖ pi_lo ⊖ pi)
