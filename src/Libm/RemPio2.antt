-- ===== src/Libm/RemPio2.antt =====
-- libm/src/musl/__rem_pio2.c, for `FLT_EVAL_METHOD` 0. Undefined (`none`) where `__rem_pio2_large`
-- is.
pub mod Terms
pub mod Compress
pub mod Large
pub mod Digits
use wasm_cxx_shim.Prelude.{
  ℕ, suc, ◌+◌, ◌-◌, ◌*◌, ◌/◌, ◌%◌, ◌^◌, ◌||◌, ◌&&◌, ltb, leb, ◌==◌, if◌then◌else◌, List, [], ◌∷◌,
  Bool, true, false, Option, none, some, ◌>>=◌,
}
use wasm_cxx_shim.Prelude.Int
use wasm_cxx_shim.Prelude.Int.{ℤ, pos, negsuc, sub_ℕ}
use wasm_cxx_shim.Prelude.Lists.{length, get_or}
use wasm_cxx_shim.Libm.Double.{
  sign_of, exponent_of, fraction_of, power, neg, of_int, units, equal, ◌⊕◌, ◌⊖◌, ◌⊗◌,
}
use wasm_cxx_shim.Libm.RemPio2.Terms.{whole, two24}
use wasm_cxx_shim.Libm.RemPio2.Large.{rem_pio2_large}

-- `1.5/EPS`
abbrev pub half_up : ℕ
half_up = 0x4338 * 2 ^ 48

abbrev pub inv_pio2 : ℕ
inv_pio2 = 0x3fe45f306dc9c883

abbrev pub pio2_1 : ℕ
pio2_1 = 0x3ff921fb54400000

abbrev pub pio2_1t : ℕ
pio2_1t = 0x3dd0b4611a626331

abbrev pub pio2_2 : ℕ
pio2_2 = 0x3dd0b4611a600000

abbrev pub pio2_2t : ℕ
pio2_2t = 0x3ba3198a2e037073

abbrev pub pio2_3 : ℕ
pio2_3 = 0x3ba3198a2e000000

abbrev pub pio2_3t : ℕ
pio2_3t = 0x397b839a252049c1

-- `y[0]`, `y[1]` and the result `n`.
pub record Remainder : Type 0 where
  pub y0 : ℕ
  pub y1 : ℕ
  pub n : ℤ

-- `ix`, the high word without the sign.
abbrev pub high_magnitude : ℕ → ℕ
high_magnitude x = x / 2 ^ 32 % 2 ^ 31

-- Less `k * pio2_1` for `k` from 1 to 4: `c` and `ct` are `k*pio2_1` and `k*pio2_1t`.
unfoldable pub one_round : ℕ → ℕ → ℕ → ℕ → Remainder
one_round x k c ct =
    if sign_of x == 0
    then (let z = x ⊖ c in let y0 = z ⊖ ct in record { y0 = y0; y1 = z ⊖ y0 ⊖ ct; n = pos k })
    else (let z = x ⊕ c in
        let y0 = z ⊕ ct in record { y0 = y0; y1 = z ⊖ y0 ⊕ ct; n = Int.neg (pos k) })

-- `(int32_t)fn`
unfoldable pub to_int : ℕ → ℤ
to_int x = if sign_of x == 0 then pos (whole x) else Int.neg (pos (whole x))

-- The second and the third round, `(c, ct)` being `(pio2_2, pio2_2t)` and `(pio2_3, pio2_3t)`: `r`
-- and `w`.
unfoldable pub next_round : ℕ → ℕ → ℕ → ℕ → ℕ × ℕ
next_round fn t c ct = let w = fn ⊗ c in let r = t ⊖ w in (r, fn ⊗ ct ⊖ (t ⊖ r ⊖ w))

-- `y` and `n` from `r` and `w`.
unfoldable pub rounds_end : ℕ → ℕ × ℕ → Remainder
rounds_end fn (r, w) = let y0 = r ⊖ w in record { y0 = y0; y1 = r ⊖ y0 ⊖ w; n = to_int fn }

-- From the label `medium` on.
unfoldable pub medium : ℕ → Remainder
medium x =
    let fn = x ⊗ inv_pio2 ⊕ half_up ⊖ half_up in
    let ex = high_magnitude x / 2 ^ 20 in
    let first : ℕ × ℕ = (x ⊖ fn ⊗ pio2_1, fn ⊗ pio2_1t) in
    if ltb (exponent_of (first.0 ⊖ first.1) + 16) ex
    then (let second = next_round fn first.0 pio2_2 pio2_2t in
        if ltb (exponent_of (second.0 ⊖ second.1) + 49) ex
        then rounds_end fn (next_round fn second.0 pio2_3 pio2_3t)
        else rounds_end fn second)
    else rounds_end fn first

-- `while (tx[i] == 0.0) i--`: the terms up to the last that is not 0.
unfoldable pub skip_zeros : List ℕ → List ℕ
skip_zeros [] = []
skip_zeros (x ∷ xs) = elim (skip_zeros xs) [
  | [] ↦ if equal x 0 then [] else x ∷ []
  | y ∷ ys ↦ x ∷ y ∷ ys
]

-- `tx`: the fraction in three digits of 24 bits.
unfoldable pub three_terms : ℕ → List ℕ
three_terms x =
    let z = fraction_of x + power (0x3ff + 23) in
    let t0 = of_int (pos (whole z)) in
    let z1 = (z ⊖ t0) ⊗ two24 in
    let t1 = of_int (pos (whole z1)) in skip_zeros (t0 ∷ t1 ∷ (z1 ⊖ t1) ⊗ two24 ∷ [])

-- `all other (large) arguments`
unfoldable pub large : ℕ → Option Remainder
large x = do
  (n, ty) ← rem_pio2_large (three_terms x) (sub_ℕ (high_magnitude x / 2 ^ 20) (0x3ff + 23)) 1
  let y0 = get_or ty 0 0
  let y1 = get_or ty 1 0
  some (
      if sign_of x == 0
      then record { y0 = y0; y1 = y1; n = pos n }
      else record { y0 = neg y0; y1 = neg y1; n = Int.neg (pos n) })

unfoldable pub rem_pio2 : ℕ → Option Remainder
rem_pio2 x =
    let ix = high_magnitude x in
    let times = λ (k : ℕ) (c : ℕ). of_int (pos k) ⊗ c in
    let nan = x ⊖ x in
    if leb ix 0x400f6a7a
    then (if ix % 2 ^ 20 == 0x921fb
        then some (medium x)
        else if leb ix 0x4002d97c
        then some (one_round x 1 pio2_1 pio2_1t)
        else some (one_round x 2 (times 2 pio2_1) (times 2 pio2_1t)))
    else if leb ix 0x401c463b
    then (if leb ix 0x4015fdbc
        then (if ix == 0x4012d97c
            then some (medium x)
            else some (one_round x 3 (times 3 pio2_1) (times 3 pio2_1t)))
        else (if ix == 0x401921fb
            then some (medium x)
            else some (one_round x 4 (times 4 pio2_1) (times 4 pio2_1t))))
    else if ltb ix 0x413921fb
    then some (medium x)
    else if leb 0x7ff00000 ix
    then some (record { y0 = nan; y1 = nan; n = pos 0 })
    else large x
