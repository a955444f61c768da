-- ===== src/Libm/RemPio2/Large.antt =====
-- libm/src/musl/__rem_pio2_large.c, for arguments that are not negative, as its caller has them:
-- the digits of its integers are then natural numbers. Undefined (`none`) are a `prec` above 3,
-- a loop that leaves its array below 0, and a recomputation that runs out of fuel: `iq` has 20
-- entries, so that many rounds are enough.
use wasm_cxx_shim.Prelude.{
  ℕ, zero, suc, ◌+◌, ◌-◌, ◌*◌, ◌/◌, ◌%◌, ◌^◌, Bool, true, false, ltb, ◌==◌, if◌then◌else◌, List, [],
  ◌∷◌, ◌++◌, Option, none, some, ◌>>=◌,
}
use mathlib.Core.List.{reverse}
use mathlib.Core.Option
use wasm_cxx_shim.Prelude.Int
use wasm_cxx_shim.Prelude.Int.{ℤ, pos, negsuc, ◌+ℤ◌, ◌-ℤ◌}
use wasm_cxx_shim.Prelude.Lists.{length, get_or}
use wasm_cxx_shim.Libm.Double.{power, one, of_int, equal, less_equal, ◌⊖◌, ◌⊗◌}
use wasm_cxx_shim.Libm.Rounding.{floor, scalbn}
use wasm_cxx_shim.Libm.RemPio2.Terms.{init_jk, whole, two24, twon24, product_digit, distill}
use wasm_cxx_shim.Libm.RemPio2.Compress.{scale_digits, products, compress}

-- `z`, `n`, `ih` and `iq`.
pub record Part : Type 0 where
  pub z : ℕ
  pub n : ℕ
  pub ih : ℕ
  pub iq : List ℕ

unfoldable pub set_last : List ℕ → ℕ → List ℕ
set_last [] d = []
set_last (x ∷ []) d = d ∷ []
set_last (x ∷ y ∷ xs) d = x ∷ set_last (y ∷ xs) d

-- `compute n`
unfoldable pub integer_part : List ℕ → ℕ → ℤ → Part
integer_part iq z q0 =
    let z' = scalbn z q0 in
    let trimmed = z' ⊖ power 0x402 ⊗ floor (z' ⊗ power 0x3fc) in
    let n = whole trimmed in
    let rest = trimmed ⊖ of_int (pos n) in
    let last = get_or iq (length iq - 1) 0 in
    elim q0 [
      | pos zero ↦ record { z = rest; n = n; ih = last / 2 ^ 23; iq = iq }
      | pos (suc k) ↦
          let i = last / 2 ^ (24 - suc k) in
          let low = last - i * 2 ^ (24 - suc k) in
          record { z = rest; n = n + i; ih = low / 2 ^ (23 - suc k); iq = set_last iq low }
      | negsuc k ↦ record {
        z = rest;
        n = n;
        ih = if less_equal (power 0x3fe) rest then 2 else 0;
        iq = iq;
      }
    ]

abbrev pub put : ℕ → List ℕ × ℕ → List ℕ × ℕ
put d (iq, carry) = (d ∷ iq, carry)

-- `compute 1-q`: the digits and the carry.
unfoldable pub complement : ℕ → List ℕ → List ℕ × ℕ
complement carry [] = ([], carry)
complement zero (j ∷ iq) = elim (j == 0) [
  | true ↦ put j (complement 0 iq)
  | false ↦ put (0x1000000 - j) (complement 1 iq)
]
complement (suc carry) (j ∷ iq) = put (0xffffff - j) (complement (suc carry) iq)

-- The rare case `q0 > 0`.
unfoldable pub mask_last : List ℕ → ℤ → List ℕ
mask_last iq q0 =
    let last = get_or iq (length iq - 1) 0 in
    elim q0 [
      | pos zero ↦ iq
      | pos (suc zero) ↦ set_last iq (last % 2 ^ 23)
      | pos (suc (suc zero)) ↦ set_last iq (last % 2 ^ 22)
      | pos (suc (suc (suc k))) ↦ iq
      | negsuc k ↦ iq
    ]

-- `ih > 0`
unfoldable pub above_half : Part → ℤ → Part
above_half p q0 =
    let (iq, carry) = complement 0 p.iq in
    let z =
      if p.ih == 2 then (if carry == 0 then one ⊖ p.z else one ⊖ p.z ⊖ scalbn one q0) else p.z in
    record { z = z; n = p.n + 1; ih = p.ih; iq = mask_last iq q0 }

-- `j |= iq[i]` from `jk` on is 0.
unfoldable pub zero_from : ℕ → List ℕ → Bool
zero_from jk [] = true
zero_from zero (x ∷ iq) = if x == 0 then zero_from zero iq else false
zero_from (suc jk) (x ∷ iq) = zero_from jk iq

-- `k`, the number of terms needed.
unfoldable pub terms_needed : List ℕ → ℕ → Option ℕ
terms_needed iq zero = none
terms_needed iq (suc i) = if get_or iq i 0 == 0 then Option.map suc (terms_needed iq i) else some 1

-- From `recompute` on: `jz` is the length of `iq`.
unfoldable pub recompute : ℕ → List ℕ → ℕ → ℕ → ℤ → ℕ → Option Part
recompute zero x jk jv q0 jz = none
recompute (suc fuel) x jk jv q0 jz =
    let (iq, z) = distill x jv jz (product_digit x jv jz) in
    let p = integer_part iq z q0 in
    let p' = if ltb 0 p.ih then above_half p q0 else p in
    elim (equal p'.z 0) [
      | false ↦ some p'
      | true ↦ elim (zero_from jk p'.iq) [
        | false ↦ some p'
        | true ↦ elim (terms_needed p'.iq jk) [
          | none ↦ none
          | some k ↦ recompute fuel x jk jv q0 (jz + k)
        ]
      ]
    ]

-- `chop off zero terms`: the digits up to the last that is not 0.
unfoldable pub chop : List ℕ → List ℕ
chop [] = []
chop (x ∷ iq) = elim (chop iq) [ [] ↦ if x == 0 then [] else x ∷ [] | y ∷ ys ↦ x ∷ y ∷ ys ]

-- The digits `iq[0]` to `iq[jz]` with the exponent `q0` of the last.
unfoldable pub last_digits : Part → ℤ → Option (List ℕ × ℤ)
last_digits p q0 =
    let z = scalbn p.z (Int.neg q0) in
    let fw = of_int (pos (whole (twon24 ⊗ z))) in
    if equal p.z 0
    then (let iq = chop p.iq in
        if length iq == 0 then none else some (iq, q0 -ℤ pos (24 * (length p.iq + 1 - length iq))))
    else if less_equal two24 z
    then some (p.iq ++ (whole (z ⊖ two24 ⊗ fw) ∷ whole fw ∷ []), q0 +ℤ pos 24)
    else some (p.iq ++ (whole z ∷ []), q0)

-- `jv`
abbrev start_chunk : ℤ → ℕ
start_chunk (pos e) = (e - 3) / 24
start_chunk (negsuc e) = 0

-- `n&7` and `y`.
unfoldable pub rem_pio2_large : List ℕ → ℤ → ℕ → Option (ℕ × List ℕ)
rem_pio2_large x e0 prec = do
  let jv = start_chunk e0
  let q0 = e0 -ℤ pos (24 * (jv + 1))
  jk ← init_jk prec
  p ← recompute 20 x jk jv q0 jk
  (iq, q1) ← last_digits p q0
  some (p.n % 8, compress prec p.ih (products jk [] (scale_digits (scalbn one q1) (reverse iq))))
