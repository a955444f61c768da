-- ===== src/Libm/RemPio2/Compress.antt =====
-- The product of the digits with pi / 2 in `__rem_pio2_large`.
use wasm_cxx_shim.Prelude.{ℕ, ◌+◌, leb, ◌==◌, if◌then◌else◌, List, [], ◌∷◌}
use wasm_cxx_shim.Prelude.Int.{pos}
use wasm_cxx_shim.Prelude.Lists.{get_or, take}
use wasm_cxx_shim.Libm.Double.{neg, of_int, ◌⊕◌, ◌⊖◌, ◌⊗◌}
use wasm_cxx_shim.Libm.RemPio2.Terms.{twon24}

abbrev pio2_chunks : List ℕ
pio2_chunks =
    0x3ff921fb40000000 ∷ 0x3e74442d00000000 ∷ 0x3cf8469880000000 ∷ 0x3b78cc5160000000
    ∷ 0x39f01b8380000000 ∷ 0x387a252040000000 ∷ 0x36e3822280000000 ∷ 0x3569f31d00000000 ∷ []

abbrev rest_of : List ℕ → List ℕ
rest_of [] = []
rest_of (x ∷ xs) = xs

-- `q[i] = fw*(double)iq[i]` from the last digit down.
unfoldable pub scale_digits : ℕ → List ℕ → List ℕ
scale_digits fw [] = []
scale_digits fw (d ∷ ds) = fw ⊗ of_int (pos d) ∷ scale_digits (fw ⊗ twon24) ds

-- `fw += PIo2[k]*q[i+k]`
unfoldable pub dot : List ℕ → List ℕ → ℕ → ℕ
dot [] qs fw = fw
dot (p ∷ ps) [] fw = fw
dot (p ∷ ps) (q ∷ qs) fw = dot ps qs (fw ⊕ p ⊗ q)

-- `fq`: `qs` are the digits that were passed, the last one first.
unfoldable pub products : ℕ → List ℕ → List ℕ → List ℕ
products jp qs [] = []
products jp qs (d ∷ ds) = dot (take (jp + 1) pio2_chunks) (d ∷ qs) 0 ∷ products jp (d ∷ qs) ds

-- `fw += fq[i]` for `i` from `jz` down, and from 1 up.
unfoldable pub sum_down : List ℕ → ℕ
sum_down [] = 0
sum_down (x ∷ xs) = sum_down xs ⊕ x

unfoldable pub sum_up : ℕ → List ℕ → ℕ
sum_up fw [] = fw
sum_up fw (x ∷ xs) = sum_up (fw ⊕ x) xs

-- `fw = fq[i-1]+fq[i]` for `i` from `jz` down to 1.
unfoldable pub carry_down : List ℕ → List ℕ
carry_down [] = []
carry_down (x ∷ xs) = elim (carry_down xs) [
  | [] ↦ x ∷ []
  | y ∷ ys ↦ (let fw = x ⊕ y in fw ∷ (y ⊕ (x ⊖ fw)) ∷ ys)
]

-- `compress fq[] into y[]`
unfoldable pub compress : ℕ → ℕ → List ℕ → List ℕ
compress prec ih fq =
    let sign = λ (x : ℕ). if ih == 0 then x else neg x in
    let fw = sum_down fq in
    elim (carry_down fq) [
      | [] ↦ []
      | first ∷ others ↦
          if prec == 0
          then sign fw ∷ []
          else if leb prec 2
          then sign fw ∷ sign (sum_up (get_or fq 0 0 ⊖ fw) (rest_of fq)) ∷ []
          else (let low = carry_down others in
              sign first ∷ sign (get_or low 0 0) ∷ sign (sum_down (rest_of low)) ∷ [])
    ]
