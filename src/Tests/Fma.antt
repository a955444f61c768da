-- ===== src/Tests/Fma.antt =====
-- scalbn, remquo and fma at inputs that meet the hypotheses of their theorems.
use wasm_cxx_shim.Prelude.{ℕ, ◌+◌, ◌≡◌, leb→le, refl, arith}
use wasm_cxx_shim.Prelude.Int
use wasm_cxx_shim.Prelude.Int.{pos, negsuc}
use wasm_cxx_shim.Libm.Double.{sign_of, one, neg, units, signed}
use wasm_cxx_shim.Libm.Rounding.{scalbn}
use wasm_cxx_shim.Libm.Rounding.Scale.{scaled}
use wasm_cxx_shim.Libm.Rounding.Scale.Scalbn.{scalbn_lem}
use wasm_cxx_shim.Libm.Rounding.Scale.Back.{scalbn-scalbn}
use wasm_cxx_shim.Libm.Remquo.{remquo}
use wasm_cxx_shim.Libm.Remquo.Exact.{quotient, IsRemainder}
use wasm_cxx_shim.Libm.Remquo.Remainder.{remquo_lem}
use wasm_cxx_shim.Libm.Fma.{fma}
use wasm_cxx_shim.Libm.Fma.Once.{rounded_once}
use wasm_cxx_shim.Libm.Fma.Once.Whole.{fma_lem}

-- The least double but one above 1.
abbrev above_one : ℕ
above_one = one + 1

-- Three units of the last place, halved: a tie.
scalbn_lem_example :
    scalbn (neg 3) (negsuc 0) ≡ signed (sign_of (neg 3)) (scaled (units (neg 3)) (negsuc 0))
scalbn_lem_example = scalbn_lem (neg 3) (negsuc 0) (omega arith) (omega arith)

-- The square of a number next to 1, less 1: two digits that a product would lose.
fma_lem_example : fma above_one above_one (neg one) ≡ rounded_once above_one above_one (neg one)
fma_lem_example =
    fma_lem above_one above_one (neg one) (omega arith) (omega arith) (omega arith) (omega arith)
      (omega arith) (omega arith)

-- The least positive double, scaled to the top of the range and back.
scalbn-scalbn_example : scalbn (scalbn (neg 1) (pos 2097)) (Int.neg (pos 2097)) ≡ neg 1
unfolding units
scalbn-scalbn_example = scalbn-scalbn (neg 1) 2097 (omega arith) (omega arith) (leb→le _ _ refl)

-- -3.5 by 1, half-way between -3 and -4.
abbrev minus_three_half : ℕ
minus_three_half = 0xc00c000000000000

remquo_lem_example :
    IsRemainder minus_three_half one (quotient minus_three_half one) (remquo minus_three_half one)
remquo_lem_example =
    remquo_lem minus_three_half one (omega arith) (omega arith) (omega arith) (omega arith) refl
