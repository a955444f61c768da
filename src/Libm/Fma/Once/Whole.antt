-- ===== src/Libm/Fma/Once/Whole.antt =====
-- libm/src/musl/fma.c: fma on finite numbers.
use wasm_cxx_shim.Prelude.{
  ℕ, ◌*◌, ◌^◌, ◌<◌, ◌≡◌, arith, Bool-cases, inl, inr, ◌∙◌, ap, refl, true, not,
}
use wasm_cxx_shim.Prelude.Int.{ltb_ℤ}
use wasm_cxx_shim.Libm.Double.{magnitude, inf_bits, is_zero, units}
use wasm_cxx_shim.Libm.Double.Value.{units-none, units-pos}
use wasm_cxx_shim.Libm.Fma.{normalize, zeroinfnan_exponent, fma}
use wasm_cxx_shim.Libm.Fma.Wide.{mul_bound}
use wasm_cxx_shim.Libm.Fma.Normalize.{normalize-Normalized, normalize-zero, small-exponent}
use wasm_cxx_shim.Libm.Fma.Once.{product, rounded_once}
use wasm_cxx_shim.Libm.Fma.Once.Zero.{zero-product, zero-addend}
use wasm_cxx_shim.Libm.Fma.Once.Sums.{fused_lem}

-- The test for a 0, on a finite number.
zero_test :
    (x : ℕ)
    → x < 2 ^ 64
    → magnitude x < inf_bits
    → ltb_ℤ (normalize x).e zeroinfnan_exponent ≡ not (is_zero x)
zero_test x l h = elim (Bool-cases (is_zero x)) [
  | inl z ↦ rw (normalize-zero x l z, z) refl
  | inr z ↦ rw z (small-exponent x (normalize x) (normalize-Normalized x l h z))
]

-- fma of three finite 64-bit patterns is the exact x * y + z rounded once, to nearest with ties to even:
-- subnormal results, overflow to infinity and the cancellation to 0 included. An exact 0 is +0 where
-- the product and the addend have unequal signs, and has their sign otherwise.
pub fma_lem :
    (x y z : ℕ)
    → x < 2 ^ 64
    → y < 2 ^ 64
    → z < 2 ^ 64
    → magnitude x < inf_bits
    → magnitude y < inf_bits
    → magnitude z < inf_bits
    → fma x y z ≡ rounded_once x y z
unfolding fma
fma_lem x y z lx ly lz fx fy fz =
    let tx = zero_test x lx fx in
    let ty = zero_test y ly fy in
    let tz = zero_test z lz fz in
    elim (Bool-cases (is_zero x)) [
      | inl zx ↦
          let none = units-none x zx in
          let p : product x y ≡ 0 = ap (λ (i : ℕ). i * units y) none ∙ omega arith in
          rw (tx, zx) (zero-product x y z fx fy fz lz p)
      | inr zx ↦ elim (Bool-cases (is_zero y)) [
        | inl zy ↦
            let none = units-none y zy in
            let p : product x y ≡ 0 = ap (λ (i : ℕ). units x * i) none ∙ omega arith in
            rw (tx, ty, zx, zy) (zero-product x y z fx fy fz lz p)
        | inr zy ↦
            let p = mul_bound 1 1 (units x) (units y) (units-pos x zx) (units-pos y zy) in
            elim (Bool-cases (is_zero z)) [
              | inl zz ↦
                  let above : ltb_ℤ zeroinfnan_exponent (normalize z).e ≡ true =
                    rw (normalize-zero z lz zz) refl in
                  rw (tx, ty, tz, zx, zy, zz, above) (zero-addend x y z fx fy zz (omega arith))
              | inr zz ↦
                  rw (tx, ty, tz, zx, zy, zz)
                    (fused_lem x y z (normalize x) (normalize y) (normalize z) lx ly lz fx fy fz
                      (normalize-Normalized x lx fx zx) (normalize-Normalized y ly fy zy)
                      (normalize-Normalized z lz fz zz))
            ]
      ]
    ]
