-- ===== src/Libm/Fma/Convert/ToDouble.antt =====
-- libm/src/musl/fma.c: one rounding of the 63 bits and the exponent.
use wasm_cxx_shim.Prelude.{
  ℕ, ◌-◌, ◌*◌, ◌^◌, ◌≤◌, ◌<◌, ◌≡◌, Bool, leb, ltb, ◌==◌, arith, Bool-cases, inl, inr, ◌∙◌, true,
}
use wasm_cxx_shim.Prelude.Int.{negsuc, sub_ℕ, ltb_ℤ}
use wasm_cxx_shim.Libm.Double.{rounded, signed}
use wasm_cxx_shim.Libm.Fma.{to_double}
use wasm_cxx_shim.Libm.Fma.Convert.{sign_bit, to_double_high, to_double_low}
use wasm_cxx_shim.Libm.Fma.Convert.Near.{to_double_near}

below-exponent : (f k : ℕ) → k ≤ 2342 → ltb_ℤ (sub_ℕ f 2342) (negsuc k) ≡ ltb f (2341 - k)
below-exponent f k h = elim (Bool-cases (leb 2342 f)) [
  | inl e ↦ rw e (ground arith)
  | inr e ↦ rw e (ground arith)
]

above-exponent : (f k : ℕ) → k ≤ 2340 → ltb_ℤ (negsuc k) (sub_ℕ f 2342) ≡ ltb (2341 - k) f
above-exponent f k h = elim (Bool-cases (leb 2342 f)) [
  | inl e ↦ rw e (ground arith)
  | inr e ↦ rw e (ground arith)
]

-- For 63 bits `i` with the first of them set and the exponent f - 2342, with f at most 6000, to_double is
-- i * 2 ^ (f - 2342) rounded once to a double, subnormal results and infinity included, with the given sign.
pub to_double_lem :
    (b : Bool) (i f : ℕ)
    → 2 ^ 62 ≤ i
    → i < 2 ^ 63
    → f ≤ 6000
    → to_double i b (sub_ℕ f 2342) ≡ signed (sign_bit b) (rounded 1268 (i * 2 ^ f))
unfolding to_double
to_double_lem b i f h l m =
    let low = below-exponent f 1083 (omega arith) in
    let less = below-exponent f 1084 (omega arith) in
    let more = above-exponent f 1084 (omega arith) in
    elim (Bool-cases (ltb f 1258)) [
      | inl e ↦ elim (Bool-cases (f == 1257)) [
        | inl g ↦ let z : f ≡ 1257 = ground arith in rw z (to_double_near b i h l)
        | inr g ↦
            let lower : ltb f 1257 ≡ true = ground arith in
            let first = low ∙ e in
            let second = less ∙ lower in rw (first, second) (to_double_low b i f h l (ground arith))
      ]
      | inr e ↦ rw (low, e) (to_double_high b i f h l m (ground arith))
    ]
