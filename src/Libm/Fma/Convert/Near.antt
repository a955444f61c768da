-- ===== src/Libm/Fma/Convert/Near.antt =====
-- libm/src/musl/fma.c: the branch for `e == -1022-63`, where the result can be the least normal number.
use wasm_cxx_shim.Prelude.{
  ℕ, ◌*◌, ◌%◌, ◌^◌, ◌≤◌, ◌<◌, ◌≡◌, ◌⊎◌, Bool, ◌==◌, arith, Bool-cases, inl, inr, sym, ap, ◌∙◌, refl,
  true, false, if◌then◌else◌,
}
use native.Mathlib.Nat.{mul_assoc}
use wasm_cxx_shim.Prelude.Int.{sub_ℕ}
use wasm_cxx_shim.Libm.Double.{
  units, bit_length, round_even, rounded, signed, equal, quotient, digits_below, add_finite, ◌⊕◌,
  ◌⊖◌, ◌⊗◌, ◌⊘◌,
}
use wasm_cxx_shim.Libm.Double.Length.{pow-add, HasDigits}
use wasm_cxx_shim.Libm.Double.Exact.{rounded_short, power_lt}
use wasm_cxx_shim.Libm.Double.Scale.{rounded-shift, length_lem, HasDigits-unique}
use wasm_cxx_shim.Libm.Rounding.{scalbn}
use wasm_cxx_shim.Libm.Rounding.Nearest.{round_even-cases}
use wasm_cxx_shim.Libm.Rounding.Scale.Up.{Exactly}
use wasm_cxx_shim.Libm.Fma.{
  signed_double, shift_left, near_subnormal, min_ratio, below_min, to_float,
}
use wasm_cxx_shim.Libm.Fma.Convert.{
  sign_bit, product_fits, scalbn-whole, signed_double-bits, signed_double-Exactly,
  sixty_three-bounds,
}
use wasm_cxx_shim.Libm.Fma.Convert.Doubled.{edge, eleven-bounds, near_inexact}

small_short : (n : ℕ) → n < 2 ^ 53 → rounded 0 n ≡ n
small_short n h =
    let v = length_lem n 53 (omega arith) h in
    let l : bit_length n ≤ 53 = elim v.least [
      | inl e ↦ omega arith
      | inr e ↦ let t = power_lt (bit_length n) 54 (omega arith) in omega arith
    ] in
    rounded_short n l h

-- The result: 11 digits are rounded away.
round_eleven : (i : ℕ) → 2 ^ 62 ≤ i → i < 2 ^ 63 → rounded 1268 (i * 2 ^ 1257) ≡ round_even i 11
unfolding rounded
round_eleven i h l =
    let shift : rounded 1268 (i * 2 ^ 1257) ≡ rounded 11 i =
      rounded-shift i 11 1257 (product_fits i 1257 (omega arith) (omega arith)) in
    let v : HasDigits 63 i = record { below = l; least = inr (omega arith) } in
    let b = HasDigits-unique _ _ _ (length_lem i 63 (omega arith) l) v in
    let r = round_even-cases i 11 in shift ∙ rw b (ground arith)

-- All that is rounded up to 2 ^ 63.
edge-least : (b : Bool) → min_ratio ⊗ to_float (below_min ⊗ edge b) ≡ signed (sign_bit b) (2 ^ 52)
unfolding ◌⊗◌ ◌⊘◌ ◌⊖◌ to_float quotient rounded bit_length digits_below units round_even ◌⊕◌
    add_finite
edge-least true = refl
edge-least false = refl

-- Whether the value is rounded up to 2 ^ 63.
edge-equal :
    (b : Bool) (i : ℕ)
    → 2 ^ 62 ≤ i
    → i < 2 ^ 63
    → ((round_even i 10 ≡ 2 ^ 53)
        × (equal (signed_double b i) (edge b) ≡ true)
        × (signed_double b i ≡ edge b))
      ⊎ (equal (signed_double b i) (edge b) ≡ false)
unfolding equal
edge-equal b i h l =
    let (low, high) = sixty_three-bounds i h l in
    let e = signed_double-bits b i h l in
    elim (Bool-cases (round_even i 10 == 2 ^ 53)) [
      | inl t ↦
          let full : round_even i 10 ≡ 2 ^ 53 = ground arith in
          let same : signed_double b i ≡ edge b = elim (Bool-cases b) [
            | inl u ↦ rw e (rw (u, full) refl)
            | inr u ↦ rw e (rw (u, full) refl)
          ] in
          inl (full, rw same (ground arith), same)
      | inr t ↦ inr (rw e (ground arith))
    ]

-- No digit is lost.
near_whole :
    (b : Bool) (i : ℕ)
    → 2 ^ 62 ≤ i
    → i < 2 ^ 63
    → i % 2 ^ 11 ≡ 0
    → Exactly (signed_double b i) (sign_bit b) (i * 2 ^ 1074)
unfolding round_even
near_whole b i h l e =
    let v = signed_double-Exactly b i h l in
    let w : round_even i 10 * 2 ^ 10 ≡ i = ground arith in rw w at v

shift_left-near : (i : ℕ) → i < 2 ^ 63 → (shift_left i 53 == 0) ≡ (i % 2 ^ 11 == 0)
shift_left-near i h = ground arith

eleven-rounded : (n : ℕ) → n ≤ 2 ^ 52 → rounded 1268 (n * 2 ^ 11 * 2 ^ 1257) ≡ n
eleven-rounded n h =
    let e : n * 2 ^ 11 * 2 ^ 1257 ≡ n * 2 ^ 1268 =
      mul_assoc n (2 ^ 11) (2 ^ 1257) ∙ ap (λ (m : ℕ). n * m) (sym (pow-add 11 1257)) in
    ap (rounded 1268) e
    ∙ rounded-shift n 0 1268 (product_fits n 1268 (omega arith) (omega arith))
    ∙ small_short n (omega arith)

edge-eleven : (i : ℕ) → round_even i 10 ≡ 2 ^ 53 → i < 2 ^ 63 → round_even i 11 ≡ 2 ^ 52
unfolding round_even
edge-eleven i h l = ground arith

-- The result of the branch, rounded once.
pub to_double_near :
    (b : Bool) (i : ℕ)
    → 2 ^ 62 ≤ i
    → i < 2 ^ 63
    → let r = signed_double b i in
      (if equal r (edge b)
        then min_ratio ⊗ to_float (below_min ⊗ r)
        else scalbn (near_subnormal i b r) (sub_ℕ 1257 2342))
      ≡ signed (sign_bit b) (rounded 1268 (i * 2 ^ 1257))
unfolding near_subnormal
to_double_near b i h l =
    let r = signed_double b i in
    let n = round_even i 11 in
    let s : sign_bit b < 2 = ground arith in
    let end = round_eleven i h l in
    let (low, high) = eleven-bounds i h l in
    elim (edge-equal b i h l) [
      | inl (full, e, same) ↦
          let least : n ≡ 2 ^ 52 = edge-eleven i full l in
          rw (e, same) (edge-least b ∙ ap (signed (sign_bit b)) (sym (end ∙ least)))
      | inr e ↦ elim (Bool-cases (i % 2 ^ 11 == 0)) [
        | inl z ↦
            let z' : (shift_left i 53 == 0) ≡ true = shift_left-near i l ∙ z in
            rw (e, z')
              (scalbn-whole r (sign_bit b) i 1257 s (omega arith) (omega arith)
                (near_whole b i h l (ground arith)))
        | inr z ↦
            let z' : (shift_left i 53 == 0) ≡ false = shift_left-near i l ∙ z in
            let v = near_inexact b i h l in
            let t = scalbn-whole _ (sign_bit b) (n * 2 ^ 11) 1257 s (omega arith) (omega arith) v in
            rw (e, z') (t ∙ ap (signed (sign_bit b)) (eleven-rounded n high ∙ sym end))
      ]
    ]
