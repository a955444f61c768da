-- ===== src/Libm/Rounding/Scale/Scalbn.antt =====
-- libm/src/musl/scalbn.c: one rounding, for every exponent.
use wasm_cxx_shim.Prelude.{
  ℕ, suc, ◌+◌, ◌-◌, ◌*◌, ◌^◌, ◌≤◌, ◌<◌, ◌≡◌, ltb, ◌==◌, arith, Bool-cases, inl, inr, ap, ◌∙◌, refl,
  leb→le,
}
use native.Mathlib.Nat.{pow-le-pow_right, le_trans}
use wasm_cxx_shim.Prelude.Int.{ℤ, pos, negsuc}
use wasm_cxx_shim.Libm.Double.{sign_of, magnitude, inf_bits, units, rounded, signed}
use wasm_cxx_shim.Libm.Double.Length.{pow-add}
use wasm_cxx_shim.Libm.Double.Exact.{mul_mono}
use wasm_cxx_shim.Libm.Double.Scale.{rounded-overflow, rounded-tiny}
use wasm_cxx_shim.Libm.Rounding.{scale_once, scalbn}
use wasm_cxx_shim.Libm.Rounding.Scale.{scaled, units-finite, scale_once-pos, scale_once-negsuc}
use wasm_cxx_shim.Libm.Rounding.Scale.Up.{start-Carried, up-Carried, scale_once-Carried}
use wasm_cxx_shim.Libm.Rounding.Scale.Down.{down-Exactly}

join_powers : (n i j k : ℕ) → i + j ≡ k → n * 2 ^ i * 2 ^ j ≡ n * 2 ^ k
join_powers n i j k h =
    let t : n * 2 ^ i * 2 ^ j ≡ n * 2 ^ (i + j) = rw (pow-add i j) (grind arith) in
    t ∙ ap (λ (m : ℕ). n * 2 ^ m) h

-- From three steps on, everything but 0 is out of range.
clipped_up : (n i : ℕ) → 3069 ≤ i → rounded 0 (n * 2 ^ 3069) ≡ rounded 0 (n * 2 ^ i)
clipped_up n i h = elim (Bool-cases (n == 0)) [
  | inl e ↦
      let z : n ≡ 0 = ground arith in
      let a : 0 * 2 ^ 3069 ≡ 0 = omega arith in
      let b : 0 * 2 ^ i ≡ 0 = omega arith in rw (z, a, b) refl
  | inr e ↦
      let a = mul_mono (2 ^ 3069) 1 n (ground arith) in
      let b = mul_mono (2 ^ i) 1 n (ground arith) in
      let c : 2 ^ 2098 ≤ 2 ^ 3069 =
        pow-le-pow_right {n = 2} (omega arith) {i = 2098} {j = 3069} (omega arith) in
      let d : 2 ^ 2098 ≤ 2 ^ i =
        pow-le-pow_right {n = 2} (omega arith) {i = 2098} {j = i} (omega arith) in
      rw
        (
          rounded-overflow (n * 2 ^ 3069) (le_trans c (omega arith)),
          rounded-overflow (n * 2 ^ i) (le_trans d (omega arith)),
        )
        refl
]

clipped_down : (n m : ℕ) → n < 2 ^ 2098 → 2961 ≤ m → rounded 2960 n ≡ rounded m n
clipped_down n m h l =
    let a : 2 ^ 2960 ≤ 2 ^ m =
      pow-le-pow_right {n = 2} (omega arith) {i = 2960} {j = m} (omega arith) in
    let b : 2 * 2 ^ 2098 ≤ 2 ^ 2960 = leb→le _ _ refl in
    rw
      (
        rounded-tiny n 2960 2098 (omega arith) h (omega arith),
        rounded-tiny n m 2098 (omega arith) h (omega arith),
      )
      refl

scalbn_up :
    (x n : ℕ)
    → x < 2 ^ 64
    → magnitude x < inf_bits
    → scalbn x (pos n) ≡ signed (sign_of x) (rounded 0 (units x * 2 ^ n))
unfolding scalbn scale_once
scalbn_up x n l h =
    let u = units x in
    let s : sign_of x < 2 = omega arith in
    let one = up-Carried x (sign_of x) u 1023 s (omega arith) (start-Carried x l h) in
    let two =
      up-Carried (scale_once x (pos 1023)) (sign_of x) (u * 2 ^ 1023) 1023 s (omega arith) one in
    let z = scale_once (scale_once x (pos 1023)) (pos 1023) in
    let end = λ (i : ℕ) (m : i ≤ 1023).
      scale_once-Carried z (sign_of x) (u * 2 ^ 1023 * 2 ^ 1023) i s m two in
    let both = join_powers u 1023 1023 2046 refl in
    let result = λ (m : ℕ). signed (sign_of x) (rounded 0 m) in
    elim (Bool-cases (ltb 1023 n)) [
      | inl a ↦ elim (Bool-cases (ltb 1023 (n - 1023))) [
        | inl b ↦ elim (Bool-cases (ltb 1023 (n - 1023 - 1023))) [
          | inl c ↦
              rw (a, b, c)
                (end 1023 (omega arith)
                  ∙ ap result
                      (ap (λ (i : ℕ). i * 2 ^ 1023) both ∙ join_powers u 2046 1023 3069 refl)
                  ∙ ap (signed (sign_of x)) (clipped_up u n (ground arith)))
          | inr c ↦
              rw (a, b, c)
                (end (n - 1023 - 1023) (ground arith)
                  ∙ ap result (
                      ap (λ (i : ℕ). i * 2 ^ (n - 1023 - 1023)) both
                      ∙ join_powers u 2046 (n - 1023 - 1023) n (ground arith)))
        ]
        | inr b ↦
            rw (a, b)
              (scale_once-Carried (scale_once x (pos 1023)) (sign_of x) (u * 2 ^ 1023) (n - 1023) s
                  (ground arith) one
                ∙ ap result (join_powers u 1023 (n - 1023) n (ground arith)))
      ]
      | inr a ↦ rw a (scale_once-pos x n l h (ground arith))
    ]

-- From `scale_once` on: `j` is what is left of the exponent.
last_down :
    (x y m j : ℕ)
    → y < 2 ^ 64
    → magnitude y < inf_bits
    → sign_of y ≡ sign_of x
    → 1 ≤ j
    → j ≤ 1022
    → rounded j (units y) ≡ rounded m (units x)
    → scale_once y (negsuc (j - 1)) ≡ signed (sign_of x) (rounded m (units x))
last_down x y m j l h s low high e =
    let f : suc (j - 1) ≡ j = omega arith in
    scale_once-negsuc y (j - 1) l h (omega arith) ∙ rw (f, s, e) refl

scalbn_down :
    (x i : ℕ)
    → x < 2 ^ 64
    → magnitude x < inf_bits
    → scalbn x (negsuc i) ≡ signed (sign_of x) (rounded (i + 1) (units x))
unfolding scalbn scale_once
scalbn_down x i l h =
    let m = i + 1 in
    let y = scale_once x (negsuc 968) in
    let z = scale_once y (negsuc 968) in
    let one = λ (j : ℕ) (t : 54 ≤ j). down-Exactly x j l h t in
    let two = λ (j : ℕ) (t : 54 ≤ j).
      down-Exactly y j (one 54 (omega arith)).0 (one 54 (omega arith)).1 t in
    let ly = (one 54 (omega arith)).0 in
    let fy = (one 54 (omega arith)).1 in
    let sy = (one 54 (omega arith)).2 in
    let lz = (two 54 (omega arith)).0 in
    let fz = (two 54 (omega arith)).1 in
    let sz = (two 54 (omega arith)).2 ∙ sy in
    let ez = λ (j : ℕ) (t : 54 ≤ j). (two j t).3 ∙ (one (j + 969) (omega arith)).3 in
    elim (Bool-cases (ltb 1022 m)) [
      | inl a ↦ elim (Bool-cases (ltb 1022 (m - 969))) [
        | inl b ↦ elim (Bool-cases (ltb 1022 (m - 969 - 969))) [
          | inl c ↦
              rw (a, b, c)
                (last_down x z m 1022 lz fz sz (omega arith) (omega arith) (
                  ez 1022 (omega arith)
                  ∙ clipped_down (units x) m (units-finite x h) (ground arith)))
          | inr c ↦
              let e : m - 969 - 969 + 969 + 969 ≡ m = ground arith in
              rw (a, b, c)
                (last_down x z m (m - 969 - 969) lz fz sz (ground arith) (ground arith)
                  (rw e at (ez (m - 969 - 969) (ground arith))))
        ]
        | inr b ↦
            let e : m - 969 + 969 ≡ m = ground arith in
            rw (a, b)
              (last_down x y m (m - 969) ly fy sy (ground arith) (ground arith)
                (rw e at (one (m - 969) (ground arith)).3))
      ]
      | inr a ↦
          let f : suc i ≡ m = omega arith in
          rw a (scale_once-negsuc x i l h (ground arith) ∙ rw f refl)
    ]

-- scalbn of a finite 64-bit pattern, for every exponent, is its value times the power of two, rounded once,
-- with the sign of the argument.
pub scalbn_lem :
    (x : ℕ) (n : ℤ)
    → x < 2 ^ 64
    → magnitude x < inf_bits
    → scalbn x n ≡ signed (sign_of x) (scaled (units x) n)
unfolding scaled
scalbn_lem x (pos n) l h = scalbn_up x n l h
scalbn_lem x (negsuc i) l h = let e : suc i ≡ i + 1 = omega arith in rw e (scalbn_down x i l h)
