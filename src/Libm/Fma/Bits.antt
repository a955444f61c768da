-- ===== src/Libm/Fma/Bits.antt =====
-- The shifts of fma.c that keep a sticky bit.
use wasm_cxx_shim.Prelude.{
  ℕ, ◌+◌, ◌-◌, ◌*◌, ◌/◌, ◌%◌, ◌^◌, ◌≤◌, ◌<◌, ◌≡◌, bit_or, ◌==◌, arith, Bool-cases, inl, inr, sym,
  ap, ◌∙◌, if◌then◌else◌,
}
use native.Mathlib.Nat.{one-le-pow, div-le_self}
use wasm_cxx_shim.Prelude.Bits.{bit_or-halves, bit_or-shifted}
use wasm_cxx_shim.Libm.Double.Exact.{pow-power, mul_mono}
use wasm_cxx_shim.Libm.Double.Scale.{mod_scaled}
use wasm_cxx_shim.Libm.Double.Odd.{odd_shift}
use wasm_cxx_shim.Libm.Fma.{flag, shift_left, shift_sticky}

pub bit_or-zero : (a : ℕ) → a < 2 ^ 64 → bit_or a 0 ≡ a
bit_or-zero a h = let t = bit_or-shifted 64 a 0 h in omega arith

pub bit_or-one : (a : ℕ) → a < 2 ^ 64 → bit_or a 1 ≡ a / 2 * 2 + 1
bit_or-one a h =
    let t = bit_or-halves a 1 in let u = bit_or-zero (a / 2) (omega arith) in omega arith

-- What a shift to the left keeps of a 64-bit number.
pub shift_left_lem : (n d : ℕ) → d ≤ 64 → shift_left n d ≡ n % 2 ^ (64 - d) * 2 ^ d
shift_left_lem n d h =
    let e : 2 ^ (64 - d) * 2 ^ d ≡ 2 ^ 64 = pow-power 64 d h in
    ap (λ (m : ℕ). n * 2 ^ d % m) (sym e)
    ∙ mod_scaled n (2 ^ (64 - d)) (2 ^ d) (one-le-pow (64 - d) 2 (omega arith))
        (one-le-pow d 2 (omega arith))

-- `a | !!(n << 64-d)`
pub sticky-flag :
    (a n d : ℕ)
    → a < 2 ^ 64
    → d ≤ 64
    → bit_or a (flag (shift_left n (64 - d))) ≡ (if n % 2 ^ d == 0 then a else a / 2 * 2 + 1)
sticky-flag a n d h l =
    let e : 64 - (64 - d) ≡ d = omega arith in
    let p = one-le-pow (64 - d) 2 (omega arith) in
    let s : shift_left n (64 - d) ≡ n % 2 ^ d * 2 ^ (64 - d) =
      rw e at (shift_left_lem n (64 - d) (omega arith)) in
    elim (Bool-cases (n % 2 ^ d == 0)) [
      | inl z ↦
          let z' : n % 2 ^ d ≡ 0 = ground arith in
          let none : shift_left n (64 - d) ≡ 0 =
            s ∙ ap (λ (i : ℕ). i * 2 ^ (64 - d)) z' ∙ omega arith in
          rw (z, none) (bit_or-zero a h)
      | inr z ↦
          let some_left = mul_mono (2 ^ (64 - d)) 1 (n % 2 ^ d) (ground arith) in
          let f : flag (shift_left n (64 - d)) ≡ 1 = rw s (ground arith) in
          rw (z, f) (bit_or-one a h)
    ]

pub shift_sticky_lem : (n d : ℕ) → n < 2 ^ 64 → d ≤ 64 → shift_sticky n d ≡ odd_shift n d
unfolding odd_shift
shift_sticky_lem n d h l =
    let t : n / 2 ^ d ≤ n = div-le_self n (2 ^ d) in sticky-flag (n / 2 ^ d) n d (omega arith) l

-- `n >> 1 | (n & 1)`
pub half_sticky : (n : ℕ) → n < 2 ^ 64 → bit_or (n / 2) (n % 2) ≡ odd_shift n 1
unfolding odd_shift
half_sticky n h = elim (Bool-cases (n % 2 == 0)) [
  | inl z ↦
      let z' : n % 2 ≡ 0 = ground arith in
      let t = bit_or-zero (n / 2) (omega arith) in rw z' (t ∙ ground arith)
  | inr z ↦
      let z' : n % 2 ≡ 1 = ground arith in
      let t = bit_or-one (n / 2) (omega arith) in rw z' (t ∙ ground arith)
]
