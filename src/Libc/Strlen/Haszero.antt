-- ===== src/Libc/Strlen/Haszero.antt =====
-- The word test of `strlen`: exact on all four bytes at once.
use wasm_cxx_shim.Prelude.{
  ℕ, ◌+◌, ◌-◌, ◌*◌, ◌/◌, ◌%◌, ◌^◌, ◌≤◌, ◌<◌, ◌≡◌, ◌≢◌, ◌↔◌, ◌⊎◌, inl, inr, bit_and, arith,
}
use Prim.Native.Nat.{min}
use wasm_cxx_shim.Prelude.Bits.{bit_and-halves, bit_and-shifted, bit_and-digit, bit_and-one}
use native.Mathlib.Decide.{ℕ_discrete}
use wasm_cxx_shim.Libc.Strlen.{ones, highs, haszero}

-- One byte of the mask `0x01010101`.
mask_byte : (y c : ℕ) → bit_and y (c * 2 ^ 8 + 1) ≡ bit_and (y / 2 ^ 8) c * 2 ^ 8 + y % 2
mask_byte y c =
    let half : (c * 2 ^ 8 + 1) / 2 ≡ c * 2 ^ 7 = omega arith in
    let same : y / 2 / 2 ^ 7 ≡ y / 2 ^ 8 = omega arith in
    rw (bit_and-halves y (c * 2 ^ 8 + 1), half, bit_and-shifted 7 (y / 2) c, same) (omega arith)

-- `& HIGHS` keeps the top bit of each byte.
high_bits :
    (x : ℕ)
    → bit_and x highs
      ≡ x / 2 ^ 7 % 2 * 2 ^ 7
        + x / 2 ^ 15 % 2 * 2 ^ 15
        + x / 2 ^ 23 % 2 * 2 ^ 23
        + x / 2 ^ 31 % 2 * 2 ^ 31
high_bits x =
    let y = x / 2 ^ 7 in
    omega (
      arith,
      bit_and-shifted 7 x 0x01010101,
      mask_byte y 0x010101,
      mask_byte (y / 2 ^ 8) 0x0101,
      mask_byte (y / 2 ^ 8 / 2 ^ 8) 1,
      bit_and-one (y / 2 ^ 8 / 2 ^ 8 / 2 ^ 8),
    )

module _ (b0 b1 b2 b3 : ℕ) (h0 : b0 < 256) (h1 : b1 < 256) (h2 : b2 < 256) (h3 : b3 < 256) where
  abbrev word : ℕ
  word = b0 + b1 * 2 ^ 8 + b2 * 2 ^ 16 + b3 * 2 ^ 24

  abbrev less : ℕ
  less = (word + 2 ^ 32 - ones) % 2 ^ 32

  abbrev flipped : ℕ
  flipped = 2 ^ 32 - 1 - word

  less_full :
      1 ≤ b0
      → 1 ≤ b1
      → 1 ≤ b2
      → 1 ≤ b3
      → less ≡ (b0 - 1) + (b1 - 1) * 2 ^ 8 + (b2 - 1) * 2 ^ 16 + (b3 - 1) * 2 ^ 24
  less_full p0 p1 p2 p3 = omega arith

  flipped_bytes :
      flipped ≡ (255 - b0) + (255 - b1) * 2 ^ 8 + (255 - b2) * 2 ^ 16 + (255 - b3) * 2 ^ 24
  flipped_bytes = omega arith

  -- With no byte zero, no byte has its top bit in both.
  full-zero : 1 ≤ b0 → 1 ≤ b1 → 1 ≤ b2 → 1 ≤ b3 → haszero word ≡ 0
  unfolding haszero
  full-zero p0 p1 p2 p3 =
      let l = less_full p0 p1 p2 p3 in
      let f = flipped_bytes in
      let digit0 : min (less / 2 ^ 7 % 2) (flipped / 2 ^ 7 % 2) ≡ 0 = omega arith in
      let digit1 : min (less / 2 ^ 15 % 2) (flipped / 2 ^ 15 % 2) ≡ 0 = omega arith in
      let digit2 : min (less / 2 ^ 23 % 2) (flipped / 2 ^ 23 % 2) ≡ 0 = omega arith in
      let digit3 : min (less / 2 ^ 31 % 2) (flipped / 2 ^ 31 % 2) ≡ 0 = omega arith in
      omega (
        arith,
        high_bits (bit_and less flipped),
        bit_and-digit 7 less flipped,
        bit_and-digit 15 less flipped,
        bit_and-digit 23 less flipped,
        bit_and-digit 31 less flipped,
      )

  -- The lowest zero byte has its top bit in both: no borrow comes from below it.
  abbrev Marked : ℕ → Type 0
  Marked k = (less / 2 ^ k % 2 ≡ 1) × (flipped / 2 ^ k % 2 ≡ 1)

  lowest_zero :
      (b0 ≡ 0) ⊎ (b1 ≡ 0) ⊎ (b2 ≡ 0) ⊎ (b3 ≡ 0) → Marked 7 ⊎ Marked 15 ⊎ Marked 23 ⊎ Marked 31
  lowest_zero z = elim (ℕ_discrete b0 0) [
    | yes e ↦ inl (omega arith, omega arith)
    | no n0 ↦ elim (ℕ_discrete b1 0) [
      | yes e ↦ inr (inl (omega arith, omega arith))
      | no n1 ↦ elim (ℕ_discrete b2 0) [
        | yes e ↦ inr (inr (inl (omega arith, omega arith)))
        | no n2 ↦ inr (inr (inr (omega arith, omega arith)))
      ]
    ]
  ]

  zero-positive : (b0 ≡ 0) ⊎ (b1 ≡ 0) ⊎ (b2 ≡ 0) ⊎ (b3 ≡ 0) → 1 ≤ haszero word
  unfolding haszero
  zero-positive z = omega (
    arith,
    lowest_zero z,
    high_bits (bit_and less flipped),
    bit_and-digit 7 less flipped,
    bit_and-digit 15 less flipped,
    bit_and-digit 23 less flipped,
    bit_and-digit 31 less flipped,
  )

  -- The test is zero exactly when no byte of the word is: no false hit, and no miss.
  pub haszero_iff : (haszero word ≡ 0) ↔ ((b0 ≢ 0) × (b1 ≢ 0) × (b2 ≢ 0) × (b3 ≢ 0))
  haszero_iff = (
    λ e. (
      λ z. omega (arith, zero-positive (inl z)),
      λ z. omega (arith, zero-positive (inr (inl z))),
      λ z. omega (arith, zero-positive (inr (inr (inl z)))),
      λ z. omega (arith, zero-positive (inr (inr (inr z)))),
    ),
    λ (n0, n1, n2, n3). full-zero (omega arith) (omega arith) (omega arith) (omega arith),
  )
