-- ===== src/Libc/Memcpy/Correct/Merge.antt =====
-- Two neighbouring words hold the word between them: `(w >> lo) | (x << hi)`.
use wasm_cxx_shim.Prelude.{ℕ, ◌+◌, ◌*◌, ◌/◌, ◌%◌, ◌^◌, bit_or, ◌≡◌, arith}
use wasm_cxx_shim.Prelude.Bits.{bit_or-shifted}
use wasm_cxx_shim.Memory.{Memory, IsBytes, load32}

abbrev pub merged : ℕ → ℕ → ℕ → ℕ → ℕ
merged lo hi w x = bit_or (w / 2 ^ lo) (x * 2 ^ hi % 2 ^ 32)

module _ (m : Memory) (bytes : IsBytes m) (p : ℕ) where
  pub merged_one : merged 24 8 (load32 m p) (load32 m (p + 4)) ≡ load32 m (p + 3)
  unfolding load32
  merged_one = ground (
    arith,
    bytes p,
    bytes (p + 1),
    bytes (p + 2),
    bytes (p + 3),
    bytes (p + 4),
    bytes (p + 5),
    bytes (p + 6),
    bytes (p + 7),
    bit_or-shifted 8 (load32 m p / 2 ^ 24) (load32 m (p + 4) % 2 ^ 24),
  )

  pub merged_two : merged 16 16 (load32 m p) (load32 m (p + 4)) ≡ load32 m (p + 2)
  unfolding load32
  merged_two = ground (
    arith,
    bytes p,
    bytes (p + 1),
    bytes (p + 2),
    bytes (p + 3),
    bytes (p + 4),
    bytes (p + 5),
    bytes (p + 6),
    bytes (p + 7),
    bit_or-shifted 16 (load32 m p / 2 ^ 16) (load32 m (p + 4) % 2 ^ 16),
  )

  pub merged_three : merged 8 24 (load32 m p) (load32 m (p + 4)) ≡ load32 m (p + 1)
  unfolding load32
  merged_three = ground (
    arith,
    bytes p,
    bytes (p + 1),
    bytes (p + 2),
    bytes (p + 3),
    bytes (p + 4),
    bytes (p + 5),
    bytes (p + 6),
    bytes (p + 7),
    bit_or-shifted 24 (load32 m p / 2 ^ 8) (load32 m (p + 4) % 2 ^ 8),
  )
