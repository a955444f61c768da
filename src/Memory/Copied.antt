-- ===== src/Memory/Copied.antt =====
-- What a forward copy has done after `k` of its bytes, and how one store carries it on.
use wasm_cxx_shim.Prelude.{ℕ, ◌+◌, ◌≤◌, ◌<◌, ◌≡◌, ◌⊎◌, arith}
use wasm_cxx_shim.Memory.{Memory, IsBytes, store, load32, store32, memory_copy}

-- The memory after `k` bytes have gone from `s` to `d`, the others as in `m`.
abbrev pub Copied : Memory → ℕ → ℕ → ℕ → Memory → Type 0
Copied m d s k m' = (a : ℕ) → m' a ≡ memory_copy m d s k a

-- A forward copy reads nothing that it has written.
abbrev pub Forward : ℕ → ℕ → ℕ → Type 0
Forward d s n = (d ≤ s) ⊎ (s + n ≤ d)

module _ (m : Memory) (d s : ℕ) where
  pub Copied-zero : Copied m d s 0 m
  unfolding memory_copy
  Copied-zero a = ground arith

  module _ (k : ℕ) {m' : Memory} (copied : Copied m d s k m') where
    -- The bytes of the source that are still to be read are intact.
    pub unread : (n x : ℕ) → Forward d s n → k ≤ n → s + k ≤ x → x < s + n → m' x ≡ m x
    unfolding memory_copy
    unread n x f h p q = ground (arith, copied x)

    pub Copied-store : Copied m d s (k + 1) (store m' (d + k) (m (s + k)))
    unfolding memory_copy store
    Copied-store a = ground (arith, copied a)

    pub Copied-store32 :
        IsBytes m → (w : ℕ) → w ≡ load32 m (s + k) → Copied m d s (k + 4) (store32 m' (d + k) w)
    unfolding memory_copy store32 load32
    Copied-store32 b w e a =
        ground (arith, copied a, b (s + k), b (s + k + 1), b (s + k + 2), b (s + k + 3))

-- The same from the end: `k` bytes are copied, and the one or the four before them come next.
module _ (m : Memory) (d s k : ℕ) where
  pub Copied-store_before :
      {m' : Memory} → Copied m (d + 1) (s + 1) k m' → Copied m d s (k + 1) (store m' d (m s))
  unfolding memory_copy store
  Copied-store_before copied a = ground (arith, copied a)

  pub Copied-store32_before :
      {m' : Memory}
      → Copied m (d + 4) (s + 4) k m'
      → IsBytes m
      → (w : ℕ) → w ≡ load32 m s
      → Copied m d s (k + 4) (store32 m' d w)
  unfolding memory_copy store32 load32
  Copied-store32_before copied b w e a =
      ground (arith, copied a, b s, b (s + 1), b (s + 2), b (s + 3))

  -- A backward copy to higher addresses has not touched what it has still to read.
  pub unread_before : {m' : Memory} (x : ℕ) → Copied m d s k m' → x < d → m' x ≡ m x
  unfolding memory_copy
  unread_before x copied h = ground (arith, copied x)
