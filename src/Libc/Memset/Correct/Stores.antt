-- ===== src/Libc/Memset/Correct/Stores.antt =====
-- How far each group of stores of `memset` carries the two filled ends.
use wasm_cxx_shim.Prelude.{ℕ, ◌+◌, ◌-◌, ◌≤◌, ◌≡◌, arith}
use wasm_cxx_shim.Memory.{Memory, store32, memory_fill}
use wasm_cxx_shim.Libc.Memset.{
  word_of, bytes_one, bytes_three, bytes_four, words_four, words_twelve, words_rest,
}
use wasm_cxx_shim.Libc.Memset.Ends.{
  Ends, Ends-none, Ends-head, Ends-tail, store-fill, store32-fill, fill-fill,
}

-- Two and four words in a row.
pair_fill :
    (m : Memory) (p q c : ℕ)
    → q ≡ p + 4
    → store32 (store32 m p (word_of c)) q (word_of c) ≡ memory_fill m p c 8
pair_fill m p q c e =
    rw (e, store32-fill m p c, store32-fill (memory_fill m p c 4) (p + 4) c) (fill-fill m p c 4 4)

module _ (m : Memory) (d n c : ℕ) where
  pub bytes_one-Ends : 1 ≤ n → Ends m d n c 1 1 (bytes_one m d n c)
  unfolding bytes_one
  bytes_one-Ends h =
      rw (store-fill m d c, store-fill (memory_fill m d c 1) (d + (n - 1)) c)
        (Ends-tail m d n c 1 0 (d + (n - 1)) 1 1
          (Ends-head m d n c 0 0 d 1 1 (Ends-none m d n c) (omega arith) (omega arith) (omega arith)
            (omega arith) (omega arith))
          (omega arith) (omega arith) (omega arith) (omega arith) (omega arith))

  pub bytes_three-Ends :
      {m' : Memory} → Ends m d n c 1 1 m' → 3 ≤ n → Ends m d n c 3 3 (bytes_three m' d n c)
  unfolding bytes_three
  bytes_three-Ends {m'} e h =
      let f2 = memory_fill m' (d + 1) c 1 in
      let f3 = memory_fill f2 (d + 2) c 1 in
      let f4 = memory_fill f3 (d + (n - 2)) c 1 in
      let e2 : Ends m d n c 2 1 f2 =
        Ends-head m d n c 1 1 (d + 1) 1 2 e (omega arith) (omega arith) (omega arith) (omega arith)
          (omega arith) in
      let e3 : Ends m d n c 3 1 f3 =
        Ends-head m d n c 2 1 (d + 2) 1 3 e2 (omega arith) (omega arith) (omega arith) (omega arith)
          (omega arith) in
      let e4 : Ends m d n c 3 2 f4 =
        Ends-tail m d n c 3 1 (d + (n - 2)) 1 2 e3 (omega arith) (omega arith) (omega arith)
          (omega arith) (omega arith) in
      rw
        (
          store-fill m' (d + 1) c,
          store-fill f2 (d + 2) c,
          store-fill f3 (d + (n - 2)) c,
          store-fill f4 (d + (n - 3)) c,
        )
        (Ends-tail m d n c 3 2 (d + (n - 3)) 1 3 e4 (omega arith) (omega arith) (omega arith)
          (omega arith) (omega arith))

  pub bytes_four-Ends :
      {m' : Memory} → Ends m d n c 3 3 m' → 4 ≤ n → Ends m d n c 4 4 (bytes_four m' d n c)
  unfolding bytes_four
  bytes_four-Ends {m'} e h =
      let f = memory_fill m' (d + 3) c 1 in
      rw (store-fill m' (d + 3) c, store-fill f (d + (n - 4)) c)
        (Ends-tail m d n c 4 3 (d + (n - 4)) 1 4
          (Ends-head m d n c 3 3 (d + 3) 1 4 e (omega arith) (omega arith) (omega arith)
            (omega arith) (omega arith))
          (omega arith) (omega arith) (omega arith) (omega arith) (omega arith))

  -- `s` and `w` are the aligned pointer and length, `k` and `r` what they leave at either end.
  module _ (k r s w : ℕ) (start : s ≡ d + k) (end : s + w + r ≡ d + n) where
    pub words_four-Ends :
        {m' : Memory}
        → Ends m d n c 4 4 m'
        → k ≤ 3
        → r ≤ 3
        → 4 ≤ w
        → Ends m d n c (k + 4) (r + 4) (words_four m' s w c)
    unfolding words_four
    words_four-Ends {m'} e hk hr hw =
        let f = memory_fill m' (s + 0) c 4 in
        rw (store32-fill m' (s + 0) c, store32-fill f (s + w - 4) c)
          (Ends-tail m d n c (k + 4) 4 (s + w - 4) 4 (r + 4)
            (Ends-head m d n c 4 4 (s + 0) 4 (k + 4) e (omega arith) (omega arith) (omega arith)
              (omega arith) (omega arith))
            (omega arith) (omega arith) (omega arith) (omega arith) (omega arith))

    pub words_twelve-Ends :
        {m' : Memory}
        → Ends m d n c (k + 4) (r + 4) m'
        → 12 ≤ w
        → Ends m d n c (k + 12) (r + 12) (words_twelve m' s w c)
    unfolding words_twelve
    words_twelve-Ends {m'} e hw =
        let f = memory_fill m' (s + 4) c 8 in
        rw
          (
            pair_fill m' (s + 4) (s + 8) c (omega arith),
            pair_fill f (s + w - 12) (s + w - 8) c (omega arith),
          )
          (Ends-tail m d n c (k + 12) (r + 4) (s + w - 12) 8 (r + 12)
            (Ends-head m d n c (k + 4) (r + 4) (s + 4) 8 (k + 12) e (omega arith) (omega arith)
              (omega arith) (omega arith) (omega arith))
            (omega arith) (omega arith) (omega arith) (omega arith) (omega arith))

    pub words_rest-Ends :
        {m' : Memory}
        → Ends m d n c (k + 12) (r + 12) m'
        → 28 ≤ w
        → Ends m d n c (k + 28) (r + 28) (words_rest m' s w c)
    unfolding words_rest
    words_rest-Ends {m'} e hw =
        let f1 = memory_fill m' (s + 12) c 8 in
        let f2 = memory_fill f1 (s + 20) c 8 in
        let f3 = memory_fill f2 (s + w - 28) c 8 in
        let e1 : Ends m d n c (k + 20) (r + 12) f1 =
          Ends-head m d n c (k + 12) (r + 12) (s + 12) 8 (k + 20) e (omega arith) (omega arith)
            (omega arith) (omega arith) (omega arith) in
        let e2 : Ends m d n c (k + 28) (r + 12) f2 =
          Ends-head m d n c (k + 20) (r + 12) (s + 20) 8 (k + 28) e1 (omega arith) (omega arith)
            (omega arith) (omega arith) (omega arith) in
        let last : memory_fill f3 (s + w - 20) c 8 ≡ memory_fill f2 (s + w - 28) c 16 =
          let q : s + w - 20 ≡ s + w - 28 + 8 = omega arith in
          rw q (fill-fill f2 (s + w - 28) c 8 8) in
        rw
          (
            pair_fill m' (s + 12) (s + 16) c (omega arith),
            pair_fill f1 (s + 20) (s + 24) c (omega arith),
            pair_fill f2 (s + w - 28) (s + w - 24) c (omega arith),
            pair_fill f3 (s + w - 20) (s + w - 16) c (omega arith),
            last,
          )
          (Ends-tail m d n c (k + 28) (r + 12) (s + w - 28) 16 (r + 28) e2 (omega arith)
            (omega arith) (omega arith) (omega arith) (omega arith))
