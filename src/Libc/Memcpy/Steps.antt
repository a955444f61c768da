-- ===== src/Libc/Memcpy/Steps.antt =====
-- One step of `memcpy` after another: how far the copy has come.
use wasm_cxx_shim.Prelude.{ℕ, zero, suc, ◌+◌, ◌≤◌, ◌<◌, ◌≡◌, refl, arith}
use wasm_cxx_shim.Memory.{Memory, IsBytes, load32}
use wasm_cxx_shim.Memory.Copied.{Copied, Forward, unread, Copied-store, Copied-store32}
use wasm_cxx_shim.Libc.Memcpy.{Cursor, put_byte, advance, copy_bytes, copy_word}

module _ (m : Memory) (d s n : ℕ) (forward : Forward d s n) (bytes : IsBytes m) where
  -- The pointers stand `k` bytes on, and `t` bytes are copied.
  pub record At (k t : ℕ) (c : Cursor) : Type 0 where
    pub dst_eq : c.dst ≡ d + k
    pub src_eq : c.src ≡ s + k
    pub copied : Copied m d s t c.mem

  pub load32-At :
      {k t : ℕ} {c : Cursor} (j : ℕ)
      → At k t c
      → t ≤ k + j
      → k + j + 4 ≤ n
      → load32 c.mem (c.src + j) ≡ load32 m (s + (k + j))
  unfolding load32
  load32-At {k} {t} {c} j at p q =
      let here : c.src + j ≡ s + (k + j) = omega (arith, at.src_eq) in
      let intact = λ (x : ℕ) (lo : s + t ≤ x) (hi : x < s + n).
        unread m d s t at.copied n x forward (omega arith) lo hi in
      rw here (
        ground (
          arith,
          intact (s + (k + j)) (omega arith) (omega arith),
          intact (s + (k + j) + 1) (omega arith) (omega arith),
          intact (s + (k + j) + 2) (omega arith) (omega arith),
          intact (s + (k + j) + 3) (omega arith) (omega arith),
        ))

  pub put_byte-At : (k : ℕ) {c : Cursor} → At k k c → k + 1 ≤ n → At k (k + 1) (put_byte c)
  unfolding put_byte
  put_byte-At k {c} at h = record {
    dst_eq = at.dst_eq;
    src_eq = at.src_eq;
    copied =
        rw
          (
            at.dst_eq,
            at.src_eq,
            unread m d s k at.copied n (s + k) forward (omega arith) (omega arith) (omega arith),
          )
          (Copied-store m d s k at.copied);
  }

  pub advance-At : (j : ℕ) {k t : ℕ} {c : Cursor} → At k t c → t ≡ k + j → At t t (advance j c)
  unfolding advance
  advance-At j at e = record {
    dst_eq = omega (arith, at.dst_eq);
    src_eq = omega (arith, at.src_eq);
    copied = at.copied;
  }

  pub copy_bytes-At :
      (j k : ℕ) {c : Cursor} → At k k c → k + j ≤ n → At (k + j) (k + j) (copy_bytes j c)
  unfolding copy_bytes
  copy_bytes-At zero k at h = let e : k + 0 ≡ k = omega arith in rw e at
  copy_bytes-At (suc j) k at h =
      let e : k + suc j ≡ k + 1 + j = omega arith in
      let stepped = advance-At 1 (put_byte-At k at (omega arith)) refl in
      rw e (copy_bytes-At j (k + 1) stepped (omega arith))

  pub copy_word-At :
      (j : ℕ) {k t : ℕ} {c : Cursor}
      → At k t c
      → t ≡ k + j
      → t + 4 ≤ n
      → At k (t + 4) (copy_word j c)
  unfolding copy_word
  copy_word-At j {k} {t} {c} at e h = record {
    dst_eq = at.dst_eq;
    src_eq = at.src_eq;
    copied =
        let there : c.dst + j ≡ d + t = omega (arith, at.dst_eq) in
        rw there (
          Copied-store32 m d s t at.copied bytes _
            (rw e (load32-At j at (omega arith) (omega arith))));
  }

pub left-copy_bytes : (j : ℕ) (c : Cursor) → (copy_bytes j c).left ≡ c.left
unfolding copy_bytes
left-copy_bytes zero c = refl
left-copy_bytes (suc j) c = left-copy_bytes j (advance 1 (put_byte c))
