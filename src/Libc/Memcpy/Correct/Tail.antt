-- ===== src/Libc/Memcpy/Correct/Tail.antt =====
-- The aligned loop, the head loop, and the tails that copy what the bits of `n` say.
use wasm_cxx_shim.Prelude.{
  ℕ, ◌+◌, ◌-◌, ◌≤◌, ◌<◌, ◌≡◌, ◌⊎◌, refl, true, false, leb, ◌==◌, arith, inl, inr, leb→le, leb→gt,
  bit_and, if◌then◌else◌,
}
use wasm_cxx_shim.Prelude.Bits.{
  bit_and-one, bit_and-two, bit_and-four, bit_and-eight, bit_and-sixteen,
}
use wasm_cxx_shim.Prelude.Loop.{while-Inv}
use wasm_cxx_shim.Memory.{Memory, IsBytes}
use wasm_cxx_shim.Memory.Copied.{Copied, Forward}
use wasm_cxx_shim.Libc.Memcpy.{
  Cursor, put_byte, advance, consume, copy_bytes, copy_word, has_bit, head_test, head_body, head,
  block_body, blocks, tail_aligned, tail_bytes,
}
use wasm_cxx_shim.Libc.Memcpy.Steps.{
  At, put_byte-At, advance-At, copy_bytes-At, copy_word-At, left-copy_bytes,
}
use wasm_cxx_shim.Libc.Memcpy.Correct.Shift.{Going}

module _ (m : Memory) (d s n : ℕ) (forward : Forward d s n) (bytes : IsBytes m) where
  abbrev pub Stands : ℕ → Cursor → Type 0
  Stands k c = At m d s n forward bytes k k c

  abbrev pub Keeps : Cursor → Type 0
  Keeps c = (k : ℕ) × Going m d s n forward bytes k c

  head_body-Keeps :
      (c : Cursor)
      → Keeps c
      → head_test c ≡ true
      → Keeps (head_body c) × ((head_body c).left < c.left)
  unfolding head_body consume
  head_body-Keeps c (k, g) go =
      let some_left : 1 ≤ c.left = ground arith in
      let moved = copy_bytes-At m d s n forward bytes 1 k g.at (omega (arith, g.left_eq)) in
      let left1 = left-copy_bytes 1 c in
      (
        (
          k + 1,
          record {
            at = record { dst_eq = moved.dst_eq; src_eq = moved.src_eq; copied = moved.copied };
            left_eq = omega (arith, g.left_eq, left1);
          },
        ),
        omega (arith, left1),
      )

  pub head-Keeps : (c : Cursor) → Keeps c → Keeps (head c)
  unfolding head
  head-Keeps c g =
      (while-Inv head_test head_body Keeps (λ t. t.left) head_body-Keeps c.left c (omega arith) g).0

  block_body-Stands :
      (k : ℕ) (c : Cursor) → Stands k c → k + 16 ≤ n → Stands (k + 16) (block_body c)
  unfolding block_body
  block_body-Stands k c at h =
      let w4 = copy_word-At m d s n forward bytes 0 at (omega arith) (omega arith) in
      let w8 = copy_word-At m d s n forward bytes 4 w4 refl (omega arith) in
      let w12 = copy_word-At m d s n forward bytes 8 w8 (omega arith) (omega arith) in
      let w16 = copy_word-At m d s n forward bytes 12 w12 (omega arith) (omega arith) in
      let same : k + 4 + 4 + 4 + 4 ≡ k + 16 = omega arith in
      record {
        dst_eq = omega (arith, w16.dst_eq);
        src_eq = omega (arith, w16.src_eq);
        copied = rw (← same) w16.copied;
      }

  block_body-Keeps :
      (c : Cursor)
      → Keeps c
      → leb 16 c.left ≡ true
      → Keeps (block_body c) × ((block_body c).left < c.left)
  block_body-Keeps c (k, g) go =
      let enough = leb→le 16 c.left go in
      let left16 : (block_body c).left ≡ c.left - 16 = unfold block_body in refl in
      (
        (
          k + 16,
          record {
            at = block_body-Stands k c g.at (omega (arith, g.left_eq));
            left_eq = omega (arith, g.left_eq);
          },
        ),
        omega arith,
      )

  pub blocks-Keeps : (c : Cursor) → Keeps c → Keeps (blocks c) × ((blocks c).left < 16)
  unfolding blocks
  blocks-Keeps c g =
      let done =
        while-Inv (λ (t : Cursor). leb 16 t.left) block_body Keeps (λ t. t.left) block_body-Keeps
          c.left c (omega arith) g in
      (done.0, leb→gt _ _ done.1)

  -- A branch on one bit of `w` that moves on by the bit's weight.
  branch-Stands :
      (w b k : ℕ) (moved c : Cursor)
      → 1 ≤ b
      → (bit_and w b ≡ 0) ⊎ (bit_and w b ≡ b)
      → k + bit_and w b ≤ n
      → Stands k c
      → (k + b ≤ n → Stands (k + b) moved)
      → Stands (k + bit_and w b) (if has_bit w b then moved else c)
  branch-Stands w b k moved c pos (inl off) h at move =
      let e : k + 0 ≡ k = omega arith in rw (off, e) at
  branch-Stands w b k moved c pos (inr on) h at move =
      let set : (b == 0) ≡ false = ground arith in rw (on, set) (move (rw (← on) h))

  words_four-Stands :
      (k : ℕ) (c : Cursor) → Stands k c → k + 4 ≤ n → Stands (k + 4) (advance 4 (copy_word 0 c))
  words_four-Stands k c at h =
      advance-At m d s n forward bytes 4 (copy_word-At m d s n forward bytes 0 at (omega arith) h)
        refl

  words_eight-Stands :
      (k : ℕ) (c : Cursor)
      → Stands k c
      → k + 8 ≤ n
      → Stands (k + 8) (advance 8 (copy_word 4 (copy_word 0 c)))
  words_eight-Stands k c at h =
      let w4 = copy_word-At m d s n forward bytes 0 at (omega arith) (omega arith) in
      let w8 = copy_word-At m d s n forward bytes 4 w4 refl (omega arith) in
      let same : k + 4 + 4 ≡ k + 8 = omega arith in
      rw (← same) (advance-At m d s n forward bytes 8 w8 same)

  bit_one : (w : ℕ) → (bit_and w 1 ≡ 0) ⊎ (bit_and w 1 ≡ 1)
  bit_one w = ground (arith, bit_and-one w)

  -- The last branch stores without moving on.
  last-Copied :
      (w k : ℕ) (c : Cursor)
      → k + bit_and w 1 ≤ n
      → Stands k c
      → Copied m d s (k + bit_and w 1) (if has_bit w 1 then put_byte c else c).mem
  last-Copied w k c h at = elim (bit_one w) [
    | inl off ↦ let e : k + 0 ≡ k = omega arith in rw (off, e) at.copied
    | inr on ↦ rw on (put_byte-At m d s n forward bytes k at (omega (arith, on))).copied
  ]

  bit_two : (w : ℕ) → (bit_and w 2 ≡ 0) ⊎ (bit_and w 2 ≡ 2)
  bit_two w = ground (arith, bit_and-two w)

  bit_four : (w : ℕ) → (bit_and w 4 ≡ 0) ⊎ (bit_and w 4 ≡ 4)
  bit_four w = ground (arith, bit_and-four w)

  bit_eight : (w : ℕ) → (bit_and w 8 ≡ 0) ⊎ (bit_and w 8 ≡ 8)
  bit_eight w = ground (arith, bit_and-eight w)

  bit_sixteen : (w : ℕ) → (bit_and w 16 ≡ 0) ⊎ (bit_and w 16 ≡ 16)
  bit_sixteen w = ground (arith, bit_and-sixteen w)

  bits_low : (w : ℕ) → w < 16 → bit_and w 8 + bit_and w 4 + bit_and w 2 + bit_and w 1 ≡ w
  bits_low w h = omega (arith, bit_and-one w, bit_and-two w, bit_and-four w, bit_and-eight w)

  bits_all :
      (w : ℕ) → w < 32 → bit_and w 16 + bit_and w 8 + bit_and w 4 + bit_and w 2 + bit_and w 1 ≡ w
  bits_all w h =
      omega
        (arith, bit_and-one w, bit_and-two w, bit_and-four w, bit_and-eight w, bit_and-sixteen w)

  pub tail_aligned-Copied :
      (c : Cursor) → Keeps c → c.left < 16 → Copied m d s n (tail_aligned c).mem
  unfolding tail_aligned
  tail_aligned-Copied c (k, g) h =
      let w = c.left in
      let sum = bits_low w h in
      let t8 : Cursor = if has_bit w 8 then advance 8 (copy_word 4 (copy_word 0 c)) else c in
      let t4 : Cursor = if has_bit w 4 then advance 4 (copy_word 0 t8) else t8 in
      let t2 : Cursor = if has_bit w 2 then copy_bytes 2 t4 else t4 in
      let k8 = k + bit_and w 8 in
      let k4 = k8 + bit_and w 4 in
      let at8 : Stands k8 t8 =
        branch-Stands w 8 k _ c (omega arith) (bit_eight w) (omega (arith, g.left_eq)) g.at
          (words_eight-Stands k c g.at) in
      let at4 : Stands k4 t4 =
        branch-Stands w 4 k8 _ t8 (omega arith) (bit_four w) (omega (arith, g.left_eq)) at8
          (words_four-Stands k8 t8 at8) in
      let at2 : Stands (k4 + bit_and w 2) t2 =
        branch-Stands w 2 k4 _ t4 (omega arith) (bit_two w) (omega (arith, g.left_eq)) at4
          (copy_bytes-At m d s n forward bytes 2 k4 at4) in
      let all : k4 + bit_and w 2 + bit_and w 1 ≡ n = omega (arith, g.left_eq) in
      rw (← all) (last-Copied w (k4 + bit_and w 2) t2 (omega arith) at2)

  pub tail_bytes-Copied : (c : Cursor) → Keeps c → c.left < 32 → Copied m d s n (tail_bytes c).mem
  unfolding tail_bytes
  tail_bytes-Copied c (k, g) h =
      let w = c.left in
      let sum = bits_all w h in
      let t16 : Cursor = if has_bit w 16 then copy_bytes 16 c else c in
      let t8 : Cursor = if has_bit w 8 then copy_bytes 8 t16 else t16 in
      let t4 : Cursor = if has_bit w 4 then copy_bytes 4 t8 else t8 in
      let t2 : Cursor = if has_bit w 2 then copy_bytes 2 t4 else t4 in
      let k16 = k + bit_and w 16 in
      let k8 = k16 + bit_and w 8 in
      let k4 = k8 + bit_and w 4 in
      let at16 : Stands k16 t16 =
        branch-Stands w 16 k _ c (omega arith) (bit_sixteen w) (omega (arith, g.left_eq)) g.at
          (copy_bytes-At m d s n forward bytes 16 k g.at) in
      let at8 : Stands k8 t8 =
        branch-Stands w 8 k16 _ t16 (omega arith) (bit_eight w) (omega (arith, g.left_eq)) at16
          (copy_bytes-At m d s n forward bytes 8 k16 at16) in
      let at4 : Stands k4 t4 =
        branch-Stands w 4 k8 _ t8 (omega arith) (bit_four w) (omega (arith, g.left_eq)) at8
          (copy_bytes-At m d s n forward bytes 4 k8 at8) in
      let at2 : Stands (k4 + bit_and w 2) t2 =
        branch-Stands w 2 k4 _ t4 (omega arith) (bit_two w) (omega (arith, g.left_eq)) at4
          (copy_bytes-At m d s n forward bytes 2 k4 at4) in
      let all : k4 + bit_and w 2 + bit_and w 1 ≡ n = omega (arith, g.left_eq) in
      rw (← all) (last-Copied w (k4 + bit_and w 2) t2 (omega arith) at2)
