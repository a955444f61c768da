-- ===== src/Libc/Memmove/Backward.antt =====
-- The backward loops, towards higher addresses.
use wasm_cxx_shim.Prelude.{
  ℕ, ◌+◌, ◌-◌, ◌%◌, ◌≤◌, ◌<◌, ◌≡◌, refl, true, false, not, ◌&&◌, leb, ◌==◌, arith, Bool-cases, inl,
  inr, leb→le,
}
use wasm_cxx_shim.Prelude.Loop.{while-Inv}
use wasm_cxx_shim.Memory.{Memory, IsBytes, load32}
use wasm_cxx_shim.Memory.Copied.{Copied, Copied-store_before, Copied-store32_before, unread_before}
use wasm_cxx_shim.Libc.Memcpy.{Cursor}
use wasm_cxx_shim.Libc.Memmove.{
  bytes_left, back_byte, back_word, backward_bytes, backward_words, backward_head, backward,
}

module _ (m : Memory) (d s n : ℕ) (behind : s ≤ d) (bytes : IsBytes m) where
  -- What lies from `left` on is copied.
  pub record Down (c : Cursor) : Type 0 where
    pub dst_eq : c.dst ≡ d
    pub src_eq : c.src ≡ s
    pub fits : c.left ≤ n
    pub copied : Copied m (d + c.left) (s + c.left) (n - c.left) c.mem

  back_byte-Down :
      (c : Cursor) → Down c → 1 ≤ c.left → Down (back_byte c) × ((back_byte c).left < c.left)
  unfolding back_byte
  back_byte-Down c v h =
      let j = c.left - 1 in
      let up_d : d + c.left ≡ d + j + 1 = omega arith in
      let up_s : s + c.left ≡ s + j + 1 = omega arith in
      let rest : Copied m (d + j + 1) (s + j + 1) (n - c.left) c.mem =
        rw (← up_d, ← up_s) v.copied in
      let count : n - j ≡ n - c.left + 1 = omega (arith, v.fits) in
      let intact : c.mem (s + j) ≡ m (s + j) =
        unread_before m (d + j + 1) (s + j + 1) (n - c.left) (s + j) rest (omega arith) in
      (
        record {
          dst_eq = v.dst_eq;
          src_eq = v.src_eq;
          fits = omega (arith, v.fits);
          copied =
              rw (v.dst_eq, v.src_eq, intact, count)
                (Copied-store_before m (d + j) (s + j) (n - c.left) rest);
        },
        omega arith,
      )

  back_word-Down :
      (c : Cursor)
      → Down c
      → leb 4 c.left ≡ true
      → Down (back_word c) × ((back_word c).left < c.left)
  unfolding back_word
  back_word-Down c v go =
      let enough = leb→le 4 c.left go in
      let j = c.left - 4 in
      let up_d : d + c.left ≡ d + j + 4 = omega arith in
      let up_s : s + c.left ≡ s + j + 4 = omega arith in
      let rest : Copied m (d + j + 4) (s + j + 4) (n - c.left) c.mem =
        rw (← up_d, ← up_s) v.copied in
      let count : n - j ≡ n - c.left + 4 = omega (arith, v.fits) in
      let intact = λ (x : ℕ) (q : x < d + j + 4).
        unread_before m (d + j + 4) (s + j + 4) (n - c.left) x rest q in
      let read : load32 c.mem (s + j) ≡ load32 m (s + j) =
        unfold load32 in
        ground (
          arith,
          intact (s + j) (omega arith),
          intact (s + j + 1) (omega arith),
          intact (s + j + 2) (omega arith),
          intact (s + j + 3) (omega arith),
        ) in
      (
        record {
          dst_eq = v.dst_eq;
          src_eq = v.src_eq;
          fits = omega (arith, v.fits);
          copied =
              rw (v.dst_eq, v.src_eq, read, count)
                (Copied-store32_before m (d + j) (s + j) (n - c.left) rest bytes _ refl);
        },
        omega arith,
      )

  backward_bytes-Down :
      (c : Cursor) → Down c → Down (backward_bytes c) × ((backward_bytes c).left ≡ 0)
  unfolding backward_bytes
  backward_bytes-Down c u =
      let done =
        while-Inv bytes_left back_byte Down (λ t. t.left)
          (λ t v go. back_byte-Down t v (ground arith)) c.left c (omega arith) u in
      (done.0, ground (arith, done.1))

  backward_words-Down : (c : Cursor) → Down c → Down (backward_words c)
  unfolding backward_words
  backward_words-Down c u =
      (while-Inv (λ (t : Cursor). leb 4 t.left) back_word Down (λ t. t.left) back_word-Down c.left c
        (omega arith) u).0

  backward_head-Down :
      (c : Cursor)
      → Down c
      → let h = backward_head c in
        Down h × ((not ((h.dst + h.left) % 4 == 0) && bytes_left h) ≡ false)
  unfolding backward_head
  backward_head-Down c u =
      while-Inv (λ (t : Cursor). not ((t.dst + t.left) % 4 == 0) && bytes_left t) back_byte Down
        (λ t. t.left) (λ t v go. back_byte-Down t v (ground arith)) c.left c (omega arith) u

  finished : (c : Cursor) → Down c → c.left ≡ 0 → Copied m d s n c.mem
  finished c u e =
      let d0 : d + c.left ≡ d = omega arith in
      let s0 : s + c.left ≡ s = omega arith in
      let n0 : n - c.left ≡ n = omega arith in rw (d0, s0, n0) at u.copied

  pub backward-Copied : (c : Cursor) → Down c → Copied m d s n (backward c).mem
  unfolding backward
  backward-Copied c u = elim (Bool-cases (c.src % 4 == c.dst % 4)) [
    | inl alike ↦
        let h = backward_head-Down c u in
        let c' = backward_head c in
        elim (Bool-cases ((c'.dst + c'.left) % 4 == 0)) [
          | inl even ↦
              let out = backward_bytes-Down (backward_words c') (backward_words-Down c' h.0) in
              rw (alike, even) (finished _ out.0 out.1)
          | inr odd ↦ rw (alike, odd) (finished _ h.0 (ground (arith, h.1)))
        ]
    | inr unlike ↦ let out = backward_bytes-Down c u in rw unlike (finished _ out.0 out.1)
  ]
