-- ===== src/Libc/Memmove/Forward.antt =====
-- The forward loops, towards lower addresses.
use wasm_cxx_shim.Prelude.{
  ℕ, ◌+◌, ◌-◌, ◌%◌, ◌≤◌, ◌<◌, ◌≡◌, refl, true, false, not, ◌&&◌, leb, ◌==◌, arith, Bool-cases, inl,
  inr, leb→le,
}
use wasm_cxx_shim.Prelude.Loop.{while-Inv}
use wasm_cxx_shim.Memory.{Memory, IsBytes}
use wasm_cxx_shim.Memory.Copied.{Copied, Forward}
use wasm_cxx_shim.Libc.Memcpy.{Cursor, advance, consume, copy_word}
use wasm_cxx_shim.Libc.Memcpy.Steps.{At, advance-At, copy_bytes-At, copy_word-At, left-copy_bytes}
use wasm_cxx_shim.Libc.Memmove.{
  bytes_left, step_byte, step_word, forward_bytes, forward_words, forward_head, forward,
}

module _ (m : Memory) (d s n : ℕ) (ahead : Forward d s n) (bytes : IsBytes m) where
  pub record Up (c : Cursor) : Type 0 where
    pub done : ℕ
    pub at : At m d s n ahead bytes done done c
    pub left_eq : c.left + done ≡ n

  step_byte-Up : (c : Cursor) → Up c → 1 ≤ c.left → Up (step_byte c) × ((step_byte c).left < c.left)
  unfolding step_byte consume
  step_byte-Up c u h =
      let moved = copy_bytes-At m d s n ahead bytes 1 u.done u.at (omega (arith, u.left_eq)) in
      let left1 = left-copy_bytes 1 c in
      (
        record {
          done = u.done + 1;
          at = record { dst_eq = moved.dst_eq; src_eq = moved.src_eq; copied = moved.copied };
          left_eq = omega (arith, u.left_eq);
        },
        omega arith,
      )

  step_word-Up :
      (c : Cursor) → Up c → leb 4 c.left ≡ true → Up (step_word c) × ((step_word c).left < c.left)
  step_word-Up c u go =
      let enough = leb→le 4 c.left go in
      let stored =
        copy_word-At m d s n ahead bytes 0 u.at (omega arith) (omega (arith, u.left_eq)) in
      let moved = advance-At m d s n ahead bytes 4 stored refl in
      let left4 : (step_word c).left ≡ c.left - 4 =
        unfold step_word consume advance copy_word in refl in
      (
        record {
          done = u.done + 4;
          at =
              unfold step_word consume in
              record { dst_eq = moved.dst_eq; src_eq = moved.src_eq; copied = moved.copied };
          left_eq = omega (arith, u.left_eq);
        },
        omega arith,
      )

  forward_bytes-Up : (c : Cursor) → Up c → Up (forward_bytes c) × ((forward_bytes c).left ≡ 0)
  unfolding forward_bytes
  forward_bytes-Up c u =
      let done =
        while-Inv bytes_left step_byte Up (λ t. t.left) (λ t v go. step_byte-Up t v (ground arith))
          c.left c (omega arith) u in
      (done.0, ground (arith, done.1))

  forward_words-Up : (c : Cursor) → Up c → Up (forward_words c)
  unfolding forward_words
  forward_words-Up c u =
      (while-Inv (λ (t : Cursor). leb 4 t.left) step_word Up (λ t. t.left) step_word-Up c.left c
        (omega arith) u).0

  forward_head-Up :
      (c : Cursor)
      → Up c
      → Up (forward_head c)
        × ((not ((forward_head c).dst % 4 == 0) && bytes_left (forward_head c)) ≡ false)
  unfolding forward_head
  forward_head-Up c u =
      while-Inv (λ (t : Cursor). not (t.dst % 4 == 0) && bytes_left t) step_byte Up (λ t. t.left)
        (λ t v go. step_byte-Up t v (ground arith)) c.left c (omega arith) u

  finished : (c : Cursor) → Up c → c.left ≡ 0 → Copied m d s n c.mem
  finished c u e = let all : u.done ≡ n = omega (arith, u.left_eq) in rw (← all) u.at.copied

  pub forward-Copied : (c : Cursor) → Up c → Copied m d s n (forward c).mem
  unfolding forward
  forward-Copied c u = elim (Bool-cases (c.src % 4 == c.dst % 4)) [
    | inl alike ↦
        let h = forward_head-Up c u in
        elim (Bool-cases ((forward_head c).dst % 4 == 0)) [
          | inl even ↦
              let out =
                forward_bytes-Up (forward_words (forward_head c)) (forward_words-Up _ h.0) in
              rw (alike, even) (finished _ out.0 out.1)
          | inr odd ↦ rw (alike, odd) (finished _ h.0 (ground (arith, h.1)))
        ]
    | inr unlike ↦ let out = forward_bytes-Up c u in rw unlike (finished _ out.0 out.1)
  ]
