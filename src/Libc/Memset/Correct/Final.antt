-- ===== src/Libc/Memset/Correct/Final.antt =====
-- The loop of `memset`, its alignment, and the whole routine.
use wasm_cxx_shim.Prelude.{
  ℕ, ◌+◌, ◌-◌, ◌*◌, ◌/◌, ◌%◌, ◌^◌, ◌≤◌, ◌<◌, ◌≡◌, refl, Bool, true, ◌&&◌, leb, ltb, ◌==◌, bit_and,
  arith, Bool-cases, inl, inr, leb→le, leb→gt,
}
use wasm_cxx_shim.Prelude.Bits.{bit_and-halves, bit_and-mask, bit_and-four}
use wasm_cxx_shim.Prelude.Loop.{while-Inv}
use wasm_cxx_shim.Memory.{Memory, memory_fill}
use wasm_cxx_shim.Libc.Memcpy.{bulk_memory_threshold}
use wasm_cxx_shim.Libc.Memset.{
  Filling, long_of, store64, fill_body, fill_loop, fill_words, fill, memset, to_align,
}
use wasm_cxx_shim.Libc.Memset.Ends.{Ends, Ends-none, Ends-head, Ends-meet, store64-fill, fill-fill}
use wasm_cxx_shim.Libc.Memset.Correct.Stores.{
  bytes_one-Ends, bytes_three-Ends, bytes_four-Ends, words_four-Ends, words_twelve-Ends,
  words_rest-Ends,
}

pub to_align_lem : (s : ℕ) → s < 2 ^ 32 → (to_align s ≤ 3) × ((s + to_align s) % 4 ≡ 0)
to_align_lem s h = omega (arith, bit_and-mask 2 ((2 ^ 32 - s) % 2 ^ 32))

-- `n &= -4`
pub round_down : (n : ℕ) → n < 2 ^ 32 → bit_and n (2 ^ 32 - 4) ≡ n / 4 * 4
round_down n h = ground (
  arith,
  bit_and-halves n (2 ^ 32 - 4),
  bit_and-halves (n / 2) (2 ^ 31 - 2),
  bit_and-mask 30 (n / 2 / 2),
)

four_longs :
    (m : Memory) (p q c : ℕ)
    → q ≡ p + 8
    → store64 (store64 m p (long_of c)) q (long_of c) ≡ memory_fill m p c 16
four_longs m p q c e =
    rw (e, store64-fill m p c, store64-fill (memory_fill m p c 8) (p + 8) c) (fill-fill m p c 8 8)

mem-fill_body : (c : ℕ) (f : Filling) → (fill_body c f).mem ≡ memory_fill f.mem f.at c 32
unfolding fill_body
mem-fill_body c f =
    let g = memory_fill f.mem (f.at + 0) c 16 in
    let zero_off : f.at + 0 ≡ f.at = omega arith in
    rw
      (
        four_longs f.mem (f.at + 0) (f.at + 8) c (omega arith),
        four_longs g (f.at + 16) (f.at + 24) c (omega arith),
        zero_off,
      )
      (fill-fill f.mem f.at c 16 16)

module _ (m : Memory) (d n c : ℕ) where
  -- The ends so far, the loop's pointer at most a word short of the head.
  record Round (r : ℕ) (f : Filling) : Type 0 where
    h : ℕ
    ends : Ends m d n c h (r + 28) f.mem
    behind : f.at ≤ d + h
    near : d + h ≤ f.at + 4
    inside : d ≤ f.at
    rest : f.at + f.left + r ≡ d + n
    aligned : f.left % 4 ≡ 0

  fill_body-Round :
      (r : ℕ) (f : Filling)
      → Round r f
      → leb 32 f.left ≡ true
      → Round r (fill_body c f) × ((fill_body c f).left < f.left)
  fill_body-Round r f v go =
      let enough = leb→le 32 f.left go in
      let at_eq : (fill_body c f).at ≡ f.at + 32 = unfold fill_body in refl in
      let left_eq : (fill_body c f).left ≡ f.left - 32 = unfold fill_body in refl in
      (
        record {
          h = f.at + 32 - d;
          ends = rw (mem-fill_body c f) (
              Ends-head m d n c v.h (r + 28) f.at 32 (f.at + 32 - d) v.ends v.inside v.behind
                (omega (arith, v.inside)) (omega (arith, v.near, v.inside))
                (omega (arith, v.rest)));
          behind = omega (arith, v.inside);
          near = omega (arith, v.inside);
          inside = omega (arith, v.inside);
          rest = omega (arith, v.rest);
          aligned = omega (arith, v.aligned);
        },
        omega arith,
      )

  module _ (k r s w : ℕ) (start : s ≡ d + k) (end : s + w + r ≡ d + n) (aligned : w % 4 ≡ 0)
      (few : k ≤ 3) (over : r ≤ 3) where
    fill_loop-Filled :
        (m' : Memory)
        → Ends m d n c (k + 28) (r + 28) m'
        → 28 ≤ w
        → (a : ℕ) → fill_loop m' s w c a ≡ memory_fill m d c n a
    unfolding fill_loop
    fill_loop-Filled m' e h =
        let bit = bit_and-four s in
        let begun : Round r
            (record { mem = m'; at = s + (24 + bit_and s 4); left = w - (24 + bit_and s 4) }) =
          record {
            h = k + 28;
            ends = e;
            behind = omega arith;
            near = omega arith;
            inside = omega arith;
            rest = omega arith;
            aligned = omega arith;
          } in
        let done =
          while-Inv (λ (f : Filling). leb 32 f.left) (fill_body c) (Round r) (λ f. f.left)
            (fill_body-Round r) w _ (omega arith) begun in
        let short = leb→gt 32 _ done.1 in
        Ends-meet m d n c done.0.h (r + 28) done.0.ends
          (omega (arith, done.0.rest, done.0.behind, done.0.aligned))

    fill_words-Filled :
        (m' : Memory)
        → Ends m d n c 4 4 m'
        → 4 ≤ w
        → (a : ℕ) → fill_words m' s w c a ≡ memory_fill m d c n a
    unfolding fill_words
    fill_words-Filled m' e h =
        let four = words_four-Ends m d n c k r s w start end e few over h in
        elim (Bool-cases (leb w 8)) [
          | inl small ↦
              let fits = leb→le w 8 small in
              rw small (Ends-meet m d n c (k + 4) (r + 4) four (omega arith))
          | inr large ↦
              let twelve =
                words_twelve-Ends m d n c k r s w start end four
                  (omega (arith, leb→gt w 8 large)) in
              elim (Bool-cases (leb w 24)) [
                | inl small ↦
                    let fits = leb→le w 24 small in
                    rw (large, small) (Ends-meet m d n c (k + 12) (r + 12) twelve (omega arith))
                | inr larger ↦
                    let more = leb→gt w 24 larger in
                    rw (large, larger)
                      (fill_loop-Filled _
                        (words_rest-Ends m d n c k r s w start end twelve (omega arith))
                        (omega arith))
              ]
        ]

  fill-Filled : d < 2 ^ 32 → n < 2 ^ 32 → (a : ℕ) → fill m d n c a ≡ memory_fill m d c n a
  unfolding fill
  fill-Filled hd hn = elim (Bool-cases (n == 0)) [
    | inl empty ↦
        let zero_n : n ≡ 0 = ground arith in
        rw empty (Ends-meet m d n c 0 0 (Ends-none m d n c) (omega arith))
    | inr some_bytes ↦
        let pos : 1 ≤ n = ground arith in
        let one = bytes_one-Ends m d n c pos in
        elim (Bool-cases (leb n 2)) [
          | inl two ↦
              let fits = leb→le n 2 two in
              rw (some_bytes, two) (Ends-meet m d n c 1 1 one (omega arith))
          | inr more2 ↦
              let three = bytes_three-Ends m d n c one (leb→gt n 2 more2) in
              elim (Bool-cases (leb n 6)) [
                | inl six ↦
                    let fits = leb→le n 6 six in
                    rw (some_bytes, more2, six) (Ends-meet m d n c 3 3 three (omega arith))
                | inr more6 ↦
                    let above6 = leb→gt n 6 more6 in
                    let four = bytes_four-Ends m d n c three (omega arith) in
                    elim (Bool-cases (leb n 8)) [
                      | inl eight ↦
                          let fits = leb→le n 8 eight in
                          rw (some_bytes, more2, more6, eight)
                            (Ends-meet m d n c 4 4 four (omega arith))
                      | inr more8 ↦
                          let above8 = leb→gt n 8 more8 in
                          let k = to_align d in
                          let few = (to_align_lem d hd).0 in
                          let w = bit_and (n - k) (2 ^ 32 - 4) in
                          let down : w ≡ (n - k) / 4 * 4 = round_down (n - k) (omega arith) in
                          rw (some_bytes, more2, more6, more8)
                            (fill_words-Filled k (n - k - w) (d + k) w refl (omega arith)
                              (omega arith) few (omega arith) _ four (omega arith))
                    ]
              ]
        ]
  ]

  -- `memset` stores the low byte of `c` in exactly the `n` bytes at `dest` and returns `dest`, with
  -- or without the bulk instruction, at every alignment and length.
  pub memset-Filled :
      (bulk : Bool)
      → d < 2 ^ 32
      → n < 2 ^ 32
      → ((a : ℕ) → (memset bulk m d c n).mem a ≡ memory_fill m d c n a)
        × ((memset bulk m d c n).pointer ≡ d)
  unfolding memset
  memset-Filled bulk hd hn = elim (Bool-cases (bulk && ltb bulk_memory_threshold n)) [
    | inl fast ↦ rw fast ((λ a. refl), refl)
    | inr slow ↦ rw slow (fill-Filled hd hn, refl)
  ]
