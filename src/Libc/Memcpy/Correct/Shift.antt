-- ===== src/Libc/Memcpy/Correct/Shift.antt =====
-- The loops of the switch, which store words put together from two misaligned reads.
use wasm_cxx_shim.Prelude.{
  ℕ, ◌+◌, ◌-◌, ◌≤◌, ◌<◌, ◌%◌, ◌≡◌, refl, true, false, leb, ◌==◌, arith, Bool-cases, inl, inr,
  leb→le, leb→gt,
}
use wasm_cxx_shim.Prelude.Loop.{while, while-Inv}
use wasm_cxx_shim.Memory.{Memory, IsBytes, load32}
use wasm_cxx_shim.Memory.Copied.{Forward, Copied-store32}
use wasm_cxx_shim.Libc.Memcpy.{
  Cursor, Shifting, consume, copy_bytes, shift_word, shift_body, shift_case, shifted,
}
use wasm_cxx_shim.Libc.Memcpy.Steps.{At, copy_bytes-At, load32-At, left-copy_bytes}
use wasm_cxx_shim.Libc.Memcpy.Correct.Merge.{merged, merged_one, merged_two, merged_three}

module _ (m : Memory) (d s n : ℕ) (forward : Forward d s n) (bytes : IsBytes m) where
  -- A cursor `k` bytes on, with the bytes that it has still to copy.
  pub record Going (k : ℕ) (c : Cursor) : Type 0 where
    pub at : At m d s n forward bytes k k c
    pub left_eq : c.left + k ≡ n

  module _ (first lo hi off : ℕ) (four : first + off ≡ 4)
      (merge : (p : ℕ) → merged lo hi (load32 m p) (load32 m (p + 4)) ≡ load32 m (p + first)) where
    -- The word read ahead reaches back over the last `first` bytes copied.
    record Ahead (p k t : ℕ) (x : Shifting) : Type 0 where
      at : At m d s n forward bytes k t x.cur
      word_eq : x.word ≡ load32 m p
      back : p + first ≡ s + t

    shift_word-Ahead :
        (j : ℕ) {p k t : ℕ} {x : Shifting}
        → Ahead p k t x
        → t ≡ k + j
        → t + off + 4 ≤ n
        → Ahead (p + 4) k (t + 4) (shift_word lo hi off j x)
    unfolding shift_word
    shift_word-Ahead j {p} {k} {t} {x} a e h =
        let sum : s + (k + (off + j)) ≡ p + 4 = omega (arith, a.back) in
        let there : x.cur.dst + j ≡ d + t = omega (arith, a.at.dst_eq) in
        let read = load32-At m d s n forward bytes (off + j) a.at (omega arith) (omega arith) in
        let word' : load32 x.cur.mem (x.cur.src + (off + j)) ≡ load32 m (p + 4) = rw (← sum) read in
        record {
          at = record {
            dst_eq = a.at.dst_eq;
            src_eq = a.at.src_eq;
            copied =
                rw (there, word', a.word_eq)
                  (Copied-store32 m d s t a.at.copied bytes _ (rw (merge p, a.back)));
          };
          word_eq = word';
          back = omega (arith, a.back);
        }

    -- One round of the loop moves sixteen bytes.
    shift_body-Ahead :
        {p k : ℕ} {x : Shifting}
        → Ahead p k k x
        → k + 16 + off ≤ n
        → Ahead (p + 16) (k + 16) (k + 16) (shift_body lo hi off x)
    unfolding shift_body
    shift_body-Ahead {p} {k} {x} a h =
        let a4 = shift_word-Ahead 0 a (omega arith) (omega arith) in
        let a8 = shift_word-Ahead 4 a4 refl (omega arith) in
        let a12 = shift_word-Ahead 8 a8 (omega arith) (omega arith) in
        let a16 = shift_word-Ahead 12 a12 (omega arith) (omega arith) in
        let same : k + 4 + 4 + 4 + 4 ≡ k + 16 = omega arith in
        let same_p : p + 4 + 4 + 4 + 4 ≡ p + 16 = omega arith in
        record {
          at = record {
            dst_eq = omega (arith, a16.at.dst_eq);
            src_eq = omega (arith, a16.at.src_eq);
            copied = rw (← same) a16.at.copied;
          };
          word_eq = rw (← same_p) a16.word_eq;
          back = omega (arith, a16.back);
        }

    left-shift_body : (x : Shifting) → (shift_body lo hi off x).cur.left ≡ x.cur.left - 16
    unfolding shift_body
    left-shift_body x = refl

    -- What the loop keeps, wherever it stands.
    abbrev Keeps : Shifting → Type 0
    Keeps x = (k : ℕ) × (p : ℕ) × Ahead p k k x × (x.cur.left + k ≡ n)

    loop-Keeps :
        (fuel : ℕ) (x : Shifting)
        → x.cur.left ≤ fuel
        → Keeps x
        → let out = while (λ t. leb (16 + off) t.cur.left) (shift_body lo hi off) fuel x in
          Keeps out × (out.cur.left < 16 + off)
    loop-Keeps fuel x h keeps =
        let done =
          while-Inv (λ (t : Shifting). leb (16 + off) t.cur.left) (shift_body lo hi off) Keeps
            (λ t. t.cur.left) round fuel x h keeps in
        (done.0, leb→gt _ _ done.1)
      where
        round :
            (t : Shifting)
            → Keeps t
            → leb (16 + off) t.cur.left ≡ true
            → Keeps (shift_body lo hi off t) × ((shift_body lo hi off t).cur.left < t.cur.left)
        round t (k, p, a, e) go =
            let enough : 16 + off ≤ t.cur.left = leb→le _ _ go in
            (
              (k + 16, p + 16, shift_body-Ahead a (omega arith), omega (arith, left-shift_body t)),
              omega (arith, left-shift_body t),
            )

    -- One case of the switch leaves the cursor where all before it is copied.
    pub shift_case-Going :
        {k : ℕ} {c : Cursor}
        → Going k c
        → 32 ≤ c.left
        → first ≤ 3
        → (k' : ℕ) × Going k' (shift_case first lo hi off c)
          × ((shift_case first lo hi off c).left < 16 + off)
    unfolding shift_case consume
    shift_case-Going {k} {c} g h few =
        let begun = copy_bytes-At m d s n forward bytes first k g.at (omega (arith, g.left_eq)) in
        let start : Shifting = record {
          word = load32 c.mem c.src;
          cur = consume first (copy_bytes first c);
        } in
        let src0 : c.src ≡ c.src + 0 = omega arith in
        let k0 : s + (k + 0) ≡ s + k = omega arith in
        let ahead : Ahead (s + k) (k + first) (k + first) start = record {
          at = record { dst_eq = begun.dst_eq; src_eq = begun.src_eq; copied = begun.copied };
          word_eq =
              rw (src0, ← k0)
                (load32-At m d s n forward bytes 0 g.at (omega arith) (omega (arith, g.left_eq)));
          back = omega arith;
        } in
        let left0 = left-copy_bytes first c in
        let out =
          loop-Keeps c.left start (omega (arith, left0))
            (k + first, s + k, ahead, omega (arith, left0, g.left_eq)) in
        let (k', p, a, e) = out.0 in (k', record { at = a.at; left_eq = e }, out.1)

  abbrev Short : ℕ → Cursor → Type 0
  Short b c = (k' : ℕ) × Going k' c × (c.left < b)

  below : (b : ℕ) {c : Cursor} → b ≤ 32 → Short b c → Short 32 c
  below b h (k', g, short) = (k', g, omega arith)

  case_one : {k : ℕ} {c : Cursor} → Going k c → 32 ≤ c.left → Short 17 (shift_case 3 24 8 1 c)
  case_one g h = shift_case-Going 3 24 8 1 (omega arith) (merged_one m bytes) g h (omega arith)

  case_two : {k : ℕ} {c : Cursor} → Going k c → 32 ≤ c.left → Short 18 (shift_case 2 16 16 2 c)
  case_two g h = shift_case-Going 2 16 16 2 (omega arith) (merged_two m bytes) g h (omega arith)

  case_three : {k : ℕ} {c : Cursor} → Going k c → 32 ≤ c.left → Short 19 (shift_case 1 8 24 3 c)
  case_three g h = shift_case-Going 1 8 24 3 (omega arith) (merged_three m bytes) g h (omega arith)

  -- The whole switch, on every alignment of the destination but the word's own.
  pub shifted-Going :
      {k : ℕ} {c : Cursor}
      → Going k c
      → 32 ≤ c.left
      → (c.dst % 4 == 0) ≡ false
      → (k' : ℕ) × Going k' (shifted c) × ((shifted c).left < 32)
  unfolding shifted
  shifted-Going {k} {c} g h odd = elim (Bool-cases (c.dst % 4 == 1)) [
    | inl one ↦ rw one (below 17 (omega arith) (case_one g h))
    | inr not_one ↦ elim (Bool-cases (c.dst % 4 == 2)) [
      | inl two ↦ rw (not_one, two) (below 18 (omega arith) (case_two g h))
      | inr not_two ↦ elim (Bool-cases (c.dst % 4 == 3)) [
        | inl three ↦ rw (not_one, not_two, three) (below 19 (omega arith) (case_three g h))
        | inr not_three ↦ absurd (ground arith)
      ]
    ]
  ]
