-- ===== src/Libc/Memmove/Correct.antt =====
-- The whole of `memmove`: any overlap.
use wasm_cxx_shim.Prelude.{
  ℕ, zero, suc, ◌+◌, ◌-◌, ◌*◌, ◌%◌, ◌^◌, ◌≤◌, ◌<◌, ◌≡◌, ◌⊎◌, ◌≢◌, ◌↔◌, refl, Bool, true, ◌&&◌, ltb,
  ◌==◌, arith, Bool-cases, inl, inr,
}
use wasm_cxx_shim.Memory.{Memory, IsBytes, memory_copy}
use wasm_cxx_shim.Memory.Copied.{Copied, Copied-zero}
use wasm_cxx_shim.Libc.Memcpy.{Cursor, bulk_memory_threshold}
use wasm_cxx_shim.Libc.Memcpy.Correct.Final.{memcpy-Copied}
use wasm_cxx_shim.Libc.Memmove.{apart, memmove}
use wasm_cxx_shim.Libc.Memmove.Forward.{Up, forward-Copied}
use wasm_cxx_shim.Libc.Memmove.Backward.{Down, backward-Copied}

-- The two sides of the test in wrapped arithmetic.
minus_twice : (n : ℕ) → 1 ≤ n → n < 2 ^ 31 → (2 ^ 32 - 2) * n % 2 ^ 32 ≡ 2 ^ 32 - 2 * n
minus_twice n h k = omega arith

-- The test in wrapped arithmetic holds exactly of disjoint regions that are not empty.
pub apart-disjoint :
    (d s n : ℕ)
    → d < 2 ^ 32
    → s < 2 ^ 32
    → d + n ≤ 2 ^ 32
    → s + n ≤ 2 ^ 32
    → n < 2 ^ 31
    → d ≢ s
    → (apart d s n ≡ true) ↔ ((1 ≤ n) × ((d + n ≤ s) ⊎ (s + n ≤ d)))
apart-disjoint d s zero hd hs h k hn ne = ground arith
apart-disjoint d s (suc j) hd hs h k hn ne = ground (arith, minus_twice (suc j) (omega arith) hn)

module _ (m : Memory) (d s n : ℕ) (bytes : IsBytes m) (d_fits : d < 2 ^ 32) (s_fits : s < 2 ^ 32)
    (d_end : d + n ≤ 2 ^ 32) (s_end : s + n ≤ 2 ^ 32) (small : n < 2 ^ 31) where
  -- `memmove` copies exactly the `n` bytes, whatever the overlap and the alignment, with or without
  -- the bulk instruction, and returns its destination. The regions do not wrap round the address
  -- space, and are shorter than half of it.
  pub memmove-Copied :
      (bulk : Bool)
      → Copied m d s n (memmove bulk m d s n).mem × ((memmove bulk m d s n).pointer ≡ d)
  unfolding memmove
  memmove-Copied bulk = elim (Bool-cases (bulk && ltb bulk_memory_threshold n)) [
    | inl fast ↦ rw fast ((λ a. refl), refl)
    | inr slow ↦ elim (Bool-cases (d == s)) [
      | inl same ↦
          let same' : d ≡ s = ground arith in
          rw (slow, same) ((λ a. unfold memory_copy in ground arith), refl)
      | inr differ ↦
          let ne : d ≢ s = ground arith in
          elim (Bool-cases (apart d s n)) [
            | inl far ↦
                let disjoint = (apart-disjoint d s n d_fits s_fits d_end s_end small ne).0 far in
                rw (slow, differ, far) (memcpy-Copied m d s n (ground arith) bytes bulk)
            | inr near ↦ elim (Bool-cases (ltb d s)) [
              | inl down ↦
                  let below : d < s = ground arith in
                  rw (slow, differ, near, down)
                    (forward-Copied m d s n (inl (omega arith)) bytes _ (started_up below), refl)
              | inr up ↦
                  let above : s ≤ d = ground arith in
                  rw (slow, differ, near, up)
                    (backward-Copied m d s n above bytes _ (started_down above), refl)
            ]
          ]
    ]
  ]
    where
      start : Cursor
      start = record { mem = m; dst = d; src = s; left = n }

      started_up : (below : d < s) → Up m d s n (inl (omega arith)) bytes start
      started_up below = record {
        done = 0;
        at = record { dst_eq = omega arith; src_eq = omega arith; copied = Copied-zero m d s };
        left_eq = omega arith;
      }

      started_down : (above : s ≤ d) → Down m d s n above bytes start
      started_down above = record {
        dst_eq = refl;
        src_eq = refl;
        fits = omega arith;
        copied = λ a. unfold memory_copy in ground arith;
      }
