-- ===== src/Libc/Memcpy/Correct/Final.antt =====
-- The whole of `memcpy`, on every path.
use wasm_cxx_shim.Prelude.{
  ℕ, ◌%◌, ◌≡◌, refl, Bool, leb, ltb, ◌==◌, ◌&&◌, arith, Bool-cases, inl, inr, leb→le, leb→gt,
}
use wasm_cxx_shim.Memory.{Memory, IsBytes}
use wasm_cxx_shim.Memory.Copied.{Copied, Forward, Copied-zero}
use wasm_cxx_shim.Libc.Memcpy.{Cursor, blocks, shifted, finish, memcpy, bulk_memory_threshold}
use wasm_cxx_shim.Libc.Memcpy.Correct.Shift.{Going, shifted-Going}
use wasm_cxx_shim.Libc.Memcpy.Correct.Tail.{
  Keeps, head-Keeps, blocks-Keeps, tail_aligned-Copied, tail_bytes-Copied,
}

module _ (m : Memory) (d s n : ℕ) (forward : Forward d s n) (bytes : IsBytes m) where
  finish-Copied : (c : Cursor) → Keeps m d s n forward bytes c → Copied m d s n (finish c).mem
  unfolding finish
  finish-Copied c (k, g) = elim (Bool-cases (c.dst % 4 == 0)) [
    | inl even ↦
        let done = blocks-Keeps m d s n forward bytes c (k, g) in
        rw even (tail_aligned-Copied m d s n forward bytes (blocks c) done.0 done.1)
    | inr odd ↦ elim (Bool-cases (leb 32 c.left)) [
      | inl long ↦
          let (k', g', short) = shifted-Going m d s n forward bytes g (leb→le _ _ long) odd in
          rw (odd, long) (tail_bytes-Copied m d s n forward bytes (shifted c) (k', g') short)
      | inr short ↦
          rw (odd, short) (tail_bytes-Copied m d s n forward bytes c (k, g) (leb→gt _ _ short))
    ]
  ]

  -- `memcpy` copies exactly the `n` bytes and returns its destination, with or without the bulk
  -- instruction, at every alignment, if the regions are disjoint or the destination comes first.
  pub memcpy-Copied :
      (bulk : Bool) → Copied m d s n (memcpy bulk m d s n).mem × ((memcpy bulk m d s n).pointer ≡ d)
  unfolding memcpy
  memcpy-Copied bulk = elim (Bool-cases (bulk && ltb bulk_memory_threshold n)) [
    | inl fast ↦ rw fast ((λ a. refl), refl)
    | inr slow ↦ rw slow (finish-Copied _ (head-Keeps m d s n forward bytes _ (0, started)), refl)
  ]
    where
      started : Going m d s n forward bytes 0 (record { mem = m; dst = d; src = s; left = n })
      started = record {
        at = record { dst_eq = omega arith; src_eq = omega arith; copied = Copied-zero m d s };
        left_eq = omega arith;
      }
