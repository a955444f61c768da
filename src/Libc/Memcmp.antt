-- ===== src/Libc/Memcmp.antt =====
-- libc/src/musl/memcmp.c. `__wasilibc_simd_string` is not defined, so the byte loop is what
-- is compiled.
pub mod Correct
use wasm_cxx_shim.Prelude.{ℕ, ◌+◌, ◌-◌, Bool, not, ◌&&◌, ◌==◌, if◌then◌else◌}
use wasm_cxx_shim.Prelude.Int.{ℤ, pos, sub_ℕ}
use wasm_cxx_shim.Prelude.Loop.{while}
use wasm_cxx_shim.Memory.{Memory}

-- The locals `l`, `r` and `n`.
pub record Pair : Type 0 where
  pub l : ℕ
  pub r : ℕ
  pub left : ℕ

abbrev pub alike : Memory → Pair → Bool
alike m p = not (p.left == 0) && m p.l == m p.r

unfoldable pub next : Pair → Pair
next p = record { l = p.l + 1; r = p.r + 1; left = p.left - 1 }

unfoldable pub memcmp : Memory → ℕ → ℕ → ℕ → ℤ
memcmp m vl vr n =
    let p = while (alike m) next n (record { l = vl; r = vr; left = n }) in
    if p.left == 0 then pos 0 else sub_ℕ (m p.l) (m p.r)
