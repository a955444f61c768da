-- ===== src/Libc/Strlen.antt =====
-- libc/src/musl/strlen.c. `__wasilibc_simd_string` is not defined, so the word loop is what is
-- compiled; `size_t` has four bytes. `fuel` bounds the rounds of each loop.
pub mod Haszero
pub mod Correct
use wasm_cxx_shim.Prelude.{
  ℕ, ◌+◌, ◌-◌, ◌*◌, ◌/◌, ◌%◌, ◌^◌, bit_and, Bool, not, ◌&&◌, ◌==◌, if◌then◌else◌,
}
use wasm_cxx_shim.Prelude.Loop.{while}
use wasm_cxx_shim.Memory.{Memory, load32}

-- `(size_t)-1/UCHAR_MAX`
abbrev pub ones : ℕ
ones = (2 ^ 32 - 1) / 255

-- `ONES * (UCHAR_MAX/2+1)`
abbrev pub highs : ℕ
highs = ones * (255 / 2 + 1)

-- `(x)-ONES & ~(x) & HIGHS`
unfoldable pub haszero : ℕ → ℕ
haszero x = bit_and (bit_and ((x + 2 ^ 32 - ones) % 2 ^ 32) (2 ^ 32 - 1 - x)) highs

abbrev pub nonzero : ℕ → Bool
nonzero x = not (x == 0)

-- for (; (uintptr_t)s % ALIGN; s++) if (!*s) return s-a;
abbrev pub head_test : Memory → ℕ → Bool
head_test m s = nonzero (s % 4) && nonzero (m s)

unfoldable pub strlen : ℕ → Memory → ℕ → ℕ
strlen fuel m a =
    let s = while (head_test m) (λ s. s + 1) fuel a in
    let w = while (λ w. haszero (load32 m w) == 0) (λ w. w + 4) fuel s in
    let t = while (λ t. nonzero (m t)) (λ t. t + 1) fuel w in
    if nonzero (s % 4) then s - a else t - a
