-- ===== src/Memory.antt =====
-- The linear memory of wasm32 as the C code sees it: a byte at each address, 32-bit words stored
-- with the low byte first, and the two bulk instructions to which clang lowers `__builtin_memcpy`,
-- `__builtin_memmove` and `__builtin_memset`.
pub mod Copied
use wasm_cxx_shim.Prelude.{
  ℕ, ◌+◌, ◌-◌, ◌*◌, ◌/◌, ◌%◌, ◌^◌, ◌<◌, ◌&&◌, leb, ltb, ◌==◌, if◌then◌else◌,
}

abbrev pub Memory : Type 0
Memory = ℕ → ℕ

-- Each cell holds a byte.
abbrev pub IsBytes : Memory → Type 0
IsBytes m = (a : ℕ) → m a < 256

unfoldable pub store : Memory → ℕ → ℕ → Memory
store m a v = λ x. if x == a then v else m x

unfoldable pub load32 : Memory → ℕ → ℕ
load32 m a = m a + m (a + 1) * 2 ^ 8 + m (a + 2) * 2 ^ 16 + m (a + 3) * 2 ^ 24

unfoldable pub store32 : Memory → ℕ → ℕ → Memory
unfolding store
store32 m a w =
    store (store (store (store m a (w % 256)) (a + 1) (w / 2 ^ 8 % 256)) (a + 2) (w / 2 ^ 16 % 256))
      (a + 3) (w / 2 ^ 24 % 256)

-- `memory.copy`, which allows an overlap: what lies at an address after the bytes at `s` are
-- copied to `d`.
unfoldable pub memory_copy : Memory → ℕ → ℕ → ℕ → Memory
memory_copy m d s n = λ a. if leb d a && ltb a (d + n) then m (s + (a - d)) else m a

-- `memory.fill`, which stores the low byte of its operand.
unfoldable pub memory_fill : Memory → ℕ → ℕ → ℕ → Memory
memory_fill m d c n = λ a. if leb d a && ltb a (d + n) then c % 256 else m a
