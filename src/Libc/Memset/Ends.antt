-- ===== src/Libc/Memset/Ends.antt =====
-- `memset` works from both ends: the first `h` and the last `t` bytes are filled.
use wasm_cxx_shim.Prelude.{
  ℕ, ◌+◌, ◌/◌, ◌%◌, ◌^◌, ◌≤◌, ◌≡◌, ◌&&◌, ◌||◌, leb, ltb, if◌then◌else◌, arith,
}
use mathlib.Core.Path.{fun_ext}
use wasm_cxx_shim.Prelude.Bits.{bit_or-shifted}
use wasm_cxx_shim.Memory.{Memory, store, store32, memory_fill}
use wasm_cxx_shim.Libc.Memset.{low_byte, word_of, long_of, store64}

-- Every store of the routine is a short fill.
pub store-fill : (m : Memory) (p c : ℕ) → store m p (low_byte c) ≡ memory_fill m p c 1
unfolding store memory_fill
store-fill m p c = fun_ext λ a. ground arith

pub fill-fill :
    (m : Memory) (p c j k : ℕ)
    → memory_fill (memory_fill m p c j) (p + j) c k ≡ memory_fill m p c (j + k)
unfolding memory_fill
fill-fill m p c j k = fun_ext λ a. ground arith

pub store32-fill : (m : Memory) (p c : ℕ) → store32 m p (word_of c) ≡ memory_fill m p c 4
unfolding store32 memory_fill
store32-fill m p c = fun_ext λ a. ground arith

long-halves : (c : ℕ) → (long_of c % 2 ^ 32 ≡ word_of c) × (long_of c / 2 ^ 32 ≡ word_of c)
long-halves c = ground (arith, bit_or-shifted 32 (word_of c) (word_of c))

pub store64-fill : (m : Memory) (p c : ℕ) → store64 m p (long_of c) ≡ memory_fill m p c 8
unfolding store64
store64-fill m p c =
    rw ((long-halves c).0, (long-halves c).1, store32-fill, store32-fill) (fill-fill m p c 4 4)

module _ (m : Memory) (d n c : ℕ) where
  abbrev pub Ends : ℕ → ℕ → Memory → Type 0
  Ends h t m' =
      (a : ℕ)
      → m' a ≡ (
          if leb d a && ltb a (d + n) && (ltb a (d + h) || leb (d + n) (a + t))
          then c % 256
          else m a)

  pub Ends-none : Ends 0 0 m
  Ends-none a = ground arith

  pub Ends-head :
      (h t : ℕ) {m' : Memory} (p w h' : ℕ)
      → Ends h t m'
      → d ≤ p
      → p ≤ d + h
      → p + w ≡ d + h'
      → h ≤ h'
      → h' ≤ n
      → Ends h' t (memory_fill m' p c w)
  unfolding memory_fill
  Ends-head h t p w h' ends q1 q2 q3 q4 q5 a = ground (arith, ends a)

  pub Ends-tail :
      (h t : ℕ) {m' : Memory} (p w t' : ℕ)
      → Ends h t m'
      → p + t' ≡ d + n
      → d + n ≤ p + w + t
      → p + w ≤ d + n
      → t ≤ t'
      → t' ≤ n
      → Ends h t' (memory_fill m' p c w)
  unfolding memory_fill
  Ends-tail h t p w t' ends q1 q2 q3 q4 q5 a = ground (arith, ends a)

  -- Once the ends meet, the region is filled.
  pub Ends-meet :
      (h t : ℕ) {m' : Memory} → Ends h t m' → n ≤ h + t → (a : ℕ) → m' a ≡ memory_fill m d c n a
  unfolding memory_fill
  Ends-meet h t ends q a = ground (arith, ends a)
