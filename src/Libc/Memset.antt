-- ===== src/Libc/Memset.antt =====
-- libc/src/musl/memset.c, with `__GNUC__` defined. `c` is the bit pattern of the `int` argument;
-- pointers are numbers below 2 ^ 32.
pub mod Ends
pub mod Correct
use wasm_cxx_shim.Prelude.{
  ℕ, ◌+◌, ◌-◌, ◌*◌, ◌/◌, ◌%◌, ◌^◌, bit_and, bit_or, Bool, ◌&&◌, leb, ltb, ◌==◌, if◌then◌else◌,
}
use wasm_cxx_shim.Prelude.Loop.{while}
use wasm_cxx_shim.Memory.{Memory, store, store32, memory_fill}
use wasm_cxx_shim.Libc.Memcpy.{Returned, bulk_memory_threshold}

-- `(unsigned char)c`
abbrev pub low_byte : ℕ → ℕ
low_byte c = c % 256

-- `((u32)-1)/255 * (unsigned char)c`
abbrev pub word_of : ℕ → ℕ
word_of c = (2 ^ 32 - 1) / 255 * low_byte c % 2 ^ 32

-- `c32 | ((u64)c32 << 32)`
abbrev pub long_of : ℕ → ℕ
long_of c = bit_or (word_of c) (word_of c * 2 ^ 32)

-- A store through `u64 *`.
unfoldable pub store64 : Memory → ℕ → ℕ → Memory
store64 m a w = store32 (store32 m a (w % 2 ^ 32)) (a + 4) (w / 2 ^ 32)

-- The byte stores before each of the first three tests on `n`.
unfoldable pub bytes_one : Memory → ℕ → ℕ → ℕ → Memory
bytes_one m s n c = store (store m s (low_byte c)) (s + (n - 1)) (low_byte c)

unfoldable pub bytes_three : Memory → ℕ → ℕ → ℕ → Memory
bytes_three m s n c =
    store
      (store (store (store m (s + 1) (low_byte c)) (s + 2) (low_byte c)) (s + (n - 2)) (low_byte c))
      (s + (n - 3)) (low_byte c)

unfoldable pub bytes_four : Memory → ℕ → ℕ → ℕ → Memory
bytes_four m s n c = store (store m (s + 3) (low_byte c)) (s + (n - 4)) (low_byte c)

-- The word stores before each of the next two tests, and after them.
unfoldable pub words_four : Memory → ℕ → ℕ → ℕ → Memory
words_four m s n c = store32 (store32 m (s + 0) (word_of c)) (s + n - 4) (word_of c)

unfoldable pub words_twelve : Memory → ℕ → ℕ → ℕ → Memory
words_twelve m s n c =
    let head = store32 (store32 m (s + 4) (word_of c)) (s + 8) (word_of c) in
    store32 (store32 head (s + n - 12) (word_of c)) (s + n - 8) (word_of c)

unfoldable pub words_rest : Memory → ℕ → ℕ → ℕ → Memory
words_rest m s n c =
    let w = word_of c in
    let head =
      store32 (store32 (store32 (store32 m (s + 12) w) (s + 16) w) (s + 20) w) (s + 24) w in
    store32 (store32 (store32 (store32 head (s + n - 28) w) (s + n - 24) w) (s + n - 20) w)
      (s + n - 16) w

-- The locals of the last loop.
pub record Filling : Type 0 where
  pub mem : Memory
  pub at : ℕ
  pub left : ℕ

unfoldable pub fill_body : ℕ → Filling → Filling
fill_body c f = record {
  mem =
      store64
        (store64 (store64 (store64 f.mem (f.at + 0) (long_of c)) (f.at + 8) (long_of c)) (f.at + 16)
          (long_of c))
        (f.at + 24) (long_of c);
  at = f.at + 32;
  left = f.left - 32;
}

unfoldable pub fill_loop : Memory → ℕ → ℕ → ℕ → Memory
fill_loop m s n c =
    let k = 24 + bit_and s 4 in
    (while (λ (f : Filling). leb 32 f.left) (fill_body c) n
      (record { mem = m; at = s + k; left = n - k })).mem

-- From `*(u32 *)(s+0) = c32` on, with `s` aligned and `n` a multiple of 4.
unfoldable pub fill_words : Memory → ℕ → ℕ → ℕ → Memory
fill_words m s n c =
    let four = words_four m s n c in
    let twelve = words_twelve four s n c in
    if leb n 8 then four else if leb n 24 then twelve else fill_loop (words_rest twelve s n c) s n c

-- `k = -(uintptr_t)s & 3`
abbrev pub to_align : ℕ → ℕ
to_align s = bit_and ((2 ^ 32 - s) % 2 ^ 32) 3

unfoldable pub fill : Memory → ℕ → ℕ → ℕ → Memory
fill m s n c =
    let one = bytes_one m s n c in
    let three = bytes_three one s n c in
    let four = bytes_four three s n c in
    if n == 0
    then m
    else if leb n 2
    then one
    else if leb n 6
    then three
    else if leb n 8
    then four
    else fill_words four (s + to_align s) (bit_and (n - to_align s) (2 ^ 32 - 4)) c

unfoldable pub memset : Bool → Memory → ℕ → ℕ → ℕ → Returned
memset bulk m dest c n =
    if bulk && ltb bulk_memory_threshold n
    then record { mem = memory_fill m dest c n; pointer = dest }
    else record { mem = fill m dest n c; pointer = dest }
