-- ===== src/Tests/Strings.antt =====
-- The memory and string routines of libc/src/musl.
use wasm_cxx_shim.Prelude.{
  ℕ, ◌+◌, ◌*◌, ◌%◌, ◌<◌, ◌≡◌, ◌≢◌, ◌⊎◌, ◌↔◌, refl, false, ◌==◌, if◌then◌else◌, inr, arith, List, [],
  ◌∷◌,
}
use wasm_cxx_shim.Prelude.Loop.{while}
use wasm_cxx_shim.Prelude.Int.{pos, negsuc, sub_ℕ}
use wasm_cxx_shim.Memory.{Memory, IsBytes, store, load32, store32, memory_fill}
use wasm_cxx_shim.Memory.Copied.{Copied}
use wasm_cxx_shim.Libc.Memcpy.{memcpy, head_body, copy_word}
use wasm_cxx_shim.Libc.Memcpy.Correct.Final.{memcpy-Copied}
use wasm_cxx_shim.Libc.Memset.{
  memset, fill, fill_words, fill_loop, fill_body, store64, bytes_one, bytes_three, bytes_four,
  words_four, words_twelve, words_rest,
}
use wasm_cxx_shim.Libc.Memset.Correct.Final.{memset-Filled}
use wasm_cxx_shim.Libc.Memmove.{
  memmove, forward, backward, forward_bytes, forward_words, forward_head, step_byte, step_word,
  backward_bytes, backward_words, backward_head, back_byte, back_word,
}
use wasm_cxx_shim.Libc.Memmove.Correct.{memmove-Copied}
use wasm_cxx_shim.Libc.Memcmp.{memcmp, next}
use wasm_cxx_shim.Libc.Memcmp.Correct.{Agree, memcmp_lem}
use wasm_cxx_shim.Libc.Strlen.{strlen, haszero}
use wasm_cxx_shim.Libc.Strlen.Haszero.{haszero_iff}
use wasm_cxx_shim.Libc.Strlen.Correct.{strlen_lem}

-- A byte at each address, told from its neighbours.
abbrev pattern_memory : Memory
pattern_memory a = (a * 37 + 5) % 256

pattern_memory-IsBytes : IsBytes pattern_memory
pattern_memory-IsBytes a = omega arith

-- A string of `A`s with its NUL at 22.
abbrev letters : Memory
letters a = if a == 22 then 0 else b'A'

letters-IsBytes : IsBytes letters
letters-IsBytes a = ground arith

abbrev bytes_at : Memory → List ℕ → List ℕ
bytes_at m [] = []
bytes_at m (a ∷ addresses) = m a ∷ bytes_at m addresses

-- Every path of the copy: the aligned one, and each case of the switch.
memcpy_runs :
    (bytes_at (memcpy false pattern_memory 1000 40 45).mem (999 ∷ 1000 ∷ 1031 ∷ 1044 ∷ 1045 ∷ [])
      ≡ bytes_at pattern_memory (999 ∷ 40 ∷ 71 ∷ 84 ∷ 1045 ∷ []))
    × (bytes_at (memcpy false pattern_memory 1001 41 45).mem (1000 ∷ 1001 ∷ 1031 ∷ 1045 ∷ 1046 ∷ [])
        ≡ bytes_at pattern_memory (1000 ∷ 41 ∷ 71 ∷ 85 ∷ 1046 ∷ []))
    × (bytes_at (memcpy false pattern_memory 1001 40 45).mem (1000 ∷ 1001 ∷ 1031 ∷ 1045 ∷ 1046 ∷ [])
        ≡ bytes_at pattern_memory (1000 ∷ 40 ∷ 70 ∷ 84 ∷ 1046 ∷ []))
    × (bytes_at (memcpy false pattern_memory 1002 40 45).mem (1001 ∷ 1002 ∷ 1031 ∷ 1046 ∷ 1047 ∷ [])
        ≡ bytes_at pattern_memory (1001 ∷ 40 ∷ 69 ∷ 84 ∷ 1047 ∷ []))
    × (bytes_at (memcpy false pattern_memory 1003 40 45).mem (1002 ∷ 1003 ∷ 1031 ∷ 1047 ∷ 1048 ∷ [])
        ≡ bytes_at pattern_memory (1002 ∷ 40 ∷ 68 ∷ 84 ∷ 1048 ∷ []))
unfolding memcpy load32 store32 store
memcpy_runs = (refl, refl, refl, refl, refl)

memset_runs :
    bytes_at (memset false pattern_memory 1001 0x1ab 77).mem (1000 ∷ 1001 ∷ 1040 ∷ 1077 ∷ 1078 ∷ [])
    ≡ pattern_memory 1000 ∷ 0xab ∷ 0xab ∷ 0xab ∷ pattern_memory 1078 ∷ []
unfolding memset fill fill_words fill_loop fill_body store64 bytes_one bytes_three bytes_four
    words_four words_twelve words_rest while store store32
memset_runs = refl

memmove_runs :
    (bytes_at (memmove false pattern_memory 1000 1004 30).mem (999 ∷ 1000 ∷ 1029 ∷ 1030 ∷ [])
      ≡ bytes_at pattern_memory (999 ∷ 1004 ∷ 1033 ∷ 1030 ∷ []))
    × (bytes_at (memmove false pattern_memory 1005 1000 30).mem (1004 ∷ 1005 ∷ 1034 ∷ 1035 ∷ [])
        ≡ bytes_at pattern_memory (1004 ∷ 1000 ∷ 1029 ∷ 1035 ∷ []))
unfolding memmove forward backward forward_bytes forward_words forward_head step_byte step_word
    backward_bytes backward_words backward_head back_byte back_word while store store32 load32
    copy_word head_body
memmove_runs = (refl, refl)

memcmp_runs : (memcmp letters 0 5 17 ≡ pos 0) × (memcmp letters 20 30 4 ≡ negsuc 64)
unfolding memcmp next while
memcmp_runs = (refl, refl)

strlen_runs : (strlen 100 letters 3 ≡ 19) × (strlen 100 letters 21 ≡ 1)
unfolding strlen haszero load32 while
strlen_runs = (refl, refl)

memcpy-Copied_example :
    Copied pattern_memory 1001 40 45 (memcpy false pattern_memory 1001 40 45).mem
    × ((memcpy false pattern_memory 1001 40 45).pointer ≡ 1001)
memcpy-Copied_example =
    memcpy-Copied pattern_memory 1001 40 45 (inr (omega arith)) pattern_memory-IsBytes false

memset-Filled_example :
    ((a : ℕ)
      → (memset false pattern_memory 1001 0x1ab 77).mem a
        ≡ memory_fill pattern_memory 1001 0x1ab 77 a)
    × ((memset false pattern_memory 1001 0x1ab 77).pointer ≡ 1001)
memset-Filled_example = memset-Filled pattern_memory 1001 77 0x1ab false (omega arith) (omega arith)

memmove-Copied_example :
    Copied pattern_memory 1005 1000 30 (memmove false pattern_memory 1005 1000 30).mem
    × ((memmove false pattern_memory 1005 1000 30).pointer ≡ 1005)
memmove-Copied_example =
    memmove-Copied pattern_memory 1005 1000 30 pattern_memory-IsBytes (omega arith) (omega arith)
      (omega arith) (omega arith) (omega arith) false

memcmp_lem_example :
    (Agree letters 20 30 4 4 × (memcmp letters 20 30 4 ≡ pos 0))
    ⊎ ((k : ℕ) × (k < 4)
        × Agree letters 20 30 4 k
        × (letters (20 + k) ≢ letters (30 + k))
        × (memcmp letters 20 30 4 ≡ sub_ℕ (letters (20 + k)) (letters (30 + k)))
        × (memcmp letters 20 30 4 ≢ pos 0))
memcmp_lem_example = memcmp_lem letters 20 30 4

haszero_iff_example :
    (haszero 0x41004141 ≡ 0)
    ↔ ((letters 1 ≢ 0) × (letters 2 ≢ 0) × (letters 22 ≢ 0) × (letters 3 ≢ 0))
haszero_iff_example =
    haszero_iff (letters 1) (letters 2) (letters 22) (letters 3) (omega arith) (omega arith)
      (omega arith) (omega arith)

before_nul : (j : ℕ) → j < 19 → letters (3 + j) ≢ 0
before_nul j h = ground arith

strlen_lem_example : strlen 19 letters 3 ≡ 19
strlen_lem_example = strlen_lem letters letters-IsBytes 3 19 19 before_nul refl (omega arith)
