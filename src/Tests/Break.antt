-- ===== src/Tests/Break.antt =====
-- `sbrk` of libc/src/dlmalloc/sbrk.c, with a host that grants every request.
use wasm_cxx_shim.Prelude.{ℕ, ◌+◌, ◌*◌, ◌%◌, ◌^◌, ◌≡◌, Bool, true, refl, arith}
use wasm_cxx_shim.Prelude.Int.{pos, negsuc}
use wasm_cxx_shim.Libc.Sbrk.{sbrk, sbrk_up, memory_grow, grown, trap, returned, page_size}
use wasm_cxx_shim.Libc.Sbrk.Contract.{Contract, sbrk-Contract, sbrk_contiguous}

abbrev always : ℕ → ℕ → Bool
always pages delta = true

sbrk_runs :
    (sbrk always 2 (pos 0) ≡ returned 2 131072)
    × (sbrk always 2 (pos 196608) ≡ returned 5 131072)
    × (sbrk always 2 (pos 100) ≡ trap)
    × (sbrk always 65535 (pos 131072) ≡ returned 65535 0xffff_ffff)
unfolding sbrk sbrk_up memory_grow grown
sbrk_runs = (refl, refl, refl, refl)

sbrk-Contract_example :
    ((n : ℕ) → Contract always 2 n (sbrk always 2 (pos n)))
    × ((n : ℕ) → sbrk always 2 (negsuc n) ≡ trap)
sbrk-Contract_example = sbrk-Contract always 2 (omega arith)

first_extension : sbrk always 2 (pos 196608) ≡ returned 5 131072
unfolding sbrk sbrk_up memory_grow grown
first_extension = refl

second_extension : sbrk always 5 (pos 65536) ≡ returned 6 327680
unfolding sbrk sbrk_up memory_grow grown
second_extension = refl

sbrk_contiguous_example :
    (327680 ≡ (131072 + 196608) % 2 ^ 32) × (6 * page_size ≡ 2 * page_size + 196608 + 65536)
sbrk_contiguous_example =
    sbrk_contiguous always 2 196608 65536 5 6 131072 327680 (omega arith) (omega arith)
      (omega arith) first_extension (omega arith) second_extension (omega arith)
