-- ===== src/Libc/Sbrk.antt =====
-- libc/src/dlmalloc/sbrk.c. The linear memory is its size in pages; `grants` is the host's answer
-- to `memory.grow`, from the size and the pages asked for.
pub mod Contract
use wasm_cxx_shim.Prelude.{
  ℕ, ◌+◌, ◌-◌, ◌*◌, ◌/◌, ◌%◌, ◌^◌, Bool, true, false, not, ◌&&◌, ◌||◌, leb, ◌==◌, if◌then◌else◌,
}
use wasm_cxx_shim.Prelude.Int.{ℤ, pos, negsuc}

abbrev pub page_size : ℕ
page_size = 65536

-- A wasm32 memory has 65536 pages at most.
abbrev pub max_pages : ℕ
max_pages = 65536

abbrev pub size_max : ℕ
size_max = 2 ^ 32 - 1

-- What a call leaves: a trap, or the pages of the memory and the returned pointer.
pub data Outcome : Type 0 where
  trap : Outcome
  returned : ℕ → ℕ → Outcome

-- The result of `memory.grow` as a pointer.
unfoldable pub grown : ℕ × ℕ → Outcome
grown (pages, old) =
    if old == size_max then returned pages size_max else returned pages (old * page_size % 2 ^ 32)

module _ (grants : ℕ → ℕ → Bool) where
  -- The `memory.grow` instruction: pages after it, and its result.
  unfoldable pub memory_grow : ℕ → ℕ → ℕ × ℕ
  memory_grow pages delta =
      if leb (pages + delta) max_pages && grants pages delta
      then (pages + delta, pages)
      else (pages, size_max)

  -- `increment` from 0 up.
  unfoldable pub sbrk_up : ℕ → ℕ → Outcome
  sbrk_up pages n =
      if n == 0
      then returned pages (pages * page_size % 2 ^ 32)
      else if not (n % page_size == 0)
      then trap
      else grown (memory_grow pages (n / page_size))

  unfoldable pub sbrk : ℕ → ℤ → Outcome
  sbrk pages (pos n) = sbrk_up pages n
  sbrk pages (negsuc n) = trap
