-- ===== src/Libc/Dlmalloc/Blocks.antt =====
-- What malloc.c documents of its blocks.
use wasm_cxx_shim.Prelude.{ℕ, ◌+◌, ◌%◌, ◌≤◌, ◌≡◌, ◌≢◌, ◌⊎◌}
use wasm_cxx_shim.Libc.Dlmalloc.{Engine, malloc_alignment}

-- A block: its address and the bytes that were asked for.
pub record Block : Type 0 where
  pub start : ℕ
  pub size : ℕ

-- Different addresses, and no byte in common.
pub record Apart (a b : Block) : Type 0 where
  pub distinct : a.start ≢ b.start
  pub disjoint : (a.start + a.size ≤ b.start) ⊎ (b.start + b.size ≤ a.start)

-- `In h b` says that the block `b` is allocated in the heap `h`.
pub record Documented (e : Engine) : Type 1 where
  pub In : e.Heap → Block → Type 0
  -- A call that returns no null pointer allocates a block apart from all others.
  pub malloc_block :
      (h : e.Heap) (n : ℕ)
      → (e.dlmalloc h n).1 ≢ 0
      → In (e.dlmalloc h n).0 (record { start = (e.dlmalloc h n).1; size = n })
  pub malloc_apart :
      (h : e.Heap) (n : ℕ) (b : Block)
      → In h b
      → (e.dlmalloc h n).1 ≢ 0
      → Apart (record { start = (e.dlmalloc h n).1; size = n }) b
  pub malloc_aligned : (h : e.Heap) (n : ℕ) → (e.dlmalloc h n).1 % malloc_alignment ≡ 0
  pub malloc_keeps : (h : e.Heap) (n : ℕ) (b : Block) → In h b → In (e.dlmalloc h n).0 b
  pub memalign_block :
      (h : e.Heap) (a n : ℕ)
      → (e.dlmemalign h a n).1 ≢ 0
      → In (e.dlmemalign h a n).0 (record { start = (e.dlmemalign h a n).1; size = n })
  pub memalign_apart :
      (h : e.Heap) (a n : ℕ) (b : Block)
      → In h b
      → (e.dlmemalign h a n).1 ≢ 0
      → Apart (record { start = (e.dlmemalign h a n).1; size = n }) b
  pub memalign_keeps : (h : e.Heap) (a n : ℕ) (b : Block) → In h b → In (e.dlmemalign h a n).0 b
  -- `free` of a block leaves the blocks at other addresses, and `free(NULL)` leaves all.
  pub free_keeps :
      (h : e.Heap) (a b : Block) → In h a → In h b → b.start ≢ a.start → In (e.dlfree h a.start) b
  pub free_null : (h : e.Heap) (b : Block) → In h b → In (e.dlfree h 0) b
