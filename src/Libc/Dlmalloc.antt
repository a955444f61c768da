-- ===== src/Libc/Dlmalloc.antt =====
-- The allocator of libc/src/dlmalloc. Its engine, malloc.c, is Doug Lea's and enters as a record of
-- its entry points; dlmalloc.c fixes the alignment and forwards the C names to them.
pub mod Blocks
use wasm_cxx_shim.Prelude.{ℕ}

-- The entry points of malloc.c over its state: the state after a call, and the returned pointer.
pub record Engine : Type 1 where
  pub Heap : Type 0
  pub dlmalloc : Heap → ℕ → Heap × ℕ
  pub dlfree : Heap → ℕ → Heap
  pub dlcalloc : Heap → ℕ → ℕ → Heap × ℕ
  pub dlrealloc : Heap → ℕ → ℕ → Heap × ℕ
  pub dlmemalign : Heap → ℕ → ℕ → Heap × ℕ

abbrev pub malloc_alignment : ℕ
malloc_alignment = 16

module _ (e : Engine) where
  unfoldable pub malloc : e.Heap → ℕ → e.Heap × ℕ
  malloc h size = e.dlmalloc h size

  unfoldable pub free : e.Heap → ℕ → e.Heap
  free h ptr = e.dlfree h ptr

  unfoldable pub calloc : e.Heap → ℕ → ℕ → e.Heap × ℕ
  calloc h n size = e.dlcalloc h n size

  unfoldable pub realloc : e.Heap → ℕ → ℕ → e.Heap × ℕ
  realloc h ptr size = e.dlrealloc h ptr size

  unfoldable pub aligned_alloc : e.Heap → ℕ → ℕ → e.Heap × ℕ
  aligned_alloc h a size = e.dlmemalign h a size
