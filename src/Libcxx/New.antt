-- ===== src/Libcxx/New.antt =====
-- libcxx/src/operator_new_delete.cpp, over the malloc, free and aligned_alloc of libc.
pub mod Holding
pub mod Session
use wasm_cxx_shim.Prelude.{ℕ, ◌==◌, if◌then◌else◌}
use wasm_cxx_shim.Libc.Dlmalloc.{Engine, malloc, free, aligned_alloc}

-- A trap, or the heap after the call and the pointer.
pub data Allocation (H : Type 0) : Type 0 where
  trapped : Allocation H
  allocated : H → ℕ → Allocation H

module _ (e : Engine) where
  -- if (!p) __builtin_trap(); return p;
  unfoldable pub checked : e.Heap × ℕ → Allocation e.Heap
  checked (h, p) = if p == 0 then trapped else allocated h p

  unfoldable pub operator_new : e.Heap → ℕ → Allocation e.Heap
  operator_new h size = checked (malloc e h size)

  unfoldable pub operator_new_array : e.Heap → ℕ → Allocation e.Heap
  operator_new_array h size = operator_new h size

  unfoldable pub operator_new_aligned : e.Heap → ℕ → ℕ → Allocation e.Heap
  operator_new_aligned h size align = checked (aligned_alloc e h align size)

  -- With `std::nothrow`.
  unfoldable pub operator_new_nothrow : e.Heap → ℕ → e.Heap × ℕ
  operator_new_nothrow h size = malloc e h size

  -- All eight forms: the size and the alignment are not used.
  unfoldable pub operator_delete : e.Heap → ℕ → e.Heap
  operator_delete h p = free e h p
