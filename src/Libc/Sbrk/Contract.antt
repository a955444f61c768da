-- ===== src/Libc/Sbrk/Contract.antt =====
-- What dlmalloc requires of `sbrk`.
use wasm_cxx_shim.Prelude.{
  ℕ, ◌+◌, ◌*◌, ◌/◌, ◌%◌, ◌^◌, ◌≤◌, ◌<◌, ◌≡◌, ◌≢◌, ◌⊎◌, Bool, true, false, leb, ◌&&◌, ◌==◌, refl,
  arith, inl, inr, Bool-cases,
}
use wasm_cxx_shim.Prelude.Int.{pos, negsuc}
use wasm_cxx_shim.Libc.Sbrk.{
  Outcome, trap, returned, page_size, max_pages, size_max, memory_grow, grown, sbrk_up, sbrk,
}

-- `break` of a memory: where it ends. A memory of 4 GiB ends at address 0.
abbrev pub break_at : ℕ → ℕ
break_at pages = pages * page_size % 2 ^ 32

module _ (grants : ℕ → ℕ → Bool) where
  -- What dlmalloc may rely on when it asks for `n` bytes.
  pub data Contract (pages n : ℕ) : Outcome → Type 0 where
    query : n ≡ 0 → Contract pages n (returned pages (break_at pages))
    misused : n % page_size ≢ 0 → Contract pages n trap
    extended :
        (k : ℕ)
        → n ≡ k * page_size
        → 1 ≤ k
        → pages + k ≤ max_pages
        → grants pages k ≡ true
        → Contract pages n (returned (pages + k) (break_at pages))
    refused :
        (k : ℕ)
        → n ≡ k * page_size
        → 1 ≤ k
        → (max_pages < pages + k) ⊎ (grants pages k ≡ false)
        → Contract pages n (returned pages size_max)

  -- A request by dlmalloc is a query, a misuse, an extension or a refusal.
  sbrk_up-Contract : (pages n : ℕ) → pages ≤ max_pages → Contract pages n (sbrk_up grants pages n)
  unfolding sbrk_up memory_grow grown
  sbrk_up-Contract pages n h = elim (Bool-cases (n == 0)) [
    | inl zero_n ↦ rw zero_n (query (ground arith))
    | inr some_n ↦ elim (Bool-cases (n % page_size == 0)) [
      | inr odd ↦ rw (some_n, odd) (misused (ground arith))
      | inl whole ↦
          let k = n / page_size in
          let n_eq : n ≡ k * page_size = ground arith in
          let pos_k : 1 ≤ k = ground arith in
          elim (Bool-cases (leb (pages + k) max_pages && grants pages k)) [
            | inl yields ↦
                let old_small : (pages == size_max) ≡ false = ground arith in
                rw (some_n, whole, yields, old_small)
                  (extended k n_eq pos_k (ground arith) (ground arith))
            | inr fails ↦ rw (some_n, whole, fails) (refused k n_eq pos_k (ground arith))
          ]
    ]
  ]

  -- For an increment from 0 up, `sbrk` does what dlmalloc requires: 0 asks for the break, a whole
  -- number of pages extends the memory and returns the old break or returns (void*)-1 with the
  -- memory as it was, and any other increment traps; for a negative increment it traps.
  pub sbrk-Contract :
      (pages : ℕ)
      → pages ≤ max_pages
      → ((n : ℕ) → Contract pages n (sbrk grants pages (pos n)))
        × ((n : ℕ) → sbrk grants pages (negsuc n) ≡ trap)
  unfolding sbrk
  sbrk-Contract pages h = (λ n. sbrk_up-Contract pages n h, λ n. refl)

  extended-parts :
      {pages n : ℕ} {o : Outcome}
      → Contract pages n o
      → {pages' p : ℕ} → o ≡ returned pages' p
      → p ≢ size_max
      → 1 ≤ n
      → (pages' * page_size ≡ pages * page_size + n) × (pages' ≤ max_pages) × (p ≡ break_at pages)
  extended-parts (query e) o_eq ne pos_n = absurd (omega arith)
  extended-parts (misused e) o_eq ne pos_n = cc
  extended-parts (extended k e h fits g) o_eq ne pos_n = ground arith
  extended-parts (refused k e h why) o_eq ne pos_n = ground arith

  -- Two extensions in a row are contiguous: the second begins where the first ends.
  pub sbrk_contiguous :
      (pages n n' pages' pages'' p p' : ℕ)
      → pages ≤ max_pages
      → 1 ≤ n
      → 1 ≤ n'
      → sbrk grants pages (pos n) ≡ returned pages' p
      → p ≢ size_max
      → sbrk grants pages' (pos n') ≡ returned pages'' p'
      → p' ≢ size_max
      → (p' ≡ (p + n) % 2 ^ 32) × (pages'' * page_size ≡ pages * page_size + n + n')
  unfolding sbrk
  sbrk_contiguous pages n n' pages' pages'' p p' h pos_n pos_n' e ne e' ne' =
      let first = extended-parts (sbrk_up-Contract pages n h) e ne pos_n in
      let second = extended-parts (sbrk_up-Contract pages' n' first.1) e' ne' pos_n' in
      omega (arith, first, second)
