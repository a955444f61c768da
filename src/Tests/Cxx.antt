-- ===== src/Tests/Cxx.antt =====
-- libcxx on concrete inputs, over a heap that only grows.
use wasm_cxx_shim.Prelude.{
  zero, suc, some, ◌%◌, ◌≡◌, ◌≢◌, ◌≤◌, ◌^◌, ℕ, ◌+◌, ◌*◌, ◌/◌, ◌<◌, [], ◌∷◌, refl, arith, inl, inr,
}
use wasm_cxx_shim.Libc.Dlmalloc.{Engine, malloc, free}
use wasm_cxx_shim.Libc.Dlmalloc.Blocks.{Documented}
use wasm_cxx_shim.Libcxx.New.{checked, operator_new, operator_delete}
use wasm_cxx_shim.Libcxx.New.Holding.{Holds}
use wasm_cxx_shim.Libcxx.New.Session.{Reach, here, next, create, destroy, Reach-Holds}
use wasm_cxx_shim.Libcxx.NextPrime.{prime_loop, search_prime, next_prime, returned}
use wasm_cxx_shim.Libcxx.NextPrime.Number.{Prime}
use wasm_cxx_shim.Libcxx.NextPrime.Search.{LeastPrime, next_prime-LeastPrime}
use wasm_cxx_shim.Libcxx.NextPrime.Wraps.{next_prime_returns, next_prime_misses}

-- The heap is the number of units of 16 bytes that are in use.
abbrev grow_only : Engine
grow_only = record {
  Heap = ℕ;
  dlmalloc = λ h n. (h + n / 16 + 1, 16 * (h + 1));
  dlfree = λ h p. h;
  dlcalloc = λ h m n. (h + m * n / 16 + 1, 16 * (h + 1));
  dlrealloc = λ h p n. (h + n / 16 + 1, 16 * (h + 1));
  dlmemalign = λ h a n. (h + n / 16 + 1, 16 * (h + 1));
}

grow_only-Documented : Documented grow_only
grow_only-Documented = record {
  In = λ h b. b.start + b.size < 16 * (h + 1);
  malloc_block = λ h n some_p. omega arith;
  malloc_apart =
      λ h n b held some_p. record { distinct = λ z. omega arith; disjoint = inr (omega arith) };
  malloc_aligned = λ h n. omega arith;
  malloc_keeps = λ h n b held. omega arith;
  memalign_block = λ h a n some_p. omega arith;
  memalign_apart =
      λ h a n b held some_p. record { distinct = λ z. omega arith; disjoint = inr (omega arith) };
  memalign_keeps = λ h a n b held. omega arith;
  free_keeps = λ h a b live held other. held;
  free_null = λ h b held. held;
}

-- Two blocks of 20 and 4 bytes, and the first is deleted.
two_and_one : Reach grow_only 0 [] 3 (record { start = 48; size = 4 } ∷ [])
unfolding operator_new checked malloc operator_delete free
two_and_one =
    next (next (next here (create 20 refl)) (create 4 refl))
      (destroy (record { start = 16; size = 20 }) (inr (inl refl)) refl)

Reach-Holds_example : Holds grow_only-Documented 3 (record { start = 48; size = 4 } ∷ [])
Reach-Holds_example =
    Reach-Holds grow_only grow_only-Documented 0 [] tt 3 (record { start = 48; size = 4 } ∷ [])
      two_and_one

next_prime_14 : next_prime 2 2 14 ≡ some (returned 17)
unfolding next_prime search_prime prime_loop
next_prime_14 = refl

eleven_no_divisor : (d : ℕ) → 2 ≤ d → d < 11 → 11 % d ≢ 0
eleven_no_divisor zero a b = λ z. omega arith
eleven_no_divisor (suc zero) a b = λ z. omega arith
eleven_no_divisor (suc (suc zero)) a b = λ z. omega arith
eleven_no_divisor (suc (suc (suc zero))) a b = λ z. omega arith
eleven_no_divisor (suc (suc (suc (suc zero)))) a b = λ z. omega arith
eleven_no_divisor (suc (suc (suc (suc (suc zero))))) a b = λ z. omega arith
eleven_no_divisor (suc (suc (suc (suc (suc (suc zero)))))) a b = λ z. omega arith
eleven_no_divisor (suc (suc (suc (suc (suc (suc (suc zero))))))) a b = λ z. omega arith
eleven_no_divisor (suc (suc (suc (suc (suc (suc (suc (suc zero)))))))) a b = λ z. omega arith
eleven_no_divisor (suc (suc (suc (suc (suc (suc (suc (suc (suc zero))))))))) a b = λ z. omega arith
eleven_no_divisor (suc (suc (suc (suc (suc (suc (suc (suc (suc (suc zero)))))))))) a b =
    λ z. omega arith
eleven_no_divisor (suc (suc (suc (suc (suc (suc (suc (suc (suc (suc (suc d))))))))))) a b =
    absurd (omega arith)

eleven-Prime : Prime 11
eleven-Prime = record { above_one = omega arith; no_divisor = eleven_no_divisor }

next_prime-LeastPrime_example :
    (r : ℕ) × (next_prime 2 32767 8 ≡ some (returned r)) × LeastPrime 8 r
next_prime-LeastPrime_example =
    next_prime-LeastPrime 2 32767 8 11 eleven-Prime (omega arith) (omega arith) (omega arith)
      (omega arith)

next_prime_returns_example :
    (r : ℕ) × (next_prime (2 ^ 31 + 2) (2 ^ 31) 4294967291 ≡ some (returned r))
next_prime_returns_example =
    next_prime_returns (2 ^ 31 + 2) (2 ^ 31) 4294967291 (omega arith) (omega arith) (omega arith)

next_prime_misses_example : next_prime 6 (2 ^ 31) 4294967291 ≡ some (returned 1)
next_prime_misses_example =
    next_prime_misses 6 (2 ^ 31) 4294967291 (omega arith) (omega arith) (omega arith) (omega arith)
