-- ===== src/Libcxx/NextPrime.antt =====
-- libcxx/src/stubs.cpp: `__next_prime`. `size_t` has 32 bits, and `i * i`, `i += 2` and `n += 2` wrap.
-- A loop is undefined (`none`) where its fuel runs out.
pub mod Number
pub mod Divisors
pub mod Search
pub mod Wraps
use wasm_cxx_shim.Prelude.{
  ℕ, zero, suc, ◌+◌, ◌*◌, ◌%◌, ◌^◌, Bool, true, false, leb, ◌==◌, if◌then◌else◌, Option, none, some,
}

pub data Outcome : Type 0 where
  trap : Outcome
  returned : ℕ → Outcome

-- The loop over `i`: whether `prime` is still set at its end.
unfoldable pub prime_loop : ℕ → ℕ → ℕ → Option Bool
prime_loop zero n i = none
prime_loop (suc fuel) n i = elim (leb (i * i % 2 ^ 32) n) [
  | true ↦ elim (n % i == 0) [ true ↦ some false | false ↦ prime_loop fuel n ((i + 2) % 2 ^ 32) ]
  | false ↦ some true
]

-- The `while (true)` loop; `inner` is the fuel of the other.
unfoldable pub search_prime : ℕ → ℕ → ℕ → Option Outcome
search_prime zero inner n = none
search_prime (suc fuel) inner n = elim (prime_loop inner n 3) [
  | none ↦ none
  | some true ↦ some (returned n)
  | some false ↦ elim ((n + 2) % 2 ^ 32 == 0) [
    | true ↦ some trap
    | false ↦ search_prime fuel inner ((n + 2) % 2 ^ 32)
  ]
]

unfoldable pub next_prime : ℕ → ℕ → ℕ → Option Outcome
next_prime fuel inner n =
    if leb n 2 then some (returned 2) else search_prime fuel inner (if n % 2 == 0 then n + 1 else n)
