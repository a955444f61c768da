-- ===== src/Libcxx/NextPrime/Wraps.antt =====
-- `__next_prime` on every 32-bit argument: it returns, and at the top it returns 1.
use wasm_cxx_shim.Prelude.{
  ℕ, zero, suc, ◌+◌, ◌-◌, ◌*◌, ◌/◌, ◌%◌, ◌^◌, ◌≤◌, ◌<◌, ◌≡◌, leb, ◌==◌, Bool, true, false, some,
  refl, ap, sym, ◌∙◌, arith, Bool-cases, inl, inr,
}
use native.Mathlib.Nat.{mod_self}
use wasm_cxx_shim.Libcxx.NextPrime.{returned, prime_loop, search_prime, next_prime}
use wasm_cxx_shim.Libcxx.NextPrime.Search.{search_prime-skip}

-- The loop over the divisors ends at `n` itself, if not before.
prime_loop_returns :
    (f n i : ℕ)
    → n < 2 ^ 32
    → n % 2 ≡ 1
    → i % 2 ≡ 1
    → 3 ≤ i
    → i ≤ n
    → n < i + 2 * f
    → (b : Bool) × (prime_loop f n i ≡ some b)
unfolding prime_loop
prime_loop_returns zero n i h o q t l g = absurd (omega arith)
prime_loop_returns (suc f) n i h o q t l g = elim (Bool-cases (leb (i * i % 2 ^ 32) n)) [
  | inr done ↦ (true, rw (done, prime_loop) refl)
  | inl more ↦ elim (Bool-cases (n % i == 0)) [
    | inl divides ↦ (false, rw (more, divides, prime_loop) refl)
    | inr not_divides ↦
        let further : i + 2 ≤ n = elim (Bool-cases (i == n)) [
          | inl e ↦
              let same : i ≡ n = ground arith in
              let self : n % n ≡ 0 = mod_self n in
              absurd (let t = rw same at not_divides in ground arith)
          | inr e ↦ ground arith
        ] in
        let next : (i + 2) % 2 ^ 32 ≡ i + 2 = omega arith in
        let (b, e) =
          prime_loop_returns f n (i + 2) h o (omega arith) (omega arith) further (omega arith) in
        (b, rw (more, not_divides, prime_loop) (ap (λ (k : ℕ). prime_loop f n k) next ∙ e))
  ]
]

prime_loop_one : (f : ℕ) → 0 < f → prime_loop f 1 3 ≡ some true
unfolding prime_loop
prime_loop_one zero h = absurd (omega arith)
prime_loop_one (suc f) h = refl

search_prime_found :
    (f inner m : ℕ)
    → prime_loop inner m 3 ≡ some true
    → search_prime (suc f) inner m ≡ some (returned m)
unfolding search_prime
search_prime_found f inner m e = rw (e, search_prime) refl

search_prime_one : (f inner : ℕ) → 0 < f → 0 < inner → search_prime f inner 1 ≡ some (returned 1)
search_prime_one zero inner h l = absurd (omega arith)
search_prime_one (suc f) inner h l = search_prime_found f inner 1 (prime_loop_one inner l)

odd_not_wrapped : (m : ℕ) → m % 2 ≡ 1 → ((m + 2) % 2 ^ 32 == 0) ≡ false
odd_not_wrapped m o = ground arith

-- A round that finds no prime.
search_prime_next :
    (f inner m m' : ℕ)
    → m % 2 ≡ 1
    → prime_loop inner m 3 ≡ some false
    → (m + 2) % 2 ^ 32 ≡ m'
    → search_prime (suc f) inner m ≡ search_prime f inner m'
search_prime_next f inner m m' o e w =
    search_prime-skip f inner m e (odd_not_wrapped m o) ∙ ap (λ (k : ℕ). search_prime f inner k) w

-- The search ends at 1, after the last odd number of 32 bits, if not before.
search_prime_returns :
    (f inner m : ℕ)
    → m < 2 ^ 32
    → m % 2 ≡ 1
    → 2 ^ 31 ≤ inner
    → 2 ^ 32 + 3 ≤ m + 2 * f
    → (r : ℕ) × (search_prime f inner m ≡ some (returned r))
search_prime_returns zero inner m h o l g = absurd (omega arith)
search_prime_returns (suc f) inner m h o l g = elim (Bool-cases (m == 1)) [
  | inl one ↦ (
    1,
    let same : m ≡ 1 = ground arith in
        rw same (search_prime_one (suc f) inner (omega arith) (omega arith)),
  )
  | inr more ↦
      let (b, e) =
        prime_loop_returns inner m 3 h o refl (omega arith) (ground arith) (omega arith) in
      elim (Bool-cases b) [
        | inl yes_prime ↦
            (m, search_prime_found f inner m (e ∙ ap (λ (c : Bool). some c) yes_prime))
        | inr no_prime ↦
            let e' = e ∙ ap (λ (c : Bool). some c) no_prime in
            elim (Bool-cases (m == 2 ^ 32 - 1)) [
              | inl last ↦ (
                1,
                search_prime_next f inner m 1 o e' (ground arith)
                    ∙ search_prime_one f inner (ground arith) (omega arith),
              )
              | inr before ↦
                  let (r, found) =
                    search_prime_returns f inner (m + 2) (ground arith) (omega arith) l
                      (omega arith) in
                  (r, search_prime_next f inner m (m + 2) o e' (ground arith) ∙ found)
            ]
      ]
]

-- On every 32-bit argument, with fuel for all numbers of 32 bits, __next_prime returns: it never traps.
pub next_prime_returns :
    (fuel inner n : ℕ)
    → n < 2 ^ 32
    → 2 ^ 31 ≤ inner
    → 2 ^ 31 + 2 ≤ fuel
    → (r : ℕ) × (next_prime fuel inner n ≡ some (returned r))
unfolding next_prime
next_prime_returns fuel inner n h l g = elim (Bool-cases (leb n 2)) [
  | inl small ↦ (2, rw small refl)
  | inr large ↦ elim (Bool-cases (n % 2 == 0)) [
    | inl even ↦
        let (r, e) =
          search_prime_returns fuel inner (n + 1) (ground arith) (ground arith) l (omega arith) in
        (r, rw (large, even) e)
    | inr odd ↦
        let (r, e) = search_prime_returns fuel inner n h (ground arith) l (omega arith) in
        (r, rw (large, odd) e)
  ]
]

square_parts : (i a r : ℕ) → i ≡ 8 * a + r → i * i ≡ 8 * (8 * (a * a) + 2 * (a * r)) + r * r
square_parts i a r e =
    let t : (8 * a + r) * (8 * a + r) ≡ 8 * (8 * (a * a) + 2 * (a * r)) + r * r = grind arith in
    rw e t

odd_square : (r : ℕ) → r < 8 → r % 2 ≡ 1 → r * r % 8 ≡ 1
odd_square zero h o = absurd (omega arith)
odd_square (suc zero) h o = refl
odd_square (suc (suc zero)) h o = absurd (omega arith)
odd_square (suc (suc (suc zero))) h o = refl
odd_square (suc (suc (suc (suc zero)))) h o = absurd (omega arith)
odd_square (suc (suc (suc (suc (suc zero))))) h o = refl
odd_square (suc (suc (suc (suc (suc (suc zero)))))) h o = absurd (omega arith)
odd_square (suc (suc (suc (suc (suc (suc (suc r))))))) h o =
    let seven : r ≡ 0 = omega arith in rw seven refl

square_mod : (i : ℕ) → i % 2 ≡ 1 → i * i % 8 ≡ 1
square_mod i o =
    let parts = square_parts i (i / 8) (i % 8) (omega arith) in
    let low = odd_square (i % 8) (omega arith) (omega arith) in omega arith

-- Above 2 ^ 32 - 8 the wrapped square of an odd number is never above `n`.
prime_loop_misses :
    (f n i : ℕ)
    → 2 ^ 32 - 7 ≤ n
    → n < 2 ^ 32
    → i % 2 ≡ 1
    → (b : Bool) → prime_loop f n i ≡ some b
    → b ≡ false
unfolding prime_loop
prime_loop_misses zero n i h l o b e = cc
prime_loop_misses (suc f) n i h l o b e =
    let square = square_mod i o in
    let more : leb (i * i % 2 ^ 32) n ≡ true = ground arith in
    elim (Bool-cases (n % i == 0)) [
      | inl divides ↦
          let t : prime_loop (suc f) n i ≡ some false = rw (more, divides, prime_loop) refl in cc
      | inr other ↦
          let t : prime_loop (suc f) n i ≡ prime_loop f n ((i + 2) % 2 ^ 32) =
            rw (more, other, prime_loop) refl in
          prime_loop_misses f n ((i + 2) % 2 ^ 32) h l (omega arith) b (sym t ∙ e)
    ]

search_prime_misses :
    (f inner m : ℕ)
    → 2 ^ 32 - 7 ≤ m
    → m < 2 ^ 32
    → m % 2 ≡ 1
    → 2 ^ 31 ≤ inner
    → 2 ^ 32 + 3 ≤ m + 2 * f
    → search_prime f inner m ≡ some (returned 1)
search_prime_misses zero inner m h l o g e = absurd (omega arith)
search_prime_misses (suc f) inner m h l o g e =
    let (b, found) =
      prime_loop_returns inner m 3 l o refl (omega arith) (omega arith) (omega arith) in
    let never = prime_loop_misses inner m 3 h l refl b found in
    let none_found : prime_loop inner m 3 ≡ some false = found ∙ ap (λ (c : Bool). some c) never in
    elim (Bool-cases (m == 2 ^ 32 - 1)) [
      | inl last ↦
          search_prime_next f inner m 1 o none_found (ground arith)
          ∙ search_prime_one f inner (ground arith) (omega arith)
      | inr before ↦
          search_prime_next f inner m (m + 2) o none_found (ground arith)
          ∙ search_prime_misses f inner (m + 2) (omega arith) (ground arith) (omega arith) g
              (omega arith)
    ]

-- On each of the last eight 32-bit arguments __next_prime returns 1, with fuel for all 32-bit numbers.
pub next_prime_misses :
    (fuel inner n : ℕ)
    → 2 ^ 32 - 8 ≤ n
    → n < 2 ^ 32
    → 2 ^ 31 ≤ inner
    → 6 ≤ fuel
    → next_prime fuel inner n ≡ some (returned 1)
unfolding next_prime
next_prime_misses fuel inner n h l g e =
    let large : leb n 2 ≡ false = ground arith in
    elim (Bool-cases (n % 2 == 0)) [
      | inl even ↦
          rw (large, even)
            (search_prime_misses fuel inner (n + 1) (ground arith) (ground arith) (ground arith) g
              (omega arith))
      | inr odd ↦
          rw (large, odd)
            (search_prime_misses fuel inner n (ground arith) l (ground arith) g (omega arith))
    ]
