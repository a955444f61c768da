-- ===== src/Libcxx/NextPrime/Search.antt =====
-- `__next_prime` below 65535 ^ 2: the least prime from its argument on.
use wasm_cxx_shim.Prelude.{
  ℕ, zero, suc, ◌+◌, ◌*◌, ◌%◌, ◌^◌, ◌≤◌, ◌<◌, ◌≡◌, leb, ◌==◌, false, some, refl, ap, ◌∙◌, arith,
  Bool-cases, inl, inr,
}
use wasm_cxx_shim.Libcxx.NextPrime.{returned, prime_loop, search_prime, next_prime}
use wasm_cxx_shim.Libcxx.NextPrime.Number.{Prime, divisor-not_Prime}
use wasm_cxx_shim.Libcxx.NextPrime.Divisors.{prime, composite, prime_loop-Verdict}

-- `r` is the least prime from `n` on.
pub record LeastPrime (n r : ℕ) : Type 0 where
  pub is_prime : Prime r
  pub from : n ≤ r
  pub least : (q : ℕ) → Prime q → n ≤ q → r ≤ q

-- No prime from `n` to below `m`.
abbrev NoneBelow : ℕ → ℕ → Type 0
NoneBelow n m = (q : ℕ) → Prime q → n ≤ q → m ≤ q

even-not_Prime : (m : ℕ) → 3 ≤ m → m % 2 ≡ 0 → ¬ Prime m
even-not_Prime m h e = divisor-not_Prime m 2 (omega arith) (omega arith) e

-- After a composite number, two numbers are passed.
NoneBelow-next :
    (n m d : ℕ)
    → 3 ≤ m
    → m % 2 ≡ 1
    → 2 ≤ d
    → d < m
    → m % d ≡ 0
    → NoneBelow n m
    → NoneBelow n (m + 2)
NoneBelow-next n m d h o two below z none_m q p l =
    let first = none_m q p l in
    elim (Bool-cases (q == m)) [
      | inl e ↦
          let same : q ≡ m = ground arith in
          absurd (divisor-not_Prime m d two below z (rw same at p))
      | inr e ↦ elim (Bool-cases (q == m + 1)) [
        | inl e' ↦
            let same : q ≡ m + 1 = ground arith in
            absurd (even-not_Prime (m + 1) (omega arith) (omega arith) (rw same at p))
        | inr e' ↦ ground arith
      ]
    ]

-- A round of the search that finds no prime.
pub search_prime-skip :
    (f inner m : ℕ)
    → prime_loop inner m 3 ≡ some false
    → ((m + 2) % 2 ^ 32 == 0) ≡ false
    → search_prime (suc f) inner m ≡ search_prime f inner ((m + 2) % 2 ^ 32)
unfolding search_prime
search_prime-skip f inner m e go_on = rw (e, go_on, search_prime) refl

module _ (n p inner : ℕ) (is_prime : Prime p) (from : n ≤ p) (c : p ≤ 65535 * 65535)
    (enough : 32767 ≤ inner) where
  search_prime-least :
      (f m : ℕ)
      → n ≤ m
      → 3 ≤ m
      → m % 2 ≡ 1
      → p < m + 2 * f
      → NoneBelow n m
      → (r : ℕ) × (search_prime f inner m ≡ some (returned r)) × LeastPrime n r
  unfolding search_prime
  search_prime-least zero m l h o g s = absurd (let t = s p is_prime from in omega arith)
  search_prime-least (suc f) m l h o g s =
      let below = s p is_prime from in
      elim (prime_loop-Verdict inner m 3 h o (omega arith) (omega arith) refl (omega arith)
        (omega arith) (λ d a b e. absurd (omega arith))) [
          | prime e q ↦ (m, rw (e, search_prime) refl, record { is_prime = q; from = l; least = s })
          | composite d e two small z ↦
              let next = NoneBelow-next n m d h o two small z s in
              let more = next p is_prime from in
              let exact : (m + 2) % 2 ^ 32 ≡ m + 2 = omega arith in
              let go_on : ((m + 2) % 2 ^ 32 == 0) ≡ false = ground arith in
              let (r, found, least) =
                search_prime-least f (m + 2) (omega arith) (omega arith) (omega arith) (omega arith)
                  next in
              (
                r,
                search_prime-skip f inner m e go_on
                    ∙ ap (λ (k : ℕ). search_prime f inner k) exact
                    ∙ found,
                least,
              )
        ]

even-NoneBelow : (n : ℕ) → 3 ≤ n → n % 2 ≡ 0 → NoneBelow n (n + 1)
even-NoneBelow n h e q p l = elim (Bool-cases (q == n)) [
  | inl same ↦ let q_eq : q ≡ n = ground arith in absurd (even-not_Prime n h e (rw q_eq at p))
  | inr other ↦ ground arith
]

two-Prime : Prime 2
two-Prime = record { above_one = omega arith; no_divisor = λ d a b z. omega arith }

-- Where there is a prime from `n` on up to 65535 ^ 2, __next_prime returns the least prime from `n`
-- on, with fuel for the numbers up to that prime and for the divisors up to 65535.
pub next_prime-LeastPrime :
    (fuel inner n p : ℕ)
    → Prime p
    → n ≤ p
    → p ≤ 65535 * 65535
    → p < n + 2 * fuel
    → 32767 ≤ inner
    → (r : ℕ) × (next_prime fuel inner n ≡ some (returned r)) × LeastPrime n r
unfolding next_prime
next_prime-LeastPrime fuel inner n p is_prime from c g enough = elim (Bool-cases (leb n 2)) [
  | inl small ↦ (
    2,
    rw small refl,
    record { is_prime = two-Prime; from = ground arith; least = λ q pq l. pq.above_one },
  )
  | inr large ↦
      let three : 3 ≤ n = ground arith in
      elim (Bool-cases (n % 2 == 0)) [
        | inl even ↦
            let (r, found, least) =
              search_prime-least n p inner is_prime from c enough fuel (n + 1) (omega arith)
                (omega arith) (ground arith) (omega arith)
                (even-NoneBelow n three (ground arith)) in
            (r, rw (large, even) found, least)
        | inr odd ↦
            let (r, found, least) =
              search_prime-least n p inner is_prime from c enough fuel n (omega arith) three
                (ground arith) (omega arith) (λ q pq l. l) in
            (r, rw (large, odd) found, least)
      ]
]
