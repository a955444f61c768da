-- ===== src/Libcxx/NextPrime/Divisors.antt =====
-- The loop over the divisors: below 65535 ^ 2 it decides whether an odd number is prime.
use wasm_cxx_shim.Prelude.{
  ℕ, zero, suc, ◌+◌, ◌*◌, ◌%◌, ◌^◌, ◌≤◌, ◌<◌, ◌≡◌, ◌≢◌, leb, ◌==◌, Bool, true, false, Option, some,
  refl, arith, Bool-cases, inl, inr,
}
use wasm_cxx_shim.Libcxx.NextPrime.{prime_loop}
use wasm_cxx_shim.Libcxx.NextPrime.Number.{Prime, Survives, Survives-Prime, Survives-next}

-- What the loop says of `n`.
pub data Verdict (n : ℕ) (r : Option Bool) : Type 0 where
  prime : r ≡ some true → Prime n → Verdict n r
  composite : (d : ℕ) → r ≡ some false → 2 ≤ d → d < n → n % d ≡ 0 → Verdict n r

mul_mono_le : (i j : ℕ) → i ≤ j → i * i ≤ j * j
mul_mono_le i j h = grind arith

no_wrap : (i : ℕ) → i ≤ 65535 → i * i % 2 ^ 32 ≡ i * i
no_wrap i h = let most = mul_mono_le i 65535 h in omega arith

last_divides : (i n : ℕ) → 65535 ≤ i → i * i ≤ n → n ≤ 65535 * 65535 → i ≤ 65535 → n % i ≡ 0
last_divides i n a b c d =
    let same : i ≡ 65535 = omega arith in
    let e : i * i ≡ 65535 * 65535 = rw same refl in
    let f : n ≡ 65535 * 65535 = omega arith in rw (f, same) refl

square_above : (i n : ℕ) → 3 ≤ i → i * i ≤ n → i < n
square_above i n h l = let t : 3 * i ≤ i * i = grind arith in omega arith

room : (i n : ℕ) → n ≤ 65535 * 65535 → i ≤ 65535 → i % 2 ≡ 1 → i * i ≤ n → n % i ≢ 0 → i + 2 ≤ 65535
room i n c m q l d = elim (Bool-cases (i == 65535)) [
  | inl e ↦ absurd (d (last_divides i n (ground arith) l c m))
  | inr e ↦ ground arith
]

pub prime_loop-Verdict :
    (f n i : ℕ)
    → 3 ≤ n
    → n % 2 ≡ 1
    → n ≤ 65535 * 65535
    → 3 ≤ i
    → i % 2 ≡ 1
    → i ≤ 65535
    → 65537 ≤ i + 2 * f
    → Survives n i
    → Verdict n (prime_loop f n i)
unfolding prime_loop
prime_loop-Verdict zero n i h o c t q m g s = absurd (omega arith)
prime_loop-Verdict (suc f) n i h o c t q m g s =
    let exact = no_wrap i m in
    elim (Bool-cases (leb (i * i % 2 ^ 32) n)) [
      | inr done ↦ rw (done, prime_loop) (prime refl (Survives-Prime n i h o s (ground arith)))
      | inl more ↦ elim (Bool-cases (n % i == 0)) [
        | inl divides ↦
            rw (more, divides, prime_loop)
              (composite i refl (omega arith) (square_above i n t (ground arith)) (ground arith))
        | inr not_divides ↦
            let next : (i + 2) % 2 ^ 32 ≡ i + 2 = omega arith in
            rw (more, not_divides, next, prime_loop)
              (prime_loop-Verdict f n (i + 2) h o c (omega arith) (omega arith)
                (room i n c m q (ground arith) (ground arith)) (omega arith)
                (Survives-next n i q s (ground arith)))
      ]
    ]
