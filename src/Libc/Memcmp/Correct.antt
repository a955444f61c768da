-- ===== src/Libc/Memcmp/Correct.antt =====
-- What `memcmp` says of the two regions.
use wasm_cxx_shim.Prelude.{
  ℕ, ◌+◌, ◌≤◌, ◌<◌, ◌≡◌, ◌≢◌, ◌⊎◌, ◌==◌, true, false, inl, inr, arith, refl, Bool-cases,
}
use wasm_cxx_shim.Prelude.Int.{pos, sub_ℕ}
use wasm_cxx_shim.Prelude.Loop.{while, while-Inv}
use wasm_cxx_shim.Memory.{Memory}
use wasm_cxx_shim.Libc.Memcmp.{Pair, alike, next, memcmp}

module _ (m : Memory) (l r n : ℕ) where
  -- The first `k` bytes of the regions agree.
  abbrev pub Agree : ℕ → Type 0
  Agree k = (j : ℕ) → j < k → m (l + j) ≡ m (r + j)

  record Met (p : Pair) : Type 0 where
    k : ℕ
    agree : Agree k
    l_eq : p.l ≡ l + k
    r_eq : p.r ≡ r + k
    left_eq : p.left + k ≡ n

  next-Met : (p : Pair) → Met p → alike m p ≡ true → Met (next p) × ((next p).left < p.left)
  unfolding next
  next-Met p v go =
      let same : m (l + v.k) ≡ m (r + v.k) = rw (← v.l_eq, ← v.r_eq) (ground arith) in
      let more : 1 ≤ p.left = ground arith in
      (
        record {
          k = v.k + 1;
          agree = λ j h. ground (arith, v.agree j, same);
          l_eq = omega (arith, v.l_eq);
          r_eq = omega (arith, v.r_eq);
          left_eq = omega (arith, v.left_eq);
        },
        omega arith,
      )

  -- Either all `n` bytes agree and the result is 0, or the result is the difference, not 0, of the
  -- first two bytes that do not.
  pub memcmp_lem :
      (Agree n × (memcmp m l r n ≡ pos 0))
      ⊎ ((k : ℕ) × (k < n)
          × Agree k
          × (m (l + k) ≢ m (r + k))
          × (memcmp m l r n ≡ sub_ℕ (m (l + k)) (m (r + k)))
          × (memcmp m l r n ≢ pos 0))
  unfolding memcmp
  memcmp_lem = elim (Bool-cases (out.left == 0)) [
    | inl all ↦ let e : v.k ≡ n = ground (arith, v.left_eq) in inl (rw e at v.agree, rw all refl)
    | inr some_left ↦
        let differ : m (l + v.k) ≢ m (r + v.k) = rw (← v.l_eq, ← v.r_eq) (ground (arith, done.1)) in
        inr (
          v.k,
          ground (arith, v.left_eq),
          v.agree,
          differ,
          rw (some_left, v.l_eq, v.r_eq) refl,
          rw (some_left, v.l_eq, v.r_eq) (ground arith),
        )
  ]
    where
      start : Pair
      start = record { l = l; r = r; left = n }

      out : Pair
      out = while (alike m) next n start

      begun : Met start
      begun = record {
        k = 0;
        agree = λ j h. elim h [ ];
        l_eq = omega arith;
        r_eq = omega arith;
        left_eq = omega arith;
      }

      done : Met out × (alike m out ≡ false)
      done = while-Inv (alike m) next Met (λ p. p.left) next-Met n start (omega arith) begun

      v : Met out
      v = done.0
