-- ===== src/Harness/Registry/Laws.antt =====
-- What registration does to the registry, and the accessors see of it.
use wasm_cxx_shim.Prelude.{
  ℕ, zero, suc, ◌+◌, ◌≤◌, ◌<◌, ◌≡◌, refl, true, false, leb, ◌==◌, if◌then◌else◌, arith, List, [],
  ◌∷◌, ◌++◌, some,
}
use wasm_cxx_shim.Prelude.Lists.{length, length-append}
use wasm_cxx_shim.Harness.Registry.{
  Call, Entry, max_tests, register_test, test_count, entry_at, test_suite, test_name, test_fn_at,
}

entry_at-append :
    (tests : List Entry) (e : Entry) (i : ℕ)
    → entry_at (tests ++ e ∷ []) i ≡ (if i == length tests then some e else entry_at tests i)
unfolding entry_at
entry_at-append [] e zero = refl
entry_at-append [] e (suc i) = ground arith
entry_at-append (t ∷ tests) e zero = ground arith
entry_at-append (t ∷ tests) e (suc i) = ground (arith, entry_at-append tests e i)

module _ (suite name : List ℕ) (fn : List Call) (tests : List Entry) where
  abbrev added : Entry
  added = record { suite = suite; name = name; fn = fn }

  register_test_room :
      length tests < max_tests
      → register_test suite name fn tests ≡ (tests ++ added ∷ [], length tests + 1)
  unfolding register_test
  register_test_room h = let room : leb max_tests (length tests) ≡ false = ground arith in rw room

  register_test_full : max_tests ≤ length tests → register_test suite name fn tests ≡ (tests, 0)
  unfolding register_test
  register_test_full h = let full : leb max_tests (length tests) ≡ true = ground arith in rw full

  -- Below the limit, registration returns the new count, adds its test under the next index and
  -- changes no other; the accessors then show it. At the limit it returns 0 and changes nothing.
  pub register_test_lem :
      (length tests < max_tests
        → ((register_test suite name fn tests).1 ≡ length tests + 1)
          × (test_count (register_test suite name fn tests).0 ≡ length tests + 1)
          × (test_suite (register_test suite name fn tests).0 (length tests) ≡ suite)
          × (test_name (register_test suite name fn tests).0 (length tests) ≡ name)
          × (test_fn_at (register_test suite name fn tests).0 (length tests) ≡ some fn)
          × ((i : ℕ)
              → i < length tests
              → entry_at (register_test suite name fn tests).0 i ≡ entry_at tests i))
      × (max_tests ≤ length tests
          → ((register_test suite name fn tests).0 ≡ tests)
            × ((register_test suite name fn tests).1 ≡ 0))
  unfolding test_count test_suite test_name test_fn_at
  register_test_lem = (
    λ h.
        let found : entry_at (tests ++ added ∷ []) (length tests) ≡ some added =
          ground (arith, entry_at-append tests added (length tests)) in
        rw (register_test_room h) (
          refl,
          omega (arith, length-append tests (added ∷ [])),
          rw (found, test_suite),
          rw (found, test_name),
          rw (found, test_fn_at),
          λ i q. ground (arith, entry_at-append tests added i),
        ),
    λ h. rw (register_test_full h) (refl, refl),
  )

-- Registering the same test twice gives two entries.
pub register_test_twice :
    (suite name : List ℕ) (fn : List Call) (tests : List Entry)
    → length tests + 1 < max_tests
    → let once = (register_test suite name fn tests).0 in
      let twice = (register_test suite name fn once).0 in
      (test_count twice ≡ length tests + 2)
      × (entry_at twice (length tests) ≡ entry_at twice (length tests + 1))
unfolding test_count
register_test_twice suite name fn tests h =
    let e = added suite name fn tests in
    let len = length-append tests (e ∷ []) in
    let len' = length-append (tests ++ e ∷ []) (e ∷ []) in
    let once = register_test_room suite name fn tests (omega arith) in
    let twice = register_test_room suite name fn (tests ++ e ∷ []) (omega arith) in
    rw (once, twice)
      (
        omega arith,
        ground (
          arith,
          entry_at-append (tests ++ e ∷ []) e (length tests),
          entry_at-append (tests ++ e ∷ []) e (length tests + 1),
          entry_at-append tests e (length tests),
        ),
      )
