-- ===== src/Harness/Registry.antt =====
-- The registry of tools/wasm-test-harness/src/harness.c. The array and its count are a list, which
-- registration extends at the end. A test function is what it does to the harness: the failures that
-- it records and the text that it logs, in order.
pub mod Laws
use wasm_cxx_shim.Prelude.{
  ℕ, zero, suc, ◌+◌, ◌≤◌, leb, if◌then◌else◌, List, [], ◌∷◌, ◌++◌, Option, none, some,
}
use wasm_cxx_shim.Prelude.Int.{ℤ}
use wasm_cxx_shim.Prelude.Lists.{length}
use wasm_cxx_shim.Harness.Format.{Arg}

-- A call of `wcs_record_failure` or of `wcs_log_printf` in a test.
pub data Call : Type 0 where
  fail : List ℕ → ℤ → List ℕ → Call
  print : List ℕ → List Arg → Call

pub record Entry : Type 0 where
  pub suite : List ℕ
  pub name : List ℕ
  pub fn : List Call

abbrev pub max_tests : ℕ
max_tests = 4096

-- The registry after the call, and the returned number.
unfoldable pub register_test : List ℕ → List ℕ → List Call → List Entry → List Entry × ℕ
register_test suite name fn tests =
    if leb max_tests (length tests)
    then (tests, 0)
    else (tests ++ record { suite = suite; name = name; fn = fn } ∷ [], length tests + 1)

unfoldable pub test_count : List Entry → ℕ
test_count tests = length tests

unfoldable pub entry_at : List Entry → ℕ → Option Entry
entry_at [] i = none
entry_at (t ∷ tests) zero = some t
entry_at (t ∷ tests) (suc i) = entry_at tests i

-- `i < wcs_test_n ? wcs_tests[i].suite : ""`, and so for the others.
unfoldable pub test_suite : List Entry → ℕ → List ℕ
test_suite tests i = elim (entry_at tests i) [ none ↦ [] | some t ↦ t.suite ]

unfoldable pub test_name : List Entry → ℕ → List ℕ
test_name tests i = elim (entry_at tests i) [ none ↦ [] | some t ↦ t.name ]

unfoldable pub test_fn_at : List Entry → ℕ → Option (List Call)
test_fn_at tests i = elim (entry_at tests i) [ none ↦ none | some t ↦ some t.fn ]
