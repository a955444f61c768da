-- ===== src/Harness/Run.antt =====
-- Failure recording and the runner of tools/wasm-test-harness/src/harness.c. The state is the log
-- and the counter of the current test; an operation is undefined (`none`) where the formatter is,
-- and where the counter overflows its `int`.
pub mod Verdict
use wasm_cxx_shim.Prelude.{
  ℕ, zero, suc, ◌+◌, ◌^◌, ltb, ◌==◌, if◌then◌else◌, List, [], ◌∷◌, Option, none, some, ◌>>=◌,
}
use wasm_cxx_shim.Prelude.Int.{ℤ, pos}
use wasm_cxx_shim.Prelude.Lists.{length}
use wasm_cxx_shim.Prelude.Text.{codes}
use wasm_cxx_shim.Harness.Format.{Arg, text, int, uint}
use wasm_cxx_shim.Harness.Registry.{Call, fail, print, Entry}
use wasm_cxx_shim.Harness.Log.{Log, log_printf, log_str}

pub record State : Type 0 where
  pub log : Log
  pub failures : ℕ

-- A call of `wcs_log_printf` whose result is not used.
unfoldable pub say : List ℕ → List Arg → State → Option State
say fmt args s = do (log, n) ← log_printf fmt args s.log; some (record s { log = log })

unfoldable pub say_str : List ℕ → State → State
say_str t s = record s { log = log_str t s.log }

unfoldable pub record_failure : List ℕ → ℤ → List ℕ → State → Option State
record_failure file line expr s =
    if ltb (s.failures + 1) (2 ^ 31)
    then say (codes "    FAIL %s:%d: %s\n") (text (some file) ∷ int line ∷ text (some expr) ∷ [])
        (record s { failures = s.failures + 1 })
    else none

-- `wcs_tests[i].fn()`
unfoldable pub run_calls : List Call → State → Option State
run_calls [] s = some s
run_calls (fail file line expr ∷ calls) s = do
  s' ← record_failure file line expr s
  run_calls calls s'
run_calls (print fmt args ∷ calls) s = do s' ← say fmt args s; run_calls calls s'

-- The counters of the runner. The table holds 4096 tests at most, so neither overflows its `int`.
pub record Counts : Type 0 where
  pub passed : ℕ
  pub failed : ℕ

abbrev pub start_args : ℕ → ℕ → Entry → List Arg
start_args i total t = uint (i + 1) ∷ uint total ∷ text (some t.suite) ∷ text (some t.name) ∷ []

-- What follows the call of a test.
unfoldable pub verdict : Counts → State → Option (Counts × State)
verdict c s =
    if s.failures == 0
    then some (record c { passed = c.passed + 1 }, say_str (codes "ok\n") s)
    else do
      s' ← say (codes "FAILED (%d assertion failures)\n") (int (pos s.failures) ∷ []) s
      some (record c { failed = c.failed + 1 }, s')

-- One round of the loop.
unfoldable pub run_test : ℕ → ℕ → Entry → Counts → State → Option (Counts × State)
run_test i total t c s = do
  s1 ← say (codes "[%4zu/%4zu] %s.%s ... ") (start_args i total t) (record s { failures = 0 })
  s2 ← run_calls t.fn s1
  verdict c s2

-- The loop from index `i` on.
unfoldable pub run_from : ℕ → ℕ → List Entry → Counts → State → Option (Counts × State)
run_from i total [] c s = some (c, s)
run_from i total (t ∷ tests) c s = do
  (c', s') ← run_test i total t c s
  run_from (i + 1) total tests c' s'

abbrev pub summary_args : Counts → ℕ → List Arg
summary_args c total = int (pos c.passed) ∷ int (pos c.failed) ∷ uint total ∷ []

-- The final state and the returned number of failed tests.
unfoldable pub run_tests : List Entry → State → Option (State × ℕ)
run_tests tests s = do
  (c, s1) ←
      run_from 0 (length tests) tests (record { passed = 0; failed = 0 })
        (say_str (codes "wasm-test-harness: starting...\n") s)
  s2 ←
      say (codes "wasm-test-harness: %d passed, %d failed, %zu total\n")
        (summary_args c (length tests)) s1
  some (s2, c.failed)
