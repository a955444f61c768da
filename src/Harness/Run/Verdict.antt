-- ===== src/Harness/Run/Verdict.antt =====
-- The runner counts the tests that record a failure.
use wasm_cxx_shim.Prelude.{
  ℕ, suc, ◌+◌, ◌^◌, ◌<◌, ◌≤◌, ◌≡◌, refl, ◌==◌, if◌then◌else◌, arith, Bool-cases, inl, inr, List, [],
  ◌∷◌, ◌++◌, ltb, true, Option, some,
}
use wasm_cxx_shim.Prelude.Int.{ℤ, pos}
use wasm_cxx_shim.Prelude.Lists.{length, length-append}
use wasm_cxx_shim.Prelude.Text.{codes}
use wasm_cxx_shim.Harness.Format.{
  Arg, text, int, conversion, read_width, skip_z, converted, take_argument, argument, padded,
  signed_digits, unsigned_digits,
}
use wasm_cxx_shim.Harness.Format.Decimal.{
  length-padded, length-padded_unsigned, length-padded_signed,
}
use wasm_cxx_shim.Harness.Format.Render.{Renders}
use wasm_cxx_shim.Harness.Format.Compute.{rendered, rendered-Renders}
use wasm_cxx_shim.Harness.Registry.{Call, fail, print, Entry}
use wasm_cxx_shim.Harness.Log.{log_cap}
use wasm_cxx_shim.Harness.Log.Grows.{
  Grows, Grows-refl, Grows-trans, log_printf-Logged, log_str-Logged,
}
use wasm_cxx_shim.Harness.Run.{
  State, Counts, say, say_str, record_failure, run_calls, start_args, verdict, run_test, run_from,
  summary_args, run_tests,
}

-- Each text that a test logs itself has arguments that fit its format and less than 2 ^ 32 bytes; the
-- file and the expression of a failure have less than 2 ^ 31 together.
abbrev pub Sound : List Call → Type 0
Sound [] = Unit {0}
Sound (fail file line expr ∷ calls) = length file + length expr < 2 ^ 31 × Sound calls
Sound (print fmt args ∷ calls) =
    ((t : List ℕ) × Renders fmt args t × length t < 2 ^ 32) × Sound calls

abbrev pub fails : List Call → ℕ
fails [] = 0
fails (fail file line expr ∷ calls) = suc (fails calls)
fails (print fmt args ∷ calls) = fails calls

-- The calls of each test are sound and fewer than 2 ^ 31 of them record a failure; its two names have
-- less than 2 ^ 31 bytes together.
abbrev pub AllSound : List Entry → Type 0
AllSound [] = Unit {0}
AllSound (t ∷ tests) =
    (Sound t.fn × fails t.fn < 2 ^ 31 × length t.suite + length t.name < 2 ^ 31) × AllSound tests

-- How many tests record a failure.
abbrev pub failing : List Entry → ℕ
failing [] = 0
failing (t ∷ tests) = (if fails t.fn == 0 then 0 else 1) + failing tests

-- A step that is defined, lets the log grow and sets the counter to `f`.
abbrev Steps : Option State → State → ℕ → Type 0
Steps o s f = (s' : State) × (o ≡ some s') × Grows s.log s'.log × (s'.failures ≡ f)

say-Steps :
    (fmt : List ℕ) (args : List Arg) (t : List ℕ) (s : State)
    → s.log.size ≤ log_cap
    → Renders fmt args t
    → length t < 2 ^ 32
    → Steps (say fmt args s) s s.failures
unfolding say
say-Steps fmt args t s h r short =
    let (l, e, v) = log_printf-Logged fmt args t s.log h r short in
    (record s { log = l }, rw e, v.grows, refl)

fail-Renders :
    (file expr : List ℕ) (line : ℤ)
    → (t : List ℕ) × Renders
        (codes "    FAIL %s:%d: %s\n")
        (text (some file) ∷ int line ∷ text (some expr) ∷ [])
        t
      × length t ≤ length file + length expr + 100
unfolding rendered conversion read_width skip_z converted take_argument argument
fail-Renders file expr line =
    let t =
      codes "    FAIL "
      ++ (padded 0 file
          ++ (b':' ∷ padded 0 (signed_digits line)
              ++ (codes ": " ++ (padded 0 expr ++ codes "\n")))) in
    (
      t,
      rendered-Renders 30 _ _ t refl,
      rw (length-append, length-append, length-append, length-append, length-append)
          (omega (arith, length-padded 0 file, length-padded 0 expr, length-padded_signed 0 line)),
    )

start-Renders :
    (i total : ℕ) (t : Entry)
    → (u : List ℕ) × Renders (codes "[%4zu/%4zu] %s.%s ... ") (start_args i total t) u
      × length u ≤ length t.suite + length t.name + 200
unfolding rendered conversion read_width skip_z converted take_argument argument
start-Renders i total t =
    let u =
      b'[' ∷ padded 4 (unsigned_digits (i + 1))
      ++ (b'/' ∷ padded 4 (unsigned_digits total)
          ++ (codes "] " ++ (padded 0 t.suite ++ (b'.' ∷ padded 0 t.name ++ codes " ... ")))) in
    (
      u,
      rendered-Renders 30 _ _ u refl,
      rw (length-append, length-append, length-append, length-append, length-append)
          (omega (
            arith,
            length-padded 0 t.suite,
            length-padded 0 t.name,
            length-padded_unsigned 4 (i + 1),
            length-padded_unsigned 4 total,
          )),
    )

failed-Renders :
    (n : ℕ)
    → (u : List ℕ) × Renders (codes "FAILED (%d assertion failures)\n") (int (pos n) ∷ []) u
      × length u ≤ 200
unfolding rendered conversion read_width skip_z converted take_argument argument
failed-Renders n =
    let u =
      codes "FAILED (" ++ (padded 0 (signed_digits (pos n)) ++ codes " assertion failures)\n") in
    (
      u,
      rendered-Renders 40 _ _ u refl,
      rw (length-append, length-append) (omega (arith, length-padded_signed 0 (pos n))),
    )

summary-Renders :
    (c : Counts) (total : ℕ)
    → (u : List ℕ) × Renders
        (codes "wasm-test-harness: %d passed, %d failed, %zu total\n")
        (summary_args c total)
        u
      × length u ≤ 300
unfolding rendered conversion read_width skip_z converted take_argument argument
summary-Renders c total =
    let u =
      codes "wasm-test-harness: "
      ++ (padded 0 (signed_digits (pos c.passed))
          ++ (codes " passed, "
              ++ (padded 0 (signed_digits (pos c.failed))
                  ++ (codes " failed, "
                      ++ (padded 0 (unsigned_digits total) ++ codes " total\n"))))) in
    (
      u,
      rendered-Renders 60 _ _ u refl,
      rw (length-append, length-append, length-append, length-append, length-append, length-append)
          (omega (
            arith,
            length-padded_signed 0 (pos c.passed),
            length-padded_signed 0 (pos c.failed),
            length-padded_unsigned 0 total,
          )),
    )

say_str-Grows :
    (t : List ℕ) (s : State)
    → s.log.size ≤ log_cap
    → length t < 2 ^ 31
    → Grows s.log (say_str t s).log
unfolding say_str
say_str-Grows t s h short = (log_str-Logged t s.log h short).grows

record_failure-Steps :
    (file expr : List ℕ) (line : ℤ) (s : State)
    → s.log.size ≤ log_cap
    → length file + length expr < 2 ^ 31
    → s.failures + 1 < 2 ^ 31
    → Steps (record_failure file line expr s) s (s.failures + 1)
unfolding record_failure
record_failure-Steps file expr line s h short few =
    let counted : ltb (s.failures + 1) (2 ^ 31) ≡ true = ground arith in
    let (t, r, bound) = fail-Renders file expr line in
    rw counted (say-Steps _ _ t (record s { failures = s.failures + 1 }) h r (omega arith))

run_calls-Steps :
    (calls : List Call) (s : State)
    → Sound calls
    → s.failures + fails calls < 2 ^ 31
    → s.log.size ≤ log_cap
    → Steps (run_calls calls s) s (s.failures + fails calls)
unfolding run_calls
run_calls-Steps [] s v few h = (s, refl, Grows-refl h, omega arith)
run_calls-Steps (fail file line expr ∷ calls) s v few h =
    let (s1, e1, g1, f1) = record_failure-Steps file expr line s h v.0 (omega arith) in
    let (s2, e2, g2, f2) = run_calls-Steps calls s1 v.1 (omega arith) g1.within in
    (s2, rw (e1, run_calls) e2, Grows-trans g1 g2, omega arith)
run_calls-Steps (print fmt args ∷ calls) s v few h =
    let (t, r, short) = v.0 in
    let (s1, e1, g1, f1) = say-Steps fmt args t s h r short in
    let (s2, e2, g2, f2) = run_calls-Steps calls s1 v.1 (omega arith) g1.within in
    (s2, rw (e1, run_calls) e2, Grows-trans g1 g2, omega arith)

-- A round that is defined, lets the log grow and moves the counts by `p` and `f`.
abbrev Rounds : Option (Counts × State) → Counts → State → ℕ → ℕ → Type 0
Rounds o c s p f =
    (c' : Counts) × (s' : State) × (o ≡ some (c', s'))
    × Grows s.log s'.log
    × (c'.passed ≡ c.passed + p)
    × (c'.failed ≡ c.failed + f)

verdict-Rounds :
    (c : Counts) (s : State)
    → s.log.size ≤ log_cap
    → Rounds (verdict c s) c s (if s.failures == 0 then 1 else 0) (if s.failures == 0 then 0 else 1)
unfolding verdict
verdict-Rounds c s h = elim (Bool-cases (s.failures == 0)) [
  | inl good ↦ rw good (
    record c { passed = c.passed + 1 },
    say_str (codes "ok\n") s,
    refl,
    say_str-Grows _ s h (omega arith),
    refl,
    omega arith,
  )
  | inr bad ↦
      let (t, r, bound) = failed-Renders s.failures in
      let (s', e, g, f) = say-Steps _ _ t s h r (omega arith) in
      rw bad (record c { failed = c.failed + 1 }, s', rw e, g, omega arith, refl)
]

run_test-Rounds :
    (i total : ℕ) (t : Entry) (c : Counts) (s : State)
    → Sound t.fn × fails t.fn < 2 ^ 31 × length t.suite + length t.name < 2 ^ 31
    → s.log.size ≤ log_cap
    → Rounds
        (run_test i total t c s)
        c
        s
        (if fails t.fn == 0 then 1 else 0)
        (if fails t.fn == 0 then 0 else 1)
unfolding run_test
run_test-Rounds i total t c s v h =
    let (sound, few, short) = v in
    let (u, r, bound) = start-Renders i total t in
    let (s1, e1, g1, f1) = say-Steps _ _ u (record s { failures = 0 }) h r (omega arith) in
    let (s2, e2, g2, f2) = run_calls-Steps t.fn s1 sound (omega arith) g1.within in
    let (c3, s3, e3, g3, p3, q3) = verdict-Rounds c s2 g2.within in
    let count : s2.failures ≡ fails t.fn = omega arith in
    (c3, s3, rw e1 (rw e2 e3), Grows-trans g1 (Grows-trans g2 g3), rw (← count) p3, rw (← count) q3)

run_from-Rounds :
    (i total : ℕ) (tests : List Entry) (c : Counts) (s : State)
    → AllSound tests
    → s.log.size ≤ log_cap
    → (p : ℕ) × (p + failing tests ≡ length tests)
      × Rounds (run_from i total tests c s) c s p (failing tests)
unfolding run_from
run_from-Rounds i total [] c s v h =
    (0, omega arith, (c, s, refl, Grows-refl h, omega arith, omega arith))
run_from-Rounds i total (t ∷ tests) c s v h =
    let (c1, s1, e1, g1, p1, q1) = run_test-Rounds i total t c s v.0 h in
    let (p, sum, rest) = run_from-Rounds (i + 1) total tests c1 s1 v.1 g1.within in
    let (c2, s2, e2, g2, p2, q2) = rest in
    let one : ℕ = if fails t.fn == 0 then 1 else 0 in
    (
      one + p,
      ground arith,
      (c2, s2, rw (e1, run_from) e2, Grows-trans g1 g2, omega arith, omega arith),
    )

-- `wcs_run_tests` always returns, where the log is within its buffer, each test logs texts that fit
-- their formats, in less than 2 ^ 32 bytes each, the file and the expression of a failure and the two
-- names of a test have less than 2 ^ 31 bytes together, and fewer than 2 ^ 31 failures are recorded in
-- a test. It returns the number of tests that record a failure, and the log has only grown, in its
-- buffer.
pub run_tests_lem :
    (tests : List Entry) (s : State)
    → AllSound tests
    → s.log.size ≤ log_cap
    → (s' : State) × (run_tests tests s ≡ some (s', failing tests)) × Grows s.log s'.log
unfolding run_tests
run_tests_lem tests s v h =
    let g0 = say_str-Grows (codes "wasm-test-harness: starting...\n") s h (omega arith) in
    let (p, sum, rest) =
      run_from-Rounds 0 (length tests) tests (record { passed = 0; failed = 0 })
        (say_str (codes "wasm-test-harness: starting...\n") s) v g0.within in
    let (c, s1, e1, g1, p1, q1) = rest in
    let (u, r, bound) = summary-Renders c (length tests) in
    let (s2, e2, g2, f2) = say-Steps _ _ u s1 g1.within r (omega arith) in
    let count : c.failed ≡ failing tests = omega arith in
    (s2, rw e1 (rw (e2, count)), Grows-trans g0 (Grows-trans g1 g2))
