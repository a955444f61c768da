-- ===== src/Tests/Runs.antt =====
-- The test harness of tools/wasm-test-harness/src/harness.c.
use wasm_cxx_shim.Prelude.{
  ℕ, ◌+◌, ◌-◌, ◌^◌, ◌≤◌, ◌<◌, ◌≡◌, refl, arith, List, [], ◌∷◌, ◌++◌, some, none, ◌⊎◌,
}
use wasm_cxx_shim.Prelude.Int.{pos, negsuc}
use wasm_cxx_shim.Prelude.Text.{codes}
use wasm_cxx_shim.Memory.{Memory, store}
use wasm_cxx_shim.Harness.Format.{
  Arg, text, int, uint, unsigned_digits, signed_digits, digit_loop, read_width, vsnprintf, printed,
  as_int, emit, format, done, emits, bad_conversion, conversion, converted, take_argument, argument,
  padded, skip_z,
}
use wasm_cxx_shim.Harness.Format.Decimal.{read_width-unsigned_digits}
use wasm_cxx_shim.Harness.Format.Render.{Renders, printed_text, vsnprintf_lem, vsnprintf_total}
use wasm_cxx_shim.Harness.Format.Compute.{rendered, rendered-Renders}
use wasm_cxx_shim.Harness.Registry.{
  Call, fail, print, Entry, register_test, test_count, entry_at, test_suite, test_name, test_fn_at,
  max_tests,
}
use wasm_cxx_shim.Harness.Registry.Laws.{register_test_lem, register_test_twice}
use wasm_cxx_shim.Harness.Log.{Log, log_cap, log_printf, log_str}
use wasm_cxx_shim.Harness.Log.Grows.{Grows, Logged, Appended, log_printf-Logged, log_str-Logged}
use wasm_cxx_shim.Harness.Run.{State, run_tests}
use wasm_cxx_shim.Harness.Run.Verdict.{run_tests_lem}

abbrev blank : Memory
blank a = 0

abbrev line_format : List ℕ
line_format = codes "%4zu: %s %d\n"

abbrev line_args : List Arg
line_args = uint 12 ∷ text (some (codes "ok")) ∷ int (negsuc 6) ∷ []

abbrev line_text : List ℕ
line_text = codes "  12: ok -7\n"

rendered_line : rendered 20 line_format line_args ≡ some line_text
unfolding rendered conversion read_width skip_z converted take_argument argument padded
    unsigned_digits signed_digits digit_loop
rendered_line = refl

line-Renders : Renders line_format line_args line_text
line-Renders = rendered-Renders 20 line_format line_args line_text rendered_line

-- A '%' that starts no conversion is printed; so "%%" prints both.
percent_printed : rendered 20 (codes "50%% of %q") [] ≡ some (codes "50%% of %q")
unfolding rendered conversion read_width skip_z converted
percent_printed = refl

vsnprintf_lem_example :
    (m' : Memory) × (vsnprintf blank 100 8 line_format line_args ≡ printed m' (pos 12))
    × ((a : ℕ) → m' a ≡ printed_text blank 100 8 line_text a)
unfolding as_int
vsnprintf_lem_example =
    vsnprintf_lem blank 100 8 line_format line_args line_text (omega arith) line-Renders
      (omega arith)

vsnprintf_total_example :
    ((t : List ℕ) × Renders line_format line_args t
      × (format 100 8 13 line_format line_args (record { mem = blank; w = 0 })
          ≡ done (emits 100 8 t (record { mem = blank; w = 0 }))))
    ⊎ (format 100 8 13 line_format line_args (record { mem = blank; w = 0 }) ≡ bad_conversion)
vsnprintf_total_example = vsnprintf_total blank 100 8 line_format line_args

read_width-unsigned_digits_example :
    (read_width 0 (unsigned_digits 4096 ++ codes "zu") ≡ some (4096, codes "zu"))
read_width-unsigned_digits_example = read_width-unsigned_digits 4096 (codes "zu") (omega arith) refl

-- A field width from 2 ^ 31 on overflows.
width_overflows : conversion (codes "2147483648d") (int (pos 5) ∷ []) ≡ none
unfolding conversion read_width
width_overflows = refl

-- After 2 ^ 32 - 1 bytes `w + 1` wraps, and the byte before the buffer is written.
emit_wraps : (emit 100 8 65 (record { mem = blank; w = 2 ^ 32 - 1 })).mem 99 ≡ 65
unfolding emit store
emit_wraps = refl

abbrev suite_a : List ℕ
suite_a = codes "Boolean"

abbrev case_a : List ℕ
case_a = codes "Union"

abbrev bad_calls : List Call
bad_calls = print line_format line_args ∷ fail (codes "a.cpp") (pos 12) (codes "x == 1") ∷ []

abbrev good_test : Entry
good_test = record { suite = suite_a; name = codes "Empty"; fn = [] }

abbrev two_tests : List Entry
two_tests = good_test ∷ record { suite = suite_a; name = case_a; fn = bad_calls } ∷ []

register_test_lem_example :
    (1 < max_tests
      → ((register_test suite_a case_a bad_calls (good_test ∷ [])).1 ≡ 1 + 1)
        × (test_count (register_test suite_a case_a bad_calls (good_test ∷ [])).0 ≡ 1 + 1)
        × (test_suite (register_test suite_a case_a bad_calls (good_test ∷ [])).0 1 ≡ suite_a)
        × (test_name (register_test suite_a case_a bad_calls (good_test ∷ [])).0 1 ≡ case_a)
        × (test_fn_at (register_test suite_a case_a bad_calls (good_test ∷ [])).0 1
            ≡ some bad_calls)
        × ((i : ℕ)
            → i < 1
            → entry_at (register_test suite_a case_a bad_calls (good_test ∷ [])).0 i
              ≡ entry_at (good_test ∷ []) i))
    × (max_tests ≤ 1
        → ((register_test suite_a case_a bad_calls (good_test ∷ [])).0 ≡ good_test ∷ [])
          × ((register_test suite_a case_a bad_calls (good_test ∷ [])).1 ≡ 0))
register_test_lem_example = register_test_lem suite_a case_a bad_calls (good_test ∷ [])

register_test_twice_example :
    let once = (register_test suite_a case_a bad_calls []).0 in
    let twice = (register_test suite_a case_a bad_calls once).0 in
    (test_count twice ≡ 0 + 2) × (entry_at twice 0 ≡ entry_at twice (0 + 1))
register_test_twice_example = register_test_twice suite_a case_a bad_calls [] (omega arith)

abbrev empty_log : Log
empty_log = record { buffer = blank; size = 0 }

log_printf-Logged_example :
    (l' : Log) × (log_printf line_format line_args empty_log ≡ some (l', l'.size - 0))
    × Appended line_text empty_log l'
log_printf-Logged_example =
    log_printf-Logged line_format line_args line_text empty_log (omega arith) line-Renders
      (omega arith)

log_str-Logged_example : Logged log_cap line_text empty_log (log_str line_text empty_log)
log_str-Logged_example = log_str-Logged line_text empty_log (omega arith) (omega arith)

run_tests_lem_example :
    (s' : State) × (run_tests two_tests (record { log = empty_log; failures = 0 }) ≡ some (s', 1))
    × Grows empty_log s'.log
run_tests_lem_example =
    run_tests_lem two_tests (record { log = empty_log; failures = 0 })
      (
        (tt, omega arith, omega arith),
        (
          (((line_text, line-Renders, omega arith), (omega arith, tt)), omega arith, omega arith),
          tt,
        ),
      )
      (omega arith)
