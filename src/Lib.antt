-- ===== src/Lib.antt =====
-- A verification library for wasm-cxx-shim, the C and C++ runtime shim for
-- wasm32-unknown-unknown.
--
-- The C library (libc/src) is in Libc: Libc/Memcpy, Libc/Memset, Libc/Memmove, Libc/Memcmp and
-- Libc/Strlen are the routines of libc/src/musl, and Libc/Sbrk is libc/src/dlmalloc/sbrk.c, by
-- which the allocator gets its memory. Memory is the linear memory: a function from addresses to
-- bytes, 32-bit words with the low byte first, and the bulk instructions memory.copy and
-- memory.fill, to which clang lowers __builtin_memcpy, __builtin_memmove and __builtin_memset. A
-- pointer is a number, and a C object does not wrap round the address space; arithmetic on size_t
-- that the code lets wrap has its remainder by 2 ^ 32 written out. The Boolean argument of a
-- routine says whether __wasm_bulk_memory__ is defined; the SIMD paths are not compiled, since
-- the build does not define __wasilibc_simd_string.
--
-- The allocator's engine, libc/src/dlmalloc/malloc.c, is a parameter: a record of its entry
-- points, with what it documents of its blocks as the hypotheses of Libc/Dlmalloc/Blocks.
-- Libc/Dlmalloc has the C names that dlmalloc.c gives to these entry points. Libcxx is
-- libcxx/src: Libcxx/New the forms of operator new and delete, with a client that calls them as a
-- step relation, and Libcxx/NextPrime __next_prime, whose two loops have their own fuel: 2 ^ 31
-- rounds and two more are enough for every argument.
--
-- The test harness (tools/wasm-test-harness/src/harness.c) is in Harness: Harness/Format is the
-- formatter _wcs_vsnprintf, whose counter wraps at 2 ^ 32, whose result is an int and whose field
-- widths overflow from 2 ^ 31 on, Harness/Registry the table of tests, Harness/Log the log buffer
-- and Harness/Run the recording of failures and the runner; Harness/Ulp has the comparisons of
-- include/wcs-test.h. A test function is the sequence of failures that it records and of texts
-- that it logs.
--
-- The mathematical library (libm/src/musl) is in Libm. A double is its 64 bits. Libm/Double is
-- the arithmetic of C on them, IEEE 754 binary64 rounding to nearest with ties to even, which is
-- that of wasm: a finite value is a whole number of units of 2 ^ -1074, and an operation computes
-- exactly and rounds once. A NaN result is the canonical one, nan_bits, of the patterns that wasm
-- allows, and the theorems on asin, acos, sin, cos and tan say only that it is a NaN.
-- Libm/Double/Exact has the numbers that rounding keeps, Libm/Double/Scale what the choice of the
-- unit and the ends of the range do to it, Libm/Double/Odd the shifts that keep a sticky digit,
-- Libm/Double/Value the values of doubles and their exact sums, and Libm/Double/Order their
-- order. Libm/Pattern has the functions on bits (fabs.c, copysign.c, trunc.c, ilogb.c, fmin.c,
-- fmax.c), Libm/Rounding floor.c, ceil.c, round.c, scalbn.c and ldexp.c, with the steps of scalbn
-- in Libm/Rounding/Scale, Libm/Math the __math_*.c helpers, and Libm/Exp, Libm/Log, Libm/Log2,
-- Libm/Log10, Libm/Pow, Libm/Sqrt, Libm/Remquo and Libm/Hypot the functions of these names, each
-- branch a function, and Libm/Kernels the polynomials of __sin.c, __cos.c and __tan.c.
-- Libm/RemPio2 is __rem_pio2.c and __rem_pio2_large.c, Libm/Trig sin.c, cos.c and tan.c,
-- Libm/Inverse asin.c, acos.c, atan.c and atan2.c, and Libm/Fma fma.c. In Libm/Remquo, Reduce is
-- the loop, Scaled reads mantissas and exponents as values, Place and Nearest are the choice of
-- the multiple, and Exact and Remainder put them together; in Libm/Fma, Normalize, Wide, Align,
-- TopBits and Convert are the steps, which Round, Fused and Once put together. The tables are in
-- Libm/Tables. The integer arithmetic of these functions wraps where the source's does. As in the
-- build, __FP_FAST_FMA is off, WANT_ROUNDING and WANT_SNAN are 0, and expressions are not
-- contracted.
--
-- A loop is Prelude/Loop.while on fuel, with a rule by which a falling measure shows that the
-- fuel is enough: a loop over n bytes has n rounds, the loops of strlen have the fuel of the
-- caller, which is enough from the length of the string on, and the formatter has a round more
-- than its format has bytes; the loop of ilogb and remquo over a subnormal number has 64 rounds,
-- one for each bit, and that of remquo over the quotient one for each step of the exponent.
-- __rem_pio2_large recomputes at most 20 times, the entries of its arrays.
--
-- Not modelled: libc/src/dlmalloc/malloc.c, a verbatim copy of Doug Lea's malloc; the stubs of
-- libcxx/src/cxa.cpp, exception.cpp and verbose_abort.cpp, which return 0 or trap; the build
-- files and the test programs.
pub mod Prelude
pub mod Memory
pub mod Libc
pub mod Harness
pub mod Tests
pub mod Libm
pub mod Libcxx
