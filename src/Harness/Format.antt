-- ===== src/Harness/Format.antt =====
-- `_wcs_vsnprintf` of tools/wasm-test-harness/src/harness.c. A C string is the list of its bytes
-- before the NUL, so that the end of the list is `*p == 0`. `int`, `long`, `unsigned` and `size_t`
-- have 32 bits: `w` wraps, and the returned `(int)w` is negative from 2 ^ 31 on. The variable arguments
-- are a list. Undefined in C, and `bad_conversion` here, are an argument that is missing or of another
-- type than the conversion reads, and a field width that overflows its `int`.
pub mod Decimal
pub mod Render
pub mod Compute
use wasm_cxx_shim.Prelude.{
  ℕ, zero, suc, ◌+◌, ◌-◌, ◌*◌, ◌/◌, ◌%◌, ◌^◌, ◌>>=◌, Bool, true, false, not, ◌&&◌, ◌||◌, leb, ltb,
  ◌==◌, if◌then◌else◌, Option, none, some, List, [], ◌∷◌, ◌++◌,
}
use wasm_cxx_shim.Prelude.Int.{ℤ, pos, negsuc}
use wasm_cxx_shim.Prelude.Lists.{length, replicate}
use wasm_cxx_shim.Prelude.Text.{codes}
use wasm_cxx_shim.Memory.{Memory, store}

-- What a caller passes: a `const char*`, which may be null, an `int` or `long`, an `unsigned` or
-- `size_t`.
pub data Arg : Type 0 where
  text : Option (List ℕ) → Arg
  int : ℤ → Arg
  uint : ℕ → Arg

-- while (uv) { buf[bi--] = '0' + (char)(uv % 10); uv /= 10; }
unfoldable pub digit_loop : ℕ → ℕ → List ℕ → List ℕ
digit_loop zero uv buf = buf
digit_loop (suc fuel) uv buf = elim (uv == 0) [
  | true ↦ buf
  | false ↦ digit_loop fuel (uv / 10) ((b'0' + uv % 10) ∷ buf)
]

-- `buf` has 32 bytes, so no more rounds could store a digit.
abbrev pub buf_size : ℕ
buf_size = 32

unfoldable pub unsigned_digits : ℕ → List ℕ
unsigned_digits uv = digit_loop buf_size uv (if uv == 0 then b'0' ∷ [] else [])

unfoldable pub signed_digits : ℤ → List ℕ
signed_digits (pos n) = unsigned_digits n
signed_digits (negsuc n) = b'-' ∷ unsigned_digits (suc n)

abbrev pub is_digit : ℕ → Bool
is_digit c = leb b'0' c && leb c b'9'

-- while (*p >= '0' && *p <= '9') { width = width * 10 + (*p - '0'); ++p; }
unfoldable pub read_width : ℕ → List ℕ → Option (ℕ × List ℕ)
read_width width [] = some (width, [])
read_width width (c ∷ p) =
    let width' = width * 10 + (c - b'0') in
    let rest = read_width width' p in
    if is_digit c then (if ltb width' (2 ^ 31) then rest else none) else some (width, c ∷ p)

-- if (*p == 'z') { is_z = 1; ++p; }; `is_z` selects between types of the same width.
unfoldable pub skip_z : List ℕ → List ℕ
skip_z [] = []
skip_z (c ∷ p) = if c == b'z' then p else c ∷ p

-- The bytes of one conversion, and the format and the arguments after it.
pub record Chunk : Type 0 where
  pub bytes : List ℕ
  pub rest : List ℕ
  pub args : List Arg

-- The padding, then `len` bytes of `s`.
unfoldable pub padded : ℕ → List ℕ → List ℕ
padded width s = replicate (width - length s) b' ' ++ s

-- The string that `s` points to after the branches on `*p`.
unfoldable pub argument : ℕ → Arg → Option (List ℕ)
argument c (text none) = if c == b's' then some (codes "(null)") else none
argument c (text (some s)) = if c == b's' then some s else none
argument c (int v) = if c == b'd' then some (signed_digits v) else none
argument c (uint v) = if c == b'u' then some (unsigned_digits v) else none

abbrev pub is_conversion : ℕ → Bool
is_conversion c = c == b's' || c == b'd' || c == b'u'

unfoldable pub take_argument : ℕ → ℕ → List ℕ → List Arg → Option Chunk
take_argument width c p [] = none
take_argument width c p (a ∷ args) = elim (argument c a) [
  | none ↦ none
  | some s ↦ some (record { bytes = padded width s; rest = p; args = args })
]

-- From the conversion character on; one that is not known is emitted behind a '%'.
unfoldable pub converted : ℕ → List ℕ → List Arg → Option Chunk
converted width [] args = some (record { bytes = b'%' ∷ []; rest = []; args = args })
converted width (c ∷ p) args =
    if is_conversion c
    then take_argument width c p args
    else some (record { bytes = b'%' ∷ c ∷ []; rest = p; args = args })

-- What follows a '%'.
unfoldable pub conversion : List ℕ → List Arg → Option Chunk
conversion p args = do (width, p') ← read_width 0 p; converted width (skip_z p') args

-- The bytes written so far, `w` of them.
pub record Out : Type 0 where
  pub mem : Memory
  pub w : ℕ

-- The address of `dst[i]`.
abbrev pub element : ℕ → ℕ → ℕ
element dst i = (dst + i) % 2 ^ 32

-- if (w + 1 < n) dst[w] = c; ++w;
unfoldable pub emit : ℕ → ℕ → ℕ → Out → Out
emit dst n c out = record {
  mem = if ltb ((out.w + 1) % 2 ^ 32) n then store out.mem (element dst out.w) c else out.mem;
  w = (out.w + 1) % 2 ^ 32;
}

unfoldable pub emits : ℕ → ℕ → List ℕ → Out → Out
emits dst n [] out = out
emits dst n (c ∷ s) out = emits dst n s (emit dst n c out)

pub data Formatted : Type 0 where
  done : Out → Formatted
  bad_conversion no_fuel : Formatted

-- for (const char* p = fmt; *p; )
unfoldable pub format : ℕ → ℕ → ℕ → List ℕ → List Arg → Out → Formatted
format dst n zero fmt args out = no_fuel
format dst n (suc fuel) [] args out = done out
format dst n (suc fuel) (c ∷ p) args out = elim (c == b'%') [
  | false ↦ format dst n fuel p args (emit dst n c out)
  | true ↦ elim (conversion p args) [
    | none ↦ bad_conversion
    | some k ↦ format dst n fuel k.rest k.args (emits dst n k.bytes out)
  ]
]

-- if (n > 0) dst[w < n ? w : n - 1] = 0;
unfoldable pub terminate : ℕ → ℕ → Out → Memory
terminate dst n out =
    if ltb 0 n
    then store out.mem (element dst (if ltb out.w n then out.w else n - 1)) 0
    else out.mem

-- `(int)w`
unfoldable pub as_int : ℕ → ℤ
as_int w = if ltb w (2 ^ 31) then pos w else negsuc (2 ^ 32 - 1 - w)

-- The memory after a call, and the returned number.
pub data Printed : Type 0 where
  printed : Memory → ℤ → Printed
  undefined : Printed

unfoldable pub finish : ℕ → ℕ → Formatted → Printed
finish dst n (done out) = printed (terminate dst n out) (as_int out.w)
finish dst n bad_conversion = undefined
finish dst n no_fuel = undefined

-- Each round of the loop passes a byte of the format at least.
unfoldable pub vsnprintf : Memory → ℕ → ℕ → List ℕ → List Arg → Printed
vsnprintf m dst n fmt args =
    finish dst n (format dst n (suc (length fmt)) fmt args (record { mem = m; w = 0 }))
