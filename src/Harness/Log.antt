-- ===== src/Harness/Log.antt =====
-- The log buffer of tools/wasm-test-harness/src/harness.c. It stands at address 0 of a memory of its
-- own. An operation is undefined (`none`) where the formatter is.
pub mod Grows
use wasm_cxx_shim.Prelude.{
  ℕ, ◌+◌, ◌-◌, ◌%◌, ◌^◌, ◌&&◌, leb, ltb, if◌then◌else◌, List, [], ◌∷◌, Option, none, some,
}
use wasm_cxx_shim.Prelude.Int.{pos, negsuc}
use wasm_cxx_shim.Prelude.Lists.{length, take}
use wasm_cxx_shim.Memory.{Memory, store}
use wasm_cxx_shim.Harness.Format.{Arg, Printed, printed, undefined, vsnprintf}

abbrev pub log_cap : ℕ
log_cap = 2 ^ 18

pub record Log : Type 0 where
  pub buffer : Memory
  pub size : ℕ

unfoldable pub log_size : Log → ℕ
log_size l = l.size

-- What `wcs_log_printf` does with the formatter's result.
unfoldable pub logged : Log → Printed → Option (Log × ℕ)
logged l undefined = none
logged l (printed m (negsuc k)) = some (record l { buffer = m }, 0)
logged l (printed m (pos n)) =
    let avail = log_cap - l.size in
    let n' = if ltb avail n then avail else n in
    some (record { buffer = m; size = l.size + n' }, n')

unfoldable pub log_printf : List ℕ → List Arg → Log → Option (Log × ℕ)
log_printf fmt args l =
    if leb log_cap l.size
    then some (l, 0)
    else logged l (vsnprintf l.buffer l.size (log_cap - l.size) fmt args)

-- `memcpy(wcs_log + wcs_log_n, s, len)` of a text.
unfoldable pub put_text : ℕ → List ℕ → Memory → Memory
put_text dst [] m = m
put_text dst (c ∷ s) m = put_text (dst + 1) s (store m dst c)

-- `len` is an `int`: from 2 ^ 31 on it is negative, so not above `avail`, and `(unsigned long)len` is
-- the length again.
unfoldable pub log_str : List ℕ → Log → Log
log_str s l =
    let avail = log_cap - l.size in
    let len = if ltb (length s) (2 ^ 31) && ltb avail (length s) then avail else length s in
    if leb log_cap l.size
    then l
    else record { buffer = put_text l.size (take len s) l.buffer; size = (l.size + len) % 2 ^ 32 }
