-- ===== src/Libc/Memmove.antt =====
-- libc/src/musl/memmove.c, with `__GNUC__` defined; `WT` is `size_t`, four bytes. The locals are
-- the cursor of `memcpy`. A head loop whose `if (!n--) return dest` fires stops with `n` at 0 and
-- the pointer unaligned.
pub mod Forward
pub mod Backward
pub mod Correct
use wasm_cxx_shim.Prelude.{
  ℕ, ◌+◌, ◌-◌, ◌*◌, ◌%◌, ◌^◌, Bool, not, ◌&&◌, leb, ltb, ◌==◌, if◌then◌else◌,
}
use wasm_cxx_shim.Prelude.Loop.{while}
use wasm_cxx_shim.Memory.{Memory, store, load32, store32, memory_copy}
use wasm_cxx_shim.Libc.Memcpy.{
  Cursor, Returned, advance, consume, copy_bytes, copy_word, memcpy, bulk_memory_threshold,
}

-- `*d++ = *s++` and one less to go.
unfoldable pub step_byte : Cursor → Cursor
step_byte c = consume 1 (copy_bytes 1 c)

-- `n-=WS, d+=WS, s+=WS` after `*(WT *)d = *(WT *)s`
unfoldable pub step_word : Cursor → Cursor
step_word c = consume 4 (advance 4 (copy_word 0 c))

abbrev pub bytes_left : Cursor → Bool
bytes_left c = not (c.left == 0)

unfoldable pub forward_bytes : Cursor → Cursor
forward_bytes c = while bytes_left step_byte c.left c

unfoldable pub forward_words : Cursor → Cursor
forward_words c = while (λ (t : Cursor). leb 4 t.left) step_word c.left c

unfoldable pub forward_head : Cursor → Cursor
forward_head c = while (λ (t : Cursor). not (t.dst % 4 == 0) && bytes_left t) step_byte c.left c

-- The branch `d<s`.
unfoldable pub forward : Cursor → Cursor
forward c =
    if c.src % 4 == c.dst % 4
    then (let h = forward_head c in if h.dst % 4 == 0 then forward_bytes (forward_words h) else h)
    else forward_bytes c

-- `n--, d[n] = s[n]`
unfoldable pub back_byte : Cursor → Cursor
back_byte c =
    let n = c.left - 1 in record c { left = n; mem = store c.mem (c.dst + n) (c.mem (c.src + n)) }

-- `n-=WS, *(WT *)(d+n) = *(WT *)(s+n)`
unfoldable pub back_word : Cursor → Cursor
back_word c =
    let n = c.left - 4 in
    record c { left = n; mem = store32 c.mem (c.dst + n) (load32 c.mem (c.src + n)) }

unfoldable pub backward_bytes : Cursor → Cursor
backward_bytes c = while bytes_left back_byte c.left c

unfoldable pub backward_words : Cursor → Cursor
backward_words c = while (λ (t : Cursor). leb 4 t.left) back_word c.left c

unfoldable pub backward_head : Cursor → Cursor
backward_head c =
    while (λ (t : Cursor). not ((t.dst + t.left) % 4 == 0) && bytes_left t) back_byte c.left c

-- The other branch.
unfoldable pub backward : Cursor → Cursor
backward c =
    if c.src % 4 == c.dst % 4
    then (let h = backward_head c in
        if (h.dst + h.left) % 4 == 0 then backward_bytes (backward_words h) else h)
    else backward_bytes c

-- `(uintptr_t)s-(uintptr_t)d-n <= -2*n`
abbrev pub apart : ℕ → ℕ → ℕ → Bool
apart d s n = leb ((s + 2 ^ 32 - d + (2 ^ 32 - n)) % 2 ^ 32) ((2 ^ 32 - 2) * n % 2 ^ 32)

unfoldable pub memmove : Bool → Memory → ℕ → ℕ → ℕ → Returned
memmove bulk m dest src n =
    let c : Cursor = record { mem = m; dst = dest; src = src; left = n } in
    if bulk && ltb bulk_memory_threshold n
    then record { mem = memory_copy m dest src n; pointer = dest }
    else if dest == src
    then record { mem = m; pointer = dest }
    else if apart dest src n
    then memcpy bulk m dest src n
    else if ltb dest src
    then record { mem = (forward c).mem; pointer = dest }
    else record { mem = (backward c).mem; pointer = dest }
