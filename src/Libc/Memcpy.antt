-- ===== src/Libc/Memcpy.antt =====
-- libc/src/musl/memcpy.c, as clang compiles it for wasm32: `__GNUC__` is defined and the byte order
-- is little-endian, so `LS` is `>>` and `RS` is `<<`. `bulk` says whether `__wasm_bulk_memory__`
-- is defined. Pointers are numbers: a C object does not wrap round the address space.
pub mod Steps
pub mod Correct
use wasm_cxx_shim.Prelude.{
  ℕ, zero, suc, ◌+◌, ◌-◌, ◌*◌, ◌/◌, ◌%◌, ◌^◌, bit_and, bit_or, Bool, not, ◌&&◌, leb, ltb, ◌==◌,
  if◌then◌else◌,
}
use wasm_cxx_shim.Prelude.Loop.{while}
use wasm_cxx_shim.Memory.{Memory, store, load32, store32, memory_copy}

-- The locals of the routine: memory, `d`, `s` and `n`.
pub record Cursor : Type 0 where
  pub mem : Memory
  pub dst : ℕ
  pub src : ℕ
  pub left : ℕ

-- `*d = *s`
unfoldable pub put_byte : Cursor → Cursor
unfolding store
put_byte c = record c { mem = store c.mem c.dst (c.mem c.src) }

-- `d += k; s += k`
unfoldable pub advance : ℕ → Cursor → Cursor
advance k c = record c { dst = c.dst + k; src = c.src + k }

-- `n -= k`
unfoldable pub consume : ℕ → Cursor → Cursor
consume k c = record c { left = c.left - k }

-- `*d++ = *s++`, `k` times
unfoldable pub copy_bytes : ℕ → Cursor → Cursor
unfolding put_byte advance
copy_bytes zero c = c
copy_bytes (suc k) c = copy_bytes k (advance 1 (put_byte c))

-- `*(u32 *)(d+k) = *(u32 *)(s+k)`
unfoldable pub copy_word : ℕ → Cursor → Cursor
copy_word k c = record c { mem = store32 c.mem (c.dst + k) (load32 c.mem (c.src + k)) }

-- `n & b`
abbrev pub has_bit : ℕ → ℕ → Bool
has_bit n b = not (bit_and n b == 0)

-- for (; (uintptr_t)s % 4 && n; n--) *d++ = *s++;
abbrev pub head_test : Cursor → Bool
head_test c = not (c.src % 4 == 0) && not (c.left == 0)

unfoldable pub head_body : Cursor → Cursor
unfolding copy_bytes consume
head_body c = consume 1 (copy_bytes 1 c)

unfoldable pub head : Cursor → Cursor
unfolding while head_body
head c = while head_test head_body c.left c

-- The loop over 16 bytes with both pointers aligned.
unfoldable pub block_body : Cursor → Cursor
unfolding copy_word advance consume
block_body c = consume 16 (advance 16 (copy_word 12 (copy_word 8 (copy_word 4 (copy_word 0 c)))))

unfoldable pub blocks : Cursor → Cursor
unfolding while block_body
blocks c = while (λ t. leb 16 t.left) block_body c.left c

-- The last `n < 16` bytes with both pointers aligned.
unfoldable pub tail_aligned : Cursor → Cursor
unfolding copy_word advance copy_bytes put_byte
tail_aligned c =
    let c8 = if has_bit c.left 8 then advance 8 (copy_word 4 (copy_word 0 c)) else c in
    let c4 = if has_bit c.left 4 then advance 4 (copy_word 0 c8) else c8 in
    let c2 = if has_bit c.left 2 then copy_bytes 2 c4 else c4 in
    if has_bit c.left 1 then put_byte c2 else c2

-- The locals of the misaligned loops: the word `w` read ahead of the cursor.
pub record Shifting : Type 0 where
  pub word : ℕ
  pub cur : Cursor

-- `x = *(u32 *)(s+off+j); *(u32 *)(d+j) = (w LS lo) | (x RS hi);`, after which `x` is the word
-- read ahead (the source alternates the names `w` and `x`).
unfoldable pub shift_word : ℕ → ℕ → ℕ → ℕ → Shifting → Shifting
shift_word lo hi off j t =
    let x = load32 t.cur.mem (t.cur.src + (off + j)) in
    let w = bit_or (t.word / 2 ^ lo) (x * 2 ^ hi % 2 ^ 32) in
    record { word = x; cur = record (t.cur) { mem = store32 t.cur.mem (t.cur.dst + j) w } }

unfoldable pub shift_body : ℕ → ℕ → ℕ → Shifting → Shifting
unfolding shift_word advance consume
shift_body lo hi off t =
    let t' =
      shift_word lo hi off 12
        (shift_word lo hi off 8 (shift_word lo hi off 4 (shift_word lo hi off 0 t))) in
    record t' { cur = consume 16 (advance 16 t'.cur) }

-- One case of the switch: `w = *(u32 *)s`, `first` bytes by hand, then the loop.
unfoldable pub shift_case : ℕ → ℕ → ℕ → ℕ → Cursor → Cursor
unfolding while shift_body copy_bytes consume
shift_case first lo hi off c =
    let start : Shifting = record {
      word = load32 c.mem c.src;
      cur = consume first (copy_bytes first c);
    } in
    (while (λ t. leb (16 + off) t.cur.left) (shift_body lo hi off) c.left start).cur

-- switch ((uintptr_t)d % 4)
unfoldable pub shifted : Cursor → Cursor
unfolding shift_case
shifted c =
    if c.dst % 4 == 1
    then shift_case 3 24 8 1 c
    else if c.dst % 4 == 2
    then shift_case 2 16 16 2 c
    else if c.dst % 4 == 3
    then shift_case 1 8 24 3 c
    else c

-- The last `n < 32` bytes where the pointers are not aligned alike.
unfoldable pub tail_bytes : Cursor → Cursor
unfolding copy_bytes put_byte
tail_bytes c =
    let c16 = if has_bit c.left 16 then copy_bytes 16 c else c in
    let c8 = if has_bit c.left 8 then copy_bytes 8 c16 else c16 in
    let c4 = if has_bit c.left 4 then copy_bytes 4 c8 else c8 in
    let c2 = if has_bit c.left 2 then copy_bytes 2 c4 else c4 in
    if has_bit c.left 1 then put_byte c2 else c2

-- The cursor at one of the two `return dest` below the bulk copy.
unfoldable pub finish : Cursor → Cursor
unfolding blocks tail_aligned shifted tail_bytes
finish c =
    if c.dst % 4 == 0
    then tail_aligned (blocks c)
    else tail_bytes (if leb 32 c.left then shifted c else c)

-- `-DBULK_MEMORY_THRESHOLD=200` of libc/CMakeLists.txt
abbrev pub bulk_memory_threshold : ℕ
bulk_memory_threshold = 200

-- What a memory routine leaves: the memory, and the pointer that it returns.
pub record Returned : Type 0 where
  pub mem : Memory
  pub pointer : ℕ

unfoldable pub memcpy : Bool → Memory → ℕ → ℕ → ℕ → Returned
unfolding head finish
memcpy bulk m dest src n =
    if bulk && ltb bulk_memory_threshold n
    then record { mem = memory_copy m dest src n; pointer = dest }
    else record {
      mem = (finish (head (record { mem = m; dst = dest; src = src; left = n }))).mem;
      pointer = dest;
    }
