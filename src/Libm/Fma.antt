-- ===== src/Libm/Fma.antt =====
-- libm/src/musl/fma.c. A `uint64_t` wraps at 2 ^ 64, and a 128-bit number is its two halves.
pub mod Wide
pub mod Bits
pub mod Convert
pub mod TopBits
pub mod Align
pub mod Normalize
pub mod Round
pub mod Fused
pub mod Once
use wasm_cxx_shim.Prelude.{
  ℕ, suc, ◌+◌, ◌-◌, ◌*◌, ◌/◌, ◌%◌, ◌^◌, bit_or, ◌&&◌, ◌||◌, not, ltb, leb, ◌==◌, if◌then◌else◌,
  Bool, true, false,
}
use Prim.Native.Nat.{max}
use wasm_cxx_shim.Prelude.Int
use wasm_cxx_shim.Prelude.Int.{ℤ, pos, negsuc, ◌+ℤ◌, ◌-ℤ◌, ltb_ℤ}
use wasm_cxx_shim.Libm.Double.{
  sign_of, exponent_of, fraction_of, inf_bits, nan_bits, is_nan, is_inf, power, neg, of_int, units,
  rounded, round_even, bit_length, signed, equal, ◌⊕◌, ◌⊖◌, ◌⊗◌, ◌⊘◌,
}
use wasm_cxx_shim.Libm.Rounding.{scalbn}

-- `negative` is `sign` that is not 0.
pub record Num : Type 0 where
  pub m : ℕ
  pub e : ℤ
  pub negative : Bool

abbrev pub zeroinfnan_exponent : ℤ
zeroinfnan_exponent = pos (0x7ff - 0x3ff - 52 - 1)

unfoldable pub normalize : ℕ → Num
normalize x =
    let scaled = x ⊗ power (0x3ff + 63) in
    let ix = if exponent_of x == 0 then scaled else x in
    let ex = exponent_of scaled in
    let e =
      if exponent_of x == 0
      then (if ex == 0 then pos 0x800 else pos ex -ℤ pos 63)
      else pos (exponent_of x) in
    record {
      m = bit_or (ix % 2 ^ 52) (2 ^ 52) * 2 % 2 ^ 64;
      e = e -ℤ pos (0x3ff + 52 + 1);
      negative = sign_of x == 1;
    }

-- `hi` and `lo`.
unfoldable pub mul : ℕ → ℕ → ℕ × ℕ
mul x y =
    let xlo = x % 2 ^ 32 in
    let xhi = x / 2 ^ 32 in
    let ylo = y % 2 ^ 32 in
    let yhi = y / 2 ^ 32 in
    let t1 = xlo * ylo % 2 ^ 64 in
    let t2 = (xlo * yhi + xhi * ylo) % 2 ^ 64 in
    let t3 = xhi * yhi % 2 ^ 64 in
    let lo = (t1 + t2 * 2 ^ 32) % 2 ^ 64 in
    ((t3 + t2 / 2 ^ 32 + (if ltb lo t1 then 1 else 0)) % 2 ^ 64, lo)

-- `!!n`
abbrev pub flag : ℕ → ℕ
flag n = if n == 0 then 0 else 1

-- `n << d` and `n >> d | !!(n << 64-d)` on 64 bits.
abbrev pub shift_left : ℕ → ℕ → ℕ
shift_left n d = n * 2 ^ d % 2 ^ 64

abbrev pub shift_sticky : ℕ → ℕ → ℕ
shift_sticky n d = bit_or (n / 2 ^ d) (flag (shift_left n (64 - d)))

pub record Aligned : Type 0 where
  pub rhi : ℕ
  pub rlo : ℕ
  pub zhi : ℕ
  pub zlo : ℕ
  pub e : ℤ

-- `align exponents`: `e` is `nx.e + ny.e`, `d` is `nz.e - e`.
unfoldable pub align : ℕ → ℕ → Num → ℤ → ℤ → Aligned
align rhi rlo nz e (pos d) =
    let k = d - 64 in
    let far = nz.e -ℤ pos 64 in
    if d == 0
    then record { rhi = rhi; rlo = rlo; zhi = 0; zlo = nz.m; e = e }
    else if ltb d 64
    then record { rhi = rhi; rlo = rlo; zhi = nz.m / 2 ^ (64 - d); zlo = shift_left nz.m d; e = e }
    else if k == 0
    then record { rhi = rhi; rlo = rlo; zhi = nz.m; zlo = 0; e = far }
    else if ltb k 64
    then record {
      rhi = rhi / 2 ^ k;
      rlo = bit_or (shift_left rhi (64 - k)) (shift_sticky rlo k);
      zhi = nz.m;
      zlo = 0;
      e = far;
    }
    else record { rhi = 0; rlo = 1; zhi = nz.m; zlo = 0; e = far }
align rhi rlo nz e (negsuc k) =
    let d = suc k in
    record {
      rhi = rhi;
      rlo = rlo;
      zhi = 0;
      zlo = if ltb d 64 then shift_sticky nz.m d else 1;
      e = e;
    }

-- The sum, its sign, and `nonzero`.
pub record Sum : Type 0 where
  pub rhi : ℕ
  pub rlo : ℕ
  pub negative : Bool
  pub nonzero : Bool

unfoldable pub add_same : Aligned → Bool → Sum
add_same a sign =
    let rlo = (a.rlo + a.zlo) % 2 ^ 64 in
    record {
      rhi = (a.rhi + a.zhi + (if ltb rlo a.zlo then 1 else 0)) % 2 ^ 64;
      rlo = rlo;
      negative = sign;
      nonzero = true;
    }

unfoldable pub add_opposite : Aligned → Bool → Sum
add_opposite a sign =
    let lo = (a.rlo + (2 ^ 64 - a.zlo)) % 2 ^ 64 in
    let hi = (a.rhi + (2 ^ 64 - a.zhi) + (2 ^ 64 - (if ltb a.rlo lo then 1 else 0))) % 2 ^ 64 in
    let lo' = (2 ^ 64 - lo) % 2 ^ 64 in
    let hi' = (2 ^ 64 - hi + (2 ^ 64 - flag lo')) % 2 ^ 64 in
    if hi / 2 ^ 63 == 0
    then record { rhi = hi; rlo = lo; negative = sign; nonzero = not (hi == 0) }
    else record { rhi = hi'; rlo = lo'; negative = not sign; nonzero = not (hi' == 0) }

-- `a_clz_64(n)`
abbrev pub clz : ℕ → ℕ
clz n = 64 - bit_length n

-- `set rhi to top 63bit of the result`, for a sum that is not 0: `rhi` and `e`.
unfoldable pub top_bits : Sum → ℤ → ℕ × ℤ
top_bits s e =
    let d = clz s.rhi - 1 in
    let k = clz s.rlo in
    if s.nonzero
    then (
      bit_or (bit_or (shift_left s.rhi d) (s.rlo / 2 ^ (64 - d))) (flag (shift_left s.rlo d)),
      e +ℤ pos 64 -ℤ pos d,
    )
    else if k == 0
    then (bit_or (s.rlo / 2) (s.rlo % 2), e +ℤ pos 1)
    else (shift_left s.rlo (k - 1), e -ℤ pos (k - 1))

-- `(float)x`, as a double: 24 digits, or fewer at the bottom.
unfoldable pub to_float : ℕ → ℕ
to_float x =
    let m = units x in
    let q = max (bit_length m - 24) (1074 - 149) in
    let v = round_even m q * 2 ^ q in
    if is_nan x
    then nan_bits
    else if is_inf x
    then x
    else signed (sign_of x) (if leb (2 ^ (1074 + 128)) v then inf_bits else rounded 0 v)

-- `(double)i` for `i = rhi`, or `-rhi`.
abbrev pub signed_double : Bool → ℕ → ℕ
signed_double negative i = of_int (if negative then Int.neg (pos i) else pos i)

-- `DBL_MIN/FLT_MIN`, and `0x0.ffffff8p-63*FLT_MIN`.
abbrev pub min_ratio : ℕ
min_ratio = power 1 ⊘ power (0x3ff - 126)

abbrev pub below_min : ℕ
below_min = (power (0x3ff - 63) ⊖ power (0x3ff - 88)) ⊗ power (0x3ff - 126)

-- `e == -1022-63`
unfoldable pub near_subnormal : ℕ → Bool → ℕ → ℕ
near_subnormal rhi negative r =
    let c = if negative then neg (power (0x3ff + 63)) else power (0x3ff + 63) in
    let i = bit_or (bit_or (rhi / 2) (rhi % 2)) (2 ^ 62) in
    let r' = power 0x400 ⊗ signed_double negative i ⊖ c in
    let tiny = min_ratio ⊗ r' in if shift_left rhi 53 == 0 then r else r' ⊕ tiny ⊗ tiny ⊗ (r' ⊖ r')

-- `convert to double`
unfoldable pub to_double : ℕ → Bool → ℤ → ℕ
to_double rhi negative e =
    let r = signed_double negative rhi in
    let c = if negative then neg (power (0x3ff + 63)) else power (0x3ff + 63) in
    let i = shift_sticky rhi 10 * 2 ^ 10 % 2 ^ 64 in
    if ltb_ℤ e (negsuc (1022 + 62 - 1))
    then (if not (ltb_ℤ e (negsuc (1022 + 63 - 1))) && not (ltb_ℤ (negsuc (1022 + 63 - 1)) e)
        then (if equal r c
            then min_ratio ⊗ to_float (below_min ⊗ r)
            else scalbn (near_subnormal rhi negative r) e)
        else scalbn (signed_double negative i) e)
    else scalbn r e

-- From `mul` on.
unfoldable pub fused : ℕ → ℕ → ℕ → Num → Num → Num → ℕ
fused x y z nx ny nz =
    let (rhi, rlo) = mul nx.m ny.m in
    let e = nx.e +ℤ ny.e in
    let a = align rhi rlo nz e (nz.e -ℤ e) in
    let sign = if nx.negative then not ny.negative else ny.negative in
    let same = if sign then nz.negative else not nz.negative in
    let s = if same then add_same a sign else add_opposite a sign in
    let (top, exponent) = top_bits s a.e in
    if not s.nonzero && s.rlo == 0 then x ⊗ y ⊕ z else to_double top s.negative exponent

unfoldable pub fma : ℕ → ℕ → ℕ → ℕ
fma x y z =
    let nx = normalize x in
    let ny = normalize y in
    let nz = normalize z in
    if not (ltb_ℤ nx.e zeroinfnan_exponent) || not (ltb_ℤ ny.e zeroinfnan_exponent)
    then x ⊗ y ⊕ z
    else if not (ltb_ℤ nz.e zeroinfnan_exponent)
    then (if ltb_ℤ zeroinfnan_exponent nz.e then x ⊗ y else z)
    else fused x y z nx ny nz
