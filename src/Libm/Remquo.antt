-- ===== src/Libm/Remquo.antt =====
-- libm/src/musl/remquo.c. The exponents `ex` and `ey` may be negative, the mantissas are `uint64_t`
-- and the quotient is `uint32_t`.
pub mod Reduce
pub mod Operands
pub mod Scaled
pub mod Nearest
pub mod Place
pub mod Exact
pub mod Remainder
use wasm_cxx_shim.Prelude.{
  ℕ, zero, suc, ◌+◌, ◌-◌, ◌*◌, ◌/◌, ◌%◌, ◌^◌, Bool, not, ◌&&◌, ◌||◌, ltb, ◌==◌, if◌then◌else◌,
}
use wasm_cxx_shim.Prelude.Int.{ℤ, pos, negsuc, pos_part, neg_part, sub_ℕ, ltb_ℤ, ◌-ℤ◌}
use wasm_cxx_shim.Prelude.Int
use wasm_cxx_shim.Prelude.Loop.{while}
use wasm_cxx_shim.Libm.Double.{
  sign_of, exponent_of, fraction_of, is_nan, power, neg, less, equal, ◌⊖◌, ◌⊗◌, ◌⊘◌,
}
use wasm_cxx_shim.Libm.Math.{sub64}
use wasm_cxx_shim.Libm.Pattern.{Scan, scan}

pub record Operand : Type 0 where
  pub bits : ℕ
  pub exponent : ℤ

-- The mantissa without its sign, with its first one at bit 52 for the exponent.
unfoldable pub normalize : ℕ → Operand
normalize u =
    if exponent_of u == 0
    then (let down = (scan (u * 2 ^ 12 % 2 ^ 64)).down in
        record { bits = u * 2 ^ (down + 1) % 2 ^ 64; exponent = sub_ℕ 0 down })
    else record { bits = fraction_of u + 2 ^ 52; exponent = pos (exponent_of u) }

pub record Division : Type 0 where
  pub uxi : ℕ
  pub q : ℕ

-- if ((uxi - uy.i) >> 63 == 0) { uxi -= uy.i; q++; }
unfoldable pub take_off : ℕ → Division → Division
take_off y s =
    let i = sub64 s.uxi y in
    if i / 2 ^ 63 == 0 then record { uxi = i; q = (s.q + 1) % 2 ^ 32 } else s

-- uxi <<= 1; q <<= 1;
unfoldable pub double : Division → Division
double s = record { uxi = s.uxi * 2 % 2 ^ 64; q = s.q * 2 % 2 ^ 32 }

-- `x mod y`, for `d = ex - ey`.
unfoldable pub reduce : ℕ → ℕ → Division → Division
reduce zero y s = take_off y s
reduce (suc d) y s = reduce d y (double (take_off y s))

-- for (; uxi>>52 == 0; uxi <<= 1, ex--);
unfoldable pub raise : ℕ → ℤ → Operand
raise uxi ex =
    while (λ (t : Operand). t.bits / 2 ^ 52 == 0)
      (λ t. record { bits = t.bits * 2 % 2 ^ 64; exponent = t.exponent -ℤ pos 1 }) 64
      (record { bits = uxi; exponent = ex })

-- The pattern of the remainder.
unfoldable pub rescale : Operand → ℕ
rescale t =
    if ltb_ℤ (pos 0) t.exponent
    then t.bits - 2 ^ 52 + pos_part t.exponent * 2 ^ 52
    else t.bits / 2 ^ (neg_part t.exponent + 1)

pub record Result : Type 0 where
  pub value : ℕ
  pub quo : ℤ

unfoldable pub same_ℤ : ℤ → ℤ → Bool
same_ℤ a b = not (ltb_ℤ a b) && not (ltb_ℤ b a)

-- From `end:` on: the choice between |x| and |x| - |y|, and the signs.
unfoldable pub finish : ℕ → ℕ → Operand → ℤ → ℕ → Result
finish sx y t ey q =
    let x = rescale t in
    let y' = if sign_of y == 0 then y else neg y in
    let twice = power 0x400 ⊗ x in
    let near =
      same_ℤ t.exponent ey
      || (same_ℤ (t.exponent -ℤ negsuc 0) ey
          && (less y' twice || (equal twice y' && q % 2 == 1))) in
    let x' = if near then x ⊖ y' else x in
    let q' = (if near then q + 1 else q) % 2 ^ 31 in
    record {
      value = if sx == 0 then x' else neg x';
      quo = if sx == sign_of y then pos q' else sub_ℕ 0 q';
    }

-- The division of normalized operands, `ex >= ey`.
unfoldable pub divided : Operand → Operand → Division
divided a b = reduce (pos_part (a.exponent -ℤ b.exponent)) b.bits (record { uxi = a.bits; q = 0 })

unfoldable pub remquo : ℕ → ℕ → Result
remquo x y =
    if y * 2 % 2 ^ 64 == 0 || is_nan y || exponent_of x == 0x7ff
    then record { value = (x ⊗ y) ⊘ (x ⊗ y); quo = pos 0 }
    else if x * 2 % 2 ^ 64 == 0
    then record { value = x; quo = pos 0 }
    else let a = normalize x in
      let b = normalize y in
      if ltb_ℤ a.exponent b.exponent
      then (if same_ℤ (a.exponent -ℤ negsuc 0) b.exponent
          then finish (sign_of x) y a b.exponent 0
          else record { value = x; quo = pos 0 })
      else let r = divided a b in
        let t =
          if r.uxi == 0
          then record { bits = 0; exponent = negsuc 59 }
          else raise r.uxi b.exponent in
        finish (sign_of x) y t b.exponent r.q
