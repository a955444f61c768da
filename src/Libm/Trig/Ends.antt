-- ===== src/Libm/Trig/Ends.antt =====
-- sin, cos and tan near 0, and of infinities and NaNs.
use wasm_cxx_shim.Prelude.{
  ℕ, ◌-◌, ◌^◌, ◌<◌, ◌≡◌, refl, ◌||◌, true, ltb, leb, some, arith, Bool-cases, inl, inr,
}
use wasm_cxx_shim.Libm.Double.{magnitude, inf_bits, nan_bits, power, one, ◌⊕◌, ◌⊖◌}
use wasm_cxx_shim.Libm.Math.Results.{NanOr}
use wasm_cxx_shim.Libm.Trig.{sin, cos, tan}

pub sub_self-nan : (x : ℕ) → x < 2 ^ 64 → leb inf_bits (magnitude x) ≡ true → x ⊖ x ≡ nan_bits
unfolding ◌⊕◌ ◌⊖◌
sub_self-nan x h l = ground arith

-- For 64-bit patterns below 2 ^ -27 in size, sin and tan return the argument and cos 1; for infinities
-- and NaNs all three return a NaN.
pub trig_ends :
    (x : ℕ)
    → x < 2 ^ 64
    → ltb (magnitude x) (power (0x3ff - 27)) || leb inf_bits (magnitude x) ≡ true
    → ((r : ℕ) × (sin x ≡ some r) × NanOr (leb inf_bits (magnitude x)) x r)
      × ((r : ℕ) × (cos x ≡ some r) × NanOr (leb inf_bits (magnitude x)) one r)
      × ((r : ℕ) × (tan x ≡ some r) × NanOr (leb inf_bits (magnitude x)) x r)
unfolding sin cos tan
trig_ends x h ends = elim (Bool-cases (leb inf_bits (magnitude x))) [
  | inl big ↦
      let nan = sub_self-nan x h big in
      rw big (
        (nan_bits, ground arith, refl),
        (nan_bits, ground arith, refl),
        (nan_bits, ground arith, refl),
      )
  | inr small ↦
      rw small ((x, ground arith, refl), (one, ground arith, refl), (x, ground arith, refl))
]
