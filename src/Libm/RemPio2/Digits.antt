-- ===== src/Libm/RemPio2/Digits.antt =====
-- The digits of 24 bits of `__rem_pio2_large`, the lowest first.
use wasm_cxx_shim.Prelude.{
  ℕ, ◌+◌, ◌*◌, ◌-◌, ◌^◌, ◌<◌, ◌≡◌, true, false, ◌==◌, arith, if◌then◌else◌, List, [], ◌∷◌, refl,
  Bool-cases, inl, inr,
}
use wasm_cxx_shim.Libm.RemPio2.Large.{put, complement}

-- Every digit has at most 24 bits.
abbrev pub AreDigits : List ℕ → Type 0
AreDigits [] = Unit
AreDigits (x ∷ xs) = (x < 2 ^ 24) × AreDigits xs

abbrev pub digits_value : List ℕ → ℕ
digits_value [] = 0
digits_value (x ∷ xs) = x + 2 ^ 24 * digits_value xs

-- The numbers that as many digits can stand for.
abbrev pub capacity : List ℕ → ℕ
capacity [] = 1
capacity (x ∷ xs) = 2 ^ 24 * capacity xs

complement_borrowed :
    (iq : List ℕ)
    → AreDigits iq
    → (digits_value (complement 1 iq).0 + digits_value iq + 1 ≡ capacity iq)
      × ((complement 1 iq).1 ≡ 1)
      × AreDigits (complement 1 iq).0
unfolding complement
complement_borrowed [] d = (refl, refl, tt)
complement_borrowed (j ∷ iq) d =
    let (v, c, a) = complement_borrowed iq d.1 in let t = d.0 in (omega arith, c, (omega arith, a))

complement_zero :
    (j : ℕ) (iq : List ℕ) → (j == 0) ≡ true → complement 0 (j ∷ iq) ≡ put j (complement 0 iq)
unfolding complement
complement_zero j iq z = rw (z, complement) refl

complement_first :
    (j : ℕ) (iq : List ℕ)
    → (j == 0) ≡ false
    → complement 0 (j ∷ iq) ≡ put (0x1000000 - j) (complement 1 iq)
unfolding complement
complement_first j iq z = rw (z, complement) refl

-- Of digits of 24 bits, `compute 1-q` leaves zeros alone and returns the carry 0; else it returns the
-- carry 1 and the digits that complete the number to the next power of 2 ^ 24.
pub complement_lem :
    (iq : List ℕ)
    → AreDigits iq
    → AreDigits (complement 0 iq).0
      × (digits_value (complement 0 iq).0 + digits_value iq
          ≡ (if digits_value iq == 0 then 0 else capacity iq))
      × ((complement 0 iq).1 ≡ (if digits_value iq == 0 then 0 else 1))
unfolding complement
complement_lem [] d = (tt, refl, refl)
complement_lem (j ∷ iq) d = elim (Bool-cases (j == 0)) [
  | inl z ↦
      let (a, v, c) = complement_lem iq d.1 in
      let t = d.0 in rw (complement_zero j iq z) ((t, a), ground arith, ground arith)
  | inr nz ↦
      let (v, c, a) = complement_borrowed iq d.1 in
      let t = d.0 in rw (complement_first j iq nz) ((ground arith, a), ground arith, ground arith)
]
