-- ===== src/Prelude/Int/Sub.antt =====
-- Differences of numbers as integers.
use wasm_cxx_shim.Prelude.{
  ℕ, ◌+◌, ◌-◌, ◌≡◌, leb, ltb, arith, Bool-cases, inl, inr, refl, true, false,
}
use wasm_cxx_shim.Prelude.Int.{pos, pos_part, neg_part, sub_ℕ, ◌+ℤ◌, ◌-ℤ◌, ltb_ℤ}

-- Only the difference counts.
pub sub_ℕ-eq : (a b c d : ℕ) → a + d ≡ c + b → sub_ℕ a b ≡ sub_ℕ c d
sub_ℕ-eq a b c d h = elim (Bool-cases (leb b a)) [
  | inl e ↦
      let f : leb d c ≡ true = ground arith in
      let g : a - b ≡ c - d = ground arith in rw (e, f, g) refl
  | inr e ↦
      let f : leb d c ≡ false = ground arith in
      let g : b - a - 1 ≡ d - c - 1 = ground arith in rw (e, f, g) refl
]

-- The two parts of a difference, one of which is 0.
parts-sub_ℕ : (a b : ℕ) → pos_part (sub_ℕ a b) + b ≡ neg_part (sub_ℕ a b) + a
parts-sub_ℕ a b = elim (Bool-cases (leb b a)) [
  | inl e ↦ rw e (ground arith)
  | inr e ↦ rw e (ground arith)
]

pub add-sub_ℕ : (a b c d : ℕ) → sub_ℕ a b +ℤ sub_ℕ c d ≡ sub_ℕ (a + c) (b + d)
unfolding ◌+ℤ◌
add-sub_ℕ a b c d =
    let x = parts-sub_ℕ a b in let y = parts-sub_ℕ c d in sub_ℕ-eq _ _ (a + c) (b + d) (omega arith)

pub sub-sub_ℕ : (a b c d : ℕ) → sub_ℕ a b -ℤ sub_ℕ c d ≡ sub_ℕ (a + d) (b + c)
unfolding ◌-ℤ◌
sub-sub_ℕ a b c d =
    let x = parts-sub_ℕ a b in let y = parts-sub_ℕ c d in sub_ℕ-eq _ _ (a + d) (b + c) (omega arith)

pub pos-sub_ℕ : (n : ℕ) → pos n ≡ sub_ℕ n 0
pos-sub_ℕ n =
    let e : leb 0 n ≡ true = ground arith in let z : n - 0 ≡ n = omega arith in rw (e, z) refl

pub ltb-sub_ℕ : (a b c d : ℕ) → ltb_ℤ (sub_ℕ a b) (sub_ℕ c d) ≡ ltb (a + d) (c + b)
ltb-sub_ℕ a b c d = let x = parts-sub_ℕ a b in let y = parts-sub_ℕ c d in ground arith
