-- ===== src/Harness/Format/Decimal.antt =====
-- The digits of `%d` and `%u`, read back by the formatter's own width parser, and the room that
-- they take in `buf`.
use wasm_cxx_shim.Prelude.{
  ℕ, zero, suc, ◌+◌, ◌-◌, ◌*◌, ◌/◌, ◌%◌, ◌^◌, ◌≤◌, ◌<◌, ◌≡◌, ◌∙◌, refl, true, false, ◌==◌, arith,
  Bool-cases, inl, inr, ltb, if◌then◌else◌, Option, some, none, List, [], ◌∷◌, ◌++◌,
}
use native.Mathlib.Nat.{pow-suc}
use wasm_cxx_shim.Prelude.Int.{ℤ, pos, negsuc}
use wasm_cxx_shim.Prelude.Lists.{length, length-append, length-replicate, replicate}
use wasm_cxx_shim.Harness.Format.{
  digit_loop, unsigned_digits, signed_digits, read_width, is_digit, buf_size, padded,
}

-- The text goes on with something that is no digit.
abbrev pub NoDigit : List ℕ → Type 0
NoDigit [] = Unit {0}
NoDigit (c ∷ s) = is_digit c ≡ false

-- The loop goes on with a width that an `int` holds.
abbrev pub fitting : ℕ → List ℕ → Option (ℕ × List ℕ)
fitting w s = if ltb w (2 ^ 31) then read_width w s else none

read_width-digit :
    (w k : ℕ) (s : List ℕ) → k < 10 → read_width w ((b'0' + k) ∷ s) ≡ fitting (w * 10 + k) s
unfolding read_width
read_width-digit w k s h =
    let ok : is_digit (b'0' + k) ≡ true = ground arith in
    let back : b'0' + k - b'0' ≡ k = omega arith in rw (ok, back)

read_width-stop : (w : ℕ) (s : List ℕ) → NoDigit s → read_width w s ≡ some (w, s)
unfolding read_width
read_width-stop w [] h = refl
read_width-stop w (c ∷ s) h = rw h

-- The loop puts the digits of `uv` in front of `buf`.
read_width-digit_loop :
    (f uv : ℕ) (buf rest : List ℕ)
    → uv < 10 ^ f
    → read_width 0 (digit_loop f uv buf ++ rest) ≡ fitting uv (buf ++ rest)
unfolding digit_loop
read_width-digit_loop zero uv buf rest h = let none_left : uv ≡ 0 = omega arith in rw none_left
read_width-digit_loop (suc f) uv buf rest h = elim (Bool-cases (uv == 0)) [
  | inl e ↦ let none_left : uv ≡ 0 = ground arith in rw (e, digit_loop, none_left)
  | inr e ↦
      let shorter : uv / 10 < 10 ^ f = omega (arith, pow-suc 10 f) in
      let same : uv / 10 * 10 + uv % 10 ≡ uv = omega arith in
      rw (e, digit_loop)
        (read_width-digit_loop f (uv / 10) ((b'0' + uv % 10) ∷ buf) rest shorter
          ∙ (rw (read_width-digit (uv / 10) (uv % 10) (buf ++ rest) (omega arith), same)
              (ground arith)))
]

length-digit_loop :
    (f k uv : ℕ) (buf : List ℕ) → uv < 10 ^ k → length (digit_loop f uv buf) ≤ k + length buf
unfolding digit_loop
length-digit_loop zero k uv buf h = omega arith
length-digit_loop (suc f) zero uv buf h =
    let none_left : uv ≡ 0 = omega arith in rw none_left (omega arith)
length-digit_loop (suc f) (suc k) uv buf h = elim (Bool-cases (uv == 0)) [
  | inl e ↦ rw (e, digit_loop) (omega arith)
  | inr e ↦
      let shorter : uv / 10 < 10 ^ k = omega (arith, pow-suc 10 k) in
      rw (e, digit_loop)
        (omega (arith, length-digit_loop f k (uv / 10) ((b'0' + uv % 10) ∷ buf) shorter))
]

-- The digits of a 32-bit number, followed by no digit, are read back as that number by the loop that
-- reads a field width, if the number is below 2 ^ 31; from there on the width overflows its `int`.
pub read_width-unsigned_digits :
    (v : ℕ) (rest : List ℕ)
    → v < 2 ^ 32
    → NoDigit rest
    → read_width 0 (unsigned_digits v ++ rest) ≡ (if ltb v (2 ^ 31) then some (v, rest) else none)
unfolding unsigned_digits
read_width-unsigned_digits zero rest h no_digit =
    unfold digit_loop read_width in read_width-stop 0 rest no_digit
read_width-unsigned_digits (suc v) rest h no_digit =
    let some_digit : (suc v == 0) ≡ false = ground arith in
    rw some_digit (
      read_width-digit_loop buf_size (suc v) [] rest (omega arith)
      ∙ rw (read_width-stop (suc v) rest no_digit) refl)

length-unsigned_digits : (v : ℕ) → v < 2 ^ 32 → length (unsigned_digits v) ≤ 10
unfolding unsigned_digits
length-unsigned_digits v h = elim (Bool-cases (v == 0)) [
  | inl e ↦
      let is_zero : v ≡ 0 = ground arith in
      rw e (omega (arith, length-digit_loop buf_size 0 v (b'0' ∷ []) (omega arith)))
  | inr e ↦ rw e (omega (arith, length-digit_loop buf_size 10 v [] (omega arith)))
]

-- A number of either conversion and its NUL take 12 bytes of the 32 in `buf` at most.
pub digits-fit :
    (v : ℕ)
    → (v < 2 ^ 32 → length (unsigned_digits v) + 1 ≤ 12)
      × (v < 2 ^ 31 → length (signed_digits (pos v)) + 1 ≤ 12)
      × (v < 2 ^ 31 → length (signed_digits (negsuc v)) + 1 ≤ 12)
unfolding signed_digits
digits-fit v = (
  λ h. omega (arith, length-unsigned_digits v h),
  λ h. omega (arith, length-unsigned_digits v (omega arith)),
  λ h. omega (arith, length-unsigned_digits (suc v) (omega arith)),
)

length-digit_loop_fuel : (f uv : ℕ) (buf : List ℕ) → length (digit_loop f uv buf) ≤ f + length buf
unfolding digit_loop
length-digit_loop_fuel zero uv buf = omega arith
length-digit_loop_fuel (suc f) uv buf = elim (Bool-cases (uv == 0)) [
  | inl e ↦ rw (e, digit_loop) (omega arith)
  | inr e ↦
      rw (e, digit_loop)
        (omega (arith, length-digit_loop_fuel f (uv / 10) ((b'0' + uv % 10) ∷ buf)))
]

length-unsigned_digits_fuel : (v : ℕ) → length (unsigned_digits v) ≤ 33
unfolding unsigned_digits
length-unsigned_digits_fuel v = elim (Bool-cases (v == 0)) [
  | inl e ↦ rw e (omega (arith, length-digit_loop_fuel buf_size v (b'0' ∷ [])))
  | inr e ↦ rw e (omega (arith, length-digit_loop_fuel buf_size v []))
]

-- A padded string has the field width or its own length.
pub length-padded : (w : ℕ) (s : List ℕ) → length (padded w s) ≤ w + length s
unfolding padded
length-padded w s =
    let pad : List ℕ = replicate (w - length s) b' ' in
    let blanks : length pad ≡ w - length s = length-replicate (w - length s) _ in
    rw (length-append pad s, blanks) (omega arith)

pub length-padded_unsigned : (w v : ℕ) → length (padded w (unsigned_digits v)) ≤ w + 33
length-padded_unsigned w v =
    omega (arith, length-padded w (unsigned_digits v), length-unsigned_digits_fuel v)

pub length-padded_signed : (w : ℕ) (v : ℤ) → length (padded w (signed_digits v)) ≤ w + 34
unfolding signed_digits
length-padded_signed w (pos v) =
    omega (arith, length-padded w (unsigned_digits v), length-unsigned_digits_fuel v)
length-padded_signed w (negsuc v) =
    omega
      (arith, length-padded w (b'-' ∷ unsigned_digits (suc v)), length-unsigned_digits_fuel (suc v))
