-- ===== src/Prelude/Bits.antt =====
-- `|` of a low field and a shifted one, and `&` with a mask of low bits, as sums and remainders.
use Prim.Native.Nat.{
  ℕ, zero, suc, ◌+◌, ◌-◌, ◌*◌, ◌/◌, ◌%◌, ◌^◌, ◌≤◌, ◌<◌, min, max, digits, bit_and, bit_or,
  bit_and-bitwise, bit_or-bitwise,
}
use mathlib.Core.Path.{◌≡◌, refl, ap}
use native.Mathlib.Nat.{pow-suc, pow-succ', one-le-pow, div-div-eq-div-mul}
use native.Mathlib.Omega.{arith}

-- `digits` is a recursion with fuel: more fuel than the number changes nothing.
module _ (z : ℕ → ℕ) (op : ℕ → ℕ → ℕ) where
  digits-fuel : (n m a b : ℕ) → a ≤ n → a ≤ m → digits z op n a b ≡ digits z op m a b
  digits-fuel zero zero a b p q = refl
  digits-fuel zero (suc m) zero b p q = refl
  digits-fuel zero (suc m) (suc a) b p q = absurd (omega arith)
  digits-fuel (suc n) zero zero b p q = refl
  digits-fuel (suc n) zero (suc a) b p q = absurd (omega arith)
  digits-fuel (suc n) (suc m) zero b p q = refl
  digits-fuel (suc n) (suc m) (suc a) b p q =
      let half = digits-fuel n m (suc a / 2) (b / 2) (omega arith) (omega arith) in omega arith

pub bit_or-halves : (a b : ℕ) → bit_or a b ≡ bit_or (a / 2) (b / 2) * 2 + max (a % 2) (b % 2)
bit_or-halves zero b = omega (arith, bit_or-bitwise 0 b, bit_or-bitwise 0 (b / 2))
bit_or-halves (suc a) b = omega (
  arith,
  bit_or-bitwise (suc a) b,
  bit_or-bitwise (suc a / 2) (b / 2),
  digits-fuel (λ y. y) max a (suc a / 2) (suc a / 2) (b / 2) (omega arith) (omega arith),
)

pub bit_and-halves : (a b : ℕ) → bit_and a b ≡ bit_and (a / 2) (b / 2) * 2 + min (a % 2) (b % 2)
bit_and-halves zero b = omega (arith, bit_and-bitwise 0 b, bit_and-bitwise 0 (b / 2))
bit_and-halves (suc a) b = omega (
  arith,
  bit_and-bitwise (suc a) b,
  bit_and-bitwise (suc a / 2) (b / 2),
  digits-fuel (λ y. 0) min a (suc a / 2) (suc a / 2) (b / 2) (omega arith) (omega arith),
)

pub zero-bit_or : (b : ℕ) → bit_or 0 b ≡ b
zero-bit_or b = omega (arith, bit_or-bitwise 0 b)

-- A field of `k` bits joined with one shifted left by `k`.
pub bit_or-shifted : (k r q : ℕ) → r < 2 ^ k → bit_or r (q * 2 ^ k) ≡ r + q * 2 ^ k
bit_or-shifted zero r q h =
    let e : r ≡ 0 = omega arith in rw e (omega (arith, zero-bit_or (q * 2 ^ 0)))
bit_or-shifted (suc k) r q h =
    let e : q * 2 ^ suc k ≡ 2 * (q * 2 ^ k) = omega (arith, ap (λ (t : ℕ). q * t) (pow-suc 2 k)) in
    ground (
      arith,
      pow-suc 2 k,
      bit_or-halves r (q * 2 ^ suc k),
      bit_or-shifted k (r / 2) q (omega (arith, pow-suc 2 k)),
    )

bit_or_comm_below : (n a b : ℕ) → a ≤ n → b ≤ n → bit_or a b ≡ bit_or b a
bit_or_comm_below zero a b h l =
    let z : a ≡ 0 = omega arith in let w : b ≡ 0 = omega arith in rw (z, w) refl
bit_or_comm_below (suc n) a b h l = omega (
  arith,
  bit_or-halves a b,
  bit_or-halves b a,
  bit_or_comm_below n (a / 2) (b / 2) (omega arith) (omega arith),
)

pub bit_or_comm : (a b : ℕ) → bit_or a b ≡ bit_or b a
bit_or_comm a b = bit_or_comm_below (a + b) a b (omega arith) (omega arith)

bit_and-zero_below : (n a : ℕ) → a ≤ n → bit_and a 0 ≡ 0
bit_and-zero_below n zero h = refl
bit_and-zero_below zero (suc a) h = absurd (omega arith)
bit_and-zero_below (suc n) (suc a) h =
    omega (arith, bit_and-halves (suc a) 0, bit_and-zero_below n (suc a / 2) (omega arith))

pub bit_and-zero : (a : ℕ) → bit_and a 0 ≡ 0
bit_and-zero a = bit_and-zero_below a a (omega arith)

bit_and-low_field : (k r q : ℕ) → r < 2 ^ k → bit_and (r + q * 2 ^ k) (2 ^ k - 1) ≡ r
bit_and-low_field zero r q h = rw bit_and-zero (omega arith)
bit_and-low_field (suc k) r q h =
    let twice : q * 2 ^ suc k ≡ 2 * (q * 2 ^ k) =
      omega (arith, ap (λ (t : ℕ). q * t) (pow-suc 2 k)) in
    ground (
      arith,
      pow-suc 2 k,
      one-le-pow k 2,
      bit_and-halves (r + q * 2 ^ suc k) (2 ^ suc k - 1),
      bit_and-low_field k (r / 2) q (omega (arith, pow-suc 2 k)),
    )

-- A mask of `k` ones keeps the remainder by `2 ^ k`.
pub bit_and-mask : (k a : ℕ) → bit_and a (2 ^ k - 1) ≡ a % 2 ^ k
bit_and-mask k a = ground (arith, one-le-pow k 2, bit_and-low_field k (a % 2 ^ k) (a / 2 ^ k))

-- `n & 1`, `n & 2`, … as digits.
pub bit_and-one : (a : ℕ) → bit_and a 1 ≡ a % 2
bit_and-one a = omega (arith, bit_and-halves a 1, bit_and-zero (a / 2))

pub bit_and-two : (a : ℕ) → bit_and a 2 ≡ a / 2 % 2 * 2
bit_and-two a = omega (arith, bit_and-halves a 2, bit_and-one (a / 2))

pub bit_and-four : (a : ℕ) → bit_and a 4 ≡ a / 4 % 2 * 4
bit_and-four a = omega (arith, bit_and-halves a 4, bit_and-two (a / 2))

pub bit_and-eight : (a : ℕ) → bit_and a 8 ≡ a / 8 % 2 * 8
bit_and-eight a = omega (arith, bit_and-halves a 8, bit_and-four (a / 2))

pub bit_and-sixteen : (a : ℕ) → bit_and a 16 ≡ a / 16 % 2 * 16
bit_and-sixteen a = omega (arith, bit_and-halves a 16, bit_and-eight (a / 2))

div-two-pow-suc : (k a : ℕ) → a / 2 ^ suc k ≡ a / 2 / 2 ^ k
div-two-pow-suc k a = rw (pow-succ', div-div-eq-div-mul a 2 (2 ^ k))

-- The digits of `&`, and `&` with a shifted mask.
pub bit_and-digit : (k a b : ℕ) → bit_and a b / 2 ^ k % 2 ≡ min (a / 2 ^ k % 2) (b / 2 ^ k % 2)
bit_and-digit zero a b = omega (arith, bit_and-halves a b)
bit_and-digit (suc k) a b =
    let half : bit_and a b / 2 ≡ bit_and (a / 2) (b / 2) = omega (arith, bit_and-halves a b) in
    rw (div-two-pow-suc k (bit_and a b), div-two-pow-suc k a, div-two-pow-suc k b, half)
      (bit_and-digit k (a / 2) (b / 2))

pub bit_and-shifted : (k a b : ℕ) → bit_and a (b * 2 ^ k) ≡ bit_and (a / 2 ^ k) b * 2 ^ k
bit_and-shifted zero a b =
    let b0 : b * 2 ^ 0 ≡ b = omega arith in
    let a0 : a / 2 ^ 0 ≡ a = omega arith in rw (b0, a0) (omega arith)
bit_and-shifted (suc k) a b =
    let twice : b * 2 ^ suc k ≡ 2 * (b * 2 ^ k) =
      omega (arith, ap (λ (t : ℕ). b * t) (pow-suc 2 k)) in
    let c = bit_and (a / 2 / 2 ^ k) b in
    let twice' : c * 2 ^ suc k ≡ 2 * (c * 2 ^ k) =
      omega (arith, ap (λ (t : ℕ). c * t) (pow-suc 2 k)) in
    let half : 2 * (b * 2 ^ k) / 2 ≡ b * 2 ^ k = omega arith in
    rw (div-two-pow-suc k a, twice, twice', bit_and-halves a (2 * (b * 2 ^ k)), half)
      (omega (arith, bit_and-shifted k (a / 2) b))
