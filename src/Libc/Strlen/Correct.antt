-- ===== src/Libc/Strlen/Correct.antt =====
-- `strlen` finds the first NUL.
use wasm_cxx_shim.Prelude.{
  ℕ, ◌+◌, ◌-◌, ◌%◌, ◌≤◌, ◌<◌, ◌≡◌, ◌≢◌, false, ◌==◌, arith, Bool-cases, inl, inr,
}
use wasm_cxx_shim.Prelude.Loop.{while, while-Inv}
use wasm_cxx_shim.Memory.{Memory, IsBytes, load32}
use wasm_cxx_shim.Libc.Strlen.{haszero, nonzero, head_test, strlen}
use wasm_cxx_shim.Libc.Strlen.Haszero.{haszero_iff}

haszero-load32 :
    (m : Memory) (bytes : IsBytes m) (w : ℕ)
    → (haszero (load32 m w) ≡ 0)
    → (m w ≢ 0) × (m (w + 1) ≢ 0) × (m (w + 2) ≢ 0) × (m (w + 3) ≢ 0)
unfolding load32
haszero-load32 m bytes w e =
    (haszero_iff (m w) (m (w + 1)) (m (w + 2)) (m (w + 3)) (bytes _) (bytes _) (bytes _)
        (bytes _)).0
      e

module _ (m : Memory) (bytes : IsBytes m) (a len fuel : ℕ)
    (string : (j : ℕ) → j < len → m (a + j) ≢ 0) (nul : m (a + len) ≡ 0) (enough : len ≤ fuel) where
  -- The pointer is inside the string or at its end.
  abbrev Inside : ℕ → Type 0
  Inside s = (a ≤ s) × (s ≤ a + len)

  end_of : (s : ℕ) → Inside s → m s ≡ 0 → s ≡ a + len
  end_of s h z = elim (Bool-cases (s == a + len)) [
    | inl e ↦ ground arith
    | inr e ↦
        let same : a + (s - a) ≡ s = omega arith in
        absurd (string (s - a) (ground arith) (rw same z))
  ]

  -- A byte that is not NUL is passed over.
  past : (s : ℕ) → Inside s → m s ≢ 0 → Inside (s + 1)
  past s h nz = elim (Bool-cases (s == a + len)) [
    | inl e ↦ let at_end : s ≡ a + len = ground arith in absurd (nz (rw at_end nul))
    | inr e ↦ ground arith
  ]

  past_word : (w : ℕ) → Inside w → haszero (load32 m w) ≡ 0 → Inside (w + 4)
  past_word w h z =
      let (z0, z1, z2, z3) = haszero-load32 m bytes w z in
      let in1 = past w h z0 in
      let in2 = past (w + 1) in1 z1 in
      let in3 : Inside (w + 1 + 1) = in2 in
      let w2 : w + 1 + 1 ≡ w + 2 = omega arith in
      let in3' = past (w + 2) (rw (← w2) in3) z2 in
      let w3 : w + 2 + 1 ≡ w + 3 = omega arith in
      let in4 = past (w + 3) (rw (← w3) in3') z3 in omega (arith, in4)

  abbrev measure : ℕ → ℕ
  measure s = a + len - s

  begins : Inside a
  begins = omega arith

  abbrev head : ℕ
  head = while (head_test m) (λ s. s + 1) fuel a

  head-Inside : Inside head × (head_test m head ≡ false)
  head-Inside =
      while-Inv (head_test m) (λ s. s + 1) Inside measure
        (λ s h go. let next = past s h (ground arith) in (next, omega arith)) fuel a (omega arith)
        begins

  abbrev words : ℕ
  words = while (λ w. haszero (load32 m w) == 0) (λ w. w + 4) fuel head

  words-Inside : Inside words
  words-Inside =
      (while-Inv (λ w. haszero (load32 m w) == 0) (λ w. w + 4) Inside measure
        (λ w h go. let next = past_word w h (ground arith) in (next, omega arith)) fuel head
        (let h = head-Inside.0 in omega arith) head-Inside.0).0

  abbrev final : ℕ
  final = while (λ t. nonzero (m t)) (λ t. t + 1) fuel words

  final-Inside : Inside final × (nonzero (m final) ≡ false)
  final-Inside =
      while-Inv (λ t. nonzero (m t)) (λ t. t + 1) Inside measure
        (λ t h go. let next = past t h (ground arith) in (next, omega arith)) fuel words
        (let h = words-Inside in omega arith) words-Inside

  -- `strlen` returns the number of bytes before the first NUL, at every alignment, with fuel of at
  -- least that number.
  pub strlen_lem : strlen fuel m a ≡ len
  unfolding strlen
  strlen_lem = elim (Bool-cases (nonzero (head % 4))) [
    | inl odd ↦
        let e = end_of head head-Inside.0 (ground (arith, head-Inside.1)) in rw odd (omega arith)
    | inr even ↦
        let e = end_of final final-Inside.0 (ground (arith, final-Inside.1)) in
        rw even (omega arith)
  ]
