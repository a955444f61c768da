-- ===== src/Libm/Rounding/Parts.antt =====
-- Whole parts in units of `u`.
use wasm_cxx_shim.Prelude.{
  ℕ, ◌+◌, ◌-◌, ◌*◌, ◌/◌, ◌%◌, ◌≤◌, ◌<◌, ◌≡◌, ◌⊎◌, leb, ltb, ◌==◌, arith, Bool-cases, inl, inr, ap,
  ◌∙◌, refl, false, if◌then◌else◌,
}
use native.Mathlib.Nat.{
  div-add-mod, mod-lt, mul_comm, div-eq_of_lt, mod-eq_of_lt, add-mul-div_right, mul-div_cancel,
  mul-mod_left,
}

-- The whole part, and the whole part with one for a rest.
abbrev pub whole_down : ℕ → ℕ → ℕ
whole_down u m = m / u * u

abbrev pub whole_up : ℕ → ℕ → ℕ
whole_up u m = (m + (u - 1)) / u * u

pub nearest_down :
    (m r u : ℕ)
    → 1 ≤ u
    → ((r ≡ m / u) × (2 * (m % u) ≤ u)) ⊎ ((r ≡ m / u + 1) × (u ≤ 2 * (m % u)))
    → (if ltb m (r * u) then r * u - u else r * u) ≡ whole_down u m
nearest_down m r u h c =
    let parts = div-add-mod m u in
    let s = mod-lt m h in
    let swap = mul_comm u (m / u) in
    elim c [
      | inl (e, n) ↦ let t : r * u ≡ m / u * u = ap (λ (k : ℕ). k * u) e in ground arith
      | inr (e, n) ↦
          let t : r * u ≡ (m / u + 1) * u = ap (λ (k : ℕ). k * u) e in
          let w : (m / u + 1) * u ≡ m / u * u + u = grind arith in ground arith
    ]

pub whole_up-rest :
    (m u : ℕ) → 1 ≤ u → whole_up u m ≡ (if m % u == 0 then m / u * u else m / u * u + u)
whole_up-rest m u h =
    let parts = div-add-mod m u in
    let s = mod-lt m h in
    let swap = mul_comm u (m / u) in
    elim (Bool-cases (m % u == 0)) [
      | inl z ↦
          let e : m + (u - 1) ≡ u - 1 + m / u * u = ground arith in
          let none : (u - 1) / u ≡ 0 = div-eq_of_lt (omega arith) in
          let t : (m + (u - 1)) / u ≡ m / u =
            ap (λ (k : ℕ). k / u) e ∙ add-mul-div_right (u - 1) (m / u) h ∙ rw none (omega arith) in
          rw (z, t) refl
      | inr z ↦
          let more : (m / u + 1) * u ≡ m / u * u + u = grind arith in
          let e : m + (u - 1) ≡ m % u - 1 + (m / u + 1) * u = ground arith in
          let none : (m % u - 1) / u ≡ 0 = div-eq_of_lt (omega arith) in
          let t : (m + (u - 1)) / u ≡ m / u + 1 =
            ap (λ (k : ℕ). k / u) e
            ∙ add-mul-div_right (m % u - 1) (m / u + 1) h
            ∙ rw none (omega arith) in
          rw (z, t) more
    ]

pub nearest_up :
    (m r u : ℕ)
    → 1 ≤ u
    → ((r ≡ m / u) × (2 * (m % u) ≤ u)) ⊎ ((r ≡ m / u + 1) × (u ≤ 2 * (m % u)))
    → (if ltb (r * u) m then r * u + u else r * u) ≡ whole_up u m
nearest_up m r u h c =
    let parts = div-add-mod m u in
    let s = mod-lt m h in
    let swap = mul_comm u (m / u) in
    let up = whole_up-rest m u h in
    elim c [
      | inl (e, n) ↦ let t : r * u ≡ m / u * u = ap (λ (k : ℕ). k * u) e in ground arith
      | inr (e, n) ↦
          let t : r * u ≡ (m / u + 1) * u = ap (λ (k : ℕ). k * u) e in
          let w : (m / u + 1) * u ≡ m / u * u + u = grind arith in ground arith
    ]

-- Multiples stay, and a number below the unit goes to 0 or to 1.
pub whole-multiple :
    (u k : ℕ) → 1 ≤ u → (whole_down u (k * u) ≡ k * u) × (whole_up u (k * u) ≡ k * u)
whole-multiple u k h =
    let d : k * u / u ≡ k = mul-div_cancel k h in
    let r : k * u % u ≡ 0 = mul-mod_left k u in
    (ap (λ (i : ℕ). i * u) d, whole_up-rest (k * u) u h ∙ rw (r, d) refl)

pub whole-small : (u m : ℕ) → 0 < m → m < u → (whole_down u m ≡ 0) × (whole_up u m ≡ u)
whole-small u m h l =
    let d : m / u ≡ 0 = div-eq_of_lt l in
    let r : m % u ≡ m = mod-eq_of_lt l in
    let some_rest : (m == 0) ≡ false = ground arith in
    (rw d (omega arith), whole_up-rest m u (omega arith) ∙ rw (r, d, some_rest) (omega arith))

-- The nearest multiple, the upper one for a rest of a half.
abbrev pub whole_away : ℕ → ℕ → ℕ
whole_away u m = (2 * m + u) / (2 * u) * u

whole_away-rest :
    (m u : ℕ) → 1 ≤ u → whole_away u m ≡ (if leb u (2 * (m % u)) then m / u * u + u else m / u * u)
whole_away-rest m u h =
    let parts = div-add-mod m u in
    let s = mod-lt m h in
    let swap = mul_comm u (m / u) in
    let twice : m / u * (2 * u) ≡ 2 * (m / u * u) = grind arith in
    let twice_more : (m / u + 1) * (2 * u) ≡ 2 * (m / u * u) + 2 * u = grind arith in
    elim (Bool-cases (leb u (2 * (m % u)))) [
      | inl z ↦
          let more : (m / u + 1) * u ≡ m / u * u + u = grind arith in
          let e : 2 * m + u ≡ 2 * (m % u) - u + (m / u + 1) * (2 * u) = ground arith in
          let none : (2 * (m % u) - u) / (2 * u) ≡ 0 = div-eq_of_lt (omega arith) in
          let t : (2 * m + u) / (2 * u) ≡ m / u + 1 =
            ap (λ (k : ℕ). k / (2 * u)) e
            ∙ add-mul-div_right (2 * (m % u) - u) (m / u + 1) (omega arith)
            ∙ rw none (omega arith) in
          rw (z, t) more
      | inr z ↦
          let e : 2 * m + u ≡ 2 * (m % u) + u + m / u * (2 * u) = ground arith in
          let none : (2 * (m % u) + u) / (2 * u) ≡ 0 = div-eq_of_lt (ground arith) in
          let t : (2 * m + u) / (2 * u) ≡ m / u =
            ap (λ (k : ℕ). k / (2 * u)) e
            ∙ add-mul-div_right (2 * (m % u) + u) (m / u) (omega arith)
            ∙ rw none (omega arith) in
          rw (z, t) refl
    ]

pub nearest_away :
    (m r h : ℕ)
    → 1 ≤ h
    → ((r ≡ m / (2 * h)) × (2 * (m % (2 * h)) ≤ 2 * h))
      ⊎ ((r ≡ m / (2 * h) + 1) × (2 * h ≤ 2 * (m % (2 * h))))
    → (r * (2 * h) ≤ m + h)
      × ((if leb (r * (2 * h) + h) m then r * (2 * h) + 2 * h else r * (2 * h))
          ≡ whole_away (2 * h) m)
nearest_away m r h p c =
    let u = 2 * h in
    let parts = div-add-mod m u in
    let pos_u : 1 ≤ u = omega arith in
    let s = mod-lt m pos_u in
    let swap = mul_comm u (m / u) in
    let away = whole_away-rest m u (omega arith) in
    elim c [
      | inl (e, n) ↦
          let t : r * u ≡ m / u * u = ap (λ (k : ℕ). k * u) e in (ground arith, ground arith)
      | inr (e, n) ↦
          let t : r * u ≡ (m / u + 1) * u = ap (λ (k : ℕ). k * u) e in
          let w : (m / u + 1) * u ≡ m / u * u + u = grind arith in (ground arith, ground arith)
    ]

pub away-multiple : (u k : ℕ) → 1 ≤ u → whole_away u (k * u) ≡ k * u
away-multiple u k h =
    let d : k * u / u ≡ k = mul-div_cancel k h in
    let r : k * u % u ≡ 0 = mul-mod_left k u in
    let none : leb u (2 * 0) ≡ false = ground arith in
    whole_away-rest (k * u) u h ∙ rw (r, d, none) refl

pub away-small : (u m : ℕ) → 2 * m < u → whole_away u m ≡ 0
away-small u m h =
    let d : m / u ≡ 0 = div-eq_of_lt (omega arith) in
    let r : m % u ≡ m = mod-eq_of_lt (omega arith) in
    let none : leb u (2 * m) ≡ false = ground arith in
    whole_away-rest m u (omega arith) ∙ rw (r, d, none) (omega arith)
