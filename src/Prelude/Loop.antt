-- ===== src/Prelude/Loop.antt =====
-- A `while` loop on fuel, and the rule by which an invariant and a falling measure prove it.
use wasm_cxx_shim.Prelude.Tests.{Bool-cases}
use Prim.Native.Nat.{ℕ, zero, suc, ◌≤◌, ◌<◌}
use mathlib.Core.Path.{◌≡◌}
use mathlib.Core.Bool.{Bool, true, false}
use mathlib.Core.Logic.{inl, inr}
use native.Mathlib.Omega.{arith}

module _ {ℓ} {S : Type ℓ} (test : S → Bool) (body : S → S) where
  -- The cases of an `elim` wait, so the loop stops where its test fails.
  unfoldable pub while : ℕ → S → S
  while zero s = s
  while (suc fuel) s = elim (test s) [ true ↦ while fuel (body s) | false ↦ s ]

  -- With fuel of at least the measure the loop ends by its test.
  pub while-Inv {κ} :
      (Inv : S → Type κ) (measure : S → ℕ)
      → ((s : S) → Inv s → test s ≡ true → Inv (body s) × (measure (body s) < measure s))
      → (fuel : ℕ) (s : S) → measure s ≤ fuel
      → Inv s
      → Inv (while fuel s) × (test (while fuel s) ≡ false)
  unfolding while
  while-Inv Inv measure keeps zero s h inv = elim (Bool-cases (test s)) [
    | inl go ↦ absurd (let next = keeps s inv go in omega arith)
    | inr stop ↦ (inv, stop)
  ]
  while-Inv Inv measure keeps (suc fuel) s h inv = elim (Bool-cases (test s)) [
    | inl go ↦
        let next = keeps s inv go in
        rw (go, while) (while-Inv Inv measure keeps fuel (body s) (omega arith) next.0)
    | inr stop ↦ rw (stop, while) (inv, stop)
  ]
