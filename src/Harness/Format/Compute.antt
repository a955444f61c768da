-- ===== src/Harness/Format/Compute.antt =====
-- The text of a format as a function, for formats that are known.
use wasm_cxx_shim.Prelude.{
  ℕ, zero, suc, ◌≡◌, true, false, ◌==◌, arith, Bool-cases, Option-cases, inl, inr, some, none,
  Option, List, [], ◌∷◌, ◌++◌, subst,
}
use wasm_cxx_shim.Harness.Format.{Arg, conversion}
use wasm_cxx_shim.Harness.Format.Render.{Renders, finished, plain, converts}

abbrev pub prepend : List ℕ → Option (List ℕ) → Option (List ℕ)
prepend s none = none
prepend s (some t) = some (s ++ t)

unfoldable pub rendered : ℕ → List ℕ → List Arg → Option (List ℕ)
rendered zero fmt args = none
rendered (suc f) [] args = some []
rendered (suc f) (c ∷ p) args = elim (c == b'%') [
  | false ↦ prepend (c ∷ []) (rendered f p args)
  | true ↦ elim (conversion p args) [
    | none ↦ none
    | some k ↦ prepend k.bytes (rendered f k.rest k.args)
  ]
]

pub rendered-Renders :
    (f : ℕ) (fmt : List ℕ) (args : List Arg) (t : List ℕ)
    → rendered f fmt args ≡ some t
    → Renders fmt args t
unfolding rendered
rendered-Renders zero fmt args t e = cc
rendered-Renders (suc f) [] args t e =
    let empty : [] ≡ t = cc in subst (Renders [] args) empty finished
rendered-Renders (suc f) (c ∷ p) args t e = elim (Bool-cases (c == b'%')) [
  | inr other ↦ elim (Option-cases (rendered f p args)) [
    | inl fails ↦ absurd (ground arith)
    | inr (u, e') ↦
        let eq : c ∷ u ≡ t = ground arith in
        subst (Renders (c ∷ p) args) eq (plain other (rendered-Renders f p args u e'))
  ]
  | inl percent ↦ elim (Option-cases (conversion p args)) [
    | inl fails ↦ absurd (ground arith)
    | inr (k, e') ↦ elim (Option-cases (rendered f k.rest k.args)) [
      | inl fails ↦ absurd (ground arith)
      | inr (u, e'') ↦
          let eq : t ≡ k.bytes ++ u = ground arith in
          converts k percent e' (rendered-Renders f k.rest k.args u e'') eq
    ]
  ]
]
