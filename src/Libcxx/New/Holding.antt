-- ===== src/Libcxx/New/Holding.antt =====
-- The blocks that a client of `new` and `delete` holds, and the calls of libc that change them.
use wasm_cxx_shim.Prelude.{
  ℕ, ◌≡◌, ◌≢◌, ◌⊎◌, ◌==◌, if◌then◌else◌, List, [], ◌∷◌, arith, Bool-cases, inl, inr, sym, ◌∙◌,
  subst, ap,
}
use wasm_cxx_shim.Libc.Dlmalloc.{Engine, malloc, free, aligned_alloc}
use wasm_cxx_shim.Libc.Dlmalloc.Blocks.{Block, Apart, Documented}

abbrev pub All {ℓ κ} : {A : Type ℓ} → (A → Type κ) → List A → Type κ
All P [] = Unit
All P (x ∷ xs) = P x × All P xs

-- The blocks of a list are allocated, at no null pointer, and two by two apart.
abbrev pub Holds : {e : Engine} → Documented e → e.Heap → List Block → Type 0
Holds d h [] = Unit
Holds d h (b ∷ bs) = d.In h b × (b.start ≢ 0) × All (λ c. Apart b c) bs × Holds d h bs

-- `b` is a block of the list.
abbrev pub Held : Block → List Block → Type 0
Held b [] = ⊥
Held b (c ∷ bs) = (b ≡ c) ⊎ Held b bs

-- `delete p` on the blocks that the client holds.
abbrev pub drop_block : ℕ → List Block → List Block
drop_block p [] = []
drop_block p (b ∷ bs) = if b.start == p then bs else b ∷ drop_block p bs

module _ (e : Engine) (d : Documented e) where
  pub Holds-keeps :
      (h h' : e.Heap) (bs : List Block)
      → ((b : Block) → d.In h b → d.In h' b)
      → Holds d h bs
      → Holds d h' bs
  Holds-keeps h h' [] k v = tt
  Holds-keeps h h' (b ∷ bs) k v = (k b v.0, v.1, v.2, Holds-keeps h h' bs k v.3)

  Holds-All :
      (h : e.Heap) (new : Block) (bs : List Block)
      → ((b : Block) → d.In h b → Apart new b)
      → Holds d h bs
      → All (λ c. Apart new c) bs
  Holds-All h new [] k v = tt
  Holds-All h new (b ∷ bs) k v = (k b v.0, Holds-All h new bs k v.3)

  -- A new block joins those that are held.
  grow-Holds :
      (h : e.Heap) (r : e.Heap × ℕ) (n : ℕ) (bs : List Block)
      → r.1 ≢ 0
      → d.In r.0 (record { start = r.1; size = n })
      → ((b : Block) → d.In h b → Apart (record { start = r.1; size = n }) b)
      → ((b : Block) → d.In h b → d.In r.0 b)
      → Holds d h bs
      → Holds d r.0 (record { start = r.1; size = n } ∷ bs)
  grow-Holds h r n bs some_p new apart keeps v = (
    new,
    some_p,
    Holds-All h (record { start = r.1; size = n }) bs apart v,
    Holds-keeps h r.0 bs keeps v,
  )

  pub malloc-Holds :
      (h : e.Heap) (n : ℕ) (bs : List Block) (r : e.Heap × ℕ)
      → malloc e h n ≡ r
      → r.1 ≢ 0
      → Holds d h bs
      → Holds d r.0 (record { start = r.1; size = n } ∷ bs)
  unfolding malloc
  malloc-Holds h n bs r eq some_p v =
      let some_q : (e.dlmalloc h n).1 ≢ 0 =
        λ z. some_p (sym (ap (λ (q : e.Heap × ℕ). q.1) eq) ∙ z) in
      subst (λ (q : e.Heap × ℕ). Holds d q.0 (record { start = q.1; size = n } ∷ bs)) eq
        (grow-Holds h (e.dlmalloc h n) n bs some_q (d.malloc_block h n some_q)
          (λ b held. d.malloc_apart h n b held some_q) (d.malloc_keeps h n) v)

  pub aligned_alloc-Holds :
      (h : e.Heap) (a n : ℕ) (bs : List Block) (r : e.Heap × ℕ)
      → aligned_alloc e h a n ≡ r
      → r.1 ≢ 0
      → Holds d h bs
      → Holds d r.0 (record { start = r.1; size = n } ∷ bs)
  unfolding aligned_alloc
  aligned_alloc-Holds h a n bs r eq some_p v =
      let some_q : (e.dlmemalign h a n).1 ≢ 0 =
        λ z. some_p (sym (ap (λ (q : e.Heap × ℕ). q.1) eq) ∙ z) in
      subst (λ (q : e.Heap × ℕ). Holds d q.0 (record { start = q.1; size = n } ∷ bs)) eq
        (grow-Holds h (e.dlmemalign h a n) n bs some_q (d.memalign_block h a n some_q)
          (λ b held. d.memalign_apart h a n b held some_q) (d.memalign_keeps h a n) v)

  pub Held-In : (h : e.Heap) (b : Block) (bs : List Block) → Held b bs → Holds d h bs → d.In h b
  Held-In h b [] held v = absurd held
  Held-In h b (c ∷ bs) (inl same) v = subst (d.In h) (sym same) v.0
  Held-In h b (c ∷ bs) (inr later) v = Held-In h b bs later v.3

  drop_block-All {ℓ} :
      (P : Block → Type ℓ) (p : ℕ) (bs : List Block) → All P bs → All P (drop_block p bs)
  drop_block-All P p [] v = tt
  drop_block-All P p (b ∷ bs) v = elim (Bool-cases (b.start == p)) [
    | inl same ↦ rw same v.1
    | inr other ↦ rw other (v.0, drop_block-All P p bs v.1)
  ]

  -- `free` of an allocated block leaves the blocks that are apart from it.
  free-Holds :
      (h : e.Heap) (a : Block) (bs : List Block)
      → d.In h a
      → All (λ c. c.start ≢ a.start) bs
      → Holds d h bs
      → Holds d (free e h a.start) bs
  unfolding free
  free-Holds h a [] live other v = tt
  free-Holds h a (b ∷ bs) live other v =
      (d.free_keeps h a b live v.0 other.0, v.1, v.2, free-Holds h a bs live other.1 v.3)

  Apart-All :
      (b c : Block) (bs : List Block)
      → c.start ≡ b.start
      → All (λ x. Apart c x) bs
      → All (λ x. x.start ≢ b.start) bs
  Apart-All b c [] same v = tt
  Apart-All b c (x ∷ bs) same v = (λ z. v.0.distinct (same ∙ sym z), Apart-All b c bs same v.1)

  pub drop_block-Holds :
      (h : e.Heap) (b : Block) (bs : List Block)
      → d.In h b
      → Held b bs
      → Holds d h bs
      → Holds d (free e h b.start) (drop_block b.start bs)
  unfolding free
  drop_block-Holds h b [] live held v = absurd held
  drop_block-Holds h b (c ∷ bs) live held v = elim (Bool-cases (c.start == b.start)) [
    | inl same ↦ rw same (free-Holds h b bs live (Apart-All b c bs (ground arith) v.2) v.3)
    | inr other ↦
        let different : c.start ≢ b.start = ground arith in
        let later : Held b bs = elim held [
          | inl same ↦ absurd (different (ap (λ (x : Block). x.start) (sym same)))
          | inr there ↦ there
        ] in
        rw other (
          d.free_keeps h b c live v.0 different,
          v.1,
          drop_block-All (λ x. Apart c x) b.start bs v.2,
          drop_block-Holds h b bs live later v.3,
        )
  ]
