-- ===== src/Libcxx/New/Session.antt =====
-- A client of `new` and `delete`: the blocks that it holds stay apart.
use wasm_cxx_shim.Prelude.{
  ℕ, ◌≡◌, ◌≢◌, ◌==◌, List, ◌∷◌, refl, arith, false, Bool-cases, inl, inr, ◌∙◌, subst, ap,
}
use wasm_cxx_shim.Libc.Dlmalloc.{Engine, malloc, free, aligned_alloc}
use wasm_cxx_shim.Libc.Dlmalloc.Blocks.{Block, Documented}
use wasm_cxx_shim.Libcxx.New.{
  allocated, trapped, checked, operator_new, operator_new_array, operator_new_aligned,
  operator_new_nothrow, operator_delete,
}
use wasm_cxx_shim.Libcxx.New.Holding.{
  Holds, Held, drop_block, Holds-keeps, malloc-Holds, aligned_alloc-Holds, Held-In,
  drop_block-Holds,
}

module _ (e : Engine) where
  -- A step of the client, on the heap and the blocks that it holds.
  pub data Step : e.Heap → List Block → e.Heap → List Block → Type 0 where
    create :
        {h h' : e.Heap} {bs : List Block} {p : ℕ} (n : ℕ)
        → operator_new e h n ≡ allocated h' p
        → Step h bs h' (record { start = p; size = n } ∷ bs)
    create_array :
        {h h' : e.Heap} {bs : List Block} {p : ℕ} (n : ℕ)
        → operator_new_array e h n ≡ allocated h' p
        → Step h bs h' (record { start = p; size = n } ∷ bs)
    create_aligned :
        {h h' : e.Heap} {bs : List Block} {p : ℕ} (n a : ℕ)
        → operator_new_aligned e h n a ≡ allocated h' p
        → Step h bs h' (record { start = p; size = n } ∷ bs)
    create_nothrow :
        {h h' : e.Heap} {bs : List Block} {p : ℕ} (n : ℕ)
        → operator_new_nothrow e h n ≡ (h', p)
        → p ≢ 0
        → Step h bs h' (record { start = p; size = n } ∷ bs)
    refuse_nothrow :
        {h h' : e.Heap} {bs : List Block} (n : ℕ)
        → operator_new_nothrow e h n ≡ (h', 0)
        → Step h bs h' bs
    destroy :
        {h h' : e.Heap} {bs : List Block} (b : Block)
        → Held b bs
        → operator_delete e h b.start ≡ h'
        → Step h bs h' (drop_block b.start bs)
    destroy_null : {h h' : e.Heap} {bs : List Block} → operator_delete e h 0 ≡ h' → Step h bs h' bs

  pub data Reach (h : e.Heap) (bs : List Block) : e.Heap → List Block → Type 0 where
    here : Reach h bs h bs
    next :
        {h' h'' : e.Heap} {bs' bs'' : List Block}
        → Reach h bs h' bs'
        → Step h' bs' h'' bs''
        → Reach h bs h'' bs''

module _ (e : Engine) (d : Documented e) where
  no_null : (q : ℕ) → q ≡ 0 → (q == 0) ≡ false → ⊥
  no_null q z full = ground arith

  checked_parts :
      (r : e.Heap × ℕ) (h' : e.Heap) (p : ℕ)
      → checked e r ≡ allocated h' p
      → (r ≡ (h', p)) × (p ≢ 0)
  unfolding checked
  checked_parts (h, q) h' p eq = elim (Bool-cases (q == 0)) [
    | inl null ↦
        let t : checked e (h, q) ≡ trapped = rw (null, checked) refl in let no : ⊥ = cc in absurd no
    | inr full ↦
        let t : checked e (h, q) ≡ allocated h q = rw (full, checked) refl in
        let parts : (h, q) ≡ (h', p) = cc in
        let same : q ≡ p = ap (λ (r : e.Heap × ℕ). r.1) parts in
        (parts, λ z. absurd (no_null q (same ∙ z) full))
  ]

  -- Every step of the client keeps its blocks allocated and apart.
  Step-Holds :
      (h h' : e.Heap) (bs bs' : List Block) → Step e h bs h' bs' → Holds d h bs → Holds d h' bs'
  unfolding operator_new operator_new_array operator_new_aligned operator_new_nothrow
      operator_delete malloc free
  Step-Holds h h' bs bs' (create {p = p} n eq) v =
      let (parts, some_p) = checked_parts (malloc e h n) h' p eq in
      malloc-Holds e d h n bs (h', p) parts some_p v
  Step-Holds h h' bs bs' (create_array {p = p} n eq) v =
      let (parts, some_p) = checked_parts (malloc e h n) h' p eq in
      malloc-Holds e d h n bs (h', p) parts some_p v
  Step-Holds h h' bs bs' (create_aligned {p = p} n a eq) v =
      let (parts, some_p) = checked_parts (aligned_alloc e h a n) h' p eq in
      aligned_alloc-Holds e d h a n bs (h', p) parts some_p v
  Step-Holds h h' bs bs' (create_nothrow {p = p} n eq some_p) v =
      malloc-Holds e d h n bs (h', p) eq some_p v
  Step-Holds h h' bs bs' (refuse_nothrow n eq) v =
      subst (λ (q : e.Heap × ℕ). Holds d q.0 bs) eq
        (Holds-keeps e d h (e.dlmalloc h n).0 bs (d.malloc_keeps h n) v)
  Step-Holds h h' bs bs' (destroy b held eq) v =
      subst (λ q. Holds d q (drop_block b.start bs)) eq
        (drop_block-Holds e d h b bs (Held-In e d h b bs held v) held v)
  Step-Holds h h' bs bs' (destroy_null eq) v =
      subst (λ q. Holds d q bs) eq (Holds-keeps e d h (e.dlfree h 0) bs (d.free_null h) v)

  -- From a heap whose held blocks are allocated, at no null pointer and two by two apart, every sequence
  -- of `new`, `new[]`, aligned `new`, nothrow `new` and `delete` of a held block or of null keeps the
  -- held blocks so.
  pub Reach-Holds :
      (h : e.Heap) (bs : List Block)
      → Holds d h bs
      → (h' : e.Heap) (bs' : List Block) → Reach e h bs h' bs'
      → Holds d h' bs'
  Reach-Holds h bs v h' bs' here = v
  Reach-Holds h bs v h' bs' (next {h' = k} {bs' = cs} r step) =
      Step-Holds k h' cs bs' step (Reach-Holds h bs v k cs r)
