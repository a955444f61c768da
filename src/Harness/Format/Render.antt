-- ===== src/Harness/Format/Render.antt =====
-- What the formatter prints: the text of a format and its arguments, cut to the buffer.
use wasm_cxx_shim.Prelude.{
  ℕ, zero, suc, ◌+◌, ◌-◌, ◌*◌, ◌%◌, ◌^◌, ◌≤◌, ◌<◌, ◌≡◌, ◌⊎◌, ◌∙◌, ap, refl, true, false, leb, ltb,
  ◌==◌, ◌&&◌, if◌then◌else◌, arith, Bool-cases, Option-cases, inl, inr, some, List, [], ◌∷◌, ◌++◌,
}
use Prim.Native.Nat.{min}
use wasm_cxx_shim.Prelude.Lists.{length, get_or}
use wasm_cxx_shim.Memory.{Memory, store}
use wasm_cxx_shim.Harness.Format.{
  Arg, Chunk, Out, element, as_int, done, bad_conversion, emit, emits, format, conversion,
  converted, take_argument, read_width, skip_z, terminate, printed, finish, vsnprintf,
}

-- `Renders fmt args t`: the full text of the format with these arguments is `t`.
pub data Renders : List ℕ → List Arg → List ℕ → Type 0 where
  finished : {args : List Arg} → Renders [] args []
  plain :
      {c : ℕ} {p : List ℕ} {args : List Arg} {t : List ℕ}
      → (c == b'%') ≡ false
      → Renders p args t
      → Renders (c ∷ p) args (c ∷ t)
  converts :
      {c : ℕ} {p : List ℕ} {args : List Arg} {t u : List ℕ} (k : Chunk)
      → (c == b'%') ≡ true
      → conversion p args ≡ some k
      → Renders k.rest k.args t
      → u ≡ k.bytes ++ t
      → Renders (c ∷ p) args u

length-skip_z : (p : List ℕ) → length (skip_z p) ≤ length p
unfolding skip_z
length-skip_z [] = omega arith
length-skip_z (c ∷ p) = ground arith

length-read_width :
    (w : ℕ) (p : List ℕ) (r : ℕ × List ℕ) → read_width w p ≡ some r → length r.1 ≤ length p
unfolding read_width
length-read_width w [] r e = ground arith
length-read_width w (c ∷ p) r e =
    let shorter = length-read_width (w * 10 + (c - b'0')) p r in ground arith

length-converted :
    (w : ℕ) (p : List ℕ) (args : List Arg) (k : Chunk)
    → converted w p args ≡ some k
    → length k.rest ≤ length p
unfolding converted take_argument
length-converted w [] args k e = ground arith
length-converted w (c ∷ p) [] k e = ground arith
length-converted w (c ∷ p) (a ∷ args) k e = ground arith

-- A conversion leaves no more of the format than it is given.
length-conversion :
    (p : List ℕ) (args : List Arg) (k : Chunk)
    → conversion p args ≡ some k
    → length k.rest ≤ length p
unfolding conversion
length-conversion p args k e = elim (Option-cases (read_width 0 p)) [
  | inl fails ↦ absurd (ground arith)
  | inr (r, e') ↦ omega (
    arith,
    length-converted r.0 (skip_z r.1) args k (rw e' at e),
    length-skip_z r.1,
    length-read_width 0 p r e',
  )
]

pub get_or-cons :
    (c : ℕ) (t : List ℕ) (i : ℕ) → get_or (c ∷ t) i 0 ≡ (if i == 0 then c else get_or t (i - 1) 0)
get_or-cons c t zero = refl
get_or-cons c t (suc i) = let same : suc i - 1 ≡ i = omega arith in rw same (ground arith)

module _ (dst n : ℕ) where
  emits-append :
      (s t : List ℕ) (out : Out) → emits dst n (s ++ t) out ≡ emits dst n t (emits dst n s out)
  unfolding emits
  emits-append [] t out = refl
  emits-append (c ∷ s) t out = emits-append s t (emit dst n c out)

  -- With fuel above the length of the format, the loop emits the text.
  format-Renders :
      (fuel : ℕ) {fmt : List ℕ} {args : List Arg} {t : List ℕ} (out : Out)
      → Renders fmt args t
      → length fmt < fuel
      → format dst n fuel fmt args out ≡ done (emits dst n t out)
  unfolding format emits
  format-Renders zero out r h = elim h [ ]
  format-Renders (suc f) out finished h = refl
  format-Renders (suc f) out (plain {c = c} other r) h =
      rw (other, format) (format-Renders f (emit dst n c out) r (omega arith))
  format-Renders (suc f) out (converts {p = p} {args = args} {t = t} k percent e r u_eq) h =
      let shorter = length-conversion p args k e in
      rw (percent, format)
        (rw (e, format)
          (format-Renders f (emits dst n k.bytes out) r (omega arith)
            ∙ rw (u_eq, emits-append k.bytes t out)))

  -- With that fuel the loop never runs out: the format renders, or an argument does not fit.
  format-total :
      (fuel : ℕ) (fmt : List ℕ) (args : List Arg) (out : Out)
      → length fmt < fuel
      → ((t : List ℕ) × Renders fmt args t) ⊎ (format dst n fuel fmt args out ≡ bad_conversion)
  unfolding format
  format-total zero fmt args out h = elim h [ ]
  format-total (suc f) [] args out h = inl ([], finished)
  format-total (suc f) (c ∷ p) args out h = elim (Bool-cases (c == b'%')) [
    | inr other ↦ elim (format-total f p args (emit dst n c out) (omega arith)) [
      | inl (t, r) ↦ inl (c ∷ t, plain other r)
      | inr bad ↦ inr (rw (other, format) bad)
    ]
    | inl percent ↦ elim (Option-cases (conversion p args)) [
      | inl e ↦ inr (rw (percent, format) (rw (e, format)))
      | inr (k, e) ↦
          let shorter = length-conversion p args k e in
          elim (format-total f k.rest k.args (emits dst n k.bytes out) (omega arith)) [
            | inl (t, r) ↦ inl (k.bytes ++ t, converts k percent e r refl)
            | inr bad ↦ inr (rw (percent, format) (rw (e, format) bad))
          ]
    ]
  ]

  -- Below the wrap of `w`, a byte goes to the place after those before it.
  emit-at :
      (c : ℕ) (out : Out) (a : ℕ)
      → out.w + 1 < 2 ^ 32
      → ((emit dst n c out).w ≡ out.w + 1)
        × ((emit dst n c out).mem a
            ≡ (if ltb (out.w + 1) n && a == element dst out.w then c else out.mem a))
  unfolding emit store
  emit-at c out a h =
      let same : (out.w + 1) % 2 ^ 32 ≡ out.w + 1 = omega arith in rw same (refl, ground arith)

  w-emits :
      (t : List ℕ) (out : Out)
      → out.w + length t < 2 ^ 32
      → (emits dst n t out).w ≡ out.w + length t
  unfolding emits
  w-emits [] out h = omega arith
  w-emits (c ∷ t) out h =
      let step = (emit-at c out 0 (omega arith)).0 in
      omega (arith, w-emits t (emit dst n c out) (omega arith))

  -- The byte at `a` after the text: a byte of it where it fits, and the old one elsewhere.
  mem-emits :
      (t : List ℕ) (out : Out) (a : ℕ)
      → dst + n ≤ 2 ^ 32
      → out.w + length t < 2 ^ 32
      → (emits dst n t out).mem a ≡ (
          if leb (dst + out.w) a && ltb a (dst + out.w + length t) && ltb (a + 1) (dst + n)
          then get_or t (a - (dst + out.w)) 0
          else out.mem a)
  unfolding emits
  mem-emits [] out a b h = ground arith
  mem-emits (c ∷ t) out a b h =
      let (w_eq, mem_eq) = emit-at c out a (omega arith) in
      let rest = mem-emits t (emit dst n c out) a b (omega arith) in
      let head = get_or-cons c t (a - (dst + out.w)) in
      let tail : get_or t (a - (dst + out.w) - 1) 0 ≡ get_or t (a - (dst + (out.w + 1))) 0 =
        ap (λ (i : ℕ). get_or t i 0) (shift out.w a) in
      rest ∙ rw (w_eq, mem_eq) (ground arith)
    where
      shift : (w b : ℕ) → b - (dst + w) - 1 ≡ b - (dst + (w + 1))
      shift w b = omega arith

-- The memory after `t` is printed into the `n` bytes at `dst`: as many bytes of it as leave room for
-- the NUL, the NUL behind them, and nothing else.
unfoldable pub printed_text : Memory → ℕ → ℕ → List ℕ → Memory
printed_text m dst n t a =
    if leb dst a && ltb a (dst + min (length t) (n - 1)) && ltb 0 n
    then get_or t (a - dst) 0
    else if a == dst + min (length t) (n - 1) && ltb 0 n
    then 0
    else m a

module _ (m : Memory) (dst n : ℕ) (fmt : List ℕ) (args : List Arg) where
  abbrev start : Out
  start = record { mem = m; w = 0 }

  terminate-emits :
      (t : List ℕ) (a : ℕ)
      → dst + n ≤ 2 ^ 32
      → length t < 2 ^ 32
      → terminate dst n (emits dst n t start) a ≡ printed_text m dst n t a
  unfolding terminate printed_text store
  terminate-emits t a b h =
      let count = w-emits dst n t start (omega arith) in
      let wrote = mem-emits dst n t start a b (omega arith) in
      let index = ap (λ (i : ℕ). get_or t i 0) (shift a) in ground arith
    where
      shift : (b : ℕ) → b - (dst + 0) ≡ b - dst
      shift b = omega arith

  -- Where the `n` bytes at `dst` lie in the address space and the format renders as a text `t` of less
  -- than 2 ^ 32 bytes, `_wcs_vsnprintf` writes `t`, cut to `n - 1` bytes, with a NUL behind it if `n`
  -- is not 0, changes no other byte, and returns the length of the whole of `t` as an `int`, which is
  -- negative from 2 ^ 31 on.
  pub vsnprintf_lem :
      (t : List ℕ)
      → dst + n ≤ 2 ^ 32
      → Renders fmt args t
      → length t < 2 ^ 32
      → (m' : Memory) × (vsnprintf m dst n fmt args ≡ printed m' (as_int (length t)))
        × ((a : ℕ) → m' a ≡ printed_text m dst n t a)
  unfolding vsnprintf finish
  vsnprintf_lem t b r h =
      let ran = format-Renders dst n (suc (length fmt)) start r (omega arith) in
      let count : (emits dst n t start).w ≡ length t =
        omega (arith, w-emits dst n t start (omega arith)) in
      (terminate dst n (emits dst n t start), rw (ran, finish, count), λ a. terminate-emits t a b h)

  -- The loop over the format always ends, with a round more than the format has bytes: it has emitted
  -- the text as which the format renders, or it has come to a conversion that is undefined.
  pub vsnprintf_total :
      ((t : List ℕ) × Renders fmt args t
        × (format dst n (suc (length fmt)) fmt args start ≡ done (emits dst n t start)))
      ⊎ (format dst n (suc (length fmt)) fmt args start ≡ bad_conversion)
  vsnprintf_total = elim (format-total dst n (suc (length fmt)) fmt args start (omega arith)) [
    | inl (t, r) ↦ inl (t, r, format-Renders dst n (suc (length fmt)) start r (omega arith))
    | inr bad ↦ inr bad
  ]
