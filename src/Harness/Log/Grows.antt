-- ===== src/Harness/Log/Grows.antt =====
-- The log only grows, inside its buffer.
use wasm_cxx_shim.Prelude.{
  ℕ, zero, suc, ◌+◌, ◌-◌, ◌%◌, ◌^◌, ◌≤◌, ◌<◌, ◌≡◌, refl, leb, ltb, ◌&&◌, if◌then◌else◌, arith, ap,
  Bool-cases, inl, inr, List, [], ◌∷◌, some, leb→le, leb→gt,
}
use Prim.Native.Nat.{min}
use wasm_cxx_shim.Prelude.Lists.{length, get_or, take, length-take}
use wasm_cxx_shim.Memory.{Memory, store}
use wasm_cxx_shim.Harness.Format.{Arg, as_int}
use wasm_cxx_shim.Harness.Format.Render.{Renders, get_or-cons, printed_text, vsnprintf_lem}
use wasm_cxx_shim.Harness.Log.{Log, log_cap, logged, log_printf, put_text, log_str}

-- Nothing logged is changed, and nothing outside the buffer.
pub record Grows (l l' : Log) : Type 0 where
  pub more : l.size ≤ l'.size
  pub within : l'.size ≤ log_cap
  pub kept : (a : ℕ) → a < l.size → l'.buffer a ≡ l.buffer a
  pub outside : (a : ℕ) → log_cap ≤ a → l'.buffer a ≡ l.buffer a

pub Grows-refl : {l : Log} → l.size ≤ log_cap → Grows l l
Grows-refl h = record { more = omega arith; within = h; kept = λ a p. refl; outside = λ a p. refl }

pub Grows-trans : {l l' l'' : Log} → Grows l l' → Grows l' l'' → Grows l l''
Grows-trans g g' = record {
  more = omega (arith, g.more, g'.more);
  within = g'.within;
  kept = λ a p. ground (arith, g.kept a, g'.kept a, g.more);
  outside = λ a p. ground (arith, g.outside a, g'.outside a);
}

-- A text is logged as far as it fits, with its own bytes before `stop`.
pub record Logged (stop : ℕ) (t : List ℕ) (l l' : Log) : Type 0 where
  pub grows : Grows l l'
  pub size_eq : l'.size ≡ l.size + min (length t) (log_cap - l.size)
  pub text : (i : ℕ) → i < length t → l.size + i < stop → l'.buffer (l.size + i) ≡ get_or t i 0

-- What a call of `wcs_log_printf` with the text `t` leaves: the text, where its length is an `int`, and
-- a NUL behind it or in the last byte of the buffer. The end of the log stays for a longer text.
pub record Appended (t : List ℕ) (l l' : Log) : Type 0 where
  pub grows : Grows l l'
  pub logs : length t < 2 ^ 31 → Logged (log_cap - 1) t l l'
  pub nul : l.size < log_cap → l'.buffer (l.size + min (length t) (log_cap - l.size - 1)) ≡ 0
  pub refused : 2 ^ 31 ≤ length t → l'.size ≡ l.size

full-Appended : (t : List ℕ) (l : Log) → l.size ≡ log_cap → Appended t l l
full-Appended t l full = record {
  grows = Grows-refl (omega arith);
  logs = λ p. record {
    grows = Grows-refl (omega arith);
    size_eq = omega arith;
    text = λ i q r. absurd (omega arith);
  };
  nul = λ p. absurd (omega arith);
  refused = λ p. refl;
}

-- The buffer after `t` is printed at the end of the log, and an end of the log.
module _ (t : List ℕ) (l : Log) (m : Memory) (size : ℕ) where
  printed-Grows :
      ((a : ℕ) → m a ≡ printed_text l.buffer l.size (log_cap - l.size) t a)
      → l.size ≤ size
      → size ≤ log_cap
      → Grows l (record { buffer = m; size = size })
  unfolding printed_text
  printed-Grows wrote low high = record {
    more = low;
    within = high;
    kept = λ a p. ground (arith, wrote a);
    outside = λ a p. ground (arith, wrote a);
  }

  printed-text :
      ((a : ℕ) → m a ≡ printed_text l.buffer l.size (log_cap - l.size) t a)
      → (i : ℕ) → i < length t
      → l.size + i < log_cap - 1
      → m (l.size + i) ≡ get_or t i 0
  unfolding printed_text
  printed-text wrote i p q =
      let index : l.size + i - l.size ≡ i = omega arith in
      ground (arith, wrote (l.size + i), ap (λ (j : ℕ). get_or t j 0) index)

  printed-nul :
      ((a : ℕ) → m a ≡ printed_text l.buffer l.size (log_cap - l.size) t a)
      → l.size < log_cap
      → m (l.size + min (length t) (log_cap - l.size - 1)) ≡ 0
  unfolding printed_text
  printed-nul wrote p = ground (arith, wrote (l.size + min (length t) (log_cap - l.size - 1)))

  printed-Appended :
      ((a : ℕ) → m a ≡ printed_text l.buffer l.size (log_cap - l.size) t a)
      → l.size < log_cap
      → size ≡ l.size + (if ltb (length t) (2 ^ 31) then min (length t) (log_cap - l.size) else 0)
      → Appended t l (record { buffer = m; size = size })
  printed-Appended wrote space moved =
      let grows = printed-Grows wrote (omega arith) (ground arith) in
      record {
        grows = grows;
        logs = λ p. record { grows = grows; size_eq = ground arith; text = printed-text wrote };
        nul = printed-nul wrote;
        refused = λ p. ground arith;
      }

-- `wcs_log_printf` of a text of less than 2 ^ 32 bytes returns how far it moves the end of the log: by
-- the whole text, or to the end of the buffer, where the length is below 2 ^ 31, and not at all for a
-- longer one, whose length is negative as an `int`. In the first case it writes the text at the old
-- end, up to the last byte of the buffer. It puts a NUL behind what fits, changes no byte logged
-- before and none outside the buffer, and the end stays in the buffer.
pub log_printf-Logged :
    (fmt : List ℕ) (args : List Arg) (t : List ℕ) (l : Log)
    → l.size ≤ log_cap
    → Renders fmt args t
    → length t < 2 ^ 32
    → (l' : Log) × (log_printf fmt args l ≡ some (l', l'.size - l.size)) × Appended t l l'
unfolding log_printf
log_printf-Logged fmt args t l h r short = elim (Bool-cases (leb log_cap l.size)) [
  | inl full ↦
      let at_cap = leb→le log_cap l.size full in
      let nothing : l.size - l.size ≡ 0 = omega arith in
      (l, rw (full, nothing), full-Appended t l (omega arith))
  | inr room ↦
      let space = leb→gt log_cap l.size room in
      let avail = log_cap - l.size in
      let (m, e, wrote) = vsnprintf_lem l.buffer l.size avail fmt args t (omega arith) r short in
      elim (Bool-cases (ltb (length t) (2 ^ 31))) [
        | inl fits ↦
            let moved = if ltb avail (length t) then avail else length t in
            let moved_eq : moved ≡ min (length t) avail = ground arith in
            let back : l.size + moved - l.size ≡ moved = omega arith in
            (
              record { buffer = m; size = l.size + moved },
              rw (room, e, back) (unfold logged as_int in rw fits refl),
              printed-Appended t l m (l.size + moved) wrote space (rw (fits, moved_eq) refl),
            )
        | inr long ↦
            let nothing : l.size - l.size ≡ 0 = omega arith in
            (
              record { buffer = m; size = l.size },
              rw (room, e, nothing) (unfold logged as_int in rw long refl),
              printed-Appended t l m l.size wrote space (rw long (omega arith)),
            )
      ]
]

mem-put_text :
    (s : List ℕ) (dst : ℕ) (m : Memory) (a : ℕ)
    → put_text dst s m a
      ≡ (if leb dst a && ltb a (dst + length s) then get_or s (a - dst) 0 else m a)
unfolding put_text store
mem-put_text [] dst m a = ground arith
mem-put_text (c ∷ s) dst m a = ground (
  arith,
  mem-put_text s (dst + 1) (store m dst c) a,
  get_or-cons c s (a - dst),
  ap (λ (i : ℕ). get_or s i 0) (shift dst a),
)
  where
    shift : (d b : ℕ) → b - d - 1 ≡ b - (d + 1)
    shift d b = omega arith

get_or-take : (n : ℕ) (s : List ℕ) (i : ℕ) → i < n → get_or (take n s) i 0 ≡ get_or s i 0
get_or-take zero s i h = elim h [ ]
get_or-take (suc n) [] i h = refl
get_or-take (suc n) (c ∷ s) zero h = refl
get_or-take (suc n) (c ∷ s) (suc i) h = get_or-take n s i (omega arith)

-- `wcs_log_str` logs a text whose length is an `int`, up to and with the last byte of the buffer. It
-- changes no byte logged before and none outside the buffer, and the end stays in the buffer.
pub log_str-Logged :
    (s : List ℕ) (l : Log) → l.size ≤ log_cap → length s < 2 ^ 31 → Logged log_cap s l (log_str s l)
unfolding log_str
log_str-Logged s l h short = elim (Bool-cases (leb log_cap l.size)) [
  | inl full ↦
      let at_cap = leb→le log_cap l.size full in
      rw full (record {
        grows = Grows-refl h;
        size_eq = omega arith;
        text = λ i p q. absurd (omega arith);
      })
  | inr room ↦
      let space = leb→gt log_cap l.size room in
      let avail = log_cap - l.size in
      let len = if ltb (length s) (2 ^ 31) && ltb avail (length s) then avail else length s in
      let len_eq : len ≡ min (length s) avail = ground arith in
      let taken = length-take len s in
      let wrote = mem-put_text (take len s) l.size l.buffer in
      let end : (l.size + len) % 2 ^ 32 ≡ l.size + len = omega arith in
      rw (room, end)
        (record {
          grows = record {
            more = omega arith;
            within = omega arith;
            kept = λ a p. ground (arith, wrote a);
            outside = λ a p. ground (arith, wrote a);
          };
          size_eq = omega arith;
          text = λ i p q.
              let index : l.size + i - l.size ≡ i = omega arith in
              ground (
                arith,
                wrote (l.size + i),
                ap (λ (j : ℕ). get_or (take len s) j 0) index,
                get_or-take len s i,
              );
        })
]
