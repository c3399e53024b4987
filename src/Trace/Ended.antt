-- ===== src/Trace/Ended.antt =====
-- lib/psa.cpp: the count of ended traces, and `eof`.
use psa.Prelude.{
  ℕ, zero, suc, ◌+◌, ◌*◌, ◌^◌, ◌≤◌, ◌<◌, ◌≡◌, ◌≢◌, refl, List, [], ◌∷◌, if◌then◌else◌, ◌==◌, length,
  get_or, set, u32, arith, length-set, ltb, leb, Bool-cases, inl, inr,
}
use psa.Trace.{TraceFile, Entry, get_proc_count, word_at, decode, is_end, finish, next, reads}

abbrev pub zero_bit : ℕ → ℕ
zero_bit p = if p == 0 then 1 else 0

-- How many traces have ended.
abbrev pub zeros : List ℕ → ℕ
zeros [] = 0
zeros (p ∷ ps) = zero_bit p + zeros ps

zeros-set :
    (ps : List ℕ) (i v : ℕ)
    → i < length ps
    → zeros (set ps i v) + zero_bit (get_or ps i 0) ≡ zeros ps + zero_bit v
zeros-set [] i v h = absurd (omega arith)
zeros-set (p ∷ ps) zero v h = omega arith
zeros-set (p ∷ ps) (suc i) v h = omega (arith, zeros-set ps i v (omega arith))

pub zeros-le : (ps : List ℕ) → zeros ps ≤ length ps
zeros-le [] = omega arith
zeros-le (zero ∷ ps) = ground (arith, zeros-le ps)
zeros-le (suc p ∷ ps) = ground (arith, zeros-le ps)

abbrev pub AllZero : List ℕ → Type 0
AllZero [] = Unit
AllZero (p ∷ ps) = (p ≡ 0) × AllZero ps

pub zeros_full : (ps : List ℕ) → zeros ps ≡ length ps → AllZero ps
zeros_full [] h = tt
zeros_full (zero ∷ ps) h = (refl, zeros_full ps (omega arith))
zeros_full (suc p ∷ ps) h = absurd (ground (arith, zeros-le ps))

pub zeros_of_AllZero : (ps : List ℕ) → AllZero ps → zeros ps ≡ length ps
zeros_of_AllZero [] h = refl
zeros_of_AllZero (zero ∷ ps) h = omega (arith, zeros_of_AllZero ps h.1)
zeros_of_AllZero (suc p ∷ ps) h = absurd (omega (arith, h.0))

-- `garbage` is what the counter held before the first read.
pub record IsTallied (garbage : ℕ) (t : TraceFile) : Type 0 where
  pub few : length t.positions < 2 ^ 32
  pub tally : t.num_finished ≡ u32 (garbage + zeros t.positions)

-- What a call of `next` may do to the state: nothing, end the trace of `pid`, or move it on.
pub data Effect (t : TraceFile) (pid : ℕ) : TraceFile → Type 0 where
  same : Effect t pid t
  ended : pid < length t.positions → get_or t.positions pid 0 ≢ 0 → Effect t pid (finish t pid)
  moved :
      pid < length t.positions
      → get_or t.positions pid 0 ≢ 0
      → Effect t pid (record t {
        positions = set t.positions pid (get_or t.positions pid 0 + get_proc_count t * 4);
      })

pub next-Effect : (t : TraceFile) (pid : ℕ) (e : Entry) → Effect t pid (next t pid e).2
unfolding next
next-Effect t pid e = elim (Bool-cases (leb (get_proc_count t) pid)) [
  | inl out ↦ rw out same
  | inr inside ↦ elim (Bool-cases (get_or t.positions pid 0 == 0)) [
    | inl done ↦ rw (inside, done) same
    | inr live ↦ elim (Bool-cases (ltb t.endstream (get_or t.positions pid 0 + 4))) [
      | inl short ↦ rw (inside, live, short) (ended (ground arith) (ground arith))
      | inr whole ↦
          elim (Bool-cases (is_end (decode (word_at t.input (get_or t.positions pid 0))).type)) [
            | inl last ↦ rw (inside, live, whole, last) (ended (ground arith) (ground arith))
            | inr more ↦ rw (inside, live, whole, more) (moved (ground arith) (ground arith))
          ]
    ]
  ]
]

Effect-IsTallied :
    {g : ℕ} {t t' : TraceFile} {pid : ℕ} → Effect t pid t' → IsTallied g t → IsTallied g t'
Effect-IsTallied same h = h
Effect-IsTallied {t} {pid} (ended lt live) h =
    ground (arith, zeros-set t.positions pid 0 lt, length-set t.positions pid 0)
Effect-IsTallied {t} {pid} (moved lt live) h =
    let v : ℕ = get_or t.positions pid 0 + get_proc_count t * 4 in
    ground (arith, zeros-set t.positions pid v lt, length-set t.positions pid v)

-- Every call of `next` keeps the count, whatever the processor and the entry.
pub next-IsTallied :
    (g : ℕ) (t : TraceFile) (pid : ℕ) (e : Entry) → IsTallied g t → IsTallied g (next t pid e).2
next-IsTallied g t pid e h = Effect-IsTallied (next-Effect t pid e) h

pub reads-IsTallied :
    (g : ℕ) (t : TraceFile) (calls : List (ℕ × Entry)) → IsTallied g t → IsTallied g (reads t calls)
unfolding reads
reads-IsTallied g t [] h = h
reads-IsTallied g t ((pid, e) ∷ calls) h =
    reads-IsTallied g (next t pid e).2 calls (next-IsTallied g t pid e h)
