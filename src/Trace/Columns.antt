-- ===== src/Trace/Columns.antt =====
-- lib/psa.cpp: what `next` returns: the words of each processor in the order of the file, up to
-- its end tag.
use psa.Prelude.{
  ℕ, zero, suc, ◌+◌, ◌*◌, ◌^◌, ◌≤◌, ◌<◌, ◌≡◌, ◌≢◌, Bool, true, List, [], ◌∷◌, ◌++◌, refl, some,
  ◌&&◌, not, ◌∙◌, if◌then◌else◌, ◌==◌, length, get_or, arith, ltb, leb, Bool-cases, inl, inr,
  length-set, get_or-set_self, get_or-set_ne, ℕ_discrete, fun_ext,
}
use psa.Trace.{
  TraceFile, Entry, nop, ok, open_trace, word_at, decode, is_end, next, get_proc_count, reads,
}
use psa.Trace.Opening.{open_trace-IsOpened, length-start_positions, get_or-start_positions}

-- The words of a file of `procs` processors: the place of the `k`-th word of `pid`.
abbrev pub slot : ℕ → ℕ → ℕ → ℕ
slot procs pid k = 8 + 4 * pid + 4 * procs * k

-- The `k`-th word is whole, and no end tag.
pub alive_at : List ℕ → ℕ → Bool
alive_at bytes p = leb (p + 4) (length bytes) && not (is_end (decode (word_at bytes p)).type)

-- The first `k` words of `pid` are whole, and none is an end tag.
pub alive : List ℕ → ℕ → ℕ → ℕ → Bool
unfolding alive_at
alive bytes procs pid zero = true
alive bytes procs pid (suc k) = alive bytes procs pid k && alive_at bytes (slot procs pid k)

-- A trace has no more words than its file has bytes.
pub alive-le :
    (bytes : List ℕ) (procs pid k : ℕ)
    → 0 < procs
    → alive bytes procs pid k ≡ true
    → k ≤ length bytes
unfolding alive
alive-le bytes procs pid zero pos h = omega arith
alive-le bytes procs pid (suc k) pos h =
    let last : slot procs pid k + 4 ≤ length bytes = ground arith in
    let many : k ≤ procs * k = grind arith in omega arith

-- How many of the calls are for `pid`.
abbrev pub calls_of : ℕ → List (ℕ × Entry) → ℕ
calls_of pid [] = 0
calls_of pid ((q, e) ∷ calls) = (if q == pid then 1 else 0) + calls_of pid calls

-- The state after `k pid` calls for each `pid`.
pub record IsAt (bytes : List ℕ) (procs : ℕ) (k : ℕ → ℕ) (t : TraceFile) : Type 0 where
  pub few : procs < 2 ^ 30
  pub input : t.input ≡ bytes
  pub endstream : t.endstream ≡ length bytes
  pub count : length t.positions ≡ procs
  pub position :
      (pid : ℕ)
      → pid < procs
      → get_or t.positions pid 0
        ≡ (if alive bytes procs pid (k pid) then slot procs pid (k pid) else 0)

-- What a call for `pid` returns after `k` others for it.
abbrev pub column_entry : List ℕ → ℕ → ℕ → ℕ → Entry → Entry
column_entry bytes procs pid k e =
    let p = slot procs pid k in
    let word = decode (word_at bytes p) in
    if alive bytes procs pid k
    then if ltb (length bytes) (p + 4)
      then record e { type = nop }
      else if is_end word.type
      then record word { type = nop }
      else word
    else record { type = nop; addr = 0 }

module _ {bytes : List ℕ} {procs : ℕ} {k : ℕ → ℕ} {t : TraceFile} (at : IsAt bytes procs k t) where
  next_lem :
      (pid : ℕ) (e : Entry)
      → pid < procs
      → ((next t pid e).0 ≡ true) × ((next t pid e).1 ≡ column_entry bytes procs pid (k pid) e)
  unfolding next
  next_lem pid e lt = elim (Bool-cases (alive bytes procs pid (k pid))) [
    | inl live ↦
        let e' : get_or t.positions pid 0 ≡ slot procs pid (k pid) = at.position pid lt ∙ rw live in
        ground (arith, at.position pid lt)
    | inr dead ↦
        let e' : get_or t.positions pid 0 ≡ 0 = at.position pid lt ∙ rw dead in
        ground (arith, at.position pid lt)
  ]

  -- One more call for `pid`.
  bumped : ℕ → ℕ → ℕ
  bumped pid q = if q == pid then suc (k q) else k q

  bumped_self : (pid : ℕ) → bumped pid pid ≡ suc (k pid)
  unfolding bumped
  bumped_self pid = ground arith

  bumped_other : (pid q : ℕ) → q ≢ pid → bumped pid q ≡ k q
  unfolding bumped
  bumped_other pid q ne = ground arith

  position_self :
      (pid : ℕ) (e : Entry)
      → pid < procs
      → get_or (next t pid e).2.positions pid 0
        ≡ (if alive bytes procs pid (suc (k pid)) then slot procs pid (suc (k pid)) else 0)
  unfolding next alive
  position_self pid e lt = elim (Bool-cases (alive bytes procs pid (k pid))) [
    | inl live ↦
        let e' : get_or t.positions pid 0 ≡ slot procs pid (k pid) = at.position pid lt ∙ rw live in
        ground (
          arith,
          get_or-set_self t.positions pid 0 0,
          get_or-set_self t.positions pid (slot procs pid (k pid) + get_proc_count t * 4) 0,
        )
    | inr dead ↦
        let e' : get_or t.positions pid 0 ≡ 0 = at.position pid lt ∙ rw dead in ground (arith)
  ]

  position_other :
      (pid q : ℕ) (e : Entry)
      → q ≢ pid
      → get_or (next t pid e).2.positions q 0 ≡ get_or t.positions q 0
  unfolding next
  position_other pid q e ne = ground (
    arith,
    get_or-set_ne t.positions pid q 0 0,
    get_or-set_ne t.positions pid q (get_or t.positions pid 0 + get_proc_count t * 4) 0,
  )

  next_keeps :
      (pid : ℕ) (e : Entry)
      → ((next t pid e).2.input ≡ t.input)
        × ((next t pid e).2.endstream ≡ t.endstream)
        × (length (next t pid e).2.positions ≡ length t.positions)
  unfolding next
  next_keeps pid e = ground (
    arith,
    length-set t.positions pid 0,
    length-set t.positions pid (get_or t.positions pid 0 + get_proc_count t * 4),
  )

  next-IsAt : (pid : ℕ) (e : Entry) → IsAt bytes procs (bumped pid) (next t pid e).2
  next-IsAt pid e =
      let (same_input, same_end, same_count) = next_keeps pid e in
      record {
        few = at.few;
        input = same_input ∙ at.input;
        endstream = same_end ∙ at.endstream;
        count = same_count ∙ at.count;
        position = λ q lt. elim (ℕ_discrete q pid) [
          | yes same ↦ rw (same, bumped_self pid) (position_self pid e (rw same at lt))
          | no other ↦
              rw (bumped_other pid q other) (position_other pid q e other ∙ at.position q lt)
        ];
      }

pub reads-IsAt :
    {bytes : List ℕ} {procs : ℕ} (k k' : ℕ → ℕ) {t : TraceFile}
    → IsAt bytes procs k t
    → (calls : List (ℕ × Entry)) → ((pid : ℕ) → k' pid ≡ k pid + calls_of pid calls)
    → IsAt bytes procs k' (reads t calls)
unfolding reads
reads-IsAt k k' at [] e = let same : k' ≡ k = fun_ext (λ pid. omega (arith, e pid)) in rw same at
reads-IsAt k k' at ((pid, x) ∷ calls) e =
    reads-IsAt (bumped at pid) k' (next-IsAt at pid x) calls
      (λ q. unfold bumped in ground (arith, e q))

pub opened-IsAt :
    (garbage : ℕ) (bytes : List ℕ) {t : TraceFile}
    → word_at bytes 4 < 2 ^ 30
    → open_trace garbage (some bytes) ≡ ok t
    → IsAt bytes (word_at bytes 4) (λ _. 0) t
opened-IsAt garbage bytes {t} few h =
    let o = open_trace-IsOpened garbage bytes h in
    record {
      few = few;
      input = o.input;
      endstream = o.endstream;
      count = rw o.positions (length-start_positions _ 0);
      position = λ pid lt.
          rw (o.positions, get_or-start_positions (word_at bytes 4) 0 pid lt)
            (unfold alive in omega arith);
    }

-- On a file of fewer than 2 ^ 30 processors that opens, after any calls of `next` for any
-- processors, a call for `pid` succeeds and returns the entry of its own next word in the file, as
-- long as that and the words before it are whole and no end tags, and NOPs from then on.
pub next-column_entry :
    (garbage : ℕ) (bytes : List ℕ) (calls : List (ℕ × Entry)) (pid : ℕ) (e : Entry) {t : TraceFile}
    → word_at bytes 4 < 2 ^ 30
    → open_trace garbage (some bytes) ≡ ok t
    → pid < word_at bytes 4
    → ((next (reads t calls) pid e).0 ≡ true)
      × ((next (reads t calls) pid e).1
          ≡ column_entry bytes (word_at bytes 4) pid (calls_of pid calls) e)
next-column_entry garbage bytes calls pid e few h lt =
    let at =
      reads-IsAt (λ _. 0) (λ q. calls_of q calls) (opened-IsAt garbage bytes few h) calls
        (λ q. omega arith) in
    next_lem at pid e lt

-- One call more
pub reads-last :
    (t : TraceFile) (calls : List (ℕ × Entry)) (pid : ℕ) (e : Entry)
    → reads t (calls ++ ((pid, e) ∷ [])) ≡ (next (reads t calls) pid e).2
unfolding reads
reads-last t [] pid e = refl
reads-last t ((q, x) ∷ calls) pid e = reads-last (next t q x).2 calls pid e

pub calls_of-append :
    (pid : ℕ) (xs ys : List (ℕ × Entry))
    → calls_of pid (xs ++ ys) ≡ calls_of pid xs + calls_of pid ys
calls_of-append pid [] ys = omega arith
calls_of-append pid ((q, e) ∷ xs) ys = omega (arith, calls_of-append pid xs ys)
