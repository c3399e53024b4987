-- ===== src/Trace/Termination.antt =====
-- lib/psa.cpp: every trace ends, so the loops that run `while(!tracefile_ptr->eof())` come to
-- their end.
use psa.Prelude.{
  ℕ, suc, ◌%◌, ◌^◌, ◌<◌, ◌≡◌, ◌≢◌, true, List, [], ◌∷◌, some, ◌⊎◌, length, get_or, arith,
  Bool-cases, inl, inr,
}
use psa.Trace.{
  TraceFile, Entry, nop, end, ok, open_trace, word_at, next, eof, reads, get_proc_count,
}
use psa.Trace.Ended.{AllZero}
use psa.Trace.Opening.{AllBytes, eof-AllZero}
use psa.Trace.Columns.{alive, calls_of, IsAt, alive-le, reads-IsAt, opened-IsAt}

AllZero-pointwise : (ps : List ℕ) → ((i : ℕ) → i < length ps → get_or ps i 0 ≡ 0) → AllZero ps
AllZero-pointwise [] h = tt
AllZero-pointwise (p ∷ ps) h =
    (h 0 (omega arith), AllZero-pointwise ps (λ i lt. h (suc i) (omega arith)))

-- On a file of bytes for fewer than 2 ^ 30 processors that opens while the counter holds 0, the end
-- is reported as soon as `next` has been called for each processor more often than the file has
-- bytes, in any order.
pub eof_reached :
    (bytes : List ℕ) (calls : List (ℕ × Entry)) {t : TraceFile}
    → AllBytes bytes
    → word_at bytes 4 < 2 ^ 30
    → open_trace 0 (some bytes) ≡ ok t
    → ((pid : ℕ) → pid < word_at bytes 4 → length bytes < calls_of pid calls)
    → eof (reads t calls) ≡ true
eof_reached bytes calls {t} all few h enough =
    (eof-AllZero bytes calls all h).1
      (AllZero-pointwise _ (λ pid lt. ended pid (rw at.count at lt)))
  where
    at : IsAt bytes (word_at bytes 4) (λ q. calls_of q calls) (reads t calls)
    at =
        reads-IsAt (λ _. 0) (λ q. calls_of q calls) (opened-IsAt 0 bytes few h) calls
          (λ q. omega arith)

    ended : (pid : ℕ) → pid < word_at bytes 4 → get_or (reads t calls).positions pid 0 ≡ 0
    ended pid lt = elim (Bool-cases (alive bytes (word_at bytes 4) pid (calls_of pid calls))) [
      | inl live ↦
          absurd (
            omega (arith, enough pid lt, alive-le bytes (word_at bytes 4) pid _ (omega arith) live))
      | inr dead ↦ let e = at.position pid lt in rw dead at e
    ]

-- For a processor of the file, a call succeeds and returns no end tag, and a request that it
-- returns is at an address aligned to words.
pub next-aligned :
    (t : TraceFile) (pid : ℕ) (e : Entry)
    → pid < get_proc_count t
    → ((next t pid e).0 ≡ true)
      × ((next t pid e).1.type ≢ end)
      × (((next t pid e).1.type ≡ nop) ⊎ ((next t pid e).1.addr % 4 ≡ 0))
unfolding next
next-aligned t pid e lt = ground arith
