-- ===== src/Trace/Tests.antt =====
-- lib/psa.cpp: runs of the trace reader on small files, and the theorems at them.
use psa.Prelude.{
  ℕ, zero, suc, ◌≡◌, ◌≢◌, ◌<◌, ◌%◌, refl, ◌↔◌, ◌⊎◌, true, false, List, [], ◌∷◌, ◌++◌, some, arith,
}
use psa.Trace.{
  Entry, nop, read, write, end, TraceFile, ok, err, unexpected_end, start_positions, open_trace,
  word_at, next, eof, reads, init_tracefile, started,
}
use psa.Trace.Ended.{AllZero}
use psa.Trace.Opening.{eof-AllZero, eof_garbage}
use psa.Trace.Columns.{calls_of, column_entry, next-column_entry}
use psa.Trace.Termination.{eof_reached, next-aligned}

abbrev header : ℕ → List ℕ
header n = 0x32 ∷ 0x54 ∷ 0x52 ∷ 0x46 ∷ 0 ∷ 0 ∷ 0 ∷ n ∷ []

-- Two processors: a read of 0x100 and an end tag; a write of 0x24, a NOP and the end of the file.
abbrev bytes : List ℕ
bytes = header 2 ++ 0 ∷ 0 ∷ 1 ∷ 1 ∷ 0 ∷ 0 ∷ 0 ∷ 0x26 ∷ 0 ∷ 0 ∷ 0 ∷ 3 ∷ 0 ∷ 0 ∷ 0 ∷ 0 ∷ []

abbrev opened : ℕ → TraceFile
opened garbage = record {
  input = bytes;
  positions = 8 ∷ 12 ∷ [];
  num_finished = garbage;
  endstream = 24;
}

bytes_open : (garbage : ℕ) → open_trace garbage (some bytes) ≡ ok (opened garbage)
unfolding open_trace start_positions word_at
bytes_open garbage = refl

abbrev any : Entry
any = record { type = nop; addr = 0 }

abbrev calls : List (ℕ × Entry)
calls = (1, any) ∷ (0, any) ∷ (1, any) ∷ (0, any) ∷ (1, any) ∷ []

first_read : (next (opened 0) 0 any).1 ≡ record { type = read; addr = 0x100 }
unfolding next word_at
first_read = refl

first_write : (next (opened 0) 1 any).1 ≡ record { type = write; addr = 0x24 }
unfolding next word_at
first_write = refl

all_read : (reads (opened 0) calls).positions ≡ 0 ∷ 0 ∷ []
unfolding reads next word_at
all_read = refl

-- A file with one word for its only processor is refused.
one_word : open_trace 0 (some (header 1 ++ 0 ∷ 0 ∷ 0 ∷ 3 ∷ [])) ≡ err unexpected_end
unfolding open_trace start_positions word_at
one_word = refl

not_a_trace : open_trace 0 (some (header 1 ++ [])) ≡ err unexpected_end
unfolding open_trace start_positions word_at
not_a_trace = refl

-- Of three arguments one is left, and `argc` says two.
argc_and_argv :
    init_tracefile {A = ℕ} (λ _. some bytes) 0 3 (0 ∷ 1 ∷ 2 ∷ [])
    ≡ started (record { tracefile = opened 0; num_cpus = 2; argc = 2; argv = 2 ∷ [] })
unfolding init_tracefile open_trace start_positions word_at
argc_and_argv = refl

eof-AllZero_example :
    (eof (reads (opened 0) calls) ≡ true) ↔ AllZero (reads (opened 0) calls).positions
eof-AllZero_example = eof-AllZero bytes calls (omega arith) (bytes_open 0)

eof_garbage_example : eof (reads (opened 7) calls) ≡ false
unfolding reads next word_at
eof_garbage_example =
    eof_garbage 7 bytes calls (omega arith) (omega arith) (omega arith) (bytes_open 7) (omega arith)

next-column_entry_example :
    ((next (reads (opened 0) calls) 1 any).0 ≡ true)
    × ((next (reads (opened 0) calls) 1 any).1 ≡ column_entry bytes 2 1 3 any)
unfolding word_at
next-column_entry_example =
    next-column_entry 0 bytes calls 1 any (omega arith) (bytes_open 0) (omega arith)

abbrev many : ℕ → List (ℕ × Entry)
many zero = []
many (suc n) = (0, any) ∷ (1, any) ∷ many n

many_enough : (pid : ℕ) → pid < 2 → 24 < calls_of pid (many 25)
many_enough zero h = omega arith
many_enough (suc zero) h = omega arith
many_enough (suc (suc n)) h = omega arith

eof_reached_example : eof (reads (opened 0) (many 25)) ≡ true
unfolding word_at
eof_reached_example =
    eof_reached bytes (many 25) (omega arith) (omega arith) (bytes_open 0) many_enough

next-aligned_example :
    ((next (opened 0) 1 any).0 ≡ true)
    × ((next (opened 0) 1 any).1.type ≢ end)
    × (((next (opened 0) 1 any).1.type ≡ nop) ⊎ ((next (opened 0) 1 any).1.addr % 4 ≡ 0))
next-aligned_example = next-aligned (opened 0) 1 any (omega arith)
