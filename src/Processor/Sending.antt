-- ===== src/Processor/Sending.antt =====
-- src/assignment_1/CPU.h: the request that a processor sends, and waits for.
use psa.Prelude.{ℕ, ◌≡◌, ◌≢◌, ◌⊎◌, refl, Bool, true, false, List, [], ◌∷◌, none, ◌&&◌, not, arith}
use psa.Trace.{EntryType, Entry, next, eof, is_end}
use psa.World.{World}
use psa.SingleCache.Serving.{Asked, port_request}
use psa.Processor.{CpuPc, starting, sent_write, awaiting, advancing, halted, perform, execute}

-- What an entry of the trace asks for
abbrev pub entry_request : Entry → List Asked
entry_request e = elim e.type [
  | EntryType.read ↦ (false, e.addr) ∷ []
  | EntryType.write ↦ (true, e.addr) ∷ []
  | EntryType.nop ↦ []
  | EntryType.end ↦ []
]

-- The request that a processor has sent and waits for
abbrev pub cpu_request : CpuPc → List Asked
cpu_request (sent_write e) = entry_request e
cpu_request (awaiting e) = entry_request e
cpu_request _ = []

-- Where a processor calls `next`, if the trace has not ended
abbrev pub is_round : CpuPc → Bool
is_round (starting e) = true
is_round (advancing e) = true
is_round _ = false

abbrev pub tr_data : CpuPc → Entry
tr_data (starting e) = e
tr_data (sent_write e) = e
tr_data (awaiting e) = e
tr_data (advancing e) = e
tr_data halted = record { type = EntryType.nop; addr = 0 }

-- The step changes the request of the processor and its port only.
abbrev pub SameElse : World → World → ℕ → Type 0
SameElse w' w id =
    ((j : ℕ) → id ≢ j → w'.requests j ≡ w.requests j)
    × ((j : ℕ) → id ≢ j → w'.dones j ≡ w.dones j)
    × (w'.stats ≡ w.stats)

-- The step sends what the entry asks for.
abbrev Sends : World → ℕ → Entry → World × CpuPc → Type 0
Sends w id e (w', pc') =
    (cpu_request pc' ≡ entry_request e)
    × (port_request (w'.requests id) ≡ entry_request e)
    × (w'.dones ≡ w.dones)
    × (w'.trace ≡ w.trace)
    × SameElse w' w id

perform-Sends :
    (w : World) (id : ℕ) (e : Entry)
    → port_request (w.requests id) ≡ []
    → is_end e.type ≡ false
    → Sends w id e (perform w id e)
unfolding perform
perform-Sends w id e empty proper = by_type e.type refl
  where
    by_type : (ty : EntryType) → e.type ≡ ty → Sends w id e (perform w id e)
    by_type EntryType.read same = rw (perform, same) ground arith
    by_type EntryType.write same = rw (perform, same) ground arith
    by_type EntryType.nop same = rw (perform, same) ground arith
    by_type EntryType.end same = absurd (ground arith)

-- An entry that `next` gives becomes the request of the processor, which stands at its port.
pub cpu-fetches :
    (w : World) (id : ℕ) (pc : CpuPc)
    → is_round pc ≡ true
    → eof w.trace ≡ false
    → port_request (w.requests id) ≡ []
    → let (got, e, t) = next w.trace id (tr_data pc) in
      let (w', pc') = execute w id pc in
      got ≡ true
      → is_end e.type ≡ false
      → (cpu_request pc' ≡ entry_request e)
        × (port_request (w'.requests id) ≡ entry_request e)
        × (w'.dones ≡ w.dones)
        × (w'.trace ≡ t)
        × SameElse w' w id
unfolding execute
cpu-fetches w id (starting e) at going empty got proper =
    rw (going, got)
      (perform-Sends (record w { trace = (next w.trace id e).2 }) id (next w.trace id e).1 empty
        proper)
cpu-fetches w id (advancing e) at going empty got proper =
    rw (going, got)
      (perform-Sends (record w { trace = (next w.trace id e).2 }) id (next w.trace id e).1 empty
        proper)
cpu-fetches w id _ at going empty got proper = absurd (ground arith)

-- In all other steps the processor sends nothing.
pub cpu-rests :
    (w : World) (id : ℕ) (pc : CpuPc)
    → (is_round pc && not (eof w.trace)) ≡ false
    → let (w', pc') = execute w id pc in
      (w'.requests ≡ w.requests)
      × (w'.trace ≡ w.trace)
      × SameElse w' w id
      × (((cpu_request pc' ≡ cpu_request pc) × (w'.dones id ≡ w.dones id))
          ⊎ ((cpu_request pc' ≡ []) × (w.dones id ≢ none) × (w'.dones id ≡ none)))
unfolding execute
cpu-rests w id (starting e) at = ground arith
cpu-rests w id (advancing e) at = ground arith
cpu-rests w id _ at = ground arith
