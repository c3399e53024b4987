-- ===== src/Processor.antt =====
-- src/assignment_1/CPU.h: the process `execute` of a processor, between its waits. The messages to
-- the console have no part in the state.
pub mod Sending
use psa.Prelude.{ℕ, Bool, true, false, Option, none, some, if◌then◌else◌, update}
use psa.Lines.{Function, read, write}
use psa.Trace.{EntryType, nop, end, Entry, TraceFile, next, eof}
use psa.World.{World, RetCode}

-- Where `execute` waits, with its variable `tr_data`: for the first edge of the clock, for the clock
-- behind a write and for the answer, and for the clock at the end of a round.
pub data CpuPc : Type 0 where
  starting : (tr_data : Entry) → CpuPc
  sent_write : (tr_data : Entry) → CpuPc
  awaiting : (tr_data : Entry) → CpuPc
  advancing : (tr_data : Entry) → CpuPc
  halted : CpuPc

-- `Port_MemAddr.write` and `Port_MemFunc.write`
abbrev send : World → ℕ → Function → ℕ → World
send w id f addr = record w { requests = update w.requests id (some (f, addr)) }

-- The body of the loop behind the call of `next`. An end tag is `exit(0)`.
perform : World → ℕ → Entry → World × CpuPc
perform w id e = elim e.type [
  | EntryType.read ↦ (send w id read e.addr, awaiting e)
  | EntryType.write ↦ (send w id write e.addr, sent_write e)
  | nop ↦ (w, advancing e)
  | end ↦ (record w { stopped = true }, halted)
]

-- The call of `next` and its result. Where it fails the loop ends, and the simulation with it.
fetched : World → ℕ → Bool × Entry × TraceFile → World × CpuPc
unfolding perform
fetched w id (true, e, t) = perform (record w { trace = t }) id e
fetched w id (false, e, t) = (record w { trace = t; stopped = true }, halted)

-- The head of the loop
round : World → ℕ → Entry → World × CpuPc
unfolding fetched
round w id e =
    if eof w.trace then (record w { stopped = true }, halted) else fetched w id (next w.trace id e)

-- The wait for `Port_MemDone`
answered : World → ℕ → Entry → Option RetCode → World × CpuPc
answered w id e none = (w, awaiting e)
answered w id e (some code) = (record w { dones = update w.dones id none }, advancing e)

-- `CPU::execute`, from the wait at which it stands to the next
unfoldable pub execute : World → ℕ → CpuPc → World × CpuPc
unfolding round answered
execute w id (starting e) = round w id e
execute w id (sent_write e) = (w, awaiting e)
execute w id (awaiting e) = answered w id e (w.dones id)
execute w id (advancing e) = round w id e
execute w id halted = (w, halted)
