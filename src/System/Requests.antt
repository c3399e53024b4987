-- ===== src/System/Requests.antt =====
-- src/assignment_1/: what is seen of a run: the calls of `next`, and the requests that the caches
-- answer.
use psa.Prelude.{ℕ, zero, suc, List, [], ◌∷◌, ◌++◌, if◌then◌else◌, ltb, ◌==◌}
use psa.Trace.{Entry, nop, TraceFile, eof}
use psa.Trace.Columns.{column_entry}
use psa.Stats.Counts.{Event}
use psa.Bus.{Floating}
use psa.SingleCache
use psa.SingleCache.{
  Pc, idle, looked, hit_retry, hit_half, hit_invalidating, read_half, again, back_retry,
  back_writing, back_waiting, fill_retry, fill_reading, fill_waiting, own_retry, own_half,
  own_invalidating, refetch, finished, is_write,
}
use psa.SingleCache.Completion.{event_of, is_finished}
use psa.SingleCache.Serving.{Asked, address, is_write_event}
use psa.Processor.Sending.{entry_request}
use psa.Processor.{CpuPc, starting, advancing}
use psa.System.{System, Choice, cpu, cache, step}

-- An answer: the processor, what is counted, and the address
pub record Reply : Type 0 where
  pub cpu : ℕ
  pub event : Event
  pub addr : ℕ

-- The requests of a processor that were answered
abbrev pub answered_of : ℕ → List Reply → List Asked
answered_of id [] = []
answered_of id (a ∷ rest) =
    (if a.cpu == id then (is_write_event a.event, a.addr) ∷ [] else []) ++ answered_of id rest

-- What was counted
abbrev pub events_of : List Reply → List (Event × ℕ)
events_of [] = []
events_of (a ∷ rest) = (a.event, a.cpu) ∷ events_of rest

-- What was seen so far
pub record Seen : Type 0 where
  pub calls : List (ℕ × Entry)
  pub answers : List Reply

-- A call of `next` in a step of a processor, with its variable `tr_data`
abbrev pub called : TraceFile → ℕ → CpuPc → List (ℕ × Entry)
called t id (starting e) = if eof t then [] else (id, e) ∷ []
called t id (advancing e) = if eof t then [] else (id, e) ∷ []
called t id _ = []

-- An answer in a step of a cache from a place to another
abbrev pub answered : ℕ → Pc → Pc → List Reply
answered id pc pc' =
    if is_finished pc' then record { cpu = id; event = event_of pc; addr = address pc } ∷ [] else []

module _ (z : Floating) (cpunum : ℕ) where
  -- What is seen of one step
  unfoldable pub look_at : Seen → System → Choice → Seen
  look_at p s (cpu id) =
      if ltb id cpunum
      then record p { calls = p.calls ++ called s.world.trace id (s.cpus id) }
      else p
  look_at p s (cache id elapsed) =
      if ltb id cpunum
      then record p {
        answers =
            p.answers
            ++ answered id (s.caches id) (SingleCache.execute z elapsed s.world id (s.caches id)).1;
      }
      else p
  look_at p s _ = p

  abbrev pub observe_step : Seen → System → Choice → Seen
  observe_step p s c = if s.over then p else look_at p s c

  -- What is seen of a run
  unfoldable pub observe : Seen → System → List Choice → Seen
  unfolding look_at
  observe p s [] = p
  observe p s (c ∷ cs) = observe (observe_step p s c) (step z cpunum s c) cs

-- The requests of the first `k` words of a processor in the file
unfoldable pub column_requests : List ℕ → ℕ → ℕ → ℕ → List Asked
column_requests bytes procs pid zero = []
column_requests bytes procs pid (suc k) =
    column_requests bytes procs pid k
    ++ entry_request (column_entry bytes procs pid k (record { type = nop; addr = 0 }))
