-- ===== src/World.antt =====
-- What the processes of src/assignment_1 share: the bus, the lines of each cache, the ports between
-- a processor and its cache, the queue of the memory, the trace, the counters and the totals.
use psa.Prelude.{ℕ, Bool, false, List, [], ◌∷◌, ◌++◌, Option, none, some, update}
use psa.Lines.{Line, LineState, Function, Request, empty_lines, set_state}
use psa.Bus.{Bus, idle_bus}
use psa.Trace.{TraceFile}
use psa.Stats.{Stats}

-- `Memory::RetCode`
pub data RetCode : Type 0 where
  read_done write_done : RetCode

-- The ports are `sc_buffer`s, whose reader waits for a write: `some` is a write that it has not seen
-- yet. `requests` holds `Port_Func` and `Port_Addr`, `dones` holds `Port_Done`. `stats` is `none`
-- after an access to counters that were freed, and `stopped` is that `sc_stop` was called.
pub record World : Type 0 where
  pub bus : Bus
  pub lines : ℕ → ℕ → Line
  pub requests : ℕ → Option (Function × ℕ)
  pub dones : ℕ → Option RetCode
  pub queue : List Request
  pub cycles_to_wait : ℕ
  pub trace : TraceFile
  pub stats : Option Stats
  pub main_memory_access_rate : ℕ  -- unsigned int
  pub time_for_bus_acquisition : ℕ  -- unsigned int
  pub stopped : Bool

-- A change of the lines of one cache
abbrev pub set_lines : World → ℕ → (ℕ → Line) → World
set_lines w id f = record w { lines = update w.lines id f }

abbrev pub set_line_state : World → ℕ → ℕ → LineState → World
set_line_state w id r st = set_lines w id (set_state (w.lines id) r st)

abbrev pub line_state : World → ℕ → ℕ → LineState
line_state w id r = (w.lines id r).state

-- One call of a `stats_` function
abbrev pub count : (Stats → ℕ → Option Stats) → World → ℕ → World
count f w id = record w { stats = elim w.stats [ none ↦ none | some s ↦ f s id ] }

abbrev pub push : World → Request → World
push w req = record w { queue = w.queue ++ (req ∷ []) }

-- The state when the simulation starts
abbrev pub initial : TraceFile → Stats → World
initial trace stats = record {
  bus = idle_bus;
  lines = λ id. empty_lines;
  requests = λ id. none;
  dones = λ id. none;
  queue = [];
  cycles_to_wait = 99;
  trace = trace;
  stats = some stats;
  main_memory_access_rate = 0;
  time_for_bus_acquisition = 0;
  stopped = false;
}
