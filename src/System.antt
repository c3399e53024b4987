-- ===== src/System.antt =====
-- src/assignment_1/assignment1.cpp and the processes that it puts together: for each processor one
-- `CPU` and one `SingleCache` with its two processes, the `Memory` with its two, and the transfers
-- that the caches spawn.
--
-- SystemC runs one process at a time, from one wait to the next, and between two evaluation phases it
-- updates the wires of the bus. Which process goes on is SystemC's choice; the model lets any go on at
-- any time, and the wires be updated at any time, so what holds of every run here holds of those that
-- SystemC chooses. A process that waits for a change of `Port_BusFunc` goes on only after an update
-- that changed it.
pub mod Holders
pub mod Exclusion
pub mod Drives
pub mod Others
pub mod Wires
pub mod Requests
pub mod Turns
pub mod Handshake
pub mod Served
pub mod Answered
pub mod Observed
pub mod Steps
pub mod Statistics
pub mod Responses
pub mod Tests
use psa.Prelude.{
  ℕ, zero, suc, ◌+◌, Bool, true, false, List, [], ◌∷◌, ◌++◌, Option, none, some, if◌then◌else◌, ltb,
  ◌&&◌, ◌||◌, update,
}
use psa.Lines.{LineState, Transfer, Request, snooping}
use psa.Bus.{Bus, Floating, see_any, begin_transfer, end_transfer, update_wires, func_changes}
use psa.Trace.{TraceFile, Entry, nop}
use psa.Stats.{Stats}
use psa.World.{World, initial, set_lines, set_line_state, line_state}
use psa.SingleCache
use psa.SingleCache.{Pc}
use psa.MainMemory
use psa.MainMemory.{MemPc}
use psa.Processor
use psa.Processor.{CpuPc}

-- Where `cache_to_cache` stands: not yet run, in its loop over `try_lock`, or driving the bus.
pub data TransferPc : Type 0 where
  spawned waiting driving : TransferPc

pub record System : Type 0 where
  pub world : World
  pub cpus : ℕ → CpuPc
  pub caches : ℕ → Pc
  pub memory : MemPc
  pub transfers : List (Transfer × TransferPc)
  pub snooper_woken : ℕ → Bool
  pub over : Bool

-- Which process goes on, and for a cache the microseconds that it waited for the bus; or the wires
-- are updated.
pub data Choice : Type 0 where
  cpu : (id : ℕ) → Choice
  cache : (id elapsed : ℕ) → Choice
  snooper : (id : ℕ) → Choice
  transfer : (k : ℕ) → Choice
  memory : Choice
  memory_snooper : Choice
  wires_update : Choice

-- `Bus::cache_to_cache`, from the wait at which it stands to the next; `none` is its end.
driven : World → Transfer → Option (Bus × LineState) → World × Option TransferPc
driven w t none = (w, some waiting)
driven w t (some (b, st)) =
    (record (set_line_state w t.source_id t.line st) { bus = b }, some driving)

try_transfer : World → Transfer → World × Option TransferPc
unfolding driven
try_transfer w t =
    driven w t (begin_transfer t.proc_id t.source_id t.addr (line_state w t.source_id t.line) w.bus)

unfoldable pub cache_to_cache : World → Transfer → TransferPc → World × Option TransferPc
unfolding try_transfer
cache_to_cache w t spawned =
    try_transfer (record w { bus = record (w.bus) { c2c_intended = true } }) t
cache_to_cache w t waiting = try_transfer w t
cache_to_cache w t driving = (record w { bus = end_transfer w.bus }, none)

-- The `k`-th transfer goes on, and leaves the list when it has ended.
abbrev kept : Transfer → Option TransferPc → List (Transfer × TransferPc)
kept t none = []
kept t (some pc) = (t, pc) ∷ []

pub run_transfer : World → List (Transfer × TransferPc) → ℕ → World × List (Transfer × TransferPc)
unfolding cache_to_cache
run_transfer w [] k = (w, [])
run_transfer w ((t, pc) ∷ ts) zero = let (w', pc') = cache_to_cache w t pc in (w', kept t pc' ++ ts)
run_transfer w ((t, pc) ∷ ts) (suc k) = let (w', ts') = run_transfer w ts k in (w', (t, pc) ∷ ts')

-- `SingleCache::snooping` when it was woken: what `wait_for_any` lets through, and the
-- transfer that it spawns
abbrev begun : Option Transfer → List (Transfer × TransferPc)
begun none = []
begun (some t) = (t, spawned) ∷ []

snoop_cache : System → ℕ → Option Request → System
snoop_cache s id none = s
snoop_cache s id (some req) =
    let (lines, spawns) = snooping id (s.world.lines id) req in
    record s { world = set_lines s.world id lines; transfers = s.transfers ++ begun spawns }

-- It waits again, until the next change of `Port_BusFunc`.
abbrev pub asleep : System → ℕ → System
asleep s id = record s { snooper_woken = update s.snooper_woken id false }

-- The state after a process went on
pub cpu_moved : System → ℕ → World × CpuPc → System
cpu_moved s id (w, pc) = record s { world = w; cpus = update s.cpus id pc }

pub cache_moved : System → ℕ → World × Pc → System
cache_moved s id (w, pc) = record s { world = w; caches = update s.caches id pc }

transfers_moved : System → World × List (Transfer × TransferPc) → System
transfers_moved s (w, ts) = record s { world = w; transfers = ts }

memory_moved : System → World × MemPc → System
memory_moved s (w, pc) = record s { world = w; memory = pc }

-- The state after the update phase, in which a change of `Port_BusFunc` wakes every `snooping`. A
-- call of `sc_stop` ends the simulation here: the processes of the same phase have gone on.
pub wires_updated : System → System
wires_updated s = record s {
  world = record (s.world) { bus = update_wires s.world.bus };
  snooper_woken = λ id. s.snooper_woken id || func_changes s.world.bus;
  over = s.world.stopped;
}

module _ (z : Floating) (cpunum : ℕ) where
  -- One process goes on, or the wires are updated. Numbers from `cpunum` on name none.
  pub move : System → Choice → System
  unfolding run_transfer snoop_cache cpu_moved cache_moved transfers_moved memory_moved
      wires_updated
  move s (cpu id) =
      if ltb id cpunum then cpu_moved s id (Processor.execute s.world id (s.cpus id)) else s
  move s (cache id elapsed) =
      if ltb id cpunum
      then cache_moved s id (SingleCache.execute z elapsed s.world id (s.caches id))
      else s
  move s (snooper id) =
      if ltb id cpunum && s.snooper_woken id
      then snoop_cache (asleep s id) id (see_any z id s.world.bus)
      else s
  move s (transfer k) = transfers_moved s (run_transfer s.world s.transfers k)
  move s memory = memory_moved s (MainMemory.execute s.world s.memory)
  move s memory_snooper = record s { world = MainMemory.snoop z s.world }
  move s wires_update = wires_updated s

  unfoldable pub step : System → Choice → System
  unfolding move
  step s c = if s.over then s else move s c

  unfoldable pub run : System → List Choice → System
  unfolding step
  run s [] = s
  run s (c ∷ cs) = run (step s c) cs

-- `sc_main` up to `sc_start`: every process stands at its first wait. `tr_data` is not initialised.
abbrev pub sc_main : TraceFile → Stats → (ℕ → Entry) → System
sc_main trace stats tr_data = record {
  world = initial trace stats;
  cpus = λ id. CpuPc.starting (tr_data id);
  caches = λ id. Pc.idle;
  memory = MemPc.starting;
  transfers = [];
  snooper_woken = λ id. false;
  over = false;
}
