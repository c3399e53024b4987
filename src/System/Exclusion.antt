-- ===== src/System/Exclusion.antt =====
-- src/assignment_1/: the lock of the bus: at every moment of every run as many processes stand
-- between `try_lock` and `unlock` as the lock says, one or none.
use psa.Prelude.{
  ℕ, zero, suc, ◌+◌, ◌≤◌, ◌<◌, ◌≡◌, refl, List, [], ◌∷◌, ◌++◌, ◌&&◌, Option, none, some, ltb, arith,
  update, sum_of, sum_of-zero, sum_of-change, sum_of-le, if_cases, ltb→lt,
}
use psa.Lines.{Transfer, Request, snooping}
use psa.Bus.{Floating, see_any}
use psa.Trace.{TraceFile, Entry}
use psa.Stats.{Stats}
use psa.World.{World}
use psa.SingleCache
use psa.SingleCache.{Pc}
use psa.MainMemory
use psa.MainMemory.{MemPc}
use psa.Processor
use psa.Processor.{CpuPc}
use psa.System.{
  System, TransferPc, Choice, cpu, cache, snooper, transfer, memory, memory_snooper, wires_update,
  cache_to_cache, kept, run_transfer, begun, asleep, wires_updated, snoop_cache, cpu_moved,
  cache_moved, transfers_moved, memory_moved, move, step, run, sc_main,
}
use psa.System.Holders.{
  cache_holds, memory_holds, transfer_holds, option_holds, lock_bit, Balanced, cache-Balanced,
  memory-Balanced, transfer-Balanced,
}

abbrev pub transfers_hold : List (Transfer × TransferPc) → ℕ
transfers_hold [] = 0
transfers_hold ((t, pc) ∷ ts) = transfer_holds pc + transfers_hold ts

transfers_hold-append :
    (ts us : List (Transfer × TransferPc))
    → transfers_hold (ts ++ us) ≡ transfers_hold ts + transfers_hold us
transfers_hold-append [] us = omega arith
transfers_hold-append ((t, pc) ∷ ts) us = omega (arith, transfers_hold-append ts us)

transfers_hold-kept :
    (t : Transfer) (pc : Option TransferPc) (ts : List (Transfer × TransferPc))
    → transfers_hold (kept t pc ++ ts) ≡ option_holds pc + transfers_hold ts
transfers_hold-kept t none ts = omega arith
transfers_hold-kept t (some pc) ts = omega arith

run_transfer-Balanced :
    (w : World) (ts : List (Transfer × TransferPc)) (k : ℕ)
    → let (w', ts') = run_transfer w ts k in
      Balanced w.bus (transfers_hold ts) w'.bus (transfers_hold ts')
unfolding run_transfer
run_transfer-Balanced w [] k h = refl
run_transfer-Balanced w ((t, pc) ∷ ts) zero h = omega (
  arith,
  transfer-Balanced w t pc (omega arith),
  transfers_hold-kept t (cache_to_cache w t pc).1 ts,
)
run_transfer-Balanced w ((t, pc) ∷ ts) (suc k) h =
    omega (arith, run_transfer-Balanced w ts k (omega arith))

-- The caches of the processors that there are, the memory and the transfers that hold the bus are
-- as many as the lock says.
abbrev pub IsExclusive : ℕ → System → Type 0
IsExclusive cpunum s =
    sum_of (λ i. cache_holds (s.caches i)) cpunum
      + memory_holds s.memory
      + transfers_hold s.transfers
    ≡ lock_bit s.world.bus

pub bus-cpu : (w : World) (id : ℕ) (pc : CpuPc) → (Processor.execute w id pc).0.bus ≡ w.bus
unfolding Processor.execute
bus-cpu w id CpuPc.halted = refl
bus-cpu w id _ = ground arith

pub bus-memory_snooper : (z : Floating) (w : World) → (MainMemory.snoop z w).bus ≡ w.bus
unfolding MainMemory.snoop
bus-memory_snooper z w = ground arith

transfers_hold-begun : (t : Option Transfer) → transfers_hold (begun t) ≡ 0
transfers_hold-begun none = refl
transfers_hold-begun (some t) = refl

snoop_cache-IsExclusive :
    (n : ℕ) (s : System) (id : ℕ) (req : Option Request)
    → IsExclusive n s
    → IsExclusive n (snoop_cache s id req)
unfolding snoop_cache
snoop_cache-IsExclusive n s id none h = h
snoop_cache-IsExclusive n s id (some req) h =
    let spawns = (snooping id (s.world.lines id) req).1 in
    omega (arith, h, transfers_hold-append s.transfers (begun spawns), transfers_hold-begun spawns)

module _ (z : Floating) (n : ℕ) where
  cache-IsExclusive :
      (s : System) (id elapsed : ℕ)
      → id < n
      → IsExclusive n s
      → IsExclusive n (cache_moved s id (SingleCache.execute z elapsed s.world id (s.caches id)))
  unfolding cache_moved
  cache-IsExclusive s id elapsed lt h =
      let f : ℕ → ℕ = λ i. cache_holds (s.caches i) in
      let (w, pc) = SingleCache.execute z elapsed s.world id (s.caches id) in
      let g : ℕ → ℕ = λ i. cache_holds (update s.caches id pc i) in
      let here : g id ≡ cache_holds pc = ground arith in
      omega (
        arith,
        h,
        here,
        sum_of-change f g id n lt (λ j ne. ground arith),
        sum_of-le f id n lt,
        cache-Balanced z elapsed s.world id (s.caches id) (omega (arith, h, sum_of-le f id n lt)),
      )

  pub move-IsExclusive : (s : System) (c : Choice) → IsExclusive n s → IsExclusive n (move z n s c)
  unfolding move cpu_moved transfers_moved memory_moved wires_updated
  move-IsExclusive s (cpu id) h =
      if_cases (IsExclusive n) (ltb id n) (λ _. rw (bus-cpu s.world id (s.cpus id)) h) (λ _. h)
  move-IsExclusive s (cache id elapsed) h =
      if_cases (IsExclusive n) (ltb id n)
        (λ inside. cache-IsExclusive s id elapsed (ltb→lt id n inside) h) (λ _. h)
  move-IsExclusive s (snooper id) h =
      if_cases (IsExclusive n) (ltb id n && s.snooper_woken id)
        (λ _. snoop_cache-IsExclusive n (asleep s id) id (see_any z id s.world.bus) h) (λ _. h)
  move-IsExclusive s (transfer k) h =
      omega (arith, h, run_transfer-Balanced s.world s.transfers k (omega (arith, h)))
  move-IsExclusive s memory h =
      omega (arith, h, memory-Balanced s.world s.memory (omega (arith, h)))
  move-IsExclusive s memory_snooper h = rw (bus-memory_snooper z s.world) h
  move-IsExclusive s wires_update h = h

  step-IsExclusive : (s : System) (c : Choice) → IsExclusive n s → IsExclusive n (step z n s c)
  unfolding step
  step-IsExclusive s c h = if_cases (IsExclusive n) s.over (λ _. h) (λ _. move-IsExclusive s c h)

  pub run-IsExclusive :
      (s : System) (choices : List Choice) → IsExclusive n s → IsExclusive n (run z n s choices)
  unfolding run
  run-IsExclusive s [] h = h
  run-IsExclusive s (c ∷ cs) h = run-IsExclusive (step z n s c) cs (step-IsExclusive s c h)

  pub sc_main-IsExclusive :
      (trace : TraceFile) (stats : Stats) (tr_data : ℕ → Entry)
      → IsExclusive n (sc_main trace stats tr_data)
  sc_main-IsExclusive trace stats tr_data = omega (arith, sum_of-zero (λ i. 0) n (λ i. refl))

-- In every run of the simulation, for any trace and any choices of the process that goes on, the
-- processes that stand between `try_lock` and `unlock` of the bus (caches of the processors that
-- there are, the memory and transfers) are as many as the lock says, and so one at most.
pub bus_exclusion :
    (z : Floating) (cpunum : ℕ) (trace : TraceFile) (stats : Stats) (tr_data : ℕ → Entry)
    (choices : List Choice)
    → let s = run z cpunum (sc_main trace stats tr_data) choices in
      let holders =
        sum_of (λ i. cache_holds (s.caches i)) cpunum
        + memory_holds s.memory
        + transfers_hold s.transfers in
      (holders ≡ lock_bit s.world.bus) × (holders ≤ 1)
bus_exclusion z n trace stats tr_data choices =
    let h =
      run-IsExclusive z n (sc_main trace stats tr_data) choices
        (sc_main-IsExclusive z n trace stats tr_data) in
    (h, ground (arith, h))
