-- ===== src/System/Wires.antt =====
-- src/assignment_1/: what is written on the wires of the bus at every moment of every run: the request
-- of the process that holds the bus, or nothing.
use psa.Prelude.{
  ℕ, ◌<◌, ◌≡◌, ◌≢◌, ◌&&◌, ◌⊎◌, inl, inr, refl, true, List, [], ◌∷◌, Option, none, some, ltb, arith,
  sum_of-le, sum_of-le_two, if_cases, ltb→lt, ℕ_discrete,
}
use psa.Lines.{Request, snooping}
use psa.Bus.{Bus, Floating, see_any, update_wires}
use psa.Trace.{TraceFile, Entry}
use psa.Stats.{Stats}
use psa.SingleCache
use psa.MainMemory
use psa.System.{
  System, Choice, cpu, cache, snooper, transfer, memory, memory_snooper, snoop_cache, cpu_moved,
  asleep, wires_update, wires_updated, cache_moved, transfers_moved, memory_moved, move, step, run,
  run_transfer, sc_main,
}
use psa.System.Holders.{cache_holds, memory_holds}
use psa.System.Exclusion.{
  transfers_hold, IsExclusive, move-IsExclusive, sc_main-IsExclusive, bus-cpu, bus-memory_snooper,
}
use psa.System.Drives.{
  IsQuiet, SameWires, CacheDrives, cache-Drives, cache-SameWires, memory-Drives, memory-SameWires,
}
use psa.System.Others.{
  IsWired, AllDrive-append, AllDrive-begun, others-cache, others-memory, others-transfers,
  run_transfer-Drives,
}

module _ (z : Floating) (n : ℕ) where
  abbrev holding : System → ℕ → ℕ
  holding s i = cache_holds (s.caches i)

  cache-IsWired :
      (s : System) (id elapsed : ℕ)
      → id < n
      → IsWired n s
      → IsExclusive n (cache_moved s id (SingleCache.execute z elapsed s.world id (s.caches id)))
      → IsWired n (cache_moved s id (SingleCache.execute z elapsed s.world id (s.caches id)))
  unfolding cache_moved
  cache-IsWired s id elapsed lt h after = record {
    exclusive = after;
    quiet = mine.0;
    caches = λ j below. elim (ℕ_discrete id j) [
      | yes e ↦ rw (← e) (ground (arith, mine))
      | no ne ↦ ground (arith, other j below ne)
    ];
    memory =
        others-memory s.world.bus b' s.memory (holding s id)
          (omega (arith, h.exclusive, sum_of-le (holding s) id n lt)) same h.memory;
    transfers =
        others-transfers s.world.bus b' s.transfers (holding s id)
          (omega (arith, h.exclusive, sum_of-le (holding s) id n lt)) same h.transfers;
  }
    where
      b' : Bus
      b' = (SingleCache.execute z elapsed s.world id (s.caches id)).0.bus

      mine :
          IsQuiet b' × CacheDrives b' id (SingleCache.execute z elapsed s.world id (s.caches id)).1
      mine =
          cache-Drives z elapsed s.world id (s.caches id) h.quiet
            (omega (arith, h.exclusive, sum_of-le (holding s) id n lt)) (h.caches id lt)

      same : holding s id ≡ 0 → s.world.bus.bus_mutex ≡ true → SameWires s.world.bus b'
      same = cache-SameWires z elapsed s.world id (s.caches id)

      other : (j : ℕ) → j < n → id ≢ j → CacheDrives b' j (s.caches j)
      other j below ne =
          others-cache s.world.bus b' j (s.caches j) (holding s id)
            (omega (arith, h.exclusive, sum_of-le_two (holding s) id j n lt below ne)) same
            (h.caches j below)

  snoop_cache-IsWired :
      (s : System) (id : ℕ) (req : Option Request)
      → IsWired n s
      → IsExclusive n (snoop_cache s id req)
      → IsWired n (snoop_cache s id req)
  unfolding snoop_cache
  snoop_cache-IsWired s id none h after = h
  snoop_cache-IsWired s id (some req) h after = record {
    exclusive = after;
    quiet = h.quiet;
    caches = h.caches;
    memory = h.memory;
    transfers =
        AllDrive-append s.world.bus s.transfers _ h.transfers
          (AllDrive-begun s.world.bus (snooping id (s.world.lines id) req).1);
  }

  transfers-IsWired :
      (s : System) (k : ℕ)
      → IsWired n s
      → IsExclusive n (transfers_moved s (run_transfer s.world s.transfers k))
      → IsWired n (transfers_moved s (run_transfer s.world s.transfers k))
  unfolding transfers_moved
  transfers-IsWired s k h after =
      let b' = (run_transfer s.world s.transfers k).0.bus in
      let (q, own, same) =
        run_transfer-Drives s.world s.transfers k h.quiet (omega (arith, h.exclusive))
          h.transfers in
      record {
        exclusive = after;
        quiet = q;
        caches = λ j below.
            others-cache s.world.bus b' j (s.caches j) (transfers_hold s.transfers)
              (omega (arith, h.exclusive, sum_of-le (holding s) j n below)) same (h.caches j below);
        memory =
            others-memory s.world.bus b' s.memory (transfers_hold s.transfers)
              (omega (arith, h.exclusive)) same h.memory;
        transfers = own;
      }

  memory-IsWired :
      (s : System)
      → IsWired n s
      → IsExclusive n (memory_moved s (MainMemory.execute s.world s.memory))
      → IsWired n (memory_moved s (MainMemory.execute s.world s.memory))
  unfolding memory_moved
  memory-IsWired s h after =
      let b' = (MainMemory.execute s.world s.memory).0.bus in
      let (q, own) = memory-Drives s.world s.memory h.quiet (omega (arith, h.exclusive)) h.memory in
      let same = memory-SameWires s.world s.memory in
      record {
        exclusive = after;
        quiet = q;
        caches = λ j below.
            others-cache s.world.bus b' j (s.caches j) (memory_holds s.memory)
              (omega (arith, h.exclusive, sum_of-le (holding s) j n below)) same (h.caches j below);
        memory = own;
        transfers =
            others-transfers s.world.bus b' s.transfers (memory_holds s.memory)
              (omega (arith, h.exclusive)) same h.transfers;
      }

  IsWired-bus :
      (s t : System)
      → t.world.bus ≡ s.world.bus
      → t.caches ≡ s.caches
      → t.memory ≡ s.memory
      → t.transfers ≡ s.transfers
      → IsWired n s
      → IsWired n t
  IsWired-bus s t on_bus on_caches on_memory on_transfers h = record {
    exclusive = rw (on_bus, on_caches, on_memory, on_transfers) h.exclusive;
    quiet = rw on_bus h.quiet;
    caches = λ id lt. rw (on_bus, on_caches) (h.caches id lt);
    memory = rw (on_bus, on_memory) h.memory;
    transfers = rw (on_bus, on_transfers) h.transfers;
  }

  -- The update phase changes what the wires read as, and not what was written.
  update_wires-SameWires :
      (b : Bus) → ◌≡◌ {A = ℕ} 0 0 → b.bus_mutex ≡ true → SameWires b (update_wires b)
  update_wires-SameWires b e held = (held, refl, refl, refl, refl)

  wires_updated-IsWired : (s : System) → IsWired n s → IsWired n (wires_updated s)
  unfolding wires_updated
  wires_updated-IsWired s h =
      let b' : Bus = update_wires s.world.bus in
      record {
        exclusive = h.exclusive;
        quiet = h.quiet;
        caches = λ id lt.
            others-cache s.world.bus b' id (s.caches id) 0
              (omega (arith, h.exclusive, sum_of-le (holding s) id n lt))
              (update_wires-SameWires s.world.bus) (h.caches id lt);
        memory =
            others-memory s.world.bus b' s.memory 0 (omega (arith, h.exclusive))
              (update_wires-SameWires s.world.bus) h.memory;
        transfers =
            others-transfers s.world.bus b' s.transfers 0 (omega (arith, h.exclusive))
              (update_wires-SameWires s.world.bus) h.transfers;
      }

  move-IsWired : (s : System) (c : Choice) → IsWired n s → IsWired n (move z n s c)
  unfolding move cpu_moved
  move-IsWired s (cpu id) h =
      if_cases (IsWired n) (ltb id n)
        (λ _. IsWired-bus s _ (bus-cpu s.world id (s.cpus id)) refl refl refl h) (λ _. h)
  move-IsWired s (cache id elapsed) h =
      let after = move-IsExclusive z n s (cache id elapsed) h.exclusive in
      if_cases (λ t. IsExclusive n t → IsWired n t) (ltb id n)
        (λ inside e. cache-IsWired s id elapsed (ltb→lt id n inside) h e) (λ _ _. h) after
  move-IsWired s (snooper id) h =
      let after = move-IsExclusive z n s (snooper id) h.exclusive in
      if_cases (λ t. IsExclusive n t → IsWired n t) (ltb id n && s.snooper_woken id)
        (λ _ e.
          snoop_cache-IsWired (asleep s id) id (see_any z id s.world.bus)
            (IsWired-bus s (asleep s id) refl refl refl refl h) e)
        (λ _ _. h) after
  move-IsWired s (transfer k) h =
      transfers-IsWired s k h (move-IsExclusive z n s (transfer k) h.exclusive)
  move-IsWired s memory h = memory-IsWired s h (move-IsExclusive z n s memory h.exclusive)
  move-IsWired s memory_snooper h = IsWired-bus s _ (bus-memory_snooper z s.world) refl refl refl h
  move-IsWired s wires_update h = wires_updated-IsWired s h

  step-IsWired : (s : System) (c : Choice) → IsWired n s → IsWired n (step z n s c)
  unfolding step
  step-IsWired s c h = if_cases (IsWired n) s.over (λ _. h) (λ _. move-IsWired s c h)

  run-IsWired : (s : System) (choices : List Choice) → IsWired n s → IsWired n (run z n s choices)
  unfolding run
  run-IsWired s [] h = h
  run-IsWired s (c ∷ cs) h = run-IsWired (step z n s c) cs (step-IsWired s c h)

-- What the wires read as is what was written.
abbrev pub AreSettled : Bus → Type 0
AreSettled b =
    (b.wires.func ≡ b.bus_func)
    × (b.wires.addr ≡ b.bus_addr)
    × (b.wires.proc ≡ b.proc_id)
    × (b.wires.source ≡ b.source_id)

step-AreSettled :
    (z : Floating) (n : ℕ) (s : System)
    → (s.over ≡ true) ⊎ AreSettled (step z n s wires_update).world.bus
unfolding step move wires_updated
step-AreSettled z n s =
    if_cases (λ (t : System). (s.over ≡ true) ⊎ AreSettled t.world.bus) s.over (λ over. inl over)
      (λ _. inr (refl, refl, refl, refl))

-- In every run of the simulation, for any trace, any choices of the process that goes on and any
-- update phases in between: while nobody holds the bus nothing was left written on its wires; a cache
-- that holds it has written its invalidation, its write-back or its read, with its number and the
-- address; the memory a response, marked as its own; a transfer its address, its receiver and its
-- sender. This is also what the wires read as after an update phase at that moment, unless the
-- simulation is over.
pub bus_wires :
    (z : Floating) (cpunum : ℕ) (trace : TraceFile) (stats : Stats) (tr_data : ℕ → Entry)
    (choices : List Choice)
    → let s = run z cpunum (sc_main trace stats tr_data) choices in
      let s' = step z cpunum s wires_update in
      IsWired cpunum s × IsWired cpunum s' × ((s.over ≡ true) ⊎ AreSettled s'.world.bus)
bus_wires z n trace stats tr_data choices =
    let start = sc_main trace stats tr_data in
    let s = run z n start choices in
    let h : IsWired n s = run-IsWired z n start choices (record {
      exclusive = sc_main-IsExclusive z n trace stats tr_data;
      quiet = inr (refl, refl, refl, refl, refl);
      caches = λ id lt. tt;
      memory = tt;
      transfers = tt;
    }) in
    (h, step-IsWired z n s wires_update h, step-AreSettled z n s)
