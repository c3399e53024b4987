-- ===== src/System/Responses.antt =====
-- src/assignment_1/Memory.h: the order of the responses of the memory.
use psa.Prelude.{
  ℕ, zero, suc, ◌≡◌, refl, ◌∙◌, Bool, true, false, ◌&&◌, List, [], ◌∷◌, ◌++◌, Option, none, some,
  if◌then◌else◌, arith, append-nil, append_assoc, Option-cases, if_cases, inl, inr, ltb,
}
use psa.Lines.{Request, Transfer}
use psa.Trace.{TraceFile, Entry}
use psa.Stats.{Stats}
use psa.Bus.{Bus, Floating, see_request, see_any, begin_response, end_response}
use psa.World.{World}
use psa.SingleCache
use psa.SingleCache.{Pc}
use psa.MainMemory
use psa.MainMemory.{MemPc, starting, controller_wait, woken, delayed, yielding, locking, responding}
use psa.Processor
use psa.Processor.{CpuPc}
use psa.System.{
  System, Choice, cpu, cache, snooper, transfer, memory, memory_snooper, wires_update, asleep,
  wires_updated, TransferPc, cache_to_cache, run_transfer, snoop_cache, cpu_moved, cache_moved,
  transfers_moved, memory_moved, move, step, run, sc_main,
}

-- The request that the memory has in hand and has not answered
abbrev pub in_hand : MemPc → List Request
in_hand (delayed req n) = req ∷ []
in_hand (yielding req) = req ∷ []
in_hand (locking req) = req ∷ []
in_hand _ = []

abbrev pub is_responding : MemPc → Bool
is_responding responding = true
is_responding _ = false

-- What the memory has still to answer
abbrev pub pending : World → MemPc → List Request
pending w pc = in_hand pc ++ w.queue

abbrev pub first : List Request → List Request
first [] = []
first (req ∷ rest) = req ∷ []

-- What the memory saw on the bus, and what it answered
pub record Traffic : Type 0 where
  pub heard : List Request
  pub given : List Request

abbrev listed : Option Request → List Request
listed none = []
listed (some req) = req ∷ []

-- A step puts the first that is pending on the bus, if the memory comes to respond.
unfoldable pub watch_step : Floating → Traffic → System → Choice → Traffic
watch_step z p s memory = record p {
  given =
      p.given
      ++ (if is_responding (MainMemory.execute s.world s.memory).1
          then first (pending s.world s.memory)
          else []);
}
watch_step z p s memory_snooper = record p { heard = p.heard ++ listed (see_request z s.world.bus) }
watch_step z p s _ = p

unfoldable pub watch : Floating → ℕ → Traffic → System → List Choice → Traffic
unfolding watch_step
watch z n p s [] = p
watch z n p s (c ∷ cs) = watch z n (if s.over then p else watch_step z p s c) (step z n s c) cs

-- A step of the memory keeps what is pending, but for a request that it answers, and that is the first.
memory-pending :
    (w : World) (pc : MemPc)
    → let (w', pc') = MainMemory.execute w pc in
      (if is_responding pc' then first (pending w pc) else []) ++ pending w' pc' ≡ pending w pc
unfolding MainMemory.execute begin_response end_response
memory-pending w starting = ground arith
memory-pending w woken = ground arith
memory-pending w responding = ground arith
memory-pending w _ = ground arith

-- The bus with the response to the first request
abbrev pub responded : List Request → Bus → Option Bus
responded [] b = none
responded (req ∷ rest) b = begin_response req.id req.addr b

-- The response that comes onto the bus is that to the first request that is pending.
memory-responded :
    (w : World) (pc : MemPc)
    → let (w', pc') = MainMemory.execute w pc in
      is_responding pc' ≡ true → responded (pending w pc) w.bus ≡ some w'.bus
unfolding MainMemory.execute end_response
memory-responded w starting h = ground arith
memory-responded w woken h = ground arith
memory-responded w responding h = ground arith
memory-responded w _ h = ground arith

-- The others leave the queue alone.
queue-cache :
    (z : Floating) (elapsed : ℕ) (w : World) (id : ℕ) (pc : Pc)
    → (SingleCache.execute z elapsed w id pc).0.queue ≡ w.queue
unfolding SingleCache.execute
queue-cache z elapsed w id SingleCache.idle = ground arith
queue-cache z elapsed w id _ = ground arith

queue-cpu : (w : World) (id : ℕ) (pc : CpuPc) → (Processor.execute w id pc).0.queue ≡ w.queue
unfolding Processor.execute
queue-cpu w id CpuPc.halted = refl
queue-cpu w id _ = ground arith

queue-cache_to_cache :
    (w : World) (t : Transfer) (pc : TransferPc) → (cache_to_cache w t pc).0.queue ≡ w.queue
unfolding cache_to_cache
queue-cache_to_cache w t TransferPc.driving = refl
queue-cache_to_cache w t _ = ground arith

queue-run_transfer :
    (w : World) (ts : List (Transfer × TransferPc)) (k : ℕ)
    → (run_transfer w ts k).0.queue ≡ w.queue
unfolding run_transfer
queue-run_transfer w [] k = refl
queue-run_transfer w ((t, pc) ∷ ts) zero = queue-cache_to_cache w t pc
queue-run_transfer w ((t, pc) ∷ ts) (suc k) = queue-run_transfer w ts k

-- What was heard was answered, or is pending, in its order.
abbrev IsOrdered : Traffic → System → Type 0
IsOrdered p s = p.heard ≡ p.given ++ pending s.world s.memory

snoop_cache-IsOrdered :
    (p : Traffic) (s : System) (id : ℕ) (req : Option Request)
    → IsOrdered p s
    → IsOrdered p (snoop_cache s id req)
unfolding snoop_cache
snoop_cache-IsOrdered p s id none h = h
snoop_cache-IsOrdered p s id (some req) h = h

snoop-IsOrdered :
    (z : Floating) (p : Traffic) (s : System)
    → IsOrdered p s
    → IsOrdered (watch_step z p s memory_snooper) (record s { world = MainMemory.snoop z s.world })
unfolding watch_step MainMemory.snoop
snoop-IsOrdered z p s h = elim (Option-cases (see_request z s.world.bus)) [
  | inl e ↦ rw (MainMemory.snoop, e) (append-nil p.heard ∙ h)
  | inr (req, e) ↦
      rw (MainMemory.snoop, e)
        (cc (
          h,
          append_assoc p.given (pending s.world s.memory) (req ∷ []),
          append_assoc (in_hand s.memory) s.world.queue (req ∷ []),
        ))
]

move-IsOrdered :
    (z : Floating) (n : ℕ) (p : Traffic) (s : System) (c : Choice)
    → IsOrdered p s
    → IsOrdered (watch_step z p s c) (move z n s c)
unfolding move watch_step cpu_moved cache_moved transfers_moved memory_moved wires_updated
move-IsOrdered z n p s (cpu id) h =
    if_cases (IsOrdered p) (ltb id n) (λ _. rw (queue-cpu s.world id (s.cpus id)) h) (λ _. h)
move-IsOrdered z n p s (cache id elapsed) h =
    if_cases (IsOrdered p) (ltb id n) (λ _. rw (queue-cache z elapsed s.world id (s.caches id)) h)
      (λ _. h)
move-IsOrdered z n p s (snooper id) h =
    if_cases (IsOrdered p) (ltb id n && s.snooper_woken id)
      (λ _. snoop_cache-IsOrdered p (asleep s id) id (see_any z id s.world.bus) h) (λ _. h)
move-IsOrdered z n p s (transfer k) h = rw (queue-run_transfer s.world s.transfers k) h
move-IsOrdered z n p s memory h =
    let (w', pc') = MainMemory.execute s.world s.memory in
    let now : List Request = if is_responding pc' then first (pending s.world s.memory) else [] in
    cc (h, memory-pending s.world s.memory, append_assoc p.given now (pending w' pc'))
move-IsOrdered z n p s memory_snooper h = snoop-IsOrdered z p s h
move-IsOrdered z n p s wires_update h = h

watch-IsOrdered :
    (z : Floating) (n : ℕ) (p : Traffic) (s : System) (choices : List Choice)
    → IsOrdered p s
    → IsOrdered (watch z n p s choices) (run z n s choices)
unfolding watch run step
watch-IsOrdered z n p s [] h = h
watch-IsOrdered z n p s (c ∷ cs) h =
    watch-IsOrdered z n (if s.over then p else watch_step z p s c) (step z n s c) cs
      (if_stopped s.over)
  where
    if_stopped :
        (b : Bool) → IsOrdered (if b then p else watch_step z p s c) (if b then s else move z n s c)
    if_stopped true = h
    if_stopped false = move-IsOrdered z n p s c h

abbrev pub no_traffic : Traffic
no_traffic = record { heard = []; given = [] }

-- In every run of the simulation, for any trace and any choices of the process that goes on, the
-- requests that the memory has seen on the bus are, in their order, those that it has answered, then
-- the one that it has in hand, then those of its queue; and if its next step comes to respond, what it
-- puts on the bus is the response to the first that is not answered.
pub responses_in_order :
    (z : Floating) (cpunum : ℕ) (trace : TraceFile) (stats : Stats) (tr_data : ℕ → Entry)
    (choices : List Choice)
    → let start : System = sc_main trace stats tr_data in
      let s = run z cpunum start choices in
      let p = watch z cpunum no_traffic start choices in
      let (w', pc') = MainMemory.execute s.world s.memory in
      (p.heard ≡ p.given ++ pending s.world s.memory)
      × (is_responding pc' ≡ true → responded (pending s.world s.memory) s.world.bus ≡ some w'.bus)
responses_in_order z n trace stats tr_data choices =
    let start : System = sc_main trace stats tr_data in
    let s = run z n start choices in
    (watch-IsOrdered z n no_traffic start choices refl, memory-responded s.world s.memory)
