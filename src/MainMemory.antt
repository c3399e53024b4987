-- ===== src/MainMemory.antt =====
-- src/assignment_1/Memory.h: the process `execute` of the memory, between its waits, and its process
-- `snoop`. The data of the memory is never read nor written, so the model has none.
use psa.Prelude.{ℕ, zero, suc, true, List, [], ◌∷◌, Option, none, some, if◌then◌else◌}
use psa.Lines.{Request}
use psa.Bus.{Bus, Floating, see_request, begin_response, end_response}
use psa.World.{World, push}

-- Where `execute` waits: in `memory_controller_wait`, for the clock behind it, in the loop that
-- simulates the delay with the rounds left, in the loops of `memory_response` and while it drives.
pub data MemPc : Type 0 where
  starting : MemPc
  controller_wait : MemPc
  woken : MemPc
  delayed : (req : Request) (rounds : ℕ) → MemPc
  yielding : (req : Request) → MemPc
  locking : (req : Request) → MemPc
  responding : MemPc

-- The head of the loop of `execute`, with the queue
take_request : World → List Request → World × MemPc
take_request w [] = (record w { cycles_to_wait = 99 }, controller_wait)
take_request w (req ∷ rest) = (record w { queue = rest }, delayed req w.cycles_to_wait)

-- `memory_response` from the loop over `try_lock`
lock_bus : World → Request → Option Bus → World × MemPc
lock_bus w req none = (record w { bus = record (w.bus) { intended = true } }, locking req)
lock_bus w req (some b) = (record w { bus = b }, responding)

try_response : World → Request → World × MemPc
unfolding lock_bus
try_response w req = lock_bus w req (begin_response req.id req.addr w.bus)

-- `memory_response` from its first line
respond : World → Request → World × MemPc
unfolding try_response
respond w req = if w.bus.c2c_intended then (w, yielding req) else try_response w req

-- The loop `for(int i = 0; i < cycles_to_wait; ++i)` has rounds left or not.
delay : World → Request → ℕ → World × MemPc
unfolding respond
delay w req zero = respond w req
delay w req (suc n) = (w, delayed req n)

-- A request that was taken is delayed at once if there are rounds to wait.
begin_delay : World × MemPc → World × MemPc
unfolding delay
begin_delay (w, delayed req n) = delay w req n
begin_delay (w, pc) = (w, pc)

-- `Memory::execute`, from the wait at which it stands to the next
unfoldable pub execute : World → MemPc → World × MemPc
unfolding take_request try_response respond delay begin_delay
execute w starting = begin_delay (take_request w w.queue)
execute w controller_wait = (w, woken)
execute w woken = begin_delay (take_request w w.queue)
execute w (delayed req n) = delay w req n
execute w (yielding req) = respond w req
execute w (locking req) = try_response w req
execute w responding =
    let w' = record w { bus = end_response w.bus; cycles_to_wait = 10 } in
    begin_delay (take_request w' w'.queue)

-- One round of `Memory::snoop`, at a change of the clock
unfoldable pub snoop : Floating → World → World
snoop z w = elim (see_request z w.bus) [ none ↦ w | some req ↦ push w req ]
