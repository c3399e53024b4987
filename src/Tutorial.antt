-- ===== src/Tutorial.antt =====
-- src/tutorial/tutorial.cpp: a processor with random requests and a memory, which meet at four signals and
-- a clock.
--
-- A cycle of the clock has two delta cycles: in the first the processes run that wait for the clock, in
-- any order, and what they write is seen in the second, in which the processes run that wait for a
-- signal. The first thing that a process does is to wait for the clock. A word is a pattern of 32 bits.
pub mod Requests
pub mod Rounds
pub mod Served
pub mod Tests
use psa.Prelude.{
  ℕ, zero, suc, ◌+◌, ◌%◌, ltb, ◌==◌, Bool, true, false, Option, none, some, if◌then◌else◌, update,
}

-- `MEM_SIZE`
abbrev pub mem_size : ℕ
mem_size = 512

-- `Memory::Function`
pub data Function : Type 0 where
  func_read func_write : Function

-- `Memory::RetCode`
pub data RetCode : Type 0 where
  ret_read_done ret_write_done : RetCode

-- The values of the signals; each process has a driver of the data wires, `none` where it
-- releases them or has not written yet.
pub record Signals : Type 0 where
  pub func : Function
  pub addr : ℕ
  pub done : RetCode
  pub cpu_data : Option ℕ
  pub mem_data : Option ℕ

-- Where `Memory::execute` waits: for its first edge of the clock, for a function, for the delay to
-- pass, with its local variables and the edges before the last one, and to release the data
pub data MemoryPlace : Type 0 where
  starts awaits_func releases : MemoryPlace
  delays : Function → ℕ → ℕ → ℕ → MemoryPlace

-- Where `CPU::execute` waits: for its first edge, to release the data, for the memory, for the next
-- cycle
pub data CpuPlace : Type 0 where
  begins releases_data awaits_done advances : CpuPlace

-- The two modules and the signals, with the values that are written and not seen yet. `drawn` counts
-- the calls of `rand`.
pub record Top : Type 0 where
  pub memory : MemoryPlace
  pub m_data : ℕ → ℕ
  pub cpu : CpuPlace
  pub drawn : ℕ
  pub now : Signals
  pub next : Signals
  pub func_written : Bool
  pub done_written : Bool

-- The data wires, as the drivers leave them
pub data Wires : Type 0 where
  released clashing : Wires
  driven : ℕ → Wires

abbrev pub resolve : Option ℕ → Option ℕ → Wires
resolve none none = released
resolve (some x) none = driven x
resolve none (some y) = driven y
resolve (some x) (some y) = if x == y then driven x else clashing

-- `Port_Data.read()`
abbrev pub data_wires : Signals → Wires
data_wires g = resolve g.cpu_data g.mem_data

-- `to_int()`, where `unclear` is what it makes of wires that are not driven
abbrev pub to_int : ℕ → Wires → ℕ
to_int unclear (driven x) = x
to_int unclear _ = unclear

-- The memory after its delay
unfoldable pub finish : Function → ℕ → ℕ → Top → Top
finish func_read addr word s =
    let g : Signals = s.next in
    record s {
      memory = releases;
      next = record g {
        mem_data = some (if ltb addr mem_size then s.m_data addr else 0);
        done = ret_read_done;
      };
      done_written = true;
    }
finish func_write addr word s =
    let g : Signals = s.next in
    record s {
      memory = awaits_func;
      m_data = if ltb addr mem_size then update s.m_data addr word else s.m_data;
      next = record g { done = ret_write_done };
      done_written = true;
    }

-- `Memory::execute` at an edge of the clock
unfoldable pub memory_edge : MemoryPlace → Top → Top
unfolding finish
memory_edge starts s = record s { memory = awaits_func }
memory_edge awaits_func s = s
memory_edge (delays f addr word zero) s = finish f addr word s
memory_edge (delays f addr word (suc n)) s = record s { memory = delays f addr word n }
memory_edge releases s =
    let g : Signals = s.next in
    record s { memory = awaits_func; next = record g { mem_data = none } }

-- `Memory::execute` when the function was written
unfoldable pub memory_event : ℕ → MemoryPlace → Top → Top
memory_event unclear awaits_func s =
    let g : Signals = s.now in
    let word : ℕ = elim g.func [ func_read ↦ 0 | func_write ↦ to_int unclear (data_wires g) ] in
    record s { memory = delays g.func g.addr word 99 }
memory_event unclear _ s = s

-- The processor with the function and the address of its next request
unfoldable pub send : (ℕ → ℕ) → Function → ℕ → Top → Top
send rand func_read addr s =
    let g : Signals = s.next in
    record s {
      cpu = awaits_done;
      drawn = s.drawn + 2;
      next = record g { addr = addr; func = func_read };
      func_written = true;
    }
send rand func_write addr s =
    let g : Signals = s.next in
    record s {
      cpu = releases_data;
      drawn = s.drawn + 3;
      next = record g { addr = addr; func = func_write; cpu_data = some (rand (s.drawn + 2)) };
      func_written = true;
    }

-- The function that is drawn
abbrev pub draw_function : ℕ → Function
draw_function x = if ltb (x % 10) 5 then func_read else func_write

-- `CPU::execute` at an edge of the clock; `rand k` is what call number `k` of `rand` returns.
unfoldable pub cpu_edge : (ℕ → ℕ) → CpuPlace → Top → Top
unfolding send
cpu_edge rand releases_data s =
    let g : Signals = s.next in record s { cpu = awaits_done; next = record g { cpu_data = none } }
cpu_edge rand awaits_done s = s
cpu_edge rand _ s = send rand (draw_function (rand s.drawn)) (rand (s.drawn + 1) % mem_size) s

-- `CPU::execute` when the memory is done
unfoldable pub cpu_event : CpuPlace → Top → Top
cpu_event awaits_done s = record s { cpu = advances }
cpu_event _ s = s

-- The first delta cycle, in either order of the processes
unfoldable pub edge : (ℕ → ℕ) → Bool → Top → Top
unfolding memory_edge cpu_edge
edge rand true s = let s' = memory_edge s.memory s in cpu_edge rand s'.cpu s'
edge rand false s = let s' = cpu_edge rand s.cpu s in memory_edge s'.memory s'

-- The values written are seen, and the second delta cycle, in which nothing is written
unfoldable pub notified : ℕ → Top → Top
unfolding memory_event cpu_event
notified unclear s =
    let s0 : Top = record s { now = s.next; func_written = false; done_written = false } in
    let s1 : Top = if s.func_written then memory_event unclear s0.memory s0 else s0 in
    if s.done_written then cpu_event s1.cpu s1 else s1

unfoldable pub cycle : (ℕ → ℕ) → ℕ → Bool → Top → Top
unfolding edge notified
cycle rand unclear order s = notified unclear (edge rand order s)

-- `sc_main`: the modules before the first edge, with what the new array and the signals hold
unfoldable pub sc_main : (ℕ → ℕ) → Top
sc_main m_data =
    let g : Signals = record {
      func = func_read;
      addr = 0;
      done = ret_read_done;
      cpu_data = none;
      mem_data = none;
    } in
    record {
      memory = starts;
      m_data = m_data;
      cpu = begins;
      drawn = 0;
      now = g;
      next = g;
      func_written = false;
      done_written = false;
    }

-- The state after some cycles; `orders k` is the order in cycle `k`.
unfoldable pub run : (ℕ → ℕ) → ℕ → (ℕ → ℕ) → (ℕ → Bool) → ℕ → Top
unfolding cycle sc_main
run rand unclear m_data orders zero = sc_main m_data
run rand unclear m_data orders (suc k) =
    cycle rand unclear (orders k) (run rand unclear m_data orders k)
