-- ===== src/Bus.antt =====
-- src/assignment_1/Bus.h: the bus that the caches and the memory share. A method that waits for the
-- clock is two functions here, what it does before the wait and what it does after it.
--
-- A wire is an `sc_signal_rv`: `none` is a vector of `Z`, which every writer leaves when it is done,
-- and `some` the value of the one process that drives it. What `to_int` gives for a vector of `Z`
-- is SystemC's, and a parameter. A write reaches the readers in SystemC's next update phase: the bus
-- has for each wire what was written last and what it reads as.
pub mod Protocol
pub mod Tests
use psa.Prelude.{
  ℕ, Bool, true, false, ◌&&◌, ◌||◌, not, Option, none, some, if◌then◌else◌, ◌==◌, minus_one,
}
use psa.Lines.{
  LineState, modified, owned, exclusive, shared, requested, Function, nothing, read, write,
  invalidate, response, Request,
}

-- What `Port_BusAddr`, `Port_BusFunc`, `Port_ProcID` and `Port_SourceID` read as
pub record Wires : Type 0 where
  pub addr : Option ℕ
  pub func : Option Function
  pub proc : Option ℕ
  pub source : Option ℕ

-- `bus_addr`, `bus_func`, `proc_id` and `source_id` are what was last written to these ports.
-- `bus_mutex` is whether it is locked.
pub record Bus : Type 0 where
  pub bus_addr : Option ℕ
  pub bus_func : Option Function
  pub proc_id : Option ℕ
  pub source_id : Option ℕ
  pub wires : Wires
  pub bus_mutex : Bool
  pub intended : Bool
  pub c2c_intended : Bool

-- The constructor
abbrev pub idle_bus : Bus
idle_bus = record {
  bus_addr = none;
  bus_func = none;
  proc_id = none;
  source_id = none;
  wires = record { addr = none; func = none; proc = none; source = none };
  bus_mutex = false;
  intended = false;
  c2c_intended = false;
}

abbrev pub dram_identifier : ℕ
dram_identifier = minus_one

-- What the readers of a wire get while nothing drives it
pub record Floating : Type 0 where
  pub number : ℕ
  pub func : Function

abbrev pub read_wire {ℓ} : {A : Type ℓ} → A → Option A → A
read_wire z none = z
read_wire z (some a) = a

abbrev pub Function-code : Function → ℕ
Function-code nothing = 0
Function-code read = 1
Function-code write = 2
Function-code invalidate = 3
Function-code response = 4
Function-code Function.requested = 5

abbrev pub is_func : Function → Function → Bool
is_func f g = Function-code f == Function-code g

abbrev pub same_func : Option Function → Option Function → Bool
same_func none none = true
same_func (some f) (some g) = is_func f g
same_func _ _ = false

-- SystemC's update phase: each wire takes the value last written. `Port_BusFunc` then notifies its
-- `value_changed_event` if it took another one.
abbrev pub update_wires : Bus → Bus
update_wires b = record b {
  wires = record { addr = b.bus_addr; func = b.bus_func; proc = b.proc_id; source = b.source_id };
}

abbrev pub func_changes : Bus → Bool
func_changes b = not (same_func b.wires.func b.bus_func)

-- The test that `read`, `write` and `cacheline_invalidate` begin with, where `try_lock` comes last
abbrev taken : Bus → Bool
taken b = b.c2c_intended || b.intended || b.bus_mutex

abbrev drive : Function → ℕ → ℕ → Bus → Bus
drive f proc addr b = record b {
  bus_addr = some addr;
  bus_func = some f;
  proc_id = some proc;
  bus_mutex = true;
}

-- `read`, `write` and `cacheline_invalidate` up to their wait; `none` is that they return false.
unfoldable pub begin_read : ℕ → ℕ → Bus → Option Bus
begin_read proc addr b = if taken b then none else some (drive read proc addr b)

unfoldable pub begin_write : ℕ → ℕ → Bus → Option Bus
begin_write proc addr b = if taken b then none else some (drive write proc addr b)

unfoldable pub begin_invalidate : ℕ → ℕ → Bus → Option Bus
begin_invalidate addr proc b = if taken b then none else some (drive invalidate proc addr b)

-- The same methods after their wait
unfoldable pub end_request : Bus → Bus
end_request b = record b { bus_addr = none; bus_func = none; proc_id = none; bus_mutex = false }

-- What a round of `wait_for_response` comes to: it waits on, with the state that it would return, or
-- returns.
pub data Response : Type 0 where
  waits : LineState → Response
  returns : LineState → Response

-- One round of `wait_for_response`, at a change of the clock
unfoldable pub see_response : Floating → ℕ → ℕ → LineState → Bus → Response
see_response z proc addr res b =
    let func = read_wire z.func b.wires.func in
    if not (read_wire z.number b.wires.addr == addr)
      || not (read_wire z.number b.wires.proc == proc)
      || not (is_func func response) && not (is_func func Function.requested)
    then waits res
    else if is_func func Function.requested
    then waits shared
    else if not (read_wire z.number b.wires.source == dram_identifier)
    then returns shared
    else returns res

-- One round of `wait_for_any`, once the `value_changed_event` of `Port_BusFunc` has woken it
unfoldable pub see_any : Floating → ℕ → Bus → Option Request
see_any z proc b =
    let func = read_wire z.func b.wires.func in
    if not (is_func func invalidate) && not (is_func func write) && not (is_func func read)
      || read_wire z.number b.wires.proc == proc
    then none
    else some (record {
      id = read_wire z.number b.wires.proc;
      addr = read_wire z.number b.wires.addr;
      func = func;
    })

-- One round of `get_next_request`, at a change of the clock
unfoldable pub see_request : Floating → Bus → Option Request
see_request z b =
    let func = read_wire z.func b.wires.func in
    if is_func func response || is_func func nothing
    then none
    else some (record {
      id = read_wire z.number b.wires.proc;
      addr = read_wire z.number b.wires.addr;
      func = func;
    })

-- `memory_response` from the test of the second loop: `none` is that it waits with `intended` set.
unfoldable pub begin_response : ℕ → ℕ → Bus → Option Bus
begin_response proc addr b =
    if b.bus_mutex
    then none
    else some
        (record (drive response proc addr b) { source_id = some dram_identifier; intended = true })

unfoldable pub end_response : Bus → Bus
end_response b = record b {
  bus_addr = none;
  bus_func = none;
  proc_id = none;
  source_id = none;
  bus_mutex = false;
  intended = false;
}

-- The `switch` of `cache_to_cache` on the state of the line of the cache that answers
abbrev pub shared_out : LineState → LineState
shared_out modified = owned
shared_out exclusive = shared
shared_out st = st

-- `*clstate == CACHEL_REQUESTED? FUNC_REQUESTED : FUNC_RESPONSE`
abbrev pub transfer_func : LineState → Function
transfer_func requested = Function.requested
transfer_func _ = response

-- `cache_to_cache` from the test of its loop; `none` is that it waits.
unfoldable pub begin_transfer : ℕ → ℕ → ℕ → LineState → Bus → Option (Bus × LineState)
begin_transfer proc source addr st b =
    if b.bus_mutex
    then none
    else some
        (record (drive (transfer_func st) proc addr b) { source_id = some source }, shared_out st)

unfoldable pub end_transfer : Bus → Bus
end_transfer b = record b {
  bus_addr = none;
  bus_func = none;
  proc_id = none;
  source_id = none;
  bus_mutex = false;
  c2c_intended = false;
}
