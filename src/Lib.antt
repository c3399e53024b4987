-- ===== src/Lib.antt =====
-- A verification library for the simulator of a multiprocessor with snooping caches (lib/ and
-- src/assignment_1/), for the tutorial that comes with it (src/tutorial), and for the TLM-2.0 programs
-- beside it (locknsnoop/).
--
-- The simulator. `sc_main` of src/assignment_1/assignment1.cpp opens a trace file (lib/psa.cpp), which
-- holds a list of memory requests for each processor, and connects a processor (CPU.h) and a cache
-- (Cache.h) for each list, one memory (Memory.h) and one bus (Bus.h). They are processes of SystemC
-- that run until they wait. A processor takes its next request from the trace, hands it to its cache
-- and waits for the answer. A cache looks the address up in a set of 8 lines; it invalidates the
-- copies of others before it writes, and on a miss writes the victim back and reads the line, all by
-- requests on the bus. Each cache has a second process that sees the requests of the others, drops
-- its line or starts a transfer to the one that reads. The memory queues what it sees on the bus and
-- responds after a delay. The caches count hits and misses (lib/psa.cpp).
--
-- The TLM-2.0 programs. In locknsnoop/snooping_sticky/snooping.cpp two initiators reach two memories
-- through an interconnect; one keeps a copy of a region of the second memory, which tells it of the
-- next write to that region and meanwhile grants nobody a pointer to write through. In
-- locknsnoop/locking_sticky, locking_auto and locking_two an interconnect bounces transactions for a
-- locked address, or a conditional store whose link is gone, and an initiator with two threads uses
-- both; the three differ in the extension that carries a request. This initiator and others reach
-- their targets through the interconnect of locknsnoop/common/at_interconnect.h. A checker of the base
-- protocol (locknsnoop/common/tlm2_base_protocol_checker.h) may stand between any two of them.
--
-- The files.
--   Prelude: numbers, Boolean tests, lists and words of 32 bits that the parts share.
--   Trace (lib/psa.h, lib/psa.cpp): `open_trace` is the constructor of `TraceFile`; `next`, `eof`
--     and `close` its methods; `init_tracefile` sets what the function of that name sets. A stream
--     is the list of its bytes, a position an offset into it. Trace/Opening has the files that the
--     constructor accepts, Trace/Ended the count of the traces that have ended, Trace/Columns the
--     trace of one processor as a column of the file, Trace/Termination the end of all of them.
--   Stats (lib/psa.cpp): the counters, their four updates, and the table of `stats_print`.
--     Stats/Counts compares the table with the list of the events.
--   Lines (src/assignment_1/utils.h, Cache.h): lines, sets and tags, the search `check_line` of
--     `execute`, and a round of `snooping`. Lines/Address, Lines/Victims (by way of Lines/Searching)
--     and Lines/Snooped have the theorems on each.
--   Bus (src/assignment_1/Bus.h): the wires, the lock and the two intentions as a record; a method
--     that waits is one function before the wait, `begin_read`, and one after it, `end_request`.
--     `wait_for_response`, `wait_for_any` and `get_next_request` are what they do in one round.
--     A wire has the value last written and the one it reads as; `update_wires` is SystemC's update
--     phase, and `func_changes` whether it wakes who waits for a change of `Port_BusFunc`.
--     Bus/Protocol says what the others see of a request, a response and a transfer.
--   World: what the processes share: the bus, the lines of every cache, the signals between a
--     processor and its cache, the queue of the memory, the counters.
--   SingleCache, MainMemory, Processor (src/assignment_1/Cache.h, Memory.h, CPU.h): the process
--     `execute` of each. SingleCache/Completion and SingleCache/Pending have theorems on the first.
--   System (src/assignment_1/assignment1.cpp): all processes, with the transfers that
--     `Bus::cache_to_cache` runs, and a step of any of them or of the wires. System/Holders, Drives and Others lead
--     to System/Exclusion and System/Wires, which are about every run. System/Requests says what is
--     seen of a run; Processor/Sending, SingleCache/Serving, Turns, Handshake, Served, Answered,
--     Observed and Steps lead to System/Statistics, which compares it with the trace file and the
--     counters. System/Responses is about the queue of the memory.
--   Snooping (locknsnoop/snooping_sticky/snooping.cpp): `memory_transport`, `memory_dmi` and
--     `memory_debug` are the calls of `Memory`. Snooping/Debug has `transport_dbg`,
--     Snooping/Interconnect the calls of `Interconnect`, and Snooping/Initiators `refresh` and
--     `snooper_step` of `Snooping_initiator`, `access` of `Initiator`, and runs of the two. Table,
--     Freshness and Regular lead to Snooping/Runs, which is about every run.
--   Locking (locknsnoop/locking_*): `test_lock` and `test_link` are `locked` and
--     `load_link_store_conditional` once the extension is read, Locking/Initiator has the rounds of
--     the threads, and Sticky, Auto and Two what each of the programs does with its extensions.
--     Locking/Ownership, Locking/Linked and Locking/Cycles have the theorems.
--   GpMm (locknsnoop/common/gp_mm.h): `allocate` and `free` on the entries of the linked list;
--     GpMm/Stack compares them with a stack, and GpMm/Destructor has the two loops of the
--     destructor.
--   AtInterconnect (locknsnoop/common/at_interconnect.h): `nb_transport_fw` in Forward,
--     `nb_transport_bw` in Backward and the processes of the two events in Processes; Requests,
--     Queues and Steps lead to AtInterconnect/Order, which is about every run. Open says which
--     request a target holds open, from the calls and answers alone; Calls and Following relate it
--     to the members of the interconnect.
--   AtModules (locknsnoop/common/at_type*.h): the targets and the initiators that meet at that
--     interconnect. Typea has the targets of at_typea_target.h and at_typeb_target.h, Typec, Typed
--     and Typee one each, and Initiators both initiators, with their steps in Initiators/Steps. The
--     functions have the names of the methods; those of the second module of a pair, where its text
--     is another, begin with `typeb_`, and `on_begin_req`, `on_end_resp` and `on_internal` are the
--     cases of `peq_cb`. Pipeline, Answered and Draining are about every run of the first two
--     targets, Single and Responses of those of type C and D, Exclusion of the initiators, and
--     Rounds of an initiator before a target of type E. Open says which request of an initiator is
--     open, from the calls and answers alone.
--   Checker (locknsnoop/common/tlm2_base_protocol_checker.h): Attributes has the checks of the
--     attributes of a transaction, Paths those of its path and of the other calls, Phases those of
--     the phases, and Transport `nb_transport_fw` and `nb_transport_bw`. Rules states the rules of
--     the base protocol; Tracking, Silence, Counting and Calls lead to Checker/Runs, which is about
--     every run without a report, and Exact, Alarms, Accepts, Answers, Legal and Copies to
--     Checker/Verdict, which is about every run that keeps the rules.
--   Tutorial (src/tutorial/tutorial.cpp): the processor and the memory of the tutorial, their
--     signals and the cycles of the clock. Requests has a memory that serves the requests at once;
--     Rounds and Served show that the program does as it does.
--
-- How the code is modelled. A process is undisturbed between two waits, as the kernel of SystemC
-- runs one at a time. So a process is a function from the world and the place where it waits, with
-- its local variables there, to the world and the place of its next wait; `goto` and the loops that
-- poll the bus are moves between places. A run is a list of choices, each the process that goes on, or
-- the update phase in which the wires of the bus take the values last written: any order is allowed,
-- but that a process `snooping` goes on only after an update that changed the function on the bus. So
-- the runs are more than those of the kernel, and what holds in all of them holds in the program. A
-- call of `sc_stop` lets the processes go on until the update phase, and none after it. A loop that the code bounds is recursion on the rounds left. A word of 32
-- bits is a natural number with the wrap-around written out; an address is the pattern of an `int`.
-- A call of TLM-2.0 is a function that gives the payload back, and a call in the other direction,
-- such as `invalidate_direct_mem_ptr`, is a value that the caller's model applies before it goes on.
--
-- Parameters. The bytes of a file, the value in a member that the constructor leaves uninitialised,
-- the value of `to_int` for a wire that nothing drives, the microseconds that `clock_gettime` gives,
-- the quotient of two doubles, the values of `rand()`, and what the modules behind the interconnect of
-- the AT example, or beyond the socket of one of its modules, answer are arguments of the
-- definitions that use them.
--
-- The payload event queue of tlm_utils is the list of the events that were notified; a run says which
-- of them comes up next, so that what holds in all runs holds for the order of their times. In
-- AtModules the calls of a module are noted in its state, so that theorems can count them, and each
-- step begins with a change of the payloads that the other modules may have made.
--
-- Bounds. A cache has 8192 lines in sets of 8; a run is as long as its list of choices; the only
-- recursions are over lists, over the 8 lines of a set and over the processors of a trace, so there
-- is no fuel to run out. The checker counts its checks down from 100000 and then stops; theorems on it
-- are about fewer calls.
--
-- Not modelled: messages to the console and the reading of arguments by `atoi`; the data words of a
-- line and of the memory, which the program never reads nor writes; the exact cycle at which a
-- process wakes, where the model lets it wake at any (Tutorial has the exact cycles); the local times
-- of the TLM-2.0 initiators; src/mytutor, whose memory is not connected;
-- the programs lock_example.cpp, which construct the modules and bind their sockets only; the texts of the reports of the
-- checker, and the copies of the buffers that it makes and deletes; and calls that come back into an
-- initiator or a target of AtModules before its own call has returned.
pub mod Prelude
pub mod Trace
pub mod Tutorial
pub mod Stats
pub mod Lines
pub mod Bus
pub mod World
pub mod SingleCache
pub mod MainMemory
pub mod Processor
pub mod System
pub mod Snooping
pub mod Locking
pub mod GpMm
pub mod AtInterconnect
pub mod AtModules
pub mod Checker
