-- ===== src/System/Tests.antt =====
-- src/assignment_1/assignment1.cpp: runs of the whole simulation, and the theorems at them.
use psa.Prelude.{
  some, true, false, ◌⊎◌, ◌*◌, ◌/◌, ◌<◌, ◌++◌, arith, ℕ, zero, suc, ◌+◌, ◌≤◌, ◌≡◌, refl, List, [],
  ◌∷◌, sum_of,
}
use psa.Lines.{nothing, read, exclusive, snooping, check_line, present, addr_to_index, tag_of}
use psa.Trace.{TraceFile, Entry, nop, next, word_at}
use psa.Stats.{Stats, block, zeroed, stats_readmiss}
use psa.Bus.{
  Floating, see_any, see_request, see_response, begin_read, end_request, begin_response,
  end_response,
}
use psa.SingleCache
use psa.MainMemory
use psa.Processor
use psa.System.{
  Choice, cpu, cache, snooper, memory, memory_snooper, wires_update, step, run, sc_main,
}
use psa.System.Holders.{cache_holds, memory_holds, lock_bit}
use psa.Trace.{open_trace, ok, start_positions}
use psa.Trace.Columns.{calls_of}
use psa.Stats.{Counters, stats_init, stats_print, clear}
use psa.Stats.Counts.{table_of}
use psa.System.{System}
use psa.SingleCache.Serving.{port_request, cache_request}
use psa.System.Requests.{answered_of, events_of, observe, look_at, column_requests}
use psa.System.Responses.{watch, no_traffic, pending, is_responding, responded, responses_in_order}
use psa.System.Statistics.{nothing_seen, run_statistics}
use psa.System.Exclusion.{transfers_hold, bus_exclusion}
use psa.System.Others.{IsWired}
use psa.System.Wires.{AreSettled, bus_wires}

abbrev zeros : Floating
zeros = record { number = 0; func = nothing }

-- Two processors that each read 0x5040, and the end tags.
abbrev bytes : List ℕ
bytes =
    0x32 ∷ 0x54 ∷ 0x52 ∷ 0x46 ∷ 0 ∷ 0 ∷ 0 ∷ 2 ∷ 0 ∷ 0 ∷ 0x50 ∷ 0x41 ∷ 0 ∷ 0 ∷ 0x50 ∷ 0x41 ∷ 0 ∷ 0
    ∷ 0 ∷ 3 ∷ 0 ∷ 0 ∷ 0 ∷ 3 ∷ []

abbrev trace : TraceFile
trace = record { input = bytes; positions = 8 ∷ 12 ∷ []; num_finished = 0; endstream = 24 }

abbrev stats : Stats
stats = record { num_cpus = 2; percpu = block (λ i. zeroed) }

abbrev tr_data : ℕ → Entry
tr_data id = record { type = nop; addr = 0 }

abbrev both_read : List Choice
both_read = cpu 0 ∷ cpu 1 ∷ cache 0 0 ∷ cache 1 0 ∷ cache 0 0 ∷ cache 1 0 ∷ []

bus_exclusion_example :
    let s = run zeros 2 (sc_main trace stats tr_data) both_read in
    let holders =
      sum_of (λ i. cache_holds (s.caches i)) 2
      + memory_holds s.memory
      + transfers_hold s.transfers in
    (holders ≡ lock_bit s.world.bus) × (holders ≤ 1)
bus_exclusion_example = bus_exclusion zeros 2 trace stats tr_data both_read

abbrev times : ℕ → Choice → List Choice → List Choice
times zero c rest = rest
times (suc n) c rest = c ∷ times n c rest

-- Cache 0 reads and gets the bus, cache 1 sees the request; then cache 1 reads and cache 0 sees it;
-- the memory takes both requests, and answers the first and then the second. The wires are updated
-- before each of these is seen.
abbrev both_answered : List Choice
both_answered =
    cpu 0
    ∷ cpu 1
    ∷ cache 0 0
    ∷ cache 1 0
    ∷ cache 0 0
    ∷ cache 1 0
    ∷ wires_update
    ∷ snooper 1
    ∷ memory_snooper
    ∷ cache 0 7
    ∷ wires_update
    ∷ cache 1 0
    ∷ wires_update
    ∷ snooper 0
    ∷ memory_snooper
    ∷ cache 1 7
    ∷ wires_update
    ∷ times 100 memory (wires_update ∷ cache 0 0 ∷ times 11 memory (wires_update ∷ cache 1 0 ∷ []))

-- Both caches then hold the line, each as the only one.
both_exclusive :
    let s = run zeros 2 (sc_main trace stats tr_data) both_answered in
    (s.world.lines 0 23 ≡ record { counter = 2049; state = exclusive; tag = 5 })
    × (s.world.lines 1 23 ≡ record { counter = 2049; state = exclusive; tag = 5 })
unfolding run Processor.execute SingleCache.execute MainMemory.execute MainMemory.snoop snooping
    see_any see_request see_response next word_at begin_read end_request begin_response end_response
    check_line present addr_to_index tag_of stats_readmiss
both_exclusive = (refl, refl)

-- Cache 1 drives its read in the phase in which cache 0 releases its own: the memory still reads the
-- request of cache 0, the update brings that of cache 1, and wakes nobody.
abbrev in_one_phase : List Choice
in_one_phase =
    cpu 0
    ∷ cpu 1
    ∷ cache 0 0
    ∷ cache 1 0
    ∷ cache 0 0
    ∷ wires_update
    ∷ snooper 0
    ∷ snooper 1
    ∷ cache 0 7
    ∷ cache 1 0
    ∷ []

abbrev before_update : System
before_update = run zeros 2 (sc_main trace stats tr_data) in_one_phase

unnoticed :
    (see_request zeros before_update.world.bus
      ≡ some (record { id = 0; addr = 0x5040; func = read }))
    × (see_request zeros (step zeros 2 before_update wires_update).world.bus
        ≡ some (record { id = 1; addr = 0x5040; func = read }))
    × ((step zeros 2 before_update wires_update).snooper_woken 0 ≡ false)
unfolding step run Processor.execute SingleCache.execute snooping see_any see_request see_response
    next word_at begin_read end_request check_line present addr_to_index tag_of stats_readmiss
unnoticed = (refl, refl, refl)

bus_wires_example :
    let s = run zeros 2 (sc_main trace stats tr_data) both_read in
    let s' = step zeros 2 s wires_update in
    IsWired 2 s × IsWired 2 s' × ((s.over ≡ true) ⊎ AreSettled s'.world.bus)
bus_wires_example = bus_wires zeros 2 trace stats tr_data both_read

opened : open_trace 0 (some bytes) ≡ ok trace
unfolding open_trace word_at start_positions
opened = refl

abbrev old : ℕ → Counters
old i = zeroed

abbrev cleared : Stats
cleared = record { num_cpus = 2; percpu = block (clear 2 old) }

initialised : stats_init true old 2 ≡ some cleared
unfolding stats_init
initialised = refl

abbrev percentage : ℕ → ℕ → ℕ
percentage hits all = hits * 100 / all

abbrev start : System
start = sc_main trace cleared tr_data

run_statistics_example :
    let s = run zeros 2 start both_answered in
    let p = observe zeros 2 nothing_seen start both_answered in
    (stats' : Stats) × (s.world.stats ≡ some stats')
    × (stats_print percentage stats' ≡ some (table_of percentage (events_of p.answers) 2 0))
    × ((id : ℕ)
        → id < 2
        → answered_of id p.answers
            ++ port_request (s.world.requests id)
            ++ cache_request (s.caches id)
          ≡ column_requests bytes 2 id (calls_of id p.calls))
unfolding word_at
run_statistics_example =
    run_statistics percentage zeros 0 bytes old tr_data both_answered (omega arith) opened
      initialised

-- Both processors have sent their read, and both reads were answered.
both_counted :
    let p = observe zeros 2 nothing_seen start both_answered in
    (calls_of 0 p.calls ≡ 1)
    × (answered_of 0 p.answers ≡ (false, 0x5040) ∷ [])
    × (answered_of 1 p.answers ≡ (false, 0x5040) ∷ [])
unfolding observe look_at run Processor.execute SingleCache.execute MainMemory.execute
    MainMemory.snoop snooping see_any see_request see_response next word_at begin_read end_request
    begin_response end_response check_line present addr_to_index tag_of stats_readmiss
both_counted = (refl, refl, refl)

responses_in_order_example :
    let s = run zeros 2 start both_answered in
    let p = watch zeros 2 no_traffic start both_answered in
    let (w', pc') = MainMemory.execute s.world s.memory in
    (p.heard ≡ p.given ++ pending s.world s.memory)
    × (is_responding pc' ≡ true → responded (pending s.world s.memory) s.world.bus ≡ some w'.bus)
responses_in_order_example = responses_in_order zeros 2 trace cleared tr_data both_answered
