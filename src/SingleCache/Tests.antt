-- ===== src/SingleCache/Tests.antt =====
-- src/assignment_1/Cache.h: the theorems about the cache's own process, at concrete places and
-- worlds.
use psa.Prelude.{ℕ, ◌≡◌, ◌⊎◌, refl, true, false, some, none, update, arith, []}
use psa.Lines.{exclusive, nothing, read, Function, Request, tag_of, present, snooping}
use psa.Trace.{TraceFile}
use psa.Stats.{block, zeroed}
use psa.Stats.Counts.{record_event}
use psa.Bus.{Floating}
use psa.World.{World, initial, count}
use psa.SingleCache.{Pc, fill_waiting, execute, post_writeback}
use psa.SingleCache.Completion.{
  IsServing, is_finished, is_idle, serves_write, event_of, code_of, execute-completes,
}
use psa.SingleCache.Pending.{post_writeback-unseen}

abbrev zeros : Floating
zeros = record { number = 0; func = nothing }

abbrev no_trace : TraceFile
no_trace = record { input = []; positions = []; num_finished = 0; endstream = 0 }

abbrev world : World
world = initial no_trace (record { num_cpus = 2; percpu = block (λ i. zeroed) })

-- Cache 0 waits for the line of 0x5040, and the response of the memory is on the bus.
abbrev answered : World
answered = record world {
  bus = record {
    bus_addr = some 0x5040;
    bus_func = some Function.response;
    proc_id = some 0;
    source_id = some 0xffffffff;
    wires = record {
      addr = some 0x5040;
      func = some Function.response;
      proc = some 0;
      source = some 0xffffffff;
    };
    bus_mutex = true;
    intended = true;
    c2c_intended = false;
  };
}

abbrev waiting : Pc
waiting = fill_waiting read 0x5044 19 exclusive

execute-completes_example :
    let (w', pc') = execute zeros 5 answered 0 waiting in
    IsServing pc'
    × (((is_finished pc' ≡ true)
          × (w'.dones ≡ update answered.dones 0 (some (code_of (event_of waiting))))
          × (w'.stats ≡ (count (record_event (event_of waiting)) answered 0).stats))
        ⊎ ((is_finished pc' ≡ false)
            × (w'.dones ≡ answered.dones)
            × (w'.stats ≡ answered.stats)
            × ((is_idle waiting ≡ true) ⊎ (serves_write pc' ≡ serves_write waiting))))
execute-completes_example = execute-completes zeros 5 answered 0 waiting tt

abbrev request : Request
request = record { id = 1; addr = 0x5040; func = read }

empty_absent : (j : ℕ) → present (world.lines 0 j) 0x5044 ≡ false
unfolding present
empty_absent j = refl

post_writeback-unseen_example :
    let w' = (post_writeback world 0 read 0x5044 23).0 in
    snooping 0 (w'.lines 0) request ≡ (w'.lines 0, none)
unfolding tag_of
post_writeback-unseen_example =
    post_writeback-unseen world 0 read 0x5044 23 request (λ j _ _. empty_absent j) (omega arith)
      refl
