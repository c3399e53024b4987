-- ===== src/System/Statistics.antt =====
-- src/assignment_1/ and lib/psa.cpp: the statistics of a run, and the requests that they count.
use psa.Prelude.{
  ℕ, ◌<◌, ◌^◌, ◌≡◌, refl, ◌∙◌, Bool, true, false, List, [], ◌∷◌, ◌++◌, Option, none, some,
  if◌then◌else◌, ltb, ltb→lt, ◌&&◌, not, Bool-cases, if_cases, inl, inr,
}
use psa.Lines.{Request}
use psa.Trace.{Entry, TraceFile, eof, reads, ok, open_trace, word_at}
use psa.Trace.Columns.{calls_of, next-column_entry}
use psa.Stats.{Stats, Counters, stats_init, stats_print}
use psa.Stats.Counts.{record_all, stats_print-record_all, table_of}
use psa.Bus.{Floating, see_any}
use psa.SingleCache.Serving.{port_request, cache_request}
use psa.Processor.Sending.{is_round, tr_data}
use psa.System.{
  System, Choice, cpu, cache, snooper, transfer, memory, memory_snooper, wires_update, asleep,
  wires_updated, snoop_cache, transfers_moved, memory_moved, move, step, run, sc_main,
}
use psa.System.Requests.{
  answered_of, events_of, Seen, look_at, observe, observe_step, column_requests,
}
use psa.System.Turns.{memory-SameFront, snoop-SameFront, run_transfer-SameFront}
use psa.System.Observed.{IsSeen, front-IsSeen}
use psa.System.Steps.{Gives, fetch-IsSeen, rest-IsSeen, cache-IsSeen}

module _ (bytes : List ℕ) (n : ℕ) (trace : TraceFile) (stats : Stats) where
  snooper-IsSeen :
      (p : Seen) (s : System) (id : ℕ) (req : Option Request)
      → IsSeen bytes n trace stats p s
      → IsSeen bytes n trace stats p (snoop_cache s id req)
  unfolding snoop_cache
  snooper-IsSeen p s id none h = h
  snooper-IsSeen p s id (some req) h =
      front-IsSeen bytes n trace stats p s (snoop_cache s id (some req)) (refl, refl, refl, refl)
        refl refl h

  move-IsSeen :
      (z : Floating) (p : Seen) (s : System) (c : Choice)
      → Gives bytes n trace stats
      → IsSeen bytes n trace stats p s
      → IsSeen bytes n trace stats (look_at z n p s c) (move z n s c)
  unfolding move look_at transfers_moved memory_moved wires_updated
  move-IsSeen z p s (cpu id) gives h = elim (Bool-cases (ltb id n)) [
    | inl inside ↦ rw inside (elim (Bool-cases (is_round (s.cpus id) && not (eof s.world.trace))) [
      | inl fetches ↦ fetch-IsSeen bytes n trace stats p s id gives (ltb→lt id n inside) fetches h
      | inr rests ↦ rest-IsSeen bytes n trace stats p s id (ltb→lt id n inside) rests h
    ])
    | inr outside ↦ rw outside h
  ]
  move-IsSeen z p s (cache id elapsed) gives h = elim (Bool-cases (ltb id n)) [
    | inl inside ↦
        rw inside (cache-IsSeen bytes n trace stats z elapsed p s id (ltb→lt id n inside) h)
    | inr outside ↦ rw outside h
  ]
  move-IsSeen z p s (snooper id) gives h =
      if_cases (IsSeen bytes n trace stats p) (ltb id n && s.snooper_woken id)
        (λ _.
          snooper-IsSeen p (asleep s id) id (see_any z id s.world.bus)
            (front-IsSeen bytes n trace stats p s _ (refl, refl, refl, refl) refl refl h))
        (λ _. h)
  move-IsSeen z p s (transfer k) gives h =
      front-IsSeen bytes n trace stats p s _ (run_transfer-SameFront s.world s.transfers k) refl
        refl h
  move-IsSeen z p s memory gives h =
      front-IsSeen bytes n trace stats p s _ (memory-SameFront s.world s.memory) refl refl h
  move-IsSeen z p s memory_snooper gives h =
      front-IsSeen bytes n trace stats p s _ (snoop-SameFront z s.world) refl refl h
  move-IsSeen z p s wires_update gives h =
      front-IsSeen bytes n trace stats p s _ (refl, refl, refl, refl) refl refl h

  run-IsSeen :
      (z : Floating) (p : Seen) (s : System) (choices : List Choice)
      → Gives bytes n trace stats
      → IsSeen bytes n trace stats p s
      → IsSeen bytes n trace stats (observe z n p s choices) (run z n s choices)
  unfolding run step observe
  run-IsSeen z p s [] gives h = h
  run-IsSeen z p s (c ∷ cs) gives h =
      run-IsSeen z (observe_step z n p s c) (step z n s c) cs gives (if_stopped s.over)
    where
      if_stopped :
          (b : Bool)
          → IsSeen bytes n trace stats
              (if b then p else look_at z n p s c)
              (if b then s else move z n s c)
      if_stopped true = h
      if_stopped false = move-IsSeen z p s c gives h

abbrev pub nothing_seen : Seen
nothing_seen = record { calls = []; answers = [] }

-- For a trace file of fewer than 2 ^ 30 processors that opens, and the counters as `stats_init` makes
-- them, in every run of the simulation, for any choices of the process that goes on: no access to
-- counters that were freed comes about; the table that `stats_print` writes has for each processor how
-- often its cache has answered a request as a hit and as a miss, reads and writes apart (modulo 2 ^ 32);
-- and for each processor, the requests that were answered, then the one that stands at the port of its
-- cache or that the cache serves, are, in their order, reads and writes with their addresses, those of
-- the words that `next` has given the processor, its own words in the file.
pub run_statistics :
    {Double : Type 0} (percentage : ℕ → ℕ → Double) (z : Floating) (garbage : ℕ) (bytes : List ℕ)
    (old : ℕ → Counters) (tr_data : ℕ → Entry) (choices : List Choice) {trace : TraceFile}
    {stats : Stats}
    → word_at bytes 4 < 2 ^ 30
    → open_trace garbage (some bytes) ≡ ok trace
    → stats_init true old (word_at bytes 4) ≡ some stats
    → let n = word_at bytes 4 in
      let start : System = sc_main trace stats tr_data in
      let s = run z n start choices in
      let p = observe z n nothing_seen start choices in
      (stats' : Stats) × (s.world.stats ≡ some stats')
      × (stats_print percentage stats' ≡ some (table_of percentage (events_of p.answers) n 0))
      × ((id : ℕ)
          → id < n
          → answered_of id p.answers
              ++ port_request (s.world.requests id)
              ++ cache_request (s.caches id)
            ≡ column_requests bytes n id (calls_of id p.calls))
unfolding column_requests reads record_all
run_statistics percentage z garbage bytes old tr_data choices {trace} {stats} few opens inits =
    let n = word_at bytes 4 in
    let start : System = sc_main trace stats tr_data in
    let p = observe z n nothing_seen start choices in
    let h =
      run-IsSeen bytes n trace stats z nothing_seen start choices
        (λ calls id e lt. next-column_entry garbage bytes calls id e few opens lt)
        (record {
          read = refl;
          counted = refl;
          each = λ id lt. (tt, inl (refl, refl, refl), refl);
        }) in
    let (stats', all, table) =
      stats_print-record_all percentage n old (events_of p.answers) inits in
    (stats', h.counted ∙ all, table, λ id lt. (h.each id lt).2)
