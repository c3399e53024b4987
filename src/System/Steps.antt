-- ===== src/System/Steps.antt =====
-- src/assignment_1/: what was seen of a run, against the state: the steps of processors and caches.
use psa.Prelude.{
  ℕ, ◌<◌, ◌≡◌, refl, sym, subst, ap, ◌∙◌, true, false, List, [], ◌∷◌, ◌++◌, ◌==◌, ◌&&◌, not, arith,
  append-nil,
}
use psa.Trace.{Entry, TraceFile, next, eof, reads}
use psa.Trace.Columns.{column_entry, calls_of, calls_of-append, reads-last}
use psa.Stats.{Stats}
use psa.Bus.{Floating}
use psa.SingleCache
use psa.SingleCache.{Pc, idle}
use psa.Processor
use psa.Processor.{CpuPc}
use psa.Processor.Sending.{is_round, tr_data}
use psa.System.{System, cpu_moved, cache_moved}
use psa.System.Requests.{answered_of, Seen, called, answered}
use psa.System.Served.{
  answered_of-append, calls_of-other, answered_of-other, called-round, fetched-Each, rested-Each,
}
use psa.System.Answered.{cache-Turn}
use psa.System.Observed.{IsSeen, all-EachOf, counted-more}

module _ (bytes : List ℕ) (n : ℕ) (trace : TraceFile) (stats : Stats) where
  -- What `next` gives after the calls that were seen
  abbrev pub Gives : Type 0
  Gives =
      (calls : List (ℕ × Entry)) (id : ℕ) (e : Entry)
      → id < n
      → ((next (reads trace calls) id e).0 ≡ true)
        × ((next (reads trace calls) id e).1 ≡ column_entry bytes n id (calls_of id calls) e)

  pub fetch-IsSeen :
      (p : Seen) (s : System) (id : ℕ)
      → Gives
      → id < n
      → (is_round (s.cpus id) && not (eof s.world.trace)) ≡ true
      → IsSeen bytes n trace stats p s
      → IsSeen bytes n trace stats
          (record p { calls = p.calls ++ called s.world.trace id (s.cpus id) })
          (cpu_moved s id (Processor.execute s.world id (s.cpus id)))
  unfolding cpu_moved
  fetch-IsSeen p s id gives lt fetches h =
      let c = s.cpus id in
      let given = gives p.calls id (tr_data c) lt in
      let (got, entry) = rw (sym h.read) at given in
      let one : called s.world.trace id c ≡ (id, tr_data c) ∷ [] =
        called-round s.world.trace id c ∙ rw fetches refl in
      let self : (id == id) ≡ true = ground arith in
      let (mine, (requests, dones, stats'), trace') =
        fetched-Each bytes n p s.world id c (s.caches id) fetches got entry (h.each id lt) in
      let more = called s.world.trace id c in
      let new : Seen = record p { calls = p.calls ++ more } in
      let s' : System = cpu_moved s id (Processor.execute s.world id c) in
      record {
        read =
            trace'
            ∙ ap (λ t. (next t id (tr_data c)).2) h.read
            ∙ sym (
                ap (λ xs. reads trace (p.calls ++ xs)) one
                ∙ reads-last trace p.calls id (tr_data c));
        counted = stats' ∙ h.counted;
        each =
            all-EachOf bytes n trace stats p new s s' id (rw self mine)
              (λ j ne.
                let other : (id == j) ≡ false = ground arith in
                (
                  rw other refl,
                  requests j ne,
                  refl,
                  dones j ne,
                  refl,
                  calls_of-append j p.calls more
                      ∙ rw (calls_of-other id j s.world.trace c ne) (omega arith),
                ))
              h.each;
      }

  pub rest-IsSeen :
      (p : Seen) (s : System) (id : ℕ)
      → id < n
      → (is_round (s.cpus id) && not (eof s.world.trace)) ≡ false
      → IsSeen bytes n trace stats p s
      → IsSeen bytes n trace stats
          (record p { calls = p.calls ++ called s.world.trace id (s.cpus id) })
          (cpu_moved s id (Processor.execute s.world id (s.cpus id)))
  unfolding cpu_moved
  rest-IsSeen p s id lt rests h =
      let c = s.cpus id in
      let (mine, (requests, dones, stats'), trace') =
        rested-Each bytes n p s.world id c (s.caches id) rests (h.each id lt) in
      let none_called : p.calls ++ called s.world.trace id c ≡ p.calls =
        ap (λ xs. p.calls ++ xs) (called-round s.world.trace id c ∙ rw rests refl)
        ∙ append-nil p.calls in
      let self : (id == id) ≡ true = ground arith in
      let s' : System = cpu_moved s id (Processor.execute s.world id c) in
      subst (λ xs. IsSeen bytes n trace stats (record p { calls = xs }) s') (sym none_called)
        (record {
          read = trace' ∙ h.read;
          counted = stats' ∙ h.counted;
          each =
              all-EachOf bytes n trace stats p p s s' id (rw self mine)
                (λ j ne.
                  let other : (id == j) ≡ false = ground arith in
                  (rw other refl, requests j ne, refl, dones j ne, refl, refl))
                h.each;
        })

  pub cache-IsSeen :
      (z : Floating) (elapsed : ℕ) (p : Seen) (s : System) (id : ℕ)
      → id < n
      → IsSeen bytes n trace stats p s
      → let (w', k') = SingleCache.execute z elapsed s.world id (s.caches id) in
        IsSeen bytes n trace stats
          (record p { answers = p.answers ++ answered id (s.caches id) k' })
          (cache_moved s id (w', k'))
  unfolding cache_moved
  cache-IsSeen z elapsed p s id lt h =
      let k = s.caches id in
      let (w', k') = SingleCache.execute z elapsed s.world id k in
      let (mine, (requests, dones, trace', stats')) =
        cache-Turn bytes n p z elapsed s.world id (s.cpus id) k (h.each id lt) in
      let self : (id == id) ≡ true = ground arith in
      let more = answered id k k' in
      let new : Seen = record p { answers = p.answers ++ more } in
      let s' : System = cache_moved s id (w', k') in
      record {
        read = trace' ∙ h.read;
        counted = counted-more bytes n trace stats p.answers s.world w' id k k' h.counted stats';
        each =
            all-EachOf bytes n trace stats p new s s' id (rw self mine)
              (λ j ne.
                let other : (id == j) ≡ false = ground arith in
                (
                  refl,
                  requests j ne,
                  rw other refl,
                  dones j ne,
                  answered_of-append j p.answers more
                      ∙ rw (answered_of-other id j k k' ne) (append-nil (answered_of j p.answers)),
                  refl,
                ))
              h.each;
      }
