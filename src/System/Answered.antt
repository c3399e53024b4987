-- ===== src/System/Answered.antt =====
-- src/assignment_1/: what was seen of a run, against the words of the trace: a step of a cache.
use psa.Prelude.{
  ℕ, ◌≡◌, ◌≢◌, refl, sym, subst, true, false, List, ◌++◌, Option, some, ◌∙◌, if◌then◌else◌, ◌==◌,
  update, arith, append-nil, inl, inr,
}
use psa.Stats.Counts.{record_event}
use psa.Bus.{Floating}
use psa.World.{World, RetCode, count}
use psa.SingleCache
use psa.SingleCache.{Pc, idle, finished}
use psa.SingleCache.Completion.{event_of, code_of, is_finished, is_idle, IsServing}
use psa.SingleCache.Serving.{
  cache_request, execute-Serves, idle-Takes, event_of-kind, cache_request-serving, place-cases,
}
use psa.Processor.{CpuPc}
use psa.System.Requests.{Reply, answered_of, Seen, answered}
use psa.System.Handshake.{is_nothing, taken-Link, taken-Order, answered-Link, answered-Order}
use psa.System.Served.{Each, answered_of-append}

-- A step of a cache that ends no request, and one that does
not_answered :
    (id : ℕ) (k k' : Pc) (xs : List Reply)
    → is_finished k' ≡ false
    → answered_of id (xs ++ answered id k k') ≡ answered_of id xs
not_answered id k k' xs goes = rw (goes, append-nil xs) refl

now_answered :
    (id : ℕ) (k k' : Pc) (xs : List Reply)
    → IsServing k
    → is_idle k ≡ false
    → is_finished k ≡ false
    → is_finished k' ≡ true
    → answered_of id (xs ++ answered id k k') ≡ answered_of id xs ++ cache_request k
now_answered id k k' xs serving busy going ends =
    let mine : (id == id) ≡ true = ground arith in
    answered_of-append id xs (answered id k k')
    ∙ rw (ends, mine, event_of-kind k serving, cache_request-serving k busy going) refl

module _ (bytes : List ℕ) (n : ℕ) (p : Seen) where
  -- The cache of the processor
  taken-Each :
      (z : Floating) (elapsed : ℕ) (w : World) (id : ℕ) (c : CpuPc)
      → Each bytes n p c (w.requests id) idle (w.dones id) id
      → let (w', k') = SingleCache.execute z elapsed w id idle in
        Each bytes n p c (w'.requests id) k' (w'.dones id) id
  taken-Each z elapsed w id c (serving, link, order) =
      let (serving', going, takes, port, else', dones, stats, trace) = idle-Takes z elapsed w id in
      (
        serving',
        rw (port, takes, dones) (taken-Link _ _ _ _ _ _ link order refl),
        rw (port, takes) (taken-Order _ _ _ _ _ _ link order refl),
      )

  answered-Each :
      (z : Floating) (elapsed : ℕ) (w : World) (id : ℕ) (c : CpuPc) (k : Pc)
      → is_idle k ≡ false
      → is_finished k ≡ false
      → Each bytes n p c (w.requests id) k (w.dones id) id
      → let (w', k') = SingleCache.execute z elapsed w id k in
        Each bytes n
          (record p { answers = p.answers ++ answered id k k' })
          c
          (w'.requests id)
          k'
          (w'.dones id)
          id
  answered-Each z elapsed w id c k busy going (serving, link, order) =
      let (serving', (requests, trace), outcome) =
        execute-Serves z elapsed w id k serving busy going in
      let (w', k') = SingleCache.execute z elapsed w id k in
      let something : is_nothing (cache_request k) ≡ false =
        rw (cache_request-serving k busy going) refl in
      let same_place : (o : Option RetCode) → update w.dones id o id ≡ o = λ o. ground arith in
      elim outcome [
        | inl (goes, same, dones, stats) ↦ (
          serving',
          rw (requests, same, dones) link,
          rw (requests, same, not_answered id k k' p.answers goes) order,
        )
        | inr (ends, empty, dones, stats) ↦ (
          serving',
          rw (requests, empty, dones, same_place (some (code_of (event_of k))))
              (answered-Link _ _ _ _ _ _ link order something),
          rw (requests, empty, now_answered id k k' p.answers serving busy going ends)
              (answered-Order _ _ _ _ _ _ link order something),
        )
      ]

  -- What a step of a cache leaves: the ports of the others, the trace, and the counters, which count
  -- the answer if there is one
  abbrev pub Leaves : World → ℕ → Pc → World × Pc → Type 0
  Leaves w id k (w', k') =
      ((j : ℕ) → id ≢ j → w'.requests j ≡ w.requests j)
      × ((j : ℕ) → id ≢ j → w'.dones j ≡ w.dones j)
      × (w'.trace ≡ w.trace)
      × (w'.stats
          ≡ (if is_finished k' then (count (record_event (event_of k)) w id).stats else w.stats))

  busy-Leaves :
      (z : Floating) (elapsed : ℕ) (w : World) (id : ℕ) (k : Pc)
      → IsServing k
      → is_idle k ≡ false
      → is_finished k ≡ false
      → Leaves w id k (SingleCache.execute z elapsed w id k)
  busy-Leaves z elapsed w id k serving busy going =
      let (serving', (requests, trace), outcome) =
        execute-Serves z elapsed w id k serving busy going in
      elim outcome [
        | inl (goes, same, dones, stats) ↦
            (λ j ne. rw requests refl, λ j ne. rw dones refl, trace, rw goes stats)
        | inr (ends, empty, dones, stats) ↦
            (λ j ne. rw requests refl, λ j ne. rw dones (ground arith), trace, rw ends stats)
      ]

  -- What is seen of the step, and what it leaves
  abbrev Turn : World → ℕ → CpuPc → Pc → World × Pc → Type 0
  Turn w id c k (w', k') =
      Each bytes n (record p { answers = p.answers ++ answered id k k' }) c (w'.requests id) k'
        (w'.dones id) id
      × Leaves w id k (w', k')

  idle-Turn :
      (z : Floating) (elapsed : ℕ) (w : World) (id : ℕ) (c : CpuPc)
      → Each bytes n p c (w.requests id) idle (w.dones id) id
      → Turn w id c idle (SingleCache.execute z elapsed w id idle)
  idle-Turn z elapsed w id c each =
      let (serving', going, takes, port, else', dones, stats, trace) = idle-Takes z elapsed w id in
      let (w', k') = SingleCache.execute z elapsed w id idle in
      let (serving, link, order) = taken-Each z elapsed w id c each in
      (
        (serving, link, rw (not_answered id idle k' p.answers going) order),
        (else', λ j ne. rw dones refl, trace, rw going stats),
      )

  finished-Turn :
      (z : Floating) (elapsed : ℕ) (w : World) (id : ℕ) (c : CpuPc)
      → Each bytes n p c (w.requests id) finished (w.dones id) id
      → Turn w id c finished (SingleCache.execute z elapsed w id finished)
  unfolding SingleCache.execute
  finished-Turn z elapsed w id c (serving, link, order) =
      ((tt, link, rw (append-nil p.answers) order), (λ j ne. refl, λ j ne. refl, refl, refl))

  pub cache-Turn :
      (z : Floating) (elapsed : ℕ) (w : World) (id : ℕ) (c : CpuPc) (k : Pc)
      → Each bytes n p c (w.requests id) k (w.dones id) id
      → Turn w id c k (SingleCache.execute z elapsed w id k)
  cache-Turn z elapsed w id c k each =
      let Turns : Pc → Type 0 = λ k. Turn w id c k (SingleCache.execute z elapsed w id k) in
      elim (place-cases k) [
        | inl e ↦ subst Turns (sym e) (idle-Turn z elapsed w id c (rw e at each))
        | inr (inl e) ↦ subst Turns (sym e) (finished-Turn z elapsed w id c (rw e at each))
        | inr (inr (busy, going)) ↦ (
          answered-Each z elapsed w id c k busy going each,
          busy-Leaves z elapsed w id k each.0 busy going,
        )
      ]
