-- ===== src/System/Observed.antt =====
-- src/assignment_1/: what was seen of a run, against the state of the simulation.
use psa.Prelude.{
  ℕ, ◌<◌, ◌≡◌, ◌≢◌, refl, sym, subst, ◌∙◌, List, [], ◌∷◌, ◌++◌, Option, if◌then◌else◌, append-nil,
  ℕ_discrete, Bool-cases, Option-cases, inl, inr,
}
use psa.Trace.{TraceFile, reads}
use psa.Trace.Columns.{calls_of}
use psa.Stats.{Stats}
use psa.Stats.Counts.{record_event, record_all, record_all-append, ◌>>=◌}
use psa.World.{World, count}
use psa.SingleCache.{Pc}
use psa.SingleCache.Completion.{event_of, is_finished}
use psa.SingleCache.Serving.{address}
use psa.System.{System}
use psa.System.Requests.{Reply, answered_of, events_of, Seen, answered}
use psa.System.Turns.{SameFront}
use psa.System.Served.{Each, events_of-append}

module _ (bytes : List ℕ) (n : ℕ) (trace : TraceFile) (stats : Stats) where
  -- What was seen so far, against the state
  pub record IsSeen (p : Seen) (s : System) : Type 0 where
    pub read : s.world.trace ≡ reads trace p.calls
    pub counted : s.world.stats ≡ record_all stats (events_of p.answers)
    pub each :
        (id : ℕ)
        → id < n
        → Each bytes n p (s.cpus id) (s.world.requests id) (s.caches id) (s.world.dones id) id

  -- A step of the memory, a snooper or a transfer
  pub front-IsSeen :
      (p : Seen) (s s' : System)
      → SameFront s'.world s.world
      → s'.cpus ≡ s.cpus
      → s'.caches ≡ s.caches
      → IsSeen p s
      → IsSeen p s'
  front-IsSeen p s s' (requests, dones, same, stats') cpus caches h = record {
    read = same ∙ h.read;
    counted = stats' ∙ h.counted;
    each = λ id lt. rw (cpus, caches, requests, dones) (h.each id lt);
  }

  abbrev pub EachOf : Seen → System → ℕ → Type 0
  EachOf p s id =
      Each bytes n p (s.cpus id) (s.world.requests id) (s.caches id) (s.world.dones id) id

  -- A step that concerns one processor leaves the others as they are.
  abbrev pub SameOf : Seen → System → Seen → System → ℕ → Type 0
  SameOf p' s' p s j =
      (s'.cpus j ≡ s.cpus j)
      × (s'.world.requests j ≡ s.world.requests j)
      × (s'.caches j ≡ s.caches j)
      × (s'.world.dones j ≡ s.world.dones j)
      × (answered_of j p'.answers ≡ answered_of j p.answers)
      × (calls_of j p'.calls ≡ calls_of j p.calls)

  pub all-EachOf :
      (p p' : Seen) (s s' : System) (id : ℕ)
      → EachOf p' s' id
      → ((j : ℕ) → id ≢ j → SameOf p' s' p s j)
      → ((j : ℕ) → j < n → EachOf p s j)
      → (j : ℕ) → j < n
      → EachOf p' s' j
  all-EachOf p p' s s' id here same each j lt = elim (ℕ_discrete id j) [
    | yes e ↦ subst (EachOf p' s') e here
    | no ne ↦
        let (c, r, k, d, answers, calls) = same j ne in rw (c, r, k, d, answers, calls) (each j lt)
  ]

  abbrev pub counted_after : List Reply → ℕ → Pc → Option Stats
  counted_after xs id k =
      record_all stats (events_of xs) >>= (λ st. record_event (event_of k) st id)

  -- The counters after a step of a cache
  pub counted-more :
      (xs : List Reply) (w w' : World) (id : ℕ) (k k' : Pc)
      → w.stats ≡ record_all stats (events_of xs)
      → w'.stats
        ≡ (if is_finished k' then (count (record_event (event_of k)) w id).stats else w.stats)
      → w'.stats ≡ record_all stats (events_of (xs ++ answered id k k'))
  counted-more xs w w' id k k' before turn = elim (Bool-cases (is_finished k')) [
    | inl ends ↦
        let one : Reply = record { cpu = id; event = event_of k; addr = address k } in
        let now : answered id k k' ≡ one ∷ [] = rw ends refl in
        let ends_here : w'.stats ≡ (count (record_event (event_of k)) w id).stats =
          turn ∙ rw ends refl in
        let all : record_all stats (events_of (xs ++ answered id k k')) ≡ counted_after xs id k =
          rw (now, events_of-append xs (one ∷ []))
            (record_all-append stats (events_of xs) (event_of k) id) in
        elim (Option-cases w.stats) [
          | inl e ↦ ends_here ∙ rw e (sym (rw (sym before, e) at all))
          | inr (st, e) ↦ ends_here ∙ rw e (sym (rw (sym before, e) at all))
        ]
    | inr goes ↦ turn ∙ rw (goes, append-nil xs) before
  ]
