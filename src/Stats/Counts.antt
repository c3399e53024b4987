-- ===== src/Stats/Counts.antt =====
-- lib/psa.cpp: the table shows how often each event was recorded for each processor.
use psa.Prelude.{
  ℕ, zero, suc, ◌+◌, ◌^◌, ◌<◌, ◌≤◌, ◌≡◌, refl, Bool, true, false, List, [], ◌∷◌, ◌++◌, Option-cases,
  inl, inr, Option, none, some, if◌then◌else◌, ltb, ◌==◌, u32, update, arith, ap, ap₂, ◌∙◌,
  ℕ_discrete,
}
use psa.Stats.{
  Counters, block, Stats, zeroed, clear, stats_init, stats_writehit, stats_writemiss, stats_readhit,
  stats_readmiss, Row, row, rows, stats_print,
}

-- The four things that are counted.
pub data Event : Type 0 where
  write_hit write_miss read_hit read_miss : Event

abbrev pub record_event : Event → Stats → ℕ → Option Stats
record_event write_hit = stats_writehit
record_event write_miss = stats_writemiss
record_event read_hit = stats_readhit
record_event read_miss = stats_readmiss

infixl 5 ◌>>=◌
abbrev pub ◌>>=◌ : Option Stats → (Stats → Option Stats) → Option Stats
none >>= f = none
some s >>= f = f s

-- Events with their processors, recorded one after the other.
unfoldable pub record_all : Stats → List (Event × ℕ) → Option Stats
record_all s [] = some s
record_all s ((ev, cpu) ∷ events) = do s' ← record_event ev s cpu; record_all s' events

-- One event more
pub record_all-append :
    (s : Stats) (events : List (Event × ℕ)) (ev : Event) (cpu : ℕ)
    → record_all s (events ++ ((ev, cpu) ∷ []))
      ≡ (record_all s events >>= (λ s'. record_event ev s' cpu))
unfolding record_all
record_all-append s [] ev cpu = elim (Option-cases (record_event ev s cpu)) [
  | inl e ↦ rw e refl
  | inr (s', e) ↦ rw e refl
]
record_all-append s ((ev', cpu') ∷ events) ev cpu = elim (Option-cases (record_event ev' s cpu')) [
  | inl e ↦ rw e refl
  | inr (s', e) ↦ rw e (record_all-append s' events ev cpu)
]

abbrev same : Event → Event → Bool
same write_hit write_hit = true
same write_miss write_miss = true
same read_hit read_hit = true
same read_miss read_miss = true
same _ _ = false

-- How often an event stands in the list for a processor.
abbrev pub times : Event → ℕ → List (Event × ℕ) → ℕ
times ev cpu [] = 0
times ev cpu ((ev', cpu') ∷ events) =
    (if cpu' == cpu then if same ev' ev then 1 else 0 else 0) + times ev cpu events

-- The counters of a processor after events, from those before.
abbrev plus : Counters → ℕ → List (Event × ℕ) → Counters
plus c cpu events = record {
  writehit = u32 (c.writehit + times write_hit cpu events);
  writemiss = u32 (c.writemiss + times write_miss cpu events);
  readhit = u32 (c.readhit + times read_hit cpu events);
  readmiss = u32 (c.readmiss + times read_miss cpu events);
}

-- The counters after one event, where they are there.
abbrev bumped : Event → Counters → Counters
bumped write_hit c = record c { writehit = u32 (c.writehit + 1) }
bumped write_miss c = record c { writemiss = u32 (c.writemiss + 1) }
bumped read_hit c = record c { readhit = u32 (c.readhit + 1) }
bumped read_miss c = record c { readmiss = u32 (c.readmiss + 1) }

after : ℕ → (ℕ → Counters) → Event → ℕ → ℕ → Counters
after n c ev cpu = if ltb cpu n then update c cpu (bumped ev (c cpu)) else c

abbrev at : ℕ → (ℕ → Counters) → Stats
at n c = record { num_cpus = n; percpu = block c }

record_event-after :
    (n : ℕ) (c : ℕ → Counters) (ev : Event) (cpu : ℕ)
    → record_event ev (at n c) cpu ≡ some (at n (after n c ev cpu))
unfolding stats_writehit stats_writemiss stats_readhit stats_readmiss after
record_event-after n c write_hit cpu = ground arith
record_event-after n c _ cpu = ground arith

plus-after :
    (n : ℕ) (c : ℕ → Counters) (ev : Event) (cpu i : ℕ) (events : List (Event × ℕ))
    → i < n
    → plus (after n c ev cpu i) i events ≡ plus (c i) i ((ev, cpu) ∷ events)
unfolding after
plus-after n c write_hit cpu i events lt = ground arith
plus-after n c _ cpu i events lt = ground arith

-- An `int` is 32 bits wide.
record Fits (c : Counters) : Type 0 where
  writehit : c.writehit < 2 ^ 32
  writemiss : c.writemiss < 2 ^ 32
  readhit : c.readhit < 2 ^ 32
  readmiss : c.readmiss < 2 ^ 32

after-Fits :
    (n : ℕ) (c : ℕ → Counters) (ev : Event) (cpu i : ℕ) → Fits (c i) → Fits (after n c ev cpu i)
unfolding after
after-Fits n c write_hit cpu i h = ground arith
after-Fits n c _ cpu i h = ground arith

record_all-plus :
    (n : ℕ) (c : ℕ → Counters) (events : List (Event × ℕ))
    → (c' : ℕ → Counters) × (record_all (at n c) events ≡ some (at n c'))
      × ((i : ℕ) → i < n → plus (c' i) i [] ≡ plus (c i) i events)
      × ((i : ℕ) → Fits (c i) → Fits (c' i))
unfolding record_all
record_all-plus n c [] = (c, refl, λ i lt. refl, λ i h. h)
record_all-plus n c ((ev, cpu) ∷ events) =
    let (c', run, sums, fits) = record_all-plus n (after n c ev cpu) events in
    (
      c',
      rw (record_event-after n c ev cpu) run,
      λ i lt. sums i lt ∙ plus-after n c ev cpu i events lt,
      λ i h. fits i (after-Fits n c ev cpu i h),
    )

clear_lem : (n : ℕ) (old : ℕ → Counters) (i : ℕ) → i < n → clear n old i ≡ zeroed
unfolding clear
clear_lem zero old i h = absurd (omega arith)
clear_lem (suc n) old i h = elim (ℕ_discrete i n) [
  | yes last ↦ ground arith
  | no before ↦ ground (arith, clear_lem n old i (omega arith))
]

module _ {Double : Type 0} (percentage : ℕ → ℕ → Double) where
  -- The line of a processor, from how often each event was recorded for it.
  abbrev pub row_of : List (Event × ℕ) → ℕ → Row Double
  row_of events i =
      let hits_w = times write_hit i events in
      let misses_w = times write_miss i events in
      let hits_r = times read_hit i events in
      let misses_r = times read_miss i events in
      record {
        cpu = i;
        reads = u32 (hits_r + misses_r);
        readhit = u32 hits_r;
        readmiss = u32 misses_r;
        writes = u32 (hits_w + misses_w);
        writehit = u32 hits_w;
        writemiss = u32 misses_w;
        hitrate = percentage (u32 (hits_w + hits_r)) (u32 (hits_w + misses_w + hits_r + misses_r));
      }

  abbrev pub table_of : List (Event × ℕ) → ℕ → ℕ → List (Row Double)
  table_of events zero i = []
  table_of events (suc n) i = row_of events i ∷ table_of events n (i + 1)

  row_lem :
      (c : Counters) (i : ℕ) (events : List (Event × ℕ))
      → Fits c
      → plus c i [] ≡ plus zeroed i events
      → row percentage i c ≡ row_of events i
  unfolding row
  row_lem c i events fits e =
      let hits_w : u32 (c.writehit + 0) ≡ u32 (0 + times write_hit i events) =
        ap (λ x. x.writehit) e in
      let misses_w : u32 (c.writemiss + 0) ≡ u32 (0 + times write_miss i events) =
        ap (λ x. x.writemiss) e in
      let hits_r : u32 (c.readhit + 0) ≡ u32 (0 + times read_hit i events) =
        ap (λ x. x.readhit) e in
      let misses_r : u32 (c.readmiss + 0) ≡ u32 (0 + times read_miss i events) =
        ap (λ x. x.readmiss) e in
      ground arith

  rows_lem :
      (n i : ℕ) (c : ℕ → Counters) (events : List (Event × ℕ))
      → ((k : ℕ) → i ≤ k → k < i + n → row percentage k (c k) ≡ row_of events k)
      → rows percentage n i c ≡ table_of events n i
  unfolding rows
  rows_lem zero i c events h = refl
  rows_lem (suc n) i c events h =
      ap₂ ◌∷◌ (h i (omega arith) (omega arith))
        (rows_lem n (i + 1) c events (λ k lo hi. h k (omega arith) (omega arith)))

  -- After `stats_init` for `n` processors in any block that `malloc` returned, and any events
  -- recorded one after the other, none of which fails, the table has a line for each processor with
  -- how often each event was recorded for it: events of other processors and of numbers from `n` on
  -- have no part in it, and the counts are taken modulo 2 ^ 32.
  pub stats_print-record_all :
      (n : ℕ) (old : ℕ → Counters) (events : List (Event × ℕ)) {s : Stats}
      → stats_init true old n ≡ some s
      → (s' : Stats) × (record_all s events ≡ some s')
        × (stats_print percentage s' ≡ some (table_of events n 0))
  unfolding stats_init stats_print
  stats_print-record_all n old events {s} h =
      let (c', run, sums, fits) = record_all-plus n (clear n old) events in
      let fits_at : (i : ℕ) → i < n → Fits (c' i) =
        λ i lt. fits i (rw (clear_lem n old i lt) (omega arith)) in
      let sums_at : (i : ℕ) → i < n → plus (c' i) i [] ≡ plus zeroed i events =
        λ i lt. sums i lt ∙ ap (λ c. plus c i events) (clear_lem n old i lt) in
      (
        at n c',
        cc run,
        ap some (
            rows_lem n 0 c' events (λ k lo hi.
              row_lem (c' k) k events (fits_at k (omega arith)) (sums_at k (omega arith)))),
      )
