-- ===== src/Stats.antt =====
-- lib/psa.h and lib/psa.cpp: the statistics counters of each processor, their updates and the table
-- that `stats_print` writes. A counter is the bit pattern of an `int`.
pub mod Counts
pub mod Tests
use psa.Prelude.{
  ℕ, zero, suc, ◌+◌, Bool, true, false, List, [], ◌∷◌, Option, none, some, if◌then◌else◌, ltb, u32,
  update,
}

-- `struct stats`
pub record Counters : Type 0 where
  pub writehit : ℕ  -- int
  pub writemiss : ℕ  -- int
  pub readhit : ℕ  -- int
  pub readmiss : ℕ  -- int

-- Where `stats_percpu` points: nowhere, to the block of the counters, or to a block that was freed.
pub data Block : Type 0 where
  null : Block
  block : (ℕ → Counters) → Block
  freed : Block

-- `num_cpus` and `stats_percpu`
pub record Stats : Type 0 where
  pub num_cpus : ℕ  -- uint32_t
  pub percpu : Block

abbrev pub zeroed : Counters
zeroed = record { writehit = 0; writemiss = 0; readhit = 0; readmiss = 0 }

-- `stats_init`: `memory` says whether `malloc` returns a block; `none` is the runtime error. What
-- the block held before is `old`, and the loop clears the first `num_cpus` places.
pub clear : ℕ → (ℕ → Counters) → ℕ → Counters
clear zero f = f
clear (suc n) f = update (clear n f) n zeroed

unfoldable pub stats_init : Bool → (ℕ → Counters) → ℕ → Option Stats
unfolding clear
stats_init false old num_cpus = none
stats_init true old num_cpus =
    some (record { num_cpus = num_cpus; percpu = block (clear num_cpus old) })

-- `stats_cleanup`: the pointer stays as it is, and is now of no use.
pub stats_cleanup : Stats → Stats
stats_cleanup s = record s { percpu = freed }

-- `if(cpuid < num_cpus && stats_percpu != NULL)` round a change of one processor's counters; `none`
-- is an access to a block that was freed.
abbrev change : (Counters → Counters) → Block → ℕ → Option Block
change f null cpuid = some null
change f (block c) cpuid = some (block (update c cpuid (f (c cpuid))))
change f freed cpuid = none

abbrev with_block : Stats → Option Block → Option Stats
with_block s none = none
with_block s (some b) = some (record s { percpu = b })

abbrev counted : (Counters → Counters) → Stats → ℕ → Option Stats
counted f s cpuid = if ltb cpuid s.num_cpus then with_block s (change f s.percpu cpuid) else some s

unfoldable pub stats_writehit : Stats → ℕ → Option Stats
stats_writehit = counted (λ c. record c { writehit = u32 (c.writehit + 1) })

unfoldable pub stats_writemiss : Stats → ℕ → Option Stats
stats_writemiss = counted (λ c. record c { writemiss = u32 (c.writemiss + 1) })

unfoldable pub stats_readhit : Stats → ℕ → Option Stats
stats_readhit = counted (λ c. record c { readhit = u32 (c.readhit + 1) })

unfoldable pub stats_readmiss : Stats → ℕ → Option Stats
stats_readmiss = counted (λ c. record c { readmiss = u32 (c.readmiss + 1) })

-- One line of the table. The hit rate is a `double`: the type and the quotient in per cent, of two
-- `int`s, are parameters.
pub record Row (Double : Type 0) : Type 0 where
  pub cpu : ℕ
  pub reads : ℕ
  pub readhit : ℕ
  pub readmiss : ℕ
  pub writes : ℕ
  pub writehit : ℕ
  pub writemiss : ℕ
  pub hitrate : Double

module _ {Double : Type 0} (percentage : ℕ → ℕ → Double) where
  -- The body of the loop of `stats_print`
  pub row : ℕ → Counters → Row Double
  row i c =
      let writes = u32 (c.writehit + c.writemiss) in
      let reads = u32 (c.readhit + c.readmiss) in
      record {
        cpu = i;
        reads = reads;
        readhit = c.readhit;
        readmiss = c.readmiss;
        writes = writes;
        writehit = c.writehit;
        writemiss = c.writemiss;
        hitrate = percentage (u32 (c.writehit + c.readhit)) (u32 (writes + reads));
      }

  -- The loop: the rounds left, and `i`
  pub rows : ℕ → ℕ → (ℕ → Counters) → List (Row Double)
  unfolding row
  rows zero i c = []
  rows (suc n) i c = row i (c i) ∷ rows n (i + 1) c

  print_block : ℕ → Block → Option (List (Row Double))
  print_block n null = none
  print_block n (block c) = some (rows n 0 c)
  print_block n freed = none

  -- `stats_print`: `none` is the runtime error, or an access to a block that was freed.
  unfoldable pub stats_print : Stats → Option (List (Row Double))
  unfolding print_block
  stats_print s = print_block s.num_cpus s.percpu
