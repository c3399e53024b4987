-- ===== src/Stats/Tests.antt =====
-- lib/psa.cpp: a run of the counters, and the theorem at it.
use psa.Prelude.{ℕ, ◌≡◌, refl, List, [], ◌∷◌, some}
use psa.Stats.{Stats, Counters, block, clear, stats_init, stats_print}
use psa.Stats.Counts.{
  Event, write_hit, read_hit, read_miss, record_all, table_of, stats_print-record_all,
}

abbrev junk : ℕ → Counters
junk i = record { writehit = i; writemiss = 7; readhit = 7; readmiss = 7 }

abbrev events : List (Event × ℕ)
events = (read_miss, 0) ∷ (read_hit, 0) ∷ (write_hit, 1) ∷ (read_hit, 0) ∷ (read_hit, 9) ∷ []

abbrev pair : ℕ → ℕ → ℕ × ℕ
pair a b = (a, b)

first_row :
    table_of pair events 1 0
    ≡ record {
      cpu = 0;
      reads = 3;
      readhit = 2;
      readmiss = 1;
      writes = 0;
      writehit = 0;
      writemiss = 0;
      hitrate = (2, 3);
    }
      ∷ []
first_row = refl

stats_print-record_all_example :
    (s' : Stats) × (record_all (record { num_cpus = 2; percpu = block (clear 2 junk) }) events
      ≡ some s')
    × (stats_print pair s' ≡ some (table_of pair events 2 0))
unfolding stats_init
stats_print-record_all_example = stats_print-record_all pair 2 junk events refl
