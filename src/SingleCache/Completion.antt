-- ===== src/SingleCache/Completion.antt =====
-- src/assignment_1/Cache.h: a request of the processor is answered once, and counted once.
use psa.Prelude.{ℕ, ◌≡◌, ◌⊎◌, inr, Bool, true, false, none, some, if◌then◌else◌, update, arith}
use psa.Lines.{Function}
use psa.Stats.Counts.{Event, write_hit, write_miss, read_hit, read_miss, record_event}
use psa.Bus.{Floating}
use psa.World.{World, RetCode, read_done, write_done, count}
use psa.SingleCache.{
  Pc, idle, looked, hit_retry, hit_half, hit_invalidating, read_half, again, back_retry,
  back_writing, back_waiting, fill_retry, fill_reading, fill_waiting, own_retry, own_half,
  own_invalidating, refetch, finished, is_write, missed, hit, execute,
}

-- Whether the request that is being served is a write.
abbrev pub serves_write : Pc → Bool
serves_write idle = false
serves_write (looked f _ _ _) = is_write f
serves_write (hit_retry f _ _) = is_write f
serves_write (hit_half f _ _) = is_write f
serves_write (hit_invalidating _ _) = true
serves_write (read_half f _ _) = is_write f
serves_write (again f _) = is_write f
serves_write (back_retry f _ _ _) = is_write f
serves_write (back_writing f _ _ _) = is_write f
serves_write (back_waiting f _ _ _ _) = is_write f
serves_write (fill_retry f _ _) = is_write f
serves_write (fill_reading f _ _) = is_write f
serves_write (fill_waiting f _ _ _) = is_write f
serves_write (own_retry f _ _) = is_write f
serves_write (own_half f _ _) = is_write f
serves_write (own_invalidating _ _) = true
serves_write (refetch f _ _) = is_write f
serves_write finished = false

-- What is counted if the request ends from here.
abbrev pub event_of : Pc → Event
event_of (hit_invalidating _ _) = write_hit
event_of (read_half _ _ _) = read_hit
event_of pc = if serves_write pc then write_miss else read_miss

abbrev pub is_finished : Pc → Bool
is_finished finished = true
is_finished _ = false

abbrev pub is_idle : Pc → Bool
is_idle idle = true
is_idle _ = false

abbrev pub code_of : Event → RetCode
code_of write_hit = write_done
code_of write_miss = write_done
code_of read_hit = read_done
code_of read_miss = read_done

-- The places that only a write or only a read comes to.
abbrev pub IsServing : Pc → Type 0
IsServing (hit_retry f _ _) = is_write f ≡ true
IsServing (hit_half f _ _) = is_write f ≡ true
IsServing (own_retry f _ _) = is_write f ≡ true
IsServing (own_half f _ _) = is_write f ≡ true
IsServing (refetch f _ _) = is_write f ≡ true
IsServing (read_half f _ _) = is_write f ≡ false
IsServing _ = Unit

-- The step goes on with the request, a read or a write as it was.
abbrev Continues : Bool → World → World × Pc → Type 0
Continues writes w (w', pc') =
    (is_finished pc' ≡ false)
    × (w'.dones ≡ w.dones)
    × (w'.stats ≡ w.stats)
    × (serves_write pc' ≡ writes)
    × IsServing pc'

missed-Continues :
    (w : World) (id : ℕ) (f : Function) (addr v : ℕ)
    → Continues (is_write f) w (missed w id f addr v)
unfolding missed
missed-Continues w id f addr v = ground arith

hit-Continues :
    (w : World) (id : ℕ) (f : Function) (addr r : ℕ) → Continues (is_write f) w (hit w id f addr r)
unfolding hit
hit-Continues w id f addr r = ground arith

-- From a place that fits the kind of its request, a step of the cache either ends the request, and
-- then answers it once, by the code for its kind, and counts one hit or miss of that kind for its
-- processor; or it answers and counts nothing, and the request goes on, a read or a write as before,
-- unless the cache was idle. The place that the step comes to fits the request again.
pub execute-completes :
    (z : Floating) (elapsed : ℕ) (w : World) (id : ℕ) (pc : Pc)
    → IsServing pc
    → let (w', pc') = execute z elapsed w id pc in
      IsServing pc'
      × (((is_finished pc' ≡ true)
            × (w'.dones ≡ update w.dones id (some (code_of (event_of pc))))
            × (w'.stats ≡ (count (record_event (event_of pc)) w id).stats))
          ⊎ ((is_finished pc' ≡ false)
              × (w'.dones ≡ w.dones)
              × (w'.stats ≡ w.stats)
              × ((is_idle pc ≡ true) ⊎ (serves_write pc' ≡ serves_write pc))))
unfolding execute
execute-completes z elapsed w id (looked f addr none v) h =
    let (going, dones, stats, kind, fits) = missed-Continues w id f addr v in
    (fits, inr (going, dones, stats, inr kind))
execute-completes z elapsed w id (looked f addr (some r) v) h =
    let (going, dones, stats, kind, fits) = hit-Continues w id f addr r in
    (fits, inr (going, dones, stats, inr kind))
execute-completes z elapsed w id idle h = ground arith
execute-completes z elapsed w id _ h = ground arith
