-- ===== src/System/Holders.antt =====
-- src/assignment_1/: which processes hold the bus, and that each step changes the lock as it
-- changes that.
use psa.Prelude.{ℕ, ◌+◌, ◌≤◌, ◌≡◌, Option, none, some, if◌then◌else◌, arith}
use psa.Lines.{Transfer}
use psa.Bus.{
  Bus, Floating, begin_read, begin_write, begin_invalidate, end_request, begin_response,
  end_response, begin_transfer, end_transfer,
}
use psa.World.{World}
use psa.SingleCache
use psa.SingleCache.{Pc, hit_invalidating, back_writing, fill_reading, own_invalidating, idle}
use psa.MainMemory
use psa.MainMemory.{MemPc, responding}
use psa.System.{TransferPc, driving, cache_to_cache}

-- 1 where the process stands between `try_lock` and `unlock`
abbrev pub cache_holds : Pc → ℕ
cache_holds (hit_invalidating _ _) = 1
cache_holds (back_writing _ _ _ _) = 1
cache_holds (fill_reading _ _ _) = 1
cache_holds (own_invalidating _ _) = 1
cache_holds _ = 0

abbrev pub memory_holds : MemPc → ℕ
memory_holds responding = 1
memory_holds _ = 0

abbrev pub transfer_holds : TransferPc → ℕ
transfer_holds driving = 1
transfer_holds _ = 0

abbrev pub option_holds : Option TransferPc → ℕ
option_holds none = 0
option_holds (some pc) = transfer_holds pc

abbrev pub lock_bit : Bus → ℕ
lock_bit b = if b.bus_mutex then 1 else 0

-- The lock changes as the holding of the process that goes on does.
abbrev pub Balanced : Bus → ℕ → Bus → ℕ → Type 0
Balanced b h b' h' = h ≤ lock_bit b → lock_bit b' + h ≡ lock_bit b + h'

pub cache-Balanced :
    (z : Floating) (elapsed : ℕ) (w : World) (id : ℕ) (pc : Pc)
    → let (w', pc') = SingleCache.execute z elapsed w id pc in
      Balanced w.bus (cache_holds pc) w'.bus (cache_holds pc')
unfolding SingleCache.execute begin_read begin_write begin_invalidate end_request
cache-Balanced z elapsed w id idle h = ground arith
cache-Balanced z elapsed w id _ h = ground arith

pub memory-Balanced :
    (w : World) (pc : MemPc)
    → let (w', pc') = MainMemory.execute w pc in
      Balanced w.bus (memory_holds pc) w'.bus (memory_holds pc')
unfolding MainMemory.execute begin_response end_response
memory-Balanced w responding h = ground arith
memory-Balanced w _ h = ground arith

pub transfer-Balanced :
    (w : World) (t : Transfer) (pc : TransferPc)
    → let (w', pc') = cache_to_cache w t pc in
      Balanced w.bus (transfer_holds pc) w'.bus (option_holds pc')
unfolding cache_to_cache begin_transfer end_transfer
transfer-Balanced w t driving h = ground arith
transfer-Balanced w t _ h = ground arith
