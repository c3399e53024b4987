-- ===== src/System/Turns.antt =====
-- src/assignment_1/: how a step of a processor changes its request, and that the memory, the snoopers
-- and the transfers leave the requests alone.
use psa.Prelude.{ℕ, zero, suc, ◌≡◌, refl, List, [], ◌∷◌, arith}
use psa.Lines.{Transfer}
use psa.Bus.{Floating}
use psa.World.{World}
use psa.MainMemory
use psa.MainMemory.{MemPc}
use psa.System.{TransferPc, cache_to_cache, run_transfer}

-- The ports, the trace and the counters stay as they are.
abbrev pub SameFront : World → World → Type 0
SameFront w' w =
    (w'.requests ≡ w.requests) × (w'.dones ≡ w.dones) × (w'.trace ≡ w.trace) × (w'.stats ≡ w.stats)

pub memory-SameFront : (w : World) (pc : MemPc) → SameFront (MainMemory.execute w pc).0 w
unfolding MainMemory.execute
memory-SameFront w MemPc.responding = ground arith
memory-SameFront w _ = ground arith

pub snoop-SameFront : (z : Floating) (w : World) → SameFront (MainMemory.snoop z w) w
unfolding MainMemory.snoop
snoop-SameFront z w = ground arith

transfer-SameFront :
    (w : World) (t : Transfer) (pc : TransferPc) → SameFront (cache_to_cache w t pc).0 w
unfolding cache_to_cache
transfer-SameFront w t TransferPc.driving = ground arith
transfer-SameFront w t _ = ground arith

pub run_transfer-SameFront :
    (w : World) (ts : List (Transfer × TransferPc)) (k : ℕ) → SameFront (run_transfer w ts k).0 w
unfolding run_transfer
run_transfer-SameFront w [] k = (refl, refl, refl, refl)
run_transfer-SameFront w ((t, pc) ∷ ts) zero = transfer-SameFront w t pc
run_transfer-SameFront w ((t, pc) ∷ ts) (suc k) = run_transfer-SameFront w ts k
