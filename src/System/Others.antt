-- ===== src/System/Others.antt =====
-- src/assignment_1/: the wires of the bus as the processes that hold it leave them: the invariant,
-- and how the step of one process keeps the part of the others.
use psa.Prelude.{
  ℕ, zero, suc, ◌+◌, ◌≤◌, ◌<◌, ◌≡◌, refl, true, List, [], ◌∷◌, ◌++◌, Option, none, some, arith,
  ℕ_discrete,
}
use psa.Lines.{Transfer}
use psa.Bus.{Bus}
use psa.World.{World}
use psa.SingleCache.{Pc}
use psa.MainMemory.{MemPc}
use psa.System.{System, TransferPc, cache_to_cache, kept, run_transfer, begun}
use psa.System.Holders.{cache_holds, memory_holds, transfer_holds, lock_bit}
use psa.System.Exclusion.{transfers_hold, IsExclusive}
use psa.System.Drives.{
  IsQuiet, CacheDrives, MemoryDrives, TransferDrives, OptionDrives, SameWires, transfer-Drives,
  transfer-SameWires, CacheDrives-SameWires, MemoryDrives-SameWires, TransferDrives-SameWires,
  CacheDrives-of_zero, MemoryDrives-of_zero, TransferDrives-of_zero,
}

abbrev pub AllDrive : Bus → List (Transfer × TransferPc) → Type 0
AllDrive b [] = Unit
AllDrive b ((t, pc) ∷ ts) = TransferDrives b t pc × AllDrive b ts

-- The holder of the bus has written its request on the wires, and nothing was left written on them
-- while nobody holds it.
pub record IsWired (cpunum : ℕ) (s : System) : Type 0 where
  pub exclusive : IsExclusive cpunum s
  pub quiet : IsQuiet s.world.bus
  pub caches : (id : ℕ) → id < cpunum → CacheDrives s.world.bus id (s.caches id)
  pub memory : MemoryDrives s.world.bus s.memory
  pub transfers : AllDrive s.world.bus s.transfers

AllDrive-SameWires :
    (b b' : Bus) (ts : List (Transfer × TransferPc))
    → SameWires b b'
    → AllDrive b ts
    → AllDrive b' ts
AllDrive-SameWires b b' [] same d = tt
AllDrive-SameWires b b' ((t, pc) ∷ ts) same d =
    (TransferDrives-SameWires b b' t pc same d.0, AllDrive-SameWires b b' ts same d.1)

AllDrive-of_zero :
    (b : Bus) (ts : List (Transfer × TransferPc)) → transfers_hold ts ≡ 0 → AllDrive b ts
AllDrive-of_zero b [] h = tt
AllDrive-of_zero b ((t, pc) ∷ ts) h =
    (TransferDrives-of_zero b t pc (omega arith), AllDrive-of_zero b ts (omega arith))

pub AllDrive-append :
    (b : Bus) (ts us : List (Transfer × TransferPc))
    → AllDrive b ts
    → AllDrive b us
    → AllDrive b (ts ++ us)
AllDrive-append b [] us dt du = du
AllDrive-append b ((t, pc) ∷ ts) us dt du = (dt.0, AllDrive-append b ts us dt.1 du)

pub AllDrive-begun : (b : Bus) (t : Option Transfer) → AllDrive b (begun t)
AllDrive-begun b none = tt
AllDrive-begun b (some t) = (tt, tt)

AllDrive-kept :
    (b : Bus) (t : Transfer) (pc : Option TransferPc) (ts : List (Transfer × TransferPc))
    → OptionDrives b t pc
    → AllDrive b ts
    → AllDrive b (kept t pc ++ ts)
AllDrive-kept b t none ts d ds = ds
AllDrive-kept b t (some pc) ts d ds = (d, ds)

-- A step of somebody who holds nothing while nobody or another holds the bus, or who is the holder,
-- leaves the others' wires.
pub others-cache :
    (b b' : Bus) (id : ℕ) (pc : Pc) (mine : ℕ)
    → cache_holds pc + mine ≤ lock_bit b
    → (mine ≡ 0 → b.bus_mutex ≡ true → SameWires b b')
    → CacheDrives b id pc
    → CacheDrives b' id pc
others-cache b b' id pc mine le same d = elim (ℕ_discrete (cache_holds pc) 0) [
  | yes free ↦ CacheDrives-of_zero b' id pc free
  | no holds ↦ CacheDrives-SameWires b b' id pc (same (ground arith) (ground arith)) d
]

pub others-memory :
    (b b' : Bus) (pc : MemPc) (mine : ℕ)
    → memory_holds pc + mine ≤ lock_bit b
    → (mine ≡ 0 → b.bus_mutex ≡ true → SameWires b b')
    → MemoryDrives b pc
    → MemoryDrives b' pc
others-memory b b' pc mine le same d = elim (ℕ_discrete (memory_holds pc) 0) [
  | yes free ↦ MemoryDrives-of_zero b' pc free
  | no holds ↦ MemoryDrives-SameWires b b' pc (same (ground arith) (ground arith)) d
]

pub others-transfers :
    (b b' : Bus) (ts : List (Transfer × TransferPc)) (mine : ℕ)
    → transfers_hold ts + mine ≤ lock_bit b
    → (mine ≡ 0 → b.bus_mutex ≡ true → SameWires b b')
    → AllDrive b ts
    → AllDrive b' ts
others-transfers b b' ts mine le same d = elim (ℕ_discrete (transfers_hold ts) 0) [
  | yes free ↦ AllDrive-of_zero b' ts free
  | no holds ↦ AllDrive-SameWires b b' ts (same (ground arith) (ground arith)) d
]

pub run_transfer-Drives :
    (w : World) (ts : List (Transfer × TransferPc)) (k : ℕ)
    → IsQuiet w.bus
    → transfers_hold ts ≤ lock_bit w.bus
    → AllDrive w.bus ts
    → let (w', ts') = run_transfer w ts k in
      IsQuiet w'.bus
      × AllDrive w'.bus ts'
      × (transfers_hold ts ≡ 0 → w.bus.bus_mutex ≡ true → SameWires w.bus w'.bus)
unfolding run_transfer
run_transfer-Drives w [] k q le d = (q, tt, λ h held. (held, refl, refl, refl, refl))
run_transfer-Drives w ((t, pc) ∷ ts) zero q le d =
    let (q', own) = transfer-Drives w t pc q (omega arith) d.0 in
    let rest =
      others-transfers w.bus (cache_to_cache w t pc).0.bus ts (transfer_holds pc) (omega arith)
        (transfer-SameWires w t pc) d.1 in
    (
      q',
      AllDrive-kept (cache_to_cache w t pc).0.bus t (cache_to_cache w t pc).1 ts own rest,
      λ h held. transfer-SameWires w t pc (omega arith) held,
    )
run_transfer-Drives w ((t, pc) ∷ ts) (suc k) q le d =
    let (q', rest, same) = run_transfer-Drives w ts k q (omega arith) d.1 in
    let head =
      others-transfers w.bus (run_transfer w ts k).0.bus ((t, pc) ∷ []) (transfers_hold ts)
        (omega arith) same (d.0, tt) in
    (q', (head.0, rest), λ h held. same (omega arith) held)
