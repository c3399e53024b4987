-- ===== src/System/Drives.antt =====
-- src/assignment_1/: what a process that holds the bus has written on its wires, and that a step of one
-- process keeps.
use psa.Prelude.{ℕ, ◌≤◌, ◌≡◌, ◌⊎◌, true, false, Option, none, some, arith}
use psa.Lines.{Function, read, write, invalidate, response, line_address, Transfer}
use psa.Bus.{
  Bus, Floating, dram_identifier, begin_read, begin_write, begin_invalidate, end_request,
  begin_response, end_response, begin_transfer, end_transfer,
}
use psa.World.{World}
use psa.SingleCache
use psa.SingleCache.{Pc, idle, hit_invalidating, back_writing, fill_reading, own_invalidating}
use psa.MainMemory
use psa.MainMemory.{MemPc, responding}
use psa.System.{TransferPc, driving, cache_to_cache}
use psa.System.Holders.{cache_holds, memory_holds, transfer_holds, lock_bit}

-- Nobody holds the bus and nothing was left written on it, or somebody holds it.
abbrev pub IsQuiet : Bus → Type 0
IsQuiet b =
    (b.bus_mutex ≡ true)
    ⊎ ((b.bus_mutex ≡ false)
        × (b.bus_func ≡ none)
        × (b.bus_addr ≡ none)
        × (b.proc_id ≡ none)
        × (b.source_id ≡ none))

abbrev pub Carries : Bus → Function → ℕ → ℕ → Option ℕ → Type 0
Carries b f addr proc source =
    (b.bus_func ≡ some f)
    × (b.bus_addr ≡ some addr)
    × (b.proc_id ≡ some proc)
    × (b.source_id ≡ source)

-- What a cache that holds the bus has written on it.
abbrev pub CacheDrives : Bus → ℕ → Pc → Type 0
CacheDrives b id (hit_invalidating addr r) = Carries b invalidate addr id none
CacheDrives b id (back_writing f addr v wbaddr) = Carries b write wbaddr id none
CacheDrives b id (fill_reading f addr v) = Carries b read (line_address addr) id none
CacheDrives b id (own_invalidating addr v) = Carries b invalidate addr id none
CacheDrives b id _ = Unit

abbrev pub MemoryDrives : Bus → MemPc → Type 0
MemoryDrives b responding = (b.bus_func ≡ some response) × (b.source_id ≡ some dram_identifier)
MemoryDrives b _ = Unit

abbrev pub TransferDrives : Bus → Transfer → TransferPc → Type 0
TransferDrives b t driving =
    (b.bus_addr ≡ some t.addr) × (b.proc_id ≡ some t.proc_id) × (b.source_id ≡ some t.source_id)
TransferDrives b t _ = Unit

abbrev pub OptionDrives : Bus → Transfer → Option TransferPc → Type 0
OptionDrives b t none = Unit
OptionDrives b t (some pc) = TransferDrives b t pc

-- The wires are as they were, and the lock is still held.
abbrev pub SameWires : Bus → Bus → Type 0
SameWires b b' =
    (b'.bus_mutex ≡ true)
    × (b'.bus_func ≡ b.bus_func)
    × (b'.bus_addr ≡ b.bus_addr)
    × (b'.proc_id ≡ b.proc_id)
    × (b'.source_id ≡ b.source_id)

module _ (z : Floating) (elapsed : ℕ) (w : World) (id : ℕ) where
  pub cache-Drives :
      (pc : Pc)
      → IsQuiet w.bus
      → cache_holds pc ≤ lock_bit w.bus
      → CacheDrives w.bus id pc
      → let (w', pc') = SingleCache.execute z elapsed w id pc in
        IsQuiet w'.bus × CacheDrives w'.bus id pc'
  unfolding SingleCache.execute begin_read begin_write begin_invalidate end_request
  cache-Drives idle q le d = ground arith
  cache-Drives _ q le d = ground arith

  pub cache-SameWires :
      (pc : Pc)
      → cache_holds pc ≡ 0
      → w.bus.bus_mutex ≡ true
      → SameWires w.bus (SingleCache.execute z elapsed w id pc).0.bus
  unfolding SingleCache.execute begin_read begin_write begin_invalidate end_request
  cache-SameWires idle h held = ground arith
  cache-SameWires _ h held = ground arith

pub memory-Drives :
    (w : World) (pc : MemPc)
    → IsQuiet w.bus
    → memory_holds pc ≤ lock_bit w.bus
    → MemoryDrives w.bus pc
    → let (w', pc') = MainMemory.execute w pc in IsQuiet w'.bus × MemoryDrives w'.bus pc'
unfolding MainMemory.execute begin_response end_response
memory-Drives w responding q le d = ground arith
memory-Drives w _ q le d = ground arith

pub memory-SameWires :
    (w : World) (pc : MemPc)
    → memory_holds pc ≡ 0
    → w.bus.bus_mutex ≡ true
    → SameWires w.bus (MainMemory.execute w pc).0.bus
unfolding MainMemory.execute begin_response
memory-SameWires w responding h held = cc
memory-SameWires w _ h held = ground arith

pub transfer-Drives :
    (w : World) (t : Transfer) (pc : TransferPc)
    → IsQuiet w.bus
    → transfer_holds pc ≤ lock_bit w.bus
    → TransferDrives w.bus t pc
    → let (w', pc') = cache_to_cache w t pc in IsQuiet w'.bus × OptionDrives w'.bus t pc'
unfolding cache_to_cache begin_transfer end_transfer
transfer-Drives w t driving q le d = ground arith
transfer-Drives w t _ q le d = ground arith

pub transfer-SameWires :
    (w : World) (t : Transfer) (pc : TransferPc)
    → transfer_holds pc ≡ 0
    → w.bus.bus_mutex ≡ true
    → SameWires w.bus (cache_to_cache w t pc).0.bus
unfolding cache_to_cache begin_transfer
transfer-SameWires w t driving h held = absurd (omega arith)
transfer-SameWires w t _ h held = ground arith

-- Who is not the holder finds its wires as they were.
pub CacheDrives-SameWires :
    (b b' : Bus) (id : ℕ) (pc : Pc) → SameWires b b' → CacheDrives b id pc → CacheDrives b' id pc
CacheDrives-SameWires b b' id idle same d = tt
CacheDrives-SameWires b b' id _ same d = ground arith

pub MemoryDrives-SameWires :
    (b b' : Bus) (pc : MemPc) → SameWires b b' → MemoryDrives b pc → MemoryDrives b' pc
MemoryDrives-SameWires b b' responding same d = ground arith
MemoryDrives-SameWires b b' _ same d = tt

pub TransferDrives-SameWires :
    (b b' : Bus) (t : Transfer) (pc : TransferPc)
    → SameWires b b'
    → TransferDrives b t pc
    → TransferDrives b' t pc
TransferDrives-SameWires b b' t driving same d = ground arith
TransferDrives-SameWires b b' t _ same d = tt

-- Who does not hold the bus drives nothing.
pub CacheDrives-of_zero : (b : Bus) (id : ℕ) (pc : Pc) → cache_holds pc ≡ 0 → CacheDrives b id pc
CacheDrives-of_zero b id idle h = tt
CacheDrives-of_zero b id _ h = ground arith

pub MemoryDrives-of_zero : (b : Bus) (pc : MemPc) → memory_holds pc ≡ 0 → MemoryDrives b pc
MemoryDrives-of_zero b responding h = absurd (omega arith)
MemoryDrives-of_zero b _ h = tt

pub TransferDrives-of_zero :
    (b : Bus) (t : Transfer) (pc : TransferPc) → transfer_holds pc ≡ 0 → TransferDrives b t pc
TransferDrives-of_zero b t driving h = absurd (omega arith)
TransferDrives-of_zero b t _ h = tt
