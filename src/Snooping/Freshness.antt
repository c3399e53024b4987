-- ===== src/Snooping/Freshness.antt =====
-- locknsnoop/snooping_sticky/snooping.cpp: the cache of the snooping initiator holds what the
-- memory holds.
use psa.Prelude.{ℕ, ◌≤◌, ◌<◌, ◌≡◌, refl, Bool, true, false, none, some, arith}
use psa.Snooping.Table.{IsRegion, AreRegions, entries, writables, erased_regions, erased_entries}
use psa.Snooping.{
  Command, read, write, ignore, Dmi, valid_extension, is_write, memory_dmi, reconstruct_address,
}
use psa.Snooping.Interconnect.{Top, get_dmi, invalidate_all}
use psa.Snooping.Initiators.{refresh, direct}

-- While the cache is valid, the memory snoops for it, and nobody else may write past the snoop.
abbrev pub IsFresh : Bool → Top → Type 0
IsFresh true t =
    ((t.memories 1).write_snoop ≡ true)
    × ((t.memories 1).snoop_start_address ≡ 0)
    × ((t.memories 1).snoop_end_address ≡ 0x7f)
    × (entries t.dmi_table ≤ 1)
    × (writables t.dmi_table ≡ 0)
    × ((i : ℕ) → i < 32 → t.snooper.cache i ≡ (t.memories 1).mem i)
IsFresh false t =
    ((t.memories 1).write_snoop ≡ false) × (entries t.dmi_table ≡ 1) × (writables t.dmi_table ≡ 1)

abbrev pub IsCoherent : Top → Type 0
IsCoherent t =
    AreRegions t.dmi_table
    × ((t.memories 0).write_snoop ≡ false)
    × (valid_extension t.extension ≡ none)
    × IsFresh t.snooper.dmi_valid t

pub entries_le_one : (v : Bool) (t : Top) → IsFresh v t → entries t.dmi_table ≤ 1
entries_le_one true t h = h.3
entries_le_one false t h = omega (arith, h.1)

pub refresh-IsCoherent :
    (t : Top) → IsCoherent t → (t' : Top) × (refresh t ≡ some t') × IsCoherent t'
unfolding refresh get_dmi invalidate_all memory_dmi reconstruct_address
refresh-IsCoherent t h =
    let regions = erased_regions t.dmi_table h.0 in
    let gone = erased_entries t.dmi_table h.0 (entries_le_one t.snooper.dmi_valid t h.3) in
    (_, refl, (regions, h.1, refl, (refl, refl, refl, ground arith, gone.1, λ i lt. ground arith)))

pub direct-IsCoherent :
    (t : Top) (d : Dmi) (addr : ℕ) (cmd : Command)
    → IsRegion d
    → ((is_write cmd ≡ true) → d.owner ≤ writables t.dmi_table)
    → IsCoherent t
    → IsCoherent (direct t d addr cmd)
unfolding direct
direct-IsCoherent t d addr write r w h = ground arith
direct-IsCoherent t d addr read r w h = ground arith
direct-IsCoherent t d addr ignore r w h = h
