-- ===== src/Snooping/Table.antt =====
-- locknsnoop/snooping_sticky/snooping.cpp: the table of regions that the initiator may access
-- directly: what the search finds, what erasing the snooped region leaves, and a new entry.
use psa.Prelude.{
  ℕ, ◌+◌, ◌*◌, ◌≤◌, ◌<◌, ◌≡◌, ◌⊎◌, Bool, true, false, none, some, List, [], ◌∷◌, ◌++◌, arith,
}
use psa.Snooping.{Command, Dmi, Range, is_write, is_read}
use psa.Snooping.Interconnect.{erase_overlapping}
use psa.Snooping.Initiators.{find_dmi}

-- An entry that a memory grants to the initiator: all of the memory 0 or 1.
abbrev pub IsRegion : Dmi → Type 0
IsRegion d =
    ((d.owner ≡ 0) ⊎ (d.owner ≡ 1))
    × (d.word ≡ 0)
    × (d.start_address ≡ d.owner * 256)
    × (d.end_address ≡ d.owner * 256 + 255)
    × (d.read_allowed ≡ true)

abbrev pub AreRegions : List Dmi → Type 0
AreRegions [] = Unit
AreRegions (d ∷ ds) = IsRegion d × AreRegions ds

abbrev pub bit : Bool → ℕ
bit true = 1
bit false = 0

-- The entries for the memory 1, and those that allow a write
abbrev pub entries : List Dmi → ℕ
entries [] = 0
entries (d ∷ ds) = d.owner + entries ds

abbrev pub writables : List Dmi → ℕ
writables [] = 0
writables (d ∷ ds) = d.owner * bit d.write_allowed + writables ds

-- What the table has for an access
pub find_some :
    (ds : List Dmi) (addr : ℕ) (cmd : Command) (d : Dmi)
    → AreRegions ds
    → find_dmi ds addr cmd ≡ some d
    → IsRegion d
      × (d.start_address ≤ addr)
      × (addr ≤ d.end_address)
      × ((is_write cmd ≡ true) → d.owner ≤ writables ds)
unfolding find_dmi
find_some [] addr cmd d h e = ground arith
find_some (c ∷ ds) addr cmd d h e = let ih = find_some ds addr cmd d h.1 in ground arith

pub find_none :
    (ds : List Dmi) (addr : ℕ) (cmd : Command)
    → AreRegions ds
    → 256 ≤ addr
    → addr < 512
    → find_dmi ds addr cmd ≡ none
    → ((is_read cmd ≡ true) → entries ds ≡ 0) × ((is_write cmd ≡ true) → writables ds ≡ 0)
unfolding find_dmi
find_none [] addr cmd h lo hi e = ground arith
find_none (c ∷ ds) addr cmd h lo hi e = let ih = find_none ds addr cmd h.1 lo hi in ground arith

-- The range of the snoop, as the initiators see it
abbrev pub snooped : Range
snooped = record { start_range = 256; end_range = 383 }

pub erased_regions : (ds : List Dmi) → AreRegions ds → AreRegions (erase_overlapping ds snooped)
unfolding erase_overlapping
erased_regions [] h = tt
erased_regions (d ∷ []) h = ground arith
erased_regions (d ∷ e ∷ ds) h =
    let ih = erased_regions ds h.1.1 in let ih' = erased_regions (e ∷ ds) h.1 in ground arith

pub erased_entries :
    (ds : List Dmi)
    → AreRegions ds
    → entries ds ≤ 1
    → (entries (erase_overlapping ds snooped) ≡ 0) × (writables (erase_overlapping ds snooped) ≡ 0)
unfolding erase_overlapping
erased_entries [] h le = ground arith
erased_entries (d ∷ []) h le = ground arith
erased_entries (d ∷ e ∷ ds) h le =
    let ih = erased_entries ds h.1.1 in let ih' = erased_entries (e ∷ ds) h.1 in ground arith

pub appended_regions :
    (ds : List Dmi) (d : Dmi) → AreRegions ds → IsRegion d → AreRegions (ds ++ d ∷ [])
appended_regions [] d h r = (r, tt)
appended_regions (c ∷ ds) d h r = (h.0, appended_regions ds d h.1 r)

pub appended_entries :
    (ds : List Dmi) (d : Dmi)
    → (entries (ds ++ d ∷ []) ≡ entries ds + d.owner)
      × (writables (ds ++ d ∷ []) ≡ writables ds + d.owner * bit d.write_allowed)
appended_entries [] d = ground arith
appended_entries (c ∷ ds) d = let ih = appended_entries ds d in ground arith
