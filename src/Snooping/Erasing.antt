-- ===== src/Snooping/Erasing.antt =====
-- locknsnoop/snooping_sticky/snooping.cpp: the table of the initiator when a region is
-- invalidated.
use psa.Prelude.{◌≡◌, ◌⊎◌, false, List, [], ◌∷◌, arith}
use psa.Snooping.{Dmi, Range}
use psa.Snooping.Interconnect.{overlaps, erase_overlapping}

-- No two entries in a row overlap the range.
abbrev pub IsSparse : List Dmi → Range → Type 0
IsSparse [] r = Unit
IsSparse (d ∷ []) r = Unit
IsSparse (d ∷ e ∷ ds) r = ((overlaps d r ≡ false) ⊎ (overlaps e r ≡ false)) × IsSparse (e ∷ ds) r

-- No entry overlaps the range.
abbrev pub IsClear : List Dmi → Range → Type 0
IsClear [] r = Unit
IsClear (d ∷ ds) r = (overlaps d r ≡ false) × IsClear ds r

IsSparse-tail : (d : Dmi) (ds : List Dmi) (r : Range) → IsSparse (d ∷ ds) r → IsSparse ds r
IsSparse-tail d [] r h = tt
IsSparse-tail d (e ∷ ds) r h = h.1

-- If no two entries in a row overlap the range, then the initiator's `invalidate_direct_mem_ptr`
-- leaves no entry that overlaps it.
pub erase_overlapping_lem :
    (ds : List Dmi) (r : Range) → IsSparse ds r → IsClear (erase_overlapping ds r) r
unfolding erase_overlapping
erase_overlapping_lem [] r h = tt
erase_overlapping_lem (d ∷ []) r h = ground arith
erase_overlapping_lem (d ∷ e ∷ ds) r h =
    let after = erase_overlapping_lem ds r (IsSparse-tail e ds r h.1) in
    let tail = erase_overlapping_lem (e ∷ ds) r h.1 in ground arith
