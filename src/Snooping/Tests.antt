-- ===== src/Snooping/Tests.antt =====
-- locknsnoop/snooping_sticky/snooping.cpp: runs of the two initiators, and the theorems about them
-- at concrete values.
use psa.Prelude.{
  ℕ, ◌≡◌, ◌<◌, ◌⊎◌, refl, inl, inr, Bool, true, false, Option, none, some, List, [], ◌∷◌, arith,
}
use psa.Snooping.{
  Dmi, Range, target_of, masked_address, reconstruct_address, memory_transport, memory_dmi,
  transported, dmi_request,
}
use psa.Snooping.Interconnect.{Top, erase_overlapping, transport, get_dmi, invalidate_all}
use psa.Snooping.Initiators.{
  Choice, snoops, accesses, start, run, turn, snooper_step, access, find_dmi, access_by, regular,
  direct, add_region, refresh,
}
use psa.Snooping.Addresses.{reconstruct_address_lem}
use psa.Snooping.Erasing.{IsClear, erase_overlapping_lem}
use psa.Snooping.Runs.{cache_fresh}

abbrev words : ℕ → ℕ → ℕ
words i j = 7

abbrev no_cache : ℕ → ℕ
no_cache j = 0

-- The other initiator reads and writes what is snooped, and what is not.
abbrev turns : List Choice
turns =
    accesses 3 true
    ∷ accesses 70 false
    ∷ accesses 127 true
    ∷ accesses 65 true
    ∷ snoops
    ∷ accesses 65 true
    ∷ snoops
    ∷ snoops
    ∷ []

cache_fresh_example :
    (t : Top) × (run (start words no_cache 0) (snoops ∷ turns) ≡ some t)
    × ((t.snooper.dmi_valid ≡ false) ⊎ (t.snooper.cache 1 ≡ (t.memories 1).mem 1))
cache_fresh_example = cache_fresh words no_cache 0 turns 1 (omega arith)

abbrev seen : Option Top → Option (Bool × ℕ × ℕ)
seen none = none
seen (some t) = some (t.snooper.dmi_valid, t.snooper.cache 1, (t.memories 1).mem 1)

-- Where the other initiator has two turns before it, a region to be read and one to be written stand
-- in a row in its table, and the second is not erased: the cache is stale, and not marked so.
stale_cache :
    seen (
      run
        (start words no_cache 0)
        (accesses 64 false ∷ accesses 64 true ∷ snoops ∷ accesses 65 true ∷ []))
    ≡ some (true, 7, 260)
unfolding run turn snooper_step access access_by regular direct transport add_region get_dmi
    invalidate_all refresh memory_transport memory_dmi transported dmi_request reconstruct_address
    erase_overlapping find_dmi
stale_cache = refl

reconstruct_address_example :
    (target_of 0x17c < 2)
    × (masked_address 0x17c < 256)
    × (reconstruct_address (masked_address 0x17c) (target_of 0x17c) ≡ 0x17c)
    × (target_of (reconstruct_address 12 0) ≡ 0)
    × (masked_address (reconstruct_address 12 0) ≡ 12)
reconstruct_address_example =
    reconstruct_address_lem 0x17c 12 0 (omega arith) (omega arith) (omega arith)

abbrev region : ℕ → ℕ → ℕ → Dmi
region o first last = record {
  owner = o;
  word = 0;
  start_address = first;
  end_address = last;
  latency = 50;
  read_allowed = true;
  write_allowed = false;
}

abbrev snooped : Range
snooped = record { start_range = 0x100; end_range = 0x17f }

abbrev table : List Dmi
table = region 0 0 0xff ∷ region 1 0x100 0x1ff ∷ region 0 0 0xff ∷ []

erase_overlapping_example : IsClear (erase_overlapping table snooped) snooped
erase_overlapping_example = erase_overlapping_lem table snooped (inl refl, (inr refl, tt))
