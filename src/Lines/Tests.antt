-- ===== src/Lines/Tests.antt =====
-- src/assignment_1/Cache.h: the cache lines on examples, and the theorems at them.
use Prim.Native.Nat.{bit_and}
use psa.Prelude.{
  ℕ, ◌+◌, ◌-◌, ◌/◌, ◌%◌, ◌≤◌, ◌<◌, ◌≡◌, ◌↔◌, ◌⊎◌, inl, refl, true, false, none, some, update, arith,
}
use psa.Lines.{
  Line, LineState, modified, shared, is_invalid, empty_lines, addr_to_index, index_bits, tag_of,
  to_tag, line_address, writeback_address, present, check_line, cache_set_size, Function, read,
  write, Request, snooping,
}
use psa.Lines.Address.{addr_to_index_bounds, same_line, writeback_address_lem}
use psa.Lines.Victims.{check_line_victim}
use psa.Lines.Snooped.{IsUnique, snooping_invalidates, snooping_answers}

-- The masks of utils.h, bit by bit
mask_index : index_bits 0x1234_5678 ≡ bit_and 0x1234_5678 0b111111100000
mask_index = refl

mask_line : line_address 0xfedc_ba98 ≡ bit_and 0xfedc_ba98 0xffff_ffe0
mask_line = refl

-- A negative `int` keeps its sign.
negative_tag : tag_of 0xfedc_ba98 ≡ 0xffff_edcb
unfolding tag_of
negative_tag = refl

abbrev tagged : ℕ → LineState → ℕ → Line
tagged counter st addr = record { counter = counter; state = st; tag = to_tag (tag_of addr) }

-- The set of 0x5040 starts at line 16: a modified line of 0x5040, and a shared one of 0x9040.
abbrev lines : ℕ → Line
lines = update (update empty_lines 17 (tagged 9 modified 0x5040)) 18 (tagged 4 shared 0x9040)

finds : (check_line lines 0x5044).rindex ≡ some 17
unfolding check_line addr_to_index present tag_of
finds = refl

misses : (check_line lines 0x7040).rindex ≡ none
unfolding check_line addr_to_index present tag_of
misses = refl

-- The last invalid line of the set is the victim.
takes_invalid : (check_line lines 0x7040).min_id ≡ 23
unfolding check_line addr_to_index present tag_of
takes_invalid = refl

abbrev full : ℕ → Line
full i = record { counter = 2000 - i; state = shared; tag = i }

misses_full : (check_line full 0xff040).rindex ≡ none
unfolding check_line addr_to_index present tag_of
misses_full = refl

takes_lowest : (check_line full 0xff040).min_id ≡ 23
unfolding check_line addr_to_index present tag_of
takes_lowest = refl

abbrev seen : Function → Request
seen f = record { id = 3; addr = 0x5050; func = f }

answers :
    (snooping 1 lines (seen read)).1
    ≡ some (record { proc_id = 3; source_id = 1; addr = 0x5050; line = 17 })
unfolding snooping addr_to_index present tag_of
answers = refl

addr_to_index_bounds_example :
    (addr_to_index 0xffff_ffff % cache_set_size ≡ 0)
    × (addr_to_index 0xffff_ffff + cache_set_size ≤ 1024)
addr_to_index_bounds_example = addr_to_index_bounds 0xffff_ffff

same_line_example : (◌≡◌ {A = ℕ} (0x5044 / 32) (0x5058 / 32)) ↔ (
    (addr_to_index 0x5044 ≡ addr_to_index 0x5058)
    × (present (tagged 0 shared 0x5044) 0x5058 ≡ true))
same_line_example =
    same_line 0x5044 0x5058 (tagged 0 shared 0x5044) (omega arith) (omega arith) refl refl

writeback_address_example :
    writeback_address (to_tag (tag_of 0xfedc_ba98)) 0x1a88 ≡ line_address 0xfedc_ba98
unfolding addr_to_index
writeback_address_example = writeback_address_lem 0xfedc_ba98 0x1a88 (omega arith) refl

check_line_victim_example :
    let v = (check_line full 0xff040).min_id in
    (addr_to_index 0xff040 ≤ v)
    × (v < addr_to_index 0xff040 + cache_set_size)
    × ((is_invalid (full v).state ≡ true)
        ⊎ ((is_invalid (full 18).state ≡ false) × ((full v).counter ≤ (full 18).counter)))
unfolding addr_to_index
check_line_victim_example =
    check_line_victim full 0xff040 18 misses_full (omega arith) (omega arith) (omega arith)

present_17 : present (lines 17) 0x5050 ≡ true
unfolding present tag_of
present_17 = refl

only_17 : (i : ℕ) → present (lines i) 0x5050 ≡ true → i ≡ 17
unfolding present tag_of
only_17 i h = ground arith

unique : IsUnique lines 0x5050
unique i j _ _ _ _ hi hj = omega (arith, only_17 i hi, only_17 j hj)

snooping_invalidates_example :
    (present ((snooping 1 lines (seen write)).0 17) 0x5050 ≡ false)
    × ((snooping 1 lines (seen write)).1 ≡ none)
unfolding addr_to_index
snooping_invalidates_example =
    snooping_invalidates 1 lines (seen write) 17 (inl refl) unique (omega arith) (omega arith)

snooping_answers_example :
    ((snooping 1 lines (seen read)).1
      ≡ some (record { proc_id = 3; source_id = 1; addr = 0x5050; line = 17 }))
    × (((snooping 1 lines (seen read)).0 17).state ≡ modified)
unfolding addr_to_index
snooping_answers_example =
    snooping_answers 1 lines (seen read) 17 refl unique (omega arith) (omega arith) present_17
