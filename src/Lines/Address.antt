-- ===== src/Lines/Address.antt =====
-- src/assignment_1/Cache.h: set and tag tell lines of memory apart, and give the address of a line
-- back.
use psa.Prelude.{ℕ, ◌+◌, ◌/◌, ◌%◌, ◌^◌, ◌≤◌, ◌<◌, ◌≡◌, ◌↔◌, true, false, arith}
use psa.Lines.{
  Line, is_invalid, cache_set_size, addr_to_index, tag_of, to_tag, from_tag, line_address,
  writeback_address, present,
}

-- The set of an address starts at a multiple of the set size, and ends in the first 1024 lines of
-- the 8192.
pub addr_to_index_bounds :
    (addr : ℕ)
    → (addr_to_index addr % cache_set_size ≡ 0) × (addr_to_index addr + cache_set_size ≤ 1024)
unfolding addr_to_index
addr_to_index_bounds addr = omega arith

pub from_tag-to_tag : (a : ℕ) → a < 2 ^ 32 → from_tag (to_tag (tag_of a)) ≡ tag_of a
unfolding tag_of
from_tag-to_tag a h = ground arith

-- Two addresses of 32 bits lie in the same 32 bytes exactly when they have the same set and a line
-- that is not invalid and is tagged for the one counts as present for the other.
pub same_line :
    (a b : ℕ) (c : Line)
    → a < 2 ^ 32
    → b < 2 ^ 32
    → c.tag ≡ to_tag (tag_of a)
    → (is_invalid c.state ≡ false)
    → (a / 32 ≡ b / 32) ↔ ((addr_to_index a ≡ addr_to_index b) × (present c b ≡ true))
unfolding addr_to_index tag_of present
same_line a b c ha hb tagged valid = (λ e. ground arith, λ e. ground arith)

-- A line tagged for one address of 32 bits is written back to the address of its first byte,
-- whatever address of the same set takes its place.
pub writeback_address_lem :
    (a b : ℕ)
    → a < 2 ^ 32
    → addr_to_index a ≡ addr_to_index b
    → writeback_address (to_tag (tag_of a)) b ≡ line_address a
unfolding addr_to_index tag_of writeback_address
writeback_address_lem a b ha e = ground arith
