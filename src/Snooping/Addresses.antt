-- ===== src/Snooping/Addresses.antt =====
-- locknsnoop/snooping_sticky/snooping.cpp: the addresses on both sides of the interconnect.
use psa.Prelude.{ℕ, ◌<◌, ◌≡◌, arith}
use psa.Snooping.{target_of, masked_address, reconstruct_address}

-- An address of the 512 bytes of the two memories is decoded to the target 0 or 1 and an address in
-- that memory, from which it is reconstructed; and an address below 256 in the memory 0 or 1 is
-- decoded back from the address that is reconstructed for it.
pub reconstruct_address_lem :
    (address inner target : ℕ)
    → address < 512
    → inner < 256
    → target < 2
    → (target_of address < 2)
      × (masked_address address < 256)
      × (reconstruct_address (masked_address address) (target_of address) ≡ address)
      × (target_of (reconstruct_address inner target) ≡ target)
      × (masked_address (reconstruct_address inner target) ≡ inner)
unfolding reconstruct_address
reconstruct_address_lem address inner target lt lt' lo = ground arith
