-- ===== src/Snooping/NonBlocking.antt =====
-- locknsnoop/snooping_sticky/snooping.cpp: the calls of `Interconnect` that no initiator of the program
-- makes, and the copies of an extension, which go with them.
use psa.Prelude.{ℕ, false, update}
use psa.Snooping.{Command, SnoopExtension, Payload, target_of, masked_address}
use psa.Snooping.Debug.{memory_debug}
use psa.Snooping.Interconnect.{Top}

-- `nb_transport_fw`, called by the initiator `id` with the transaction `t`: the map `m_id_map`, the
-- target that is called, and the payload that it gets
unfoldable pub pass_forward : (ℕ → ℕ) → ℕ → ℕ → Payload → (ℕ → ℕ) × ℕ × Payload
pass_forward id_map id t p =
    (update id_map t id, target_of p.address, record p { address = masked_address p.address })

-- `nb_transport_bw`: the initiator that is called
unfoldable pub pass_backward : (ℕ → ℕ) → ℕ → ℕ
pass_backward id_map t = id_map t

-- `transport_dbg`, with the buffer of the caller: the length, the modules and the buffer
unfoldable pub transport_debug : Top → Command → ℕ → ℕ → (ℕ → ℕ) → ℕ × Top × (ℕ → ℕ)
unfolding memory_debug
transport_debug t cmd adr len buffer =
    let target = target_of adr in
    let (n, m, buffer') = memory_debug (t.memories target) cmd (masked_address adr) len buffer in
    (n, record t { memories = update t.memories target m }, buffer')

-- `snoop_extension::clone`, `copy_from` and `free`
abbrev pub snoop_clone : SnoopExtension → SnoopExtension
snoop_clone this = record { end_address = this.end_address; valid = this.valid }

abbrev pub snoop_copy_from : SnoopExtension → SnoopExtension → SnoopExtension
snoop_copy_from this ext = record this { end_address = ext.end_address; valid = ext.valid }

abbrev pub snoop_free : SnoopExtension → SnoopExtension
snoop_free this = record this { valid = false }
