-- ===== src/Snooping/Interconnect.antt =====
-- locknsnoop/snooping_sticky/snooping.cpp: the module `Top`, the calls that pass through the
-- `Interconnect`, and what an invalidation does to the initiators.
use psa.Prelude.{
  ℕ, Bool, false, ◌&&◌, Option, none, some, List, [], ◌∷◌, if◌then◌else◌, leb, update,
}
use psa.Snooping.{
  Payload, SnoopExtension, Dmi, Range, Memory, memory_transport, memory_dmi, target_of,
  masked_address, reconstruct_address,
}

-- The state of `Snooping_initiator` that its threads and calls share; its latency only guides the
-- time, and `m_cache` holds words.
pub record Snooper : Type 0 where
  pub count : ℕ
  pub dmi_valid : Bool
  pub cache : ℕ → ℕ

-- `start_address` and `end_address`
abbrev pub start_address : ℕ
start_address = 0x100

abbrev pub end_address : ℕ
end_address = 0x17f

-- The modules of `Top`. `extension` is that of the transaction which the initiators use by turns, as
-- `gp_mm` gives a transaction that was freed to the next who asks for one; `buffer` is the `data` of
-- `Initiator`.
pub record Top : Type 0 where
  pub memories : ℕ → Memory
  pub snooper : Snooper
  pub dmi_table : List Dmi
  pub buffer : ℕ
  pub extension : Option SnoopExtension

abbrev pub overlaps : Dmi → Range → Bool
overlaps d r = leb r.start_range d.end_address && leb d.start_address r.end_range

-- `Initiator::invalidate_direct_mem_ptr`: an entry that is erased moves the next one to its place,
-- and the loop goes on after it.
unfoldable pub erase_overlapping : List Dmi → Range → List Dmi
erase_overlapping [] r = []
erase_overlapping (d ∷ []) r = if overlaps d r then [] else d ∷ []
erase_overlapping (d ∷ e ∷ ds) r =
    let rest = erase_overlapping ds r in
    let rest' = erase_overlapping (e ∷ ds) r in if overlaps d r then e ∷ rest else d ∷ rest'

-- `Snooping_initiator::invalidate_direct_mem_ptr`
abbrev pub drop_cache : Snooper → Range → Snooper
drop_cache s r =
    if leb r.start_range end_address && leb start_address r.end_range
    then record s { dmi_valid = false }
    else s

-- `Interconnect::invalidate_direct_mem_ptr`, called by the target `id`
unfoldable pub invalidate_all : Top → ℕ → Option Range → Top
unfolding erase_overlapping reconstruct_address
invalidate_all t id none = t
invalidate_all t id (some r) =
    let bw : Range = record {
      start_range = reconstruct_address r.start_range id;
      end_range = reconstruct_address r.end_range id;
    } in
    record t { snooper = drop_cache t.snooper bw; dmi_table = erase_overlapping t.dmi_table bw }

-- `Interconnect::b_transport`
unfoldable pub transport : Top → Payload → ℕ → Top × Payload × ℕ
unfolding memory_transport invalidate_all
transport t p delay =
    let target = target_of p.address in
    let r =
      memory_transport (t.memories target) (record p { address = masked_address p.address })
        delay in
    (
      invalidate_all (record t { memories = update t.memories target r.memory }) target
          r.invalidates,
      r.trans,
      r.delay,
    )

abbrev pub mask_extension : Option SnoopExtension → Option SnoopExtension
mask_extension none = none
mask_extension (some e) =
    if e.valid then some (record e { end_address = masked_address e.end_address }) else some e

-- `Interconnect::get_direct_mem_ptr`
unfoldable pub get_dmi : Top → Payload → Top × Payload × Dmi × Bool
unfolding memory_dmi invalidate_all
get_dmi t p =
    let target = target_of p.address in
    let p' = record p {
      address = masked_address p.address;
      extension = mask_extension p.extension;
    } in
    let g = memory_dmi target (t.memories target) p' in
    (
      invalidate_all (record t { memories = update t.memories target g.memory }) target
          g.invalidates,
      p',
      record (g.dmi) {
        start_address = reconstruct_address g.dmi.start_address target;
        end_address = reconstruct_address g.dmi.end_address target;
      },
      g.granted,
    )
