-- ===== src/Snooping/Regular.antt =====
-- locknsnoop/snooping_sticky/snooping.cpp: a regular transaction of the initiator, with the region
-- that it then asks for.
use psa.Prelude.{
  ℕ, ◌+◌, ◌*◌, ◌<◌, ◌≡◌, refl, sym, subst, ◌∙◌, Bool, true, false, none, [], ◌∷◌, ◌++◌, Option,
  arith, if◌then◌else◌, ◌&&◌, update,
}
use psa.Snooping.Table.{
  entries, writables, snooped, erased_regions, erased_entries, appended_regions, appended_entries,
}
use psa.Snooping.Freshness.{IsCoherent, entries_le_one}
use psa.Snooping.{
  Command, read, write, ignore, Dmi, Memory, SnoopExtension, valid_extension, is_write,
  memory_transport, memory_dmi, reconstruct_address, target_of, masked_address, transported,
  dmi_request, Payload,
}
use psa.Snooping.Interconnect.{
  Top, erase_overlapping, mask_extension, transport, get_dmi, invalidate_all,
}
use psa.Snooping.Initiators.{regular, add_region, fresh}

-- A whole word in the range of a memory is read or written.
memory_transport_word :
    (m : Memory) (p : Payload) (delay n : ℕ)
    → n < 64
    → p.address ≡ n * 4
    → p.byte_enables ≡ false
    → p.data_length ≡ 4
    → p.streaming_width ≡ 4
    → memory_transport m p delay ≡ transported m p delay p.command
unfolding memory_transport
memory_transport_word m p delay n lt a b l w = ground arith

memory_dmi_regular :
    (self : ℕ) (m : Memory) (p : Payload)
    → valid_extension p.extension ≡ none
    → memory_dmi self m p ≡ dmi_request self m p.command
unfolding memory_dmi
memory_dmi_regular self m p h = rw (memory_dmi, h) refl

still_regular :
    (e : Option SnoopExtension)
    → valid_extension e ≡ none
    → valid_extension (mask_extension e) ≡ none
still_regular e h = ground arith

target_of-word : (n o : ℕ) → n < 64 → o < 2 → target_of (n * 4 + o * 256) ≡ o
target_of-word n o lt lo = omega arith

masked-word : (n o : ℕ) → n < 64 → masked_address (n * 4 + o * 256) ≡ n * 4
masked-word n o lt = omega arith

abbrev region : ℕ → Bool → Dmi
region o w = record {
  owner = o;
  word = 0;
  start_address = o * 256;
  end_address = o * 256 + 255;
  latency = 50;
  read_allowed = true;
  write_allowed = w;
}

abbrev with_region : Top → ℕ → Bool → Top
with_region t o w = record t {
  memories = update t.memories o (t.memories o);
  dmi_table = t.dmi_table ++ region o w ∷ [];
}

abbrev without_region : Top → ℕ → Top
without_region t o = record t { memories = update t.memories o (t.memories o) }

-- A region that is not refused is added, to be written if the transaction was a write.
add_region_lem :
    (t : Top) (p : Payload) (n o : ℕ)
    → n < 64
    → o < 2
    → valid_extension p.extension ≡ none
    → add_region t p (n * 4 + o * 256) ≡ (
        if (t.memories o).write_snoop && is_write p.command
        then without_region t o
        else with_region t o (is_write p.command))
unfolding add_region get_dmi reconstruct_address dmi_request invalidate_all
add_region_lem t p n o lt lo h =
    rw
      (
        target_of-word n o lt lo,
        masked-word n o lt,
        memory_dmi_regular o (t.memories o)
            (record p { address = n * 4; extension = mask_extension p.extension })
            (still_regular p.extension h),
      )
      (ground arith)

abbrev sent : Top → ℕ → Command → Payload
sent t n cmd = record (fresh t.extension) {
  command = cmd;
  address = n * 4;
  value = t.buffer;
  data_length = 4;
  streaming_width = 4;
}

transported_allowed :
    (m : Memory) (p : Payload) (delay : ℕ) (cmd : Command)
    → (transported m p delay cmd).trans.dmi_allowed ≡ true
unfolding transported
transported_allowed m p delay read = refl
transported_allowed m p delay write = refl
transported_allowed m p delay ignore = refl

regular_lem :
    (t : Top) (n o : ℕ) (cmd : Command)
    → n < 64
    → o < 2
    → let r = transported (t.memories o) (sent t n cmd) 0 cmd in
      let t' =
        invalidate_all (record t { memories = update t.memories o r.memory }) o r.invalidates in
      regular t (n * 4 + o * 256) cmd
      ≡ add_region (record t' { buffer = r.trans.value }) r.trans (n * 4 + o * 256)
unfolding regular transport
regular_lem t n o cmd lt lo =
    rw
      (
        target_of-word n o lt lo,
        masked-word n o lt,
        memory_transport_word (t.memories o) (sent t n cmd) 0 n lt refl refl refl refl,
        transported_allowed (t.memories o) (sent t n cmd) 0 cmd,
      )
      refl

-- The modules after a regular transaction, before the region is added
abbrev after : Top → ℕ → ℕ → Command → Top
after t n o cmd =
    let r = transported (t.memories o) (sent t n cmd) 0 cmd in
    record (invalidate_all (record t { memories = update t.memories o r.memory }) o r.invalidates) {
      buffer = r.trans.value;
    }

regular_result :
    (t : Top) (n o : ℕ) (cmd : Command)
    → n < 64
    → o < 2
    → valid_extension t.extension ≡ none
    → regular t (n * 4 + o * 256) cmd ≡ (
        if ((after t n o cmd).memories o).write_snoop && is_write cmd
        then without_region (after t n o cmd) o
        else with_region (after t n o cmd) o (is_write cmd))
unfolding transported
regular_result t n o read lt lo h =
    regular_lem t n o read lt lo
    ∙ add_region_lem (after t n o read) (transported (t.memories o) (sent t n read) 0 read).trans n
        o lt lo h
regular_result t n o write lt lo h =
    regular_lem t n o write lt lo
    ∙ add_region_lem (after t n o write) (transported (t.memories o) (sent t n write) 0 write).trans
        n o lt lo h
regular_result t n o ignore lt lo h =
    regular_lem t n o ignore lt lo
    ∙ add_region_lem (after t n o ignore)
        (transported (t.memories o) (sent t n ignore) 0 ignore).trans n o lt lo h

pub regular_low :
    (t : Top) (n : ℕ) (cmd : Command)
    → n < 64
    → IsCoherent t
    → IsCoherent (regular t (n * 4 + 0) cmd)
unfolding transported invalidate_all
regular_low t n read lt h =
    let regions = appended_regions t.dmi_table (region 0 false) h.0 (ground arith) in
    let counts = appended_entries t.dmi_table (region 0 false) in
    subst IsCoherent (sym (regular_result t n 0 read lt (omega arith) h.2)) (ground arith)
regular_low t n write lt h =
    let regions = appended_regions t.dmi_table (region 0 true) h.0 (ground arith) in
    let counts = appended_entries t.dmi_table (region 0 true) in
    subst IsCoherent (sym (regular_result t n 0 write lt (omega arith) h.2)) (ground arith)
regular_low t n ignore lt h =
    let regions = appended_regions t.dmi_table (region 0 false) h.0 (ground arith) in
    let counts = appended_entries t.dmi_table (region 0 false) in
    subst IsCoherent (sym (regular_result t n 0 ignore lt (omega arith) h.2)) (ground arith)

pub regular_high_read :
    (t : Top) (n : ℕ)
    → n < 64
    → IsCoherent t
    → entries t.dmi_table ≡ 0
    → IsCoherent (regular t (n * 4 + 256) read)
unfolding transported invalidate_all
regular_high_read t n lt h e =
    let regions = appended_regions t.dmi_table (region 1 false) h.0 (ground arith) in
    let counts = appended_entries t.dmi_table (region 1 false) in
    subst IsCoherent (sym (regular_result t n 1 read lt (omega arith) h.2)) (ground arith)

pub regular_high_write :
    (t : Top) (n : ℕ)
    → n < 64
    → IsCoherent t
    → writables t.dmi_table ≡ 0
    → IsCoherent (regular t (n * 4 + 256) write)
unfolding transported invalidate_all reconstruct_address
regular_high_write t n lt h e =
    let erased = erased_regions t.dmi_table h.0 in
    let gone = erased_entries t.dmi_table h.0 (entries_le_one t.snooper.dmi_valid t h.3) in
    let regions =
      appended_regions (erase_overlapping t.dmi_table snooped) (region 1 true) erased
        (ground arith) in
    let counts = appended_entries (erase_overlapping t.dmi_table snooped) (region 1 true) in
    subst IsCoherent (sym (regular_result t n 1 write lt (omega arith) h.2)) (ground arith)
