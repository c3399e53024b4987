-- ===== src/Snooping/Initiators.antt =====
-- locknsnoop/snooping_sticky/snooping.cpp: the threads of the two initiators, and their runs.
use psa.Prelude.{
  ℕ, ◌+◌, ◌-◌, ◌*◌, ◌/◌, ◌%◌, Bool, true, false, ◌&&◌, ◌||◌, Option, none, some, List, [], ◌∷◌,
  ◌++◌, if◌then◌else◌, ltb, leb, update,
}
use psa.Snooping.{
  Command, read, write, ignore, Payload, SnoopExtension, Dmi, Memory, incomplete, is_write, is_read,
  write_word,
}
use psa.Snooping.Interconnect.{start_address, end_address, Top, transport, get_dmi}

-- The transaction as the snooping initiator sets it up, with the one that it got from `gp_mm`
abbrev pub snoop_payload : Payload → Payload
snoop_payload p = record p {
  command = read;
  address = start_address;
  extension = some (record { end_address = end_address; valid = true });
}

-- A transaction as `gp_mm` gives it out: all but its extension is set before it is used or not read.
abbrev pub fresh : Option SnoopExtension → Payload
fresh e = record {
  command = ignore;
  address = 0;
  value = 0;
  data_length = 0;
  byte_enables = false;
  streaming_width = 0;
  dmi_allowed = false;
  status = incomplete;
  extension = e;
}

abbrev disable : Option SnoopExtension → Option SnoopExtension
disable none = none
disable (some e) = some (record e { valid = false })

-- A `memcpy` of the region into `m_cache`
abbrev copied_cache : (ℕ → Memory) → Dmi → ℕ → (ℕ → ℕ) → ℕ → ℕ
copied_cache memories d n cache i = if ltb i n then (memories d.owner).mem (d.word + i) else cache i

-- The body of the outer loop of `Snooping_initiator::thread_process`, up to the inner one; `none` is
-- that `SC_REPORT_FATAL` stops the program.
unfoldable pub refresh : Top → Option Top
unfolding get_dmi
refresh t =
    let (t', p, d, valid) = get_dmi t (snoop_payload (fresh t.extension)) in
    if valid
    then some (record t' {
      snooper = record (t'.snooper) {
        dmi_valid = true;
        cache = copied_cache t'.memories d ((end_address - start_address + 1) / 4) t'.snooper.cache;
      };
      extension = disable p.extension;
    })
    else none

-- One turn of the thread, in the inner loop while the cache is valid. The thread stops for good at
-- the hundredth instruction, which is that it has no more turns.
unfoldable pub snooper_step : Top → Option Top
unfolding refresh
snooper_step t =
    if t.snooper.dmi_valid
    then some (record t { snooper = record (t.snooper) { count = t.snooper.count + 1 } })
    else refresh t

-- The loop over the DMI table
abbrev pub allows : Dmi → Command → Bool
allows d cmd = is_write cmd && d.write_allowed || is_read cmd && d.read_allowed

unfoldable pub find_dmi : List Dmi → ℕ → Command → Option Dmi
find_dmi [] addr cmd = none
find_dmi (d ∷ ds) addr cmd =
    let rest = find_dmi ds addr cmd in
    if leb d.start_address addr && leb addr d.end_address && allows d cmd then some d else rest

-- A write or a read through a pointer
unfoldable pub direct : Top → Dmi → ℕ → Command → Top
direct t d addr write = record t {
  memories =
      update t.memories d.owner
        (write_word (t.memories d.owner) (d.word + (addr - d.start_address) / 4) t.buffer);
}
direct t d addr read = record t {
  buffer = (t.memories d.owner).mem (d.word + (addr - d.start_address) / 4);
}
direct t d addr ignore = t

-- The request for a region after a transaction
unfoldable pub add_region : Top → Payload → ℕ → Top
unfolding get_dmi
add_region t p addr =
    let (t', p', d, valid) = get_dmi t (record p { address = addr }) in
    if valid then record t' { dmi_table = t'.dmi_table ++ d ∷ [] } else t'

-- A regular transaction. The payload points to `data`.
unfoldable pub regular : Top → ℕ → Command → Top
unfolding transport add_region
regular t addr cmd =
    let (t', p, delay) =
      transport t
        (record (fresh t.extension) {
          command = cmd;
          address = addr;
          value = t.buffer;
          data_length = 4;
          streaming_width = 4;
        })
        0 in
    let t'' = record t' { buffer = p.value } in if p.dmi_allowed then add_region t'' p addr else t''

unfoldable pub access_by : Top → ℕ → Command → Option Dmi → Top
unfolding regular direct
access_by t addr cmd none = regular t addr cmd
access_by t addr cmd (some d) = direct t d addr cmd

-- One round of `Initiator::thread_process`, with its random address and command
unfoldable pub access : Top → ℕ → Command → Top
unfolding access_by find_dmi
access t addr cmd =
    let t' = if is_write cmd then record t { buffer = addr } else t in
    access_by t' addr cmd (find_dmi t'.dmi_table addr cmd)

-- The modules after their constructors, with the random words of the memories
abbrev pub start : (ℕ → ℕ → ℕ) → (ℕ → ℕ) → ℕ → Top
start words cache buffer = record {
  memories = λ i. record {
    mem = words i;
    write_snoop = false;
    snoop_start_address = 0;
    snoop_end_address = 0;
  };
  snooper = record { count = 0; dmi_valid = false; cache = cache };
  dmi_table = [];
  buffer = buffer;
  extension = none;
}

-- Who goes on: the snooping initiator, or the other with an address (`rand() % 128 << 2`) and a
-- command (`rand() % 2`).
pub data Choice : Type 0 where
  snoops : Choice
  accesses : (number : ℕ) (writes : Bool) → Choice

unfoldable pub turn : Top → Choice → Option Top
unfolding snooper_step access
turn t snoops = snooper_step t
turn t (accesses n writes) = some (access t (n % 128 * 4) (if writes then write else read))

unfoldable pub run : Top → List Choice → Option Top
unfolding turn
run t [] = some t
run t (c ∷ cs) = elim (turn t c) [ none ↦ none | some t' ↦ run t' cs ]
