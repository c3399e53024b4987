-- ===== src/Snooping.antt =====
-- locknsnoop/snooping_sticky/snooping.cpp: what the modules send each other, the module `Memory`
-- with its write snoop, and the addresses of the `Interconnect`.
--
-- All data are words of four bytes, which is all that the modules copy: `mem` and `value` hold words,
-- and a `memcpy` of n bytes copies n / 4 of them. A time is a number of nanoseconds.
pub mod Interconnect
pub mod Debug
pub mod NonBlocking
pub mod Initiators
pub mod Addresses
pub mod Erasing
pub mod Table
pub mod Freshness
pub mod Regular
pub mod Runs
pub mod Tests
use psa.Prelude.{
  ℕ, ◌+◌, ◌-◌, ◌*◌, ◌/◌, ◌%◌, ◌^◌, Bool, true, false, ◌&&◌, ◌||◌, not, Option, none, some,
  if◌then◌else◌, ltb, leb, ◌==◌, update,
}

-- `tlm_command` and `tlm_response_status`
pub data Command : Type 0 where
  read write ignore : Command

pub data Status : Type 0 where
  incomplete ok address_error byte_enable_error burst_error : Status

pub record SnoopExtension : Type 0 where
  pub end_address : ℕ
  pub valid : Bool

-- The members of the generic payload that the modules use. `data` is the word that `data_ptr`
-- points to, `byte_enables` whether `byte_enable_ptr` is not null.
pub record Payload : Type 0 where
  pub command : Command
  pub address : ℕ
  pub value : ℕ
  pub data_length : ℕ
  pub byte_enables : Bool
  pub streaming_width : ℕ
  pub dmi_allowed : Bool
  pub status : Status
  pub extension : Option SnoopExtension

-- `tlm_dmi`. Its pointer is a word of one of the memories.
pub record Dmi : Type 0 where
  pub owner : ℕ
  pub word : ℕ
  pub start_address : ℕ
  pub end_address : ℕ
  pub latency : ℕ
  pub read_allowed : Bool
  pub write_allowed : Bool

-- A range of addresses, both ends in it: the arguments of `invalidate_direct_mem_ptr`.
pub record Range : Type 0 where
  pub start_range : ℕ
  pub end_range : ℕ

pub record Memory : Type 0 where
  pub mem : ℕ → ℕ
  pub write_snoop : Bool
  pub snoop_start_address : ℕ
  pub snoop_end_address : ℕ

-- `SIZE` and `LATENCY`
abbrev pub size : ℕ
size = 64

abbrev pub latency : ℕ
latency = 50

abbrev pub read_word : Memory → ℕ → ℕ
read_word m i = m.mem i

abbrev pub write_word : Memory → ℕ → ℕ → Memory
write_word m i x = record m { mem = update m.mem i x }

-- The test `write_snoop` and the address range
abbrev pub caught : Memory → ℕ → ℕ → Bool
caught m adr len =
    m.write_snoop && ltb m.snoop_start_address (adr + len) && leb adr m.snoop_end_address

-- The end of a write, and the range for which it calls `invalidate_direct_mem_ptr`
abbrev pub written : Memory → ℕ → ℕ → ℕ → Memory × Option Range
written m adr len x =
    if caught m adr len
    then (
      record (write_word m (adr / 4) x) { write_snoop = false },
      some (record { start_range = m.snoop_start_address; end_range = m.snoop_end_address }),
    )
    else (write_word m (adr / 4) x, none)

abbrev pub completed : Payload → Payload
completed p = record p { dmi_allowed = true; status = ok }

-- What `Memory::b_transport` and `get_direct_mem_ptr` do besides their results: the range that they
-- invalidate, and for the first the new delay.
pub record Transported : Type 0 where
  pub memory : Memory
  pub trans : Payload
  pub delay : ℕ
  pub invalidates : Option Range

unfoldable pub transported : Memory → Payload → ℕ → Command → Transported
transported m p delay read = record {
  memory = m;
  trans = completed (record p { value = read_word m (p.address / 4) });
  delay = delay + latency;
  invalidates = none;
}
transported m p delay write = record {
  memory = (written m p.address p.data_length p.value).0;
  trans = completed p;
  delay = delay + latency;
  invalidates = (written m p.address p.data_length p.value).1;
}
transported m p delay ignore = record {
  memory = m;
  trans = completed p;
  delay = delay + latency;
  invalidates = none;
}

abbrev pub refused : Memory → Payload → ℕ → Status → Transported
refused m p delay st = record {
  memory = m;
  trans = record p { status = st };
  delay = delay;
  invalidates = none;
}

-- `Memory::b_transport`
unfoldable pub memory_transport : Memory → Payload → ℕ → Transported
unfolding transported
memory_transport m p delay =
    if leb size (p.address / 4) || not (p.address % 4 == 0)
    then refused m p delay address_error
    else if p.byte_enables
    then refused m p delay byte_enable_error
    else if not (p.data_length == 4) || not (p.streaming_width == 4)
    then refused m p delay burst_error
    else transported m p delay p.command

-- `get_direct_mem_ptr` with its result, the access that it describes and the range it invalidates;
-- `failed` is the call of `SC_REPORT_ERROR`.
pub record Granted : Type 0 where
  pub memory : Memory
  pub granted : Bool
  pub dmi : Dmi
  pub invalidates : Option Range
  pub failed : Bool

-- A request with a valid extension
snoop_request : ℕ → Memory → ℕ → ℕ → Granted
snoop_request self m start_address end_address =
    let m' : Memory = record m {
      snoop_start_address = start_address;
      snoop_end_address = end_address;
    } in
    let dmi : Dmi = record {
      owner = self;
      word = start_address / 4;
      start_address = start_address;
      end_address = end_address;
      latency = latency;
      read_allowed = true;
      write_allowed = false;
    } in
    if not (start_address % 4 == 0)
    then record { memory = m'; granted = false; dmi = dmi; invalidates = none; failed = false }
    else record {
      memory = record m' { write_snoop = true };
      granted = true;
      dmi = dmi;
      invalidates = some (record { start_range = start_address; end_range = end_address });
      failed = false;
    }

abbrev pub is_write : Command → Bool
is_write write = true
is_write _ = false

abbrev pub is_read : Command → Bool
is_read read = true
is_read _ = false

-- A request without one. `dmi` comes with the access `none` from the caller, as a new `tlm_dmi` has.
unfoldable pub dmi_request : ℕ → Memory → Command → Granted
dmi_request self m cmd =
    let granted = not (m.write_snoop && is_write cmd) in
    record {
      memory = m;
      granted = granted;
      dmi = record {
        owner = self;
        word = 0;
        start_address = 0;
        end_address = size * 4 - 1;
        latency = latency;
        read_allowed = granted;
        write_allowed = granted && is_write cmd;
      };
      invalidates = none;
      failed = false;
    }

-- The extension that is there and valid
abbrev pub valid_extension : Option SnoopExtension → Option ℕ
valid_extension none = none
valid_extension (some e) = if e.valid then some e.end_address else none

-- A write that asks for a snoop leaves `dmi` as it was made.
abbrev pub new_dmi : Dmi
new_dmi = record {
  owner = 0;
  word = 0;
  start_address = 0;
  end_address = 2 ^ 64 - 1;
  latency = 0;
  read_allowed = false;
  write_allowed = false;
}

-- `Memory::get_direct_mem_ptr` of the memory `self`
unfoldable pub memory_dmi : ℕ → Memory → Payload → Granted
unfolding snoop_request dmi_request
memory_dmi self m p = elim (valid_extension p.extension) [
  | none ↦ dmi_request self m p.command
  | some end_address ↦
      if is_read p.command
      then snoop_request self m p.address end_address
      else record { memory = m; granted = true; dmi = new_dmi; invalidates = none; failed = true }
]

-- `Interconnect::decode_address`: the target, and the masked address
abbrev pub target_of : ℕ → ℕ
target_of address = address / 2 ^ 8 % 2

abbrev pub masked_address : ℕ → ℕ
masked_address address = address % 2 ^ 8

-- `address | (target << 8)` for the target 0 or 1
unfoldable pub reconstruct_address : ℕ → ℕ → ℕ
reconstruct_address address target =
    if target == 0 || address / 2 ^ 8 % 2 == 1 then address else address + 2 ^ 8
