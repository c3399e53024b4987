-- ===== src/Bus/Tests.antt =====
-- src/assignment_1/Bus.h: the bus on examples, and the theorems at them.
use psa.Prelude.{◌≡◌, refl, true, none, some, arith}
use psa.Lines.{modified, nothing, read, Request}
use psa.Bus.{
  Bus, idle_bus, Floating, begin_read, begin_response, begin_transfer, see_any, see_request,
  update_wires, func_changes,
}
use psa.Bus.Protocol.{reading, writing, begin_request, begin_request-seen}

abbrev zeros : Floating
zeros = record { number = 0; func = nothing }

abbrev reads_bus : Bus
reads_bus = record idle_bus {
  bus_addr = some 0x40;
  bus_func = some read;
  proc_id = some 2;
  bus_mutex = true;
}

begin_request-seen_example :
    let req : Request = record { id = 2; addr = 0x40; func = read } in
    let seen = update_wires reads_bus in
    (see_any zeros 1 reads_bus ≡ see_any zeros 1 idle_bus)
    × (see_request zeros reads_bus ≡ see_request zeros idle_bus)
    × (see_any zeros 1 seen ≡ some req)
    × (see_any zeros 2 seen ≡ none)
    × (see_request zeros seen ≡ some req)
    × (func_changes reads_bus ≡ true)
    × (begin_request writing 1 0x80 reads_bus ≡ none)
    × (begin_response 1 0x80 reads_bus ≡ none)
    × (begin_transfer 1 3 0x80 modified reads_bus ≡ none)
unfolding begin_read
begin_request-seen_example =
    begin_request-seen zeros reading writing 2 0x40 1 1 0x80 3 modified idle_bus refl (omega arith)
