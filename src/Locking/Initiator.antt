-- ===== src/Locking/Initiator.antt =====
-- locknsnoop/locking_sticky/lock_lt_initiator.h, and the files of that name in locking_auto and
-- locking_two: a round of the two threads of `Lock_LT_initiator`, but for the extension. A round is a
-- function up to the call of `b_transport`, which gives the payload, and one from there on.
use psa.Prelude.{ℕ, ◌+◌, ◌-◌, ◌%◌, Bool, true, false, ◌&&◌, not, if◌then◌else◌, ◌==◌}
use psa.Locking.{
  Command, read, write, Status, incomplete, ok, command_error, Payload, LinkCommand, load_link,
  store_conditional,
}

-- The variables of a thread. `next_fresh` is `next_read` or `next_load`, `next_data` is `next_write`
-- or `next_store`.
pub record Thread : Type 0 where
  pub i : ℕ
  pub next_fresh : Bool
  pub next_data : Bool
  pub addr : ℕ
  pub store_data : ℕ

abbrev pub first_thread : Thread
first_thread = record { i = 0; next_fresh = true; next_data = false; addr = 0; store_data = 0 }

-- `base | (r % 256 & 0xFC)` for the bases 0x400 and 0x500
abbrev pub random_address : ℕ → ℕ → ℕ
random_address base r = base + (r % 256 - r % 4)

-- The start of a fresh cycle: `r` is the value of `rand()`.
abbrev pub fresh_cycle : ℕ → Thread → ℕ → Thread
fresh_cycle base t r =
    if t.next_fresh
    then record t { addr = random_address base r; next_fresh = false; next_data = true }
    else t

-- The data to be stored: `d` is the value of `(rand() << 16) | rand()`.
abbrev pub fresh_data : Thread → ℕ → Thread
fresh_data t d = if t.next_data then record t { store_data = d; next_data = false } else t

abbrev pub is_first : Thread → Bool
is_first t = t.i % 2 == 0

abbrev pub payload_of : {E : Type 0} → Command → ℕ → ℕ → E → Payload E
payload_of cmd adr x ext = record {
  command = cmd;
  address = adr;
  value = x;
  data_length = 4;
  byte_enables = false;
  streaming_width = 4;
  dmi_allowed = false;
  status = incomplete;
  extension = ext;
}

-- A round of `thread_process_1` up to the call; `attach` makes the extension from `ext->lock`.
unfoldable pub send_lock : {E : Type 0} → (Bool → E) → Thread → ℕ → ℕ → Thread × Payload E
send_lock attach t r d =
    let t' = fresh_cycle 0x400 t r in
    if is_first t
    then (t', payload_of read t'.addr 0 (attach true))
    else (fresh_data t' d, payload_of write t'.addr (fresh_data t' d).store_data (attach false))

-- A round of `thread_process_2` up to the call; `attach` makes the extension from `ext->cmd`.
unfoldable pub send_link : {E : Type 0} → (LinkCommand → E) → Thread → ℕ → ℕ → Thread × Payload E
send_link attach t r d =
    let t' = fresh_cycle 0x500 t r in
    if is_first t then (t', payload_of read t'.addr 0 (attach load_link)) else (
      fresh_data t' d,
      payload_of write t'.addr (fresh_data t' d).store_data (attach store_conditional),
    )

abbrev pub is_command_error : Status → Bool
is_command_error command_error = true
is_command_error _ = false

-- `is_response_error`
abbrev pub is_error : Status → Bool
is_error incomplete = false
is_error ok = false
is_error _ = true

-- The end of a round: `asks` is that this command tells whether the cycle is over, which it is if
-- the command did not fail. The second is whether an error is reported.
unfoldable pub end_round : Thread → Bool → Status → Thread × Bool
end_round t asks st =
    let retry = asks && is_command_error st in
    (
      record t { i = t.i + 1; next_fresh = if asks && not retry then true else t.next_fresh },
      is_error st && not retry,
    )

-- The end of a round of each thread
unfoldable pub end_lock : Thread → Status → Thread × Bool
unfolding end_round
end_lock t st = end_round t (is_first t) st

unfoldable pub end_link : Thread → Status → Thread × Bool
unfolding end_round
end_link t st = end_round t (not (is_first t)) st
