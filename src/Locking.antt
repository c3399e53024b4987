-- ===== src/Locking.antt =====
-- locknsnoop/: the interconnects that lock an address (`Lock_interconnect`) and that link it
-- (`Load_link_interconnect`), and the target behind them (`Lock_LT_target`). The code stands three
-- times, in locking_sticky, locking_auto and locking_two, which differ in the extension that carries
-- a request: what they share is here, what differs in the children of those names.
pub mod Initiator
pub mod Sticky
pub mod Auto
pub mod Two
pub mod NonBlocking
pub mod Ownership
pub mod Linked
pub mod Cycles
pub mod Tests
use psa.Prelude.{
  ℕ, ◌+◌, ◌-◌, ◌%◌, ◌^◌, Bool, true, false, ◌||◌, not, Option, none, some, List, [], ◌∷◌,
  if◌then◌else◌, ltb, leb, ◌==◌, update,
}

-- `tlm_command` and `tlm_response_status`
pub data Command : Type 0 where
  read write ignore : Command

pub data Status : Type 0 where
  incomplete ok command_error byte_enable_error burst_error : Status

-- The members of the generic payload that the modules use, with extensions of the type `E`; `value`
-- is the `int` that `data_ptr` points to, `byte_enables` whether `byte_enable_ptr` is not null.
pub record Payload (E : Type 0) : Type 0 where
  pub command : Command
  pub address : ℕ
  pub value : ℕ
  pub data_length : ℕ
  pub byte_enables : Bool
  pub streaming_width : ℕ
  pub dmi_allowed : Bool
  pub status : Status
  pub extension : E

-- What a valid lock extension asks for. The number 0 is no initiator's.
pub record LockRequest : Type 0 where
  pub lock : Bool
  pub id : ℕ

-- `load_link_extension::cmd_t`
pub data LinkCommand : Type 0 where
  load_link store_conditional : LinkCommand

-- The maps of `Lock_interconnect`: an address that is not in them reads as false and as 0.
pub record Locks : Type 0 where
  pub lock_map : ℕ → Bool
  pub lock_id : ℕ → ℕ

abbrev pub no_locks : Locks
no_locks = record { lock_map = λ a. false; lock_id = λ a. 0 }

-- `Lock_interconnect::locked` once the extension is read: the locks, and whether the transaction is
-- bounced.
unfoldable pub test_lock : Locks → ℕ → Option LockRequest → Locks × Bool
test_lock l adr none = (l, l.lock_map adr)
test_lock l adr (some r) =
    if r.lock
    then if l.lock_map adr then (l, true) else (
      record { lock_map = update l.lock_map adr true; lock_id = update l.lock_id adr r.id },
      false,
    )
    else if l.lock_map adr
    then if l.lock_id adr == 0 || l.lock_id adr == r.id
      then (record l { lock_map = update l.lock_map adr false }, false)
      else (l, true)
    else (l, false)

abbrev pub is_write : Command → Bool
is_write write = true
is_write _ = false

-- `Load_link_interconnect::load_link_store_conditional` once the extension is read: the links, and
-- whether the transaction goes on.
unfoldable pub test_link : (ℕ → Bool) → ℕ → Command → Option LinkCommand → (ℕ → Bool) × Bool
test_link links adr cmd (some load_link) = (update links adr true, true)
test_link links adr cmd (some store_conditional) =
    if links adr then (update links adr false, true) else (links, false)
test_link links adr cmd none =
    if is_write cmd
    then if links adr then (update links adr false, true) else (links, true)
    else (links, true)

abbrev pub bounced : {E : Type 0} → Payload E → Payload E
bounced p = record p { status = command_error }

-- `-int(adr)` of the low 32 bits
abbrev pub negative : ℕ → ℕ
negative adr = (2 ^ 32 - adr % 2 ^ 32) % 2 ^ 32

-- `Lock_LT_target::b_transport`, with the delay; the latency is 10 ns.
unfoldable pub target_transport : {E : Type 0} → Payload E → ℕ → Payload E × ℕ
target_transport p delay =
    if p.byte_enables
    then (record p { status = byte_enable_error }, delay)
    else if ltb 4 p.data_length || ltb p.streaming_width p.data_length
    then (record p { status = burst_error }, delay)
    else (
      elim p.command [
        | read ↦ record p { value = negative p.address; status = ok }
        | _ ↦ record p { status = ok }
      ],
      delay + 10,
    )

-- The `b_transport` of either interconnect: its own state after the test, the payload and the delay.
-- `forward` is the socket's `b_transport`, with the state of what lies behind it.
unfoldable pub interconnect_transport :
    {S E W : Type 0}
    → (Payload E → ℕ → W → W × Payload E × ℕ)
    → S × Bool
    → Payload E
    → ℕ
    → W
    → S × W × Payload E × ℕ
interconnect_transport forward (s, true) p delay w = (s, w, bounced p, delay)
interconnect_transport forward (s, false) p delay w =
    let (w', p', delay') = forward p delay w in (s, w', p', delay')
