-- ===== src/Locking/Sticky.antt =====
-- locknsnoop/locking_sticky/: an extension stays with its transaction, and a member says whether it
-- is valid.
use psa.Prelude.{ℕ, Bool, true, false, Option, none, some, if◌then◌else◌}
use psa.Locking.{Payload, LockRequest, LinkCommand, load_link, Locks, test_lock, test_link}
use psa.Locking.Initiator.{Thread, send_lock, send_link}

pub record LockExtension : Type 0 where
  pub lock : Bool
  pub id : ℕ
  pub valid : Bool

pub record LoadLinkExtension : Type 0 where
  pub cmd : LinkCommand
  pub valid : Bool

-- `clone`, whose copy starts as not valid, and `copy_from`, which leaves the validity
abbrev pub lock_clone : LockExtension → LockExtension
lock_clone e = record { lock = e.lock; id = e.id; valid = false }

abbrev pub lock_copy_from : LockExtension → LockExtension → LockExtension
lock_copy_from self e = record self { lock = e.lock; id = e.id }

abbrev pub load_link_clone : LoadLinkExtension → LoadLinkExtension
load_link_clone e = record { cmd = e.cmd; valid = false }

abbrev pub load_link_copy_from : LoadLinkExtension → LoadLinkExtension → LoadLinkExtension
load_link_copy_from self e = record self { cmd = e.cmd }

abbrev pub lock_request : Option LockExtension → Option LockRequest
lock_request none = none
lock_request (some e) = if e.valid then some (record { lock = e.lock; id = e.id }) else none

abbrev pub link_request : Option LoadLinkExtension → Option LinkCommand
link_request none = none
link_request (some e) = if e.valid then some e.cmd else none

-- `locked` and `load_link_store_conditional`
unfoldable pub locked : Locks → Payload (Option LockExtension) → Locks × Bool
unfolding test_lock
locked l p = test_lock l p.address (lock_request p.extension)

unfoldable pub load_link_store_conditional :
    (ℕ → Bool) → Payload (Option LoadLinkExtension) → (ℕ → Bool) × Bool
unfolding test_link
load_link_store_conditional links p = test_link links p.address p.command (link_request p.extension)

-- `lock_mm::allocate` and `load_link_mm::allocate`, with the extension of the transaction that
-- `gp_mm` gives, and `free`
abbrev pub lock_allocate : Option LockExtension → Option LockExtension
lock_allocate none = some (record { lock = false; id = 0; valid = false })
lock_allocate (some e) = some e

abbrev pub lock_free : LockExtension → Option LockExtension
lock_free e = some (record e { valid = false })

abbrev pub load_link_allocate : Option LoadLinkExtension → Option LoadLinkExtension
load_link_allocate none = some (record { cmd = load_link; valid = false })
load_link_allocate (some e) = some e

abbrev pub load_link_free : LoadLinkExtension → Option LoadLinkExtension
load_link_free e = some (record e { valid = false })

-- The rounds of the threads up to the call. The initiator sets no number.
abbrev pub attach_lock : Bool → Option LockExtension
attach_lock l = some (record { lock = l; id = 0; valid = true })

abbrev pub attach_link : LinkCommand → Option LoadLinkExtension
attach_link c = some (record { cmd = c; valid = true })

unfoldable pub thread_process_1 : Thread → ℕ → ℕ → Thread × Payload (Option LockExtension)
unfolding send_lock
thread_process_1 t r d = send_lock attach_lock t r d

unfoldable pub thread_process_2 : Thread → ℕ → ℕ → Thread × Payload (Option LoadLinkExtension)
unfolding send_link
thread_process_2 t r d = send_link attach_link t r d
