-- ===== src/Locking/Two.antt =====
-- locknsnoop/locking_two/: two extensions, a guard that goes when its transaction is freed and says
-- that the request is valid, and the data, which stay with the transaction.
use psa.Prelude.{ℕ, Bool, true, false, Option, none, some, if◌then◌else◌}
use psa.Locking.{Payload, LockRequest, LinkCommand, load_link, Locks, test_lock, test_link}
use psa.Locking.Initiator.{Thread, send_lock, send_link}

-- Whether the guard is there, and the data; these are read only behind a guard, and whoever sets the
-- guard has set them.
pub record Extensions (D : Type 0) : Type 0 where
  pub guard : Bool
  pub content : D

abbrev pub guarded : {D : Type 0} → Extensions D → Option D
guarded e = if e.guard then some e.content else none

unfoldable pub locked : Locks → Payload (Extensions LockRequest) → Locks × Bool
unfolding test_lock
locked l p = test_lock l p.address (guarded p.extension)

unfoldable pub load_link_store_conditional :
    (ℕ → Bool) → Payload (Extensions LinkCommand) → (ℕ → Bool) × Bool
unfolding test_link
load_link_store_conditional links p = test_link links p.address p.command (guarded p.extension)

-- The rounds of the threads up to the call
abbrev pub attach_lock : Bool → Extensions LockRequest
attach_lock l = record { guard = true; content = record { lock = l; id = 0 } }

abbrev pub attach_link : LinkCommand → Extensions LinkCommand
attach_link c = record { guard = true; content = c }

unfoldable pub thread_process_1 : Thread → ℕ → ℕ → Thread × Payload (Extensions LockRequest)
unfolding send_lock
thread_process_1 t r d = send_lock attach_lock t r d

unfoldable pub thread_process_2 : Thread → ℕ → ℕ → Thread × Payload (Extensions LinkCommand)
unfolding send_link
thread_process_2 t r d = send_link attach_link t r d

-- The constructors of the data extensions, `clone`, and `copy_from` of each into another
abbrev pub new_link_data : LinkCommand
new_link_data = load_link

abbrev pub new_lock_data : LockRequest
new_lock_data = record { lock = false; id = 0 }

abbrev pub link_data_copy_from : LinkCommand → LinkCommand → LinkCommand
link_data_copy_from this ext = ext

abbrev pub lock_data_copy_from : LockRequest → LockRequest → LockRequest
lock_data_copy_from this ext = record this { lock = ext.lock; id = ext.id }

abbrev pub clone_link_data : LinkCommand → LinkCommand
clone_link_data this = link_data_copy_from new_link_data this

abbrev pub clone_lock_data : LockRequest → LockRequest
clone_lock_data this = record new_lock_data { lock = this.lock; id = this.id }
