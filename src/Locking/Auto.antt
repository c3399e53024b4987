-- ===== src/Locking/Auto.antt =====
-- locknsnoop/locking_auto/: an extension goes when its transaction is freed, so it is valid if it is
-- there, and has no member that says so.
use psa.Prelude.{ℕ, Bool, false, Option, some}
use psa.Locking.{Payload, LockRequest, LinkCommand, load_link, Locks, test_lock, test_link}
use psa.Locking.Initiator.{Thread, send_lock, send_link}

-- `lock_extension` and `load_link_extension` have the members of the requests: their constructors,
-- `copy_from`, and `clone`, which copies into a new one.
abbrev pub new_lock_extension : LockRequest
new_lock_extension = record { lock = false; id = 0 }

abbrev pub new_link_extension : LinkCommand
new_link_extension = load_link

abbrev pub lock_extension_copy_from : LockRequest → LockRequest → LockRequest
lock_extension_copy_from this ext = record this { lock = ext.lock; id = ext.id }

abbrev pub link_extension_copy_from : LinkCommand → LinkCommand → LinkCommand
link_extension_copy_from this ext = ext

abbrev pub clone_lock_extension : LockRequest → LockRequest
clone_lock_extension this = record new_lock_extension { lock = this.lock; id = this.id }

abbrev pub clone_link_extension : LinkCommand → LinkCommand
clone_link_extension this = link_extension_copy_from new_link_extension this

unfoldable pub locked : Locks → Payload (Option LockRequest) → Locks × Bool
unfolding test_lock
locked l p = test_lock l p.address p.extension

unfoldable pub load_link_store_conditional :
    (ℕ → Bool) → Payload (Option LinkCommand) → (ℕ → Bool) × Bool
unfolding test_link
load_link_store_conditional links p = test_link links p.address p.command p.extension

-- The rounds of the threads up to the call, each with a new extension
abbrev pub attach_lock : Bool → Option LockRequest
attach_lock l = some (record { lock = l; id = 0 })

unfoldable pub thread_process_1 : Thread → ℕ → ℕ → Thread × Payload (Option LockRequest)
unfolding send_lock
thread_process_1 t r d = send_lock attach_lock t r d

unfoldable pub thread_process_2 : Thread → ℕ → ℕ → Thread × Payload (Option LinkCommand)
unfolding send_link
thread_process_2 t r d = send_link (λ c. some c) t r d
