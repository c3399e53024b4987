-- ===== src/Locking/Tests.antt =====
-- locknsnoop/locking_*: the theorems about the interconnects and the threads, at concrete
-- transactions.
use psa.Prelude.{
  ℕ, ◌+◌, ◌≡◌, refl, inl, inr, Bool, true, false, not, Option, none, some, List, [], ◌∷◌, arith,
}
use psa.Locking.{
  read, write, LockRequest, ok, command_error, load_link, store_conditional, no_locks, test_lock,
  test_link,
}
use psa.Locking.Initiator.{
  first_thread, send_lock, send_link, end_lock, end_link, is_command_error, random_address,
}
use psa.Locking.Sticky.{attach_lock, attach_link}
use psa.Locking.Ownership.{test_locks, locked_until}
use psa.Locking.Linked.{Transactions, test_links, store_conditional_goes, store_conditional_bounced}
use psa.Locking.Cycles.{link_cycle, unlock_elsewhere}

abbrev lock_by : ℕ → LockRequest
lock_by id = record { lock = true; id = id }

abbrev unlock_by : ℕ → LockRequest
unlock_by id = record { lock = false; id = id }

-- Another initiator accesses the locked address, unlocks it in vain, and unlocks another.
abbrev others : List (ℕ × Option LockRequest)
others = (0x404, none) ∷ (0x404, some (unlock_by 9)) ∷ (0x500, some (unlock_by 7)) ∷ []

locked_until_example :
    let l' = test_locks (test_lock no_locks 0x404 (some (lock_by 7))).0 others in
    let freed = test_lock l' 0x404 (some (unlock_by 7)) in
    (test_lock l' 0x404 (some (lock_by 9)) ≡ (l', true))
    × (freed.1 ≡ false)
    × (freed.0.lock_map 0x404 ≡ false)
unfolding test_lock
locked_until_example =
    locked_until no_locks 0x404 7 others (some (lock_by 9)) (omega arith) refl
      (inr (inr (omega arith)), (inl (omega arith), tt)) (inr (inl refl), tt)

abbrev no_links : ℕ → Bool
no_links a = false

abbrev reads : Transactions
reads = (0x504, read, none) ∷ (0x508, write, none) ∷ []

store_conditional_goes_example :
    let loaded = (test_link no_links 0x504 read (some load_link)).0 in
    (test_link (test_links loaded reads) 0x504 write (some store_conditional)).1 ≡ true
store_conditional_goes_example =
    store_conditional_goes no_links 0x504 reads read write (inr refl, (inl (omega arith), tt))

store_conditional_bounced_example :
    let stored = (test_link no_links 0x504 write none).0 in
    (test_link (test_links stored reads) 0x504 write (some store_conditional)).1 ≡ false
store_conditional_bounced_example =
    store_conditional_bounced no_links 0x504 reads write write none refl (inr refl, (inr refl, tt))

link_cycle_example :
    let (t1, load) = send_link attach_link first_thread 77 0 in
    let (t2, store) = send_link attach_link (end_link t1 ok).0 3 4711 in
    let next = (end_link t2 command_error).0 in
    (load.command ≡ read)
    × (store.command ≡ write)
    × (store.address ≡ load.address)
    × (next.i ≡ first_thread.i + 2)
    × (next.addr ≡ store.address)
    × (next.store_data ≡ store.value)
    × (next.next_data ≡ false)
    × (next.next_fresh ≡ not (is_command_error command_error))
link_cycle_example = link_cycle attach_link first_thread 77 0 3 4711 ok command_error refl

unlock_elsewhere_example :
    let (t1, lock) = send_lock attach_lock first_thread 77 0 in
    let (t2, unlock) = send_lock attach_lock (end_lock t1 ok).0 3 4711 in
    (lock.extension ≡ attach_lock true)
    × (unlock.extension ≡ attach_lock false)
    × (lock.address ≡ random_address 0x400 77)
    × (unlock.address ≡ random_address 0x400 3)
unlock_elsewhere_example = unlock_elsewhere attach_lock first_thread 77 0 3 4711 ok refl refl
