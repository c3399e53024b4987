-- ===== src/Locking/Cycles.antt =====
-- locknsnoop/locking_*/lock_lt_initiator.h: the rounds of an initiator's threads by twos: a lock
-- and its unlock, a load and its store.
use psa.Prelude.{ℕ, ◌+◌, ◌%◌, ◌≡◌, Bool, true, false, not, if◌then◌else◌, arith}
use psa.Locking.{read, write, Status, LinkCommand}
use psa.Locking.Initiator.{
  Thread, send_lock, send_link, end_lock, end_link, is_command_error, random_address,
}

-- A round of the second thread that is a load, and the next, for any values of `rand()` and any
-- responses: the load reads and the store writes, at one address. If the store is bounced, the next
-- round is again for that address, and its store for the same data; if not, a fresh cycle begins.
pub link_cycle :
    {E : Type 0} (attach : LinkCommand → E) (t : Thread) (r d r' d' : ℕ) (st st' : Status)
    → t.i % 2 ≡ 0
    → let (t1, load) = send_link attach t r d in
      let (t2, store) = send_link attach (end_link t1 st).0 r' d' in
      let next = (end_link t2 st').0 in
      (load.command ≡ read)
      × (store.command ≡ write)
      × (store.address ≡ load.address)
      × (next.i ≡ t.i + 2)
      × (next.addr ≡ store.address)
      × (next.store_data ≡ store.value)
      × (next.next_data ≡ false)
      × (next.next_fresh ≡ not (is_command_error st'))
unfolding send_link end_link
link_cycle attach t r d r' d' st st' even = ground arith

-- A round of the first thread that is a lock and is not bounced, and the next, for any values of
-- `rand()`: the lock goes to the address drawn for it if a fresh cycle is due and to the last one if
-- not, while the unlock goes to an address that is drawn anew, whichever was locked.
pub unlock_elsewhere :
    {E : Type 0} (attach : Bool → E) (t : Thread) (r d r' d' : ℕ) (st : Status)
    → t.i % 2 ≡ 0
    → is_command_error st ≡ false
    → let (t1, lock) = send_lock attach t r d in
      let (t2, unlock) = send_lock attach (end_lock t1 st).0 r' d' in
      (lock.extension ≡ attach true)
      × (unlock.extension ≡ attach false)
      × (lock.address ≡ (if t.next_fresh then random_address 0x400 r else t.addr))
      × (unlock.address ≡ random_address 0x400 r')
unfolding send_lock end_lock
unlock_elsewhere attach t r d r' d' st even ok = ground arith
