-- ===== src/Locking/Ownership.antt =====
-- locknsnoop/locking_*/lock_interconnect.h: an address that is locked stays so until it is
-- unlocked by who may.
use psa.Prelude.{ℕ, ◌≡◌, ◌≢◌, ◌⊎◌, refl, true, false, Option, none, some, List, [], ◌∷◌, arith}
use psa.Locking.{LockRequest, Locks, test_lock}

-- Transactions, each with its address and what its extension asks for
abbrev pub test_locks : Locks → List (ℕ × Option LockRequest) → Locks
test_locks l [] = l
test_locks l ((a, r) ∷ txs) = test_locks (test_lock l a r).0 txs

-- No transaction is an unlock of the address by the number.
abbrev pub KeepsLock : ℕ → ℕ → List (ℕ × Option LockRequest) → Type 0
KeepsLock adr id [] = Unit
KeepsLock adr id ((a, none) ∷ txs) = KeepsLock adr id txs
KeepsLock adr id ((a, some r) ∷ txs) =
    ((a ≢ adr) ⊎ (r.lock ≡ true) ⊎ (r.id ≢ id)) × KeepsLock adr id txs

keeps_step :
    (l : Locks) (adr id a : ℕ) (r : LockRequest)
    → id ≢ 0
    → l.lock_map adr ≡ true
    → l.lock_id adr ≡ id
    → (a ≢ adr) ⊎ (r.lock ≡ true) ⊎ (r.id ≢ id)
    → ((test_lock l a (some r)).0.lock_map adr ≡ true)
      × ((test_lock l a (some r)).0.lock_id adr ≡ id)
unfolding test_lock
keeps_step l adr id a r nz locked mine keeps = ground arith

keeps :
    (l : Locks) (adr id : ℕ) (txs : List (ℕ × Option LockRequest))
    → id ≢ 0
    → l.lock_map adr ≡ true
    → l.lock_id adr ≡ id
    → KeepsLock adr id txs
    → ((test_locks l txs).lock_map adr ≡ true) × ((test_locks l txs).lock_id adr ≡ id)
unfolding test_lock
keeps l adr id [] nz locked mine h = (locked, mine)
keeps l adr id ((a, none) ∷ txs) nz locked mine h = keeps l adr id txs nz locked mine h
keeps l adr id ((a, some r) ∷ txs) nz locked mine h =
    let (locked', mine') = keeps_step l adr id a r nz locked mine h.0 in
    keeps (test_lock l a (some r)).0 adr id txs nz locked' mine' h.1

bounced_step :
    (l : Locks) (adr id : ℕ) (r : Option LockRequest)
    → id ≢ 0
    → l.lock_map adr ≡ true
    → l.lock_id adr ≡ id
    → KeepsLock adr id ((adr, r) ∷ [])
    → test_lock l adr r ≡ (l, true)
unfolding test_lock
bounced_step l adr id none nz locked mine h = rw locked refl
bounced_step l adr id (some r) nz locked mine h = ground arith

freed_step :
    (l : Locks) (adr id : ℕ)
    → l.lock_map adr ≡ true
    → l.lock_id adr ≡ id
    → let freed = test_lock l adr (some (record { lock = false; id = id })) in
      (freed.1 ≡ false) × (freed.0.lock_map adr ≡ false)
unfolding test_lock
freed_step l adr id locked mine = ground arith

-- If a lock of an address by a number other than 0 is not bounced, then after any transactions of
-- which none is an unlock of that address by that number, any further transaction for the address
-- that is no such unlock is bounced and changes no lock; and such an unlock is not bounced and leaves
-- the address unlocked.
pub locked_until :
    (l : Locks) (adr id : ℕ) (txs : List (ℕ × Option LockRequest)) (r : Option LockRequest)
    → id ≢ 0
    → (test_lock l adr (some (record { lock = true; id = id }))).1 ≡ false
    → KeepsLock adr id txs
    → KeepsLock adr id ((adr, r) ∷ [])
    → let l' = test_locks (test_lock l adr (some (record { lock = true; id = id }))).0 txs in
      let freed = test_lock l' adr (some (record { lock = false; id = id })) in
      (test_lock l' adr r ≡ (l', true)) × (freed.1 ≡ false) × (freed.0.lock_map adr ≡ false)
unfolding test_lock
locked_until l adr id txs r nz granted h other =
    let (locked, mine) =
      keeps (test_lock l adr (some (record { lock = true; id = id }))).0 adr id txs nz
        (ground arith) (ground arith) h in
    let l' : Locks = test_locks (test_lock l adr (some (record { lock = true; id = id }))).0 txs in
    let (freed, unlocked) = freed_step l' adr id locked mine in
    (bounced_step l' adr id r nz locked mine other, freed, unlocked)
