-- ===== src/Bus/Protocol.antt =====
-- src/assignment_1/Bus.h: who sees what of the bus while one process drives it, and that the lock
-- keeps others off.
use psa.Prelude.{ℕ, ◌≡◌, ◌≢◌, ◌&&◌, not, Option, none, some, if◌then◌else◌, ◌==◌, arith}
use psa.Lines.{LineState, requested, shared, Function, read, write, invalidate, Request}
use psa.Bus.{
  Bus, Floating, begin_read, begin_write, begin_invalidate, waits, returns, see_response, see_any,
  see_request, begin_response, begin_transfer, dram_identifier, update_wires, func_changes,
  same_func,
}

-- The three requests that a cache makes.
pub data Kind : Type 0 where
  reading writing invalidating : Kind

abbrev pub func_of : Kind → Function
func_of reading = read
func_of writing = write
func_of invalidating = invalidate

abbrev pub begin_request : Kind → ℕ → ℕ → Bus → Option Bus
begin_request reading proc addr = begin_read proc addr
begin_request writing proc addr = begin_write proc addr
begin_request invalidating proc addr = begin_invalidate addr proc

-- A request that gets the bus reaches the others with the next update phase. From then on it is read
-- as it was sent by every other cache that goes on, not by its own, and by the memory. A cache that
-- waits for requests goes on only if the update changes the function on the wires: a request that
-- follows another of the same kind with no update in between wakes none. From the moment it has the
-- bus, every request, response and transfer finds the bus taken.
pub begin_request-seen :
    (z : Floating) (k k' : Kind) (proc addr other proc' addr' source : ℕ) (st : LineState) (b : Bus)
    {b' : Bus}
    → begin_request k proc addr b ≡ some b'
    → other ≢ proc
    → let req : Request = record { id = proc; addr = addr; func = func_of k } in
      let seen = update_wires b' in
      (see_any z other b' ≡ see_any z other b)
      × (see_request z b' ≡ see_request z b)
      × (see_any z other seen ≡ some req)
      × (see_any z proc seen ≡ none)
      × (see_request z seen ≡ some req)
      × (func_changes b' ≡ not (same_func b.wires.func (some (func_of k))))
      × (begin_request k' proc' addr' b' ≡ none)
      × (begin_response proc' addr' b' ≡ none)
      × (begin_transfer proc' source addr' st b' ≡ none)
unfolding begin_read begin_write begin_invalidate see_any see_request begin_response begin_transfer
begin_request-seen z reading reading proc addr other proc' addr' source st b h ne = ground arith
begin_request-seen z _ _ proc addr other proc' addr' source st b h ne = ground arith

-- A response of the memory that gets the bus ends, once the wires are updated, the wait of the processor and the address that it
-- is for, with the state that this wait has so far, and no other wait; no cache takes it for a
-- request, nor does the memory.
pub begin_response-seen :
    (z : Floating) (proc addr proc' addr' : ℕ) (res : LineState) (b : Bus) {b' : Bus}
    → begin_response proc addr b ≡ some b'
    → (see_response z proc' addr' res (update_wires b')
        ≡ (if addr == addr' && proc == proc' then returns res else waits res))
      × (see_any z proc' (update_wires b') ≡ none)
      × (see_request z (update_wires b') ≡ none)
unfolding begin_response see_response see_any see_request
begin_response-seen z proc addr proc' addr' res b h = ground arith

-- A transfer from another cache that gets the bus ends, once the wires are updated, the wait of the processor and the address
-- that it is for with the state shared, and no other wait; but where the line was still requested,
-- the wait goes on, to end in the state shared.
pub begin_transfer-seen :
    (z : Floating) (proc source addr proc' addr' : ℕ) (res st : LineState) (b : Bus) {b' : Bus}
    {st' : LineState}
    → begin_transfer proc source addr st b ≡ some (b', st')
    → source ≢ dram_identifier
    → see_response z proc' addr' res (update_wires b') ≡ (
        if addr == addr' && proc == proc'
        then elim st [ requested ↦ waits shared | _ ↦ returns shared ]
        else waits res)
unfolding begin_transfer see_response
begin_transfer-seen z proc source addr proc' addr' res requested b h ne = ground arith
begin_transfer-seen z proc source addr proc' addr' res _ b h ne = ground arith
