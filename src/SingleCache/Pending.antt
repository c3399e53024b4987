-- ===== src/SingleCache/Pending.antt =====
-- src/assignment_1/Cache.h: a line that is being fetched still has its old tag, so it is not found
-- under the new address.
use psa.Prelude.{ℕ, ◌+◌, ◌≤◌, ◌<◌, ◌≡◌, ◌≢◌, refl, false, none, arith}
use psa.Lines.{
  Line, Function, Request, present, addr_to_index, cache_set_size, tag_of, from_tag, line_address,
  snooping,
}
use psa.Lines.Snooped.{snooping_absent}
use psa.Bus.{begin_read}
use psa.World.{World}
use psa.SingleCache.{post_writeback}

tag-line_address : (a : ℕ) → tag_of (line_address a) ≡ tag_of a
unfolding tag_of
tag-line_address a = ground arith

index-line_address : (a : ℕ) → addr_to_index (line_address a) ≡ addr_to_index a
unfolding addr_to_index
index-line_address a = omega arith

present-line_address : (c : Line) (a : ℕ) → present c (line_address a) ≡ present c a
unfolding present
present-line_address c a = rw (tag-line_address a) refl

-- A cache that misses an address, no line of its set being present for it, and begins to fetch it
-- into a line with another tag, does nothing and starts no transfer when it sees a request of
-- another for that very line: neither learns of the other.
pub post_writeback-unseen :
    (w : World) (id : ℕ) (f : Function) (addr v : ℕ) (req : Request)
    → ((j : ℕ)
        → addr_to_index addr ≤ j
        → j < addr_to_index addr + cache_set_size
        → present (w.lines id j) addr ≡ false)
    → from_tag (w.lines id v).tag ≢ tag_of addr
    → req.addr ≡ line_address addr
    → let w' = (post_writeback w id f addr v).0 in
      snooping id (w'.lines id) req ≡ (w'.lines id, none)
unfolding post_writeback present begin_read
post_writeback-unseen w id f addr v req absent other e =
    snooping_absent id ((post_writeback w id f addr v).0.lines id) req (λ j lo hi.
      rw (e, present-line_address)
        (still j (rw (e, index-line_address addr) at lo) (rw (e, index-line_address addr) at hi)))
  where
    still :
        (j : ℕ)
        → addr_to_index addr ≤ j
        → j < addr_to_index addr + cache_set_size
        → present ((post_writeback w id f addr v).0.lines id j) addr ≡ false
    still j lo hi = ground (arith, absent j lo hi)
