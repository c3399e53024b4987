-- ===== src/SingleCache.antt =====
-- src/assignment_1/Cache.h: the process `execute` of a cache. Between two waits it runs undisturbed,
-- so it is a function of the world and of the place where it waits, which gives the world and the
-- place of its next wait. `sched_yield` and the messages to the console have no part in the state.
pub mod Completion
pub mod Serving
pub mod Pending
pub mod Tests
use psa.Prelude.{ℕ, ◌+◌, Bool, true, false, ◌||◌, Option, none, some, if◌then◌else◌, u32, update}
use psa.Lines.{
  Line, LineState, invalid, modified, shared, requested, max_counter, Function, write, check_line,
  Search, tag_of, to_tag, writeback_address, line_address, is_invalid, is_dirty,
}
use psa.Stats.{stats_writehit, stats_writemiss, stats_readhit, stats_readmiss}
use psa.Bus.{
  Bus, Floating, begin_read, begin_write, begin_invalidate, end_request, see_response, Response,
  waits, returns,
}
use psa.World.{World, RetCode, read_done, write_done, set_lines, set_line_state, line_state, count}

-- Where `execute` waits, with the variables that are live there: `f`, `addr`, `rindex` or `min_id`,
-- `wbaddr`, and `res` of `wait_for_response`. A word ending in -ing is a wait inside a method of the
-- bus, `half` one for the falling edge of the clock.
pub data Pc : Type 0 where
  idle : Pc
  looked : (f : Function) (addr : ℕ) (rindex : Option ℕ) (min_id : ℕ) → Pc
  hit_retry : (f : Function) (addr r : ℕ) → Pc
  hit_half : (f : Function) (addr r : ℕ) → Pc
  hit_invalidating : (addr r : ℕ) → Pc
  read_half : (f : Function) (addr r : ℕ) → Pc
  again : (f : Function) (addr : ℕ) → Pc
  back_retry : (f : Function) (addr v wbaddr : ℕ) → Pc
  back_writing : (f : Function) (addr v wbaddr : ℕ) → Pc
  back_waiting : (f : Function) (addr v wbaddr : ℕ) (res : LineState) → Pc
  fill_retry : (f : Function) (addr v : ℕ) → Pc
  fill_reading : (f : Function) (addr v : ℕ) → Pc
  fill_waiting : (f : Function) (addr v : ℕ) (res : LineState) → Pc
  own_retry : (f : Function) (addr v : ℕ) → Pc
  own_half : (f : Function) (addr v : ℕ) → Pc
  own_invalidating : (addr v : ℕ) → Pc
  refetch : (f : Function) (addr v : ℕ) → Pc
  finished : Pc

abbrev pub is_write : Function → Bool
is_write write = true
is_write _ = false

-- The state that `wait_for_response` starts from
abbrev pub first_response : LineState
first_response = LineState.exclusive

-- `Port_Done.write`
abbrev pub done : World → ℕ → RetCode → World
done w id code = record w { dones = update w.dones id (some code) }

-- A request to the bus, and where `execute` goes on if it is refused or gets the bus
abbrev request_bus : World → Option Bus → Pc → Pc → World × Pc
request_bus w none refused taken = (w, refused)
request_bus w (some b) refused taken = (record w { bus = b }, taken)

-- From the label `check_the_cachelinestat` to the wait for the clock
look : World → ℕ → Function → ℕ → World × Pc
look w id f addr =
    let s = check_line (w.lines id) addr in
    (set_lines w id s.lines, looked f addr s.rindex s.min_id)

-- The end of a write that hit, and of a read that hit
write_hit : World → ℕ → ℕ → World × Pc
write_hit w id r =
    (done (count stats_writehit (set_line_state w id r modified) id) id write_done, finished)

read_hit : World → ℕ → World × Pc
read_hit w id = (done (count stats_readhit w id) id read_done, finished)

-- The end of a write and of a read that missed
write_miss : World → ℕ → ℕ → World × Pc
write_miss w id v =
    (done (set_line_state (count stats_writemiss w id) id v modified) id write_done, finished)

read_miss : World → ℕ → World × Pc
read_miss w id = (done (count stats_readmiss w id) id read_done, finished)

-- The condition of the loop over `bus->cacheline_invalidate`, on a hit and on a miss
try_invalidate : World → ℕ → Function → ℕ → ℕ → World × Pc
try_invalidate w id f addr r =
    request_bus w (begin_invalidate addr id w.bus) (hit_retry f addr r) (hit_invalidating addr r)

try_own : World → ℕ → Function → ℕ → ℕ → World × Pc
try_own w id f addr v =
    request_bus w (begin_invalidate addr id w.bus) (own_retry f addr v) (own_invalidating addr v)

-- The conditions of the loops over `bus->write` and `bus->read`
try_write : World → ℕ → Function → ℕ → ℕ → ℕ → World × Pc
try_write w id f addr v wbaddr =
    request_bus w (begin_write id wbaddr w.bus) (back_retry f addr v wbaddr)
      (back_writing f addr v wbaddr)

try_read : World → ℕ → Function → ℕ → ℕ → World × Pc
try_read w id f addr v =
    request_bus w (begin_read id (line_address addr) w.bus) (fill_retry f addr v)
      (fill_reading f addr v)

abbrev access_memory : World → World
access_memory w = record w { main_memory_access_rate = u32 (w.main_memory_access_rate + 1) }

-- From the label `_post_writeback` to the loop over `bus->read`
pub post_writeback : World → ℕ → Function → ℕ → ℕ → World × Pc
unfolding try_read
post_writeback w id f addr v =
    try_read (set_line_state (access_memory w) id v requested) id f addr v

-- From the end of the line's read: the new tag and counter, and the rest of the request
filled : World → ℕ → Function → ℕ → ℕ → World × Pc
unfolding try_own write_miss read_miss
filled w id f addr v =
    let c = w.lines id v in
    let w' =
      set_lines w id
        (update (w.lines id) v (record c { tag = to_tag (tag_of addr); counter = max_counter })) in
    if is_write f
    then elim c.state [ shared ↦ try_own w' id f addr v | _ ↦ write_miss w' id v ]
    else read_miss w' id

-- The branch of a miss
missed : World → ℕ → Function → ℕ → ℕ → World × Pc
unfolding try_write post_writeback
missed w id f addr v =
    let c = w.lines id v in
    if is_dirty c.state
    then try_write (access_memory w) id f addr v (writeback_address c.tag addr)
    else post_writeback w id f addr v

-- The branch of a hit, which sets the counter first
hit : World → ℕ → Function → ℕ → ℕ → World × Pc
unfolding try_invalidate
hit w id f addr r =
    let w' =
      set_lines w id (update (w.lines id) r (record (w.lines id r) { counter = max_counter })) in
    if is_write f then try_invalidate w' id f addr r else (w', read_half f addr r)

looked_up : World → ℕ → Function → ℕ → Option ℕ → ℕ → World × Pc
unfolding missed hit
looked_up w id f addr none v = missed w id f addr v
looked_up w id f addr (some r) v = hit w id f addr r

-- `clock_gettime` before and after the loop over the bus, `elapsed` the microseconds between
abbrev acquired : World → ℕ → World
acquired w elapsed = record w {
  bus = end_request w.bus;
  time_for_bus_acquisition = u32 (w.time_for_bus_acquisition + elapsed);
}

-- A wait for a request of the processor that is over or not
start : World → ℕ → Option (Function × ℕ) → World × Pc
unfolding look
start w id none = (w, idle)
start w id (some (f, addr)) = look (record w { requests = update w.requests id none }) id f addr

after_write : World → ℕ → Function → ℕ → ℕ → ℕ → Response → World × Pc
unfolding post_writeback
after_write w id f addr v wbaddr (waits res) = (w, back_waiting f addr v wbaddr res)
after_write w id f addr v wbaddr (returns st) = post_writeback w id f addr v

after_read : World → ℕ → Function → ℕ → ℕ → Response → World × Pc
unfolding filled
after_read w id f addr v (waits res) = (w, fill_waiting f addr v res)
after_read w id f addr v (returns st) = filled (set_line_state w id v st) id f addr v

-- The `execute` of the cache `id`, from the wait at which it stands to the next
unfoldable pub execute : Floating → ℕ → World → ℕ → Pc → World × Pc
unfolding start look looked_up try_invalidate try_own try_write try_read write_hit read_hit
    write_miss post_writeback filled after_write after_read
execute z elapsed w id idle = start w id (w.requests id)
execute z elapsed w id (looked f addr rindex v) = looked_up w id f addr rindex v
execute z elapsed w id (hit_retry f addr r) = (w, hit_half f addr r)
execute z elapsed w id (hit_half f addr r) =
    if is_invalid (line_state w id r) then (w, again f addr) else try_invalidate w id f addr r
execute z elapsed w id (hit_invalidating addr r) =
    write_hit (record w { bus = end_request w.bus }) id r
execute z elapsed w id (read_half f addr r) =
    if is_invalid (line_state w id r) then (w, again f addr) else read_hit w id
execute z elapsed w id (again f addr) = look w id f addr
execute z elapsed w id (back_retry f addr v wbaddr) =
    if is_dirty (line_state w id v)
    then try_write w id f addr v wbaddr
    else post_writeback w id f addr v
execute z elapsed w id (back_writing f addr v wbaddr) =
    (acquired w elapsed, back_waiting f addr v wbaddr first_response)
execute z elapsed w id (back_waiting f addr v wbaddr res) =
    after_write w id f addr v wbaddr (see_response z id wbaddr res w.bus)
execute z elapsed w id (fill_retry f addr v) = try_read w id f addr v
execute z elapsed w id (fill_reading f addr v) = elim (line_state w id v) [
  | requested ↦ (acquired w elapsed, fill_waiting f addr v first_response)
  | _ ↦ filled (acquired w elapsed) id f addr v
]
execute z elapsed w id (fill_waiting f addr v res) =
    after_read w id f addr v (see_response z id (line_address addr) res w.bus)
execute z elapsed w id (own_retry f addr v) = (w, own_half f addr v)
execute z elapsed w id (own_half f addr v) =
    if is_invalid (line_state w id v) then (w, refetch f addr v) else try_own w id f addr v
execute z elapsed w id (own_invalidating addr v) =
    write_miss (record w { bus = end_request w.bus }) id v
execute z elapsed w id (refetch f addr v) = post_writeback w id f addr v
execute z elapsed w id finished = (w, idle)
