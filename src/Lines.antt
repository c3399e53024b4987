-- ===== src/Lines.antt =====
-- src/assignment_1/utils.h and Cache.h: the cache lines, how an address finds its set and its tag,
-- the search for a line, and the answer to a request that is seen on the bus.
pub mod Address
pub mod Searching
pub mod Victims
pub mod Snooped
pub mod Tests
use psa.Prelude.{
  ℕ, zero, suc, ◌+◌, ◌-◌, ◌*◌, ◌/◌, ◌%◌, ◌^◌, Bool, true, false, ◌&&◌, ◌||◌, not, Option, none,
  some, if◌then◌else◌, ltb, leb, ◌==◌, u32, update,
}

-- Lines of the cache, lines of a set, and the counter of a line that was just used.
abbrev pub cache_size : ℕ
cache_size = 8192

abbrev pub cache_set_size : ℕ
cache_set_size = 8

abbrev pub max_counter : ℕ
max_counter = 2049

-- The `CACHEL_` states
pub data LineState : Type 0 where
  invalid modified owned exclusive shared requested : LineState

-- `cache_record_t`. The counter is an `int` that never goes below 0; `tag` is the pattern of a
-- signed field of 24 bits. The program reads and writes no `data`, so the model has none.
pub record Line : Type 0 where
  pub counter : ℕ
  pub state : LineState
  pub tag : ℕ

-- The lines after the `memset` of the constructor
abbrev pub empty_lines : ℕ → Line
empty_lines i = record { counter = 0; state = invalid; tag = 0 }

-- An address is the pattern of an `int`. `addr & CACHEINDEX_MASK`: bits 5 to 11 of it
abbrev pub index_bits : ℕ → ℕ
index_bits addr = addr % 2 ^ 12 - addr % 2 ^ 5

unfoldable pub addr_to_index : ℕ → ℕ
addr_to_index addr = index_bits addr / 2 ^ 5 * cache_set_size % cache_size

-- `x >> 12` of an `int`, which keeps the sign
abbrev pub shift_right_12 : ℕ → ℕ
shift_right_12 x = if ltb x (2 ^ 31) then x / 2 ^ 12 else x / 2 ^ 12 + (2 ^ 32 - 2 ^ 20)

-- `(addr & CACHETAG_MASK) >> CACHETAG_SHIFT`
unfoldable pub tag_of : ℕ → ℕ
tag_of addr = shift_right_12 (addr - addr % 2 ^ 12)

-- An `int` stored in the field `tag`, and the field read as an `int`
abbrev pub to_tag : ℕ → ℕ
to_tag x = x % 2 ^ 24

abbrev pub from_tag : ℕ → ℕ
from_tag t = if ltb t (2 ^ 23) then t else t + (2 ^ 32 - 2 ^ 24)

-- `addr & ~0b11111`
abbrev pub line_address : ℕ → ℕ
line_address addr = addr - addr % 2 ^ 5

-- `tag << CACHETAG_SHIFT | (addr & ~CACHETAG_MASK & ~0b11111)`: the two parts share no bit.
unfoldable pub writeback_address : ℕ → ℕ → ℕ
writeback_address tag addr = u32 (from_tag tag * 2 ^ 12) + (addr % 2 ^ 12 - addr % 2 ^ 5)

abbrev pub is_invalid : LineState → Bool
is_invalid invalid = true
is_invalid _ = false

-- `state == CACHEL_MODIFIED || state == CACHEL_OWNED`
abbrev pub is_dirty : LineState → Bool
is_dirty modified = true
is_dirty owned = true
is_dirty _ = false

-- The test of both loops: the line is not invalid, and has the tag of the address.
unfoldable pub present : Line → ℕ → Bool
present c addr = not (is_invalid c.state) && from_tag c.tag == tag_of addr

-- The variables of the first loop of `execute`. `rindex` is `none` for -1, and so is `min_val`.
pub record Search : Type 0 where
  pub lines : ℕ → Line
  pub rindex : Option ℕ
  pub min_id : ℕ
  pub min_val : Option ℕ

-- `counter < min_val`
abbrev pub below : ℕ → Option ℕ → Bool
below c none = false
below c (some m) = ltb c m

-- The `else` branch of the loop's body, up to the change of the counter
choose : Line → ℕ → Search → Search
choose c i s =
    if is_invalid c.state
    then record s { min_id = i; min_val = none }
    else if below c.counter s.min_val
    then record s { min_id = i; min_val = some c.counter }
    else s

-- The body of the loop. `std::max(0x0, counter - 1)` is the truncated difference.
pub visit : ℕ → ℕ → Search → Search
unfolding choose
visit addr i s =
    let c = s.lines i in
    if present c addr
    then record s { rindex = some i }
    else record (choose c i s) { lines = update s.lines i (record c { counter = c.counter - 1 }) }

-- The loop: the rounds left, and `i`
pub search_from : ℕ → ℕ → ℕ → Search → Search
search_from addr zero i s = s
search_from addr (suc n) i s = search_from addr n (i + 1) (visit addr i s)

-- The variables as they are set before the loop
abbrev pub start_search : (ℕ → Line) → ℕ → Search
start_search lines index = record {
  lines = lines;
  rindex = none;
  min_id = index;
  min_val = some (max_counter + 2);
}

-- From `check_the_cachelinestat` to the end of the loop
unfoldable pub check_line : (ℕ → Line) → ℕ → Search
unfolding search_from visit
check_line lines addr =
    let index = addr_to_index addr in
    search_from addr cache_set_size index (start_search lines index)

-- `Memory::Function`, and `Function` of Bus.h
pub data Function : Type 0 where
  nothing read write invalidate response requested : Function

-- `struct request`; nothing in the program uses its `sourceid`.
pub record Request : Type 0 where
  pub id : ℕ
  pub addr : ℕ
  pub func : Function

-- The loop of `snooping`: the rounds left, `i`, and `rindex`
pub find_from : (ℕ → Line) → ℕ → ℕ → ℕ → Option ℕ → Option ℕ
find_from lines addr zero i r = r
find_from lines addr (suc n) i r =
    find_from lines addr n (i + 1) (if present (lines i) addr then some i else r)

-- The process that `snooping` spawns, `Bus::cache_to_cache` for a requestor, with its own number,
-- the address, and the line whose state it is given.
pub record Transfer : Type 0 where
  pub proc_id : ℕ
  pub source_id : ℕ
  pub addr : ℕ
  pub line : ℕ

abbrev pub set_state : (ℕ → Line) → ℕ → LineState → ℕ → Line
set_state lines i st = update lines i (record (lines i) { state = st })

-- What a request does to the line that was found
answer : ℕ → (ℕ → Line) → Request → ℕ → (ℕ → Line) × Option Transfer
answer id lines req r = elim req.func [
  | write ↦ (set_state lines r invalid, none)
  | invalidate ↦ (set_state lines r invalid, none)
  | read ↦ (
    elim (lines r).state [ requested ↦ set_state lines r shared | _ ↦ lines ],
    some (record { proc_id = req.id; source_id = id; addr = req.addr; line = r }),
  )
  | _ ↦ (lines, none)
]

answer_found : ℕ → (ℕ → Line) → Request → Option ℕ → (ℕ → Line) × Option Transfer
unfolding answer
answer_found id lines req none = (lines, none)
answer_found id lines req (some r) = answer id lines req r

-- One round of `snooping` in the cache `id`, from the request that `wait_for_any` returned
unfoldable pub snooping : ℕ → (ℕ → Line) → Request → (ℕ → Line) × Option Transfer
unfolding find_from answer_found
snooping id lines req =
    answer_found id lines req
      (find_from lines req.addr cache_set_size (addr_to_index req.addr) none)
