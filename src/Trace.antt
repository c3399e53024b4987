-- ===== src/Trace.antt =====
-- lib/psa.h and lib/psa.cpp: the class `TraceFile`, a trace of memory requests for each processor,
-- the requests of the processors interleaved word by word, and `init_tracefile`.
pub mod Ended
pub mod Opening
pub mod Columns
pub mod Termination
pub mod Tests
use psa.Prelude.{
  ℕ, zero, suc, ◌+◌, ◌-◌, ◌*◌, ◌/◌, ◌%◌, ◌^◌, Bool, true, false, ◌&&◌, ◌||◌, not, List, [], ◌∷◌,
  Option, none, some, if◌then◌else◌, ltb, leb, ◌==◌, length, get_or, set, u32,
}

-- `TraceFile::EntryType`
pub data EntryType : Type 0 where
  nop read write end : EntryType

pub record Entry : Type 0 where
  pub type : EntryType
  pub addr : ℕ  -- uint32_t

-- The bytes of `m_input`, and the members that guide the reads. A position is an offset into the
-- bytes; 0 marks a trace that has ended.
pub record TraceFile : Type 0 where
  pub input : List ℕ
  pub positions : List ℕ
  pub num_finished : ℕ  -- uint32_t
  pub endstream : ℕ

pub data OpenError : Type 0 where
  unable_to_open invalid_signature unable_to_read unexpected_end : OpenError

pub data Result (A : Type 0) : Type 0 where
  ok : A → Result A
  err : OpenError → Result A

-- Four bytes at an offset, read into a `uint32_t` and taken from network order by `ntohl`.
unfoldable pub word_at : List ℕ → ℕ → ℕ
word_at bytes p =
    get_or bytes p 0 * 2 ^ 24
    + get_or bytes (p + 1) 0 * 2 ^ 16
    + get_or bytes (p + 2) 0 * 2 ^ 8
    + get_or bytes (p + 3) 0

-- `strncmp(signature, "2TRF", 4) == 0`
unfoldable pub signed : List ℕ → Bool
signed bytes =
    get_or bytes 0 0 == 0x32
    && get_or bytes 1 0 == 0x54
    && get_or bytes 2 0 == 0x52
    && get_or bytes 3 0 == 0x46

-- The loop that fills `m_positions`: the rounds left, and `i`. The product is a `uint32_t`.
unfoldable pub start_positions : ℕ → ℕ → List ℕ
start_positions zero i = []
start_positions (suc n) i = (8 + u32 (i * 4)) ∷ start_positions n (i + 1)

-- The constructor. `file` is `none` where the stream does not open; the member `m_num_finished` is
-- in no initialiser, and has whatever value `garbage` the memory held.
unfoldable pub open_trace : ℕ → Option (List ℕ) → Result TraceFile
unfolding signed
open_trace garbage none = err unable_to_open
open_trace garbage (some bytes) =
    if ltb (length bytes) 4 || not (signed bytes)
    then err invalid_signature
    else if ltb (length bytes) 8
    then err unable_to_read
    else let procs_count = word_at bytes 4 in
      if leb (length bytes) (8 + u32 (procs_count * 4 + 3))
      then err unexpected_end
      else ok (record {
        input = bytes;
        positions = start_positions procs_count 0;
        num_finished = garbage;
        endstream = length bytes;
      })

-- `TraceFile::close`
unfoldable pub close : TraceFile → TraceFile
close t = record t { input = []; positions = [] }

abbrev pub get_proc_count : TraceFile → ℕ
get_proc_count t = u32 (length t.positions)

-- `(EntryType) (data & 0x3)` for the two bits `tag`
abbrev pub entry_type : ℕ → EntryType
entry_type zero = nop
entry_type (suc zero) = read
entry_type (suc (suc zero)) = write
entry_type (suc (suc (suc n))) = end

-- `data & ~0x3` and `data & 0x3`
unfoldable pub decode : ℕ → Entry
decode word = record { type = entry_type (word % 4); addr = word - word % 4 }

abbrev pub is_end : EntryType → Bool
is_end end = true
is_end _ = false

-- The trace of `pid` has ended: no position any more, one more in the count.
abbrev pub finish : TraceFile → ℕ → TraceFile
finish t pid = record t {
  positions = set t.positions pid 0;
  num_finished = u32 (t.num_finished + 1);
}

-- `next` where a whole word can be read at `pos`
next_word : TraceFile → ℕ → ℕ → Entry × TraceFile
unfolding decode
next_word t pid pos =
    let e = decode (word_at t.input pos) in
    if is_end e.type
    then (record e { type = nop }, finish t pid)
    else (e, record t { positions = set t.positions pid (pos + get_proc_count t * 4) })

-- `TraceFile::next`; `e` is the caller's entry, which a failed call and a short file leave as it
-- was, but for the type. `pos > end - 4` is read as `end < pos + 4`: the offsets are signed.
unfoldable pub next : TraceFile → ℕ → Entry → Bool × Entry × TraceFile
unfolding next_word
next t pid e =
    if leb (get_proc_count t) pid
    then (false, e, t)
    else let pos = get_or t.positions pid 0 in
      if pos == 0
      then (true, record { type = nop; addr = 0 }, t)
      else if ltb t.endstream (pos + 4)
      then (true, record e { type = nop }, finish t pid)
      else let (e', t') = next_word t pid pos in (true, e', t')

-- `TraceFile::eof`
abbrev pub eof : TraceFile → Bool
eof t = t.num_finished == length t.positions

-- What `init_tracefile` sets: `tracefile_ptr`, `num_cpus`, `*argc` and `*argv`.
pub record Started (A : Type 0) : Type 0 where
  pub tracefile : TraceFile
  pub num_cpus : ℕ  -- uint32_t
  pub argc : ℕ
  pub argv : List A

pub data InitError : Type 0 where
  usage : InitError
  bad_file : OpenError → InitError

pub data InitResult (A : Type 0) : Type 0 where
  started : Started A → InitResult A
  failed : InitError → InitResult A

-- The rest of `init_tracefile` once the constructor has run
set_up : {A : Type 0} → Result TraceFile → ℕ → List A → InitResult A
set_up (err e) argc rest = failed (bad_file e)
set_up (ok t) argc rest =
    started (record { tracefile = t; num_cpus = get_proc_count t; argc = argc - 1; argv = rest })

-- `init_tracefile`: `contents` is the file system, and `argc` the length of the list of arguments
-- or more. `*argv` moves on by two places, `*argc` falls by one.
unfoldable pub init_tracefile : {A : Type 0} → (A → Option (List ℕ)) → ℕ → ℕ → List A → InitResult A
unfolding set_up
init_tracefile contents garbage argc [] = failed usage
init_tracefile contents garbage argc (name ∷ []) = failed usage
init_tracefile contents garbage argc (name ∷ file ∷ rest) =
    if ltb argc 2 then failed usage else set_up (open_trace garbage (contents file)) argc rest

-- A sequence of calls of `next`, each with its processor and the entry that it overwrites.
unfoldable pub reads : TraceFile → List (ℕ × Entry) → TraceFile
reads t [] = t
reads t ((pid, e) ∷ calls) = reads (next t pid e).2 calls
