-- ===== src/Snooping/Debug.antt =====
-- locknsnoop/snooping_sticky/snooping.cpp: `Memory::transport_dbg`.
use psa.Prelude.{ℕ, ◌+◌, ◌-◌, ◌*◌, ◌/◌, ◌%◌, ◌&&◌, ◌||◌, not, if◌then◌else◌, ltb, leb, ◌==◌}
use psa.Snooping.{Command, read, write, ignore, Memory, size}

-- The words that `transport_dbg` copies
abbrev pub debug_length : ℕ → ℕ → ℕ
debug_length adr len = if ltb (size * 4) (adr + len) then size * 4 - adr else len

-- Words of a buffer from the first one on, put into the memory from the word `i` on
abbrev pub copy_in : Memory → ℕ → ℕ → (ℕ → ℕ) → Memory
copy_in m i n buffer = record m {
  mem = λ j. if leb i j && ltb j (i + n) then buffer (j - i) else m.mem j;
}

abbrev pub copy_out : Memory → ℕ → ℕ → (ℕ → ℕ) → ℕ → ℕ
copy_out m i n buffer j = if ltb j n then m.mem (i + j) else buffer j

copied : Memory → Command → ℕ → ℕ → (ℕ → ℕ) → ℕ × Memory × (ℕ → ℕ)
copied m read adr len buffer = (len, m, copy_out m (adr / 4) (len / 4) buffer)
copied m write adr len buffer = (len, copy_in m (adr / 4) (len / 4) buffer, buffer)
copied m ignore adr len buffer = (len, m, buffer)

-- `Memory::transport_dbg`, with the buffer of the caller: the length, the memory and the buffer
unfoldable pub memory_debug : Memory → Command → ℕ → ℕ → (ℕ → ℕ) → ℕ × Memory × (ℕ → ℕ)
unfolding copied
memory_debug m cmd adr len buffer =
    if not (adr % 4 == 0) || not (len % 4 == 0) || leb (size * 4) adr
    then (0, m, buffer)
    else copied m cmd adr (debug_length adr len) buffer
