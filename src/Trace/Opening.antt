-- ===== src/Trace/Opening.antt =====
-- lib/psa.cpp: what the constructor of `TraceFile` accepts, and the positions that it sets.
use psa.Prelude.{
  ℕ, zero, suc, ◌+◌, ◌*◌, ◌^◌, ◌<◌, ◌≡◌, ◌≢◌, ◌↔◌, refl, true, false, List, [], ◌∷◌, some, length,
  get_or, u32, arith, ap,
}
use psa.Trace.{TraceFile, Entry, ok, start_positions, open_trace, word_at, eof, reads}
use psa.Trace.Ended.{
  zeros, IsTallied, AllZero, zeros_full, zeros_of_AllZero, zeros-le, reads-IsTallied,
}

-- A file holds bytes.
abbrev pub AllBytes : List ℕ → Type 0
AllBytes [] = Unit
AllBytes (b ∷ bs) = (b < 256) × AllBytes bs

byte_at : (bs : List ℕ) (i : ℕ) → AllBytes bs → get_or bs i 0 < 256
byte_at [] i h = omega arith
byte_at (b ∷ bs) zero h = h.0
byte_at (b ∷ bs) (suc i) h = byte_at bs i h.1

pub word_at-lt : (bs : List ℕ) (p : ℕ) → AllBytes bs → word_at bs p < 2 ^ 32
unfolding word_at
word_at-lt bs p h =
    omega (arith, byte_at bs p h, byte_at bs (p + 1) h, byte_at bs (p + 2) h, byte_at bs (p + 3) h)

pub length-start_positions : (n i : ℕ) → length (start_positions n i) ≡ n
unfolding start_positions
length-start_positions zero i = refl
length-start_positions (suc n) i = ap suc (length-start_positions n (i + 1))

pub zeros-start_positions : (n i : ℕ) → zeros (start_positions n i) ≡ 0
unfolding start_positions
zeros-start_positions zero i = refl
zeros-start_positions (suc n) i = ground (arith, zeros-start_positions n (i + 1))

pub get_or-start_positions :
    (n i k : ℕ) → k < n → get_or (start_positions n i) k 0 ≡ 8 + u32 ((i + k) * 4)
unfolding start_positions
get_or-start_positions zero i k h = absurd (omega arith)
get_or-start_positions (suc n) i zero h = ap (λ (x : ℕ). 8 + u32 (x * 4)) (omega arith)
get_or-start_positions (suc n) i (suc k) h =
    omega (arith, get_or-start_positions n (i + 1) k (omega arith))

-- What an opened trace holds.
pub record IsOpened (garbage : ℕ) (bytes : List ℕ) (t : TraceFile) : Type 0 where
  pub input : t.input ≡ bytes
  pub positions : t.positions ≡ start_positions (word_at bytes 4) 0
  pub num_finished : t.num_finished ≡ garbage
  pub endstream : t.endstream ≡ length bytes
  pub room : 8 + u32 (word_at bytes 4 * 4 + 3) < length bytes

pub open_trace-IsOpened :
    (garbage : ℕ) (bytes : List ℕ) {t : TraceFile}
    → open_trace garbage (some bytes) ≡ ok t
    → IsOpened garbage bytes t
unfolding open_trace
open_trace-IsOpened garbage bytes h = ground arith

pub opened-IsTallied :
    (garbage : ℕ) (bytes : List ℕ) {t : TraceFile}
    → AllBytes bytes
    → garbage < 2 ^ 32
    → open_trace garbage (some bytes) ≡ ok t
    → IsTallied garbage t
opened-IsTallied garbage bytes {t} all fits h =
    let o = open_trace-IsOpened garbage bytes h in
    let n = word_at bytes 4 in
    record {
      few = rw o.positions (omega (arith, length-start_positions n 0, word_at-lt bytes 4 all));
      tally = rw o.positions (omega (arith, zeros-start_positions n 0, o.num_finished));
    }

-- A file of bytes that opens while the counter holds 0 reports its end exactly when every trace has
-- ended, after any calls of `next` in any order.
pub eof-AllZero :
    (bytes : List ℕ) (calls : List (ℕ × Entry)) {t : TraceFile}
    → AllBytes bytes
    → open_trace 0 (some bytes) ≡ ok t
    → (eof (reads t calls) ≡ true) ↔ AllZero (reads t calls).positions
eof-AllZero bytes calls {t} all h =
    let tallied = reads-IsTallied 0 t calls (opened-IsTallied 0 bytes all (omega arith) h) in
    let ps = (reads t calls).positions in
    (λ e. zeros_full ps (ground (arith, zeros-le ps)), λ z. ground (arith, zeros_of_AllZero ps z))

-- A file of bytes that opens while the counter holds another `uint32_t` does not report its end once
-- every trace has ended, after any calls of `next` in any order.
pub eof_garbage :
    (garbage : ℕ) (bytes : List ℕ) (calls : List (ℕ × Entry)) {t : TraceFile}
    → AllBytes bytes
    → garbage < 2 ^ 32
    → garbage ≢ 0
    → open_trace garbage (some bytes) ≡ ok t
    → AllZero (reads t calls).positions
    → eof (reads t calls) ≡ false
eof_garbage garbage bytes calls {t} all fits some_garbage h z =
    let tallied = reads-IsTallied garbage t calls (opened-IsTallied garbage bytes all fits h) in
    let ps = (reads t calls).positions in ground (arith, zeros_of_AllZero ps z)
