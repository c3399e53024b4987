-- ===== src/System/Served.antt =====
-- src/assignment_1/: what was seen of a run, against the words of the trace: each step of a processor
-- or a cache.
use psa.Prelude.{
  ℕ, suc, ◌≡◌, ◌≢◌, refl, sym, true, false, List, [], ◌∷◌, ◌++◌, Option, ◌∙◌, if◌then◌else◌, ◌==◌,
  ◌&&◌, not, arith, ap, append_assoc, if_cases, inl, inr,
}
use psa.Trace.{Entry, nop, TraceFile, next, eof, is_end}
use psa.Trace.Columns.{column_entry, calls_of, calls_of-append}
use psa.Lines.{Function}
use psa.World.{World, RetCode}
use psa.SingleCache.{Pc}
use psa.SingleCache.Completion.{is_finished, IsServing}
use psa.SingleCache.Serving.{Asked, port_request, cache_request, is_write_event}
use psa.Processor
use psa.Processor.{CpuPc}
use psa.Processor.Sending.{
  entry_request, cpu_request, is_round, tr_data, cpu-fetches, cpu-rests, SameElse,
}
use psa.System.Requests.{Reply, answered_of, events_of, Seen, called, answered, column_requests}
use psa.System.Handshake.{is_done, Link, Order, nothing_waits, fetched-Order, seen-Link}

pub answered_of-append :
    (id : ℕ) (xs ys : List Reply)
    → answered_of id (xs ++ ys) ≡ answered_of id xs ++ answered_of id ys
answered_of-append id [] ys = refl
answered_of-append id (a ∷ xs) ys =
    let mine : List Asked = if a.cpu == id then (is_write_event a.event, a.addr) ∷ [] else [] in
    cc (append_assoc mine (answered_of id xs) (answered_of id ys), answered_of-append id xs ys)

pub events_of-append : (xs ys : List Reply) → events_of (xs ++ ys) ≡ events_of xs ++ events_of ys
events_of-append [] ys = refl
events_of-append (a ∷ xs) ys = ap (λ es. (a.event, a.cpu) ∷ es) (events_of-append xs ys)

-- What was seen of a processor, against the words of its trace
abbrev pub Each :
    List ℕ → ℕ → Seen → CpuPc → Option (Function × ℕ) → Pc → Option RetCode → ℕ → Type 0
Each bytes n p c r k d id =
    IsServing k
    × Link (cpu_request c) (port_request r) (cache_request k) (is_done d)
    × Order (answered_of id p.answers) (port_request r) (cache_request k)
        (column_requests bytes n id (calls_of id p.calls))

-- Calls for another processor, and answers of its cache
pub calls_of-other :
    (id j : ℕ) (t : TraceFile) (pc : CpuPc) → id ≢ j → calls_of j (called t id pc) ≡ 0
calls_of-other id j t (CpuPc.starting e) ne = ground arith
calls_of-other id j t (CpuPc.advancing e) ne = ground arith
calls_of-other id j t _ ne = refl

pub answered_of-other : (id j : ℕ) (pc pc' : Pc) → id ≢ j → answered_of j (answered id pc pc') ≡ []
answered_of-other id j pc pc' ne =
    if_cases (λ xs. answered_of j xs ≡ []) (is_finished pc') (λ e. ground arith) (λ e. refl)

pub called-round :
    (t : TraceFile) (id : ℕ) (pc : CpuPc)
    → called t id pc ≡ (if is_round pc && not (eof t) then (id, tr_data pc) ∷ [] else [])
called-round t id (CpuPc.starting e) = ground arith
called-round t id (CpuPc.advancing e) = ground arith
called-round t id _ = ground arith

-- What an entry of a column asks for does not depend on the entry that it overwrites.
entry_request-column :
    (bytes : List ℕ) (n id k : ℕ) (e e' : Entry)
    → (entry_request (column_entry bytes n id k e) ≡ entry_request (column_entry bytes n id k e'))
      × (is_end (column_entry bytes n id k e).type ≡ false)
entry_request-column bytes n id k e e' = ground arith

round_request : (c : CpuPc) → is_round c ≡ true → cpu_request c ≡ []
round_request (CpuPc.starting e) at = refl
round_request (CpuPc.advancing e) at = refl
round_request _ at = absurd (ground arith)

module _ (bytes : List ℕ) (n : ℕ) (p : Seen) where
  -- A processor with the entry of its next word
  pub fetched-Each :
      (w : World) (id : ℕ) (c : CpuPc) (k : Pc)
      → (is_round c && not (eof w.trace)) ≡ true
      → (next w.trace id (tr_data c)).0 ≡ true
      → (next w.trace id (tr_data c)).1 ≡ column_entry bytes n id (calls_of id p.calls) (tr_data c)
      → Each bytes n p c (w.requests id) k (w.dones id) id
      → let (w', c') = Processor.execute w id c in
        Each bytes n
          (record p { calls = p.calls ++ called w.trace id c })
          c'
          (w'.requests id)
          k
          (w'.dones id)
          id
        × SameElse w' w id
        × (w'.trace ≡ (next w.trace id (tr_data c)).2)
  unfolding column_requests
  fetched-Each w id c k fetches got entry (serving, link, order) =
      let here : is_round c ≡ true = ground arith in
      let going : eof w.trace ≡ false = ground arith in
      let empty = round_request c here in
      let old = calls_of id p.calls in
      let e0 : Entry = record { type = nop; addr = 0 } in
      let new = entry_request (column_entry bytes n id old e0) in
      let (same, proper) = entry_request-column bytes n id old (tr_data c) e0 in
      let (port, serves, done) = nothing_waits _ _ _ _ _ _ link order empty in
      let (want', port', dones', trace', else') =
        cpu-fetches w id c here going port got (rw entry proper) in
      let asks : entry_request (next w.trace id (tr_data c)).1 ≡ new = rw entry same in
      let one : calls_of id (called w.trace id c) ≡ 1 =
        rw (called-round w.trace id c, fetches) (ground arith) in
      let count : calls_of id (p.calls ++ called w.trace id c) ≡ suc old =
        omega (arith, calls_of-append id p.calls (called w.trace id c), one) in
      (
        (
          serving,
          inl (port' ∙ sym want', serves, rw dones' done),
          rw (count, port', asks) (fetched-Order _ _ _ _ _ _ link order empty new),
        ),
        else',
        trace',
      )

  -- A processor that calls nothing
  pub rested-Each :
      (w : World) (id : ℕ) (c : CpuPc) (k : Pc)
      → (is_round c && not (eof w.trace)) ≡ false
      → Each bytes n p c (w.requests id) k (w.dones id) id
      → let (w', c') = Processor.execute w id c in
        Each bytes n p c' (w'.requests id) k (w'.dones id) id
        × SameElse w' w id
        × (w'.trace ≡ w.trace)
  rested-Each w id c k rests (serving, link, order) =
      let (requests, trace, else', outcome) = cpu-rests w id c rests in
      (
        (
          serving,
          elim outcome [
            | inl (want, done) ↦ rw (requests, want, done) link
            | inr (want, was, done) ↦
                rw (requests, want, done) (seen-Link _ _ _ _ _ _ link order (ground arith))
          ],
          rw requests order,
        ),
        else',
        trace,
      )
