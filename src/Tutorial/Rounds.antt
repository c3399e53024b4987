-- ===== src/Tutorial/Rounds.antt =====
-- src/tutorial/tutorial.cpp: the cycles of the clock, from one request to the next.
use psa.Prelude.{
  ℕ, suc, ◌+◌, ◌%◌, ◌<◌, ◌≡◌, refl, ltb, Bool, true, false, Option, none, some, arith,
}
use psa.Tutorial.Requests.{Request, request, Served, drawn_by, write_to, reply}
use psa.Tutorial.{
  mem_size, Function, func_read, func_write, RetCode, ret_read_done, ret_write_done, Signals,
  MemoryPlace, awaits_func, releases, delays, CpuPlace, releases_data, awaits_done, advances, Top,
  data_wires, finish, memory_edge, memory_event, send, cpu_edge, cpu_event, edge, notified, cycle,
  sc_main,
}

-- The state between two requests
abbrev pub quiet : MemoryPlace → CpuPlace → Served → Signals → Top
quiet mem cpu v g = record {
  memory = mem;
  m_data = v.contents;
  cpu = cpu;
  drawn = v.drawn;
  now = g;
  next = g;
  func_written = false;
  done_written = false;
}

abbrev word_of : Function → ℕ → ℕ
word_of func_read x = 0
word_of func_write x = x

-- The state while the memory delays the answer to a request, some edges before the last
abbrev pub serving : CpuPlace → Option ℕ → RetCode → Request → (ℕ → ℕ) → ℕ → ℕ → Top
serving cpu wire done q m drawn n =
    let g : Signals = record {
      func = q.function;
      addr = q.addr;
      done = done;
      cpu_data = wire;
      mem_data = none;
    } in
    record {
      memory = delays q.function q.addr (word_of q.function q.word) n;
      m_data = m;
      cpu = cpu;
      drawn = drawn;
      now = g;
      next = g;
      func_written = false;
      done_written = false;
    }

-- The processor after it has sent a request
abbrev pub place_after : Function → CpuPlace
place_after func_read = awaits_done
place_after func_write = releases_data

abbrev pub wire_after : Request → Option ℕ
wire_after q = elim q.function [ func_read ↦ none | func_write ↦ some q.word ]

-- The signals after the answer to a request
abbrev pub answered_signals : Request → (ℕ → ℕ) → Signals
answered_signals q m = elim q.function [
  | func_read ↦ record {
    func = func_read;
    addr = q.addr;
    done = ret_read_done;
    cpu_data = none;
    mem_data = some (m q.addr);
  }
  | func_write ↦ record {
    func = func_write;
    addr = q.addr;
    done = ret_write_done;
    cpu_data = none;
    mem_data = none;
  }
]

abbrev pub place_of : Function → MemoryPlace
place_of func_read = releases
place_of func_write = awaits_func

-- A cycle of the delay
pub delay_lem :
    (rand : ℕ → ℕ) (unclear : ℕ) (order : Bool) (done : RetCode) (q : Request) (m : ℕ → ℕ)
    (drawn n : ℕ)
    → cycle rand unclear order (serving awaits_done none done q m drawn (suc n))
      ≡ serving awaits_done none done q m drawn n
unfolding cycle edge notified memory_edge cpu_edge
delay_lem rand unclear true done q m drawn n = refl
delay_lem rand unclear false done q m drawn n = refl

-- The cycle after a request, in which the processor releases the data
pub release_lem :
    (rand : ℕ → ℕ) (unclear : ℕ) (order : Bool) (done : RetCode) (q : Request) (m : ℕ → ℕ)
    (drawn n : ℕ)
    → cycle rand unclear order
        (serving (place_after q.function) (wire_after q) done q m drawn (suc n))
      ≡ serving awaits_done none done q m drawn n
unfolding cycle edge notified memory_edge cpu_edge
release_lem rand unclear order done q m drawn n = by_function q.function refl order
  where
    by_function :
        (f : Function)
        → q.function ≡ f
        → (order : Bool)
        → cycle rand unclear order
            (serving (place_after q.function) (wire_after q) done q m drawn (suc n))
          ≡ serving awaits_done none done q m drawn n
    by_function func_read e true = rw e refl
    by_function func_write e true = rw e refl
    by_function func_read e false = rw e refl
    by_function func_write e false = rw e refl

-- The cycle in which a request is sent, from the state between two requests
pub send_lem :
    (rand : ℕ → ℕ) (unclear : ℕ) (order : Bool) (f : Function) (v : Served) (a : ℕ) (m : ℕ → ℕ)
    → let q : Request = request rand v.drawn in
      let g : Signals = answered_signals (record { function = f; addr = a; word = 0 }) m in
      cycle rand unclear order (quiet (place_of f) advances v g)
      ≡ serving
          (place_after q.function)
          (wire_after q)
          g.done
          q
          v.contents
          (v.drawn + drawn_by q.function)
          99
unfolding cycle edge notified memory_edge cpu_edge send memory_event cpu_event
send_lem rand unclear order f v a m = by_function f order (ltb (rand v.drawn % 10) 5) refl
  where
    q : Request
    q = request rand v.drawn

    g : Function → Signals
    g f = answered_signals (record { function = f; addr = a; word = 0 }) m

    by_function :
        (f : Function) (order b : Bool)
        → ltb (rand v.drawn % 10) 5 ≡ b
        → cycle rand unclear order (quiet (place_of f) advances v (g f))
          ≡ serving
              (place_after q.function)
              (wire_after q)
              (g f).done
              q
              v.contents
              (v.drawn + drawn_by q.function)
              99
    by_function func_read true true e = rw e refl
    by_function func_read true false e = rw e refl
    by_function func_read false true e = rw e refl
    by_function func_read false false e = rw e refl
    by_function func_write true true e = rw e refl
    by_function func_write true false e = rw e refl
    by_function func_write false true e = rw e refl
    by_function func_write false false e = rw e refl

-- The first cycle
pub first_lem :
    (rand : ℕ → ℕ) (unclear : ℕ) (order : Bool) (m : ℕ → ℕ)
    → let q : Request = request rand 0 in
      cycle rand unclear order (sc_main m)
      ≡ serving
          (place_after q.function)
          (wire_after q)
          ret_read_done
          q
          m
          (0 + drawn_by q.function)
          99
unfolding cycle edge notified memory_edge cpu_edge send memory_event cpu_event sc_main
first_lem rand unclear order m = by_order order (ltb (rand 0 % 10) 5) refl
  where
    q : Request
    q = request rand 0

    by_order :
        (order b : Bool)
        → ltb (rand 0 % 10) 5 ≡ b
        → cycle rand unclear order (sc_main m)
          ≡ serving
              (place_after q.function)
              (wire_after q)
              ret_read_done
              q
              m
              (0 + drawn_by q.function)
              99
    by_order true true e = rw e refl
    by_order true false e = rw e refl
    by_order false true e = rw e refl
    by_order false false e = rw e refl

-- The cycle of the answer
pub answer_lem :
    (rand : ℕ → ℕ) (unclear : ℕ) (order : Bool) (done : RetCode) (q : Request) (m : ℕ → ℕ)
    (drawn : ℕ)
    → q.addr < mem_size
    → cycle rand unclear order (serving awaits_done none done q m drawn 0)
      ≡ quiet
          (place_of q.function)
          advances
          (record { contents = write_to q m; drawn = drawn })
          (answered_signals q m)
unfolding cycle edge notified memory_edge cpu_edge finish memory_event cpu_event
answer_lem rand unclear order done q m drawn small = by_function q.function refl order
  where
    inside : ltb q.addr mem_size ≡ true
    inside = ground arith

    by_function :
        (f : Function)
        → q.function ≡ f
        → (order : Bool)
        → cycle rand unclear order (serving awaits_done none done q m drawn 0)
          ≡ quiet
              (place_of q.function)
              advances
              (record { contents = write_to q m; drawn = drawn })
              (answered_signals q m)
    by_function func_read e true = rw (e, inside) refl
    by_function func_write e true = rw (e, inside) refl
    by_function func_read e false = rw (e, inside) refl
    by_function func_write e false = rw (e, inside) refl

-- The signals have the answer.
pub answered_lem :
    (f : Function) (a x : ℕ) (m : ℕ → ℕ)
    → let q : Request = record { function = f; addr = a; word = x } in
      ((answered_signals q m).done, data_wires (answered_signals q m)) ≡ reply q m
answered_lem func_read a x m = refl
answered_lem func_write a x m = refl
