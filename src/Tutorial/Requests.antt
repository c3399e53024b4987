-- ===== src/Tutorial/Requests.antt =====
-- src/tutorial/tutorial.cpp: the requests that the processor draws, and a memory that serves them at once,
-- by which the program is judged.
use psa.Prelude.{ℕ, zero, suc, ◌+◌, ◌%◌, update}
use psa.Tutorial.{
  mem_size, Function, func_read, func_write, RetCode, ret_read_done, ret_write_done, Wires,
  released, driven, draw_function,
}

-- A request, with the word that is written
pub record Request : Type 0 where
  pub function : Function
  pub addr : ℕ
  pub word : ℕ

-- The request that is drawn from some call of `rand` on
abbrev pub request : (ℕ → ℕ) → ℕ → Request
request rand k = record {
  function = draw_function (rand k);
  addr = rand (k + 1) % mem_size;
  word = rand (k + 2);
}

-- A memory that serves requests at once: its contents, and the number of calls of `rand` so far
pub record Served : Type 0 where
  pub contents : ℕ → ℕ
  pub drawn : ℕ

abbrev pub drawn_by : Function → ℕ
drawn_by func_read = 2
drawn_by func_write = 3

abbrev pub write_to : Request → (ℕ → ℕ) → ℕ → ℕ
write_to q m = elim q.function [ func_read ↦ m | func_write ↦ update m q.addr q.word ]

abbrev pub serve : (ℕ → ℕ) → Served → Served
serve rand v =
    let q = request rand v.drawn in
    record { contents = write_to q v.contents; drawn = v.drawn + drawn_by q.function }

-- After the first requests
abbrev pub served : (ℕ → ℕ) → (ℕ → ℕ) → ℕ → Served
served rand m zero = record { contents = m; drawn = 0 }
served rand m (suc n) = serve rand (served rand m n)

-- The answer to a request, and what it leaves on the wires
abbrev pub reply : Request → (ℕ → ℕ) → RetCode × Wires
reply q m = elim q.function [
  | func_read ↦ (ret_read_done, driven (m q.addr))
  | func_write ↦ (ret_write_done, released)
]
