-- ===== src/Tutorial/Served.antt =====
-- src/tutorial/tutorial.cpp: the requests of a run, one after another.
use psa.Prelude.{ℕ, zero, suc, ◌+◌, ◌*◌, ◌<◌, ◌≡◌, ap, subst, ◌∙◌, Bool, none, arith}
use psa.Tutorial.{
  mem_size, RetCode, ret_read_done, awaits_done, advances, Top, data_wires, cycle, run,
}
use psa.Tutorial.Requests.{Request, request, Served, served, reply}
use psa.Tutorial.Rounds.{
  quiet, serving, place_after, wire_after, answered_signals, place_of, delay_lem, release_lem,
  send_lem, first_lem, answer_lem, answered_lem,
}

module _ (rand : ℕ → ℕ) (unclear : ℕ) (m : ℕ → ℕ) (orders : ℕ → Bool) where
  abbrev after : ℕ → Top
  after k = run rand unclear m orders k

  abbrev at : ℕ → Served
  at n = served rand m n

  abbrev asked : ℕ → Request
  asked n = request rand (at n).drawn

  -- The value of the answer before a request
  abbrev done_before : ℕ → RetCode
  done_before zero = ret_read_done
  done_before (suc n) = (answered_signals (asked n) (at n).contents).done

  abbrev Sent : ℕ → ℕ → Type 0
  Sent n k =
      let q : Request = asked n in
      after k
      ≡ serving (place_after q.function) (wire_after q) (done_before n) q (at n).contents
          (at (suc n)).drawn 99

  abbrev Delayed : ℕ → ℕ → ℕ → Type 0
  Delayed n i k =
      after k
      ≡ serving awaits_done none (done_before n) (asked n) (at n).contents (at (suc n)).drawn i

  abbrev Answered : ℕ → ℕ → Type 0
  Answered n k =
      let q : Request = asked n in
      after k
      ≡ quiet (place_of q.function) advances (at (suc n)) (answered_signals q (at n).contents)

  delays_pass : (n i k : ℕ) → Delayed n i k → Delayed n 0 (i + k)
  unfolding run
  delays_pass n zero k e = let same : k ≡ 0 + k = omega arith in subst (Delayed n 0) same e
  delays_pass n (suc i) k e =
      let one =
        ap (cycle rand unclear (orders k)) e
        ∙ delay_lem rand unclear (orders k) (done_before n) (asked n) (at n).contents
            (at (suc n)).drawn i in
      let same : i + suc k ≡ suc i + k = omega arith in
      subst (Delayed n 0) same (delays_pass n i (suc k) one)

  asked_small : (n : ℕ) → (asked n).addr < mem_size
  asked_small n = omega arith

  Sent-Answered : (n k : ℕ) → Sent n k → Answered n (100 + k)
  unfolding run
  Sent-Answered n k e =
      let released =
        ap (cycle rand unclear (orders k)) e
        ∙ release_lem rand unclear (orders k) (done_before n) (asked n) (at n).contents
            (at (suc n)).drawn 98 in
      let k' : ℕ = 98 + suc k in
      let same : suc k' ≡ 100 + k = omega arith in
      subst (Answered n) same (
        ap (cycle rand unclear (orders k')) (delays_pass n 98 (suc k) released)
        ∙ answer_lem rand unclear (orders k') (done_before n) (asked n) (at n).contents
            (at (suc n)).drawn (asked_small n))

  Answered-Sent : (n k : ℕ) → Answered n k → Sent (suc n) (suc k)
  unfolding run
  Answered-Sent n k e =
      ap (cycle rand unclear (orders k)) e
      ∙ send_lem rand unclear (orders k) (asked n).function (at (suc n)) (asked n).addr
          (at n).contents

  run-Answered : (n : ℕ) → Answered n (101 * suc n)
  unfolding run
  run-Answered zero =
      let same : 100 + 1 ≡ 101 * 1 = omega arith in
      subst (Answered 0) same (Sent-Answered 0 1 (first_lem rand unclear (orders 0) m))
  run-Answered (suc n) =
      let same : 100 + suc (101 * suc n) ≡ 101 * suc (suc n) = omega arith in
      subst (Answered (suc n)) same
        (Sent-Answered (suc n) (suc (101 * suc n)) (Answered-Sent n (101 * suc n) (run-Answered n)))

  -- In any order of the processes in each cycle and with any values from `rand`, a request is answered
  -- every 101 cycles: after 101 * (n + 1) cycles the memory holds what n + 1 requests that are served at
  -- once leave, as many values have been drawn, and the signals have the answer to the last of them,
  -- with the word that the memory held at its address on the wires if it was a read.
  pub run_serves :
      (n : ℕ)
      → ((after (101 * suc n)).m_data ≡ (at (suc n)).contents)
        × ((after (101 * suc n)).drawn ≡ (at (suc n)).drawn)
        × (((after (101 * suc n)).now.done, data_wires (after (101 * suc n)).now)
            ≡ reply (asked n) (at n).contents)
  run_serves n =
      let e = run-Answered n in
      let q : Request = asked n in
      (
        ap (λ s. s.m_data) e,
        ap (λ s. s.drawn) e,
        ap (λ s. (s.now.done, data_wires s.now)) e
            ∙ answered_lem q.function q.addr q.word (at n).contents,
      )
