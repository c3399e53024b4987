-- ===== src/AtModules/Exclusion.antt =====
-- locknsnoop/common/at_typea_initiator.h and at_typeb_initiator.h: one request at a time, and the wait
-- for the end of the last one.
use psa.Prelude.{
  ℕ, ◌+◌, ◌≤◌, ◌≡◌, ◌⊎◌, refl, sym, subst, true, Option, none, List, [], ◌∷◌, arith, Option-cases,
  inl, inr,
}
use psa.AtInterconnect.{Phase, end_req, begin_resp, is_some}
use psa.AtModules.{
  AtPhase, protocol, internal_ph, Event, Store, Outcome, runs, fatal, take_event, Outcome-cases,
}
use psa.AtModules.Initiators.{
  ThreadPc, between, over, waits, resumes, Initiator, constructed, Meets, send_request, start_round,
  thread_process, peq_cb, nb_transport_bw, typeb_nb_transport_bw,
}
use psa.AtModules.Open.{begin_reqs, open_request, play-open}
use psa.AtModules.Initiators.Steps.{
  peq_cb_of, Kind, typea, typeb, Input, thread_goes_on, transport, comes_up, step, handle, play,
}

-- The thread waits only while a request is in progress, and goes on after the wait when none is.
abbrev pub Waits : ThreadPc → Option ℕ → Type 0
Waits between req = Unit
Waits over req = Unit
Waits (waits t) req = is_some req ≡ true
Waits (resumes t) req = req ≡ none

abbrev rounds_begun : ThreadPc → ℕ
rounds_begun between = 0
rounds_begun over = 0
rounds_begun (waits t) = 1
rounds_begun (resumes t) = 1

-- There is one BEGIN_REQ for each round that has gone past it, and there are 1000 rounds at most.
pub record IsExclusive (s : Initiator) : Type 0 where
  pub waiting : Waits s.pc s.req_in_progress
  pub begun : begin_reqs s.did ≡ s.i
  pub limited : s.i + rounds_begun s.pc ≤ 1000

-- A step from `s`, in which the request `req` is open, if any: if the simulation goes on, it sends no
-- BEGIN_REQ, or one, and then none was open.
abbrev pub Steps : Option ℕ → Initiator → Outcome Initiator → Type 0
Steps req s (fatal why) = Unit
Steps req s (runs s') =
    IsExclusive s'
    × ((begin_reqs s'.did ≡ begin_reqs s.did)
        ⊎ (begin_reqs s'.did ≡ begin_reqs s.did + 1) × (req ≡ none))

thread_process-Steps :
    (env : Meets) (now : ℕ) (s : Initiator)
    → IsExclusive s
    → Steps s.req_in_progress s (thread_process env now s)
unfolding thread_process start_round send_request
thread_process-Steps env now s h = ground arith

peq_cb-Steps :
    (env : Meets) (s : Initiator) (es : List Event) (t : ℕ) (ph : AtPhase)
    → IsExclusive s
    → Steps s.req_in_progress s (peq_cb env (record s { peq = es }) t ph)
unfolding peq_cb
peq_cb-Steps env s es t (protocol end_req) h = ground arith
peq_cb-Steps env s es t (protocol begin_resp) h = ground arith
peq_cb-Steps env s es t (protocol _) h = tt
peq_cb-Steps env s es t internal_ph h = ground arith

peq_cb_of-Steps :
    (kind : Kind) (env : Meets) (s : Initiator) (es : List Event) (t : ℕ) (ph : AtPhase)
    → IsExclusive s
    → Steps s.req_in_progress s (peq_cb_of kind env (record s { peq = es }) t ph)
peq_cb_of-Steps typea env s es t ph h = peq_cb-Steps env s es t ph h
peq_cb_of-Steps typeb env s es t ph h = peq_cb-Steps env s es t ph h

transport-Steps :
    (kind : Kind) (env : Meets) (now : ℕ) (s : Initiator) (t : ℕ) (ph : Phase) (delay : ℕ)
    → IsExclusive s
    → Steps s.req_in_progress s (step kind env s (transport now t ph delay))
unfolding step nb_transport_bw typeb_nb_transport_bw
transport-Steps typea env now s t ph delay h = ground arith
transport-Steps typeb env now s t end_req delay h = ground arith
transport-Steps typeb env now s t begin_resp delay h = ground arith
transport-Steps typeb env now s t _ delay h = tt

step-Steps :
    (kind : Kind) (env : Meets) (s : Initiator) (i : Input)
    → IsExclusive s
    → Steps s.req_in_progress s (step kind env s i)
unfolding step
step-Steps typea env s (thread_goes_on now) h = thread_process-Steps env now s h
step-Steps typeb env s (thread_goes_on now) h = thread_process-Steps env now s h
step-Steps kind env s (transport now t ph delay) h = transport-Steps kind env now s t ph delay h
step-Steps kind env s (comes_up now k) h = elim (Option-cases (take_event k s.peq)) [
  | inl empty ↦ rw (step, empty) (h, inl refl)
  | inr ((e, es), found) ↦ rw (step, found) (peq_cb_of-Steps kind env s es e.trans e.phase h)
]

handle-Steps :
    (kind : Kind) (env : Meets) (s : Initiator) (i : Input)
    → IsExclusive s
    → Steps s.req_in_progress s (handle kind env s i)
unfolding handle
handle-Steps kind env s i h =
    let s' : Initiator = record s { store = env.store_before s.store } in
    let one = step-Steps kind env s' i (ground arith) in
    elim (Outcome-cases (step kind env s' i)) [
      | inl (after, e) ↦ let it = rw e at one in rw e (ground arith)
      | inr (why, e) ↦ rw e tt
    ]

abbrev Ends : Outcome Initiator → Type 0
Ends (runs s) = IsExclusive s
Ends (fatal why) = Unit

play-Ends :
    (kind : Kind) (s : Initiator) (is : List (Meets × Input))
    → IsExclusive s
    → Ends (play kind s is)
unfolding play
play-Ends kind s [] h = h
play-Ends kind s ((env, i) ∷ is) h =
    let first = handle-Steps kind env s i h in
    elim (Outcome-cases (handle kind env s i)) [
      | inl (s', e) ↦ let one = rw e at first in rw (play, e) (play-Ends kind s' is one.0)
      | inr (why, e) ↦ rw (play, e) tt
    ]

-- In every run of an initiator of type A or B from its start, for any answers, any calls of
-- `nb_transport_bw` and any order of the events of its queue, up to the end of the simulation by a
-- failure. A request is open, as the calls and the answers say, from its BEGIN_REQ until the answer
-- TLM_COMPLETED to it, an END_REQ of whichever transaction, or a BEGIN_RESP of that same transaction;
-- a phase that stands in the queue counts when it comes up. The request in progress is always the one that is open; a step
-- sends at most one BEGIN_REQ, and one only when no request is open. After the step, the thread is in
-- the wait for the end of a request only while one is in progress, and goes on after the wait only
-- when none is; there has been one BEGIN_REQ for each round past that point, at most 1000.
pub request_exclusion :
    (kind : Kind) (m : Store) (is : List (Meets × Input)) (s : Initiator) (env : Meets) (i : Input)
    → play kind (constructed m) is ≡ runs s
    → (s.req_in_progress ≡ open_request kind (constructed m) is none)
      × Steps (open_request kind (constructed m) is none) s (handle kind env s i)
request_exclusion kind m is s env i e =
    let all = play-Ends kind (constructed m) is (omega arith) in
    let same = play-open kind (constructed m) is s e in
    (
      sym same,
      subst (λ req. Steps req s (handle kind env s i)) (sym same)
          (handle-Steps kind env s i (rw e at all)),
    )
