-- ===== src/AtModules/Pipeline.antt =====
-- locknsnoop/common/at_typea_target.h and at_typeb_target.h: how many transactions a target holds.
use psa.Prelude.{
  ℕ, ◌+◌, ◌*◌, ◌≤◌, ◌≡◌, Bool, true, false, List, [], ◌∷◌, arith, Option-cases, inl, inr,
}
use psa.AtInterconnect.{Phase, begin_req, end_resp}
use psa.AtInterconnect.Queues.{bit}
use psa.AtModules.{
  AtPhase, protocol, internal_ph, Event, Around, Outcome, runs, fatal, illegal_end_resp,
  illegal_phase, two_pending, wrong_data, none_pending, Outcome-cases, take_event, total,
  take_event-IsTaken, Store,
}
use psa.AtModules.Typea.{
  Target, send_end_req, unblock, send_response, send_pending, on_end_resp, on_internal,
  on_begin_req, peq_cb, peq_cb_of, nb_transport_fw, typeb_nb_transport_fw, Kind, typea, typeb,
  Input, transport, comes_up, step, handle, constructed, play,
}

abbrev pub flag : Bool → ℕ
flag true = 1
flag false = 0

abbrev pub latent_phase : AtPhase → ℕ
latent_phase internal_ph = 1
latent_phase (protocol ph) = 0

-- The transactions whose latency is running
abbrev pub latent : List Event → ℕ
latent es = total (λ e. latent_phase e.phase) es

-- The transactions that a target holds are those whose latency is running and those with a response
-- in progress or held back.
pub record IsCounted (s : Target) : Type 0 where
  pub counted :
      s.begun ≡ s.ended + latent s.peq + flag s.response_in_progress + bit s.next_response_pending
  pub paired : bit s.next_response_pending ≤ flag s.response_in_progress
  pub bounded : s.begun ≤ s.ended + 2

-- A request is held back only while the target holds two transactions.
pub record IsPipelined (s : Target) : Type 0 where
  pub is_counted : IsCounted s
  pub full : s.ended + 2 * bit s.end_req_pending ≤ s.begun

-- The outcomes that keep the pipeline: a run that goes on, or an end that the target did not cause
abbrev pub After : Outcome Target → Type 0
After (runs s) = IsPipelined s
After (fatal two_pending) = ⊥
After (fatal wrong_data) = ⊥
After (fatal none_pending) = ⊥
After (fatal illegal_end_resp) = Unit
After (fatal illegal_phase) = Unit

unblock-IsPipelined :
    (env : Around) (now : ℕ) (s : Target)
    → IsCounted s
    → s.begun ≤ s.ended + 1
    → IsPipelined (unblock env now s)
unfolding unblock send_end_req
unblock-IsPipelined env now s h room = ground arith

on_end_resp-IsPipelined :
    (env : Around) (now : ℕ) (s : Target) (t : ℕ) → IsPipelined s → After (on_end_resp env now s t)
unfolding on_end_resp send_pending send_response unblock send_end_req
on_end_resp-IsPipelined env now s t h = ground arith

on_internal-IsPipelined :
    (env : Around) (now : ℕ) (s : Target) (es : List Event) (t : ℕ)
    → IsPipelined s
    → latent s.peq ≡ 1 + latent es
    → After (on_internal env now (record s { peq = es }) t)
unfolding on_internal send_pending send_response unblock send_end_req
on_internal-IsPipelined env now s es t h e = ground arith

on_begin_req-IsPipelined :
    (env : Around) (now : ℕ) (s : Target) (t : ℕ)
    → IsPipelined s
    → IsPipelined (on_begin_req env now s t)
unfolding on_begin_req send_end_req
on_begin_req-IsPipelined env now s t h = ground arith

peq_cb-IsPipelined :
    (env : Around) (now : ℕ) (s : Target) (es : List Event) (t : ℕ) (ph : AtPhase)
    → IsPipelined s
    → latent s.peq ≡ latent_phase ph + latent es
    → After (peq_cb env now (record s { peq = es }) t ph)
unfolding peq_cb
peq_cb-IsPipelined env now s es t (protocol begin_req) h e =
    on_begin_req-IsPipelined env now (record s { peq = es }) t (ground arith)
peq_cb-IsPipelined env now s es t (protocol end_resp) h e =
    on_end_resp-IsPipelined env now (record s { peq = es }) t (ground arith)
peq_cb-IsPipelined env now s es t (protocol _) h e = tt
peq_cb-IsPipelined env now s es t internal_ph h e = on_internal-IsPipelined env now s es t h e

peq_cb_of-IsPipelined :
    (k : Kind) (env : Around) (now : ℕ) (s : Target) (es : List Event) (t : ℕ) (ph : AtPhase)
    → IsPipelined s
    → latent s.peq ≡ latent_phase ph + latent es
    → After (peq_cb_of k env now (record s { peq = es }) t ph)
peq_cb_of-IsPipelined typea env now s es t ph h e = peq_cb-IsPipelined env now s es t ph h e
peq_cb_of-IsPipelined typeb env now s es t ph h e = peq_cb-IsPipelined env now s es t ph h e

transport-IsPipelined :
    (env : Around) (now : ℕ) (s : Target) (t : ℕ) (ph : Phase) (delay : ℕ)
    → IsPipelined s
    → IsPipelined (nb_transport_fw env now s t ph delay)
      × IsPipelined (typeb_nb_transport_fw env now s t ph delay)
unfolding nb_transport_fw typeb_nb_transport_fw
transport-IsPipelined env now s t ph delay h = (ground arith, ground arith)

step-IsPipelined :
    (k : Kind) (env : Around) (s : Target) (i : Input) → IsPipelined s → After (step k env s i)
unfolding step
step-IsPipelined typea env s (transport now t ph delay) h =
    (transport-IsPipelined env now s t ph delay h).0
step-IsPipelined typeb env s (transport now t ph delay) h =
    (transport-IsPipelined env now s t ph delay h).1
step-IsPipelined k env s (comes_up now i) h =
    let taken = take_event-IsTaken (λ e. latent_phase e.phase) i s.peq in
    elim (Option-cases (take_event i s.peq)) [
      | inl empty ↦ rw (step, empty) h
      | inr ((e, es), found) ↦
          let split = rw found at taken in
          rw (step, found) (peq_cb_of-IsPipelined k env now s es e.trans e.phase h split)
    ]

handle-IsPipelined :
    (k : Kind) (env : Around) (s : Target) (i : Input) → IsPipelined s → After (handle k env s i)
unfolding handle
handle-IsPipelined k env s i h =
    step-IsPipelined k env (record s { store = env.store_before s.store }) i (ground arith)

pub play-IsPipelined :
    (k : Kind) (s : Target) (is : List (Around × Input)) → IsPipelined s → After (play k s is)
unfolding play
play-IsPipelined k s [] h = h
play-IsPipelined k s ((env, i) ∷ is) h =
    let first = handle-IsPipelined k env s i h in
    elim (Outcome-cases (handle k env s i)) [
      | inl (s', e) ↦ rw (play, e) (play-IsPipelined k s' is (rw e at first))
      | inr (why, e) ↦ rw (play, e) (rw e at first)
    ]

-- In every run of a target of type A or B from its start, for any calls of `nb_transport_fw`, any
-- answers to its own calls and any order of the events of its queue: it holds at most two
-- transactions, those whose latency is running and those with a response in progress or held back;
-- it holds back a response only while another is in progress, and a request only while it holds two
-- transactions; and it never ends with two responses to hold back.
pub pipeline_bound :
    (k : Kind) (m : Store) (is : List (Around × Input)) → After (play k (constructed m) is)
pipeline_bound k m is = play-IsPipelined k (constructed m) is (omega arith)
