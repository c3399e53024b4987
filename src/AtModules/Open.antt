-- ===== src/AtModules/Open.antt =====
-- locknsnoop/common/at_typea_initiator.h and at_typeb_initiator.h: the request of an initiator that is
-- open between it and the module on the other side, as the calls between the two say it, with no look
-- at `req_in_progress`; and that `req_in_progress` follows it.
use psa.Prelude.{
  ℕ, ◌+◌, ◌≡◌, ◌==◌, if◌then◌else◌, Option, none, some, List, [], ◌∷◌, arith, Option-cases, inl,
  inr,
}
use psa.AtInterconnect.{Phase, begin_req, end_req, begin_resp, Sync, completed}
use psa.AtModules.{
  rand_ps, AtPhase, protocol, internal_ph, Event, Action, fw_call, Outcome, runs, fatal, take_event,
  Outcome-cases,
}
use psa.AtModules.Initiators.{
  resumes, Initiator, Meets, set_up, send_request, start_round, thread_process, peq_cb,
  nb_transport_bw, typeb_nb_transport_bw,
}
use psa.AtModules.Initiators.Steps.{
  peq_cb_of, Kind, typea, typeb, Input, thread_goes_on, transport, comes_up, step, handle, play,
}

abbrev begin_req_of : Action → ℕ
begin_req_of (fw_call t begin_req delay) = 1
begin_req_of _ = 0

abbrev pub begin_reqs : List Action → ℕ
begin_reqs [] = 0
begin_reqs (a ∷ rest) = begin_req_of a + begin_reqs rest

-- The last BEGIN_REQ that was sent
abbrev last_request : List Action → Option ℕ
last_request [] = none
last_request (fw_call t begin_req delay ∷ rest) = some t
last_request (_ ∷ rest) = last_request rest

-- What the thread's BEGIN_REQ met: the answer of `nb_transport_fw`
abbrev request_status : Meets → Initiator → ℕ → Sync
request_status env s t =
    (env.nb_transport_fw (elim s.pc [ resumes u ↦ s.store | _ ↦ set_up s.store s.i env ]) t
      begin_req (rand_ps env.delay_rand)).1.status

-- A request is open from its BEGIN_REQ on, unless the answer is TLM_COMPLETED.
abbrev opened : Meets → Initiator → Option ℕ → Option ℕ
opened env s none = none
opened env s (some t) = elim (request_status env s t) [ completed ↦ none | _ ↦ some t ]

-- An END_REQ ends the request that is open, and a BEGIN_RESP the request of its own transaction.
abbrev ended_by : ℕ → Phase → Option ℕ → Option ℕ
ended_by t end_req o = none
ended_by t begin_resp none = none
ended_by t begin_resp (some u) = if u == t then none else some u
ended_by t _ o = o

abbrev taken_up : ℕ → AtPhase → Option ℕ → Option ℕ
taken_up t (protocol ph) o = ended_by t ph o
taken_up t internal_ph o = o

abbrev event_ends : Option (Event × List Event) → Option ℕ → Option ℕ
event_ends none o = o
event_ends (some (e, es)) o = taken_up e.trans e.phase o

-- A phase is taken up when its event comes up, and a BEGIN_RESP by type B when it is called.
abbrev heard : Kind → Initiator → Input → Option ℕ → Option ℕ
heard kind s (thread_goes_on now) o = o
heard typeb s (transport now t begin_resp delay) o = ended_by t begin_resp o
heard kind s (transport now t ph delay) o = o
heard kind s (comes_up now k) o = event_ends (take_event k s.peq) o

-- The open request after an input, which took the initiator from `s` to `s'`
abbrev pub open_after : Kind → Meets → Initiator → Input → Initiator → Option ℕ → Option ℕ
open_after kind env s i s' o =
    if begin_reqs s'.did == begin_reqs s.did
    then heard kind s i o
    else opened env s (last_request s'.did)

-- The step begins with what the other modules have done to the store.
abbrev pub met : Meets → Initiator → Initiator
met env s = record s { store = env.store_before s.store }

-- The open request after a run
unfoldable pub open_request : Kind → Initiator → List (Meets × Input) → Option ℕ → Option ℕ
unfolding handle
open_request kind s [] o = o
open_request kind s ((env, i) ∷ is) o = elim (handle kind env s i) [
  | runs s' ↦ open_request kind s' is (open_after kind env (met env s) i s' o)
  | fatal why ↦ o
]

-- The request in progress is the one that is open.
abbrev Follows : Kind → Meets → Initiator → Input → Outcome Initiator → Type 0
Follows kind env s i (fatal why) = Unit
Follows kind env s i (runs s') = open_after kind env s i s' s.req_in_progress ≡ s'.req_in_progress

thread-Follows :
    (kind : Kind) (env : Meets) (now : ℕ) (s : Initiator)
    → Follows kind env s (thread_goes_on now) (thread_process env now s)
unfolding thread_process start_round send_request
thread-Follows kind env now s = ground arith

-- The same of an event that came up, for which no BEGIN_REQ is sent
abbrev Hears : Initiator → ℕ → AtPhase → Outcome Initiator → Type 0
Hears s t ph (fatal why) = Unit
Hears s t ph (runs s') =
    (begin_reqs s'.did ≡ begin_reqs s.did) × (taken_up t ph s.req_in_progress ≡ s'.req_in_progress)

peq_cb-Hears :
    (env : Meets) (s : Initiator) (es : List Event) (t : ℕ) (ph : AtPhase)
    → Hears s t ph (peq_cb env (record s { peq = es }) t ph)
unfolding peq_cb
peq_cb-Hears env s es t (protocol end_req) = ground arith
peq_cb-Hears env s es t (protocol begin_resp) = ground arith
peq_cb-Hears env s es t (protocol _) = tt
peq_cb-Hears env s es t internal_ph = ground arith

peq_cb_of-Hears :
    (kind : Kind) (env : Meets) (s : Initiator) (es : List Event) (t : ℕ) (ph : AtPhase)
    → Hears s t ph (peq_cb_of kind env (record s { peq = es }) t ph)
peq_cb_of-Hears typea env s es t ph = peq_cb-Hears env s es t ph
peq_cb_of-Hears typeb env s es t ph = peq_cb-Hears env s es t ph

Hears-Follows :
    (kind : Kind) (env : Meets) (now k : ℕ) (s : Initiator) (e : Event) (es : List Event)
    (d : Outcome Initiator)
    → take_event k s.peq ≡ some (e, es)
    → Hears s e.trans e.phase d
    → Follows kind env s (comes_up now k) d
Hears-Follows kind env now k s e es (fatal why) found h = tt
Hears-Follows kind env now k s e es (runs s') found h = rw (found, h.0) (ground arith)

transport-Follows :
    (kind : Kind) (env : Meets) (now : ℕ) (s : Initiator) (t : ℕ) (ph : Phase) (delay : ℕ)
    → Follows kind env s (transport now t ph delay) (step kind env s (transport now t ph delay))
unfolding step nb_transport_bw typeb_nb_transport_bw
transport-Follows typea env now s t ph delay = ground arith
transport-Follows typeb env now s t end_req delay = ground arith
transport-Follows typeb env now s t begin_resp delay = ground arith
transport-Follows typeb env now s t _ delay = tt

step-Follows :
    (kind : Kind) (env : Meets) (s : Initiator) (i : Input)
    → Follows kind env s i (step kind env s i)
unfolding step
step-Follows typea env s (thread_goes_on now) = thread-Follows typea env now s
step-Follows typeb env s (thread_goes_on now) = thread-Follows typeb env now s
step-Follows kind env s (transport now t ph delay) = transport-Follows kind env now s t ph delay
step-Follows kind env s (comes_up now k) = elim (Option-cases (take_event k s.peq)) [
  | inl empty ↦ rw (step, empty) (rw empty (ground arith))
  | inr ((e, es), found) ↦
      rw (step, found)
        (Hears-Follows kind env now k s e es
          (peq_cb_of kind env (record s { peq = es }) e.trans e.phase) found
          (peq_cb_of-Hears kind env s es e.trans e.phase))
]

pub handle-Follows :
    (kind : Kind) (env : Meets) (s : Initiator) (i : Input)
    → Follows kind env (met env s) i (handle kind env s i)
unfolding handle
handle-Follows kind env s i = step-Follows kind env (met env s) i

pub play-open :
    (kind : Kind) (s : Initiator) (is : List (Meets × Input)) (s1 : Initiator)
    → play kind s is ≡ runs s1
    → open_request kind s is s.req_in_progress ≡ s1.req_in_progress
unfolding play open_request
play-open kind s [] s1 e = ground arith
play-open kind s ((env, i) ∷ is) s1 e =
    let one = handle-Follows kind env s i in
    elim (Outcome-cases (handle kind env s i)) [
      | inl (s', e') ↦
          let same : open_after kind env (met env s) i s' s.req_in_progress ≡ s'.req_in_progress =
            rw e' at one in
          rw (open_request, e', same) (play-open kind s' is s1 (rw (play, e') at e))
      | inr (why, e') ↦ let no = rw (play, e') at e in ground arith
    ]
