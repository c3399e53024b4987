-- ===== src/AtModules/Single.antt =====
-- locknsnoop/common/at_typec_target.h: one response at a time, and at most one held back.
use psa.Prelude.{
  ℕ, ◌+◌, ◌≤◌, ◌≡◌, refl, true, List, [], ◌∷◌, arith, Option-cases, Bool-cases, inl, inr, ==_iff,
  ◌∙◌,
}
use psa.AtInterconnect.{Phase, begin_req, begin_resp, end_resp, Sync, updated}
use psa.AtInterconnect.Queues.{bit}
use psa.AtModules.{
  AtPhase, protocol, internal_ph, Event, Store, Action, release, bw_call, returns, Around,
  illegal_end_resp, illegal_phase, Outcome, runs, fatal, take_event, Outcome-cases, total,
  take_event-IsTaken,
}
use psa.AtModules.Pipeline.{flag}
use psa.AtModules.Typec.{
  Target, constructed, send_response, on_end_resp, on_internal, peq_cb, nb_transport_fw, Input,
  transport, comes_up, step, handle, request_of, requests, keeps_rule, play,
}

-- A BEGIN_RESP on the backward or the return path, and the end of a response, at which the target lets
-- the transaction go
abbrev responds : Sync → Phase → ℕ
responds updated begin_resp = 1
responds _ _ = 0

abbrev response_of : Action → ℕ
response_of (bw_call t begin_resp delay) = 1
response_of (returns t a) = responds a.status a.phase
response_of _ = 0

abbrev release_of : Action → ℕ
release_of (release t) = 1
release_of _ = 0

abbrev pub responses : List Action → ℕ
responses [] = 0
responses (a ∷ rest) = response_of a + responses rest

abbrev pub releases : List Action → ℕ
releases [] = 0
releases (a ∷ rest) = release_of a + releases rest

-- One request at most has not ended; a response is held back only while another is in progress; and
-- of the responses that were begun all have ended, but for the one in progress.
pub record IsSingle (s : Target) : Type 0 where
  pub single : requests s ≤ 1
  pub paired : bit s.next_response_pending ≤ flag s.response_in_progress
  pub exclusive : responses s.did ≡ releases s.did + flag s.response_in_progress

-- A run that goes on, or an end that the target did not cause
abbrev pub After : Outcome Target → Type 0
After (runs s) = IsSingle s
After (fatal illegal_end_resp) = Unit
After (fatal illegal_phase) = Unit
After (fatal _) = ⊥

on_end_resp-IsSingle :
    (env : Around) (now : ℕ) (s : Target) (t : ℕ) → IsSingle s → After (on_end_resp env now s t)
unfolding on_end_resp send_response
on_end_resp-IsSingle env now s t h = ground arith

peq_cb-IsSingle :
    (env : Around) (now : ℕ) (s : Target) (es : List Event) (t : ℕ) (ph : AtPhase)
    → IsSingle s
    → total (λ e. request_of e.phase) s.peq ≡ request_of ph + total (λ e. request_of e.phase) es
    → After (peq_cb env now (record s { peq = es }) t ph)
unfolding peq_cb on_internal send_response
peq_cb-IsSingle env now s es t (protocol begin_req) h e = ground arith
peq_cb-IsSingle env now s es t (protocol end_resp) h e =
    on_end_resp-IsSingle env now (record s { peq = es }) t (ground arith)
peq_cb-IsSingle env now s es t (protocol _) h e = tt
peq_cb-IsSingle env now s es t internal_ph h e = ground arith

transport-IsSingle :
    (now : ℕ) (s : Target) (t : ℕ) (ph : Phase) (delay : ℕ)
    → IsSingle s
    → keeps_rule s (transport now t ph delay) ≡ true
    → IsSingle (nb_transport_fw now s t ph delay)
unfolding nb_transport_fw
transport-IsSingle now s t begin_req delay h rule =
    let idle = (==_iff (requests s) 0).0 rule in ground arith
transport-IsSingle now s t _ delay h rule = ground arith

step-IsSingle :
    (env : Around) (s : Target) (i : Input)
    → IsSingle s
    → keeps_rule s i ≡ true
    → After (step env s i)
unfolding step
step-IsSingle env s (transport now t ph delay) h rule = transport-IsSingle now s t ph delay h rule
step-IsSingle env s (comes_up now i) h rule =
    let taken = take_event-IsTaken (λ e. request_of e.phase) i s.peq in
    elim (Option-cases (take_event i s.peq)) [
      | inl empty ↦ rw (step, empty) h
      | inr ((e, es), found) ↦
          let split = rw found at taken in
          rw (step, found) (peq_cb-IsSingle env now s es e.trans e.phase h split)
    ]

keeps_rule-store :
    (s : Target) (m : Store) (i : Input) → keeps_rule (record s { store = m }) i ≡ keeps_rule s i
keeps_rule-store s m (transport now t begin_req delay) = refl
keeps_rule-store s m (transport now t _ delay) = refl
keeps_rule-store s m (comes_up now i) = refl

handle-IsSingle :
    (env : Around) (s : Target) (i : Input)
    → IsSingle s
    → keeps_rule s i ≡ true
    → After (handle env s i)
unfolding handle
handle-IsSingle env s i h rule =
    let m : Store = env.store_before s.store in
    step-IsSingle env (record s { store = m }) i (ground arith) (keeps_rule-store s m i ∙ rule)

play-IsSingle : (s : Target) (is : List (Around × Input)) → IsSingle s → After (play s is)
unfolding play
play-IsSingle s [] h = h
play-IsSingle s ((env, i) ∷ is) h = elim (Bool-cases (keeps_rule s i)) [
  | inr breaks ↦ rw (play, breaks) h
  | inl keeps ↦
      let first = handle-IsSingle env s i h keeps in
      elim (Outcome-cases (handle env s i)) [
        | inl (s', e) ↦ let one = rw e at first in rw (play, keeps, e) (play-IsSingle s' is one)
        | inr (why, e) ↦ let one = rw e at first in rw (play, keeps, e) one
      ]
]

-- In every run of a target of type C from its start in which a BEGIN_REQ comes only when the last
-- request has got its BEGIN_RESP, for any other calls, any answers to its own calls and any order of
-- the events of its queue: it sends a BEGIN_RESP only when no response is in progress, so that the
-- responses begun are those that ended and at most one more; it holds back a response only while one
-- is in progress; and it never ends with two responses to hold back.
pub single_response : (m : Store) (is : List (Around × Input)) → After (play (constructed m) is)
single_response m is = play-IsSingle (constructed m) is (omega arith)
