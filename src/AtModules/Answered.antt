-- ===== src/AtModules/Answered.antt =====
-- locknsnoop/common/at_typea_target.h and at_typeb_target.h: every request that is accepted gets one
-- response.
use psa.Prelude.{
  ℕ, ◌+◌, ◌*◌, ◌≡◌, refl, Option, none, some, List, [], ◌∷◌, arith, Option-cases, inl, inr,
  if◌then◌else◌, ◌==◌,
}
use psa.AtInterconnect.{Phase, begin_req, end_req, begin_resp, end_resp, Sync, updated}
use psa.AtModules.{
  AtPhase, protocol, internal_ph, Event, Around, Outcome, runs, fatal, take_event, total,
  take_event-IsTaken, Store, Action, bw_call, returns, Outcome-cases,
}
use psa.AtModules.Typea.{
  Target, send_end_req, unblock, send_response, send_pending, on_end_resp, on_internal,
  on_begin_req, peq_cb, peq_cb_of, nb_transport_fw, typeb_nb_transport_fw, Kind, typea, typeb,
  Input, transport, comes_up, step, handle, constructed, play,
}

abbrev is_it : ℕ → ℕ → ℕ
is_it u t = if u == t then 1 else 0

-- `END_REQ` on the return path
abbrev accepts : Sync → Phase → ℕ
accepts updated end_req = 1
accepts _ _ = 0

-- The END_REQs and the BEGIN_RESPs for the transaction `t` that an action sends
abbrev end_req_of : ℕ → Action → ℕ
end_req_of t (bw_call u end_req delay) = is_it u t
end_req_of t (returns u a) = accepts a.status a.phase * is_it u t
end_req_of t _ = 0

abbrev response_of : ℕ → Action → ℕ
response_of t (bw_call u begin_resp delay) = is_it u t
response_of t _ = 0

abbrev pub end_reqs : ℕ → List Action → ℕ
end_reqs t [] = 0
end_reqs t (a ∷ rest) = end_req_of t a + end_reqs t rest

abbrev pub responses : ℕ → List Action → ℕ
responses t [] = 0
responses t (a ∷ rest) = response_of t a + responses t rest

-- How often the latency of `t` is running, and its response is held back
abbrev latent_event : ℕ → ℕ → AtPhase → ℕ
latent_event t u internal_ph = is_it u t
latent_event t u (protocol ph) = 0

abbrev pub latent_for : ℕ → List Event → ℕ
latent_for t es = total (λ e. latent_event t e.trans e.phase) es

abbrev pub held_back : ℕ → Option ℕ → ℕ
held_back t none = 0
held_back t (some u) = is_it u t

-- The transaction was accepted as often as it got a response or waits for one.
abbrev pub IsAnswered : ℕ → Target → Type 0
IsAnswered t s =
    end_reqs t s.did ≡ responses t s.did + latent_for t s.peq + held_back t s.next_response_pending

abbrev Answers : ℕ → Outcome Target → Type 0
Answers t (runs s) = IsAnswered t s
Answers t (fatal why) = Unit

module _ (t : ℕ) where
  on_end_resp-Answers :
      (env : Around) (now : ℕ) (s : Target) (u : ℕ)
      → IsAnswered t s
      → Answers t (on_end_resp env now s u)
  unfolding on_end_resp send_pending send_response unblock send_end_req
  on_end_resp-Answers env now s u h = ground arith

  on_internal-Answers :
      (env : Around) (now : ℕ) (s : Target) (es : List Event) (u : ℕ)
      → IsAnswered t s
      → latent_for t s.peq ≡ is_it u t + latent_for t es
      → Answers t (on_internal env now (record s { peq = es }) u)
  unfolding on_internal send_pending send_response unblock send_end_req
  on_internal-Answers env now s es u h e = ground arith

  on_begin_req-IsAnswered :
      (env : Around) (now : ℕ) (s : Target) (u : ℕ)
      → IsAnswered t s
      → IsAnswered t (on_begin_req env now s u)
  unfolding on_begin_req send_end_req
  on_begin_req-IsAnswered env now s u h = ground arith

  peq_cb-Answers :
      (env : Around) (now : ℕ) (s : Target) (es : List Event) (u : ℕ) (ph : AtPhase)
      → IsAnswered t s
      → latent_for t s.peq ≡ latent_event t u ph + latent_for t es
      → Answers t (peq_cb env now (record s { peq = es }) u ph)
  unfolding peq_cb
  peq_cb-Answers env now s es u (protocol begin_req) h e =
      on_begin_req-IsAnswered env now (record s { peq = es }) u (ground arith)
  peq_cb-Answers env now s es u (protocol end_resp) h e =
      on_end_resp-Answers env now (record s { peq = es }) u (ground arith)
  peq_cb-Answers env now s es u (protocol _) h e = tt
  peq_cb-Answers env now s es u internal_ph h e = on_internal-Answers env now s es u h e

  peq_cb_of-Answers :
      (k : Kind) (env : Around) (now : ℕ) (s : Target) (es : List Event) (u : ℕ) (ph : AtPhase)
      → IsAnswered t s
      → latent_for t s.peq ≡ latent_event t u ph + latent_for t es
      → Answers t (peq_cb_of k env now (record s { peq = es }) u ph)
  peq_cb_of-Answers typea env now s es u ph h e = peq_cb-Answers env now s es u ph h e
  peq_cb_of-Answers typeb env now s es u ph h e = peq_cb-Answers env now s es u ph h e

  transport-IsAnswered :
      (env : Around) (now : ℕ) (s : Target) (u : ℕ) (ph : Phase) (delay : ℕ)
      → IsAnswered t s
      → IsAnswered t (nb_transport_fw env now s u ph delay)
        × IsAnswered t (typeb_nb_transport_fw env now s u ph delay)
  unfolding nb_transport_fw typeb_nb_transport_fw
  transport-IsAnswered env now s u ph delay h = (ground arith, ground arith)

  step-Answers :
      (k : Kind) (env : Around) (s : Target) (i : Input)
      → IsAnswered t s
      → Answers t (step k env s i)
  unfolding step
  step-Answers typea env s (transport now u ph delay) h =
      (transport-IsAnswered env now s u ph delay h).0
  step-Answers typeb env s (transport now u ph delay) h =
      (transport-IsAnswered env now s u ph delay h).1
  step-Answers k env s (comes_up now i) h =
      let taken = take_event-IsTaken (λ e. latent_event t e.trans e.phase) i s.peq in
      elim (Option-cases (take_event i s.peq)) [
        | inl empty ↦ rw (step, empty) h
        | inr ((e, es), found) ↦
            let split = rw found at taken in
            rw (step, found) (peq_cb_of-Answers k env now s es e.trans e.phase h split)
      ]

  handle-Answers :
      (k : Kind) (env : Around) (s : Target) (i : Input)
      → IsAnswered t s
      → Answers t (handle k env s i)
  unfolding handle
  handle-Answers k env s i h =
      step-Answers k env (record s { store = env.store_before s.store }) i (ground arith)

  play-Answers :
      (k : Kind) (s : Target) (is : List (Around × Input))
      → IsAnswered t s
      → Answers t (play k s is)
  unfolding play
  play-Answers k s [] h = h
  play-Answers k s ((env, i) ∷ is) h =
      let first = handle-Answers k env s i h in
      elim (Outcome-cases (handle k env s i)) [
        | inl (s', e) ↦ rw (play, e) (play-Answers k s' is (rw e at first))
        | inr (why, e) ↦ rw (play, e) tt
      ]

-- In every run of a target of type A or B from its start that does not end the simulation, for any
-- calls of `nb_transport_fw`, any answers to its own calls and any order of the events of its queue:
-- for each transaction, the END_REQs that the target has given, on the backward or the return path,
-- are as many as the BEGIN_RESPs that it has sent and those that it has yet to send, which are the
-- latencies of the transaction that are running and its response that is held back.
pub answered_once :
    (k : Kind) (m : Store) (is : List (Around × Input)) (s : Target) (t : ℕ)
    → play k (constructed m) is ≡ runs s
    → end_reqs t s.did
      ≡ responses t s.did + latent_for t s.peq + held_back t s.next_response_pending
answered_once k m is s t e = let all = play-Answers t k (constructed m) is refl in rw e at all
