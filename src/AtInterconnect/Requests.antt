-- ===== src/AtInterconnect/Requests.antt =====
-- locknsnoop/common/at_interconnect.h: what each of the calls and processes does to the requests.
use psa.Prelude.{
  ℕ, ◌≡◌, refl, Option, none, some, List, [], ◌∷◌, ◌++◌, if◌then◌else◌, ◌==◌, arith, if_cases,
  Option-cases, inl, inr, ap, ◌∙◌,
}
use psa.AtInterconnect.{
  Phase, begin_req, begin_resp, end_resp, Route, AtInterconnect, Call, fw, bw, Answer, Done,
  is_some, take_response, stop_propagation, notify_end_req, is_begin_resp,
}
use psa.AtInterconnect.Forward.{
  Answers, return_updated, return_completed, after_fw, pass_fw, accept_end,
}
use psa.AtInterconnect.Backward.{pass_bw, start_response, backward, send_end, send_bw}
use psa.AtInterconnect.Processes.{deliver, after_queued}

-- The requests among calls that are sent to a target
abbrev pub sent_by : ℕ → Call → List ℕ
sent_by q (fw target t begin_req d) = if target == q then t ∷ [] else []
sent_by q _ = []

abbrev pub sent : ℕ → List Call → List ℕ
sent q [] = []
sent q (c ∷ cs) = sent_by q c ++ sent q cs

-- If the call ends, the queues of requests and the requests in progress are as in `s`, and of
-- requests it has sent what `calls` has.
abbrev pub Keeps : ℕ → AtInterconnect → List Call → Option Done → Type 0
Keeps q s calls none = Unit
Keeps q s calls (some d) =
    (d.state.req_queue ≡ s.req_queue)
    × (d.state.req_in_progress ≡ s.req_in_progress)
    × (sent q d.calls ≡ sent q calls)

pub after_fw-Keeps :
    (q : ℕ) (s : AtInterconnect) (now id t target : ℕ) (r : Option Route) (calls : List Call)
    (a : Answer)
    → Keeps q s calls (after_fw s now id t target r calls a)
unfolding after_fw return_updated return_completed
after_fw-Keeps q s now id t target r calls a = ground arith

sent-quiet :
    (q : ℕ) (cs : List Call) (c : Call) → sent_by q c ≡ [] → sent q (cs ++ c ∷ []) ≡ sent q cs
sent-quiet q [] c e = rw e refl
sent-quiet q (d ∷ cs) c e = ap (λ xs. sent_by q d ++ xs) (sent-quiet q cs c e)

pub Keeps-move :
    (q : ℕ) (s s' : AtInterconnect) (calls calls' : List Call) (d : Option Done)
    → s'.req_queue ≡ s.req_queue
    → s'.req_in_progress ≡ s.req_in_progress
    → sent q calls' ≡ sent q calls
    → Keeps q s' calls' d
    → Keeps q s calls d
Keeps-move q s s' calls calls' none e1 e2 e3 h = tt
Keeps-move q s s' calls calls' (some d) e1 e2 e3 h = (h.0 ∙ e1, h.1 ∙ e2, h.2 ∙ e3)

pub accept_end-Keeps :
    (q : ℕ) (env : Answers) (s : AtInterconnect) (now id t : ℕ) (r : Option Route) (delay : ℕ)
    → Keeps q s [] (accept_end env s now id t r delay)
unfolding accept_end pass_fw after_fw return_updated return_completed
accept_end-Keeps q env s now id t none delay = tt
accept_end-Keeps q env s now id t (some r) delay = ground arith

pub pass_bw-Keeps :
    (q : ℕ) (env : Answers) (s : AtInterconnect) (init t : ℕ) (ph : Phase) (delay : ℕ)
    → Keeps q s [] (pass_bw env s init t ph delay)
unfolding pass_bw
pass_bw-Keeps q env s init t ph delay = ground arith

pub backward-Keeps :
    (q : ℕ) (env : Answers) (s : AtInterconnect) (now t : ℕ) (r : Option Route) (ph : Phase)
    (delay : ℕ)
    → Keeps q s [] (backward env s now t r ph delay)
unfolding backward start_response pass_bw
backward-Keeps q env s now t none ph delay = tt
backward-Keeps q env s now t (some r) begin_resp delay = ground arith
backward-Keeps q env s now t (some r) _ delay = ground arith

pub send_bw-Keeps :
    (q : ℕ) (env : Answers) (s : AtInterconnect) (t : ℕ) (ph : Phase) (delay : ℕ)
    (calls : List Call)
    → Keeps q s calls (send_bw env s t ph delay calls)
unfolding send_bw send_end
send_bw-Keeps q env s t ph delay calls = elim (Option-cases (s.route t)) [
  | inl e ↦ rw (send_bw, e) tt
  | inr (r, e) ↦
      let a : Answer = env.initiator_answers r.init t ph delay in
      let calls' : List Call = calls ++ bw r.init t ph delay ∷ [] in
      let first = sent-quiet q calls (bw r.init t ph delay) refl in
      let second = sent-quiet q calls' (fw r.target t end_resp a.delay) refl in
      rw (send_bw, e) (ground arith)
]

deliver-Keeps :
    (q : ℕ) (env : Answers) (s : AtInterconnect) (now init t delay : ℕ) (calls : List Call)
    → Keeps q s calls (deliver env s now init t delay calls)
unfolding deliver
deliver-Keeps q env s now init t delay calls =
    if_cases (Keeps q s calls) (is_some (s.rsp_in_progress init)) (λ busy. (refl, refl, refl))
      (λ free.
        Keeps-move q s (take_response s init t) calls calls _ refl refl refl
          (send_bw-Keeps q env (take_response s init t) t begin_resp delay calls))

updated-Keeps :
    (q : ℕ) (env : Answers) (s : AtInterconnect) (now t : ℕ) (r : Route) (calls : List Call)
    (a : Answer)
    → Keeps q s calls (
        if is_begin_resp a.phase
        then deliver env s now r.init t a.delay calls
        else send_bw env s t a.phase a.delay calls)
updated-Keeps q env s now t r calls a =
    if_cases (Keeps q s calls) (is_begin_resp a.phase)
      (λ resp. deliver-Keeps q env s now r.init t a.delay calls)
      (λ other. send_bw-Keeps q env s t a.phase a.delay calls)

pub after_queued-Keeps :
    (q : ℕ) (env : Answers) (s : AtInterconnect) (now target t : ℕ) (r : Route) (calls : List Call)
    (a : Answer)
    → Keeps q s calls (after_queued env s now target t r calls a)
unfolding after_queued
after_queued-Keeps q env s now target t r calls a =
    let done : AtInterconnect = stop_propagation (notify_end_req s target) t r in
    let sent_on =
      Keeps-move q s done calls calls (deliver env done now r.init t a.delay calls) refl refl refl
        (deliver-Keeps q env done now r.init t a.delay calls) in
    let plain = updated-Keeps q env s now t r calls a in
    let ended : AtInterconnect = notify_end_req s target in
    let noted =
      Keeps-move q s ended calls calls
        (if is_begin_resp a.phase
          then deliver env ended now r.init t a.delay calls
          else send_bw env ended t a.phase a.delay calls)
        refl refl refl (updated-Keeps q env ended now t r calls a) in
    ground arith
