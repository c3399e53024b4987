-- ===== src/AtInterconnect/Following.antt =====
-- locknsnoop/common/at_interconnect.h: the members of the interconnect follow the request that is open
-- at a target, whatever the input.
use psa.Prelude.{
  ℕ, ◌-◌, ◌≡◌, refl, true, false, not, Option, none, some, List, [], ◌∷◌, ◌==◌, arith, if_cases,
  Bool-cases, Option-cases, inl, inr, subst, ℕ_discrete, update,
}
use psa.AtInterconnect.{
  Phase, begin_req, end_req, begin_resp, end_resp, Trans, AtInterconnect, is_some, notify_end_req,
}
use psa.AtInterconnect.Forward.{Answers, pass_fw, nb_transport_fw}
use psa.AtInterconnect.Backward.{nb_transport_bw, backward, ends_request_of}
use psa.AtInterconnect.Processes.{
  send_queued, next_request, end_req_process, next_response, end_rsp_process, Input, from_initiator,
  from_target, end_req_process_runs, end_rsp_process_runs, handle,
}
use psa.AtInterconnect.Open.{heard, open_here, is_live, Follows}
use psa.AtInterconnect.Calls.{
  backward-Follows, fw_other-Follows, accept_request-Follows, accept_end-Follows, send_bw-Follows,
  after_queued-Follows,
}

-- The process of the end of a request, which takes the next one from the queue
next_request-Follows :
    (q : ℕ) (env : Answers) (o : Option ℕ) (s : AtInterconnect) (now target : ℕ) (reqs : List Trans)
    → s.end_req_event target ≡ false
    → ((target == q) ≡ true → o ≡ none)
    → ((target == q) ≡ false → (o ≡ open_here s q) × (is_live s q ≡ true))
    → Follows q env o (next_request env s now target reqs)
unfolding next_request send_queued
next_request-Follows q env o s now target [] quiet ended other = elim (ℕ_discrete target q) [
  | yes here ↦ let was = ended (ground arith) in let at_q = rw here at quiet in ground arith
  | no ne ↦ let same = other (ground arith) in ground arith
]
next_request-Follows q env o s now target (req ∷ reqs) quiet ended other =
    let s' : AtInterconnect = record s {
      req_queue = update s.req_queue target reqs;
      req_in_progress = update s.req_in_progress target (some req.trans);
    } in
    elim (Option-cases (s.route req.trans)) [
      | inl missing ↦ rw (next_request, send_queued, missing) tt
      | inr (r, found) ↦
          rw (next_request, send_queued, found)
            (if_cases (Follows q env o) (r.target == target)
              (λ same.
                after_queued-Follows q env o s' now target req.trans (req.time - now) r
                  (ground arith) quiet (λ ne. let kept = other ne in rw ne kept))
              (λ differs. tt))
    ]

end_req_process-Follows :
    (q : ℕ) (env : Answers) (s : AtInterconnect) (now target : ℕ)
    → s.end_req_event target ≡ true
    → is_live s q ≡ true
    → Follows q env (open_here s q) (end_req_process env s now target)
unfolding end_req_process
end_req_process-Follows q env s now target notified live =
    let s' : AtInterconnect = record s { end_req_event = update s.end_req_event target false } in
    if_cases (Follows q env (open_here s q)) (is_some (s.req_in_progress target))
      (λ busy.
        next_request-Follows q env (open_here s q) s' now target (s.req_queue target) (ground arith)
          (λ same. elim (ℕ_discrete target q) [
            | yes here ↦ let at_q = rw here at notified in ground arith
            | no ne ↦ ground arith
          ])
          (λ ne. rw ne (refl, live)))
      (λ idle. tt)

next_response-Follows :
    (q : ℕ) (env : Answers) (s : AtInterconnect) (now init : ℕ) (rsps : List Trans)
    → is_live s q ≡ true
    → Follows q env (open_here s q) (next_response env s now init rsps)
unfolding next_response
next_response-Follows q env s now init [] live = (refl, live)
next_response-Follows q env s now init (rsp ∷ rsps) live =
    let s' : AtInterconnect = record s {
      rsp_queue = update s.rsp_queue init rsps;
      rsp_in_progress = update s.rsp_in_progress init (some rsp.trans);
    } in
    send_bw-Follows q env (open_here s q) s' rsp.trans begin_resp (rsp.time - now) [] refl live

from_initiator-Follows :
    (q : ℕ) (env : Answers) (s : AtInterconnect) (now id t : ℕ) (ph : Phase) (delay : ℕ)
    → ((p : ℕ) → is_live s p ≡ true)
    → Follows q env (open_here s q) (nb_transport_fw env s now id t ph delay)
unfolding nb_transport_fw pass_fw
from_initiator-Follows q env s now id t begin_req delay live =
    accept_request-Follows q env s now id t delay live
from_initiator-Follows q env s now id t end_resp delay live =
    accept_end-Follows q env s now id t (s.route t) delay (live q)
from_initiator-Follows q env s now id t end_req delay live =
    fw_other-Follows q env s now id t 0 delay end_req (live q) refl
from_initiator-Follows q env s now id t begin_resp delay live =
    fw_other-Follows q env s now id t 0 delay begin_resp (live q) refl

-- What a call of the target ends, by the members and by the calls
heard-same :
    (q : ℕ) (s : AtInterconnect) (now id t : ℕ) (ph : Phase) (delay : ℕ)
    → not (ends_request_of s id t ph) ≡ true
    → open_here s q ≡ heard q (from_target now id t ph delay) (open_here s q)
heard-same q s now id t begin_resp delay other = elim (ℕ_discrete id q) [
  | yes here ↦ let at_q = rw here at other in ground arith
  | no ne ↦ ground arith
]
heard-same q s now id t _ delay other = ground arith

heard-ended :
    (q : ℕ) (s : AtInterconnect) (now id t : ℕ) (ph : Phase) (delay : ℕ)
    → not (ends_request_of s id t ph) ≡ false
    → open_here (notify_end_req s id) q ≡ heard q (from_target now id t ph delay) (open_here s q)
heard-ended q s now id t begin_resp delay ends = elim (ℕ_discrete id q) [
  | yes here ↦ let at_q = rw here at ends in ground arith
  | no ne ↦ ground arith
]
heard-ended q s now id t _ delay ends = ground arith

from_target-Follows :
    (q : ℕ) (env : Answers) (s : AtInterconnect) (now id t : ℕ) (ph : Phase) (delay : ℕ)
    → is_live s q ≡ true
    → Follows q env
        (heard q (from_target now id t ph delay) (open_here s q))
        (nb_transport_bw env s now id t ph delay)
unfolding nb_transport_bw
from_target-Follows q env s now id t ph delay live =
    let o : Option ℕ = heard q (from_target now id t ph delay) (open_here s q) in
    let s' : AtInterconnect = notify_end_req s id in
    let busy_live : is_some (s.req_in_progress id) ≡ true → is_live s' q ≡ true = λ busy.
      elim (ℕ_discrete id q) [
        | yes here ↦ let at_q = rw here at busy in ground arith
        | no ne ↦ ground arith
      ] in
    let plain = backward-Follows q env s now t (s.route t) ph delay live in
    if_cases (Follows q env o) (not (ends_request_of s id t ph))
      (λ other.
        subst (λ x. Follows q env x (backward env s now t (s.route t) ph delay))
          (heard-same q s now id t ph delay other) plain)
      (λ ends.
        if_cases (Follows q env o) (is_some (s.req_in_progress id))
          (λ busy.
            subst (λ x. Follows q env x (backward env s' now t (s.route t) ph delay))
              (heard-ended q s now id t ph delay ends)
              (backward-Follows q env s' now t (s.route t) ph delay (busy_live busy)))
          (λ idle. tt))

pub handle-Follows :
    (q : ℕ) (env : Answers) (s : AtInterconnect) (i : Input)
    → ((p : ℕ) → is_live s p ≡ true)
    → Follows q env (heard q i (open_here s q)) (handle env s i)
unfolding handle end_rsp_process
handle-Follows q env s (from_initiator now id t ph delay) live =
    from_initiator-Follows q env s now id t ph delay live
handle-Follows q env s (from_target now id t ph delay) live =
    from_target-Follows q env s now id t ph delay (live q)
handle-Follows q env s (end_req_process_runs now target) live =
    elim (Bool-cases (s.end_req_event target)) [
      | inl e ↦ rw e (end_req_process-Follows q env s now target e (live q))
      | inr e ↦ rw e (refl, live q)
    ]
handle-Follows q env s (end_rsp_process_runs now init) live =
    let s' : AtInterconnect = record s { end_rsp_event = update s.end_rsp_event init false } in
    elim (Bool-cases (s.end_rsp_event init)) [
      | inl e ↦ rw e (
          if_cases (Follows q env (open_here s q)) (is_some (s.rsp_in_progress init))
            (λ busy. next_response-Follows q env s' now init (s.rsp_queue init) (live q))
            (λ idle. tt))
      | inr e ↦ rw e (refl, live q)
    ]
