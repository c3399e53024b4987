-- ===== src/AtInterconnect/Steps.antt =====
-- locknsnoop/common/at_interconnect.h: what each input does to the requests for one target.
use psa.Prelude.{
  ℕ, ◌-◌, ◌≡◌, refl, sym, false, not, Option, none, some, List, [], ◌∷◌, if◌then◌else◌, ◌==◌,
  if_cases, Bool-cases, inl, inr, update,
}
use psa.AtInterconnect.{
  Phase, begin_req, end_req, begin_resp, end_resp, Trans, AtInterconnect, fw, Done, is_some,
  notify_end_req,
}
use psa.AtInterconnect.Forward.{Answers, after_fw, pass_fw, nb_transport_fw}
use psa.AtInterconnect.Backward.{nb_transport_bw, backward, send_bw, ends_request_of}
use psa.AtInterconnect.Processes.{
  end_req_process, end_rsp_process, next_request, next_response, Input, from_initiator, from_target,
  end_req_process_runs, end_rsp_process_runs, handle,
}
use psa.AtInterconnect.Requests.{
  Keeps, Keeps-move, after_fw-Keeps, accept_end-Keeps, backward-Keeps, send_bw-Keeps,
}
use psa.AtInterconnect.Queues.{
  trans_of, IsQueued, arrival, ending, Steps, append_nil, Keeps-Steps, accept_request-Steps,
  next_request-Steps,
}

-- The requests are the same but for what the events say.
Steps-from :
    (q : ℕ) (s s' : AtInterconnect) (arr : List ℕ) (ended : ℕ) (d : Option Done)
    → s'.req_queue ≡ s.req_queue
    → s'.req_in_progress ≡ s.req_in_progress
    → Steps q s' arr ended d
    → Steps q s arr ended d
Steps-from q s s' arr ended none e1 e2 h = tt
Steps-from q s s' arr ended (some d) e1 e2 h = (rw e1 at h.0, rw e2 at h.1, h.2)

from_initiator-Steps :
    (q : ℕ) (env : Answers) (s : AtInterconnect) (now id t : ℕ) (ph : Phase) (delay : ℕ)
    → IsQueued s q
    → Steps q s
        (arrival q s (from_initiator now id t ph delay))
        0
        (nb_transport_fw env s now id t ph delay)
unfolding nb_transport_fw pass_fw
from_initiator-Steps q env s now id t begin_req delay h =
    accept_request-Steps q env s now id t delay h
from_initiator-Steps q env s now id t end_resp delay h =
    Keeps-Steps q s _ h (accept_end-Keeps q env s now id t (s.route t) delay)
from_initiator-Steps q env s now id t end_req delay h =
    Keeps-Steps q s
      (after_fw s now id t 0 none (fw 0 t end_req delay ∷ [])
        (env.target_answers 0 t end_req delay))
      h
      (Keeps-move q s s [] (fw 0 t end_req delay ∷ [])
        (after_fw s now id t 0 none (fw 0 t end_req delay ∷ [])
          (env.target_answers 0 t end_req delay))
        refl refl refl
        (after_fw-Keeps q s now id t 0 none (fw 0 t end_req delay ∷ [])
          (env.target_answers 0 t end_req delay)))
from_initiator-Steps q env s now id t begin_resp delay h =
    Keeps-Steps q s
      (after_fw s now id t 0 none (fw 0 t begin_resp delay ∷ [])
        (env.target_answers 0 t begin_resp delay))
      h
      (Keeps-move q s s [] (fw 0 t begin_resp delay ∷ [])
        (after_fw s now id t 0 none (fw 0 t begin_resp delay ∷ [])
          (env.target_answers 0 t begin_resp delay))
        refl refl refl
        (after_fw-Keeps q s now id t 0 none (fw 0 t begin_resp delay ∷ [])
          (env.target_answers 0 t begin_resp delay)))

from_target-Steps :
    (q : ℕ) (env : Answers) (s : AtInterconnect) (now id t : ℕ) (ph : Phase) (delay : ℕ)
    → IsQueued s q
    → Steps q s [] 0 (nb_transport_bw env s now id t ph delay)
unfolding nb_transport_bw
from_target-Steps q env s now id t ph delay h =
    let s' : AtInterconnect = notify_end_req s id in
    if_cases (Steps q s [] 0) (not (ends_request_of s id t ph))
      (λ other. Keeps-Steps q s _ h (backward-Keeps q env s now t (s.route t) ph delay))
      (λ ends.
        if_cases (Steps q s [] 0) (is_some (s.req_in_progress id))
          (λ busy.
            Steps-from q s s' [] 0 (backward env s' now t (s.route t) ph delay) refl refl
              (Keeps-Steps q s' _ h (backward-Keeps q env s' now t (s.route t) ph delay)))
          (λ idle. tt))

end_req_process-Steps :
    (q : ℕ) (env : Answers) (s : AtInterconnect) (now target : ℕ)
    → IsQueued s q
    → Steps q s [] (if target == q then 1 else 0) (end_req_process env s now target)
unfolding end_req_process
end_req_process-Steps q env s now target h =
    let s' : AtInterconnect = record s { end_req_event = update s.end_req_event target false } in
    if_cases (Steps q s [] (if target == q then 1 else 0)) (is_some (s.req_in_progress target))
      (λ busy.
        Steps-from q s s' [] (if target == q then 1 else 0)
          (next_request env s' now target (s.req_queue target)) refl refl
          (next_request-Steps q env s' now target (s.req_queue target) refl busy h))
      (λ idle. tt)

next_response-Keeps :
    (q : ℕ) (env : Answers) (s : AtInterconnect) (now init : ℕ) (rsps : List Trans)
    → Keeps q s [] (next_response env s now init rsps)
unfolding next_response
next_response-Keeps q env s now init [] = (refl, refl, refl)
next_response-Keeps q env s now init (rsp ∷ rsps) =
    let s' : AtInterconnect = record s {
      rsp_queue = update s.rsp_queue init rsps;
      rsp_in_progress = update s.rsp_in_progress init (some rsp.trans);
    } in
    Keeps-move q s s' [] [] (send_bw env s' rsp.trans begin_resp (rsp.time - now) []) refl refl refl
      (send_bw-Keeps q env s' rsp.trans begin_resp (rsp.time - now) [])

end_rsp_process-Steps :
    (q : ℕ) (env : Answers) (s : AtInterconnect) (now init : ℕ)
    → IsQueued s q
    → Steps q s [] 0 (end_rsp_process env s now init)
unfolding end_rsp_process
end_rsp_process-Steps q env s now init h =
    let s' : AtInterconnect = record s { end_rsp_event = update s.end_rsp_event init false } in
    if_cases (Steps q s [] 0) (is_some (s.rsp_in_progress init))
      (λ busy.
        Steps-from q s s' [] 0 (next_response env s' now init (s.rsp_queue init)) refl refl
          (Keeps-Steps q s' _ h (next_response-Keeps q env s' now init (s.rsp_queue init))))
      (λ idle. tt)

pub handle-Steps :
    (q : ℕ) (env : Answers) (s : AtInterconnect) (i : Input)
    → IsQueued s q
    → Steps q s (arrival q s i) (ending q s i) (handle env s i)
unfolding handle
handle-Steps q env s (from_initiator now id t ph delay) h =
    from_initiator-Steps q env s now id t ph delay h
handle-Steps q env s (from_target now id t ph delay) h =
    from_target-Steps q env s now id t ph delay h
handle-Steps q env s (end_req_process_runs now target) h =
    elim (Bool-cases (s.end_req_event target)) [
      | inl e ↦ rw e (end_req_process-Steps q env s now target h)
      | inr e ↦ rw e (sym (append_nil (trans_of (s.req_queue q))), refl, h)
    ]
handle-Steps q env s (end_rsp_process_runs now init) h = elim (Bool-cases (s.end_rsp_event init)) [
  | inl e ↦ rw e (end_rsp_process-Steps q env s now init h)
  | inr e ↦ rw e (sym (append_nil (trans_of (s.req_queue q))), refl, h)
]
